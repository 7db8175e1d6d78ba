-- ===== src/Logo/Derived.antt =====
-- The assets that are made of the mark (gen.py, lines 304 to 331 and 349 to 360): `inner`, the wordmark,
-- the lockup and the icon. The font is a parameter.
pub mod Nested
use yession.Prelude.{
  ℕ, zero, suc, ◌-◌, Bool, true, false, Option, none, some, List, [], ◌∷◌, ◌++◌, length, drop, Text,
  codes, if◌then◌else◌, ◌==◌,
}
use yession.Words.{strip}
use yession.App.{starts_with}
use yession.Logo.Number.{Float, whole}
use yession.Logo.Atoms.{n, svg}

-- What follows the first ">" (62), which ends `[^>]*>`.
unfoldable pub after_tag : Text → Option Text
after_tag [] = none
after_tag (c ∷ s) = if c == 62 then some s else after_tag s

-- What stands before the last occurrence, as a greedy `(.*)` does.
unfoldable pub before_last : Text → Text → Option Text
unfolding starts_with
before_last word [] = none
before_last word (c ∷ s) = elim (before_last word s) [
  | some t ↦ some (c ∷ t)
  | none ↦ if starts_with word (c ∷ s) then some [] else none
]

-- The group of the regular expression, if it matches here.
abbrev pub between_tags : Option Text → Option Text
between_tags none = none
between_tags (some s) = before_last (codes "</svg>") s

-- What a match here gives, or else the first one after it.
abbrev pub first_match : Option Text → Option Text → Option Text
first_match none later = later
first_match (some t) later = some t

-- `re.search(r"<svg[^>]*>(.*)</svg>", s, re.S).group(1)`
unfoldable pub searched : Text → Option Text
unfolding after_tag before_last starts_with codes
searched [] = none
searched (c ∷ s) =
    let later = searched s in
    if starts_with (codes "<svg") (c ∷ s)
    then first_match (between_tags (after_tag (drop 3 s))) later
    else later

abbrev pub stripped : Option Text → Option Text
stripped none = none
stripped (some t) = some (strip t)

-- `inner`; `none` is the AttributeError of a text that does not match.
unfoldable pub inner : Text → Option Text
unfolding searched strip
inner s = stripped (searched s)

-- `s.replace(old, new)` of an `old` that is not empty; the number is how many code points of a replaced
-- occurrence are still to be skipped.
unfoldable pub replaced : Text → Text → ℕ → Text → Text
unfolding starts_with
replaced old new k [] = []
replaced old new (suc k) (c ∷ s) = replaced old new k s
replaced old new zero (c ∷ s) =
    let hit = starts_with old (c ∷ s) in
    let rest = replaced old new (if hit then length old - 1 else 0) s in
    if hit then new ++ rest else c ∷ rest

unfoldable pub replace : Text → Text → Text → Text
unfolding replaced
replace old new s = replaced old new 0 s

module _ (F : Float) where
  open F use {Num, lit, neg, add, sub, mul, div}

  -- A font of some weight: `unitsPerEm`, and the path and the width of the glyph of a code point.
  pub record Font : Type 0 where
    pub units_per_em : Num
    pub commands : ℕ → Text
    pub width : ℕ → Num

  -- The loop of `wordmark`, from where the pen is.
  unfoldable pub glyphs : Font → Num → Num → Text → Text → Num → Text → Text × Num
  unfolding n
  glyphs f em baseline ink out pen_x [] = (out, pen_x)
  glyphs f em baseline ink out pen_x (c ∷ cs) =
      let k = div em f.units_per_em in
      glyphs f em baseline ink
        (out
          ++ (codes "<path transform=\"translate("
              ++ (n F pen_x
                  ++ (codes " "
                      ++ (n F baseline
                          ++ (codes ") scale("
                              ++ (n F k
                                  ++ (codes " "
                                      ++ (n F (neg k)
                                          ++ (codes ")\" fill=\""
                                              ++ (ink
                                                  ++ (codes "\" d=\""
                                                      ++ (f.commands c ++ codes "\"/>")))))))))))))
        (add pen_x (sub (mul (f.width c) k) (mul (lit 2 2) em))) cs

  -- `wordmark`: the markup and the advance.
  unfoldable pub wordmark : Font → Text → Num → Num → Num → Text → Text × Num
  unfolding glyphs
  wordmark f key em x baseline ink =
      let (out, pen_x) = glyphs f em baseline ink [] x (codes "yession") in
      (
        codes "<g id=\"" ++ (key ++ (codes "-word\">" ++ (out ++ codes "</g>"))),
        add (sub pen_x x) (mul (lit 2 2) em),
      )

  abbrev pub locked : Text × Num → Text → Option Text → Option Text
  locked word label none = none
  locked (word, adv) label (some t) =
      let w = add (add (lit 70 0) adv) (lit 4 0) in
      some (
        svg
          (codes "<g transform=\"translate(0 -2)\">"
            ++ (replace (codes "mark-") (codes "lockup-") t ++ (codes "</g>" ++ word)))
          [] label (codes "0 0 " ++ (n F w ++ codes " 64")) [])

  -- `lockup` with a font of its weight.
  unfoldable pub lockup : Font → Text → Text → Text → Option Text
  unfolding wordmark inner replace n svg
  lockup f mark_svg ink label =
      locked (wordmark f (codes "lockup") (lit 32 0) (lit 70 0) (lit 405 1) ink) label
        (inner mark_svg)

  -- PLATE, FILL and LIFT
  abbrev pub plate : Text
  plate = codes "#111111"

  abbrev pub fill : Num
  fill = lit 84 2

  abbrev pub lift : Num
  lift = lit 2 2

  abbrev pub plated : Option Text → Option Text
  plated none = none
  plated (some t) =
      let side = mul fill (whole F 1024) in
      let x = div (sub (whole F 1024) side) (whole F 2) in
      some (
        svg
          (codes "<rect width=\"1024\" height=\"1024\" rx=\"228\" fill=\""
            ++ (plate
                ++ (codes "\"/><svg x=\""
                    ++ (n F x
                        ++ (codes "\" y=\""
                            ++ (n F (sub x (mul lift (whole F 1024)))
                                ++ (codes "\" width=\""
                                    ++ (n F side
                                        ++ (codes "\" height=\""
                                            ++ (n F side
                                                ++ (codes "\" viewBox=\"0 0 64 64\">"
                                                    ++ (replace (codes "mark-") (codes "icon-") t
                                                        ++ codes "</svg>"))))))))))))
          [] (codes "yession") (codes "0 0 1024 1024") [])

  -- `icon`
  unfoldable pub icon : Text → Option Text
  unfolding inner replace n svg
  icon mark_svg = plated (inner mark_svg)
