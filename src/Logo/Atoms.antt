-- ===== src/Logo/Atoms.antt =====
-- The SVG atoms of assets/logo/gen.py (lines 39 to 50): numbers, paths, a blur and a whole picture.
pub mod Trim
use yession.Prelude.{
  ℕ, Bool, true, false, ◌&&◌, List, [], ◌∷◌, ◌++◌, map, Text, codes, text_eq, ◌==◌, if◌then◌else◌,
}
use yession.Words.{join}
use yession.Logo.Number.{Float, whole}

-- A code point before a text that lost what it ends with: of the code point `c` nothing is left at the end.
abbrev pub before_cut : ℕ → ℕ → Text → Text
before_cut c a [] = if a == c then [] else a ∷ []
before_cut c a (b ∷ r) = a ∷ b ∷ r

-- `s.rstrip(c)` of one code point.
unfoldable pub rstrip_char : ℕ → Text → Text
rstrip_char c [] = []
rstrip_char c (a ∷ s) = before_cut c a (rstrip_char c s)

-- `n` of a text that `f"{v:.2f}"` made: 48 is the zero and 46 the point.
unfoldable pub trimmed : Text → Text
unfolding rstrip_char codes
trimmed t =
    let u = rstrip_char 46 (rstrip_char 48 t) in if text_eq u (codes "-0") then codes "0" else u

module _ (F : Float) where
  open F use {Num, lit, fixed2}

  unfoldable pub n : Num → Text
  unfolding trimmed
  n v = trimmed (fixed2 v)

  abbrev point_text : Num × Num → Text
  point_text (x, y) = n x ++ (codes " " ++ n y)

  unfoldable pub pathd : List (Num × Num) → Text
  unfolding n join
  pathd poly = codes "M" ++ (join (codes " L") (map point_text poly) ++ codes " Z")

  unfoldable pub blur : Text → Num → Text
  unfolding n
  blur key sd =
      codes "<filter id=\""
      ++ (key
          ++ (codes
                "\" filterUnits=\"userSpaceOnUse\" x=\"-40\" y=\"-40\" width=\"144\" height=\"144\"><feGaussianBlur stdDeviation=\""
              ++ (n sd ++ codes "\"/></filter>")))

-- `svg`; the empty `defs` is left out.
unfoldable pub svg : Text → Text → Text → Text → Text → Text
svg body defs label box extra =
    let line = if text_eq defs [] then [] else codes "\n  <defs>" ++ (defs ++ codes "</defs>") in
    codes "<svg xmlns=\"http://www.w3.org/2000/svg\" viewBox=\""
    ++ (box
        ++ (codes "\" role=\"img\" aria-label=\""
            ++ (label
                ++ (codes "\""
                    ++ (extra
                        ++ (codes ">"
                            ++ (line ++ (codes "\n  " ++ (body ++ codes "\n</svg>\n")))))))))
