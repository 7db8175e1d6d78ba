-- ===== src/Logo/Rasters/Page.antt =====
-- A picture with the size at which it is rendered (gen.py, lines 47 to 50 and 394 to 399).
use yession.Prelude.{
  ℕ, zero, suc, ◌+◌, ◌%◌, ◌/◌, ◌<◌, ◌≡◌, refl, ap, sym, ◌∙◌, true, some, [], ◌∷◌, ◌++◌, drop,
  append_assoc, Text, codes, ltb, Bool-cases, inl, inr, arith,
}
use yession.Words.{decimal, decimal_digits}
use yession.App.{starts_with}
use yession.Logo.Atoms.{svg}
use yession.Logo.Derived.{after_tag, inner, stripped}
use yession.Logo.Derived.Nested.{
  is_tagless, tag, contents, defs_line, after_tag-append, contents_found, after_tag-tag,
  searched-tag, inner-svg,
}
use yession.Logo.Rasters.{replaced_once, sized}

decimal_digits-is_tagless :
    (fuel n : ℕ) (acc : Text)
    → n < fuel
    → is_tagless acc ≡ true
    → is_tagless (decimal_digits fuel n acc) ≡ true
unfolding decimal_digits is_tagless
decimal_digits-is_tagless zero n acc h e = absurd (omega arith)
decimal_digits-is_tagless (suc fuel) n acc h e = elim (Bool-cases (ltb n 10)) [
  | inl small ↦ rw small (ground (arith, e, small))
  | inr big ↦ rw big (
      decimal_digits-is_tagless fuel (n / 10) ((48 + n % 10) ∷ acc) (ground arith)
        (ground (arith, e)))
]

decimal-is_tagless : (n : ℕ) → is_tagless (decimal n) ≡ true
unfolding decimal is_tagless
decimal-is_tagless n = decimal_digits-is_tagless (suc n) n [] (omega arith) refl

-- The attributes of the size, and the rest of the tag.
abbrev pub size_attributes : ℕ → Text → Text
size_attributes px s =
    codes " width=\""
    ++ (decimal px ++ (codes "\" height=\"" ++ (decimal px ++ (codes "\" " ++ s))))

literals_are_tagless :
    (is_tagless (codes " width=\"") ≡ true)
    × (is_tagless (codes "\" height=\"") ≡ true)
    × (is_tagless (codes "\" ") ≡ true)
unfolding is_tagless codes
literals_are_tagless = (refl, refl, refl)

after_tag-size_attributes : (px : ℕ) (s : Text) → after_tag (size_attributes px s) ≡ after_tag s
after_tag-size_attributes px s =
    let (width, height, last) = literals_are_tagless in
    after_tag-append (codes " width=\"") _ width
    ∙ after_tag-append (decimal px) _ (decimal-is_tagless px)
    ∙ after_tag-append (codes "\" height=\"") _ height
    ∙ after_tag-append (decimal px) _ (decimal-is_tagless px)
    ∙ after_tag-append (codes "\" ") s last

-- The first "<svg " of a text that begins with one.
replaced_once-first :
    (new s : Text) → replaced_once (codes "<svg ") new (codes "<svg " ++ s) ≡ new ++ s
unfolding replaced_once starts_with codes
replaced_once-first new s = refl

five_append :
    (a b c d s : Text) → (a ++ (b ++ (c ++ (b ++ d)))) ++ s ≡ a ++ (b ++ (c ++ (b ++ (d ++ s))))
five_append a b c d s = simp (append_assoc) refl

pub sized-first :
    (px : ℕ) (s : Text) → sized px (codes "<svg " ++ s) ≡ codes "<svg" ++ size_attributes px s
unfolding sized codes
sized-first px s =
    replaced_once-first
      (codes "<svg width=\""
        ++ (decimal px ++ (codes "\" height=\"" ++ (decimal px ++ codes "\" "))))
      s
    ∙ five_append (codes "<svg width=\"") (decimal px) (codes "\" height=\"") (codes "\" ") s

-- A picture behind "<svg ".
abbrev pub attributes : Text → Text → Text → Text → Text → Text
attributes body defs label box extra =
    drop 1 (tag label box extra (defs_line defs ++ (codes "\n  " ++ (body ++ codes "\n</svg>\n"))))

pub svg_behind :
    (body defs label box extra : Text)
    → svg body defs label box extra ≡ codes "<svg " ++ attributes body defs label box extra
unfolding svg codes
svg_behind body defs label box extra = refl

after_tag-attributes :
    (body defs label box extra : Text)
    → is_tagless label ≡ true
    → is_tagless box ≡ true
    → is_tagless extra ≡ true
    → after_tag (attributes body defs label box extra)
      ≡ some (defs_line defs ++ (codes "\n  " ++ (body ++ codes "\n</svg>\n")))
unfolding after_tag codes
after_tag-attributes body defs label box extra l b e =
    after_tag-tag label box extra (defs_line defs ++ (codes "\n  " ++ (body ++ codes "\n</svg>\n")))
      l b e

-- The size that a rendering writes into a picture goes into its own tag, and nowhere else: it stands
-- behind "<svg", before the attributes that `svg` wrote, and all that follows is as it was, also when
-- there are pictures within the body. So `inner` takes the same defs and the same body out of it, as
-- long as no ">" stands in the label, the box or the further attributes.
pub sized-svg :
    (px : ℕ) (body defs label box extra : Text)
    → is_tagless label ≡ true
    → is_tagless box ≡ true
    → is_tagless extra ≡ true
    → (sized px (svg body defs label box extra)
        ≡ codes "<svg" ++ size_attributes px (drop 5 (svg body defs label box extra)))
      × (inner (sized px (svg body defs label box extra)) ≡ inner (svg body defs label box extra))
unfolding inner
sized-svg px body defs label box extra l b e =
    let rest = attributes body defs label box extra in
    let whole = svg_behind body defs label box extra in
    let first = ap (sized px) whole ∙ sized-first px rest in
    (
      first ∙ ap (λ t. codes "<svg" ++ size_attributes px (drop 5 t)) (sym whole),
      ap inner first
          ∙ ap stripped (
              searched-tag (size_attributes px rest) _ (contents body defs)
                (after_tag-size_attributes px rest
                  ∙ after_tag-attributes body defs label box extra l b e)
                (contents_found body defs))
          ∙ sym (inner-svg body defs label box extra l b e),
    )
