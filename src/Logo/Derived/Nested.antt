-- ===== src/Logo/Derived/Nested.antt =====
-- What `inner` takes out of a picture that `svg` made (gen.py, lines 47 to 50 and 305 to 307).
use yession.Prelude.{
  ◌≡◌, refl, ◌∙◌, Bool, true, ◌&&◌, not, some, [], ◌∷◌, ◌++◌, Text, codes, if◌then◌else◌, ◌==◌,
  text_eq, arith,
}
use yession.Words.{strip}
use yession.App.{starts_with}
use yession.Logo.Atoms.{svg}
use yession.Logo.Derived.{after_tag, before_last, searched, inner}

-- A text without the code point that ends a tag.
unfoldable pub is_tagless : Text → Bool
is_tagless [] = true
is_tagless (c ∷ s) = not (c == 62) && is_tagless s

pub after_tag-append : (p s : Text) → is_tagless p ≡ true → after_tag (p ++ s) ≡ after_tag s
unfolding after_tag is_tagless
after_tag-append [] s e = refl
after_tag-append (c ∷ p) s e = ground (arith, e, after_tag-append p s)

before_last-append :
    (word p s t : Text) → before_last word s ≡ some t → before_last word (p ++ s) ≡ some (p ++ t)
unfolding before_last
before_last-append word [] s t e = e
before_last-append word (c ∷ p) s t e = rw (before_last-append word p s t e) refl

-- The `defs` of a picture as a line, or nothing.
abbrev pub defs_line : Text → Text
defs_line defs = if text_eq defs [] then [] else codes "\n  <defs>" ++ (defs ++ codes "</defs>")

-- What stands between the tags of a picture.
abbrev pub contents : Text → Text → Text
contents body defs = defs_line defs ++ (codes "\n  " ++ (body ++ codes "\n"))

end_found : before_last (codes "</svg>") (codes "\n</svg>\n") ≡ some (codes "\n")
unfolding before_last starts_with codes
end_found = refl

pub contents_found :
    (body defs : Text)
    → before_last
        (codes "</svg>")
        (defs_line defs ++ (codes "\n  " ++ (body ++ codes "\n</svg>\n")))
      ≡ some (contents body defs)
contents_found body defs =
    before_last-append (codes "</svg>") (defs_line defs)
      (codes "\n  " ++ (body ++ codes "\n</svg>\n")) (codes "\n  " ++ (body ++ codes "\n"))
      (before_last-append (codes "</svg>") (codes "\n  ") (body ++ codes "\n</svg>\n")
        (body ++ codes "\n")
        (before_last-append (codes "</svg>") body (codes "\n</svg>\n") (codes "\n") end_found))

-- The tag of a picture without its first four code points, and what follows it.
abbrev pub tag : Text → Text → Text → Text → Text
tag label box extra s =
    codes " xmlns=\"http://www.w3.org/2000/svg\" viewBox=\""
    ++ (box
        ++ (codes "\" role=\"img\" aria-label=\""
            ++ (label ++ (codes "\"" ++ (extra ++ (codes ">" ++ s))))))

pub literals_are_tagless :
    (is_tagless (codes " xmlns=\"http://www.w3.org/2000/svg\" viewBox=\"") ≡ true)
    × (is_tagless (codes "\" role=\"img\" aria-label=\"") ≡ true)
    × (is_tagless (codes "\"") ≡ true)
unfolding is_tagless codes
literals_are_tagless = (refl, refl, refl)

tag_ends : (s : Text) → after_tag (codes ">" ++ s) ≡ some s
unfolding after_tag codes
tag_ends s = refl

pub after_tag-tag :
    (label box extra s : Text)
    → is_tagless label ≡ true
    → is_tagless box ≡ true
    → is_tagless extra ≡ true
    → after_tag (tag label box extra s) ≡ some s
after_tag-tag label box extra s l b e =
    let (head, role, quote) = literals_are_tagless in
    let end = codes ">" ++ s in
    after_tag-append (codes " xmlns=\"http://www.w3.org/2000/svg\" viewBox=\"") _ head
    ∙ after_tag-append box _ b
    ∙ after_tag-append (codes "\" role=\"img\" aria-label=\"") _ role
    ∙ after_tag-append label _ l
    ∙ after_tag-append (codes "\"") _ quote
    ∙ after_tag-append extra end e
    ∙ tag_ends s

pub svg_starts :
    (body defs label box extra : Text)
    → svg body defs label box extra
      ≡ codes "<svg"
        ++ tag label box extra (defs_line defs ++ (codes "\n  " ++ (body ++ codes "\n</svg>\n")))
unfolding svg codes
svg_starts body defs label box extra = refl

pub searched-tag :
    (s r t : Text)
    → after_tag s ≡ some r
    → before_last (codes "</svg>") r ≡ some t
    → searched (codes "<svg" ++ s) ≡ some t
unfolding searched starts_with codes
searched-tag s r t e f = rw (e, f) refl

-- What `inner` takes out of a picture is what `svg` put in, its defs and its body, without the white
-- space at the ends: whatever the body is, even one with pictures of its own, as long as no ">" stands
-- in the label, the box or the further attributes.
pub inner-svg :
    (body defs label box extra : Text)
    → is_tagless label ≡ true
    → is_tagless box ≡ true
    → is_tagless extra ≡ true
    → inner (svg body defs label box extra) ≡ some (strip (contents body defs))
unfolding inner
inner-svg body defs label box extra l b e =
    rw
      (
        svg_starts body defs label box extra,
        searched-tag _ _ _ (after_tag-tag label box extra _ l b e) (contents_found body defs),
      )
      refl
