-- ===== src/Logo/Drawing/Defs.antt =====
-- The first part of the `defs` of `build` (gen.py, lines 215 to 243): the paths of the faces, the clips
-- of the prisms, the gradients and the filters.
use yession.Prelude.{
  ℕ, false, Option, none, some, List, [], ◌∷◌, ◌++◌, map, Text, codes, if◌then◌else◌,
}
use yession.Words.{decimal}
use yession.Logo.Number.{Float, whole, min_of}
use yession.Logo.Colours.{mix}
use yession.Logo.Atoms.{n, pathd, blur}
use yession.Logo.Solid.{Point, shade}
use yession.Logo.Intro.{Params}
use yession.Logo.Markup.{Clock, Anim, el}
use yession.Logo.Drawing.{
  green_hot, blue_hot, ◌>>=◌, Graded, Column, normal_of, is_top, col, hot, deep, dk, column_anim,
  of_prism, each, try_each,
}

-- The parts of an f-string.
abbrev pub cat : List Text → Text
cat [] = []
cat (t ∷ ts) = t ++ cat ts

-- `{key}-p{i}`
abbrev pub numbered : Text → Text → ℕ → Text
numbered key part i = key ++ (part ++ decimal i)

module _ (F : Float) (k : Clock) (key : Text) where
  open F use {Num, lit, mul, fixed2}

  abbrev pub path_def : Column F → Text
  path_def c =
      el k (codes "path")
        (cat (codes " id=\"" ∷ numbered key (codes "-p") c.index ∷ codes "\"" ∷ []))
        (column_anim F (codes "d") false (λ f. pathd F f.points) c ∷ []) []

  -- `pcl`
  abbrev pub clip_uses : ℕ → List (Column F) → Text
  clip_uses pi cs =
      each F
        (λ c. cat (codes "<use href=\"#" ∷ numbered key (codes "-p") c.index ∷ codes "\"/>" ∷ []))
        (of_prism F pi cs)

  abbrev pub clip_def : List (Column F) → ℕ → Text
  clip_def cs pi = cat (
      codes "<clipPath id=\""
      ∷ numbered key (codes "-c") pi
      ∷ codes "\">"
      ∷ clip_uses pi cs
      ∷ codes "</clipPath>"
      ∷ [])

  -- The gradients of a column; `none` is a KeyError.
  abbrev pub grads_over : List (Graded F) → Option (List (Point F × Point F))
  grads_over [] = some []
  grads_over ((f, none) ∷ gs) = none
  grads_over ((f, some g) ∷ gs) = do rest ← grads_over gs; some (g ∷ rest)

  abbrev pub grad_anim :
      Text → (Point F × Point F → Num) → Point F × Point F → List (Point F × Point F) → Anim
  grad_anim attr at g gs = record {
    attr = attr;
    discrete = false;
    first = n F (at g);
    rest = map (λ h. n F (at h)) gs;
  }

  abbrev pub first_grad : Column F → Option (Point F × Point F)
  first_grad c = c.first.1

  -- The gradient of a top.
  abbrev pub top_def : Column F → Option Text
  top_def c = do
    g ← first_grad c
    gs ← grads_over c.rest
    edge ← mix F (col F c) (lit 9 1)
    some (
        el k (codes "linearGradient")
          (cat (
            codes " id=\""
            ∷ numbered key (codes "-f") c.index
            ∷ codes "\" gradientUnits=\"userSpaceOnUse\""
            ∷ []))
          (grad_anim (codes "x1") (λ h. h.0.0) g gs
            ∷ grad_anim (codes "y1") (λ h. h.0.1) g gs
            ∷ grad_anim (codes "x2") (λ h. h.1.0) g gs
            ∷ grad_anim (codes "y2") (λ h. h.1.1) g gs
            ∷ [])
          (cat (
            codes "<stop offset=\"0\" stop-color=\""
            ∷ hot F c
            ∷ codes "\"/><stop offset=\"0.5\" stop-color=\""
            ∷ col F c
            ∷ codes "\"/><stop offset=\"1\" stop-color=\""
            ∷ edge
            ∷ codes "\"/>"
            ∷ [])))

  -- The gradient of a face that is no top.
  abbrev pub side_def : Num → Column F → Option Text
  side_def agent c = do
    shaded ← shade F (col F c) (normal_of F c)
    c_ ← dk F agent c shaded
    middle ← mix F c_ (lit 92 2)
    low ← dk F agent c (deep F c)
    some (
        cat (
          codes "<linearGradient id=\""
          ∷ numbered key (codes "-f") c.index
          ∷ codes "\" x1=\"0\" y1=\"0\" x2=\"0\" y2=\"1\"><stop offset=\"0\" stop-color=\""
          ∷ c_
          ∷ codes "\"/><stop offset=\"0.55\" stop-color=\""
          ∷ middle
          ∷ codes "\"/><stop offset=\"1\" stop-color=\""
          ∷ low
          ∷ codes "\"/></linearGradient>"
          ∷ []))

  abbrev pub gradient_def : Num → Column F → Option Text
  gradient_def agent c = if is_top F c then top_def c else side_def agent c

  abbrev pub rim_filter : Num → Text → Text → Text
  rim_filter rim tag hc = cat (
      codes "<filter id=\""
      ∷ key
      ∷ codes "-rim"
      ∷ tag
      ∷ codes
          "\" filterUnits=\"userSpaceOnUse\" x=\"-8\" y=\"-8\" width=\"80\" height=\"80\"><feFlood flood-color=\""
      ∷ hc
      ∷ codes "\" flood-opacity=\""
      ∷ fixed2 (min_of F (whole F 1) (mul (lit 9 1) rim))
      ∷ codes
          "\" result=\"f\"/><feComposite in=\"f\" in2=\"SourceAlpha\" operator=\"out\" result=\"o\"/><feGaussianBlur in=\"o\" stdDeviation=\""
      ∷ n F (mul (lit 13 1) rim)
      ∷ codes
          "\" result=\"b\"/><feComposite in=\"b\" in2=\"SourceAlpha\" operator=\"in\" result=\"rim\"/><feBlend in=\"rim\" in2=\"SourceGraphic\" mode=\"screen\"/></filter>"
      ∷ [])

  abbrev pub turbidity : Text
  turbidity = cat (
      codes "<filter id=\""
      ∷ key
      ∷ codes
          "-tb\" filterUnits=\"userSpaceOnUse\" x=\"0\" y=\"0\" width=\"64\" height=\"64\"><feTurbulence type=\"fractalNoise\" baseFrequency=\"0.9\" numOctaves=\"2\" seed=\"7\" result=\"t\"/><feColorMatrix in=\"t\" type=\"matrix\" values=\"0.33 0.33 0.33 0 0 0.33 0.33 0.33 0 0 0.33 0.33 0.33 0 0 0 0 0 0 0.22\" result=\"grey\"/><feComposite in=\"grey\" in2=\"SourceAlpha\" operator=\"in\" result=\"tf\"/><feBlend in=\"tf\" in2=\"SourceGraphic\" mode=\"overlay\"/></filter>"
      ∷ [])

  -- The defs in their order, up to the two blurs.
  unfoldable pub first_defs : Params F → List (Column F) → Option Text
  unfolding el pathd mix shade n blur decimal
  first_defs p cs = do
    gradients ← try_each F (gradient_def p.agent) cs
    some (
        cat (
          each F path_def cs
          ∷ cat (map (clip_def cs) (0 ∷ 1 ∷ 2 ∷ []))
          ∷ gradients
          ∷ rim_filter p.rim (codes "g") green_hot
          ∷ rim_filter p.rim (codes "b") blue_hot
          ∷ turbidity
          ∷ blur F (key ++ codes "-bl") (lit 36 1)
          ∷ blur F (key ++ codes "-hb") (lit 45 2)
          ∷ []))
