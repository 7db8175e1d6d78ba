-- ===== src/Logo/Drawing/Light.antt =====
-- The spill at the junction and the lamp, as gradients and where they are painted (gen.py, lines 275 to
-- 281 and 285 to 294).
use yession.Prelude.{ℕ, List, [], ◌∷◌, Text, codes, if◌then◌else◌}
use yession.Logo.Number.{Float, whole}
use yession.Logo.Atoms.{n}
use yession.Logo.Frame.{Frame}
use yession.Logo.Markup.{Clock, el}
use yession.Logo.Drawing.{Column, is_side, frame_anim}
use yession.Logo.Drawing.Defs.{cat, numbered}

module _ (key : Text) where
  -- A rectangle of a gradient, clipped.
  abbrev pub clipped_rect : Text → Text → Text
  clipped_rect clip gradient = cat (
      codes "<g clip-path=\"url(#"
      ∷ clip
      ∷ codes ")\"><rect width=\"64\" height=\"64\" fill=\"url(#"
      ∷ key
      ∷ gradient
      ∷ codes ")\"/></g>"
      ∷ [])

  -- `spl`
  abbrev pub spill_on : ℕ → Text
  spill_on pi = clipped_rect (numbered key (codes "-c") pi) (codes "-sp")

module _ (F : Float) where
  -- The faces that are no sides or bottoms.
  abbrev pub upper : List (Column F) → List (Column F)
  upper [] = []
  upper (c ∷ cs) = let rest = upper cs in if is_side F c then rest else c ∷ rest

  -- The clip of a face to its own outline.
  abbrev pub top_clip : Text → Column F → Text
  top_clip key c = cat (
      codes "<clipPath id=\""
      ∷ numbered key (codes "-tc") c.index
      ∷ codes "\"><use href=\"#"
      ∷ numbered key (codes "-p") c.index
      ∷ codes "\"/></clipPath>"
      ∷ [])

module _ (F : Float) (k : Clock) (key : Text) (f : Frame F) (fs : List (Frame F)) where
  open F use {Num, lit, mul, fixed2, repr}

  abbrev pub radial : Text → (Frame F → Num) → (Frame F → Num) → (Frame F → Num) → Text → Text
  radial part cx cy r stops =
      el k (codes "radialGradient")
        (cat (codes " id=\"" ∷ key ∷ part ∷ codes "\" gradientUnits=\"userSpaceOnUse\"" ∷ []))
        (frame_anim F (codes "cx") (λ x. n F (cx x)) f fs
          ∷ frame_anim F (codes "cy") (λ x. n F (cy x)) f fs
          ∷ frame_anim F (codes "r") (λ x. n F (r x)) f fs
          ∷ [])
        stops

  abbrev pub spill_def : Num → Text
  spill_def spill =
      radial (codes "-sp") (λ x. x.junction.0) (λ x. x.junction.1) (λ x. mul (whole F 26) x.ks)
        (cat (
          codes "<stop offset=\"0\" stop-color=\"#fff\" stop-opacity=\""
          ∷ repr spill
          ∷ codes "\"/><stop offset=\"0.3\" stop-color=\"#bfeaff\" stop-opacity=\""
          ∷ fixed2 (mul spill (lit 4 1))
          ∷ codes "\"/><stop offset=\"1\" stop-color=\"#7fd0f5\" stop-opacity=\"0\"/>"
          ∷ []))

  abbrev pub lamp_def : Text
  lamp_def =
      radial (codes "-sh") (λ x. x.hl.0) (λ x. x.hl.1) (λ x. x.hlr)
        (codes
          "<stop offset=\"0\" stop-color=\"#fff\" stop-opacity=\"0.42\"/><stop offset=\"0.45\" stop-color=\"#fff\" stop-opacity=\"0.12\"/><stop offset=\"1\" stop-color=\"#fff\" stop-opacity=\"0\"/>")
