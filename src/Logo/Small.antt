-- ===== src/Logo/Small.antt =====
-- The mark for 16 pixels (`small` of assets/logo/gen.py, lines 333 to 347).
pub mod Painted
use yession.Prelude.{
  ℕ, Bool, true, false, Option, none, some, List, [], ◌∷◌, ◌++◌, map, Text, codes, if◌then◌else◌,
}
use yession.Logo.Number.{Float, whole}
use yession.Logo.Sort.{sorted_by}
use yession.Logo.Colours.{mix}
use yession.Logo.Solid.{
  Point, Vec, Prism, plan, prism_faces, shade, depth_of_panel, height, blue, green,
}
use yession.Logo.Camera.{Lens, lens, project, depth, visible, fit, dist, up1, phi1}
use yession.Logo.Frame.{centre}
use yession.Logo.Atoms.{pathd, svg}

module _ (F : Float) where
  open F use {Num, lit, neg, add, div, lt}

  -- A face to draw: how near it is, its corners on the screen and its colour.
  pub record Drawn : Type 0 where
    pub near : Num
    pub points : List (Point F)
    pub colour : Text

  abbrev pub small_prisms : Num → List (Prism F)
  small_prisms g =
      let (cube, left, right) = plan F g (depth_of_panel F) in
      record { poly = cube; z0 = whole F 0; z1 = height F; col = blue F }
      ∷ record { poly = left; z0 = whole F 0; z1 = height F; col = green F }
      ∷ record { poly = right; z0 = whole F 0; z1 = height F; col = green F }
      ∷ []

  abbrev pub small_target : Num → Vec F
  small_target g =
      let a = add (whole F 1) (div g (whole F 2)) in
      (div (neg a) (whole F 2), div (neg a) (whole F 2), div (height F) (whole F 2))

  -- `col if nrm[2] > 0.5 else shade(col, nrm)`
  abbrev pub face_colour : Text → Vec F → Option Text
  face_colour col nrm = if lt (lit 5 1) nrm.2 then some col else shade F col nrm

  infixl 5 ◌>>=◌
  abbrev pub ◌>>=◌ : {A B : Type 0} → Option A → (A → Option B) → Option B
  none >>= f = none
  some a >>= f = f a

  -- The faces of a prism that are turned to the eye; `none` is a ValueError of `shade`.
  unfoldable pub drawn_faces : Lens F → Text → List (Vec F × List (Vec F)) → Option (List Drawn)
  unfolding visible depth project shade
  drawn_faces c col [] = some []
  drawn_faces c col ((nrm, corners) ∷ fs) =
      let cen = centre F corners in
      let rest = drawn_faces c col fs in
      if visible F c nrm cen
      then (do
        colour ← face_colour col nrm
        ds ← rest
        some (
            record { near = depth F c cen; points = map (project F c) corners; colour = colour }
            ∷ ds))
      else rest

  unfoldable pub drawn : Lens F → List (Prism F) → Option (List Drawn)
  unfolding drawn_faces prism_faces
  drawn c [] = some []
  drawn c (p ∷ ps) = do
    ds ← drawn_faces c p.col (prism_faces F p.poly p.z0 p.z1)
    es ← drawn c ps
    some (ds ++ es)

  -- `faces.sort(key=lambda f: f[0])`
  unfoldable pub painted : List Drawn → List Drawn
  unfolding sorted_by
  painted ds = sorted_by (λ a b. lt a.near b.near) ds

  abbrev pub paths : List Drawn → Text
  paths [] = []
  paths (d ∷ ds) =
      codes "<path d=\""
      ++ (pathd F d.points ++ (codes "\" fill=\"" ++ (d.colour ++ (codes "\"/>" ++ paths ds))))

  -- `small` with the kerf and the pad; `none` is an exception of `fit` or `shade`.
  unfoldable pub small : Num → Num → Option Text
  unfolding plan fit lens drawn painted pathd svg
  small g pad = do
    c ← fit F (lens F (phi1 F) (dist F) (up1 F) (small_target g)) (small_prisms g) pad
    ds ← drawn c (small_prisms g)
    some (svg (paths (painted ds)) [] (codes "yession") (codes "0 0 64 64") [])
