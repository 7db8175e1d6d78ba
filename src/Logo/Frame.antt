-- ===== src/Logo/Frame.antt =====
-- One instant of the intro, as numbers (`frame` of assets/logo/gen.py, lines 169 to 188).
use yession.Prelude.{
  ℕ, zero, suc, Bool, Option, none, some, List, [], ◌∷◌, ◌++◌, map, if◌then◌else◌,
}
use yession.Logo.Number.{Float, whole, max_of, sum_all}
use yession.Logo.Sort.{sorted_by}
use yession.Logo.Solid.{
  Point, Vec, Prism, ccw, prism_faces, prisms_at, target, lamp, height, lifted,
}
use yession.Logo.Camera.{Lens, project, visible, bounds, box_of, highlight}
use yession.Logo.Clock.{ramp}
use yession.Logo.Intro.{Rig, rig}

module _ (F : Float) where
  open F use {Num, lit, add, sub, mul, div, lt}

  -- An entry of `faces`: the number of its prism, its normal, its corners on the screen, and whether it
  -- is turned to the eye.
  pub record Face : Type 0 where
    pub prism : ℕ
    pub normal : Vec F
    pub points : List (Point F)
    pub seen : Bool

  -- `tuple(sum(q[i] for q in corners)/4 for i in range(3))`
  abbrev pub centre : List (Vec F) → Vec F
  centre corners = (
    div (sum_all F (map (λ (q : Vec F). q.0) corners)) (whole F 4),
    div (sum_all F (map (λ (q : Vec F). q.1) corners)) (whole F 4),
    div (sum_all F (map (λ (q : Vec F). q.2) corners)) (whole F 4),
  )

  abbrev pub face : Lens F → ℕ → Vec F × List (Vec F) → Face
  face c pi (nrm, corners) = record {
    prism = pi;
    normal = nrm;
    points = map (project F c) corners;
    seen = visible F c nrm (centre corners);
  }

  -- The loops that fill `faces`, from the prism of that number on.
  unfoldable pub faces : Lens F → ℕ → List (Prism F) → List Face
  unfolding project visible prism_faces
  faces c pi [] = []
  faces c pi (p ∷ ps) = map (face c pi) (prism_faces F p.poly p.z0 p.z1) ++ faces c (suc pi) ps

  -- `f["hlr"]` of the corners of the first face; `none` is a ValueError of no corner.
  abbrev pub spread : Option ((Num × Num) × (Num × Num)) → Option Num
  spread none = none
  spread (some ((x0, x1), (y0, y1))) = some (mul (lit 9 1) (max_of F (sub x1 x0) (sub y1 y0)))

  abbrev pub corners_of_first : List Face → List (Point F)
  corners_of_first [] = []
  corners_of_first (f ∷ fs) = f.points

  abbrev pub reach : List (Point F) → Option Num
  reach top = spread (
      box_of F (bounds F (map (λ (q : Point F). q.0) top))
        (bounds F (map (λ (q : Point F). q.1) top)))

  -- How far a corner lies toward the lamp: the key that `order` is sorted by.
  abbrev pub toward_lamp : Point F → Num
  toward_lamp (x, y) =
      let (tx, ty, tz) = target F in
      let (lx, ly, lz) = lamp F in add (mul (sub x tx) (sub lx tx)) (mul (sub y ty) (sub ly ty))

  abbrev pub last_of : Point F → List (Point F) → Point F
  last_of a [] = a
  last_of a (b ∷ ps) = last_of b ps

  -- The corner nearest to the lamp and the one farthest from it, on the screen at the height of the top.
  abbrev pub gradient : Lens F → List (Point F) → Option (Point F × Point F)
  gradient c [] = none
  gradient c (a ∷ ps) =
      some (project F c (lifted F (height F) (last_of a ps)), project F c (lifted F (height F) a))

  abbrev pub poly_of : ℕ → List (Prism F) → List (Point F)
  poly_of n [] = []
  poly_of zero (p ∷ ps) = p.poly
  poly_of (suc n) (p ∷ ps) = poly_of n ps

  -- `f["grad"][i]` of a face; `none` if the face is no top, whose normal is vertical.
  unfoldable pub grad : Lens F → List (Prism F) → Face → Option (Point F × Point F)
  unfolding project ccw sorted_by
  grad c prisms f =
      if lt f.normal.2 (lit 5 1)
      then none
      else gradient c
          (sorted_by (λ a b. lt (toward_lamp a) (toward_lamp b)) (ccw F (poly_of f.prism prisms)))

  -- The dict that `frame` returns, with `grad` as a list over the faces.
  pub record Frame : Type 0 where
    pub material : Num
    pub panels : Num
    pub flat : Num
    pub faces : List Face
    pub grads : List (Option (Point F × Point F))
    pub junction : Point F
    pub hl : Point F
    pub hlr : Num
    pub ks : Num

  abbrev pub with_reach : (Num → Frame) → Option Num → Option Frame
  with_reach k none = none
  with_reach k (some r) = some (k r)

  unfoldable pub frame : Rig F → Num → Option Frame
  unfolding ramp rig prisms_at project highlight faces grad
  frame i t =
      let e = ramp F t i.params.camera.0 i.params.camera.1 in
      let ep = ramp F t i.params.panels.0 i.params.panels.1 in
      let ef = ramp F t i.params.fx.0 i.params.fx.1 in
      let c = rig F i e in
      let prisms = prisms_at F (mul i.params.delta (sub (whole F 1) ep)) in
      let all = faces c 0 prisms in
      with_reach
        (λ r. record {
          material = ef;
          panels = ep;
          flat = sub (whole F 1) ef;
          faces = all;
          grads = map (grad c prisms) all;
          junction = project F c (whole F 0, whole F 0, height F);
          hl = project F c (highlight F c.eye (height F));
          hlr = r;
          ks = div c.s i.cam1.s;
        })
        (reach (corners_of_first all))
