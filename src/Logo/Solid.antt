-- ===== src/Logo/Solid.antt =====
-- The object of assets/logo/gen.py (lines 31 to 37 and 52 to 79): vectors, shading, prisms and the plan.
use yession.Prelude.{Option, some, List, [], ◌∷◌, map, Text, codes, if◌then◌else◌}
use yession.Logo.Number.{Float, whole, max_of, sum_all}
use yession.Logo.Colours.{mix}

-- `reverse` of a list, with what is reversed already.
unfoldable pub reversed_onto {ℓ} : {A : Type ℓ} → List A → List A → List A
reversed_onto acc [] = acc
reversed_onto acc (x ∷ xs) = reversed_onto (x ∷ acc) xs

-- `zip(l, l[1:] + l[:1])`: each item with the next, the last with the first.
abbrev pub with_next {ℓ} : {A : Type ℓ} → A → List A → List (A × A)
with_next first [] = []
with_next first (x ∷ []) = (x, first) ∷ []
with_next first (x ∷ y ∷ l) = (x, y) ∷ with_next first (y ∷ l)

abbrev pub ring {ℓ} : {A : Type ℓ} → List A → List (A × A)
ring [] = []
ring (x ∷ l) = with_next x (x ∷ l)

module _ (F : Float) where
  open F use {Num, lit, neg, add, sub, mul, div, lt, sqrt, hypot}

  abbrev pub Point : Type 0
  Point = Num × Num

  abbrev pub Vec : Type 0
  Vec = Num × Num × Num

  -- `dot` of three components.
  unfoldable pub dot : Vec → Vec → Num
  dot (ax, ay, az) (bx, by, bz) = sum_all F (mul ax bx ∷ mul ay by ∷ mul az bz ∷ [])

  -- `x or 1e-9`: a zero is false.
  unfoldable pub norm : Vec → Vec
  unfolding dot
  norm (x, y, z) =
      let root = sqrt (dot (x, y, z) (x, y, z)) in
      let l = if F.eq root (whole F 0) then lit 1 9 else root in (div x l, div y l, div z l)

  -- LIGHT
  abbrev pub light : Vec
  light = norm (neg (lit 35 2), lit 55 2, lit 75 2)

  unfoldable pub shade : Text → Vec → Option Text
  unfolding dot norm mix
  shade col nrm =
      let k = max_of F (whole F 0) (dot nrm light) in
      if lt (lit 7 1) k
      then some col
      else if lt (lit 4 1) k
      then mix F col (lit 86 2)
      else mix F col (lit 66 2)

  abbrev pub cross : Point × Point → Num
  cross ((x0, y0), (x1, y1)) = sub (mul x0 y1) (mul x1 y0)

  -- `ccw`
  unfoldable pub area : List Point → Num
  area poly = sum_all F (map cross (ring poly))

  unfoldable pub ccw : List Point → List Point
  unfolding area reversed_onto
  ccw poly = if lt (whole F 0) (area poly) then poly else reversed_onto [] poly

  abbrev pub lifted : Num → Point → Vec
  lifted z (x, y) = (x, y, z)

  -- A side over an edge: its normal and its corners.
  abbrev pub side : Num → Num → Point × Point → Vec × List Vec
  side z0 z1 ((x0, y0), (x1, y1)) =
      let dx = sub x1 x0 in
      let dy = sub y1 y0 in
      let l = hypot dx dy in
      (
        (div dy l, div (neg dx) l, whole F 0),
        (x0, y0, z0) ∷ (x1, y1, z0) ∷ (x1, y1, z1) ∷ (x0, y0, z1) ∷ [],
      )

  -- `prism_faces`: the top, the bottom and the sides.
  unfoldable pub prism_faces : List Point → Num → Num → List (Vec × List Vec)
  unfolding ccw
  prism_faces poly z0 z1 =
      let turned = ccw poly in
      ((whole F 0, whole F 0, whole F 1), map (lifted z1) turned)
      ∷ ((whole F 0, whole F 0, neg (whole F 1)), map (lifted z0) turned)
      ∷ map (side z0 z1) (ring turned)

  -- `plan`: the cube, the left panel and the right one.
  unfoldable pub plan : Num → Num → List Point × List Point × List Point
  plan g d =
      let h = div g (whole F 2) in
      let m = div (neg g) (whole F 2) in
      let a = add (whole F 1) h in
      let far = neg a in
      let left = (m, h) ∷ (m, add h d) ∷ (far, add h d) ∷ (far, h) ∷ [] in
      ((m, m) ∷ (far, m) ∷ (far, far) ∷ (m, far) ∷ [], left, map (λ (p : Point). (p.1, p.0)) left)

  -- H, GK and DD, and what is made of them.
  abbrev pub height : Num
  height = lit 13 1

  abbrev pub kerf : Num
  kerf = lit 11 2

  abbrev pub depth_of_panel : Num
  depth_of_panel = lit 5 1

  -- A
  abbrev pub edge : Num
  edge = add (whole F 1) (div kerf (whole F 2))

  -- TARGET
  abbrev pub target : Vec
  target = (div (neg edge) (whole F 2), div (neg edge) (whole F 2), div height (whole F 2))

  -- LAMP
  abbrev pub lamp : Vec
  lamp = (neg (lit 211 2), neg (lit 142 2), lit 4 0)

  -- A prism: its footprint, its bottom and top, and its colour.
  pub record Prism : Type 0 where
    pub poly : List Point
    pub z0 : Num
    pub z1 : Num
    pub col : Text

  -- G and B
  abbrev pub green : Text
  green = codes "#a8dd00"

  abbrev pub blue : Text
  blue = codes "#1ba1e2"

  -- `prisms_at`
  unfoldable pub prisms_at : Num → List Prism
  unfolding plan
  prisms_at delta =
      let (cube, left, right) = plan kerf depth_of_panel in
      record { poly = cube; z0 = whole F 0; z1 = height; col = blue }
      ∷ record {
        poly = map (λ (p : Point). (p.0, add p.1 delta)) left;
        z0 = whole F 0;
        z1 = height;
        col = green;
      }
      ∷ record {
        poly = map (λ (p : Point). (add p.0 delta, p.1)) right;
        z0 = whole F 0;
        z1 = height;
        col = green;
      }
      ∷ []
