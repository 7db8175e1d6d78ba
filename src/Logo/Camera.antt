-- ===== src/Logo/Camera.antt =====
-- The camera of assets/logo/gen.py (lines 71 to 113): the pinhole lens, its fit and the highlight.
use yession.Prelude.{
  ℕ, zero, suc, Bool, Option, none, some, List, [], ◌∷◌, ◌++◌, map, if◌then◌else◌,
}
use yession.Logo.Number.{Float, whole, max_all, min_all, sum_all}
use yession.Logo.Solid.{Point, Vec, dot, Prism, lamp}

module _ (F : Float) where
  open F use {Num, lit, neg, add, sub, mul, div, pow, lt, sin, cos, radians}

  -- DIST, UP1, PHI0 and PHI1
  abbrev pub dist : Num
  dist = lit 2 0

  abbrev pub up1 : Num
  up1 = lit 2 0

  abbrev pub phi0 : Num
  phi0 = lit 90 0

  abbrev pub phi1 : Num
  phi1 = lit 46 0

  -- The fields of `Lens`.
  pub record Lens : Type 0 where
    pub v : Vec F
    pub r : Vec F
    pub u : Vec F
    pub eye : Vec F
    pub s : Num
    pub cx : Num
    pub cy : Num

  -- `Lens.__init__` with the default azimuth of 45 degrees.
  unfoldable pub lens : Num → Num → Num → Vec F → Lens
  lens phi dist up (ax, ay, az) =
      let t = radians (lit 45 0) in
      let p = radians phi in
      let vx = mul (cos p) (cos t) in
      let vy = mul (cos p) (sin t) in
      let vz = sin p in
      record {
        v = (vx, vy, vz);
        r = (sin t, neg (cos t), whole F 0);
        u = (mul (neg (sin p)) (cos t), mul (neg (sin p)) (sin t), cos p);
        eye = (add ax (mul dist vx), add ay (mul dist vy), add (add az up) (mul dist vz));
        s = lit 20 0;
        cx = lit 32 0;
        cy = lit 32 0;
      }

  abbrev pub minus : Vec F → Vec F → Vec F
  minus (ax, ay, az) (bx, by, bz) = (sub ax bx, sub ay by, sub az bz)

  -- `project`
  unfoldable pub project : Lens → Vec F → Point F
  unfolding dot
  project c p =
      let q = minus p c.eye in
      let z = neg (dot F q c.v) in
      (add c.cx (mul (div (dot F q c.r) z) c.s), sub c.cy (mul (div (dot F q c.u) z) c.s))

  -- `depth`
  unfoldable pub depth : Lens → Vec F → Num
  depth c p = let (x, y, z) = minus p c.eye in neg (sum_all F (pow x 2 ∷ pow y 2 ∷ pow z 2 ∷ []))

  -- `visible`
  unfoldable pub visible : Lens → Vec F → Vec F → Bool
  unfolding dot
  visible c nrm cen = lt (lit 1 6) (dot F nrm (minus c.eye cen))

  -- `[(x, y, z) for x, y in poly for z in (z0, z1)]`
  abbrev pub corners : Num → Num → List (Point F) → List (Vec F)
  corners z0 z1 [] = []
  corners z0 z1 ((x, y) ∷ poly) = (x, y, z0) ∷ (x, y, z1) ∷ corners z0 z1 poly

  abbrev pub all_corners : List (Prism F) → List (Vec F)
  all_corners [] = []
  all_corners (p ∷ ps) = corners p.z0 p.z1 p.poly ++ all_corners ps

  -- `min` and `max` of a list; `none` is a ValueError of an empty one.
  abbrev pub bounds : List Num → Option (Num × Num)
  bounds [] = none
  bounds (x ∷ xs) = some (min_all F x xs, max_all F x xs)

  abbrev pub box_of : Option (Num × Num) → Option (Num × Num) → Option ((Num × Num) × (Num × Num))
  box_of (some x) (some y) = some (x, y)
  box_of _ _ = none

  -- The least and greatest x and y of the projections.
  abbrev pub box : Lens → List (Prism F) → Option ((Num × Num) × (Num × Num))
  box c ps =
      let pts = map (project c) (all_corners ps) in
      box_of (bounds (map (λ (q : Point F). q.0) pts)) (bounds (map (λ (q : Point F). q.1) pts))

  abbrev pub scaled : Num → Lens → Option ((Num × Num) × (Num × Num)) → Option Lens
  scaled pad c none = none
  scaled pad c (some ((x0, x1), (y0, y1))) =
      let room = sub (lit 64 0) (mul (lit 2 0) pad) in
      let w = sub x1 x0 in
      let h = sub y1 y0 in some (record c { s = mul c.s (div room (if lt w h then h else w)) })

  abbrev pub centred : Lens → Option ((Num × Num) × (Num × Num)) → Option Lens
  centred c none = none
  centred c (some ((x0, x1), (y0, y1))) = some (record c {
    cx = add c.cx (sub (lit 32 0) (div (add x0 x1) (lit 2 0)));
    cy = add c.cy (sub (lit 32 0) (div (add y0 y1) (lit 2 0)));
  })

  infixl 5 ◌>>=◌
  abbrev ◌>>=◌ : Option Lens → (Lens → Option Lens) → Option Lens
  none >>= f = none
  some c >>= f = f c

  -- The loop of `fit`: that many rounds of a scaling and a centring.
  unfoldable pub fit_rounds : ℕ → Lens → List (Prism F) → Num → Option Lens
  unfolding project
  fit_rounds zero c ps pad = some c
  fit_rounds (suc n) c ps pad = do
    a ← scaled pad c (box c ps)
    b ← centred a (box a ps)
    fit_rounds n b ps pad

  -- `fit`
  unfoldable pub fit : Lens → List (Prism F) → Num → Option Lens
  unfolding fit_rounds
  fit c ps pad = fit_rounds 3 c ps pad

  -- `highlight` at a height: where the lamp is reflected into the eye.
  unfoldable pub highlight : Vec F → Num → Vec F
  highlight (ex, ey, ez) z =
      let (lx, ly, lz) = lamp F in
      let mz = sub (mul (lit 2 0) z) lz in
      let t = div (sub ez z) (sub ez mz) in
      (add ex (mul t (sub lx ex)), add ey (mul t (sub ly ey)), add ez (mul t (sub mz ez)))
