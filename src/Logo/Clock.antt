-- ===== src/Logo/Clock.antt =====
-- The clock of assets/logo/gen.py (lines 115 to 127): the easing curve, solved by halving.
pub mod Bracket
use yession.Prelude.{ℕ, zero, suc, Bool, true, false, if◌then◌else◌}
use yession.Logo.Number.{Float, whole, max_of, min_of}

module _ (F : Float) where
  open F use {Num, lit, add, sub, mul, div, pow, lt}

  -- `X` and `Y`: the curve with the control values `a` and `b`, at `u`.
  unfoldable pub curve : Num → Num → Num → Num
  curve a b u =
      let w = sub (whole F 1) u in
      add
        (add (mul (mul (mul (whole F 3) (pow w 2)) u) a)
          (mul (mul (mul (mul (whole F 3) w) u) u) b))
        (pow u 3)

  abbrev pub middle : Num → Num → Num
  middle lo hi = div (add lo hi) (whole F 2)

  -- The loop of `bez`, over what it compares with `t`: the bounds after that many halvings.
  unfoldable pub halved : (Num → Num) → Num → ℕ → Num → Num → Num × Num
  halved curve_x t zero lo hi = (lo, hi)
  halved curve_x t (suc n) lo hi =
      let mid = middle lo hi in
      let less = lt (curve_x mid) t in
      halved curve_x t n (if less then mid else lo) (if less then hi else mid)

  -- `bez` with its default control points.
  unfoldable pub bez : Num → Num
  unfolding curve halved
  bez t =
      let x = min_of F (whole F 1) (max_of F (whole F 0) t) in
      let (lo, hi) = halved (curve (lit 42 2) (lit 58 2)) x 40 (whole F 0) (whole F 1) in
      curve (whole F 0) (whole F 1) (middle lo hi)

  -- `ramp`
  unfoldable pub ramp : Num → Num → Num → Num
  unfolding bez
  ramp t a b = bez (div (sub t a) (sub b a))
