-- ===== src/Logo/Clock/Bracket.antt =====
-- What the halving of `bez` finds (gen.py, lines 119 to 125).
use yession.Prelude.{ℕ, zero, suc, ◌≡◌, refl, true, false, ◌⊎◌, inl, inr, Bool-cases}
use yession.Logo.Number.{Float}
use yession.Logo.Clock.{middle, halved}

module _ (F : Float) (curve_x : F.Num → F.Num) (t : F.Num) where
  open F use {Num, lt}

  -- The bounds are where they began, or on the two sides of `t`.
  pub record Brackets (lo hi : Num) (b : Num × Num) : Type 0 where
    pub below : (b.0 ≡ lo) ⊎ (lt (curve_x b.0) t ≡ true)
    pub above : (b.1 ≡ hi) ⊎ (lt (curve_x b.1) t ≡ false)

  halved-kept :
      (n : ℕ) (lo hi a b : Num) → Brackets lo hi (a, b) → Brackets lo hi (halved F curve_x t n a b)
  unfolding halved
  halved-kept zero lo hi a b v = v
  halved-kept (suc n) lo hi a b v = elim (Bool-cases (lt (curve_x (middle F a b)) t)) [
    | inl less ↦
        rw less
          (halved-kept n lo hi (middle F a b) b (record { below = inr less; above = v.above }))
    | inr more ↦
        rw more
          (halved-kept n lo hi a (middle F a b) (record { below = v.below; above = inr more }))
  ]

  -- However often `bez` halves, the lower bound is the first one or the curve is below `t` there, and the
  -- upper bound is the first one or the curve is not below `t` there: so what it looks for stays
  -- between them. This asks nothing of the rounding of the numbers.
  pub halved-Brackets : (n : ℕ) (lo hi : Num) → Brackets lo hi (halved F curve_x t n lo hi)
  halved-Brackets n lo hi =
      halved-kept n lo hi lo hi (record { below = inl refl; above = inl refl })
