-- ===== src/Logo/Small/Painted.antt =====
-- The painter's order of the small mark (gen.py, lines 340 to 347).
use mathlib.Core.List.{Perm}
use mathlib.Core.List.Perm
use yession.Prelude.{◌≡◌, Bool, true, false, List, [], ◌∷◌, All, Bool-cases, inl, inr}
use yession.Logo.Number.{Float}
use yession.Logo.Sort.{place_by, sorted_by}
use yession.Logo.Small.{Drawn, painted}

-- No item is before an earlier one.
abbrev pub InOrder {ℓ} : {A : Type ℓ} → (A → A → Bool) → List A → Type 0
InOrder before [] = Unit
InOrder before (x ∷ xs) = All (λ y. before y x ≡ false) xs × InOrder before xs

module _ {ℓ} {A : Type ℓ} (before : A → A → Bool) where
  place_by-Perm : (x : A) (l : List A) → Perm (place_by before x l) (x ∷ l)
  unfolding place_by
  place_by-Perm x [] = Perm.refl (x ∷ [])
  place_by-Perm x (y ∷ l) = elim (Bool-cases (before y x)) [
    | inl less ↦ rw less (Perm.trans (Perm.cons y (place_by-Perm x l)) (Perm.swap x y l))
    | inr more ↦ rw more (Perm.refl (x ∷ y ∷ l))
  ]

  sorted_by-Perm : (l : List A) → Perm (sorted_by before l) l
  unfolding sorted_by
  sorted_by-Perm [] = Perm.refl []
  sorted_by-Perm (x ∷ l) =
      Perm.trans (place_by-Perm x (sorted_by before l)) (Perm.cons x (sorted_by-Perm l))

  place_by-All {κ} :
      (P : A → Type κ) (x : A) (l : List A) → P x → All P l → All P (place_by before x l)
  unfolding place_by
  place_by-All P x [] here ps = (here, tt)
  place_by-All P x (y ∷ l) here ps = elim (Bool-cases (before y x)) [
    | inl less ↦ rw less (ps.0, place_by-All P x l here ps.1)
    | inr more ↦ rw more (here, ps)
  ]

-- The laws of a test on keys that are no NaN: of two keys at most one is below the other, and a key that
-- is not below a second, which is not below a third, is not below the third.
module _ {ℓ} {A : Type ℓ} (before : A → A → Bool)
    (asym : (a b : A) → before a b ≡ true → before b a ≡ false)
    (weak : (a b c : A) → before b a ≡ false → before c b ≡ false → before c a ≡ false) where
  All-weak :
      (a b : A) (l : List A)
      → before b a ≡ false
      → All (λ c. before c b ≡ false) l
      → All (λ c. before c a ≡ false) l
  All-weak a b [] e ps = tt
  All-weak a b (c ∷ l) e ps = (weak a b c e ps.0, All-weak a b l e ps.1)

  place_by-InOrder : (x : A) (l : List A) → InOrder before l → InOrder before (place_by before x l)
  unfolding place_by
  place_by-InOrder x [] v = (tt, tt)
  place_by-InOrder x (y ∷ l) v = elim (Bool-cases (before y x)) [
    | inl less ↦ rw less (
      place_by-All before (λ z. before z y ≡ false) x l (asym y x less) v.0,
      place_by-InOrder x l v.1,
    )
    | inr more ↦ rw more ((more, All-weak x y l more v.0), v)
  ]

  sorted_by-InOrder : (l : List A) → InOrder before (sorted_by before l)
  unfolding sorted_by
  sorted_by-InOrder [] = tt
  sorted_by-InOrder (x ∷ l) = place_by-InOrder x (sorted_by before l) (sorted_by-InOrder l)

module _ (F : Float) where
  open F use {Num, lt}

  -- The order in which the small mark paints: every face that it is to draw once, and of two faces the
  -- farther first, so that the nearer one covers it. This asks of `<` on floats that it is an order, as
  -- it is on those that are no NaN.
  pub painted-Perm :
      (asym : (a b : Num) → lt a b ≡ true → lt b a ≡ false)
      (weak : (a b c : Num) → lt b a ≡ false → lt c b ≡ false → lt c a ≡ false)
      (ds : List (Drawn F))
      → Perm (painted F ds) ds × InOrder (λ (a b : Drawn F). lt a.near b.near) (painted F ds)
  unfolding painted
  painted-Perm asym weak ds =
      let farther = λ (a b : Drawn F). lt a.near b.near in
      (
        sorted_by-Perm farther ds,
        sorted_by-InOrder farther (λ a b. asym a.near b.near) (λ a b c. weak a.near b.near c.near)
            ds,
      )
