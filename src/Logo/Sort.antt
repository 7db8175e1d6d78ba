-- ===== src/Logo/Sort.antt =====
-- `sorted` and `list.sort` with a key, as assets/logo/gen.py uses them: of two items neither of which is
-- before the other, the first stays first.
use yession.Prelude.{Bool, List, [], ◌∷◌, if◌then◌else◌}

unfoldable pub place_by {ℓ} : {A : Type ℓ} → (A → A → Bool) → A → List A → List A
place_by before x [] = x ∷ []
place_by before x (y ∷ ys) =
    let rest = place_by before x ys in if before y x then y ∷ rest else x ∷ y ∷ ys

unfoldable pub sorted_by {ℓ} : {A : Type ℓ} → (A → A → Bool) → List A → List A
unfolding place_by
sorted_by before [] = []
sorted_by before (x ∷ xs) = place_by before x (sorted_by before xs)
