-- ===== src/Logo/Number.antt =====
-- Python's floats, as far as assets/logo/gen.py uses them.
use yession.Prelude.{ℕ, Bool, List, [], ◌∷◌, Text, if◌then◌else◌}

-- What `round` makes: `minus n` is -(n + 1).
pub data Whole : Type 0 where
  plus minus : ℕ → Whole

-- `lit m k` is the literal m / 10^k, so `lit 35 2` is 0.35. `fixed2` is `f"{v:.2f}"`, and `repr`
-- is `f"{v}"`.
pub record Float : Type 1 where
  pub Num : Type 0
  pub lit : ℕ → ℕ → Num
  pub neg : Num → Num
  pub add : Num → Num → Num
  pub sub : Num → Num → Num
  pub mul : Num → Num → Num
  pub div : Num → Num → Num
  pub pow : Num → ℕ → Num
  pub lt : Num → Num → Bool
  pub le : Num → Num → Bool
  pub eq : Num → Num → Bool
  pub sqrt : Num → Num
  pub hypot : Num → Num → Num
  pub sin : Num → Num
  pub cos : Num → Num
  pub radians : Num → Num
  pub round : Num → Whole
  pub fixed2 : Num → Text
  pub repr : Num → Text

module _ (F : Float) where
  open F use {Num, lit, add, lt}

  -- `int` values where they meet floats.
  abbrev pub whole : ℕ → Num
  whole n = lit n 0

  -- `max(a, b)` and `min(a, b)`: of equals the first.
  abbrev pub max_of : Num → Num → Num
  max_of a b = if lt a b then b else a

  abbrev pub min_of : Num → Num → Num
  min_of a b = if lt b a then b else a

  -- `max` and `min` of a list that is not empty: the first and the rest.
  abbrev pub max_all : Num → List Num → Num
  max_all a [] = a
  max_all a (b ∷ bs) = max_all (max_of a b) bs

  abbrev pub min_all : Num → List Num → Num
  min_all a [] = a
  min_all a (b ∷ bs) = min_all (min_of a b) bs

  -- `sum`, which starts at 0.
  abbrev pub sum_onto : Num → List Num → Num
  sum_onto acc [] = acc
  sum_onto acc (x ∷ xs) = sum_onto (add acc x) xs

  abbrev pub sum_all : List Num → Num
  sum_all xs = sum_onto (whole 0) xs
