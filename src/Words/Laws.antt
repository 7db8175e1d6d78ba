-- ===== src/Words/Laws.antt =====
-- A printed number reads back as itself, so the fuel of `decimal` is enough.
use yession.Prelude.{
  ℕ, zero, suc, ◌+◌, ◌-◌, ◌*◌, ◌/◌, ◌%◌, ◌<◌, ◌≡◌, [], ◌∷◌, arith, Text, ltb, Bool-cases, inl, inr,
  ap, ◌∙◌,
}
use yession.Words.{decimal_digits, decimal}

-- The value of decimal digits, read from the left on from `v`.
abbrev pub value_from : ℕ → Text → ℕ
value_from v [] = v
value_from v (c ∷ s) = value_from (v * 10 + (c - 48)) s

decimal_digits-value :
    (fuel n : ℕ) (acc : Text)
    → n < fuel
    → value_from 0 (decimal_digits fuel n acc) ≡ value_from n acc
unfolding decimal_digits
decimal_digits-value zero n acc h = absurd (omega arith)
decimal_digits-value (suc fuel) n acc h = elim (Bool-cases (ltb n 10)) [
  | inl small ↦ rw small (ap (λ k. value_from k acc) (omega arith))
  | inr big ↦ rw big (
      decimal_digits-value fuel (n / 10) ((48 + n % 10) ∷ acc) (ground arith)
      ∙ ap (λ k. value_from k acc) (omega arith))
]

-- The digits that `decimal` prints have the number for their value.
pub decimal-value : (n : ℕ) → value_from 0 (decimal n) ≡ n
unfolding decimal
decimal-value n = decimal_digits-value (suc n) n [] (omega arith)
