-- ===== src/Logo/Colours.antt =====
-- Colours of assets/logo/gen.py (lines 21 to 37): `mix` and `shade`.
pub mod Hex
use yession.Prelude.{
  ℕ, suc, ◌+◌, ◌-◌, ◌*◌, ◌/◌, ◌%◌, min, Bool, true, false, ◌&&◌, Option, none, some, List, [], ◌∷◌,
  ◌++◌, take, drop, Text, codes, leb, if◌then◌else◌,
}
use yession.Logo.Number.{Whole, plus, minus, Float, whole, max_of}

-- `int(s, 16)` of one digit, and of two.
unfoldable pub hex_value : ℕ → Option ℕ
hex_value c =
    if leb 48 c && leb c 57
    then some (c - 48)
    else if leb 97 c && leb c 102
    then some (c - 87)
    else if leb 65 c && leb c 70
    then some (c - 55)
    else none

abbrev pub two_values : Option ℕ → Option ℕ → Option ℕ
two_values (some a) (some b) = some (a * 16 + b)
two_values _ _ = none

unfoldable pub hex_pair : Text → Option ℕ
unfolding hex_value
hex_pair (a ∷ b ∷ []) = two_values (hex_value a) (hex_value b)
hex_pair _ = none

-- `f"{c:02x}"` of a number below 256.
unfoldable pub hex_digit : ℕ → ℕ
hex_digit n = if leb n 9 then 48 + n else 87 + n

unfoldable pub hex_text : ℕ → Text
unfolding hex_digit
hex_text n = hex_digit (n / 16) ∷ hex_digit (n % 16) ∷ []

-- `max(0, min(255, n))`
unfoldable pub clamped : Whole → ℕ
clamped (plus n) = min 255 n
clamped (minus n) = 0

abbrev pub channels : Option ℕ → Option ℕ → Option ℕ → Option (ℕ × ℕ × ℕ)
channels (some r) (some g) (some b) = some (r, g, b)
channels _ _ _ = none

-- `int(h[1:3], 16), int(h[3:5], 16), int(h[5:7], 16)`; `none` is a ValueError. `int` takes other
-- spellings too (a space, a sign), which no colour of the file has.
unfoldable pub rgb : Text → Option (ℕ × ℕ × ℕ)
unfolding hex_pair
rgb h =
    channels (hex_pair (take 2 (drop 1 h))) (hex_pair (take 2 (drop 3 h)))
      (hex_pair (take 2 (drop 5 h)))

module _ (F : Float) where
  open F use {Num, lit, add, sub, mul, lt, round}

  -- `f(c, t)`
  unfoldable pub blended : Num → ℕ → ℕ → ℕ
  unfolding clamped
  blended k c t = clamped (round (add (mul (whole F c) k) (mul (whole F t) (sub (whole F 1) k))))

  abbrev pub mixed : Num → Option (ℕ × ℕ × ℕ) → Option Text
  mixed k none = none
  mixed k (some (r, g, b)) =
      some (35 ∷ hex_text (blended k r 0) ++ (hex_text (blended k g 0) ++ hex_text (blended k b 0)))

  -- `mix` toward black, as all its calls are.
  unfoldable pub mix : Text → Num → Option Text
  unfolding blended rgb hex_text
  mix h k = mixed k (rgb h)
