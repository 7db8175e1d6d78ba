-- ===== src/Logo/Colours/Hex.antt =====
-- Hexadecimal colours, printed and read back (gen.py, lines 27 to 30).
use yession.Prelude.{ℕ, ◌≤◌, ◌⊎◌}

-- The code points of "0" to "9" and of "a" to "f".
abbrev pub IsHexDigit : ℕ → Type 0
IsHexDigit c = ((48 ≤ c) × (c ≤ 57)) ⊎ ((97 ≤ c) × (c ≤ 102))
