-- ===== src/Words.antt =====
-- The operations of Python's `str` that the provider uses, on code points.
pub mod Laws
mod Tests
use Prim.Native.Nat.{◌^◌}
use yession.Prelude.{
  ℕ, zero, suc, ◌+◌, ◌-◌, ◌/◌, ◌%◌, Bool, true, false, ◌&&◌, ◌||◌, List, [], ◌∷◌, ◌++◌, map, ltb,
  leb, ◌==◌, if◌then◌else◌, Text, codes,
}

-- The code points that `str.strip` removes.
unfoldable pub is_space : ℕ → Bool
is_space c =
    (leb 9 c && leb c 13)
    || ((leb 28 c && leb c 32)
        || (c == 133
            || (c == 160
                || (c == 5760
                    || ((leb 8192 c && leb c 8202)
                        || (c == 8232
                            || (c == 8233 || (c == 8239 || (c == 8287 || c == 12288)))))))))

unfoldable pub lstrip : Text → Text
unfolding is_space
lstrip [] = []
lstrip (c ∷ s) = if is_space c then lstrip s else c ∷ s

-- A code point before a stripped text: a space before nothing goes too.
unfoldable pub before_stripped : ℕ → Text → Text
unfolding is_space
before_stripped c [] = if is_space c then [] else c ∷ []
before_stripped c (d ∷ r) = c ∷ d ∷ r

unfoldable pub rstrip : Text → Text
unfolding before_stripped
rstrip [] = []
rstrip (c ∷ s) = before_stripped c (rstrip s)

unfoldable pub strip : Text → Text
unfolding lstrip rstrip
strip s = lstrip (rstrip s)

-- `str.lower` on the letters A to Z; other code points are left. No other code point has a lower
-- case in which one of the letters of "on", "off" and "cycle" stands alone.
unfoldable pub lower_char : ℕ → ℕ
lower_char c = if leb 65 c && leb c 90 then c + 32 else c

unfoldable pub lower : Text → Text
unfolding lower_char
lower s = map lower_char s

-- `sep.join(parts)`.
unfoldable pub join : Text → List Text → Text
join sep [] = []
join sep (p ∷ []) = p
join sep (p ∷ q ∷ ps) = p ++ (sep ++ join sep (q ∷ ps))

-- `str(n)` of a whole number, on fuel that `decimal` gives.
unfoldable pub decimal_digits : ℕ → ℕ → Text → Text
decimal_digits zero n acc = acc
decimal_digits (suc fuel) n acc =
    let rest = decimal_digits fuel (n / 10) ((48 + n % 10) ∷ acc) in
    if ltb n 10 then (48 + n) ∷ acc else rest

unfoldable pub decimal : ℕ → Text
unfolding decimal_digits
decimal n = decimal_digits (suc n) n []
