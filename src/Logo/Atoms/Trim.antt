-- ===== src/Logo/Atoms/Trim.antt =====
-- What `n` cuts off a number (gen.py, lines 40 to 42).
use yession.Prelude.{
  ℕ, ◌≡◌, ◌≢◌, refl, inl, inr, false, [], ◌∷◌, ◌++◌, arith, Text, codes, text_eq, ◌==◌,
  if◌then◌else◌, ap, ◌∙◌, sym, Bool-cases, append_assoc,
}
use yession.Logo.Atoms.{before_cut, rstrip_char, trimmed}

rstrip_char-same : (c : ℕ) (s : Text) → rstrip_char c (s ++ c ∷ []) ≡ rstrip_char c s
unfolding rstrip_char
rstrip_char-same c [] = ground arith
rstrip_char-same c (a ∷ s) = ap (before_cut c a) (rstrip_char-same c s)

rstrip_char-other : (c x : ℕ) (s : Text) → x ≢ c → rstrip_char c (s ++ x ∷ []) ≡ s ++ x ∷ []
unfolding rstrip_char
rstrip_char-other c x [] h = ground (arith, h)
rstrip_char-other c x (a ∷ []) h = ap (before_cut c a) (rstrip_char-other c x [] h)
rstrip_char-other c x (a ∷ b ∷ s) h = ap (before_cut c a) (rstrip_char-other c x (b ∷ s) h)

-- What `f"{v:.2f}"` makes: a sign and digits, the last not the point, then the point and two digits.
abbrev pub two_decimals : Text → ℕ → ℕ → ℕ → Text
two_decimals w d a b = (w ++ d ∷ []) ++ 46 ∷ a ∷ b ∷ []

abbrev ends_at : Text → ℕ → ℕ → Text
ends_at w d a = ((w ++ d ∷ []) ++ 46 ∷ []) ++ a ∷ []

two_decimals-snoc : (w : Text) (d a b : ℕ) → two_decimals w d a b ≡ ends_at w d a ++ b ∷ []
two_decimals-snoc w d a b =
    sym (append_assoc (w ++ d ∷ []) (46 ∷ []) (a ∷ b ∷ []))
    ∙ sym (append_assoc ((w ++ d ∷ []) ++ 46 ∷ []) (a ∷ []) (b ∷ []))

snoc-unempty : (s : Text) (z : ℕ) (t : Text) → text_eq (s ++ z ∷ t) [] ≡ false
unfolding text_eq
snoc-unempty [] z t = refl
snoc-unempty (x ∷ s) z t = refl

no_minus_zero :
    (w : Text) (d a : ℕ) (t : Text) → text_eq ((w ++ d ∷ []) ++ 46 ∷ a ∷ t) (codes "-0") ≡ false
unfolding text_eq codes
no_minus_zero [] d a t = ground arith
no_minus_zero (x ∷ []) d a t = ground arith
no_minus_zero (x ∷ y ∷ w) d a t = ground (arith, snoc-unempty (w ++ d ∷ []) 46 (a ∷ t))

-- What is left of the text, by its decimals.
abbrev pub shortest : Text → ℕ → ℕ → ℕ → Text
shortest w d a b =
    if b == 48
    then if a == 48
      then if text_eq (w ++ d ∷ []) (codes "-0") then codes "0" else w ++ d ∷ []
      else (w ++ d ∷ []) ++ 46 ∷ a ∷ []
    else two_decimals w d a b

-- The two steps of the cut, for each pair of decimals.
cut_both :
    (w : Text) (d : ℕ)
    → d ≢ 46
    → rstrip_char 46 (rstrip_char 48 (two_decimals w d 48 48)) ≡ w ++ d ∷ []
cut_both w d point =
    ap (λ t. rstrip_char 46 (rstrip_char 48 t)) (two_decimals-snoc w d 48 48)
    ∙ ap (rstrip_char 46) (rstrip_char-same 48 (ends_at w d 48))
    ∙ ap (rstrip_char 46) (rstrip_char-same 48 ((w ++ d ∷ []) ++ 46 ∷ []))
    ∙ ap (rstrip_char 46) (rstrip_char-other 48 46 (w ++ d ∷ []) (λ e. omega (arith, e)))
    ∙ rstrip_char-same 46 (w ++ d ∷ [])
    ∙ rstrip_char-other 46 d w point

cut_one :
    (w : Text) (d a : ℕ)
    → a ≢ 48
    → a ≢ 46
    → rstrip_char 46 (rstrip_char 48 (two_decimals w d a 48)) ≡ (w ++ d ∷ []) ++ 46 ∷ a ∷ []
cut_one w d a digit point =
    ap (λ t. rstrip_char 46 (rstrip_char 48 t)) (two_decimals-snoc w d a 48)
    ∙ ap (rstrip_char 46) (rstrip_char-same 48 (ends_at w d a))
    ∙ ap (rstrip_char 46) (rstrip_char-other 48 a ((w ++ d ∷ []) ++ 46 ∷ []) digit)
    ∙ rstrip_char-other 46 a ((w ++ d ∷ []) ++ 46 ∷ []) point
    ∙ append_assoc (w ++ d ∷ []) (46 ∷ []) (a ∷ [])

cut_none :
    (w : Text) (d a b : ℕ)
    → b ≢ 48
    → b ≢ 46
    → rstrip_char 46 (rstrip_char 48 (two_decimals w d a b)) ≡ two_decimals w d a b
cut_none w d a b digit point =
    ap (λ t. rstrip_char 46 (rstrip_char 48 t)) (two_decimals-snoc w d a b)
    ∙ ap (rstrip_char 46) (rstrip_char-other 48 b (ends_at w d a) digit)
    ∙ rstrip_char-other 46 b (ends_at w d a) point
    ∙ sym (two_decimals-snoc w d a b)

-- What `n` makes of a text that ends with a point and two decimals, after some digit: the decimals that
-- are zeros at the end go, and the point with them if nothing follows it; no digit before the point
-- is lost, as in 100; and what would be "-0" is "0".
pub trimmed-shortest :
    (w : Text) (d a b : ℕ)
    → d ≢ 46
    → a ≢ 46
    → b ≢ 46
    → trimmed (two_decimals w d a b) ≡ shortest w d a b
unfolding trimmed
trimmed-shortest w d a b pd pa pb = elim (Bool-cases (b == 48)) [
  | inr tail ↦
      rw (tail, cut_none w d a b (λ e. ground (arith, e, tail)) pb, no_minus_zero w d a (b ∷ []))
        refl
  | inl zero ↦
      let eb : b ≡ 48 = ground (arith, zero) in
      elim (Bool-cases (a == 48)) [
        | inr one ↦
            rw (eb, one, cut_one w d a (λ e. ground (arith, e, one)) pa, no_minus_zero w d a [])
              refl
        | inl both ↦ let ea : a ≡ 48 = ground (arith, both) in rw (eb, ea, cut_both w d pd) refl
      ]
]
