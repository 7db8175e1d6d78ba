-- ===== src/Raster/Rows.antt =====
-- The rows of an image as lists of bytes, and what `take` and `drop` leave of them.
use yession.Prelude.{
  ℕ, zero, suc, ◌+◌, ◌≤◌, ◌≡◌, refl, List, [], ◌∷◌, ◌++◌, take, drop, length, arith, ap, inl, inr,
  ◌⊎◌,
}
use yession.Raster.{Bytes}

-- Every row is that many bytes, but that the last one may lack up to four.
abbrev pub IsRow : ℕ → Bytes → List Bytes → Type 0
IsRow stride r rows =
    (length r ≤ stride) × (stride ≤ length r + 4) × ((rows ≡ []) ⊎ (length r ≡ stride))

abbrev pub HasWidth : ℕ → List Bytes → Type 0
HasWidth stride [] = Unit {0}
HasWidth stride (r ∷ rows) = IsRow stride r rows × HasWidth stride rows

pub whole-IsRow :
    (stride : ℕ) (r : Bytes) (rows : List Bytes) → length r ≡ stride → IsRow stride r rows
whole-IsRow stride r rows e = (omega (arith, e), omega (arith, e), inr e)

pub take-append : (xs ys : Bytes) (n : ℕ) → length xs ≡ n → take n (xs ++ ys) ≡ xs
take-append [] ys zero e = refl
take-append [] ys (suc n) e = absurd (omega (arith, e))
take-append (x ∷ xs) ys zero e = absurd (omega (arith, e))
take-append (x ∷ xs) ys (suc n) e = ap (λ l. x ∷ l) (take-append xs ys n (omega (arith, e)))

pub drop-append : (xs ys : Bytes) (n : ℕ) → length xs ≡ n → drop n (xs ++ ys) ≡ ys
drop-append [] ys zero e = refl
drop-append [] ys (suc n) e = absurd (omega (arith, e))
drop-append (x ∷ xs) ys zero e = absurd (omega (arith, e))
drop-append (x ∷ xs) ys (suc n) e = drop-append xs ys n (omega (arith, e))

pub take-all : (xs : Bytes) (n : ℕ) → length xs ≤ n → take n (xs ++ []) ≡ xs
take-all [] zero h = refl
take-all [] (suc n) h = refl
take-all (x ∷ xs) zero h = absurd (omega (arith, h))
take-all (x ∷ xs) (suc n) h = ap (λ l. x ∷ l) (take-all xs n (omega (arith, h)))

pub drop-short : (n : ℕ) (xs : Bytes) → suc (length (take n xs)) ≤ n → drop n xs ≡ []
drop-short zero xs h = absurd (omega (arith, h))
drop-short (suc n) [] h = refl
drop-short (suc n) (x ∷ xs) h = drop-short n xs (omega (arith, h))

pub length-take_le : (n : ℕ) (xs : Bytes) → length (take n xs) ≤ n
length-take_le zero xs = omega arith
length-take_le (suc n) [] = omega arith
length-take_le (suc n) (x ∷ xs) = omega (arith, length-take_le n xs)

pub length-take_near : (n : ℕ) (xs : Bytes) → n ≤ length xs + 4 → n ≤ length (take n xs) + 4
length-take_near zero xs h = omega arith
length-take_near (suc n) [] h = omega (arith, h)
length-take_near (suc n) (x ∷ xs) h = omega (arith, length-take_near n xs (omega (arith, h)))

pub length-take : (n : ℕ) (xs : Bytes) → n ≤ length xs → length (take n xs) ≡ n
length-take zero xs h = refl
length-take (suc n) [] h = absurd (omega (arith, h))
length-take (suc n) (x ∷ xs) h = ap suc (length-take n xs (omega (arith, h)))

take-IsRow :
    (stride h : ℕ) (r : Bytes) (rows : List Bytes)
    → IsRow stride r rows
    → IsRow stride r (take h rows)
take-IsRow stride h r rows (short, near, inr whole) = (short, near, inr whole)
take-IsRow stride zero r rows (short, near, inl last) = (short, near, inl refl)
take-IsRow stride (suc h) r rows (short, near, inl last) =
    (short, near, inl (ap (take (suc h)) last))

pub HasWidth-take :
    (stride h : ℕ) (rows : List Bytes) → HasWidth stride rows → HasWidth stride (take h rows)
HasWidth-take stride zero rows v = tt
HasWidth-take stride (suc h) [] v = tt
HasWidth-take stride (suc h) (r ∷ rows) v =
    (take-IsRow stride h r rows v.0, HasWidth-take stride h rows v.1)

pub length-take_rows : (h : ℕ) (rows : List Bytes) → h ≤ length rows → length (take h rows) ≡ h
length-take_rows zero rows v = refl
length-take_rows (suc h) [] v = absurd (omega (arith, v))
length-take_rows (suc h) (r ∷ rows) v = ap suc (length-take_rows h rows (omega (arith, v)))
