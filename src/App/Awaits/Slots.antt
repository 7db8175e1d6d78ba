-- ===== src/App/Awaits/Slots.antt =====
-- The numbers of the tools: positions in a list that grows at its end.
use yession.Prelude.{
  ℕ, zero, suc, ◌≡◌, ◌≢◌, refl, ap, sym, ◌∙◌, ◌⊎◌, inl, inr, none, some, List, [], ◌∷◌, ◌++◌,
  length, append-nil, arith, All, subst, Text, ◌==◌, ==_iff, if◌then◌else◌, Bool-cases,
}
use yession.Provider.Power.{Act}
use yession.App.Awaits.{nth, set_nth, marked}

module _ {ℓ} {A : Type ℓ} where
  pub nth-length : (xs : List A) → nth (length xs) xs ≡ none
  nth-length [] = refl
  nth-length (x ∷ xs) = nth-length xs

  pub nth-snoc :
      (i : ℕ) (xs : List A) (y t : A)
      → nth i (xs ++ y ∷ []) ≡ some t
      → (nth i xs ≡ some t) ⊎ ((i ≡ length xs) × (y ≡ t))
  nth-snoc zero [] y t e = inr (refl, ground (arith, e))
  nth-snoc (suc i) [] y t e = cc
  nth-snoc zero (x ∷ xs) y t e = inl e
  nth-snoc (suc i) (x ∷ xs) y t e = elim (nth-snoc i xs y t e) [
    | inl old ↦ inl old
    | inr (at, same) ↦ inr (ap suc at, same)
  ]

  pub nth-snoc_none :
      (i : ℕ) (xs : List A) (y : A)
      → nth i (xs ++ y ∷ []) ≡ none
      → (nth i xs ≡ none) × (i ≢ length xs)
  nth-snoc_none zero [] y e = cc
  nth-snoc_none (suc i) [] y e = (refl, λ p. omega (arith, p))
  nth-snoc_none zero (x ∷ xs) y e = cc
  nth-snoc_none (suc i) (x ∷ xs) y e =
      let (old, apart) = nth-snoc_none i xs y e in (old, λ p. apart (omega (arith, p)))

  pub nth-below : (i : ℕ) (xs : List A) (t : A) → nth i xs ≡ some t → i ≢ length xs
  nth-below i xs t e p = cc (e, ap (λ n. nth n xs) p, nth-length xs)

  pub nth-set_nth :
      (j i : ℕ) (y : A) (xs : List A) (t : A)
      → nth j (set_nth i y xs) ≡ some t
      → ((j ≡ i) × (y ≡ t)) ⊎ ((j ≢ i) × (nth j xs ≡ some t))
  nth-set_nth j i y [] t e = cc
  nth-set_nth zero zero y (x ∷ xs) t e = inl (refl, ground (arith, e))
  nth-set_nth (suc j) zero y (x ∷ xs) t e = inr (λ p. omega (arith, p), e)
  nth-set_nth zero (suc i) y (x ∷ xs) t e = inr (λ p. omega (arith, p), e)
  nth-set_nth (suc j) (suc i) y (x ∷ xs) t e = elim (nth-set_nth j i y xs t e) [
    | inl (at, same) ↦ inl (ap suc at, same)
    | inr (apart, old) ↦ inr (λ p. apart (omega (arith, p)), old)
  ]

  pub nth-set_nth-none :
      (j i : ℕ) (y : A) (xs : List A) → nth j (set_nth i y xs) ≡ none → nth j xs ≡ none
  nth-set_nth-none j i y [] e = refl
  nth-set_nth-none zero zero y (x ∷ xs) e = cc
  nth-set_nth-none (suc j) zero y (x ∷ xs) e = e
  nth-set_nth-none zero (suc i) y (x ∷ xs) e = e
  nth-set_nth-none (suc j) (suc i) y (x ∷ xs) e = nth-set_nth-none j i y xs e

  pub All-map {κ κ'} :
      (P : A → Type κ) (Q : A → Type κ') (f : (x : A) → P x → Q x) (xs : List A)
      → All P xs
      → All Q xs
  All-map P Q f [] v = tt
  All-map P Q f (x ∷ xs) v = (f x v.0, All-map P Q f xs v.1)

  pub All-nth {κ} :
      (P : A → Type κ) (n : ℕ) (xs : List A) (x : A) → nth n xs ≡ some x → All P xs → P x
  All-nth P n [] x e v = cc
  All-nth P zero (y ∷ xs) x e v = subst P (ground (arith, e)) v.0
  All-nth P (suc n) (y ∷ xs) x e v = All-nth P n xs x e v.1

  pub All-set_nth {κ} :
      (P : A → Type κ) (n : ℕ) (y : A) (xs : List A) → P y → All P xs → All P (set_nth n y xs)
  All-set_nth P n y [] p v = tt
  All-set_nth P zero y (x ∷ xs) p v = (p, v.1)
  All-set_nth P (suc n) y (x ∷ xs) p v = (v.0, All-set_nth P n y xs p v.1)

module _ {V : Type 0} where
  -- What the tool of a number did.
  abbrev pub acts_of : ℕ → List (ℕ × Text × Act V) → List (Act V)
  acts_of i [] = []
  acts_of i ((j, h, a) ∷ more) = let rest = acts_of i more in if j == i then a ∷ rest else rest

  pub acts_of-append :
      (i : ℕ) (xs ys : List (ℕ × Text × Act V))
      → acts_of i (xs ++ ys) ≡ acts_of i xs ++ acts_of i ys
  acts_of-append i [] ys = refl
  acts_of-append i ((j, h, a) ∷ xs) ys = elim (Bool-cases (j == i)) [
    | inl mine ↦ rw mine (ap (◌∷◌ a) (acts_of-append i xs ys))
    | inr other ↦ rw other (acts_of-append i xs ys)
  ]

  pub acts_of-marked : (i : ℕ) (h : Text) (acts : List (Act V)) → acts_of i (marked i h acts) ≡ acts
  acts_of-marked i h [] = refl
  acts_of-marked i h (a ∷ acts) = rw ((==_iff i i).1 refl) (ap (◌∷◌ a) (acts_of-marked i h acts))

  pub acts_of-others :
      (i j : ℕ) (h : Text) (acts : List (Act V)) → i ≢ j → acts_of i (marked j h acts) ≡ []
  acts_of-others i j h [] apart = refl
  acts_of-others i j h (a ∷ acts) apart = elim (Bool-cases (j == i)) [
    | inl mine ↦ absurd (apart (sym ((==_iff j i).0 mine)))
    | inr other ↦ rw other (acts_of-others i j h acts apart)
  ]

  pub acts_of-own :
      (i : ℕ) (h : Text) (xs : List (ℕ × Text × Act V)) (acts : List (Act V))
      → acts_of i (xs ++ marked i h acts) ≡ acts_of i xs ++ acts
  acts_of-own i h xs acts =
      acts_of-append i xs (marked i h acts) ∙ ap (λ l. acts_of i xs ++ l) (acts_of-marked i h acts)

  pub acts_of-foreign :
      (i j : ℕ) (h : Text) (xs : List (ℕ × Text × Act V)) (acts : List (Act V))
      → i ≢ j
      → acts_of i (xs ++ marked j h acts) ≡ acts_of i xs
  acts_of-foreign i j h xs acts apart =
      acts_of-append i xs (marked j h acts)
      ∙ ap (λ l. acts_of i xs ++ l) (acts_of-others i j h acts apart)
      ∙ append-nil (acts_of i xs)
