-- ===== src/Dict.antt =====
-- Python's `dict` with text keys, in insertion order, as the provider uses it.
use yession.Prelude.{
  ◌≡◌, refl, Option, none, some, List, [], ◌∷◌, arith, Text, text_eq, text_eq_iff, if◌then◌else◌,
  All,
}

abbrev pub Dict {ℓ} : Type ℓ → Type ℓ
Dict V = List (Text × V)

module _ {ℓ} {V : Type ℓ} where
  -- d.get(k)
  unfoldable pub get : Text → Dict V → Option V
  get k [] = none
  get k ((j, v) ∷ d) = if text_eq j k then some v else get k d

  -- d[k] = v
  unfoldable pub put : Text → V → Dict V → Dict V
  put k v [] = (k, v) ∷ []
  put k v ((j, w) ∷ d) = if text_eq j k then (j, v) ∷ d else (j, w) ∷ put k v d

  -- d.pop(k, None)
  unfoldable pub pop : Text → Dict V → Dict V
  pop k [] = []
  pop k ((j, v) ∷ d) = if text_eq j k then pop k d else (j, v) ∷ pop k d

  pub get-put :
      (k j : Text) (v : V) (d : Dict V)
      → get j (put k v d) ≡ (if text_eq k j then some v else get j d)
  unfolding get put
  get-put k j v [] = refl
  get-put k j v ((i, w) ∷ d) =
      ground (arith, text_eq_iff k j, text_eq_iff i k, text_eq_iff i j, get-put k j v d)

  pub get-pop :
      (k j : Text) (d : Dict V) → get j (pop k d) ≡ (if text_eq k j then none else get j d)
  unfolding get pop
  get-pop k j [] = ground arith
  get-pop k j ((i, w) ∷ d) =
      ground (arith, text_eq_iff k j, text_eq_iff i k, text_eq_iff i j, get-pop k j d)

  -- What holds of every stored value is kept by a write of such a value, and by a removal.
  pub All-put {κ} :
      (P : V → Type κ) (k : Text) (v : V) (d : Dict V)
      → P v
      → All (λ e. P e.1) d
      → All (λ e. P e.1) (put k v d)
  unfolding put
  All-put P k v [] p h = (p, tt)
  All-put P k v ((j, w) ∷ d) p h = ground (arith, All-put P k v d p h.1)

  pub All-pop {κ} :
      (P : V → Type κ) (k : Text) (d : Dict V) → All (λ e. P e.1) d → All (λ e. P e.1) (pop k d)
  unfolding pop
  All-pop P k [] h = h
  All-pop P k ((j, w) ∷ d) h = ground (arith, All-pop P k d h.1)
