-- ===== src/Provider/Gate.antt =====
-- The claim as the tools see it: what a caller without the claim can reach (provider.py, lines 186
-- to 206 and 272 to 308).
use yession.Prelude.{
  ℕ, ◌≡◌, ◌≢◌, refl, Option, none, some, List, [], ◌∷◌, arith, Text, text_eq_iff, text_eq_refl, inl,
  inr, Option-cases, ◌∙◌,
}
use yession.Dict.{Dict}
use yession.Claims.{current, expire, holder_of}
use yession.Claims.Laws.{Holds}
use yession.Provider.{
  Task, done, World, released, session_holder, refusal, refusal_of, refusal_words, unless_refused,
  power, power_task, driver_call, driver_task,
}

module _ {E : Type 0} (close : E → E) (host : Text) (headers : Dict Text) where
  refusal_of-none :
      (h : Text) (now : ℕ) (w : World E)
      → (refusal_of close host headers h now w).0 ≡ none
      → (h ≢ [])
        × Holds h (refusal_of close host headers h now w).1.0
        × ((refusal_of close host headers h now w).1 ≡ expire (released close) now w)
  unfolding refusal_of current refusal_words
  refusal_of-none [] now w e = cc
  refusal_of-none (c ∷ s) now w e = (
    λ p. cc,
    elim (Option-cases (holder_of (expire (released close) now w).0.claim)) [
      | inl free ↦ absurd (ground arith)
      | inr (k, held) ↦ held ∙ ground (arith, text_eq_iff k (c ∷ s))
    ],
    refl,
  )

  refusal_of-held :
      (h : Text) (now : ℕ) (w : World E)
      → h ≢ []
      → Holds h (expire (released close) now w).0
      → refusal_of close host headers h now w ≡ (none, expire (released close) now w)
  unfolding refusal_of current refusal_words
  refusal_of-held [] now w ne held = absurd (ne refl)
  refusal_of-held (c ∷ s) now w ne held = ground (arith, text_eq_refl (c ∷ s))

  -- A caller that has the claim, once silent claims are expired, gets through to the driver with
  -- `power` and with `driver_call`, and nothing else changes.
  pub holder_gets_through :
      {V : Type 0} (action driver method : Text) (args : List V) (now : ℕ) (w : World E)
      → session_holder headers ≢ []
      → Holds (session_holder headers) (expire (released close) now w).0
      → (power close host headers action now w
          ≡ (power_task {V = V} action, expire (released close) now w))
        × (driver_call close host headers driver method args now w
            ≡ (driver_task driver method args, expire (released close) now w))
  unfolding power driver_call refusal
  holder_gets_through action driver method args now w ne held =
      rw (refusal_of-held (session_holder headers) now w ne held) (refl, refl)

-- The task asks something of the exporter.
abbrev pub Reaches : {V : Type 0} → Task V → Type 0
Reaches (done answer) = ⊥
Reaches _ = Unit {0}

module _ {E : Type 0} (close : E → E) (host : Text) (headers : Dict Text) where
  unless_refused-Reaches :
      {V : Type 0} (r : Option Text × World E) (task : Task V)
      → Reaches (unless_refused close host headers r task).0
      → (r.0 ≡ none) × ((unless_refused close host headers r task).1 ≡ r.1)
  unless_refused-Reaches (none, w) task h = (refl, refl)
  unless_refused-Reaches (some t, w) task h = absurd h

  -- The hardware is out of reach without the claim: if `power`, or `driver_call` with any driver,
  -- method and arguments, asks anything of the exporter, then the request carries a session id and
  -- that session has the claim as the tool leaves it, expired by the clock if it was silent.
  pub Reaches-Holds :
      {V : Type 0} (action driver method : Text) (args : List V) (now : ℕ) (w : World E)
      → (Reaches (power close host headers {V = V} action now w).0
          → (session_holder headers ≢ [])
            × Holds (session_holder headers) (power close host headers {V = V} action now w).1.0)
        × (Reaches (driver_call close host headers driver method args now w).0
            → (session_holder headers ≢ [])
              × Holds
                  (session_holder headers)
                  (driver_call close host headers driver method args now w).1.0)
  unfolding power driver_call refusal
  Reaches-Holds {V} action driver method args now w =
      (go (power_task action), go (driver_task driver method args))
    where
      h : Text
      h = session_holder headers

      go :
          (task : Task V)
          → Reaches
              (unless_refused close host headers (refusal_of close host headers h now w) task).0
          → (h ≢ [])
            × Holds h
                (unless_refused close host headers (refusal_of close host headers h now w) task).1.0
      go task reaches =
          let (e, kept) =
            unless_refused-Reaches (refusal_of close host headers h now w) task reaches in
          let (named, held, same) = refusal_of-none close host headers h now w e in
          (named, rw kept held)
