-- ===== src/App/Keeps.antt =====
-- Whose the console's token is, through each method that changes the claims or the console.
use yession.Prelude.{
  ℕ, ◌≡◌, refl, Bool, true, false, Option, none, some, List, [], ◌∷◌, arith, Text, codes, text_eq,
  ◌⊎◌, inl, inr, Bool-cases, sym, ◌∙◌, ap,
}
use yession.Dict.{Dict}
use yession.Claims
use yession.Claims.{
  Claim, Claims, holder_of, drop_claim, see, open_stream, close_stream, expire_claim, take_claim,
  release_claim,
}
use yession.Claims.Laws.{Holds, acquire-Outcome, holder_of-see, expire-cases}
use yession.Console
use yession.Console.{Console, attach, detach, offer}
use yession.Console.Token.{offer-cases}
use yession.Provider.{
  World, Bench, Task, released, acquire_answer, acquire_as, refusal_of, unless_refused,
  release_answer, session_holder,
}
use yession.App.{
  Kind, Scope, http, websocket, lifespan, arrive_kind, arrive_http, session_of, is_word,
}

-- A token is out only with a holder, and the console's holder is the one that has the claim.
pub record TokenOwned {E : Type 0} (w : World E) : Type 0 where
  pub owned : (w.1.console.holder ≡ none) ⊎ (w.1.console.holder ≡ holder_of w.0.claim)
  pub named : w.1.console.holder ≡ none → w.1.console.token ≡ none

module _ (decode : List ℕ → Text) {E : Type 0} (close : E → E) (host : Text) where
  pub expire-TokenOwned :
      (now : ℕ) (w : World E) → TokenOwned w → TokenOwned (Claims.expire (released close) now w)
  expire-TokenOwned now w v = elim (expire-cases (released close) now w) [
    | inl (e, _) ↦ rw e v
    | inr (k, _, _, e) ↦ rw e (
        unfold drop_claim released Console.release in
        record { owned = inl refl; named = λ p. refl })
  ]

  -- Only the holder of the claim matters.
  pub same-holder :
      (c d : Claims) (b : Bench E)
      → holder_of d.claim ≡ holder_of c.claim
      → TokenOwned (c, b)
      → TokenOwned (d, b)
  same-holder c d b e v = record { owned = ground (arith, v.owned, e); named = v.named }

  pub touch-TokenOwned :
      (now later : ℕ) (h : Text) (w : World E)
      → TokenOwned w
      → TokenOwned (Claims.touch (released close) now later h w)
  unfolding Claims.touch
  touch-TokenOwned now later h w v =
      let u = Claims.expire (released close) now w in
      same-holder u.0 (record u.0 { claim = see later h u.0.claim }) u.1
        (holder_of-see later h u.0.claim) (expire-TokenOwned now w v)

  pub take_claim-TokenOwned :
      (later : ℕ) (h : Text) (o : Option Claim) (w : World E)
      → w.0.claim ≡ o
      → TokenOwned w
      → TokenOwned (take_claim (released close) later h o w).1
  unfolding take_claim
  take_claim-TokenOwned later h none w e v = record {
    owned = ground (arith, v.owned);
    named = v.named;
  }
  take_claim-TokenOwned later h (some k) w e v = elim (Bool-cases (text_eq k.holder h)) [
    | inl same ↦ rw same v
    | inr other ↦ rw other v
  ]

  pub acquire-TokenOwned :
      (now later : ℕ) (h : Text) (w : World E)
      → TokenOwned w
      → TokenOwned (Claims.acquire (released close) now later h w).1
  unfolding Claims.acquire
  acquire-TokenOwned now later h w v =
      let u = Claims.expire (released close) now w in
      take_claim-TokenOwned later h u.0.claim u refl (expire-TokenOwned now w v)

  pub release_claim-TokenOwned :
      (h : Text) (o : Option Claim) (w : World E)
      → TokenOwned w
      → TokenOwned (release_claim (released close) h o w).1
  unfolding release_claim released Console.release
  release_claim-TokenOwned h none w v = v
  release_claim-TokenOwned h (some k) w v = elim (Bool-cases (text_eq k.holder h)) [
    | inl same ↦ rw same (record { owned = inl refl; named = λ p. refl })
    | inr other ↦ rw other v
  ]

  pub release-TokenOwned :
      (now : ℕ) (h : Text) (w : World E)
      → TokenOwned w
      → TokenOwned (Claims.release (released close) now h w).1
  unfolding Claims.release
  release-TokenOwned now h w v =
      let u = Claims.expire (released close) now w in
      release_claim-TokenOwned h u.0.claim u (expire-TokenOwned now w v)

  pub refusal_of-TokenOwned :
      (headers : Dict Text) (h : Text) (now : ℕ) (w : World E)
      → TokenOwned w
      → TokenOwned (refusal_of close host headers h now w).1
  unfolding refusal_of Claims.current
  refusal_of-TokenOwned headers [] now w v = v
  refusal_of-TokenOwned headers (c ∷ s) now w v = expire-TokenOwned now w v

  pub acquire_answer-TokenOwned :
      (origin minted : Text) (headers : Dict Text) (r : (Bool × Option Text) × World E)
      → TokenOwned r.1
      → (r.0.0 ≡ true → Holds (session_holder headers) r.1.0)
      → TokenOwned (acquire_answer close origin minted headers r).1
  unfolding acquire_answer
  acquire_answer-TokenOwned origin minted headers ((true, other), (c, b)) v held =
      elim (offer-cases minted origin (session_holder headers) b.console) [
        | inl (_, busy) ↦ rw busy v
        | inr (o, _, free) ↦ rw free (record { owned = inr (sym (held refl)); named = λ p. cc })
      ]
  acquire_answer-TokenOwned origin minted headers ((false, other), w) v held = v

  pub acquire_as-TokenOwned :
      (origin minted : Text) (headers : Dict Text) (h : Text) (now later : ℕ) (w : World E)
      → session_holder headers ≡ h
      → TokenOwned w
      → TokenOwned (acquire_as close origin minted headers h now later w).1
  unfolding acquire_as
  acquire_as-TokenOwned origin minted headers [] now later w e v = v
  acquire_as-TokenOwned origin minted headers (c ∷ s) now later w e v =
      acquire_answer-TokenOwned origin minted headers
        (Claims.acquire (released close) now later (c ∷ s) w)
        (acquire-TokenOwned now later (c ∷ s) w v)
        (λ won. elim (acquire-Outcome (released close) now later (c ∷ s) w) [
          | inl (_, held) ↦ held ∙ ap some (sym e)
          | inr (k, lost, _, _, _) ↦ cc (lost, won)
        ])

  pub release_answer-TokenOwned :
      (headers : Dict Text) (later : ℕ) (r : Bool × World E)
      → TokenOwned r.1
      → TokenOwned (release_answer close host headers later r).1
  unfolding release_answer Claims.current
  release_answer-TokenOwned headers later (true, w) v = v
  release_answer-TokenOwned headers later (false, w) v = expire-TokenOwned later w v

  pub unless_refused-world :
      {V : Type 0} (headers : Dict Text) (r : Option Text × World E) (task : Task V)
      → (unless_refused close host headers r task).1 ≡ r.1
  unless_refused-world headers (none, w) task = refl
  unless_refused-world headers (some t, w) task = refl

  pub arrive_http-TokenOwned :
      (h : Text) (method : Option Text) (now later : ℕ) (w : World E)
      → TokenOwned w
      → TokenOwned (arrive_http decode close h method now later w).1
  unfolding arrive_http open_stream
  arrive_http-TokenOwned [] method now later w v = expire-TokenOwned now w v
  arrive_http-TokenOwned (c ∷ s) method now later w v =
      let u = Claims.touch (released close) now later (c ∷ s) w in
      let kept = touch-TokenOwned now later (c ∷ s) w v in
      elim (Bool-cases (is_word (codes "GET") method)) [
        | inl get ↦ rw get (same-holder u.0 (open_stream (c ∷ s) u.0) u.1 refl kept)
        | inr other ↦ rw other kept
      ]

  pub arrive_kind-TokenOwned :
      (k : Kind) (scope : Scope) (now later : ℕ) (w : World E)
      → TokenOwned w
      → TokenOwned (arrive_kind decode close k scope now later w).1
  unfolding arrive_kind
  arrive_kind-TokenOwned http scope now later w v =
      arrive_http-TokenOwned (session_of decode scope.headers) scope.method now later w v
  arrive_kind-TokenOwned websocket scope now later w v = v
  arrive_kind-TokenOwned lifespan scope now later w v = v
