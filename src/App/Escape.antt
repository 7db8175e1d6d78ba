-- ===== src/App/Escape.antt =====
-- An attached stream and the end of the claim it was opened under
-- (provider.py, lines 385 to 387, and stream.py, lines 79 to 82).
use yession.Prelude.{
  ℕ, ◌≡◌, refl, Bool, true, false, Option, none, List, [], ◌∷◌, arith, Text, ◌∙◌, ap, All,
}
use yession.Dict.{Dict}
use yession.Claims
use yession.Claims.{Claims, Claim, take_claim, release_claim, open_stream, close_stream}
use yession.Console
use yession.Console.{Console, offer}
use yession.Provider.{
  World, released, status, power, driver_call, acquire, acquire_as, acquire_answer, release,
  release_answer, refusal_of, refusal, session_holder, power_task, driver_task, said,
}
use yession.App.{
  arrive, arrive_kind, arrive_http, http, websocket, lifespan, Kind, Scope, session_of, stream_end,
}
use yession.App.Events.{
  Event, request, ends_stream, asks_status, asks_acquire, asks_release, asks_power, asks_driver,
  socket_opens, socket_ends, happens, history,
}
use yession.App.Keeps.{unless_refused-world}

-- The event is neither the opening nor the end of a socket.
abbrev pub OffSocket : Event → Type 0
OffSocket (socket_opens t) = ⊥
OffSocket socket_ends = ⊥
OffSocket _ = Unit {0}

abbrev pub is_attached : {E : Type 0} → World E → Bool
is_attached w = w.1.console.attached

module _ (decode : List ℕ → Text) {E : Type 0} (close : E → E) (host : Text) where
  pub expire-attached :
      (now : ℕ) (w : World E) → is_attached (Claims.expire (released close) now w) ≡ is_attached w
  unfolding Claims.expire released Console.release
  expire-attached now w = ground arith

  pub take_claim-attached :
      (later : ℕ) (h : Text) (o : Option Claim) (w : World E)
      → is_attached (take_claim (released close) later h o w).1 ≡ is_attached w
  unfolding take_claim
  take_claim-attached later h o w = ground arith

  release_claim-attached :
      (h : Text) (o : Option Claim) (w : World E)
      → is_attached (release_claim (released close) h o w).1 ≡ is_attached w
  unfolding release_claim released Console.release
  release_claim-attached h o w = ground arith

  refusal_of-attached :
      (headers : Dict Text) (h : Text) (now : ℕ) (w : World E)
      → is_attached (refusal_of close host headers h now w).1 ≡ is_attached w
  unfolding refusal_of Claims.current
  refusal_of-attached headers [] now w = refl
  refusal_of-attached headers (c ∷ s) now w = expire-attached now w

  acquire_answer-attached :
      (origin minted : Text) (headers : Dict Text) (r : (Bool × Option Text) × World E)
      → is_attached (acquire_answer close origin minted headers r).1 ≡ is_attached r.1
  unfolding acquire_answer offer
  acquire_answer-attached origin minted headers ((true, other), (c, b)) = ground arith
  acquire_answer-attached origin minted headers ((false, other), w) = refl

  acquire_as-attached :
      (origin minted : Text) (headers : Dict Text) (h : Text) (now later : ℕ) (w : World E)
      → is_attached (acquire_as close origin minted headers h now later w).1 ≡ is_attached w
  unfolding acquire_as Claims.acquire
  acquire_as-attached origin minted headers [] now later w = refl
  acquire_as-attached origin minted headers (c ∷ s) now later w =
      acquire_answer-attached origin minted headers _
      ∙ take_claim-attached later (c ∷ s) _ (Claims.expire (released close) now w)
      ∙ expire-attached now w

  release_answer-attached :
      (headers : Dict Text) (later : ℕ) (r : Bool × World E)
      → is_attached (release_answer close host headers later r).1 ≡ is_attached r.1
  unfolding release_answer Claims.current
  release_answer-attached headers later (true, w) = refl
  release_answer-attached headers later (false, w) = expire-attached later w

  arrive_http-attached :
      (h : Text) (method : Option Text) (now later : ℕ) (w : World E)
      → is_attached (arrive_http decode close h method now later w).1 ≡ is_attached w
  unfolding arrive_http Claims.touch
  arrive_http-attached [] method now later w = expire-attached now w
  arrive_http-attached (c ∷ s) method now later w = ground (arith, expire-attached now w)

  arrive_kind-attached :
      (k : Kind) (scope : Scope) (now later : ℕ) (w : World E)
      → is_attached (arrive_kind decode close k scope now later w).1 ≡ is_attached w
  unfolding arrive_kind
  arrive_kind-attached http scope now later w =
      arrive_http-attached (session_of decode scope.headers) scope.method now later w
  arrive_kind-attached websocket scope now later w = refl
  arrive_kind-attached lifespan scope now later w = refl

  happens-attached :
      (e : Event) (w : World E)
      → OffSocket e
      → is_attached (happens decode close host e w) ≡ is_attached w
  unfolding happens
  happens-attached (request scope now later) w off =
      unfold arrive in arrive_kind-attached scope.kind scope now later w
  happens-attached (ends_stream now session) w off = unfold stream_end in refl
  happens-attached (asks_status headers now) w off =
      unfold status Claims.current in expire-attached now w
  happens-attached (asks_acquire headers origin minted now later) w off =
      unfold acquire in
      acquire_as-attached origin minted headers (session_holder headers) now later w
  happens-attached (asks_release headers now later) w off =
      unfold release Claims.release in
      release_answer-attached headers later (
        release_claim (released close) (session_holder headers)
          (Claims.expire (released close) now w).0.claim (Claims.expire (released close) now w))
      ∙ release_claim-attached (session_holder headers)
          (Claims.expire (released close) now w).0.claim (Claims.expire (released close) now w)
      ∙ expire-attached now w
  happens-attached (asks_power headers action now) w off =
      unfold power refusal in
      ap is_attached (unless_refused-world decode close host headers _ (power_task {V = ℕ} action))
      ∙ refusal_of-attached headers (session_holder headers) now w
  happens-attached (asks_driver headers driver method now) w off =
      unfold driver_call refusal in
      ap is_attached
        (unless_refused-world decode close host headers _ (driver_task {V = ℕ} driver method []))
      ∙ refusal_of-attached headers (session_holder headers) now w
  happens-attached (socket_opens t) w off = absurd off
  happens-attached socket_ends w off = absurd off

  acquire_answer-no_offer :
      (origin minted : Text) (headers : Dict Text) (r : (Bool × Option Text) × World E)
      → is_attached r.1 ≡ true
      → (acquire_answer close origin minted headers r).0.meta ≡ none
  unfolding acquire_answer offer said
  acquire_answer-no_offer origin minted headers ((true, other), (c, b)) busy = ground arith
  acquire_answer-no_offer origin minted headers ((false, other), w) busy = refl

  acquire_as-no_offer :
      (origin minted : Text) (headers : Dict Text) (h : Text) (now later : ℕ) (w : World E)
      → is_attached w ≡ true
      → (acquire_as close origin minted headers h now later w).0.meta ≡ none
  unfolding acquire_as Claims.acquire said
  acquire_as-no_offer origin minted headers [] now later w busy = refl
  acquire_as-no_offer origin minted headers (c ∷ s) now later w busy =
      let u = Claims.expire (released close) now w in
      acquire_answer-no_offer origin minted headers
        (take_claim (released close) later (c ∷ s) u.0.claim u)
        (take_claim-attached later (c ∷ s) u.0.claim u ∙ expire-attached now w ∙ busy)

  -- No release, no silence and no other session's claim ends an attached stream: after any history
  -- without an event on a socket it is attached as before, and then `acquire` offers no stream to
  -- anybody, the new holder included.
  pub stream_outlives_claim :
      (es : List Event) (w : World E)
      → All OffSocket es
      → is_attached w ≡ true
      → (is_attached (history decode close host es w) ≡ true)
        × ((origin minted : Text) (headers : Dict Text) (now later : ℕ)
            → (acquire close origin minted headers now later
                (history decode close host es w)).0.meta
              ≡ none)
  unfolding history acquire
  stream_outlives_claim [] w off busy = (
    busy,
    λ origin minted headers now later.
        acquire_as-no_offer origin minted headers (session_holder headers) now later w busy,
  )
  stream_outlives_claim (e ∷ es) w off busy =
      stream_outlives_claim es (happens decode close host e w) off.1
        (happens-attached e w off.0 ∙ busy)
