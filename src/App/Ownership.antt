-- ===== src/App/Ownership.antt =====
-- After any history of the provider, the console's token is that of the session with the claim.
use yession.Prelude.{ℕ, ◌≡◌, refl, some, List, [], ◌∷◌, Text, inl, inr, Option-cases, sym, ◌∙◌}
use yession.Claims
use yession.Claims.{
  Claim, Claims, holder_of, drop_claim, see, open_stream, close_stream, expire_claim, take_claim,
  release_claim,
}
use yession.Claims.Laws.{Holds, holder_of-close}
use yession.Console
use yession.Console.{Console, attach, detach, offer}
use yession.Console.Token.{attach-admitted, attach_iff}
use yession.Provider.{
  World, start, status, power, driver_call, acquire, release, refusal, session_holder, power_task,
  driver_task,
}
use yession.App.{arrive, stream_end}
use yession.App.Events.{
  Event, request, ends_stream, asks_status, asks_acquire, asks_release, asks_power, asks_driver,
  socket_opens, socket_ends, attach_or_stay, happens, history,
}
use yession.App.Keeps.{
  TokenOwned, expire-TokenOwned, same-holder, acquire_as-TokenOwned, release-TokenOwned,
  release_answer-TokenOwned, refusal_of-TokenOwned, unless_refused-world, arrive_kind-TokenOwned,
}

module _ (decode : List ℕ → Text) {E : Type 0} (close : E → E) (host : Text) where
  -- One event, whatever it is, leaves the token with the holder of the claim.
  happens-TokenOwned :
      (e : Event) (w : World E) → TokenOwned w → TokenOwned (happens decode close host e w)
  unfolding happens
  happens-TokenOwned (request scope now later) w v =
      unfold arrive in arrive_kind-TokenOwned decode close host scope.kind scope now later w v
  happens-TokenOwned (ends_stream now session) (c, b) v =
      unfold stream_end in same-holder decode close host c _ b (holder_of-close now session c) v
  happens-TokenOwned (asks_status headers now) w v =
      unfold status Claims.current in expire-TokenOwned decode close host now w v
  happens-TokenOwned (asks_acquire headers origin minted now later) w v =
      unfold acquire in
      acquire_as-TokenOwned decode close host origin minted headers (session_holder headers) now
        later w refl v
  happens-TokenOwned (asks_release headers now later) w v =
      unfold release in
      release_answer-TokenOwned decode close host headers later _
        (release-TokenOwned decode close host now (session_holder headers) w v)
  happens-TokenOwned (asks_power headers action now) w v =
      unfold power refusal in
      rw (unless_refused-world decode close host headers _ (power_task {V = ℕ} action))
        (refusal_of-TokenOwned decode close host headers (session_holder headers) now w v)
  happens-TokenOwned (asks_driver headers driver method now) w v =
      unfold driver_call refusal in
      rw (unless_refused-world decode close host headers _ (driver_task {V = ℕ} driver method []))
        (refusal_of-TokenOwned decode close host headers (session_holder headers) now w v)
  happens-TokenOwned (socket_opens t) (c, b) v = elim (Option-cases (attach t b.console)) [
    | inl refused ↦ rw (refused, attach_or_stay) v
    | inr (d, admitted) ↦
        rw (admitted, attach_or_stay, attach-admitted t b.console d admitted)
          (record { owned = v.owned; named = λ p. refl })
  ]
  happens-TokenOwned socket_ends (c, b) v =
      unfold detach in record { owned = v.owned; named = v.named }

  history-TokenOwned :
      (es : List Event) (w : World E) → TokenOwned w → TokenOwned (history decode close host es w)
  unfolding history
  history-TokenOwned [] w v = v
  history-TokenOwned (e ∷ es) w v =
      history-TokenOwned es (happens decode close host e w) (happens-TokenOwned e w v)

  start-TokenOwned : (ttl : ℕ) (name : Text) (e : E) → TokenOwned (start ttl name e)
  unfolding start Console.init
  start-TokenOwned ttl name e = record { owned = inl refl; named = λ p. refl }

  -- After any history of the provider from its start, if a socket is admitted with a token, then the
  -- token is that of a session, and this session is the one that has the claim at that moment.
  pub history-attach :
      (es : List Event) (ttl : ℕ) (name t : Text) (e : E) (d : Console)
      → attach t (history decode close host es (start ttl name e)).1.console ≡ some d
      → (h : Text) × (d.holder ≡ some h)
        × Holds h (history decode close host es (start ttl name e)).0
  history-attach es ttl name t e d admitted =
      let w = history decode close host es (start ttl name e) in
      let v = history-TokenOwned es (start ttl name e) (start-TokenOwned ttl name e) in
      let (minted, free) = (attach_iff t w.1.console).0 (d, admitted) in
      elim v.owned [
        | inl nobody ↦ cc (v.named nobody, minted)
        | inr same ↦ elim (Option-cases w.1.console.holder) [
          | inl nobody ↦ cc (v.named nobody, minted)
          | inr (h, named) ↦
              (h, rw (attach-admitted t w.1.console d admitted) named, sym same ∙ named)
        ]
      ]
