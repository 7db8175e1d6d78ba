-- ===== src/App/Routes.antt =====
-- Where the wrapper sends a request, and what an event stream does for the claim (provider.py, lines
-- 321 to 346).
use yession.Prelude.{
  ℕ, ◌≡◌, ◌≢◌, ◌↔◌, refl, true, some, List, [], ◌∷◌, ◌++◌, arith, Text, codes, text_eq_refl, ==_iff,
  length, drop, sym, ap, ◌∙◌, subst, Bool-cases, inl, inr, if◌then◌else◌,
}
use yession.Claims
use yession.Claims.{Claims, see, open_stream, open_streams, holder_of}
use yession.Claims.Laws.{Holds, holder_of-see, holder_of-open, open_streams-open}
use yession.Claims.History.Keeping.{IsListening}
use yession.Provider.{World, released}
use yession.App.{
  http, websocket, Scope, Route, streamed, attached, turned_away, arrive, arrive_kind, arrive_http,
  attach_path, starts_with, session_of,
}

starts_with_sound : (p s : Text) → starts_with p s ≡ true → s ≡ p ++ drop (length p) s
unfolding starts_with
starts_with_sound [] s h = refl
starts_with_sound (c ∷ p) [] h = cc
starts_with_sound (c ∷ p) (d ∷ s) h = ground (arith, ==_iff c d, starts_with_sound p s)

starts_with-append : (p t : Text) → starts_with p (p ++ t) ≡ true
unfolding starts_with
starts_with-append [] t = refl
starts_with-append (c ∷ p) t = ground (arith, ==_iff c c, starts_with-append p t)

drop-append : (p t : Text) → drop (length p) (p ++ t) ≡ t
drop-append [] t = refl
drop-append (c ∷ p) t = drop-append p t

abbrev websocket_route : Text → Route
websocket_route path =
    if starts_with attach_path path then attached (drop (length attach_path) path) else turned_away

websocket_route_iff :
    (path t : Text) → (websocket_route path ≡ attached t) ↔ (path ≡ attach_path ++ t)
websocket_route_iff path t = (
  λ e. elim (Bool-cases (starts_with attach_path path)) [
    | inl yes_it ↦
        starts_with_sound attach_path path yes_it
        ∙ ap (λ r. attach_path ++ r) (ground (arith, yes_it, e))
    | inr no_it ↦ ground (arith, no_it, e)
  ],
  λ e. rw (e, starts_with-append attach_path t, drop-append attach_path t) refl,
)

module _ (decode : List ℕ → Text) {E : Type 0} (close : E → E) where
  -- A WebSocket is given to the console with a token exactly if its path is "/attach/" and then that
  -- token, and is turned away otherwise; either way its arrival changes neither claims nor console.
  pub websocket_arrives :
      (scope : Scope) (t : Text) (now later : ℕ) (w : World E)
      → scope.kind ≡ websocket
      → (((arrive decode close scope now later w).0 ≡ attached t) ↔ (scope.path ≡ attach_path ++ t))
        × ((arrive decode close scope now later w).1 ≡ w)
  unfolding arrive arrive_kind
  websocket_arrives scope t now later w k =
      subst
        (λ k.
          (((arrive_kind decode close k scope now later w).0 ≡ attached t)
            ↔ (scope.path ≡ attach_path ++ t))
          × ((arrive_kind decode close k scope now later w).1 ≡ w))
        (sym k) (websocket_route_iff scope.path t, refl)

  get_arrives-http :
      (h : Text) (now later : ℕ) (w : World E)
      → h ≢ []
      → Holds h (Claims.expire (released close) now w).0
      → ((arrive_http decode close h (some (codes "GET")) now later w).0 ≡ streamed h)
        × IsListening h (arrive_http decode close h (some (codes "GET")) now later w).1.0
  unfolding arrive_http Claims.touch
  get_arrives-http [] now later w ne held = absurd (ne refl)
  get_arrives-http (c ∷ s) now later w ne held =
      let u = Claims.expire (released close) now w in
      let seen : Claims = record u.0 { claim = see later (c ∷ s) u.0.claim } in
      rw (text_eq_refl (codes "GET")) (
        refl,
        record {
          holds = holder_of-open (c ∷ s) seen ∙ holder_of-see later (c ∷ s) u.0.claim ∙ held;
          listens = ground (arith, open_streams-open (c ∷ s) (c ∷ s) seen, text_eq_refl (c ∷ s));
        },
      )

  -- A GET by the session that has the claim, once silent claims are expired, is passed on inside
  -- `streaming`, and leaves that session with the claim and a stream open.
  pub get_arrives :
      (scope : Scope) (h : Text) (now later : ℕ) (w : World E)
      → scope.kind ≡ http
      → scope.method ≡ some (codes "GET")
      → session_of decode scope.headers ≡ h
      → h ≢ []
      → Holds h (Claims.expire (released close) now w).0
      → ((arrive decode close scope now later w).0 ≡ streamed h)
        × IsListening h (arrive decode close scope now later w).1.0
  unfolding arrive arrive_kind
  get_arrives scope h now later w k m s ne held =
      subst
        (λ k.
          ((arrive_kind decode close k scope now later w).0 ≡ streamed h)
          × IsListening h (arrive_kind decode close k scope now later w).1.0)
        (sym k) (rw (m, s) (get_arrives-http h now later w ne held))
