-- ===== src/App/Delivery.antt =====
-- From the tool `acquire` to an attached stream: the offer that it makes, the WebSocket that a client
-- opens with it, and the check of that socket (provider.py, lines 234 to 259 and 339 to 345, and
-- stream.py, lines 59 to 77 and 104 to 129).
use yession.Prelude.{
  ℕ, ◌≡◌, ◌≢◌, refl, Bool, true, false, Option, none, some, List, [], ◌∷◌, ◌++◌, arith, Text, codes,
  text_eq_refl, ◌∙◌, ap,
}
use yession.Dict.{Dict}
use yession.Claims
use yession.Claims.{Claims}
use yession.Console.{Console, Offer, offer, attach}
use yession.Provider.{World, released, session_holder, acquire, acquire_as, acquire_answer}
use yession.App.{Scope, websocket, arrive, attached, attach_path}
use yession.App.Escape.{is_attached, expire-attached, take_claim-attached}
use yession.App.Routes.{websocket_arrives}

module _ (decode : List ℕ → Text) {E : Type 0} (close : E → E) (host origin minted : Text)
    (headers : Dict Text) where
  -- The answer to a caller that has the claim, while no stream is attached.
  answer-offer :
      (r : (Bool × Option Text) × World E)
      → r.0.0 ≡ true
      → is_attached r.1 ≡ false
      → (o : Offer) × (d : Console) × ((acquire_answer close origin minted headers r).0.meta
          ≡ some o)
        × (o.url ≡ origin ++ (attach_path ++ minted))
        × (attach minted (acquire_answer close origin minted headers r).1.1.console ≡ some d)
        × (d.holder ≡ some (session_holder headers))
  unfolding acquire_answer offer attach attach_path
  answer-offer ((true, other), (c, b)) took free = (
    record {
      url = origin ++ (codes "/attach/" ++ minted);
      label = b.console.console_name ++ codes " console";
      renewable = true;
    },
    record b.console { token = none; holder = some (session_holder headers); attached = true },
    ground arith,
    refl,
    ground (arith, text_eq_refl minted),
    refl,
  )
  answer-offer ((false, other), (c, b)) took free = cc

  acquire_as-session :
      (h : Text) (now later : ℕ) (w : World E)
      → h ≢ []
      → acquire_as close origin minted headers h now later w
        ≡ acquire_answer close origin minted headers (Claims.acquire (released close) now later h w)
  unfolding acquire_as
  acquire_as-session [] now later w named = absurd (named refl)
  acquire_as-session (c ∷ s) now later w named = refl

  acquire-attached :
      (h : Text) (now later : ℕ) (w : World E)
      → is_attached (Claims.acquire (released close) now later h w).1 ≡ is_attached w
  unfolding Claims.acquire
  acquire-attached h now later w =
      take_claim-attached decode close host later h _ (Claims.expire (released close) now w)
      ∙ expire-attached decode close host now w

  -- A session that `acquire` lets have the exporter, while no stream is attached, is offered one that
  -- it can open: a WebSocket on the path that the offered URL has behind the origin is given to the
  -- console with the minted token, whenever it arrives, and the console as the tool leaves it admits
  -- that token, for this session.
  pub acquire-delivers :
      (now later : ℕ) (w : World E)
      → session_holder headers ≢ []
      → (Claims.acquire (released close) now later (session_holder headers) w).0.0 ≡ true
      → is_attached w ≡ false
      → (o : Offer) × (d : Console) × ((acquire close origin minted headers now later w).0.meta
          ≡ some o)
        × (o.url ≡ origin ++ (attach_path ++ minted))
        × ((s : Scope) (t u : ℕ) (x : World E)
            → s.kind ≡ websocket
            → s.path ≡ attach_path ++ minted
            → (arrive decode close s t u x).0 ≡ attached minted)
        × (attach minted (acquire close origin minted headers now later w).1.1.console ≡ some d)
        × (d.holder ≡ some (session_holder headers))
  unfolding acquire
  acquire-delivers now later w named took free =
      let r = Claims.acquire (released close) now later (session_holder headers) w in
      let still = acquire-attached (session_holder headers) now later w ∙ free in
      let (o, d, shown, url, admits, whose) = answer-offer r took still in
      let same = acquire_as-session (session_holder headers) now later w named in
      (
        o,
        d,
        ap (λ a. a.0.meta) same ∙ shown,
        url,
        λ s t u x socket path. (websocket_arrives decode close s minted t u x socket).0.1 path,
        ap (λ a. attach minted a.1.1.console) same ∙ admits,
        whose,
      )
