-- ===== src/App/Tests.antt =====
-- A history of the whole provider, and the theorems at it.
use yession.Prelude.{
  ℕ, ◌≡◌, ◌≢◌, refl, true, false, none, some, List, [], ◌∷◌, ◌++◌, Text, codes, text_eq,
}
use yession.Dict.{Dict, get}
use yession.Claims
use yession.Claims.{init, acquire, take_claim, expire, is_stale, open_streams}
use yession.Claims.Laws.{Holds}
use yession.Console
use yession.Console.{Console, Offer, attach, offer}
use yession.Provider.{World, start, acquire as tool_acquire, released, session_holder}
use yession.App.{Scope, http, websocket, attached, arrive, attach_path}
use yession.App.Events.{Event, asks_acquire, asks_release, happens, history}
use yession.App.Ownership.{history-attach}
use yession.App.Escape.{is_attached, stream_outlives_claim}
use yession.App.Delivery.{acquire-delivers}

abbrev same : Text → Text
same t = t

abbrev quiet : ℕ → ℕ
quiet n = n

abbrev headers_of : Text → Dict Text
headers_of s = (codes "mcp-session-id", s) ∷ []

abbrev first_acquire : List Event
first_acquire = asks_acquire (headers_of (codes "a1")) [] (codes "t1") 10 10 ∷ []

abbrev opened : Console
opened = record {
  console_name = codes "serial";
  token = none;
  holder = some (codes "a1");
  attached = true;
}

app_runs : Unit {0}
unfolding history happens tool_acquire acquire start init Console.init attach offer codes text_eq
    session_holder get
app_runs = tt

opened_lem :
    attach
      (codes "t1")
      (history same quiet [] first_acquire (start 60 (codes "serial") 0)).1.console
    ≡ some opened
unfolding app_runs
opened_lem = refl

history-attach_example :
    (h : Text) × (opened.holder ≡ some h)
    × Holds h (history same quiet [] first_acquire (start 60 (codes "serial") 0)).0
history-attach_example =
    history-attach same quiet [] first_acquire 60 (codes "serial") (codes "t1") 0 opened opened_lem

-- The session "a1" has the claim, and its stream is attached.
abbrev attached_world : World ℕ
attached_world = (
  record {
    ttl_seconds = 60;
    claim = some (record { holder = codes "a1"; taken_at = 10; last_seen = 10 });
    streaming = [];
  },
  record { console = opened; exporter = 0 },
)

abbrev handed_over : List Event
handed_over =
    asks_release (headers_of (codes "a1")) 20 20
    ∷ asks_acquire (headers_of (codes "b2")) [] (codes "t2") 21 21
    ∷ []

stream_outlives_claim_example :
    ((history same quiet [] handed_over attached_world).1.console.attached ≡ true)
    × ((origin minted : Text) (headers : Dict Text) (now later : ℕ)
        → (tool_acquire quiet origin minted headers now later
            (history same quiet [] handed_over attached_world)).0.meta
          ≡ none)
stream_outlives_claim_example =
    stream_outlives_claim same quiet [] handed_over attached_world (tt, (tt, tt)) refl

abbrev socket : Scope
socket = record { kind = websocket; headers = []; method = none; path = attach_path ++ codes "t1" }

abbrev event_stream : Scope
event_stream = record {
  kind = http;
  headers = (codes "mcp-session-id", codes "a1") ∷ [];
  method = some (codes "GET");
  path = codes "/mcp";
}

a1_named : codes "a1" ≢ []
unfolding codes
a1_named e = cc

abbrev beginning : World ℕ
beginning = start 60 (codes "serial") 0

taken_at_start :
    (Claims.acquire (released quiet) 10 11 (session_holder (headers_of (codes "a1"))) beginning).0.0
    ≡ true
unfolding Claims.acquire expire init start take_claim
taken_at_start = refl

free_at_start : is_attached beginning ≡ false
unfolding start Console.init
free_at_start = refl

a1_asks : session_holder (headers_of (codes "a1")) ≢ []
unfolding session_holder get text_eq codes
a1_asks e = cc

acquire-delivers_example :
    (o : Offer) × (d : Console) × ((tool_acquire quiet
        (codes "ws://h")
        (codes "t1")
        (headers_of (codes "a1"))
        10
        11
        beginning).0.meta
      ≡ some o)
    × (o.url ≡ codes "ws://h" ++ (attach_path ++ codes "t1"))
    × ((s : Scope) (t u : ℕ) (x : World ℕ)
        → s.kind ≡ websocket
        → s.path ≡ attach_path ++ codes "t1"
        → (arrive same quiet s t u x).0 ≡ attached (codes "t1"))
    × (attach
          (codes "t1")
          (tool_acquire quiet
            (codes "ws://h")
            (codes "t1")
            (headers_of (codes "a1"))
            10
            11
            beginning).1.1.console
        ≡ some d)
    × (d.holder ≡ some (session_holder (headers_of (codes "a1"))))
acquire-delivers_example =
    acquire-delivers same quiet (codes "host") (codes "ws://h") (codes "t1")
      (headers_of (codes "a1")) 10 11 beginning a1_asks taken_at_start free_at_start
