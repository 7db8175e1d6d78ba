-- ===== src/Provider.antt =====
-- The class `Provider` of examples/jumpstarter/src/jumpstarter_provider/provider.py: the five tools.
--
-- A tool body runs on the event loop up to its first await, where it changes the claims and the
-- console, and then is a `Task`: what it asks of the exporter, and what it does with the answers.
-- After that point no tool touches the claims. The exporter is the type `E` with the method
-- `close_console_quietly`; the argument values of a driver call are of any type `V`.
pub mod Gate
pub mod Power
mod Tests
use yession.Prelude.{
  ℕ, ◌+◌, ◌*◌, ◌/◌, Bool, true, false, Option, none, some, List, [], ◌∷◌, ◌++◌, map, take, ◌||◌,
  if◌then◌else◌, Text, codes, text_eq,
}
use yession.Dict.{Dict, get}
use yession.Words.{strip, lower, join, decimal}
use yession.Claims
use yession.Claims.{Claims, current}
use yession.Console
use yession.Console.{Console, Offer, offer}

-- The clock counts nanoseconds.
abbrev pub ticks_per_second : ℕ
ticks_per_second = 1_000_000_000

-- `CallToolResult`: the text of its one content, and the offer in its `_meta`, if any. A tool that
-- is declared to return `str` returns an answer without an offer.
pub record Answer : Type 0 where
  pub text : Text
  pub meta : Option Offer

-- `_said`
unfoldable pub said : Text → Answer
said t = record { text = t; meta = none }

-- `_short`
unfoldable pub short : Text → Text
short holder = take 8 holder

-- What a call of the exporter comes back with: a value, or the message of its `ExporterError`.
pub data Result {ℓ} (A : Type ℓ) : Type ℓ where
  ok : A → Result A
  error : Text → Result A

-- The methods of `Exporter` that answer with a list of lines.
pub data Listing : Type 0 where
  drivers : Listing
  methods : Text → Listing

-- The rest of a tool body after its first await.
pub data Task (V : Type 0) : Type 0 where
  done : Answer → Task V
  asks : Listing → (Result (List Text) → Task V) → Task V
  calls : Text → Text → List V → (Result Text → Task V) → Task V
  sleeps : ℕ → Task V → Task V

-- What `on_release` can change: the console and the exporter.
pub record Bench (E : Type 0) : Type 0 where
  pub console : Console
  pub exporter : E

abbrev pub World : Type 0 → Type 0
World E = Claims × Bench E

-- The callback that `create` makes.
unfoldable pub released : {E : Type 0} → (E → E) → Bench E → Bench E
released close_console_quietly b = record {
  console = Console.release b.console;
  exporter = close_console_quietly b.exporter;
}

-- `create`: nobody has the claim, and no stream is offered or attached.
unfoldable pub start : {E : Type 0} → ℕ → Text → E → World E
start ttl console_name exporter =
    (Claims.init ttl, record { console = Console.init console_name; exporter = exporter })

abbrev or_empty : Option Text → Text
or_empty none = []
or_empty (some t) = t

-- `_holder`: the header "mcp-session-id", or "".
unfoldable pub session_holder : Dict Text → Text
session_holder headers = or_empty (get (codes "mcp-session-id") headers)

abbrev no_session : Text
no_session = codes "this request carries no MCP session id, so nothing can be claimed by it"

abbrev in_use : Text
in_use = codes " — it is in use, not broken"

-- The words of `_refusal`, given the property `holder`.
unfoldable pub refusal_words : Text → Option Text → Option Text
unfolding short
refusal_words holder none = some (codes "nobody holds this exporter — call acquire first")
refusal_words holder (some other) =
    if text_eq other holder
    then none
    else some (
        codes "the exporter is held by "
        ++ (short other ++ codes ", not by you — it is in use, not broken"))

-- The words of `status` on who holds the exporter.
unfoldable pub held_words : Text → Option Text → Text
unfolding short
held_words holder none = codes "nobody holds it"
held_words holder (some other) =
    if text_eq other holder
    then codes "you hold it"
    else codes "held by " ++ (short other ++ in_use)

-- The words of `release` for a caller that did not hold the exporter.
unfoldable pub not_released_words : Option Text → Text
unfolding short
not_released_words none = codes "nobody held the exporter"
not_released_words (some other) =
    codes "the exporter is held by " ++ (short other ++ codes ", not by you")

-- The indented list of `status`.
unfoldable pub listed : List Text → Text
listed [] = codes "  (it exports nothing)"
listed (d ∷ ds) = join (10 ∷ []) (map (λ line. codes "  " ++ line) (d ∷ ds))

unfoldable pub is_power_action : Text → Bool
is_power_action wanted =
    text_eq wanted (codes "on") || (text_eq wanted (codes "off") || text_eq wanted (codes "cycle"))

module _ {V : Type 0} where
  unfoldable pub status_task : Text → Text → Task V
  unfolding listed
  status_task host held = asks drivers λ r. elim r [
    | ok ds ↦ done (
        said (
          codes "exporter at "
          ++ (host ++ (codes ", " ++ (held ++ (codes ".\nDrivers:\n" ++ listed ds))))))
    | error e ↦ done (said (codes "the exporter is not answering: " ++ e))
  ]

  -- One call of the power driver, and what follows if it does not raise.
  unfoldable pub power_call : Text → Task V → Task V
  power_call method next =
      calls (codes "power") method [] λ r. elim r [
        | ok _ ↦ next
        | error e ↦ done (said (codes "the power driver refused: " ++ e))
      ]

  -- The `try` of `power`, and what follows it.
  unfoldable pub power_steps : Text → Task V
  unfolding power_call
  power_steps wanted =
      let answer = done (said (codes "power " ++ (wanted ++ codes " done"))) in
      if text_eq wanted (codes "cycle")
      then power_call (codes "off") (sleeps (2 * ticks_per_second) (power_call (codes "on") answer))
      else power_call wanted answer

  -- The body of `power` behind the refusal.
  unfoldable pub power_task : Text → Task V
  unfolding power_steps is_power_action strip lower
  power_task action =
      let wanted = lower (strip action) in
      if is_power_action wanted
      then power_steps wanted
      else done
          (said (codes "'" ++ (action ++ codes "' is not a power action — use on, off or cycle")))

  -- The body of `driver_call` behind the refusal.
  unfoldable pub driver_task : Text → Text → List V → Task V
  driver_task driver [] args = asks (methods driver) λ r. elim r [
    | ok offered ↦ done (said (driver ++ (codes " offers: " ++ join (codes ", ") offered)))
    | error e ↦ done (said e)
  ]
  driver_task driver (m ∷ ethod) args = calls driver (m ∷ ethod) args λ r. elim r [
    | ok result ↦
        done (said (driver ++ (codes "." ++ ((m ∷ ethod) ++ (codes " returned " ++ result)))))
    | error e ↦ done (said e)
  ]

module _ {E : Type 0} (close_console_quietly : E → E) (host : Text) (headers : Dict Text) where
  -- `_refusal` for the session `holder`; the reading of the clock is that of the property `holder`.
  unfoldable pub refusal_of : Text → ℕ → World E → Option Text × World E
  unfolding current refusal_words released
  refusal_of [] now w = (some no_session, w)
  refusal_of (c ∷ s) now w =
      let (held, w') = current (released close_console_quietly) now w in
      (refusal_words (c ∷ s) held, w')

  unfoldable pub refusal : ℕ → World E → Option Text × World E
  unfolding session_holder refusal_of
  refusal now w = refusal_of (session_holder headers) now w

  -- `if refusal: return refusal`
  abbrev pub unless_refused : {V : Type 0} → Option Text × World E → Task V → Task V × World E
  unless_refused (none, w) task = (task, w)
  unless_refused (some t, w) task = (done (said t), w)

  unfoldable pub status : {V : Type 0} → ℕ → World E → Task V × World E
  unfolding current session_holder held_words released
  status now w =
      let (held, w') = current (released close_console_quietly) now w in
      (status_task host (held_words (session_holder headers) held), w')

  unfoldable pub power : {V : Type 0} → Text → ℕ → World E → Task V × World E
  unfolding refusal
  power action now w = unless_refused (refusal now w) (power_task action)

  unfoldable pub driver_call : {V : Type 0} → Text → Text → List V → ℕ → World E → Task V × World E
  unfolding refusal
  driver_call driver method args now w =
      unless_refused (refusal now w) (driver_task driver method args)

  -- `release`: the second reading is made only if the caller did not hold the exporter.
  unfoldable pub release_answer : ℕ → Bool × World E → Answer × World E
  unfolding current not_released_words released
  release_answer later (true, w) = (said (codes "released the exporter"), w)
  release_answer later (false, w) =
      let (held, w') = current (released close_console_quietly) later w in
      (said (not_released_words held), w')

  unfoldable pub release : ℕ → ℕ → World E → Answer × World E
  unfolding release_answer session_holder released
  release now later w =
      release_answer later
        (Claims.release (released close_console_quietly) now (session_holder headers) w)

-- The words of `acquire` for a caller that has the claim.
unfoldable pub yours : Claims → Text
yours c =
    codes
      "the exporter is yours. It stays yours while your session keeps talking to this server or keeps its event stream open, and is released automatically after "
    ++ (decimal (c.ttl_seconds / ticks_per_second) ++ codes "s of neither.")

abbrev with_console : Text → Option Offer × Console → Answer × Console
with_console held (none, c) =
    (said (held ++ codes " Its console is already attached to a terminal."), c)
with_console held (some o, c) = (record { text = held; meta = some o }, c)

module _ {E : Type 0} (close_console_quietly : E → E) (origin minted : Text)
    (headers : Dict Text) where
  -- `acquire` once `Claims.acquire` has answered.
  unfoldable pub acquire_answer : (Bool × Option Text) × World E → Answer × World E
  unfolding yours session_holder
  acquire_answer ((true, other), (c, b)) =
      let (answer, console) =
        with_console (yours c) (offer minted origin (session_holder headers) b.console) in
      (answer, (c, record b { console = console }))
  acquire_answer ((false, other), w) =
      (said (codes "the exporter is already held by " ++ (short (or_empty other) ++ in_use)), w)

  -- `acquire` of the session `holder`.
  unfoldable pub acquire_as : Text → ℕ → ℕ → World E → Answer × World E
  unfolding acquire_answer released
  acquire_as [] now later w = (said no_session, w)
  acquire_as (c ∷ s) now later w =
      acquire_answer (Claims.acquire (released close_console_quietly) now later (c ∷ s) w)

  -- `minted` is the token that `secrets` makes, `origin` the value of `self.origin()`.
  unfoldable pub acquire : ℕ → ℕ → World E → Answer × World E
  unfolding session_holder acquire_as
  acquire now later w = acquire_as (session_holder headers) now later w
