-- ===== src/App/Awaits.antt =====
-- The tools across their awaits (provider.py, lines 214 to 308 and 365 to 368): a tool runs on the
-- event loop up to its first await, other things run there while it waits, and it goes on when what
-- it waits for comes.
pub mod Authorised
pub mod Handover
pub mod Slots
pub mod Quiet
pub mod Runs
pub mod Course
pub mod Order
pub mod Within
pub mod Asked
pub mod Hardware
mod Tests
use yession.Prelude.{ℕ, zero, suc, Option, none, some, List, [], ◌∷◌, ◌++◌, length, Text}
use yession.Dict.{Dict}
use yession.Provider.{
  Answer, Result, Listing, Task, done, asks, calls, sleeps, World, session_holder, status, power,
  driver_call,
}
use yession.Provider.Power.{Act, listing, called, slept}
use yession.App.Events.{
  Event, request, ends_stream, asks_status, asks_acquire, asks_release, asks_power, asks_driver,
  socket_opens, socket_ends, happens,
}

-- A tool that waits, by the session that called it.
pub record Waiting (V : Type 0) : Type 0 where
  pub session : Text
  pub task : Task V

-- What ends an await: `_off_loop` comes back, with lines or a text or an `ExporterError`, or `sleep` ends.
pub data Signal : Type 0 where
  lines_came : Result (List Text) → Signal
  text_came : Result Text → Signal
  woke : Signal

-- What the event loop runs next: an event, with the arguments of the driver call if it is one, or the
-- tool of that number goes on.
pub data Turn (V : Type 0) : Type 0 where
  event : Event → List V → Turn V
  signal : ℕ → Signal → Turn V

-- What a task does on the outside before it waits again; `done` does nothing more.
abbrev pub issued : {V : Type 0} → Task V → List (Act V)
issued (done answer) = []
issued (asks l k) = listing l ∷ []
issued (calls d m args k) = called d m args ∷ []
issued (sleeps n k) = slept n ∷ []

-- A task goes on with what it waited for, and with nothing else.
abbrev pub resumed : {V : Type 0} → Signal → Task V → Option (Task V)
resumed (lines_came r) (asks l k) = some (k r)
resumed (text_came r) (calls d m args k) = some (k r)
resumed woke (sleeps n k) = some k
resumed _ _ = none

-- The world, the tools that were called, in order, each as far as it has come, and all that they did on
-- the outside, in order, each act with the number of its tool and the session that called it.
pub record Loop (V E : Type 0) : Type 0 where
  pub world : World E
  pub tools : List (Waiting V)
  pub acts : List (ℕ × Text × Act V)

abbrev pub nth {ℓ} : {A : Type ℓ} → ℕ → List A → Option A
nth n [] = none
nth zero (x ∷ xs) = some x
nth (suc n) (x ∷ xs) = nth n xs

abbrev pub set_nth {ℓ} : {A : Type ℓ} → ℕ → A → List A → List A
set_nth n y [] = []
set_nth zero y (x ∷ xs) = y ∷ xs
set_nth (suc n) y (x ∷ xs) = x ∷ set_nth n y xs

abbrev pub marked : {V : Type 0} → ℕ → Text → List (Act V) → List (ℕ × Text × Act V)
marked i session [] = []
marked i session (a ∷ more) = (i, session, a) ∷ marked i session more

-- The loop over a world, with no tool called yet.
abbrev pub idle : {V E : Type 0} → World E → Loop V E
idle w = record { world = w; tools = []; acts = [] }

module _ (decode : List ℕ → Text) {V E : Type 0} (close : E → E) (host : Text) where
  -- The tool that an event calls, if it is a tool that awaits.
  unfoldable pub begun : Event → List V → World E → List (Waiting V)
  unfolding status power driver_call session_holder
  begun (asks_status headers now) args w =
      record { session = session_holder headers; task = (status close host headers now w).0 } ∷ []
  begun (asks_power headers action now) args w =
      record { session = session_holder headers; task = (power close host headers action now w).0 }
      ∷ []
  begun (asks_driver headers driver method now) args w =
      record {
        session = session_holder headers;
        task = (driver_call close host headers driver method args now w).0;
      }
      ∷ []
  begun _ args w = []

  -- A tool is called, and runs up to its first await.
  abbrev pub entered : List (Waiting V) → Loop V E → Loop V E
  entered [] s = s
  entered (t ∷ ts) s = entered ts (record s {
    tools = s.tools ++ t ∷ [];
    acts = s.acts ++ marked (length s.tools) t.session (issued t.task);
  })

  -- A tool goes on up to its next await.
  abbrev pub gone_on : ℕ → Waiting V → Option (Task V) → Loop V E → Loop V E
  gone_on i t none s = s
  gone_on i t (some task) s = record s {
    tools = set_nth i (record t { task = task }) s.tools;
    acts = s.acts ++ marked i t.session (issued task);
  }

  abbrev pub signalled : ℕ → Signal → Option (Waiting V) → Loop V E → Loop V E
  signalled i sig none s = s
  signalled i sig (some t) s = gone_on i t (resumed sig t.task) s

  unfoldable pub take_turn : Turn V → Loop V E → Loop V E
  unfolding happens begun
  take_turn (event e args) s =
      entered (begun e args s.world) (record s { world = happens decode close host e s.world })
  take_turn (signal i sig) s = signalled i sig (nth i s.tools) s

  unfoldable pub turns : List (Turn V) → Loop V E → Loop V E
  unfolding take_turn
  turns [] s = s
  turns (t ∷ ts) s = turns ts (take_turn t s)
