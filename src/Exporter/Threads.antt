-- ===== src/Exporter/Threads.antt =====
-- `_serve`, `_ensure`, `_do`, `close` and `close_console_quietly` of exporter.py (lines 82 to 167 and
-- 226 to 235) as threads: callers and every worker that was ever started share the queues `_commands`
-- and `_ready`. The tools call from several threads at a time, so what a caller does is several steps.
pub mod Stale
pub mod Calm
pub mod Mixed
use yession.Prelude.{ℕ, suc, ◌+◌, ◌≡◌, ◌≢◌, ◌≤◌, ◌⊎◌, Option, none, some, List, [], ◌∷◌, ◌++◌, Text}

-- A worker thread: it connects, then it serves, or its connection failed and it answers every command
-- with that failure. Both loops end at a sentinel, and only there.
pub data Phase : Type 0 where
  connecting serving stopped : Phase
  refusing : Text → Phase

-- How a command was answered: on the connection of a worker that serves, or with a failure to connect.
pub data Reply : Type 0 where
  served : Reply
  unreachable : Text → Reply

-- What the exporter keeps, and how many callers are where. `thread` is `_thread` by the number of the
-- worker; `ready` is `_ready`, with `none` for a connection and its message for a failure; `commands`
-- is `_commands`, with `none` for the sentinel. `starting` callers have found no thread and are about
-- to start one, `waiting` callers wait for `_ready`, and `passing` callers are through `_ensure` and
-- about to put a command. `stranded` callers wait at a queue that `_ready` was before it was replaced,
-- and `old` is what is left in those queues. Commands are told apart by numbers.
pub record Threads : Type 0 where
  pub thread : Option ℕ
  pub ready : List (Option Text)
  pub commands : List (Option ℕ)
  pub workers : List Phase
  pub starting : ℕ
  pub waiting : ℕ
  pub passing : ℕ
  pub stranded : ℕ
  pub old : List (Option Text)
  pub replies : List (ℕ × Reply)

-- `Exporter.__init__`
abbrev pub init : Threads
init = record {
  thread = none;
  ready = [];
  commands = [];
  workers = [];
  starting = 0;
  waiting = 0;
  passing = 0;
  stranded = 0;
  old = [];
  replies = [];
}

abbrev pub phase_of : ℕ → List Phase → Option Phase
phase_of n [] = none
phase_of ℕ.zero (p ∷ ps) = some p
phase_of (suc n) (p ∷ ps) = phase_of n ps

abbrev pub set_phase : ℕ → Phase → List Phase → List Phase
set_phase n p [] = []
set_phase ℕ.zero p (q ∷ ps) = p ∷ ps
set_phase (suc n) p (q ∷ ps) = q ∷ set_phase n p ps

abbrev pub count : List Phase → ℕ
count [] = 0
count (p ∷ ps) = suc (count ps)

-- What a worker in its loop replies to a command.
abbrev pub reply_of : Phase → Option Reply
reply_of connecting = none
reply_of stopped = none
reply_of serving = some served
reply_of (refusing e) = some (unreachable e)

-- `self._thread is not None and self._thread.is_alive()`, and its opposite.
abbrev pub IsAlive : Threads → ℕ → Phase → Type 0
IsAlive s n p = (s.thread ≡ some n) × (phase_of n s.workers ≡ some p) × (p ≢ stopped)

abbrev pub IsGone : Threads → Type 0
IsGone s =
    (s.thread ≡ none) ⊎ ((n : ℕ) × (s.thread ≡ some n) × (phase_of n s.workers ≡ some stopped))

-- A tool runs the exporter on a thread of anyio, which has at most 40 of them (provider.py, line 368), so
-- a caller comes in only while fewer are inside. Those that wait for a reply are not counted.
abbrev pub HasPlace : Threads → Type 0
HasPlace s = suc (s.starting + (s.waiting + (s.passing + s.stranded))) ≤ 40

pub data Step (s : Threads) (t : Threads) : Type 0 where
  -- a caller of `_ensure` finds no live thread
  finds_none : IsGone s → HasPlace s → t ≡ record s { starting = suc s.starting } → Step s t
  -- and starts one, and waits
  starts :
      (k : ℕ)
      → s.starting ≡ suc k
      → t ≡ record s {
        thread = some (count s.workers);
        starting = k;
        waiting = suc s.waiting;
        workers = s.workers ++ connecting ∷ [];
      }
      → Step s t
  -- or starts the one it made, after another caller has put its own in `_thread`, and waits
  starts_behind :
      (k n : ℕ)
      → s.starting ≡ suc k
      → s.thread ≡ some n
      → t
        ≡ record s { starting = k; waiting = suc s.waiting; workers = s.workers ++ connecting ∷ [] }
      → Step s t
  -- or raises, since `_thread` has been started by another caller, or dropped, in the meantime
  start_raises : (k : ℕ) → s.starting ≡ suc k → t ≡ record s { starting = k } → Step s t
  -- a caller of `_ensure` finds a live thread, connected or not, and goes on
  passes :
      (n : ℕ) (p : Phase)
      → IsAlive s n p
      → HasPlace s
      → t ≡ record s { passing = suc s.passing }
      → Step s t
  -- the worker `n` connects
  connects :
      (n : ℕ)
      → phase_of n s.workers ≡ some connecting
      → t ≡ record s { ready = s.ready ++ none ∷ []; workers = set_phase n serving s.workers }
      → Step s t
  -- the worker `n` fails to connect
  fails :
      (n : ℕ) (e : Text)
      → phase_of n s.workers ≡ some connecting
      → t
        ≡ record s { ready = s.ready ++ some e ∷ []; workers = set_phase n (refusing e) s.workers }
      → Step s t
  -- a caller that waits hears of a connection, and goes on
  hears :
      (k : ℕ) (rest : List (Option Text))
      → s.waiting ≡ suc k
      → s.ready ≡ none ∷ rest
      → t ≡ record s { ready = rest; waiting = k; passing = suc s.passing }
      → Step s t
  -- or of a failure, which it raises
  hears_failure :
      (k : ℕ) (e : Text) (rest : List (Option Text))
      → s.waiting ≡ suc k
      → s.ready ≡ some e ∷ rest
      → t ≡ record s { thread = none; ready = rest; waiting = k }
      → Step s t
  -- or of nothing for a minute, and the exception of the queue goes on to the tool
  gives_up : (k : ℕ) → s.waiting ≡ suc k → t ≡ record s { waiting = k } → Step s t
  -- a caller puts its command
  puts :
      (k command : ℕ)
      → s.passing ≡ suc k
      → t ≡ record s { commands = s.commands ++ some command ∷ []; passing = k }
      → Step s t
  -- `close_console_quietly` finds a live thread and puts a command
  puts_quietly :
      (n command : ℕ) (p : Phase)
      → IsAlive s n p
      → t ≡ record s { commands = s.commands ++ some command ∷ [] }
      → Step s t
  -- any worker in its loop takes the first command and answers it
  takes :
      (n command : ℕ) (rest : List (Option ℕ)) (p : Phase) (r : Reply)
      → phase_of n s.workers ≡ some p
      → reply_of p ≡ some r
      → s.commands ≡ some command ∷ rest
      → t ≡ record s { commands = rest; replies = (command, r) ∷ s.replies }
      → Step s t
  -- or the sentinel, and ends
  stops :
      (n : ℕ) (rest : List (Option ℕ)) (p : Phase) (r : Reply)
      → phase_of n s.workers ≡ some p
      → reply_of p ≡ some r
      → s.commands ≡ none ∷ rest
      → t ≡ record s { commands = rest; workers = set_phase n stopped s.workers }
      → Step s t
  -- `close` finds a live thread and puts the sentinel
  asks_stop :
      (n : ℕ) (p : Phase)
      → IsAlive s n p
      → t ≡ record s { commands = s.commands ++ none ∷ [] }
      → Step s t
  -- the connection is dropped: `_do` has waited for its reply in vain, or `close` ends. A caller that
  -- waits at that moment goes on waiting at the old queue
  drops :
      t ≡ record s {
        thread = none;
        ready = [];
        waiting = 0;
        stranded = s.waiting + s.stranded;
        old = s.old ++ s.ready;
      }
      → Step s t
  -- where it finds what was left there
  hears_old :
      (k : ℕ) (rest : List (Option Text))
      → s.stranded ≡ suc k
      → s.old ≡ none ∷ rest
      → t ≡ record s { old = rest; stranded = k; passing = suc s.passing }
      → Step s t
  hears_old_failure :
      (k : ℕ) (e : Text) (rest : List (Option Text))
      → s.stranded ≡ suc k
      → s.old ≡ some e ∷ rest
      → t ≡ record s { thread = none; old = rest; stranded = k }
      → Step s t
  -- or nothing for a minute
  gives_up_old : (k : ℕ) → s.stranded ≡ suc k → t ≡ record s { stranded = k } → Step s t

pub data Reach (s : Threads) : Threads → Type 0 where
  here : Reach s s
  next : {t u : Threads} → Reach s t → Step t u → Reach s u

-- Runs one after the other.
pub Reach-trans : {s t u : Threads} → Reach s t → Reach t u → Reach s u
Reach-trans r here = r
Reach-trans r (next q last) = next (Reach-trans r q) last
