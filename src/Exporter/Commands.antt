-- ===== src/Exporter/Commands.antt =====
-- What the provider asks of the exporter (exporter.py, lines 139 to 159 and 171 to 235): the commands
-- that run on the worker's thread, and what `_do` makes of their outcome.
pub mod Listed
pub mod Callable
pub mod Consoles
mod Tests
use yession.Prelude.{ℕ, Bool, Option, none, some, List, [], ◌∷◌, ◌++◌, Text, codes}
use yession.Provider.{Result, ok, error}
use yession.Introspect
use yession.Introspect.{Class, Resolved, found, refusal, offered}
use yession.Exporter.Connection.{Opening, Connection, open_console, close_console}
use yession.Exporter.Describe.{Returned, describe}
use yession.Exporter.Drain.{Heard, drain_loop}
use yession.Exporter.Tree
use yession.Exporter.Tree.{Client, Children, end, child, children_of}
use yession.Exporter.Worker.{Run, Seen}

-- What the SDK gives: the tree of clients, their classes, the console, and the calls that have an effect
-- on its objects, the `D`. The values that a call passes are of any type `V`.
pub record Sdk (D V : Type 0) : Type 0 where
  pub root : Client
  pub members : Client → Class
  pub type_text : Client → Text
  pub base_names : List Text
  pub exports_console : Bool
  pub opening : ℕ → Opening
  pub invoke : Client → Text → List V → D → Result Returned × D
  pub send : ℕ → List ℕ → D → Result (Unit {0}) × D
  pub decode : List ℕ → Text
  pub expect : ℕ → ℕ → D → Heard × D

-- What comes of the thread and the reply queue, as `_do` sees it: the connection failed, no reply came
-- in time, or a reply.
pub data Outcome (R : Type 0) : Type 0 where
  unreachable : Text → Outcome R
  silent : Outcome R
  replied : Result R → Outcome R

-- `_do`, with the `ExporterError` of `_ensure`.
unfoldable pub asked : {R : Type 0} → Text → Outcome R → Result R
asked host (unreachable e) =
    error (codes "cannot reach the exporter at " ++ (host ++ (codes ": " ++ e)))
asked host silent = error (
    codes
      "the exporter did not answer in time — that connection was dropped, so the next call reconnects")
asked host (replied r) = r

-- After the first step of a command, which may raise.
infixl 5 ◌>>=◌
abbrev pub ◌>>=◌ : {A B : Type 0} → Result A → (A → Result B) → Result B
ok a >>= f = f a
error e >>= f = error e

abbrev pub then_run : {A D R : Type 0} → Result A × Seen D → (A → Run D R) → Result R × Seen D
then_run (ok a, s) k = k a s
then_run (error e, s) k = (error e, s)

abbrev pub unrefused : Resolved → Result (Unit {0})
unrefused (found a) = ok tt
unrefused (refusal reason) = error reason

module _ {D V : Type 0} (sdk : Sdk D V) where
  abbrev pub driver_lines : Children → List Text
  driver_lines end = []
  driver_lines (child k c cs) = (k ++ (codes " — " ++ sdk.type_text c)) ∷ driver_lines cs

  -- `drivers`
  unfoldable pub drivers_run : Run D (List Text)
  drivers_run s = (ok (driver_lines (children_of sdk.root)), s)

  -- `methods`
  unfoldable pub methods_run : Text → Run D (List Text)
  methods_run driver s = (
    Tree.resolve sdk.root driver >>= λ target. ok (offered sdk.base_names (sdk.members target)),
    s,
  )

  -- The checks of `call`, and the driver that they let through.
  unfoldable pub call_target : Text → Text → Result Client
  call_target driver method = do
    target ← Tree.resolve sdk.root driver
    go ← unrefused (Introspect.resolve sdk.base_names (sdk.members target) method driver)
    ok target

  -- `_describe` of what the call returned.
  abbrev pub shaped : ℕ → Result Returned × D → Result Text × D
  shaped deadline (r, d) = (r >>= describe deadline, d)

  -- `call`. The deadline is that of `_describe`.
  unfoldable pub call_run : ℕ → Text → Text → List V → Run D Text
  unfolding call_target describe
  call_run deadline driver method args (c, d) =
      then_run (call_target driver method, (c, d))
        λ target s.
          let (r, d') = shaped deadline (sdk.invoke target method args s.1) in (r, (s.0, d'))

  -- `connection.open_console()`, on the state of the thread.
  abbrev pub opened : Text → Seen D → Result ℕ × Seen D
  opened console_name (c, d) =
      let (r, c') = open_console console_name sdk.exports_console sdk.opening c in (r, (c', d))

  -- `console_send`
  unfoldable pub console_send_run : Text → List ℕ → Run D (Unit {0})
  unfolding open_console
  console_send_run console_name bytes s =
      then_run (opened console_name s) λ k s'. let (r, d) = sdk.send k bytes s'.1 in (r, (s'.0, d))

  -- `_drain` of the console `k`: `none` says that the fuel ran out.
  abbrev pub after_drain : Connection → Option (Result Text × D) → Option (Result Text × Seen D)
  after_drain c none = none
  after_drain c (some (r, d)) = some (r, (c, d))

  abbrev pub read_from : ℕ → ℕ → ℕ → Seen D → Option (Result Text × Seen D)
  read_from fuel wait k (c, d) = after_drain c (drain_loop sdk.decode (sdk.expect k) fuel wait [] d)

  abbrev pub read_opened : ℕ → ℕ → Result ℕ × Seen D → Option (Result Text × Seen D)
  read_opened fuel wait (error e, s) = some (error e, s)
  read_opened fuel wait (ok k, s) = read_from fuel wait k s

  -- `console_read`
  unfoldable pub console_read_run : Text → ℕ → ℕ → Seen D → Option (Result Text × Seen D)
  unfolding open_console drain_loop
  console_read_run console_name fuel wait s = read_opened fuel wait (opened console_name s)

-- `close_console_quietly`
unfoldable pub close_run : {D : Type 0} → Run D (Unit {0})
unfolding close_console
close_run (c, d) = (ok tt, (close_console c, d))
