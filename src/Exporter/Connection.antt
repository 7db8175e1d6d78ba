-- ===== src/Exporter/Connection.antt =====
-- The class `_Connection` of exporter.py (lines 40 to 71): the console's context manager.
pub mod Balance
use yession.Prelude.{
  ℕ, suc, ◌+◌, Bool, true, false, Option, none, some, List, [], ◌∷◌, ◌++◌, Text, codes,
}
use yession.Provider.{Result, ok, error}

-- What the SDK does when a console is opened: `driver.pexpect()` raises, or the `__enter__` of what it
-- made raises, or the console opens.
pub data Opening : Type 0 where
  pexpect_raises enter_raises : Text → Opening
  opens : Opening

-- A call of `__enter__` that returned, or of `__exit__`, on the context manager of that number.
pub data Scope : Type 0 where
  entered exited : ℕ → Scope

-- `_console_cm` and `console`; context managers are numbered as they are made, and `trace` is what
-- was called on them.
pub record Connection : Type 0 where
  pub console_cm : Option ℕ
  pub console : Option ℕ
  pub made : ℕ
  pub trace : List Scope

abbrev pub init : Connection
init = record { console_cm = none; console = none; made = 0; trace = [] }

unfoldable pub no_driver : Text → Text
no_driver name =
    codes "this exporter exports no '"
    ++ (name ++ codes "' driver — call status to see what it does export")

-- `exports` says that the client has the attribute `console_name`; `sdk n` is what becomes of the n-th
-- context manager.
module _ (console_name : Text) (exports : Bool) (sdk : ℕ → Opening) where
  unfoldable pub enter : Opening → Connection → Result ℕ × Connection
  enter (pexpect_raises e) c = (error e, record c { made = suc c.made })
  enter (enter_raises e) c = (error e, record c { console_cm = some c.made; made = suc c.made })
  enter opens c = (
    ok c.made,
    record {
      console_cm = some c.made;
      console = some c.made;
      made = suc c.made;
      trace = c.trace ++ entered c.made ∷ [];
    },
  )

  unfoldable pub open_driver : Bool → Connection → Result ℕ × Connection
  unfolding enter no_driver
  open_driver false c = (error (no_driver console_name), c)
  open_driver true c = enter (sdk c.made) c

  unfoldable pub open_if : Option ℕ → Connection → Result ℕ × Connection
  unfolding open_driver
  open_if (some k) c = (ok k, c)
  open_if none c = open_driver exports c

  unfoldable pub open_console : Connection → Result ℕ × Connection
  unfolding open_if
  open_console c = open_if c.console c

unfoldable pub exit_if : Option ℕ → Connection → Connection
exit_if none c = c
exit_if (some k) c = record c { trace = c.trace ++ exited k ∷ [] }

unfoldable pub close_console : Connection → Connection
unfolding exit_if
close_console c = exit_if c.console_cm (record c { console_cm = none; console = none })
