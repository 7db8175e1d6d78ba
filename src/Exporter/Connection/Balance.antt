-- ===== src/Exporter/Connection/Balance.antt =====
-- "Entered once and exited once": the calls on context managers, over any use of a connection.
use yession.Prelude.{
  ℕ, suc, ◌≡◌, ◌≢◌, refl, Bool, true, false, Option, none, some, List, [], ◌∷◌, ◌++◌, arith, Text,
  sym, ◌∙◌, subst,
}
use yession.Provider.{error}
use yession.Exporter.Connection.{
  Opening, pexpect_raises, enter_raises, opens, Scope, entered, exited, Connection, init, enter,
  open_driver, open_if, open_console, exit_if, close_console,
}

-- Pairs of an enter and the exit of the same context manager, of rising numbers below the bound, and
-- last, if a console is open, the enter that awaits its exit.
pub data Balanced : List Scope → Option ℕ → ℕ → Type 0 where
  fresh : (n : ℕ) → Balanced [] none n
  later : {t : List Scope} {o : Option ℕ} {n : ℕ} → Balanced t o n → Balanced t o (suc n)
  enters :
      {t : List Scope} {u : List Scope} {n : ℕ}
      → Balanced t none n
      → u ≡ t ++ entered n ∷ []
      → Balanced u (some n) (suc n)
  exits :
      {t : List Scope} {u : List Scope} {k n : ℕ}
      → Balanced t (some k) n
      → u ≡ t ++ exited k ∷ []
      → Balanced u none n

-- The two fields agree, and the trace is balanced.
pub record IsBalanced (c : Connection) : Type 0 where
  pub agree : c.console_cm ≡ c.console
  pub balanced : Balanced c.trace c.console c.made

-- What a command does with the console.
pub data Use : Type 0 where
  uses closes : Use

module _ (console_name : Text) (exports : Bool) (sdk : ℕ → Opening) where
  unfoldable pub use_once : Use → Connection → Connection
  use_once uses c = (open_console console_name exports sdk c).1
  use_once closes c = close_console c

  unfoldable pub use_all : List Use → Connection → Connection
  use_all [] c = c
  use_all (u ∷ us) c = use_all us (use_once u c)

  -- No `__enter__` raises.
  abbrev pub EntersClean : Type 0
  EntersClean = (n : ℕ) (e : Text) → sdk n ≢ enter_raises e

  enter-IsBalanced :
      (o : Opening) (c : Connection)
      → ((e : Text) → o ≢ enter_raises e)
      → c.console ≡ none
      → IsBalanced c
      → IsBalanced (enter console_name exports sdk o c).1
  unfolding enter
  enter-IsBalanced (pexpect_raises e) c clean shut v = record {
    agree = v.agree;
    balanced = later v.balanced;
  }
  enter-IsBalanced (enter_raises e) c clean shut v = absurd (clean e refl)
  enter-IsBalanced opens c clean shut v = record {
    agree = refl;
    balanced = enters (subst (λ o. Balanced c.trace o c.made) shut v.balanced) refl;
  }

  open_if-IsBalanced :
      (o : Option ℕ) (b : Bool) (c : Connection)
      → EntersClean
      → c.console ≡ o
      → exports ≡ b
      → IsBalanced c
      → IsBalanced (open_if console_name exports sdk o c).1
  unfolding open_if open_driver
  open_if-IsBalanced (some k) b c clean e x v = v
  open_if-IsBalanced none false c clean e x v = rw x v
  open_if-IsBalanced none true c clean e x v =
      rw x (enter-IsBalanced (sdk c.made) c (clean c.made) e v)

exit_if-IsBalanced :
    (o : Option ℕ) (c : Connection)
    → c.console_cm ≡ o
    → IsBalanced c
    → IsBalanced (exit_if o (record c { console_cm = none; console = none }))
unfolding exit_if
exit_if-IsBalanced none c e v = record {
  agree = refl;
  balanced = subst (λ o. Balanced c.trace o c.made) (sym v.agree ∙ e) v.balanced;
}
exit_if-IsBalanced (some k) c e v = record {
  agree = refl;
  balanced = exits (subst (λ o. Balanced c.trace o c.made) (sym v.agree ∙ e) v.balanced) refl;
}

close_console-IsBalanced : (c : Connection) → IsBalanced c → IsBalanced (close_console c)
unfolding close_console
close_console-IsBalanced c v = exit_if-IsBalanced c.console_cm c refl v

pub close_console-shut : (c : Connection) → (close_console c).console ≡ none
unfolding close_console
close_console-shut c = ground arith

module _ (console_name : Text) (exports : Bool) (sdk : ℕ → Opening) where
  use_all-IsBalanced :
      (us : List Use) (c : Connection)
      → EntersClean console_name exports sdk
      → IsBalanced c
      → IsBalanced (use_all console_name exports sdk us c)
  unfolding use_all use_once open_console
  use_all-IsBalanced [] c clean v = v
  use_all-IsBalanced (uses ∷ us) c clean v =
      use_all-IsBalanced us _ clean
        (open_if-IsBalanced console_name exports sdk c.console exports c clean refl refl v)
  use_all-IsBalanced (closes ∷ us) c clean v =
      use_all-IsBalanced us _ clean (close_console-IsBalanced c v)

  -- Unless an `__enter__` raises: whatever a connection was used for, once the worker closes it every
  -- console that was entered has been exited, once and before the next was entered, and no console
  -- was exited that was not entered.
  pub closed-Balanced :
      (us : List Use)
      → EntersClean console_name exports sdk
      → Balanced
          (close_console (use_all console_name exports sdk us init)).trace
          none
          (close_console (use_all console_name exports sdk us init)).made
  closed-Balanced us clean =
      let c = use_all console_name exports sdk us init in
      let v =
        close_console-IsBalanced c
          (use_all-IsBalanced us init clean (record { agree = refl; balanced = fresh 0 })) in
      subst (λ o. Balanced (close_console c).trace o (close_console c).made) (close_console-shut c)
        v.balanced

  -- If the `__enter__` of a console raises, the next close calls the `__exit__` of that context
  -- manager all the same, though it was never entered.
  pub exit_without_enter :
      (c : Connection) (e : Text)
      → exports ≡ true
      → c.console ≡ none
      → sdk c.made ≡ enter_raises e
      → ((open_console console_name exports sdk c).0 ≡ error e)
        × ((close_console (open_console console_name exports sdk c).1).trace
            ≡ c.trace ++ exited c.made ∷ [])
  unfolding open_console open_if open_driver enter close_console exit_if
  exit_without_enter c e x shut raises = ground arith
