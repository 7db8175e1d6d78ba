-- ===== src/Exporter/Commands/Consoles.antt =====
-- Reads of the console, one after the other (exporter.py, lines 49 to 65, 214 to 224 and 304 to 322).
use yession.Prelude.{
  ℕ, suc, arith, ◌≡◌, refl, Bool, true, false, Option, none, some, List, Text, length, ap,
}
use yession.Provider.{ok, error}
use yession.Exporter.Connection.{
  Opening, opens, pexpect_raises, enter_raises, Connection, enter, open_driver, open_if,
  open_console,
}
use yession.Exporter.Drain.{joined, timed_out, raises, Says, drain-Says, drain-raises}
use yession.Exporter.Commands.{Sdk, after_drain, console_read_run}

module _ {D V : Type 0} (sdk : Sdk D V) (console_name : Text) where
  enter-held :
      (o : Opening) (c d : Connection) (k : ℕ)
      → enter console_name sdk.exports_console sdk.opening o c ≡ (ok k, d)
      → d.console ≡ some k
  unfolding enter
  enter-held opens c d k e = cc
  enter-held (pexpect_raises m) c d k e = cc
  enter-held (enter_raises m) c d k e = cc

  open_driver-held :
      (b : Bool) (c d : Connection) (k : ℕ)
      → open_driver console_name sdk.exports_console sdk.opening b c ≡ (ok k, d)
      → d.console ≡ some k
  unfolding open_driver
  open_driver-held false c d k e = cc
  open_driver-held true c d k e = enter-held (sdk.opening c.made) c d k e

  open_if-held :
      (o : Option ℕ) (c d : Connection) (k : ℕ)
      → c.console ≡ o
      → open_if console_name sdk.exports_console sdk.opening o c ≡ (ok k, d)
      → d.console ≡ some k
  unfolding open_if
  open_if-held none c d k h e = open_driver-held sdk.exports_console c d k e
  open_if-held (some j) c d k h e = ground (arith, h, e)

  open_console-held :
      (c d : Connection) (k : ℕ)
      → open_console console_name sdk.exports_console sdk.opening c ≡ (ok k, d)
      → d.console ≡ some k
  unfolding open_console
  open_console-held c d k e = open_if-held c.console c d k refl e

  open_console-again :
      (d : Connection) (k : ℕ)
      → d.console ≡ some k
      → open_console console_name sdk.exports_console sdk.opening d ≡ (ok k, d)
  unfolding open_console open_if
  open_console-again d k h = rw h refl

  console_read_run-Says :
      (fuel wait k : ℕ) (c c' : Connection) (d d' : D) (ts : List Text)
      → open_console console_name sdk.exports_console sdk.opening c ≡ (ok k, c')
      → Says sdk.decode (sdk.expect k) timed_out wait d ts d'
      → fuel ≡ suc (length ts)
      → console_read_run sdk console_name fuel wait (c, d) ≡ some (ok (joined ts), (c', d'))
  unfolding console_read_run
  console_read_run-Says fuel wait k c c' d d' ts o says e =
      rw (o, e) (ap (after_drain sdk c') (drain-Says sdk.decode (sdk.expect k) says))

  -- Two reads of the console, from a connection on which it opens or is open: the first returns what the
  -- console says until it is quiet for a while, the second what it says after that, from the same
  -- console, which is opened once. Nothing is lost between them and nothing is read twice.
  pub two_reads :
      (wait later k : ℕ) (c c' : Connection) (d d' d'' : D) (ts us : List Text)
      → open_console console_name sdk.exports_console sdk.opening c ≡ (ok k, c')
      → Says sdk.decode (sdk.expect k) timed_out wait d ts d'
      → Says sdk.decode (sdk.expect k) timed_out later d' us d''
      → (console_read_run sdk console_name (suc (length ts)) wait (c, d)
          ≡ some (ok (joined ts), (c', d')))
        × (console_read_run sdk console_name (suc (length us)) later (c', d')
            ≡ some (ok (joined us), (c', d'')))
  two_reads wait later k c c' d d' d'' ts us o first second = (
    console_read_run-Says (suc (length ts)) wait k c c' d d' ts o first refl,
    console_read_run-Says (suc (length us)) later k c' c' d' d'' us
        (open_console-again c' k (open_console-held c c' k o)) second refl,
  )

  -- A read that meets the end of the console loses what it has read: if `expect` raises after some
  -- chunks, then the answer of `console_read` is the message of the exception, whatever the chunks are,
  -- and the console is behind them, so no later read has them either.
  pub read_is_lost :
      (wait k : ℕ) (c c' : Connection) (d d' : D) (ts : List Text) (e : Text)
      → open_console console_name sdk.exports_console sdk.opening c ≡ (ok k, c')
      → Says sdk.decode (sdk.expect k) (raises e) wait d ts d'
      → console_read_run sdk console_name (suc (length ts)) wait (c, d) ≡ some (error e, (c', d'))
  unfolding console_read_run
  read_is_lost wait k c c' d d' ts e o says =
      rw o (ap (after_drain sdk c') (drain-raises sdk.decode (sdk.expect k) e says))
