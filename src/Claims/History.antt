-- ===== src/Claims/History.antt =====
-- Histories of calls on one `Claims`, by any number of sessions, in the order in which the event
-- loop runs them (provider.py, lines 60 to 145). No method awaits, so calls do not overlap.
pub mod Keeping
use yession.Prelude.{ℕ, List, [], ◌∷◌, Text}
use yession.Claims.{Claims, open_stream, close_stream, expire, touch, current, acquire, release}

-- One call, with the readings of the clock that it makes.
pub data Call : Type 0 where
  expires : ℕ → Call
  touches : ℕ → ℕ → Text → Call
  reads_holder : ℕ → Call
  acquires : ℕ → ℕ → Text → Call
  releases : ℕ → Text → Call
  opens : Text → Call
  closes : ℕ → Text → Call

module _ {ℓ} {S : Type ℓ} (on_release : S → S) where
  unfoldable pub step : Call → Claims × S → Claims × S
  step (expires now) w = expire on_release now w
  step (touches now later h) w = touch on_release now later h w
  step (reads_holder now) w = (current on_release now w).1
  step (acquires now later h) w = (acquire on_release now later h w).1
  step (releases now h) w = (release on_release now h w).1
  step (opens h) w = (open_stream h w.0, w.1)
  step (closes now h) w = (close_stream now h w.0, w.1)

  unfoldable pub run : List Call → Claims × S → Claims × S
  run [] w = w
  run (c ∷ cs) w = run cs (step c w)
