-- ===== src/App/Awaits/Asked.antt =====
-- What each tool does is the beginning of what its call asks for, whatever runs while it waits
-- (provider.py, lines 214 to 308).
use yession.Prelude.{
  length-append, ◌+◌, suc, length, ℕ, ◌≡◌, ap, subst, some, List, ◌++◌, Text, arith, All,
}
use yession.Provider.{World, status, power, power_task, driver_call, driver_task, refusal}
use yession.Provider.Power.{Act}
use yession.App.Events.{Event, asks_status, asks_power, asks_driver}
use yession.App.Awaits.{Waiting, Turn, nth, begun}
use yession.App.Awaits.Slots.{acts_of}
use yession.App.Awaits.Order.{tools-Course}
use yession.App.Awaits.Course.{after, Began}
use yession.App.Awaits.Within.{
  asked_acts, Within, Left, Course-Left, Ends, Left-Ends, power_task-Within, driver_task-Within,
  status_task-Within, refused-Within,
}

module _ (decode : List ℕ → Text) {V E : Type 0} (close : E → E) (host : Text) where
  begun-Within :
      (e : Event) (args : List V) (x : World E)
      → All
          (λ (t : Waiting V). Within t.task (asked_acts e args))
          (begun decode close host e args x)
  unfolding begun status power driver_call
  begun-Within (asks_status headers now) args x = (status_task-Within V host _, tt)
  begun-Within (asks_power headers action now) args x = (
    refused-Within V close host headers (refusal close host headers now x) (power_task action) _
        (power_task-Within V action),
    tt,
  )
  begun-Within (asks_driver headers driver method now) args x = (
    refused-Within V close host headers (refusal close host headers now x)
        (driver_task driver method args) _ (driver_task-Within V headers driver method args now),
    tt,
  )
  begun-Within _ args x = tt

  tool-Left :
      (w : World E) (ts : List (Turn V)) (i : ℕ) (t : Waiting V)
      → (b : Began decode close host w ts i t (acts_of i (after decode close host w ts).acts))
      → Left t.task (acts_of i (after decode close host w ts).acts) (asked_acts b.call b.args)
  tool-Left w ts i t b =
      Course-Left b.tool.task (asked_acts b.call b.args) _ t.task
        (subst (All (λ (u : Waiting V). Within u.task (asked_acts b.call b.args))) b.first
          (begun-Within b.call b.args (after decode close host w b.before).world)).0
        b.course

  -- However tools run between and across each other's awaits, from any world: whatever comes back to
  -- them, all that a tool did is the beginning of what its call asks for, in the order in which the call
  -- asks for it. A `power` cycle asks for "off", a pause, and "on"; any other power action for itself; a
  -- driver call for the methods of the driver, or for its method with its arguments; `status` for the
  -- drivers; and each tool did it for the session that called it.
  pub tools-asked :
      (w : World E) (ts : List (Turn V)) (i : ℕ) (t : Waiting V)
      → nth i (after decode close host w ts).tools ≡ some t
      → (b : Began decode close host w ts i t (acts_of i (after decode close host w ts).acts))
        × (rest : List (Act V)) × (asked_acts b.call b.args
            ≡ acts_of i (after decode close host w ts).acts ++ rest)
  tools-asked w ts i t there =
      let b = tools-Course decode close host w ts i t there in
      let (rest, same, later) = tool-Left w ts i t b in (b, rest, same)

  -- No tool goes on for ever, whatever the others do: a tool that has asked for some of what its call
  -- asks for is done after at most as many answers as there are acts left to ask for, and one for the
  -- act that it waits for; and this whatever the answers are, errors included.
  pub tools_end :
      (w : World E) (ts : List (Turn V)) (i : ℕ) (t : Waiting V)
      → nth i (after decode close host w ts).tools ≡ some t
      → (b : Began decode close host w ts i t (acts_of i (after decode close host w ts).acts))
        × (n : ℕ) × (length (acts_of i (after decode close host w ts).acts) + n
            ≡ suc (length (asked_acts b.call b.args)))
        × Ends n t.task
  tools_end w ts i t there =
      let b = tools-Course decode close host w ts i t there in
      let left = tool-Left w ts i t b in
      let acts = acts_of i (after decode close host w ts).acts in
      (
        b,
        suc (length left.0),
        omega (arith, ap length left.1, length-append acts left.0),
        Left-Ends t.task acts (asked_acts b.call b.args) left,
      )
