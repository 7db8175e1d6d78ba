-- ===== src/App/Awaits/Hardware.antt =====
-- What reaches the hardware through the tools and a worker of the exporter (provider.py, lines 214 to 308,
-- and exporter.py, lines 91 to 127, 139 to 141 and 171 to 206).
use yession.Prelude.{ℕ, ◌≡◌, refl, sym, subst, inl, inr, Option, none, some, List, [], ◌∷◌, Text}
use yession.Provider.{Result, ok, error, drivers, methods, World}
use yession.Provider.Power.{Act, listing, called, slept}
use yession.Exporter.Connection.{init}
use yession.Exporter.Tree.{Client}
use yession.Exporter.Worker.{Seen, Run, loop, serve}
use yession.Exporter.Commands.{Sdk, call_target, drivers_run, methods_run, call_run, close_run}
use yession.Exporter.Commands.Callable.{Callable, Result-split, call_target-Callable}
use yession.App.Awaits.{Turn, nth}
use yession.App.Awaits.Slots.{All-nth}
use yession.App.Awaits.Authorised.{after, Authorised, Allowed, acts-Authorised}

-- What a command that the tools ask for returns.
pub data Value : Type 0 where
  lines : List Text → Value
  text : Text → Value
  nothing : Value

-- What is put into the queue of commands: what a tool asks for, with its number and its session; the
-- end of a claim, which closes the console; and `close`.
pub data Entry (V : Type 0) : Type 0 where
  tool_asks : ℕ × Text × Act V → Entry V
  closes_console : Entry V
  stops : Entry V

abbrev pub valued : {A D : Type 0} → (A → Value) → Result A × Seen D → Result Value × Seen D
valued f (ok a, s) = (ok (f a), s)
valued f (error e, s) = (error e, s)

module _ {D V : Type 0} (sdk : Sdk D V) (deadline : ℕ) where
  -- The commands of `drivers`, `methods`, `call`, `close_console_quietly` and `close`, as the worker
  -- gets them. A pause is none.
  unfoldable pub commands : List (Entry V) → List (Option (Run D Value))
  unfolding drivers_run methods_run call_run close_run
  commands [] = []
  commands (tool_asks (i, h, listing drivers) ∷ more) =
      some (λ s. valued lines (drivers_run sdk s)) ∷ commands more
  commands (tool_asks (i, h, listing (methods driver)) ∷ more) =
      some (λ s. valued lines (methods_run sdk driver s)) ∷ commands more
  commands (tool_asks (i, h, called driver method args) ∷ more) =
      some (λ s. valued text (call_run sdk deadline driver method args s)) ∷ commands more
  commands (tool_asks (i, h, slept n) ∷ more) = commands more
  commands (closes_console ∷ more) = some (λ s. valued (λ u. nothing) (close_run s)) ∷ commands more
  commands (stops ∷ more) = none ∷ commands more

-- All that the tools ask for in the queue is among these acts.
abbrev pub FromTools : {V : Type 0} → List (ℕ × Text × Act V) → List (Entry V) → Type 0
FromTools acts [] = Unit {0}
FromTools acts (tool_asks a ∷ more) = ((n : ℕ) × (nth n acts ≡ some a)) × FromTools acts more
FromTools acts (closes_console ∷ more) = FromTools acts more
FromTools acts (stops ∷ more) = FromTools acts more

module _ (decode : List ℕ → Text) {V D E : Type 0} (close : E → E) (host : Text) (w : World E)
    (sdk : Sdk D V) (ts : List (Turn V)) where
  -- The SDK's objects have changed by calls of synchronous functions of its drivers alone, each of which
  -- a tool asked for that was called, as `power` or `driver_call`, by a session that had the claim at this
  -- very call.
  pub data Reached (d : D) : D → Type 0 where
    untouched : Reached d d
    touched :
        {e f : D} (n i : ℕ) (h driver method : Text) (args : List V) (target : Client)
        → Reached d e
        → nth n (after decode close host w ts).acts ≡ some (i, h, called driver method args)
        → Authorised decode close host w ts i h
        → Callable sdk driver method target
        → f ≡ (sdk.invoke target method args e).1
        → Reached d f

  valued-left : {A : Type 0} (f : A → Value) (r : Result A × Seen D) → (valued f r).1 ≡ r.1
  valued-left f (ok a, s) = refl
  valued-left f (error e, s) = refl

  call_run-Reached :
      (deadline : ℕ) (d : D) (n i : ℕ) (h driver method : Text) (args : List V) (s : Seen D)
      → nth n (after decode close host w ts).acts ≡ some (i, h, called driver method args)
      → Authorised decode close host w ts i h
      → Reached d s.1
      → Reached d (call_run sdk deadline driver method args s).1.1
  unfolding call_run
  call_run-Reached deadline d n i h driver method args s there allowed r =
      elim (Result-split (call_target sdk driver method)) [
        | inl (t, e) ↦
            touched n i h driver method args t r there allowed
              (call_target-Callable sdk driver method t e) (rw e refl)
        | inr (m, e) ↦ rw e r
      ]

  loop-Reached :
      (deadline : ℕ) (d : D) (entries : List (Entry V)) (s : Seen D)
      → FromTools (after decode close host w ts).acts entries
      → Reached d s.1
      → Reached d (loop (commands sdk deadline entries) s).1.1
  unfolding commands loop
  loop-Reached deadline d [] s v r = r
  loop-Reached deadline d (tool_asks (i, h, listing drivers) ∷ more) s v r =
      loop-Reached deadline d more s v.1 (unfold drivers_run in r)
  loop-Reached deadline d (tool_asks (i, h, listing (methods driver)) ∷ more) s v r =
      loop-Reached deadline d more (valued lines (methods_run sdk driver s)).1 v.1 (
        subst (λ (x : Seen D). Reached d x.1) (sym (valued-left lines (methods_run sdk driver s)))
          (unfold methods_run in r))
  loop-Reached deadline d (tool_asks (i, h, called driver method args) ∷ more) s v r =
      loop-Reached deadline d more _ v.1 (
        subst (λ (x : Seen D). Reached d x.1)
          (sym (valued-left text (call_run sdk deadline driver method args s)))
          (elim (All-nth (Allowed decode close host w ts) v.0.0 _ _ v.0.1
            (acts-Authorised decode close host w ts)) [
              | inl other ↦ cc
              | inr allowed ↦
                  call_run-Reached deadline d v.0.0 i h driver method args s v.0.1 allowed r
            ]))
  loop-Reached deadline d (tool_asks (i, h, slept n) ∷ more) s v r =
      loop-Reached deadline d more s v.1 r
  loop-Reached deadline d (closes_console ∷ more) s v r =
      loop-Reached deadline d more _ v (unfold close_run in r)
  loop-Reached deadline d (stops ∷ more) s v r = r

  -- The claim guards the hardware, from the tools to the SDK. However the tools of any sessions run
  -- between and across each other's awaits, and in whatever order, and however often, a worker takes
  -- what they ask for, among the ends of claims and a `close`, and whether or not it connects: what it
  -- leaves of the SDK's objects has come about by calls of synchronous functions of drivers alone, each
  -- with the arguments that a tool asked for; and this very tool was called, as `power` or `driver_call`,
  -- by a session that had a name and had the claim at this call.
  pub serve-Reached :
      (deadline : ℕ) (connects : Result (Unit {0})) (d : D) (entries : List (Entry V))
      → FromTools (after decode close host w ts).acts entries
      → Reached d (serve connects d (commands sdk deadline entries)).left.1
  unfolding serve
  serve-Reached deadline (ok u) d entries v = loop-Reached deadline d entries (init, d) v untouched
  serve-Reached deadline (error e) d entries v = untouched
