-- ===== src/App/Awaits/Runs.antt =====
-- One more turn, and the world that it leaves (provider.py, lines 214 to 308).
use yession.Prelude.{ℕ, ◌≡◌, refl, ap, sym, ◌∙◌, List, [], ◌∷◌, ◌++◌, Text}
use yession.Dict.{Dict}
use yession.Provider.{World, power, power_task, driver_call, driver_task, refusal}
use yession.App.Events.{Event, happens}
use yession.App.Keeps.{unless_refused-world}
use yession.App.Awaits.{Waiting, Turn, event, Loop, begun, entered, take_turn, turns, idle}

module _ {E : Type 0} (close : E → E) (host : Text) where
  -- The world after a tool does not depend on the arguments of the call.
  pub power-world :
      (V : Type 0) (headers : Dict Text) (action : Text) (now : ℕ) (x : World E)
      → (power close host headers {V = V} action now x).1
        ≡ (power close host headers {V = ℕ} action now x).1
  unfolding power
  power-world V headers action now x =
      unless_refused-world (λ bytes. bytes) close host headers (refusal close host headers now x)
        (power_task {V = V} action)
      ∙ sym (
          unless_refused-world (λ bytes. bytes) close host headers
            (refusal close host headers now x) (power_task {V = ℕ} action))

  pub driver_call-world :
      {V : Type 0} (headers : Dict Text) (driver method : Text) (args : List V) (now : ℕ)
      (x : World E)
      → (driver_call close host headers driver method args now x).1
        ≡ (driver_call close host headers {V = ℕ} driver method [] now x).1
  unfolding driver_call
  driver_call-world headers driver method args now x =
      unless_refused-world (λ bytes. bytes) close host headers (refusal close host headers now x)
        (driver_task driver method args)
      ∙ sym (
          unless_refused-world (λ bytes. bytes) close host headers
            (refusal close host headers now x) (driver_task {V = ℕ} driver method []))

module _ (decode : List ℕ → Text) {V E : Type 0} (close : E → E) (host : Text) (w : World E) where
  pub turns-snoc :
      (ts : List (Turn V)) (t : Turn V) (s : Loop V E)
      → turns decode close host (ts ++ t ∷ []) s
        ≡ take_turn decode close host t (turns decode close host ts s)
  unfolding turns
  turns-snoc [] t s = refl
  turns-snoc (u ∷ ts) t s = turns-snoc ts t (take_turn decode close host u s)

  pub entered-world :
      (new : List (Waiting V)) (s : Loop V E) → (entered decode close host new s).world ≡ s.world
  entered-world [] s = refl
  entered-world (t ∷ new) s = entered-world new _

  pub event-world :
      (ts : List (Turn V)) (e : Event) (args : List V)
      → (turns decode close host (ts ++ event e args ∷ []) (idle w)).world
        ≡ happens decode close host e (turns decode close host ts (idle w)).world
  unfolding take_turn
  event-world ts e args =
      ap (λ (s : Loop V E). s.world) (turns-snoc ts (event e args) (idle w))
      ∙ entered-world (begun decode close host e args (turns decode close host ts (idle w)).world) _
