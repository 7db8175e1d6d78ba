-- ===== src/App/Awaits/Within.antt =====
-- What a task asks for, whatever the answers are (provider.py, lines 214 to 308).
use yession.Prelude.{
  zero, suc, length, ℕ, ◌≡◌, refl, ap, sym, subst, ◌∙◌, inl, inr, Option, none, some, List, [], ◌∷◌,
  ◌++◌, append_assoc, Text, codes, text_eq, Bool-cases, arith, if◌then◌else◌,
}
use yession.Dict.{Dict}
use yession.Words.{strip, lower}
use yession.Provider.{
  Answer, Result, ok, error, drivers, methods, Task, done, asks, calls, sleeps, World, status_task,
  power_task, power_steps, power_call, driver_task, unless_refused, is_power_action, said,
}
use yession.Provider.Power.{Act, listing, called, slept}
use yession.App.Events.{Event, asks_status, asks_power, asks_driver}
use yession.App.Awaits.{Signal, lines_came, text_came, woke, issued, resumed}
use yession.App.Awaits.Handover.{off_act, pause_act, on_act}
use yession.App.Awaits.Course.{Course, begins, goes}

-- What a power action asks for.
abbrev pub power_asks : {V : Type 0} → Text → List (Act V)
power_asks wanted =
    if is_power_action wanted
    then (if text_eq wanted (codes "cycle")
        then off_act ∷ pause_act ∷ on_act ∷ []
        else called (codes "power") wanted [] ∷ [])
    else []

-- What a call of a tool asks for, when nothing refuses it.
abbrev pub asked_acts : {V : Type 0} → Event → List V → List (Act V)
asked_acts (asks_status headers now) args = listing drivers ∷ []
asked_acts (asks_power headers action now) args = power_asks (lower (strip action))
asked_acts (asks_driver headers driver [] now) args = listing (methods driver) ∷ []
asked_acts (asks_driver headers driver (c ∷ m) now) args = called driver (c ∷ m) args ∷ []
asked_acts _ args = []

module _ {V : Type 0} where
  -- Whatever the answers, a task does the acts of the list, in its order, or the first ones of them.
  abbrev pub Within : Task V → List (Act V) → Type 0
  Within (done answer) l = Unit {0}
  Within (asks w k) l =
      (rest : List (Act V)) × (l ≡ listing w ∷ rest)
      × ((r : Result (List Text)) → Within (k r) rest)
  Within (calls d m args k) l =
      (rest : List (Act V)) × (l ≡ called d m args ∷ rest) × ((r : Result Text) → Within (k r) rest)
  Within (sleeps n k) l = (rest : List (Act V)) × (l ≡ slept n ∷ rest) × Within k rest

  -- The acts left when the task waits.
  abbrev pub Left : Task V → List (Act V) → List (Act V) → Type 0
  Left t acts l =
      (rest : List (Act V)) × (l ≡ acts ++ rest)
      × ((sig : Signal) (u : Task V) → resumed sig t ≡ some u → Within u rest)

  issued-Left : (t : Task V) (l : List (Act V)) → Within t l → Left t (issued t) l
  issued-Left (done a) l v = (l, refl, stopped)
    where
      stopped : (sig : Signal) (u : Task V) → resumed sig (done a) ≡ some u → Within u l
      stopped (lines_came r) u e = cc
      stopped (text_came r) u e = cc
      stopped woke u e = cc
  issued-Left (asks w k) l (rest, same, later) = (rest, same, next)
    where
      next : (sig : Signal) (u : Task V) → resumed sig (asks w k) ≡ some u → Within u rest
      next (lines_came r) u e = subst (λ t. Within t rest) (ground arith) (later r)
      next (text_came r) u e = cc
      next woke u e = cc
  issued-Left (calls d m args k) l (rest, same, later) = (rest, same, next)
    where
      next : (sig : Signal) (u : Task V) → resumed sig (calls d m args k) ≡ some u → Within u rest
      next (lines_came r) u e = cc
      next (text_came r) u e = subst (λ t. Within t rest) (ground arith) (later r)
      next woke u e = cc
  issued-Left (sleeps n k) l (rest, same, later) = (rest, same, next)
    where
      next : (sig : Signal) (u : Task V) → resumed sig (sleeps n k) ≡ some u → Within u rest
      next (lines_came r) u e = cc
      next (text_came r) u e = cc
      next woke u e = subst (λ t. Within t rest) (ground arith) later

  -- The task is done after that many answers at most, whatever they are.
  abbrev pub Ends : ℕ → Task V → Type 0
  Ends n (done answer) = Unit {0}
  Ends (suc n) (asks w k) = (r : Result (List Text)) → Ends n (k r)
  Ends (suc n) (calls d m args k) = (r : Result Text) → Ends n (k r)
  Ends (suc n) (sleeps p k) = Ends n k
  Ends zero _ = ⊥

  Within-Ends : (t : Task V) (l : List (Act V)) → Within t l → Ends (length l) t
  Within-Ends (done a) l v = tt
  Within-Ends (asks w k) l (rest, same, later) =
      subst (λ x. Ends (length x) (asks w k)) (sym same) (λ r. Within-Ends (k r) rest (later r))
  Within-Ends (calls d m args k) l (rest, same, later) =
      subst (λ x. Ends (length x) (calls d m args k)) (sym same)
        (λ r. Within-Ends (k r) rest (later r))
  Within-Ends (sleeps n k) l (rest, same, later) =
      subst (λ x. Ends (length x) (sleeps n k)) (sym same) (Within-Ends k rest later)

  pub Left-Ends :
      (t : Task V) (acts l : List (Act V)) (v : Left t acts l) → Ends (suc (length v.0)) t
  Left-Ends (done a) acts l v = tt
  Left-Ends (asks w k) acts l v = λ r. Within-Ends (k r) v.0 (v.2 (lines_came r) (k r) refl)
  Left-Ends (calls d m args k) acts l v = λ r. Within-Ends (k r) v.0 (v.2 (text_came r) (k r) refl)
  Left-Ends (sleeps n k) acts l v = Within-Ends k v.0 (v.2 woke k refl)

  pub Course-Left :
      (t : Task V) (l acts : List (Act V)) (u : Task V)
      → Within t l
      → Course t acts u
      → Left u acts l
  Course-Left t l _ _ within begins = issued-Left t l within
  Course-Left t l _ _ within (goes {acts} {u} {v} sig course e) =
      let (rest, same, later) = Course-Left t l acts u within course in
      let (more, next, last) = issued-Left v rest (later sig v e) in
      (more, same ∙ ap (λ x. acts ++ x) next ∙ sym (append_assoc acts (issued v) more), last)

  Result-Within :
      {A : Type 0} (good : A → Answer) (bad : Text → Answer) (l : List (Act V)) (r : Result A)
      → Within (elim r [ ok a ↦ done (good a) | error e ↦ done (bad e) ]) l
  Result-Within good bad l (ok a) = tt
  Result-Within good bad l (error e) = tt

  power_call-Within :
      (m : Text) (next : Task V) (l : List (Act V))
      → Within next l
      → Within (power_call m next) (called (codes "power") m [] ∷ l)
  unfolding power_call
  power_call-Within m next l v = (l, refl, goes_on)
    where
      goes_on :
          (r : Result Text)
          → Within
              (elim r [
                | ok _ ↦ next
                | error e ↦ done (said (codes "the power driver refused: " ++ e))
              ])
              l
      goes_on (ok a) = v
      goes_on (error e) = tt

module _ (V : Type 0) where
  pub power_task-Within :
      (action : Text) → Within (power_task {V = V} action) (power_asks (lower (strip action)))
  unfolding power_task power_steps
  power_task-Within action = elim (Bool-cases (is_power_action (lower (strip action)))) [
    | inl good ↦ rw good (elim (Bool-cases (text_eq (lower (strip action)) (codes "cycle"))) [
      | inl cycle ↦ rw cycle (power_call-Within _ _ _ (_, refl, power_call-Within _ _ _ tt))
      | inr other ↦ rw other (power_call-Within _ _ _ tt)
    ])
    | inr bad ↦ rw bad tt
  ]

  pub driver_task-Within :
      (headers : Dict Text) (driver method : Text) (args : List V) (now : ℕ)
      → Within
          (driver_task driver method args)
          (asked_acts (asks_driver headers driver method now) args)
  unfolding driver_task
  driver_task-Within headers driver [] args now = ([], refl, Result-Within _ _ [])
  driver_task-Within headers driver (c ∷ m) args now = ([], refl, Result-Within _ _ [])

  pub status_task-Within :
      (host held : Text) → Within (status_task {V = V} host held) (listing drivers ∷ [])
  unfolding status_task
  status_task-Within host held = ([], refl, Result-Within _ _ [])

  pub refused-Within :
      {E : Type 0} (close : E → E) (host : Text) (headers : Dict Text) (r : Option Text × World E)
      (task : Task V) (l : List (Act V))
      → Within task l
      → Within (unless_refused close host headers r task).0 l
  refused-Within close host headers (none, w) task l v = v
  refused-Within close host headers (some words, w) task l v = tt
