-- ===== src/App/Awaits/Quiet.antt =====
-- The tasks that ask for the list of drivers at most, as `status` does (provider.py, lines 216 to 232).
use yession.Prelude.{ℕ, ◌≡◌, refl, ap, subst, ◌⊎◌, inl, inr, some, List, All, Text, arith}
use yession.Provider.{
  Answer, Result, ok, error, drivers, Task, done, asks, calls, sleeps, status_task,
}
use yession.Provider.Gate.{Reaches}
use yession.Provider.Power.{Act, listing}
use yession.App.Awaits.{Signal, lines_came, text_came, woke, issued, resumed, marked}

-- A task that asks for the list of drivers at most.
abbrev pub Quiet : {V : Type 0} → Task V → Type 0
Quiet (done answer) = Unit {0}
Quiet (asks l k) = (l ≡ drivers) × ((r : Result (List Text)) → Quiet (k r))
Quiet (calls d m args k) = ⊥
Quiet (sleeps n k) = ⊥

module _ (V : Type 0) where
  -- What a task does with lines, if it is done with them either way.
  Result-done :
      (good : List Text → Answer) (bad : Text → Answer) (r : Result (List Text))
      → Quiet {V = V} (elim r [ ok ds ↦ done (good ds) | error e ↦ done (bad e) ])
  Result-done good bad (ok ds) = tt
  Result-done good bad (error e) = tt

  pub status_task-Quiet : (host held : Text) → Quiet (status_task {V = V} host held)
  unfolding status_task
  status_task-Quiet host held = (refl, Result-done _ _)

module _ {V : Type 0} where
  pub resumed-Quiet : (sig : Signal) (t u : Task V) → resumed sig t ≡ some u → Quiet t → Quiet u
  resumed-Quiet (lines_came r) (asks l k) u e q = subst Quiet (ground arith) (q.1 r)
  resumed-Quiet _ (calls d m args k) u e q = absurd q
  resumed-Quiet _ (sleeps n k) u e q = absurd q
  resumed-Quiet (lines_came r) (done a) u e q = cc
  resumed-Quiet (text_came r) (done a) u e q = cc
  resumed-Quiet (text_came r) (asks l k) u e q = cc
  resumed-Quiet woke (done a) u e q = cc
  resumed-Quiet woke (asks l k) u e q = cc

  pub Reaches-or-Quiet : (t : Task V) → Reaches t ⊎ Quiet t
  Reaches-or-Quiet (done answer) = inr tt
  Reaches-or-Quiet _ = inl tt

  -- What a task does on the outside is allowed if the task is quiet, or if anything is allowed to it,
  -- by its number and its session.
  pub issued-allowed {κ} :
      (P : ℕ → Text → Type κ) (i : ℕ) (h : Text) (t : Task V)
      → Quiet t ⊎ P i h
      → All (λ (a : ℕ × Text × Act V). (a.2 ≡ listing drivers) ⊎ P a.0 a.1) (marked i h (issued t))
  issued-allowed P i h (done a) v = tt
  issued-allowed P i h (asks l k) (inl q) = (inl (ap listing q.0), tt)
  issued-allowed P i h (asks l k) (inr p) = (inr p, tt)
  issued-allowed P i h (calls d m args k) (inl q) = absurd q
  issued-allowed P i h (calls d m args k) (inr p) = (inr p, tt)
  issued-allowed P i h (sleeps n k) (inl q) = absurd q
  issued-allowed P i h (sleeps n k) (inr p) = (inr p, tt)
