-- ===== src/App/Awaits/Course.antt =====
-- The course of one task, and of the tool that a call began (provider.py, lines 214 to 308).
use yession.Prelude.{
  ℕ, ◌≡◌, refl, ap, ◌∙◌, ◌⊎◌, inl, inr, some, List, [], ◌∷◌, ◌++◌, append_assoc, length, Text,
}
use yession.Provider.{Task, World}
use yession.Provider.Power.{Act}
use yession.App.Events.{Event, asks_status, asks_power, asks_driver}
use yession.App.Awaits.{Waiting, Signal, Turn, event, issued, resumed, Loop, begun, turns, idle}

-- A task, what it has done so far, and what is left of it: each act but the first was done when what the
-- task waited for after the one before had come.
pub data Course {V : Type 0} (t : Task V) : List (Act V) → Task V → Type 0 where
  begins : Course t (issued t) t
  goes :
      {acts : List (Act V)} {u v : Task V} (sig : Signal)
      → Course t acts u
      → resumed sig u ≡ some v
      → Course t (acts ++ issued v) v

module _ (decode : List ℕ → Text) {V E : Type 0} (close : E → E) (host : Text) (w : World E) where
  abbrev pub after : List (Turn V) → Loop V E
  after ts = turns decode close host ts (idle w)

  -- The tool of that number was called in one of the turns, and has gone so far on the course of the task
  -- that this call began.
  pub record Began (ts : List (Turn V)) (i : ℕ) (t : Waiting V) (acts : List (Act V)) : Type 0 where
    pub before : List (Turn V)
    pub call : Event
    pub args : List V
    pub rest : List (Turn V)
    pub split : ts ≡ before ++ event call args ∷ rest
    pub tool : Waiting V
    pub first : begun decode close host call args (after before).world ≡ tool ∷ []
    pub numbered : length (after before).tools ≡ i
    pub session_kept : t.session ≡ tool.session
    pub course : Course tool.task acts t.task

  pub Began-snoc :
      (ts : List (Turn V)) (x : Turn V) (i : ℕ) (t : Waiting V) (acts : List (Act V))
      → Began ts i t acts
      → Began (ts ++ x ∷ []) i t acts
  Began-snoc ts x i t acts b = record {
    before = b.before;
    call = b.call;
    args = b.args;
    rest = b.rest ++ x ∷ [];
    split = ap (λ l. l ++ x ∷ []) b.split ∙ append_assoc b.before _ (x ∷ []);
    tool = b.tool;
    first = b.first;
    numbered = b.numbered;
    session_kept = b.session_kept;
    course = b.course;
  }

  pub begun-cases :
      (e : Event) (args : List V) (x : World E)
      → (begun decode close host e args x ≡ [])
        ⊎ ((t : Waiting V) × (begun decode close host e args x ≡ t ∷ []))
  unfolding begun
  begun-cases (asks_status headers now) args x = inr (_, refl)
  begun-cases (asks_power headers action now) args x = inr (_, refl)
  begun-cases (asks_driver headers driver method now) args x = inr (_, refl)
  begun-cases _ args x = inl refl

  pub Began-on :
      (ts : List (Turn V)) (i : ℕ) (t : Waiting V) (acts : List (Act V)) (sig : Signal) (u : Task V)
      → Began ts i t acts
      → resumed sig t.task ≡ some u
      → Began ts i (record t { task = u }) (acts ++ issued u)
  Began-on ts i t acts sig u b e = record {
    before = b.before;
    call = b.call;
    args = b.args;
    rest = b.rest;
    split = b.split;
    tool = b.tool;
    first = b.first;
    numbered = b.numbered;
    session_kept = b.session_kept;
    course = goes sig b.course e;
  }
