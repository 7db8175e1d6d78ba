-- ===== src/App/Awaits/Order.antt =====
-- Each tool goes its own course, whatever runs while it waits (provider.py, lines 214 to 308).
use yession.Prelude.{
  ℕ, ◌≡◌, refl, ap, sym, subst, ◌∙◌, inl, inr, Option, none, some, List, [], ◌∷◌, ◌++◌,
  append_assoc, append-nil, length, Text,
}
use yession.Provider.{Task, World}
use yession.App.Events.{Event, happens}
use yession.App.Awaits.{
  Waiting, Signal, Turn, event, signal, issued, resumed, Loop, nth, marked, begun, entered, gone_on,
  signalled, take_turn, turns, idle,
}
use yession.App.Awaits.Slots.{
  nth-length, nth-snoc, nth-snoc_none, nth-below, nth-set_nth, nth-set_nth-none, acts_of,
  acts_of-own, acts_of-foreign,
}
use yession.App.Awaits.Runs.{turns-snoc}
use yession.App.Awaits.Course.{Course, begins, after, Began, Began-snoc, Began-on, begun-cases}

module _ (decode : List ℕ → Text) {V E : Type 0} (close : E → E) (host : Text) (w : World E) where
  record Ordered (ts : List (Turn V)) (s : Loop V E) : Type 0 where
    unused : (i : ℕ) → nth i s.tools ≡ none → acts_of i s.acts ≡ []
    going :
        (i : ℕ) (t : Waiting V)
        → nth i s.tools ≡ some t
        → Began decode close host w ts i t (acts_of i s.acts)

  Ordered-snoc :
      (ts : List (Turn V)) (x : Turn V) (s : Loop V E) → Ordered ts s → Ordered (ts ++ x ∷ []) s
  Ordered-snoc ts x s v = record {
    unused = v.unused;
    going = λ i t e. Began-snoc decode close host w ts x i t (acts_of i s.acts) (v.going i t e);
  }

  entered-Ordered :
      (ts : List (Turn V)) (e : Event) (args : List V) (x : World E) (t : Waiting V)
      → begun decode close host e args (after decode close host w ts).world ≡ t ∷ []
      → Ordered ts (after decode close host w ts)
      → Ordered
          (ts ++ event e args ∷ [])
          (entered decode close host (t ∷ []) (record (after decode close host w ts) { world = x }))
  entered-Ordered ts e args x t first v =
      let s = after decode close host w ts in
      record {
        unused = λ i free.
            let (old, apart) = nth-snoc_none i s.tools t free in
            acts_of-foreign i (length s.tools) t.session s.acts (issued t.task) apart
            ∙ v.unused i old;
        going = λ i u there. elim (nth-snoc i s.tools t u there) [
          | inl old ↦
              subst (Began decode close host w (ts ++ event e args ∷ []) i u)
                (sym (
                  acts_of-foreign i (length s.tools) t.session s.acts (issued t.task)
                    (nth-below i s.tools u old)))
                (Began-snoc decode close host w ts (event e args) i u (acts_of i s.acts)
                  (v.going i u old))
          | inr (at, same) ↦ record {
            before = ts;
            call = e;
            args = args;
            rest = [];
            split = refl;
            tool = t;
            first = first;
            numbered = sym at;
            session_kept = ap (λ (z : Waiting V). z.session) (sym same);
            course =
                subst (λ l. Course t.task l u.task)
                  (sym (
                    ap
                      (λ n. acts_of n (s.acts ++ marked (length s.tools) t.session (issued t.task)))
                      at
                    ∙ acts_of-own (length s.tools) t.session s.acts (issued t.task)
                    ∙ ap (λ l. l ++ issued t.task)
                        (v.unused (length s.tools) (nth-length s.tools))))
                  (subst (λ (z : Waiting V). Course t.task (issued t.task) z.task) same begins);
          }
        ];
      }

  called-Ordered :
      (ts : List (Turn V)) (e : Event) (args : List V) (x : World E)
      → Ordered ts (after decode close host w ts)
      → Ordered (ts ++ event e args ∷ []) (
          entered decode close host
            (begun decode close host e args (after decode close host w ts).world)
            (record (after decode close host w ts) { world = x }))
  called-Ordered ts e args x v =
      elim (begun-cases decode close host w e args (after decode close host w ts).world) [
        | inl nothing ↦ rw nothing (
            let old = Ordered-snoc ts (event e args) (after decode close host w ts) v in
            record { unused = old.unused; going = old.going })
        | inr (t, first) ↦
            subst
              (λ l.
                Ordered (ts ++ event e args ∷ []) (
                  entered decode close host l
                    (record (after decode close host w ts) { world = x })))
              (sym first) (entered-Ordered ts e args x t first v)
      ]

  gone_on-Ordered :
      (ts : List (Turn V)) (i : ℕ) (sig : Signal) (t : Waiting V) (s : Loop V E)
      (o : Option (Task V))
      → resumed sig t.task ≡ o
      → nth i s.tools ≡ some t
      → Ordered ts s
      → Ordered ts (gone_on decode close host i t o s)
  gone_on-Ordered ts i sig t s none e there v = v
  gone_on-Ordered ts i sig t s (some u) e there v =
      let later : Waiting V = record t { task = u } in
      record {
        unused = λ j free.
            let old = nth-set_nth-none j i later s.tools free in
            acts_of-foreign j i t.session s.acts (issued u)
              (λ p. cc (old, there, ap (λ n. nth n s.tools) p))
            ∙ v.unused j old;
        going = λ j z at. elim (nth-set_nth j i later s.tools z at) [
          | inl (mine, same) ↦
              subst
                (λ n.
                  Began decode close host w ts n z
                    (acts_of n (s.acts ++ marked i t.session (issued u))))
                (sym mine)
                (subst (Began decode close host w ts i z)
                  (sym (acts_of-own i t.session s.acts (issued u)))
                  (subst (λ y. Began decode close host w ts i y (acts_of i s.acts ++ issued u)) same
                    (Began-on decode close host w ts i t (acts_of i s.acts) sig u
                      (v.going i t there) e)))
          | inr (apart, old) ↦
              subst (Began decode close host w ts j z)
                (sym (acts_of-foreign j i t.session s.acts (issued u) apart)) (v.going j z old)
        ];
      }

  signalled-Ordered :
      (ts : List (Turn V)) (i : ℕ) (sig : Signal) (s : Loop V E) (o : Option (Waiting V))
      → nth i s.tools ≡ o
      → Ordered ts s
      → Ordered ts (signalled decode close host i sig o s)
  signalled-Ordered ts i sig s none e v = v
  signalled-Ordered ts i sig s (some t) e v =
      gone_on-Ordered ts i sig t s (resumed sig t.task) refl e v

  take_turn-Ordered :
      (ts : List (Turn V)) (t : Turn V)
      → Ordered ts (after decode close host w ts)
      → Ordered (ts ++ t ∷ []) (take_turn decode close host t (after decode close host w ts))
  unfolding take_turn
  take_turn-Ordered ts (event e args) v =
      called-Ordered ts e args (happens decode close host e (after decode close host w ts).world) v
  take_turn-Ordered ts (signal i sig) v =
      signalled-Ordered (ts ++ signal i sig ∷ []) i sig (after decode close host w ts)
        (nth i (after decode close host w ts).tools) refl
        (Ordered-snoc ts (signal i sig) (after decode close host w ts) v)

  turns-Ordered :
      (before ts : List (Turn V))
      → Ordered before (after decode close host w before)
      → Ordered (before ++ ts) (after decode close host w (before ++ ts))
  turns-Ordered before [] v =
      subst (λ l. Ordered l (after decode close host w l)) (sym (append-nil before)) v
  turns-Ordered before (t ∷ ts) v =
      subst (λ l. Ordered l (after decode close host w l)) (append_assoc before (t ∷ []) ts)
        (turns-Ordered (before ++ t ∷ []) ts (
          subst (Ordered (before ++ t ∷ []))
            (sym (turns-snoc decode close host w before t (idle w)))
            (take_turn-Ordered before t v)))

  -- However tools run between and across each other's awaits, from any world: each tool that was called
  -- and all that it did are the course of the one task that its call began, at the world of that call:
  -- the acts of the task, in its order, each after the answer to the one before it.
  pub tools-Course :
      (ts : List (Turn V)) (i : ℕ) (t : Waiting V)
      → nth i (after decode close host w ts).tools ≡ some t
      → Began decode close host w ts i t (acts_of i (after decode close host w ts).acts)
  unfolding turns
  tools-Course ts i t there =
      (turns-Ordered [] ts (record { unused = λ j e. refl; going = λ j z e. cc })).going i t there
