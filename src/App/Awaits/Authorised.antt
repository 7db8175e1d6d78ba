-- ===== src/App/Awaits/Authorised.antt =====
-- Whose calls reach the hardware, whatever runs while they wait (provider.py, lines 191 to 206 and 271 to
-- 308).
use yession.Prelude.{
  ℕ, ◌≡◌, ◌≢◌, refl, ap, sym, subst, ◌∙◌, ◌⊎◌, inl, inr, Option, none, some, List, [], ◌∷◌, ◌++◌,
  All, All-append, append_assoc, append-nil, length, Text,
}
use yession.Claims.Laws.{Holds}
use yession.Provider.{drivers, Task, World, session_holder, status, status_task, power, driver_call}
use yession.Provider.Gate.{Reaches-Holds}
use yession.Provider.Power.{Act, listing}
use yession.App.Events.{Event, asks_status, asks_power, asks_driver, happens}
use yession.App.Awaits.{
  Waiting, Signal, Turn, event, signal, resumed, Loop, nth, begun, entered, gone_on, signalled,
  take_turn, turns, idle,
}
use yession.App.Awaits.Slots.{All-map, nth-snoc, nth-set_nth}
use yession.App.Awaits.Course.{begun-cases}
use yession.App.Awaits.Quiet.{
  Quiet, status_task-Quiet, resumed-Quiet, Reaches-or-Quiet, issued-allowed,
}
use yession.App.Awaits.Runs.{power-world, driver_call-world, turns-snoc, event-world}

-- The event is a call of `power` or `driver_call` by that session.
abbrev pub AsksFor : Text → Event → Type 0
AsksFor h (asks_power headers action now) = session_holder headers ≡ h
AsksFor h (asks_driver headers driver method now) = session_holder headers ≡ h
AsksFor h _ = ⊥

module _ (decode : List ℕ → Text) {V E : Type 0} (close : E → E) (host : Text) (w : World E) where
  abbrev pub after : List (Turn V) → Loop V E
  after ts = turns decode close host ts (idle w)

  -- The turn that called the tool of that number is a call of `power` or `driver_call` by that session,
  -- which has a name, and the session has the claim when this call is let through.
  pub record Authorised (ts : List (Turn V)) (i : ℕ) (h : Text) : Type 0 where
    pub before : List (Turn V)
    pub call : Event
    pub args : List V
    pub rest : List (Turn V)
    pub split : ts ≡ before ++ event call args ∷ rest
    pub numbered : length (after before).tools ≡ i
    pub asked : AsksFor h call
    pub is_named : h ≢ []
    pub held : Holds h (after (before ++ event call args ∷ [])).world.0

  Authorised-snoc :
      (ts : List (Turn V)) (t : Turn V) (i : ℕ) (h : Text)
      → Authorised ts i h
      → Authorised (ts ++ t ∷ []) i h
  Authorised-snoc ts t i h a = record {
    before = a.before;
    call = a.call;
    args = a.args;
    rest = a.rest ++ t ∷ [];
    split = ap (λ l. l ++ t ∷ []) a.split ∙ append_assoc a.before _ (t ∷ []);
    numbered = a.numbered;
    asked = a.asked;
    is_named = a.is_named;
    held = a.held;
  }

  abbrev pub Allowed : List (Turn V) → ℕ × Text × Act V → Type 0
  Allowed ts a = (a.2 ≡ listing drivers) ⊎ Authorised ts a.0 a.1

  abbrev ToolAllowed : List (Turn V) → ℕ → Waiting V → Type 0
  ToolAllowed ts i t = Quiet t.task ⊎ Authorised ts i t.session

  record Kept (ts : List (Turn V)) (s : Loop V E) : Type 0 where
    acts_allowed : All (Allowed ts) s.acts
    tools_allowed : (i : ℕ) (t : Waiting V) → nth i s.tools ≡ some t → ToolAllowed ts i t

  Kept-snoc : (ts : List (Turn V)) (t : Turn V) (s : Loop V E) → Kept ts s → Kept (ts ++ t ∷ []) s
  Kept-snoc ts t s v = record {
    acts_allowed =
        All-map (Allowed ts) (Allowed (ts ++ t ∷ []))
          (λ a p. elim p [ inl q ↦ inl q | inr q ↦ inr (Authorised-snoc ts t a.0 a.1 q) ]) s.acts
          v.acts_allowed;
    tools_allowed = λ i u e. elim (v.tools_allowed i u e) [
      | inl q ↦ inl q
      | inr q ↦ inr (Authorised-snoc ts t i u.session q)
    ];
  }

  entered-Kept :
      (ts : List (Turn V)) (t : Waiting V) (s : Loop V E)
      → ToolAllowed ts (length s.tools) t
      → Kept ts s
      → Kept ts (entered decode close host (t ∷ []) s)
  entered-Kept ts t s n v = record {
    acts_allowed =
        All-append (Allowed ts) s.acts _ v.acts_allowed
          (issued-allowed (Authorised ts) (length s.tools) t.session t.task n);
    tools_allowed = λ i u e. elim (nth-snoc i s.tools t u e) [
      | inl old ↦ v.tools_allowed i u old
      | inr (at, same) ↦
          subst (λ k. ToolAllowed ts k u) (sym at) (subst (ToolAllowed ts (length s.tools)) same n)
    ];
  }

  gone_on-Kept :
      (ts : List (Turn V)) (i : ℕ) (sig : Signal) (t : Waiting V) (s : Loop V E)
      (o : Option (Task V))
      → resumed sig t.task ≡ o
      → ToolAllowed ts i t
      → Kept ts s
      → Kept ts (gone_on decode close host i t o s)
  gone_on-Kept ts i sig t s none e p v = v
  gone_on-Kept ts i sig t s (some u) e p v =
      let q : Quiet u ⊎ Authorised ts i t.session = elim p [
        | inl quiet ↦ inl (resumed-Quiet sig t.task u e quiet)
        | inr a ↦ inr a
      ] in
      record {
        acts_allowed =
            All-append (Allowed ts) s.acts _ v.acts_allowed
              (issued-allowed (Authorised ts) i t.session u q);
        tools_allowed = λ j z there.
            elim (nth-set_nth j i (record t { task = u }) s.tools z there) [
              | inl (at, same) ↦
                  subst (λ k. ToolAllowed ts k z) (sym at) (subst (ToolAllowed ts i) same q)
              | inr (apart, old) ↦ v.tools_allowed j z old
            ];
      }

  signalled-Kept :
      (ts : List (Turn V)) (i : ℕ) (sig : Signal) (s : Loop V E) (o : Option (Waiting V))
      → nth i s.tools ≡ o
      → Kept ts s
      → Kept ts (signalled decode close host i sig o s)
  signalled-Kept ts i sig s none e v = v
  signalled-Kept ts i sig s (some t) e v =
      gone_on-Kept ts i sig t s (resumed sig t.task) refl (v.tools_allowed i t e) v

  begun-allowed :
      (ts : List (Turn V)) (e : Event) (args : List V)
      → All
          (ToolAllowed (ts ++ event e args ∷ []) (length (after ts).tools))
          (begun decode close host e args (after ts).world)
  unfolding begun status status_task happens
  begun-allowed ts (asks_status headers now) args = (inl (status_task-Quiet V host _), tt)
  begun-allowed ts (asks_power headers action now) args = (
    elim (Reaches-or-Quiet (power close host headers {V = V} action now (after ts).world).0) [
      | inr quiet ↦ inl quiet
      | inl reaches ↦
          let (named, held) =
            (Reaches-Holds close host headers {V = V} action [] [] [] now (after ts).world).0
              reaches in
          inr (record {
            before = ts;
            call = asks_power headers action now;
            args = args;
            rest = [];
            split = refl;
            numbered = refl;
            asked = refl;
            is_named = named;
            held =
                subst (λ (x : World E). Holds (session_holder headers) x.0)
                  (power-world close host V headers action now (after ts).world
                    ∙ sym (event-world decode close host w ts (asks_power headers action now) args))
                  held;
          })
    ],
    tt,
  )
  begun-allowed ts (asks_driver headers driver method now) args = (
    elim (Reaches-or-Quiet
        (driver_call close host headers driver method args now (after ts).world).0) [
          | inr quiet ↦ inl quiet
          | inl reaches ↦
              let (named, held) =
                (Reaches-Holds close host headers {V = V} [] driver method args now
                    (after ts).world).1
                  reaches in
              inr (record {
                before = ts;
                call = asks_driver headers driver method now;
                args = args;
                rest = [];
                split = refl;
                numbered = refl;
                asked = refl;
                is_named = named;
                held =
                    subst (λ (x : World E). Holds (session_holder headers) x.0)
                      (driver_call-world close host headers driver method args now (after ts).world
                        ∙ sym (
                            event-world decode close host w ts
                              (asks_driver headers driver method now) args))
                      held;
              })
        ],
    tt,
  )
  begun-allowed ts _ args = tt

  called-Kept :
      (ts : List (Turn V)) (e : Event) (args : List V)
      → Kept (ts ++ event e args ∷ []) (after ts)
      → Kept (ts ++ event e args ∷ []) (
          entered decode close host
            (begun decode close host e args (after ts).world)
            (record (after ts) { world = happens decode close host e (after ts).world }))
  called-Kept ts e args v =
      let next : Loop V E = record (after ts) {
        world = happens decode close host e (after ts).world;
      } in
      let kept : Kept (ts ++ event e args ∷ []) next = record {
        acts_allowed = v.acts_allowed;
        tools_allowed = v.tools_allowed;
      } in
      elim (begun-cases decode close host w e args (after ts).world) [
        | inl nothing ↦
            subst (λ l. Kept (ts ++ event e args ∷ []) (entered decode close host l next))
              (sym nothing) kept
        | inr (t, first) ↦
            subst (λ l. Kept (ts ++ event e args ∷ []) (entered decode close host l next))
              (sym first)
              (entered-Kept (ts ++ event e args ∷ []) t next
                (subst (All (ToolAllowed (ts ++ event e args ∷ []) (length (after ts).tools))) first
                  (begun-allowed ts e args)).0
                kept)
      ]

  take_turn-Kept :
      (ts : List (Turn V)) (t : Turn V)
      → Kept ts (after ts)
      → Kept (ts ++ t ∷ []) (take_turn decode close host t (after ts))
  unfolding take_turn
  take_turn-Kept ts (event e args) v =
      called-Kept ts e args (Kept-snoc ts (event e args) (after ts) v)
  take_turn-Kept ts (signal i sig) v =
      signalled-Kept (ts ++ signal i sig ∷ []) i sig (after ts) (nth i (after ts).tools) refl
        (Kept-snoc ts (signal i sig) (after ts) v)

  turns-Kept :
      (before ts : List (Turn V))
      → Kept before (after before)
      → Kept (before ++ ts) (after (before ++ ts))
  turns-Kept before [] v = subst (λ l. Kept l (after l)) (sym (append-nil before)) v
  turns-Kept before (t ∷ ts) v =
      subst (λ l. Kept l (after l)) (append_assoc before (t ∷ []) ts)
        (turns-Kept (before ++ t ∷ []) ts (
          subst (Kept (before ++ t ∷ [])) (sym (turns-snoc decode close host w before t (idle w)))
            (take_turn-Kept before t v)))

  -- However the tools of any sessions run between and across each other's awaits, from any world:
  -- whatever a tool asks of the exporter, but for its list of drivers, it asks because the turn that
  -- called this very tool was a call of `power` or `driver_call` by the session, which had a name, and had
  -- the claim at that call. That the session was let through at another call does not count.
  pub acts-Authorised : (ts : List (Turn V)) → All (Allowed ts) (after ts).acts
  unfolding turns
  acts-Authorised ts =
      (turns-Kept [] ts (record { acts_allowed = tt; tools_allowed = λ i t e. cc })).acts_allowed
