-- ===== src/Exporter/Threads/Calm.antt =====
-- "One thread, one owner of every context manager", as exporter.py has it, and where that holds.
use yession.Prelude.{
  ℕ, suc, ◌≡◌, ◌≢◌, ◌≤◌, refl, Option, none, some, List, [], ◌∷◌, arith, All, All-append, ◌⊎◌, inl,
  inr, ap, sym, ◌∙◌, subst, Text,
}
use yession.Exporter.Threads.{
  Phase, connecting, serving, stopped, Reply, served, Threads, init, phase_of, set_phase, reply_of,
  IsGone, Step, finds_none, starts, starts_behind, start_raises, passes, connects, fails, hears,
  hears_failure, gives_up, puts, puts_quietly, takes, stops, asks_stop, drops, hears_old,
  hears_old_failure, gives_up_old, Reach, here, next,
}

-- No connection fails or is dropped or closed, and no caller finds that there is no thread while
-- another one is about to start one.
abbrev pub IsCalm : {s t : Threads} → Step s t → Type 0
IsCalm {s} (finds_none a room b) = s.starting ≡ 0
IsCalm (fails n e a b) = ⊥
IsCalm (asks_stop n p a b) = ⊥
IsCalm (drops a) = ⊥
IsCalm _ = Unit {0}

abbrev pub AllCalm : {s t : Threads} → Reach s t → Type 0
AllCalm here = Unit {0}
AllCalm (next r st) = AllCalm r × IsCalm st

abbrev pub Owned : Threads → Type 0
Owned s =
    ((s.workers ≡ []) × (s.thread ≡ none) × (s.starting ≤ 1))
    ⊎ ((p : Phase) × (s.workers ≡ p ∷ [])
        × (s.thread ≡ some 0)
        × (s.starting ≡ 0)
        × ((p ≡ connecting) ⊎ (p ≡ serving)))

-- No worker, and at most one caller about to start one; or one that connects or serves and is the
-- provider's thread, and no caller about to start another. No command was answered but by a worker
-- that serves; no failure and no sentinel is under way; and nothing is left in an old queue.
pub record HasOneOwner (s : Threads) : Type 0 where
  pub owner : Owned s
  pub all_served : All (λ r. r.1 ≡ served) s.replies
  pub all_connected : All (λ m. m ≡ none) s.ready
  pub all_commands : All (λ c. c ≢ none) s.commands
  pub none_old : s.old ≡ []

-- With one worker, the worker that has a phase is that one.
only_worker :
    (n : ℕ) (p q r : Phase)
    → phase_of n (p ∷ []) ≡ some q
    → (p ≡ q) × (set_phase n r (p ∷ []) ≡ r ∷ [])
only_worker ℕ.zero p q r e = (ground arith, refl)
only_worker (suc n) p q r e = cc

reply-served :
    (p : Phase) (r : Reply) → (p ≡ connecting) ⊎ (p ≡ serving) → reply_of p ≡ some r → r ≡ served
reply-served p r h e = ground arith

-- The worker that is looked up is the owner.
owner_phase :
    (s : Threads) (n : ℕ) (p r : Phase)
    → Owned s
    → phase_of n s.workers ≡ some p
    → (s.thread ≡ some 0)
      × (s.starting ≡ 0)
      × ((p ≡ connecting) ⊎ (p ≡ serving))
      × (set_phase n r s.workers ≡ r ∷ [])
owner_phase s n p r (inl (w, t, _)) h = absurd (ground (arith, ap (phase_of n) w))
owner_phase s n p r (inr (o, w, t, nobody, live)) h =
    let only = only_worker n o p r (ap (phase_of n) (sym w) ∙ h) in
    (
      t,
      nobody,
      subst (λ x. (x ≡ connecting) ⊎ (x ≡ serving)) only.0 live,
      ap (set_phase n r) w ∙ only.1,
    )

gone_unowned : (s : Threads) → Owned s → IsGone s → (s.workers ≡ []) × (s.thread ≡ none)
gone_unowned s (inl (w, t, _)) gone = (w, t)
gone_unowned s (inr (o, w, t, nobody, live)) (inl idle) = cc (idle, t)
gone_unowned s (inr (o, w, t, nobody, live)) (inr (n, th, dead)) =
    let facts = owner_phase s n stopped stopped (inr (o, w, t, nobody, live)) dead in
    absurd (ground (arith, facts.2))

first_command :
    (q : List (Option ℕ)) (c : Option ℕ) (rest : List (Option ℕ))
    → All (λ c. c ≢ none) q
    → q ≡ c ∷ rest
    → (c ≢ none) × All (λ c. c ≢ none) rest
first_command q c rest h e = subst (All (λ c. c ≢ none)) e h

first_message :
    (q : List (Option Text)) (m : Option Text) (rest : List (Option Text))
    → All (λ m. m ≡ none) q
    → q ≡ m ∷ rest
    → (m ≡ none) × All (λ m. m ≡ none) rest
first_message q m rest h e = subst (All (λ m. m ≡ none)) e h

Step-HasOneOwner : {s t : Threads} (st : Step s t) → IsCalm st → HasOneOwner s → HasOneOwner t
Step-HasOneOwner {s} (finds_none gone room e) calm v =
    let (w, t) = gone_unowned s v.owner gone in
    rw e (record {
      owner = inl (w, t, omega (arith, calm));
      all_served = v.all_served;
      all_connected = v.all_connected;
      all_commands = v.all_commands;
      none_old = v.none_old;
    })
Step-HasOneOwner {s} (starts k some_starts e) calm v = elim v.owner [
  | inl (w, t, one) ↦
      rw (e, w)
        (record {
          owner = inr (connecting, refl, refl, omega (arith, some_starts, one), inl refl);
          all_served = v.all_served;
          all_connected = v.all_connected;
          all_commands = v.all_commands;
          none_old = v.none_old;
        })
  | inr (p, w, t, nobody, _) ↦ absurd (omega (arith, some_starts, nobody))
]
Step-HasOneOwner {s} (starts_behind k n some_starts th e) calm v = elim v.owner [
  | inl (w, t, one) ↦ cc (th, t)
  | inr (p, w, t, nobody, _) ↦ absurd (omega (arith, some_starts, nobody))
]
Step-HasOneOwner {s} (start_raises k some_starts e) calm v = elim v.owner [
  | inl (w, t, one) ↦ rw e (record {
    owner = inl (w, t, omega (arith, some_starts, one));
    all_served = v.all_served;
    all_connected = v.all_connected;
    all_commands = v.all_commands;
    none_old = v.none_old;
  })
  | inr (p, w, t, nobody, _) ↦ absurd (omega (arith, some_starts, nobody))
]
Step-HasOneOwner {s} (passes n p alive room e) calm v = rw e (record {
  owner = v.owner;
  all_served = v.all_served;
  all_connected = v.all_connected;
  all_commands = v.all_commands;
  none_old = v.none_old;
})
Step-HasOneOwner {s} (connects n p e) calm v =
    let (t, nobody, _, only) = owner_phase s n connecting serving v.owner p in
    rw e (record {
      owner = inr (serving, only, t, nobody, inr refl);
      all_served = v.all_served;
      all_connected = All-append (λ m. m ≡ none) s.ready (none ∷ []) v.all_connected (refl, tt);
      all_commands = v.all_commands;
      none_old = v.none_old;
    })
Step-HasOneOwner {s} (fails n m a b) calm v = absurd calm
Step-HasOneOwner {s} (hears k rest w r e) calm v = rw e (record {
  owner = v.owner;
  all_served = v.all_served;
  all_connected = (first_message s.ready none rest v.all_connected r).1;
  all_commands = v.all_commands;
  none_old = v.none_old;
})
Step-HasOneOwner {s} (hears_failure k m rest w r e) calm v =
    cc ((first_message s.ready (some m) rest v.all_connected r).0)
Step-HasOneOwner {s} (gives_up k w e) calm v = rw e (record {
  owner = v.owner;
  all_served = v.all_served;
  all_connected = v.all_connected;
  all_commands = v.all_commands;
  none_old = v.none_old;
})
Step-HasOneOwner {s} (puts k c w e) calm v = rw e (record {
  owner = v.owner;
  all_served = v.all_served;
  all_connected = v.all_connected;
  all_commands = All-append (λ c. c ≢ none) s.commands (some c ∷ []) v.all_commands (λ q. cc, tt);
  none_old = v.none_old;
})
Step-HasOneOwner {s} (puts_quietly n c p alive e) calm v = rw e (record {
  owner = v.owner;
  all_served = v.all_served;
  all_connected = v.all_connected;
  all_commands = All-append (λ c. c ≢ none) s.commands (some c ∷ []) v.all_commands (λ q. cc, tt);
  none_old = v.none_old;
})
Step-HasOneOwner {s} (takes n c rest p r ph re q e) calm v =
    let (_, _, live, _) = owner_phase s n p serving v.owner ph in
    rw e (record {
      owner = v.owner;
      all_served = (reply-served p r live re, v.all_served);
      all_connected = v.all_connected;
      all_commands = (first_command s.commands (some c) rest v.all_commands q).1;
      none_old = v.none_old;
    })
Step-HasOneOwner {s} (stops n rest p r ph re q e) calm v =
    absurd ((first_command s.commands none rest v.all_commands q).0 refl)
Step-HasOneOwner {s} (asks_stop n p a b) calm v = absurd calm
Step-HasOneOwner {s} (drops e) calm v = absurd calm
Step-HasOneOwner {s} (hears_old k rest w o e) calm v = cc (o, v.none_old)
Step-HasOneOwner {s} (hears_old_failure k m rest w o e) calm v = cc (o, v.none_old)
Step-HasOneOwner {s} (gives_up_old k w e) calm v = rw e (record {
  owner = v.owner;
  all_served = v.all_served;
  all_connected = v.all_connected;
  all_commands = v.all_commands;
  none_old = v.none_old;
})

-- From the start, as long as no connection failed or was dropped or closed, and no caller of `_ensure`
-- found that there is no thread while another one was about to start one: at most one worker was ever
-- started, it is the provider's thread, and every answered command was answered on a connection that
-- serves.
pub calm-HasOneOwner : {s : Threads} (r : Reach init s) → AllCalm r → HasOneOwner s
calm-HasOneOwner here calm = record {
  owner = inl (refl, refl, omega arith);
  all_served = tt;
  all_connected = tt;
  all_commands = tt;
  none_old = refl;
}
calm-HasOneOwner (next r st) calm = Step-HasOneOwner st calm.1 (calm-HasOneOwner r calm.0)
