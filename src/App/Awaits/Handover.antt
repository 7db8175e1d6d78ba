-- ===== src/App/Awaits/Handover.antt =====
-- A power cycle whose claim is lost in its pause (provider.py, lines 276 to 287).
use yession.Prelude.{
  ℕ, ◌*◌, ◌≡◌, ◌≢◌, refl, ap, sym, subst, ◌∙◌, inl, inr, Bool, true, false, Option, none, List, [],
  ◌∷◌, ◌++◌, Text, codes, text_eq, text_eq_refl,
}
use yession.Dict.{Dict}
use yession.Words.{strip, lower}
use yession.Claims
use yession.Claims.{
  Claim, Claims, holder_of, drop_claim, expire, expire_claim, take_claim, release_claim, current,
}
use yession.Claims.Laws.{Holds, Holds-claim, expire-cases, acquire-Outcome}
use yession.Provider.{
  ok, Task, done, sleeps, World, released, session_holder, power, power_task, power_steps,
  power_call, is_power_action, acquire, acquire_as, acquire_answer, release, release_answer,
  ticks_per_second, said,
}
use yession.Provider.Gate.{holder_gets_through}
use yession.Provider.Power.{Act, called, slept}
use yession.App.Events.{asks_power, asks_release, asks_acquire, happens}
use yession.App.Awaits.{text_came, woke, Turn, event, signal, Loop, begun, take_turn, turns, idle}

module _ {E : Type 0} (close : E → E) where
  release-frees :
      (now : ℕ) (h : Text) (w : World E)
      → Holds h w.0
      → (Claims.release (released close) now h w).1.0.claim ≡ none
  unfolding Claims.release
  release-frees now h w held =
      let (k, there, same) = Holds-claim h w.0 held in
      elim (expire-cases (released close) now w) [
        | inl (kept, _) ↦
            rw (kept, there, same) (unfold release_claim drop_claim in rw (text_eq_refl h) refl)
        | inr (j, _, _, ended) ↦ rw ended (unfold release_claim drop_claim in refl)
      ]

  release_answer-frees :
      (host : Text) (headers : Dict Text) (later : ℕ) (r : Bool × World E)
      → r.1.0.claim ≡ none
      → (release_answer close host headers later r).1.0.claim ≡ none
  unfolding release_answer current expire expire_claim
  release_answer-frees host headers later (true, w) e = e
  release_answer-frees host headers later (false, w) e = rw e refl

  answer-claims :
      (origin minted : Text) (headers : Dict Text) (r : (Bool × Option Text) × World E)
      → (acquire_answer close origin minted headers r).1.0 ≡ r.1.0
  unfolding acquire_answer
  answer-claims origin minted headers ((true, other), (c, b)) = refl
  answer-claims origin minted headers ((false, other), w) = refl

  -- When nobody has the claim, `acquire` gives it to any session with a name.
  acquire_as-free :
      (origin minted : Text) (headers : Dict Text) (h : Text) (now later : ℕ) (w : World E)
      → h ≢ []
      → w.0.claim ≡ none
      → Holds h (acquire_as close origin minted headers h now later w).1.0
  unfolding acquire_as
  acquire_as-free origin minted headers [] now later w named free = absurd (named refl)
  acquire_as-free origin minted headers (c ∷ s) now later w named free =
      rw (answer-claims origin minted headers (Claims.acquire (released close) now later (c ∷ s) w))
        (elim (acquire-Outcome (released close) now later (c ∷ s) w) [
          | inl (_, held) ↦ held
          | inr (k, _, _, taken, _) ↦ cc (taken, free)
        ])

  -- After a release by the holder and an acquire, the claim is with who acquired it.
  crossing-held :
      (host : Text) (mine theirs : Dict Text) (origin minted : Text) (n2 n3 n4 n5 : ℕ) (x : World E)
      → session_holder theirs ≢ []
      → Holds (session_holder mine) x.0
      → Holds
          (session_holder theirs)
          (acquire close origin minted theirs n4 n5 (release close host mine n2 n3 x).1).1.0
  unfolding acquire release
  crossing-held host mine theirs origin minted n2 n3 n4 n5 x other held =
      acquire_as-free origin minted theirs (session_holder theirs) n4 n5 _ other
        (release_answer-frees host mine n3 _ (release-frees n2 (session_holder mine) x held))

abbrev pub off_act : {V : Type 0} → Act V
off_act = called (codes "power") (codes "off") []

abbrev pub pause_act : {V : Type 0} → Act V
pause_act = slept (2 * ticks_per_second)

abbrev pub on_act : {V : Type 0} → Act V
on_act = called (codes "power") (codes "on") []

-- A session asks for a power cycle; "off" comes back; it gives the claim back, and another one acquires
-- it. The clock reads anything.
abbrev pub crossing :
    {V : Type 0}
    → Dict Text
    → Dict Text
    → Text
    → Text
    → Text
    → Text
    → ℕ
    → ℕ
    → ℕ
    → ℕ
    → ℕ
    → List (Turn V)
crossing mine theirs action said_off origin minted n1 n2 n3 n4 n5 =
    event (asks_power mine action n1) []
    ∷ signal 0 (text_came (ok said_off))
    ∷ event (asks_release mine n2 n3) []
    ∷ event (asks_acquire theirs origin minted n4 n5) []
    ∷ []

cycle_steps : {V : Type 0} → Text → Task V
cycle_steps wanted = power_call (codes "off") (
    sleeps (2 * ticks_per_second)
      (power_call (codes "on") (done (said (codes "power " ++ (wanted ++ codes " done"))))))

power_task-cycle :
    {V : Type 0} (action : Text)
    → lower (strip action) ≡ codes "cycle"
    → power_task {V = V} action ≡ cycle_steps (lower (strip action))
unfolding power_task power_steps is_power_action cycle_steps text_eq codes
power_task-cycle action e = rw e refl

module _ (decode : List ℕ → Text) {V E : Type 0} (close : E → E) (host : Text) where
  abbrev ran : List (Turn V) → World E → Loop V E
  ran ts w = turns decode close host ts (idle w)

  crossing-acts :
      (mine theirs : Dict Text) (action said_off origin minted : Text) (n1 n2 n3 n4 n5 : ℕ)
      (w : World E)
      → (power close host mine {V = V} action n1 w).0 ≡ cycle_steps (lower (strip action))
      → let s = ran (crossing mine theirs action said_off origin minted n1 n2 n3 n4 n5) w in
        (s.acts ≡ (0, session_holder mine, off_act) ∷ (0, session_holder mine, pause_act) ∷ [])
        × ((take_turn decode close host (signal 0 woke) s).acts
            ≡ (0, session_holder mine, off_act)
              ∷ (0, session_holder mine, pause_act)
              ∷ (0, session_holder mine, on_act)
              ∷ [])
        × (s.world
            ≡ happens decode close host (asks_acquire theirs origin minted n4 n5) (
                happens decode close host
                  (asks_release mine n2 n3)
                  (happens decode close host (asks_power mine action n1) w)))
        × ((take_turn decode close host (signal 0 woke) s).world ≡ s.world)
  unfolding turns take_turn begun cycle_steps power_call
  crossing-acts mine theirs action said_off origin minted n1 n2 n3 n4 n5 w e =
      rw e (refl, refl, refl, refl)

  -- A power cycle goes on across a change of hands. If a session has the claim and asks for a cycle, then,
  -- whatever the clock reads: it can give the claim back in the pause, another session with a name can
  -- acquire it, and at the end of the pause the power is switched on all the same, by the call of the
  -- first session, while the second one has the claim.
  pub cycle_across_holders :
      (mine theirs : Dict Text) (action said_off origin minted : Text) (n1 n2 n3 n4 n5 : ℕ)
      (w : World E)
      → session_holder mine ≢ []
      → session_holder theirs ≢ []
      → lower (strip action) ≡ codes "cycle"
      → Holds (session_holder mine) (expire (released close) n1 w).0
      → let s = ran (crossing mine theirs action said_off origin minted n1 n2 n3 n4 n5) w in
        let t = take_turn decode close host (signal 0 woke) s in
        Holds (session_holder theirs) s.world.0
        × (s.acts ≡ (0, session_holder mine, off_act) ∷ (0, session_holder mine, pause_act) ∷ [])
        × (t.acts
            ≡ (0, session_holder mine, off_act)
              ∷ (0, session_holder mine, pause_act)
              ∷ (0, session_holder mine, on_act)
              ∷ [])
        × (t.world ≡ s.world)
  unfolding happens
  cycle_across_holders mine theirs action said_off origin minted n1 n2 n3 n4 n5 w named other cycle
        held =
      let through = holder_gets_through close host mine {V = V} action [] [] [] n1 w named held in
      let through_too =
        holder_gets_through close host mine {V = ℕ} action [] [] [] n1 w named held in
      let (before, later, world, same) =
        crossing-acts mine theirs action said_off origin minted n1 n2 n3 n4 n5 w
          (ap (λ (r : Task V × World E). r.0) through.0 ∙ power_task-cycle action cycle) in
      (
        subst (λ (x : World E). Holds (session_holder theirs) x.0) (sym world)
            (crossing-held close host mine theirs origin minted n2 n3 n4 n5
              (power close host mine {V = ℕ} action n1 w).1 other
              (subst (λ (r : Task ℕ × World E). Holds (session_holder mine) r.1.0)
                (sym through_too.0) held)),
        before,
        later,
        same,
      )
