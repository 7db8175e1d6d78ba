-- ===== src/Claims/History/Keeping.antt =====
-- When a claim is kept: over any history in which its holder does not give it up.
use yession.Prelude.{
  ℕ, ◌+◌, ◌≤◌, ◌≡◌, ◌≢◌, refl, sym, ap, subst, ◌∙◌, inl, inr, some, List, [], ◌∷◌, arith, Text,
  text_eq, text_eq_iff, All, Bool-cases, ltb,
}
use yession.Claims.{
  Claim, Claims, open_streams, close_stream, see, expire, touch, current, take_claim, acquire,
  release_claim, release, open_stream,
}
use yession.Claims.Laws.{
  Holds, Holds-claim, is_stale_iff, expire-cases, open_streams-open, open_streams-close,
  holder_of-see, holder_of-open, holder_of-close,
}
use yession.Claims.History.{
  Call, expires, touches, reads_holder, acquires, releases, opens, closes, step, run,
}

-- `h` has the claim and at least one stream open.
pub record IsListening (h : Text) (c : Claims) : Type 0 where
  pub holds : Holds h c
  pub listens : 1 ≤ open_streams h c

-- The call is neither a release by `h` nor the end of one of its streams.
abbrev pub Spares : Text → Call → Type 0
Spares h (releases now j) = j ≢ h
Spares h (closes now j) = j ≢ h
Spares h _ = Unit {0}

module _ {ℓ} {S : Type ℓ} (on_release : S → S) where
  -- Where expiry changes nothing, a session that holds the claim loses it neither to another
  -- session's `acquire` nor to another session's `release`.
  acquire_held :
      (now later : ℕ) (h j : Text) (w : Claims × S)
      → expire on_release now w ≡ w
      → Holds h w.0
      → (acquire on_release now later j w).1 ≡ w
  unfolding acquire
  acquire_held now later h j w e held =
      let (k, ck, kh) = Holds-claim h w.0 held in
      rw e (subst (λ o. (take_claim on_release later j o w).1 ≡ w) (sym ck) (ground arith))

  release_other :
      (now : ℕ) (h j : Text) (w : Claims × S)
      → expire on_release now w ≡ w
      → Holds h w.0
      → j ≢ h
      → (release on_release now j w).1 ≡ w
  unfolding release
  release_other now h j w e held other =
      let (k, ck, kh) = Holds-claim h w.0 held in
      rw e (
        subst (λ o. (release_claim on_release j o w).1 ≡ w) (sym ck)
          (ground (arith, kh, text_eq_iff k.holder j)))

  touch_fresh :
      (now later : ℕ) (j : Text) (w : Claims × S)
      → expire on_release now w ≡ w
      → touch on_release now later j w ≡ (record w.0 { claim = see later j w.0.claim }, w.1)
  unfolding touch
  touch_fresh now later j w e = rw e refl

  expire-listening :
      (now : ℕ) (h : Text) (w : Claims × S) → IsListening h w.0 → expire on_release now w ≡ w
  expire-listening now h w v = elim (expire-cases on_release now w) [
    | inl (e, _) ↦ e
    | inr (k, e, stale, _) ↦
        absurd (ground (arith, (is_stale_iff now w.0 k).0 stale, v.holds, v.listens, e))
  ]

  step-IsListening :
      (h : Text) (c : Call) (w : Claims × S)
      → Spares h c
      → IsListening h w.0
      → IsListening h (step on_release c w).0
  unfolding step current open_streams
  step-IsListening h (expires now) w sp v = rw (expire-listening now h w v) v
  step-IsListening h (touches now later j) w sp v =
      rw (touch_fresh now later j w (expire-listening now h w v))
        (record { holds = holder_of-see later j w.0.claim ∙ v.holds; listens = v.listens })
  step-IsListening h (reads_holder now) w sp v = rw (expire-listening now h w v) v
  step-IsListening h (acquires now later j) w sp v =
      rw (acquire_held now later h j w (expire-listening now h w v) v.holds) v
  step-IsListening h (releases now j) w sp v =
      rw (release_other now h j w (expire-listening now h w v) v.holds sp) v
  step-IsListening h (opens j) w sp v = record {
    holds = holder_of-open j w.0 ∙ v.holds;
    listens = ground (arith, open_streams-open j h w.0, text_eq_iff j h, v.listens);
  }
  step-IsListening h (closes now j) w sp v = record {
    holds = holder_of-close now j w.0 ∙ v.holds;
    listens = ground (arith, open_streams-close now j h w.0, text_eq_iff j h, v.listens);
  }

  -- A session that has the claim and a stream open keeps both through any history in which it does
  -- not release the claim and none of its streams ends: whatever other sessions call, whatever the
  -- clock reads.
  pub run-IsListening :
      (h : Text) (cs : List Call) (w : Claims × S)
      → All (Spares h) cs
      → IsListening h w.0
      → IsListening h (run on_release cs w).0
  unfolding run
  run-IsListening h [] w sp v = v
  run-IsListening h (c ∷ cs) w sp v =
      run-IsListening h cs (step on_release c w) sp.1 (step-IsListening h c w sp.0 v)

-- `h` has the claim, and its deadline is not before `d`.
abbrev pub HeldUntil : ℕ → Text → Claims → Type 0
HeldUntil d h c =
    (k : Claim) × (c.claim ≡ some k) × (k.holder ≡ h) × (d ≤ k.last_seen + c.ttl_seconds)

-- The call is no release by `h`, and what it reads of the clock lies in the `ttl` ticks before `d`.
abbrev pub InWindow : ℕ → ℕ → Text → Call → Type 0
InWindow ttl d h (expires now) = now ≤ d
InWindow ttl d h (touches now later j) = (now ≤ d) × (d ≤ later + ttl)
InWindow ttl d h (reads_holder now) = now ≤ d
InWindow ttl d h (acquires now later j) = now ≤ d
InWindow ttl d h (releases now j) = (now ≤ d) × (j ≢ h)
InWindow ttl d h (opens j) = Unit {0}
InWindow ttl d h (closes now j) = d ≤ now + ttl

see-HeldUntil :
    (d later : ℕ) (h j : Text) (c : Claims)
    → d ≤ later + c.ttl_seconds
    → HeldUntil d h c
    → HeldUntil d h (record c { claim = see later j c.claim })
unfolding see
see-HeldUntil d later h j c le (k, ck, kh, kd) =
    subst (λ o. HeldUntil d h (record c { claim = see later j o })) (sym ck)
      (elim (Bool-cases (text_eq k.holder j)) [
        | inl same ↦ (record k { last_seen = later }, rw same, kh, le)
        | inr other ↦ (k, rw other, kh, kd)
      ])

close_stream-HeldUntil :
    (d now : ℕ) (h j : Text) (c : Claims)
    → d ≤ now + c.ttl_seconds
    → HeldUntil d h c
    → HeldUntil d h (close_stream now j c)
unfolding close_stream
close_stream-HeldUntil d now h j c le v = elim (Bool-cases (ltb 1 (open_streams j c))) [
  | inl many ↦ rw many v
  | inr last ↦ rw last (see-HeldUntil d now h j c le v)
]

module _ {ℓ} {S : Type ℓ} (on_release : S → S) where
  expire-HeldUntil :
      (d now : ℕ) (h : Text) (w : Claims × S)
      → now ≤ d
      → HeldUntil d h w.0
      → expire on_release now w ≡ w
  expire-HeldUntil d now h w le (k, ck, kh, kd) = elim (expire-cases on_release now w) [
    | inl (e, _) ↦ e
    | inr (j, cj, stale, _) ↦ absurd (ground (arith, (is_stale_iff now w.0 j).0 stale))
  ]

  step-HeldUntil :
      (d : ℕ) (h : Text) (c : Call) (w : Claims × S)
      → InWindow w.0.ttl_seconds d h c
      → HeldUntil d h w.0
      → HeldUntil d h (step on_release c w).0
  unfolding step current
  step-HeldUntil d h (expires now) w le v = rw (expire-HeldUntil d now h w le v) v
  step-HeldUntil d h (touches now later j) w le v =
      rw (touch_fresh on_release now later j w (expire-HeldUntil d now h w le.0 v))
        (see-HeldUntil d later h j w.0 le.1 v)
  step-HeldUntil d h (reads_holder now) w le v = rw (expire-HeldUntil d now h w le v) v
  step-HeldUntil d h (acquires now later j) w le (k, ck, kh, kd) =
      let v : HeldUntil d h w.0 = (k, ck, kh, kd) in
      rw
        (acquire_held on_release now later h j w (expire-HeldUntil d now h w le v)
          (rw ck (ap some kh)))
        v
  step-HeldUntil d h (releases now j) w le (k, ck, kh, kd) =
      let v : HeldUntil d h w.0 = (k, ck, kh, kd) in
      rw
        (release_other on_release now h j w (expire-HeldUntil d now h w le.0 v) (rw ck (ap some kh))
          le.1)
        v
  step-HeldUntil d h (opens j) w le v = unfold open_stream in v
  step-HeldUntil d h (closes now j) w le v = close_stream-HeldUntil d now h j w.0 le v

  ttl-step : (c : Call) (w : Claims × S) → (step on_release c w).0.ttl_seconds ≡ w.0.ttl_seconds
  unfolding step current touch acquire release open_stream close_stream take_claim
  ttl-step (expires now) w = ground arith
  ttl-step (touches now later j) w = ground arith
  ttl-step (reads_holder now) w = ground arith
  ttl-step (acquires now later j) w = ground arith
  ttl-step (releases now j) w = ground arith
  ttl-step (opens j) w = refl
  ttl-step (closes now j) w = ground arith

  -- Up to the deadline `d` of its claim, a session that does not release it keeps it, whatever the
  -- other sessions call, over any history whose readings of the clock lie in the `ttl` ticks
  -- before `d`; and its deadline is then still not before `d`.
  pub run-HeldUntil :
      (d : ℕ) (h : Text) (cs : List Call) (w : Claims × S)
      → All (InWindow w.0.ttl_seconds d h) cs
      → HeldUntil d h w.0
      → HeldUntil d h (run on_release cs w).0
  unfolding run
  run-HeldUntil d h [] w sp v = v
  run-HeldUntil d h (c ∷ cs) w sp v =
      run-HeldUntil d h cs (step on_release c w)
        (subst (λ t. All (InWindow t d h) cs) (sym (ttl-step c w)) sp.1)
        (step-HeldUntil d h c w sp.0 v)
