-- ===== src/Claims/Laws.antt =====
-- What each method of `Claims` answers and leaves behind (provider.py, lines 80 to 145).
use yession.Prelude.{
  ℕ, ◌+◌, ◌≤◌, ◌<◌, ◌≡◌, refl, ◌≢◌, ◌↔◌, ◌-◌, if◌then◌else◌, ◌⊎◌, inl, inr, Bool, true, false,
  Option, none, some, arith, Text, text_eq, text_eq_iff, Bool-cases,
}
use yession.Dict.{get-put, get-pop}
use yession.Claims.{
  Claim, Claims, open_streams, open_stream, see, close_stream, is_stale, holder_of, drop_claim,
  expire_claim, expire, take_claim, acquire, release_claim, release,
}

-- `h` has the claim in `c`.
abbrev pub Holds : Text → Claims → Type 0
Holds h c = holder_of c.claim ≡ some h

pub Holds-claim :
    (h : Text) (c : Claims) → Holds h c → (k : Claim) × (c.claim ≡ some k) × (k.holder ≡ h)
Holds-claim h c e = go c.claim refl
  where
    go : (o : Option Claim) → c.claim ≡ o → (k : Claim) × (c.claim ≡ some k) × (k.holder ≡ h)
    go none p = ground arith
    go (some k) p = (k, p, ground arith)

-- A claim is not stale while its holder has a stream open, nor up to its deadline.
pub is_stale_iff :
    (now : ℕ) (c : Claims) (k : Claim)
    → (is_stale now c k ≡ true)
      ↔ ((open_streams k.holder c ≡ 0) × (k.last_seen + c.ttl_seconds < now))
unfolding is_stale
is_stale_iff now c k = ground arith

module _ {ℓ} {S : Type ℓ} (on_release : S → S) where
  abbrev Expiry : ℕ → Claims × S → Claims × S → Type ℓ
  Expiry now w w' =
      ((w' ≡ w) × ((k : Claim) → w.0.claim ≡ some k → is_stale now w.0 k ≡ false))
      ⊎ ((k : Claim) × (w.0.claim ≡ some k)
          × (is_stale now w.0 k ≡ true)
          × (w' ≡ drop_claim on_release w))

  expire_claim-cases :
      (now : ℕ) (o : Option Claim) (w : Claims × S)
      → w.0.claim ≡ o
      → Expiry now w (expire_claim on_release now o w)
  unfolding expire_claim
  expire_claim-cases now none w e = inl (refl, λ k p. ground arith)
  expire_claim-cases now (some k) w e = elim (Bool-cases (is_stale now w.0 k)) [
    | inl stale ↦ inr (k, e, stale, ground arith)
    | inr fresh ↦ inl (ground arith, λ j p. ground arith)
  ]

  -- `expire` either changes nothing, since no claim is stale, or ends the claim.
  pub expire-cases : (now : ℕ) (w : Claims × S) → Expiry now w (expire on_release now w)
  unfolding expire
  expire-cases now w = expire_claim-cases now w.0.claim w refl

  abbrev pub Outcome : Text → Claims × S → (Bool × Option Text) × (Claims × S) → Type ℓ
  Outcome h w r =
      ((r.0 ≡ (true, none)) × Holds h r.1.0)
      ⊎ ((k : Claim) × (r.0 ≡ (false, some k.holder))
          × (k.holder ≢ h)
          × (w.0.claim ≡ some k)
          × (r.1 ≡ w))

  take_claim-Outcome :
      (later : ℕ) (h : Text) (o : Option Claim) (w : Claims × S)
      → w.0.claim ≡ o
      → Outcome h w (take_claim on_release later h o w)
  unfolding take_claim
  take_claim-Outcome later h none w e = inl (refl, refl)
  take_claim-Outcome later h (some k) w e = elim (Bool-cases (text_eq k.holder h)) [
    | inl same ↦ inl (ground arith, rw (same, e) (ground (arith, text_eq_iff k.holder h)))
    | inr other ↦ inr (k, ground arith, ground (arith, text_eq_iff k.holder h), e, ground arith)
  ]

  -- The pair that `acquire` returns is the truth. Either it is (True, None) and the caller has the
  -- claim afterwards, or it is (False, the holder's name), the holder is another session, and the
  -- claim and all else are what they were.
  pub acquire-Outcome :
      (now later : ℕ) (h : Text) (w : Claims × S) → Outcome h w (acquire on_release now later h w)
  unfolding acquire
  acquire-Outcome now later h w = elim (expire-cases now w) [
    | inl (e, _) ↦ rw e (take_claim-Outcome later h w.0.claim w refl)
    | inr (k, _, _, e) ↦ rw e (unfold drop_claim take_claim in inl (refl, refl))
  ]

  -- A claim that has been silent past its deadline, with no stream open, is ended by the next
  -- session that asks: `acquire` gives that session a new claim, and the callback runs once.
  pub acquire_after_silence :
      (now later : ℕ) (h : Text) (c : Claims) (s : S) (k : Claim)
      → c.claim ≡ some k
      → open_streams k.holder c ≡ 0
      → k.last_seen + c.ttl_seconds < now
      → acquire on_release now later h (c, s) ≡ (
        (true, none),
        (
          record c { claim = some (record { holder = h; taken_at = later; last_seen = later }) },
          on_release s,
        ),
      )
  unfolding acquire
  acquire_after_silence now later h c s k e closed silent =
      ground (arith, (is_stale_iff now c k).1 (closed, silent))

  -- `release` says True exactly when the caller had the claim (after expiry).
  pub release_iff :
      (now : ℕ) (h : Text) (w : Claims × S)
      → ((release on_release now h w).0 ≡ true) ↔ Holds h (expire on_release now w).0
  unfolding release
  release_iff now h w = go (expire on_release now w).0.claim (expire on_release now w) refl
    where
      go :
          (o : Option Claim) (v : Claims × S)
          → v.0.claim ≡ o
          → ((release_claim on_release h o v).0 ≡ true) ↔ (holder_of o ≡ some h)
      go none v e = ground arith
      go (some k) v e = ground (arith, text_eq_iff k.holder h)

-- One more stream of `h`, and nothing else.
pub open_streams-open :
    (h j : Text) (c : Claims)
    → open_streams j (open_stream h c)
      ≡ (if text_eq h j then open_streams h c + 1 else open_streams j c)
unfolding open_stream open_streams
open_streams-open h j c = ground (arith, get-put h j (open_streams h c + 1) c.streaming)

-- One fewer stream of `h`, and nothing else.
pub open_streams-close :
    (now : ℕ) (h j : Text) (c : Claims)
    → open_streams j (close_stream now h c)
      ≡ (if text_eq h j then open_streams h c - 1 else open_streams j c)
unfolding close_stream open_streams
open_streams-close now h j c =
    ground (arith, get-put h j (open_streams h c - 1) c.streaming, get-pop h j c.streaming)

pub holder_of-see : (now : ℕ) (h : Text) (o : Option Claim) → holder_of (see now h o) ≡ holder_of o
unfolding see
holder_of-see now h none = refl
holder_of-see now h (some k) = ground arith

-- While the holder's stream closes, its claim stays, and up to a whole deadline after that no
-- reading of the clock finds the claim stale, however long the stream was open before.
pub close_stream-deadline :
    (now t : ℕ) (h : Text) (c : Claims) (k : Claim)
    → Holds h c
    → (close_stream now h c).claim ≡ some k
    → t ≤ now + c.ttl_seconds
    → (k.holder ≡ h) × (is_stale t (close_stream now h c) k ≡ false)
unfolding close_stream
close_stream-deadline now t h c k held e le =
    let (j, cj, jh) = Holds-claim h c held in
    ground (
      arith,
      cj,
      jh,
      text_eq_iff j.holder h,
      text_eq_iff h k.holder,
      is_stale_iff t (close_stream now h c) k,
      open_streams-close now h k.holder c,
    )

-- A stream that opens or closes changes no holder.
pub holder_of-open : (h : Text) (c : Claims) → holder_of (open_stream h c).claim ≡ holder_of c.claim
unfolding open_stream
holder_of-open h c = refl

pub holder_of-close :
    (now : ℕ) (h : Text) (c : Claims) → holder_of (close_stream now h c).claim ≡ holder_of c.claim
unfolding close_stream
holder_of-close now h c = ground (arith, holder_of-see now h c.claim)
