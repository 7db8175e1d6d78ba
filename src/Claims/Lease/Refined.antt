-- ===== src/Claims/Lease/Refined.antt =====
-- The class `Claims` (provider.py, lines 60 to 145) refines the desk of leases.
use yession.Prelude.{
  ℕ, ◌+◌, ◌≡◌, refl, ap, ◌∙◌, Option, none, some, List, [], ◌∷◌, Text, arith, ltb, inl, inr,
  Bool-cases,
}
use std.Path.{fun_ext}
use yession.Claims.{
  Claim, Claims, open_streams, open_stream, close_stream, see, is_stale, holder_of, drop_claim,
  expire, expire_claim, touch, current, take_claim, acquire, release_claim, release,
}
use yession.Claims.History.{
  Call, expires, touches, reads_holder, acquires, releases, opens, closes, step, run,
}
use yession.Claims.Streams.{count_after, step-open_streams}
use yession.Claims.Lease.{
  Desk, Reply, quiet, names, granted, ended, lapsed, renewed, named, granted_to, given_back, leased,
  desk_step, desk_run, lease_of, desk_of, told, all_told,
}

module _ {ℓ} {S : Type ℓ} (on_release : S → S) where
  expire-lapsed :
      (now : ℕ) (ttl : ℕ) (o : Option Claim) (w : Claims × S)
      → w.0.claim ≡ o
      → w.0.ttl_seconds ≡ ttl
      → lease_of ttl (expire_claim on_release now o w).0.claim
        ≡ lapsed now (λ h. open_streams h w.0) (lease_of ttl o)
  unfolding expire_claim drop_claim is_stale
  expire-lapsed now ttl none w e t = rw e refl
  expire-lapsed now ttl (some k) w e t = ground (arith, e, t)

  -- Every call keeps the deadline's length and does to the lease what the call at the desk does.
  expire-ttl :
      (now : ℕ) (w : Claims × S) → (expire on_release now w).0.ttl_seconds ≡ w.0.ttl_seconds
  unfolding expire expire_claim drop_claim
  expire-ttl now w = ground arith

  step-ttl : (c : Call) (w : Claims × S) → (step on_release c w).0.ttl_seconds ≡ w.0.ttl_seconds
  unfolding step current touch acquire take_claim release release_claim drop_claim open_stream
      close_stream
  step-ttl (expires now) w = expire-ttl now w
  step-ttl (touches now later h) w = expire-ttl now w
  step-ttl (reads_holder now) w = expire-ttl now w
  step-ttl (acquires now later h) w = ground (arith, expire-ttl now w)
  step-ttl (releases now h) w = ground (arith, expire-ttl now w)
  step-ttl (opens h) w = refl
  step-ttl (closes now h) w = ground arith

  see-renewed :
      (ttl now : ℕ) (h : Text) (o : Option Claim)
      → lease_of ttl (see now h o) ≡ renewed (now + ttl) h (lease_of ttl o)
  unfolding see
  see-renewed ttl now h none = refl
  see-renewed ttl now h (some k) = ground arith

  take_claim-granted :
      (ttl later : ℕ) (h : Text) (o : Option Claim) (w : Claims × S)
      → w.0.claim ≡ o
      → (
        granted (take_claim on_release later h o w).0.0 (take_claim on_release later h o w).0.1,
        lease_of ttl (take_claim on_release later h o w).1.0.claim,
      )
        ≡ granted_to (later + ttl) h (lease_of ttl o)
  unfolding take_claim
  take_claim-granted ttl later h none w e = refl
  take_claim-granted ttl later h (some k) w e = ground (arith, e)

  release_claim-given_back :
      (ttl : ℕ) (h : Text) (o : Option Claim) (w : Claims × S)
      → w.0.claim ≡ o
      → (
        ended (release_claim on_release h o w).0,
        lease_of ttl (release_claim on_release h o w).1.0.claim,
      )
        ≡ given_back h (lease_of ttl o)
  unfolding release_claim drop_claim
  release_claim-given_back ttl h none w e = rw e refl
  release_claim-given_back ttl h (some k) w e = ground (arith, e)

  holder_of-named : (ttl : ℕ) (o : Option Claim) → holder_of o ≡ named (lease_of ttl o)
  holder_of-named ttl none = refl
  holder_of-named ttl (some k) = refl

  -- The state after `expire`.
  abbrev later_state : ℕ → Claims × S → Claims × S
  later_state now w = expire on_release now w

  expired-lapsed :
      (now : ℕ) (w : Claims × S)
      → lease_of w.0.ttl_seconds (later_state now w).0.claim
        ≡ lapsed now (λ h. open_streams h w.0) (lease_of w.0.ttl_seconds w.0.claim)
  unfolding expire
  expired-lapsed now w = expire-lapsed now w.0.ttl_seconds w.0.claim w refl refl

  step-leased :
      (call : Call) (w : Claims × S)
      → (told on_release call w, lease_of w.0.ttl_seconds (step on_release call w).0.claim)
        ≡ leased w.0.ttl_seconds call (desk_of w.0)
  unfolding step current touch acquire release open_stream close_stream
  step-leased (expires now) w = ap (λ l. (quiet, l)) (expired-lapsed now w)
  step-leased (touches now later h) w =
      ap (λ l. (quiet, l))
        (see-renewed w.0.ttl_seconds later h (later_state now w).0.claim
          ∙ ap (renewed (later + w.0.ttl_seconds) h) (expired-lapsed now w))
  step-leased (reads_holder now) w =
      ap (λ n. (names n, lease_of w.0.ttl_seconds (later_state now w).0.claim))
        (holder_of-named w.0.ttl_seconds (later_state now w).0.claim)
      ∙ ap (λ l. (names (named l), l)) (expired-lapsed now w)
  step-leased (acquires now later h) w =
      take_claim-granted w.0.ttl_seconds later h (later_state now w).0.claim (later_state now w)
        refl
      ∙ ap (granted_to (later + w.0.ttl_seconds) h) (expired-lapsed now w)
  step-leased (releases now h) w =
      release_claim-given_back w.0.ttl_seconds h (later_state now w).0.claim (later_state now w)
        refl
      ∙ ap (given_back h) (expired-lapsed now w)
  step-leased (opens h) w = refl
  step-leased (closes now h) w = elim (Bool-cases (ltb 1 (open_streams h w.0))) [
    | inl many ↦ rw many refl
    | inr last ↦ rw last (ap (λ l. (quiet, l)) (see-renewed w.0.ttl_seconds now h w.0.claim))
  ]

  abbrev at_desk : (Text → ℕ) → Reply × Option (Text × ℕ) → Reply × Desk
  at_desk listening (reply, l) = (reply, record { lease = l; listening = listening })

  step-desk_step :
      (call : Call) (w : Claims × S)
      → (told on_release call w, desk_of (step on_release call w).0)
        ≡ desk_step w.0.ttl_seconds call (desk_of w.0)
  step-desk_step call w =
      ap
        (λ ttl. (
          told on_release call w,
          (record {
            lease = lease_of ttl (step on_release call w).0.claim;
            listening = λ h. open_streams h (step on_release call w).0;
          }),
        ))
        (step-ttl call w)
      ∙ ap
          (λ f.
            at_desk f
              (told on_release call w, lease_of w.0.ttl_seconds (step on_release call w).0.claim))
          (fun_ext (λ h. step-open_streams on_release h call w))
      ∙ ap (at_desk (λ h. count_after h call (open_streams h w.0))) (step-leased call w)

  -- From any state, and for any history of calls by any sessions at any readings of the clock, the
  -- callers are told what they would be told at a desk that lends one lease at a time, and the `Claims`
  -- shows the desk that is left. So the dict of streams, the instant at which a claim was taken and
  -- the callback make no difference to a caller.
  pub desk_run-run :
      (calls : List Call) (w : Claims × S)
      → (all_told on_release calls w, desk_of (run on_release calls w).0)
        ≡ desk_run w.0.ttl_seconds calls (desk_of w.0)
  unfolding run
  desk_run-run [] w = refl
  desk_run-run (call ∷ calls) w =
      let w' = step on_release call w in
      ap (λ (p : List Reply × Desk). (told on_release call w ∷ p.0, p.1)) (desk_run-run calls w')
      ∙ ap
          (λ ttl.
            let (replies, last) = desk_run ttl calls (desk_of w'.0) in
            (told on_release call w ∷ replies, last))
          (step-ttl call w)
      ∙ ap
          (λ (r : Reply × Desk).
            let (replies, last) = desk_run w.0.ttl_seconds calls r.1 in (r.0 ∷ replies, last))
          (step-desk_step call w)
