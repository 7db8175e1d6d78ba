-- ===== src/Claims/Lease.antt =====
-- The claim as a lease: what the class `Claims` (provider.py, lines 60 to 145) promises, without the
-- fields that it keeps. A desk has at most one lease, which names its holder and the last instant at
-- which it is good, and it knows how many streams each session has open.
pub mod Refined
use yession.Prelude.{
  ℕ, ◌+◌, ◌-◌, ◌≡◌, refl, ap, sym, ◌∙◌, Bool, true, false, ◌&&◌, Option, none, some, List, [], ◌∷◌,
  Text, text_eq, text_eq_iff, arith, if◌then◌else◌, ltb, ◌==◌, inl, inr, Bool-cases,
}
use yession.Claims.{
  Claim, Claims, open_streams, open_stream, close_stream, see, is_stale, holder_of, drop_claim,
  expire, expire_claim, touch, current, take_claim, acquire, release_claim, release,
}
use yession.Claims.History.{
  Call, expires, touches, reads_holder, acquires, releases, opens, closes, step, run,
}
use yession.Claims.Streams.{count_after, step-open_streams}

pub record Desk : Type 0 where
  pub lease : Option (Text × ℕ)
  pub listening : Text → ℕ

-- What a caller is told: nothing, a holder, whether it has the lease and else who, or whether it had it.
pub data Reply : Type 0 where
  quiet : Reply
  names : Option Text → Reply
  granted : Bool → Option Text → Reply
  ended : Bool → Reply

-- A lease ends when it is past its last instant and its holder has no stream open.
abbrev pub lapsed : ℕ → (Text → ℕ) → Option (Text × ℕ) → Option (Text × ℕ)
lapsed now listening none = none
lapsed now listening (some (h, end)) =
    if listening h == 0 && ltb end now then none else some (h, end)

-- The holder's lease is good until then.
abbrev pub renewed : ℕ → Text → Option (Text × ℕ) → Option (Text × ℕ)
renewed end h none = none
renewed end h (some (j, old)) = if text_eq j h then some (j, end) else some (j, old)

abbrev pub named : Option (Text × ℕ) → Option Text
named none = none
named (some (h, end)) = some h

abbrev pub granted_to : ℕ → Text → Option (Text × ℕ) → Reply × Option (Text × ℕ)
granted_to end h none = (granted true none, some (h, end))
granted_to end h (some (j, old)) =
    if text_eq j h
    then (granted true none, some (j, old))
    else (granted false (some j), some (j, old))

abbrev pub given_back : Text → Option (Text × ℕ) → Reply × Option (Text × ℕ)
given_back h none = (ended false, none)
given_back h (some (j, end)) =
    if text_eq j h then (ended true, none) else (ended false, some (j, end))

-- A call at the desk of leases that last `ttl`: first the lease may lapse; then the call itself.
abbrev pub leased : ℕ → Call → Desk → Reply × Option (Text × ℕ)
leased ttl (expires now) d = (quiet, lapsed now d.listening d.lease)
leased ttl (touches now later h) d =
    (quiet, renewed (later + ttl) h (lapsed now d.listening d.lease))
leased ttl (reads_holder now) d = let l = lapsed now d.listening d.lease in (names (named l), l)
leased ttl (acquires now later h) d = granted_to (later + ttl) h (lapsed now d.listening d.lease)
leased ttl (releases now h) d = given_back h (lapsed now d.listening d.lease)
leased ttl (opens h) d = (quiet, d.lease)
leased ttl (closes now h) d =
    (quiet, if ltb 1 (d.listening h) then d.lease else renewed (now + ttl) h d.lease)

abbrev pub desk_step : ℕ → Call → Desk → Reply × Desk
desk_step ttl call d =
    let (reply, l) = leased ttl call d in
    (reply, record { lease = l; listening = λ h. count_after h call (d.listening h) })

abbrev pub desk_run : ℕ → List Call → Desk → List Reply × Desk
desk_run ttl [] d = ([], d)
desk_run ttl (call ∷ calls) d =
    let (reply, d') = desk_step ttl call d in
    let (replies, last) = desk_run ttl calls d' in (reply ∷ replies, last)

-- The desk that a `Claims` shows.
abbrev pub lease_of : ℕ → Option Claim → Option (Text × ℕ)
lease_of ttl none = none
lease_of ttl (some k) = some (k.holder, k.last_seen + ttl)

abbrev pub desk_of : Claims → Desk
desk_of c = record { lease = lease_of c.ttl_seconds c.claim; listening = λ h. open_streams h c }

module _ {ℓ} {S : Type ℓ} (on_release : S → S) where
  -- What a call on a `Claims` answers.
  abbrev pub told : Call → Claims × S → Reply
  told (reads_holder now) w = names (current on_release now w).0
  told (acquires now later h) w =
      let (mine, other) = (acquire on_release now later h w).0 in granted mine other
  told (releases now h) w = ended (release on_release now h w).0
  told _ w = quiet

  abbrev pub all_told : List Call → Claims × S → List Reply
  all_told [] w = []
  all_told (call ∷ calls) w = told call w ∷ all_told calls (step on_release call w)
