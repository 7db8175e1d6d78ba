-- ===== src/Claims.antt =====
-- The class `Claims` of examples/jumpstarter/src/jumpstarter_provider/provider.py: who holds the
-- exporter, and for how much longer.
--
-- Time is a number of clock ticks. A method takes, as arguments, the readings of `self._now()`
-- in the order in which its code makes them. The rest of the process, which the callback
-- `on_release` changes, is the type `S`; a method maps the pair of both to a new pair.
pub mod Laws
pub mod Callback
pub mod Streams
pub mod History
pub mod Reaper
pub mod Lease
mod Tests
use yession.Prelude.{
  ℕ, suc, ◌+◌, ◌-◌, Bool, true, false, not, Option, none, some, ltb, ◌==◌, if◌then◌else◌, Text,
  text_eq, [],
}
use yession.Dict.{Dict, get, put, pop}

pub record Claim : Type 0 where
  pub holder : Text
  pub taken_at : ℕ
  pub last_seen : ℕ

pub record Claims : Type 0 where
  pub ttl_seconds : ℕ
  pub claim : Option Claim
  pub streaming : Dict ℕ

-- `Claims.__init__`.
unfoldable pub init : ℕ → Claims
init ttl = record { ttl_seconds = ttl; claim = none; streaming = [] }

abbrev pub or_zero : Option ℕ → ℕ
or_zero none = 0
or_zero (some n) = n

-- `self._streaming.get(holder, 0)`; its truth value is that of `self._streaming.get(holder)`.
unfoldable pub open_streams : Text → Claims → ℕ
open_streams holder c = or_zero (get holder c.streaming)

-- The entry half of the context manager `streaming`.
unfoldable pub open_stream : Text → Claims → Claims
open_stream holder c = record c { streaming = put holder (open_streams holder c + 1) c.streaming }

-- `claim.last_seen = now`, if there is a claim and `holder` has it.
unfoldable pub see : ℕ → Text → Option Claim → Option Claim
see now holder none = none
see now holder (some claim) =
    if text_eq claim.holder holder then some (record claim { last_seen = now }) else some claim

-- The `finally` half of the context manager `streaming`. `remaining > 0` is `1 < count`.
unfoldable pub close_stream : ℕ → Text → Claims → Claims
unfolding see
close_stream now holder c =
    if ltb 1 (open_streams holder c)
    then record c { streaming = put holder (open_streams holder c - 1) c.streaming }
    else record c { streaming = pop holder c.streaming; claim = see now holder c.claim }

-- `self._now() - claim.last_seen > self.ttl_seconds`, for a session with no stream open.
unfoldable pub is_stale : ℕ → Claims → Claim → Bool
is_stale now c claim =
    if open_streams claim.holder c == 0 then ltb c.ttl_seconds (now - claim.last_seen) else false

abbrev pub holder_of : Option Claim → Option Text
holder_of none = none
holder_of (some claim) = some claim.holder

module _ {ℓ} {S : Type ℓ} (on_release : S → S) where
  -- Both writes that end a claim: `self._claim = None; self._on_release()`.
  unfoldable pub drop_claim : Claims × S → Claims × S
  drop_claim (c, s) = (record c { claim = none }, on_release s)

  unfoldable pub expire_claim : ℕ → Option Claim → Claims × S → Claims × S
  unfolding drop_claim
  expire_claim now none w = w
  expire_claim now (some claim) w = if is_stale now w.0 claim then drop_claim w else w

  unfoldable pub expire : ℕ → Claims × S → Claims × S
  unfolding expire_claim
  expire now w = expire_claim now w.0.claim w

  -- The second reading is the one that is written to `last_seen`.
  unfoldable pub touch : ℕ → ℕ → Text → Claims × S → Claims × S
  unfolding expire see
  touch now later holder w =
      let (c, s) = expire now w in (record c { claim = see later holder c.claim }, s)

  -- The property `holder`.
  unfoldable pub current : ℕ → Claims × S → Option Text × (Claims × S)
  unfolding expire
  current now w = let w' = expire now w in (holder_of w'.0.claim, w')

  unfoldable pub take_claim :
      ℕ → Text → Option Claim → Claims × S → (Bool × Option Text) × (Claims × S)
  take_claim later holder none (c, s) = (
    (true, none),
    (
      record c { claim = some (record { holder = holder; taken_at = later; last_seen = later }) },
      s,
    ),
  )
  take_claim later holder (some claim) w =
      if text_eq claim.holder holder then ((true, none), w) else ((false, some claim.holder), w)

  -- The second reading is the one that a new claim is stamped with.
  unfoldable pub acquire : ℕ → ℕ → Text → Claims × S → (Bool × Option Text) × (Claims × S)
  unfolding expire take_claim
  acquire now later holder w = let w' = expire now w in take_claim later holder w'.0.claim w'

  unfoldable pub release_claim : Text → Option Claim → Claims × S → Bool × (Claims × S)
  unfolding drop_claim
  release_claim holder none w = (false, w)
  release_claim holder (some claim) w =
      if text_eq claim.holder holder then (true, drop_claim w) else (false, w)

  unfoldable pub release : ℕ → Text → Claims × S → Bool × (Claims × S)
  unfolding expire release_claim
  release now holder w = let w' = expire now w in release_claim holder w'.0.claim w'
