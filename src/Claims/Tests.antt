-- ===== src/Claims/Tests.antt =====
-- The scenarios of examples/jumpstarter/tests/test_claims.py, and the theorems at them.
use yession.Prelude.{
  ◌+◌, ◌≡◌, ◌≢◌, refl, true, false, none, some, [], ◌∷◌, List, arith, Text, codes, text_eq,
}
use yession.Dict.{get, put, pop}
use yession.Claims.{
  Claim, Claims, init, open_streams, open_stream, close_stream, is_stale, see, expire, touch,
  current, acquire, release,
}
use yession.Claims.Callback.{counted, is_held, made_by, run-count}
use yession.Claims.Lease.{quiet, granted, ended, desk_of, desk_run, all_told}
use yession.Claims.Lease.Refined.{desk_run-run}
use yession.Claims.Reaper.{methods-expire}
use yession.Claims.History.{Call, expires, touches, acquires, releases, opens, closes, step, run}
use yession.Claims.History.Keeping.{IsListening, run-IsListening, HeldUntil, run-HeldUntil}

abbrev alice : Text
alice = codes "alice"

abbrev bob : Text
bob = codes "bob"

-- Alice acquired at 1000, with a deadline of 60; the number counts the releases.
abbrev alices_claim : Claim
alices_claim = record { holder = alice; taken_at = 1000; last_seen = 1000 }

abbrev held : Claims
held = record { ttl_seconds = 60; claim = some alices_claim; streaming = [] }

abbrev listening : Claims
listening = record held { streaming = (alice, 1) ∷ [] }

provider_runs : Unit {0}
unfolding run step expire touch current acquire release open_stream close_stream init is_stale see
    codes text_eq get put pop open_streams
provider_runs = tt

one_holder_at_a_time :
    ((acquire counted 1000 1000 alice (init 60, 0)).1 ≡ (held, 0))
    × ((acquire counted 1000 1000 bob (held, 0)).0 ≡ (false, some alice))
    × ((acquire counted 1000 1000 alice (held, 0)).0 ≡ (true, none))
unfolding provider_runs
one_holder_at_a_time = (refl, refl, refl)

silence_releases :
    ((current counted 1060 (held, 0)).0 ≡ some alice)
    × (current counted 1061 (held, 0) ≡ (none, (record held { claim = none }, 1)))
    × ((current counted 1600 (listening, 0)).0 ≡ some alice)
unfolding provider_runs
silence_releases = (refl, refl, refl)

stream_leaves_a_deadline :
    (run counted (opens alice ∷ closes 1600 alice ∷ expires 1660 ∷ []) (held, 0)).0.claim
    ≡ some (record alices_claim { last_seen = 1600 })
unfolding provider_runs
stream_leaves_a_deadline = refl

alice_is_not_bob : bob ≢ alice
unfolding codes
alice_is_not_bob e = cc

abbrev history : List Call
history =
    acquires 1000 1000 alice
    ∷ touches 1059 1059 alice
    ∷ acquires 1100 1100 bob
    ∷ expires 1120
    ∷ acquires 1121 1121 bob
    ∷ releases 1130 bob
    ∷ []

run-count_example :
    (run counted history (init 60, 0)).1 + is_held (run counted history (init 60, 0)).0.claim
    ≡ 0 + is_held (init 60).claim + made_by history (init 60, 0)
run-count_example = run-count history (init 60, 0)

abbrev streams : List Call
streams = opens alice ∷ opens bob ∷ opens alice ∷ closes 1700 bob ∷ closes 1800 alice ∷ []

run-IsListening_example :
    IsListening alice
      (run counted
        (expires 9000 ∷ acquires 9001 9001 bob ∷ releases 9002 bob ∷ [])
        (listening, 0)).0
unfolding open_streams get codes text_eq
run-IsListening_example =
    run-IsListening counted alice (expires 9000 ∷ acquires 9001 9001 bob ∷ releases 9002 bob ∷ [])
      (listening, 0) (tt, (tt, (alice_is_not_bob, tt)))
      (record { holds = refl; listens = omega arith })

run-HeldUntil_example :
    HeldUntil 1060 alice
      (run counted
        (acquires 1030 1030 bob ∷ touches 1050 1050 alice ∷ expires 1060 ∷ [])
        (held, 0)).0
run-HeldUntil_example =
    run-HeldUntil counted 1060 alice
      (acquires 1030 1030 bob ∷ touches 1050 1050 alice ∷ expires 1060 ∷ []) (held, 0)
      (omega arith, ((omega arith, omega arith), (omega arith, tt)))
      (alices_claim, refl, refl, omega arith)

methods-expire_example :
    (acquire counted 1100 1101 bob (expire counted 1061 (held, 0))
      ≡ acquire counted 1100 1101 bob (held, 0))
    × (release counted 1100 bob (expire counted 1061 (held, 0))
        ≡ release counted 1100 bob (held, 0))
    × (current counted 1100 (expire counted 1061 (held, 0)) ≡ current counted 1100 (held, 0))
    × (touch counted 1100 1101 bob (expire counted 1061 (held, 0))
        ≡ touch counted 1100 1101 bob (held, 0))
methods-expire_example = methods-expire counted 1061 1100 1101 bob (held, 0) (omega arith)

-- What is told in the history above: to alice that she has the claim, then to bob that she has it, then
-- to bob that he has it, and that he has given it back.
desk_tells :
    (desk_run 60 history (desk_of (init 60))).0
    ≡ granted true none
      ∷ quiet
      ∷ granted false (some alice)
      ∷ quiet
      ∷ granted true none
      ∷ ended true
      ∷ []
unfolding provider_runs
desk_tells = refl

desk_run-run_example :
    (all_told counted history (init 60, 0), desk_of (run counted history (init 60, 0)).0)
    ≡ desk_run 60 history (desk_of (init 60))
unfolding init
desk_run-run_example = desk_run-run counted history (init 60, 0)
