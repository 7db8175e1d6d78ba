-- ===== src/Claims/Callback.antt =====
-- The callback `on_release` (provider.py, lines 70, 121 and 144): how often it runs in a history of calls.
use yession.Prelude.{ℕ, suc, ◌+◌, ◌-◌, ◌≡◌, Option, none, some, List, [], ◌∷◌, arith}
use yession.Claims.{
  Claim, Claims, expire, current, acquire, release, touch, open_stream, close_stream,
}
use yession.Claims.History.{
  Call, expires, touches, reads_holder, acquires, releases, opens, closes, step, run,
}

abbrev pub is_held : Option Claim → ℕ
is_held none = 0
is_held (some k) = 1

-- The callback that counts its runs.
abbrev pub counted : ℕ → ℕ
counted n = suc n

-- How many claims the call makes: one, where an `acquire` finds the exporter free.
abbrev pub made : Call → Claims × ℕ → ℕ
made (acquires now later h) w = 1 - is_held (expire counted now w).0.claim
made _ w = 0

abbrev pub made_by : List Call → Claims × ℕ → ℕ
made_by [] w = 0
made_by (c ∷ cs) w = made c w + made_by cs (step counted c w)

expire-count :
    (now : ℕ) (w : Claims × ℕ)
    → (expire counted now w).1 + is_held (expire counted now w).0.claim ≡ w.1 + is_held w.0.claim
unfolding expire
expire-count now w = ground arith

step-count :
    (c : Call) (w : Claims × ℕ)
    → (step counted c w).1 + is_held (step counted c w).0.claim ≡ w.1 + is_held w.0.claim + made c w
unfolding step
step-count (expires now) w = omega (arith, expire-count now w)
step-count (touches now later h) w = unfold touch in ground (arith, expire-count now w)
step-count (reads_holder now) w = unfold current in ground (arith, expire-count now w)
step-count (acquires now later h) w = unfold acquire in ground (arith, expire-count now w)
step-count (releases now h) w = unfold release in ground (arith, expire-count now w)
step-count (opens h) w = unfold open_stream in omega arith
step-count (closes now h) w = unfold close_stream in ground arith

-- Over any history, the runs of the callback and the claim that is held, which counts as one, grow
-- together by the number of claims that the history makes. So the callback runs once for each claim
-- that ends, by `release` or by silence, and never for any other reason.
pub run-count :
    (cs : List Call) (w : Claims × ℕ)
    → (run counted cs w).1 + is_held (run counted cs w).0.claim
      ≡ w.1 + is_held w.0.claim + made_by cs w
unfolding run
run-count [] w = omega arith
run-count (c ∷ cs) w = omega (arith, run-count cs (step counted c w), step-count c w)
