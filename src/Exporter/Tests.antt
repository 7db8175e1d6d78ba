-- ===== src/Exporter/Tests.antt =====
-- The exporter's parts on small inputs, and the theorems at them.
use yession.Prelude.{
  arith, inl, ℕ, ◌≡◌, ◌⊎◌, refl, true, Option, none, some, List, [], ◌∷◌, map, Text, codes,
}
use yession.Provider.{Result, ok, error}
use yession.Exporter.Connection.{Opening, opens, init, close_console}
use yession.Exporter.Connection.Balance.{Balanced, uses, closes, use_all, closed-Balanced}
use yession.Exporter.Worker.{Run, serve, taken, chained, serve-replies}
use yession.Exporter.Threads
use yession.Exporter.Threads.{
  Phase, connecting, serving, Threads, Reach, here, next, count, finds_none, starts, connects, puts,
  takes, hears, refusing, served, unreachable, phase_of,
}
use yession.Exporter.Threads.Mixed.{slow_first, message_of_another}
use yession.Exporter.Threads.Stale.{recovered, stale_failure}
use yession.Exporter.Threads.Calm.{HasOneOwner, calm-HasOneOwner}
use yession.Exporter.Describe.{Stream, ends, yields}

abbrev always_opens : ℕ → Opening
always_opens n = opens

closed-Balanced_example :
    Balanced
      (close_console
        (use_all (codes "serial") true always_opens (uses ∷ closes ∷ uses ∷ []) init)).trace
      none
      (close_console
        (use_all (codes "serial") true always_opens (uses ∷ closes ∷ uses ∷ []) init)).made
closed-Balanced_example =
    closed-Balanced (codes "serial") true always_opens (uses ∷ closes ∷ uses ∷ []) (λ n e p. cc)

abbrev commands : List (Option (Run ℕ ℕ))
commands = some (λ c. (ok 1, c)) ∷ some (λ c. (error (codes "no"), c)) ∷ none ∷ []

abbrev down : Result (Unit {0})
down = error (codes "down")

serve-replies_example :
    ((down ≡ ok tt)
      × ((serve down 5 commands).replies ≡ chained (taken commands) (init, 5))
      × ((serve down 5 commands).left.0.console ≡ none))
    ⊎ ((e : Text) × (down ≡ error e)
        × ((serve down 5 commands).replies ≡ map (λ run. error e) (taken commands)))
serve-replies_example = serve-replies down 5 commands

stale_failure_example :
    Reach Threads.init (recovered (codes "refused"))
    × (phase_of 1 (recovered (codes "refused")).workers ≡ some serving)
    × Reach (recovered (codes "refused")) (record (recovered (codes "refused")) {
      passing = 0;
      replies = (7, unreachable (codes "refused")) ∷ [];
    })
stale_failure_example = stale_failure (codes "refused") 7

message_of_another_example :
    Reach Threads.init (slow_first 7)
    × Reach
        (slow_first 7)
        (record (slow_first 7) { workers = serving ∷ connecting ∷ []; waiting = 0; passing = 1 })
    × Reach (slow_first 7) (record (slow_first 7) {
      thread = none;
      workers = refusing (codes "refused") ∷ connecting ∷ [];
      waiting = 0;
    })
message_of_another_example = message_of_another (codes "refused") 7

abbrev after_one : Threads
after_one = record Threads.init {
  thread = some 0;
  workers = serving ∷ [];
  replies = (7, served) ∷ [];
}

abbrev calm_run : Reach Threads.init after_one
calm_run =
    next
      (next
        (next
          (next (next (next here (finds_none (inl refl) (omega arith) refl)) (starts 0 refl refl))
            (connects 0 refl refl))
          (hears 0 [] refl refl refl))
        (puts 0 7 refl refl))
      (takes 0 7 [] serving served refl refl refl refl)

calm-HasOneOwner_example : HasOneOwner after_one
calm-HasOneOwner_example = calm-HasOneOwner calm_run ((((((tt, refl), tt), tt), tt), tt), tt)

abbrev readings : Stream
readings = yields (codes "1V") 100 (yields (codes "2V") 200 ends)

abbrev ten : List (Text × ℕ)
ten =
    (codes "a", 1)
    ∷ (codes "b", 2)
    ∷ (codes "c", 3)
    ∷ (codes "d", 4)
    ∷ (codes "e", 5)
    ∷ (codes "f", 6)
    ∷ (codes "g", 7)
    ∷ (codes "h", 8)
    ∷ (codes "i", 9)
    ∷ (codes "j", 10)
    ∷ []
