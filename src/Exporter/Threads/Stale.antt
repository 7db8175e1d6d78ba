-- ===== src/Exporter/Threads/Stale.antt =====
-- Who answers a command of `_do` (exporter.py, lines 119 to 159), after a connection has failed.
use yession.Prelude.{arith, ℕ, ◌≡◌, refl, some, [], ◌∷◌, Text, inl}
use yession.Exporter.Threads.{
  serving, refusing, unreachable, Threads, init, phase_of, finds_none, starts, connects, fails,
  hears, hears_failure, puts, takes, Reach, here, next, Reach-trans,
}

-- After one failed connection: the worker that failed, and the one that `_ensure` started after it.
-- The caller that waited for it is about to put its command.
abbrev pub recovered : Text → Threads
recovered e = record init { thread = some 1; workers = refusing e ∷ serving ∷ []; passing = 1 }

-- A failed connection outlives the next one that succeeds. From the start, whatever the failure said,
-- the provider can come to a state in which its thread is connected and serving; and from there the
-- command of the caller that heard of this connection can be answered, by the worker that failed
-- before, with the old failure.
pub stale_failure :
    (e : Text) (command : ℕ)
    → Reach init (recovered e)
      × (phase_of 1 (recovered e).workers ≡ some serving)
      × Reach
          (recovered e)
          (record (recovered e) { passing = 0; replies = (command, unreachable e) ∷ [] })
stale_failure e command = (
  Reach-trans failed_once connected,
  refl,
  next (next here (puts 0 command refl refl))
      (takes 0 command [] (refusing e) (unreachable e) refl refl refl refl),
)
  where
    failed_once : Reach init (record init { workers = refusing e ∷ [] })
    failed_once =
        next
          (next (next (next here (finds_none (inl refl) (omega arith) refl)) (starts 0 refl refl))
            (fails 0 e refl refl))
          (hears_failure 0 e [] refl refl refl)

    connected : Reach (record init { workers = refusing e ∷ [] }) (recovered e)
    connected =
        next
          (next (next (next here (finds_none (inl refl) (omega arith) refl)) (starts 0 refl refl))
            (connects 1 refl refl))
          (hears 0 [] refl refl refl)
