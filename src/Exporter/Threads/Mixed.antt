-- ===== src/Exporter/Threads/Mixed.antt =====
-- Whose message a caller of `_ensure` hears (exporter.py, lines 107, 120, 134 and 144 to 156): every worker
-- puts its message into the queue that `_ready` is when the message comes.
use yession.Prelude.{arith, ℕ, refl, none, some, [], ◌∷◌, Text, inl}
use yession.Exporter.Threads.{
  connecting, refusing, serving, Threads, init, finds_none, starts, passes, gives_up, puts,
  connects, fails, hears, hears_failure, drops, Reach, here, next,
}

-- A caller has given up on the slow worker 0, another one has put a command and dropped the thread when
-- no reply came, and a third one waits for the worker 1.
abbrev pub slow_first : ℕ → Threads
slow_first command = record init {
  thread = some 1;
  workers = connecting ∷ connecting ∷ [];
  commands = some command ∷ [];
  waiting = 1;
}

-- A caller can hear the message of a worker that it did not start. From the start the provider can
-- come to a state in which a slow worker was dropped and a caller waits for the next one. From there
-- that caller can go on as connected while its own worker still connects; and, whatever the slow
-- worker's failure says, it can raise that failure and forget its own worker.
pub message_of_another :
    (e : Text) (command : ℕ)
    → Reach init (slow_first command)
      × Reach (slow_first command) (record (slow_first command) {
        workers = serving ∷ connecting ∷ [];
        waiting = 0;
        passing = 1;
      })
      × Reach (slow_first command) (record (slow_first command) {
        thread = none;
        workers = refusing e ∷ connecting ∷ [];
        waiting = 0;
      })
message_of_another e command = (
  next
      (next
        (next
          (next
            (next
              (next
                (next (next here (finds_none (inl refl) (omega arith) refl)) (starts 0 refl refl))
                (gives_up 0 refl refl))
              (passes 0 connecting (refl, refl, λ p. cc) (omega arith) refl))
            (puts 0 command refl refl))
          (drops refl))
        (finds_none (inl refl) (omega arith) refl))
      (starts 0 refl refl),
  next (next here (connects 0 refl refl)) (hears 0 [] refl refl refl),
  next (next here (fails 0 e refl refl)) (hears_failure 0 e [] refl refl refl),
)
