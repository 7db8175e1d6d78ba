-- ===== src/Exporter/Worker.antt =====
-- `Exporter._serve` (exporter.py, lines 91 to 127): the loop of one worker thread. That the SDK raises
-- from the `__exit__` of the client or of the console is left out.
use yession.Prelude.{◌≡◌, refl, Option, none, some, List, [], ◌∷◌, map, Text, ap, ◌⊎◌, inl, inr}
use yession.Provider.{Result, ok, error}
use yession.Exporter.Connection.{Connection, init, close_console}
use yession.Exporter.Connection.Balance.{close_console-shut}

-- What the thread of a worker touches: the connection, and the SDK's objects, of any type.
abbrev pub Seen : Type 0 → Type 0
Seen D = Connection × D

-- What one worker does: the message to `_ready`, the messages to the reply queues of the commands that
-- it took, in order, and what it leaves.
pub record Served (D R : Type 0) : Type 0 where
  pub ready : Result (Unit {0})
  pub replies : List (Result R)
  pub left : Seen D

-- A command is `command.run`: what it returns or raises, and what it leaves.
abbrev pub Run : Type 0 → Type 0 → Type 0
Run D R = Seen D → Result R × Seen D

module _ {D R : Type 0} where
  -- The loop of a connected worker over what `_commands.get()` returns, `none` being the sentinel; a
  -- list without one is read as if the sentinel came next. An exception of a command is its reply.
  unfoldable pub loop : List (Option (Run D R)) → Seen D → List (Result R) × Seen D
  loop [] c = ([], c)
  loop (none ∷ cmds) c = ([], c)
  loop (some run ∷ cmds) c =
      let (reply, c') = run c in let (replies, left) = loop cmds c' in (reply ∷ replies, left)

  -- The loop behind a connection that failed.
  unfoldable pub refuse : Text → List (Option (Run D R)) → List (Result R)
  refuse e [] = []
  refuse e (none ∷ cmds) = []
  refuse e (some run ∷ cmds) = error e ∷ refuse e cmds

  -- `connects` is what `with env() as client` makes of the attempt to connect.
  unfoldable pub serve : Result (Unit {0}) → D → List (Option (Run D R)) → Served D R
  unfolding loop refuse
  serve (error e) d cmds = record { ready = error e; replies = refuse e cmds; left = (init, d) }
  serve (ok u) d cmds =
      let (replies, left) = loop cmds (init, d) in
      record { ready = ok tt; replies = replies; left = (close_console left.0, left.1) }

  -- The commands before the sentinel.
  abbrev pub taken : List (Option (Run D R)) → List (Run D R)
  taken [] = []
  taken (none ∷ cmds) = []
  taken (some run ∷ cmds) = run ∷ taken cmds

  -- The connection on which each command runs is the one that the command before it left.
  abbrev pub chained : List (Run D R) → Seen D → List (Result R)
  chained [] c = []
  chained (run ∷ runs) c = (run c).0 ∷ chained runs (run c).1

  loop-chained :
      (cmds : List (Option (Run D R))) (c : Seen D) → (loop cmds c).0 ≡ chained (taken cmds) c
  unfolding loop
  loop-chained [] c = refl
  loop-chained (none ∷ cmds) c = refl
  loop-chained (some run ∷ cmds) c = ap (λ rs. (run c).0 ∷ rs) (loop-chained cmds (run c).1)

  refuse-map :
      (e : Text) (cmds : List (Option (Run D R)))
      → refuse e cmds ≡ map (λ run. error e) (taken cmds)
  unfolding refuse
  refuse-map e [] = refl
  refuse-map e (none ∷ cmds) = refl
  refuse-map e (some run ∷ cmds) = ap (λ rs. error e ∷ rs) (refuse-map e cmds)

  -- A worker answers every command that it takes before the sentinel, once and in order. If it
  -- connected, each answer is what the command returned or raised on the connection that the one
  -- before it left, and the console is closed when it ends; if not, each answer is the failure.
  pub serve-replies :
      (connects : Result (Unit {0})) (d : D) (cmds : List (Option (Run D R)))
      → ((connects ≡ ok tt)
          × ((serve connects d cmds).replies ≡ chained (taken cmds) (init, d))
          × ((serve connects d cmds).left.0.console ≡ none))
        ⊎ ((e : Text) × (connects ≡ error e)
            × ((serve connects d cmds).replies ≡ map (λ run. error e) (taken cmds)))
  unfolding serve
  serve-replies (ok u) d cmds =
      inl (refl, loop-chained cmds (init, d), close_console-shut (loop cmds (init, d)).1.0)
  serve-replies (error e) d cmds = inr (e, refl, refuse-map e cmds)
