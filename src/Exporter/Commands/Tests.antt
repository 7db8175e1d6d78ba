-- ===== src/Exporter/Commands/Tests.antt =====
-- An exporter with a power client and a console, and the theorems about the commands at it.
use yession.Prelude.{
  ◌==◌, ◌↔◌, if◌then◌else◌, ℕ, ◌≡◌, refl, true, some, List, [], ◌∷◌, ◌++◌, Text, codes, text_eq,
}
use yession.Words.{join}
use yession.Provider.{Result, ok, error, said, driver_task, methods, drivers, status_task}
use yession.Provider.Power.{listing, called, run}
use yession.Introspect.{Members, Class, function, property, offered, mem_text}
use yession.Introspect.Listing.{Distinct, names_of}
use yession.Exporter.Connection.{Connection, opens, entered, init, open_console}
use yession.Exporter.Describe.{Returned, value}
use yession.Exporter.Drain.{Heard, matched, timed_out, raises, bytes, text_of, joined, ends, speech}
use yession.Exporter.Tree
use yession.Exporter.Tree.{Client, client, child, end, find, IsPart, Leads, resolve_iff}
use yession.Exporter.Commands.{Sdk, call_run, driver_lines, console_read_run}
use yession.Exporter.Commands.Listed.{
  call_words, lines_of, reply_of, outcome_of, driver_call_listed, line_of, status_rows,
  status_listed,
}
use yession.Exporter.Commands.Consoles.{two_reads, read_is_lost}

abbrev power : Client
power = client (codes "power") end

abbrev power_members : Members
power_members = (codes "on", function) ∷ (codes "state", property) ∷ []

abbrev power_class : Class
power_class = record { members = power_members; of_metaclass = [] }

-- The objects of the SDK: what the console holds, and it gives out one chunk for each `expect`.
abbrev invoked : Client → Text → List ℕ → List Text → Result Returned × List Text
invoked target method args d = (ok (value (codes "done")), method ∷ d)

-- The empty text is a quiet while, and the code point 4 the end.
abbrev heard : ℕ → ℕ → List Text → Heard × List Text
heard k wait [] = (timed_out, [])
heard k wait ([] ∷ ts) = (timed_out, ts)
heard k wait ((a ∷ t) ∷ ts) =
    if a == 4 then (raises (codes "EOF"), ts) else (matched (bytes (a ∷ t)), ts)

abbrev board : Sdk (List Text) ℕ
board = record {
  root = client [] (child (codes "power") power end);
  members = λ c. power_class;
  type_text = λ c. codes "PowerClient";
  base_names = codes "call" ∷ [];
  exports_console = true;
  opening = λ n. opens;
  invoke = invoked;
  send = λ k bytes d. (ok tt, d);
  decode = λ b. b;
  expect = heard;
}

board_runs : Unit {0}
unfolding Tree.resolve Tree.find yession.Introspect.resolve mem_text text_eq codes offered call_run
    open_console
board_runs = tt

power_there : Tree.resolve board.root (codes "power") ≡ ok power
unfolding board_runs
power_there = refl

power_members-Distinct : Distinct (names_of power_members)
unfolding board_runs
power_members-Distinct = (refl, (refl, tt))

on_is_offered : mem_text (111 ∷ 110 ∷ []) (offered board.base_names power_class) ≡ true
unfolding board_runs
on_is_offered = refl

driver_call_listed_example :
    (run
        (lines_of board (codes "h") 9 (init, []))
        (reply_of board (codes "h") 9 (init, []))
        (driver_task (codes "power") [] (7 ∷ []))
        []
      ≡ (
        listing (methods (codes "power")) ∷ [],
        said (
            codes "power"
            ++ (codes " offers: " ++ join (codes ", ") (offered board.base_names power_class))),
      ))
    × (run
          (lines_of board (codes "h") 9 (init, []))
          (reply_of board (codes "h") 9 (init, []))
          (driver_task (codes "power") (111 ∷ 110 ∷ []) (7 ∷ []))
          []
        ≡ (
          called (codes "power") (111 ∷ 110 ∷ []) (7 ∷ []) ∷ [],
          said (
              call_words
                (codes "power")
                (111 ∷ 110 ∷ [])
                (outcome_of board (codes "h") 9 (init, []) power (111 ∷ 110 ∷ []) (7 ∷ []))),
        ))
    × ((call_run board 9 (codes "power") (111 ∷ 110 ∷ []) (7 ∷ []) (init, [])).1
        ≡ (init, (board.invoke power (111 ∷ 110 ∷ []) (7 ∷ []) []).1))
driver_call_listed_example =
    driver_call_listed board (codes "h") 9 (init, []) (codes "power") power 111 (110 ∷ []) (7 ∷ [])
      power_there power_members-Distinct on_is_offered

power_is_found : find (codes "power") (Tree.children_of board.root) ≡ some power
unfolding board_runs
power_is_found = refl

power_IsPart : IsPart (codes "power")
unfolding codes
power_IsPart = (refl, (refl, (refl, (refl, (refl, tt)))))

status_listed_example :
    (run
        (lines_of board (codes "h") 9 (init, []))
        (reply_of board (codes "h") 9 (init, []))
        (status_task (codes "h") (codes "you hold it"))
        []
      ≡ (
        listing drivers ∷ [],
        said (
            codes "exporter at "
            ++ (codes "h"
                ++ (codes ", "
                    ++ (codes "you hold it"
                        ++ (codes ".\nDrivers:"
                            ++ status_rows board
                                (codes "h")
                                9
                                (init, [])
                                (Tree.children_of board.root)))))),
      ))
    × (mem_text
          (line_of board (codes "h") 9 (init, []) (codes "power") power)
          (driver_lines board (Tree.children_of board.root))
        ≡ true)
    × (Tree.resolve board.root (codes "power") ≡ ok power)
    × (run
          (lines_of board (codes "h") 9 (init, []))
          (reply_of board (codes "h") 9 (init, []))
          (driver_task (codes "power") [] (7 ∷ []))
          []
        ≡ (
          listing (methods (codes "power")) ∷ [],
          said (
              codes "power"
              ++ (codes " offers: " ++ join (codes ", ") (offered board.base_names power_class))),
        ))
status_listed_example =
    status_listed board (codes "h") 9 (init, []) (codes "you hold it") (codes "power") power
      (7 ∷ []) power_is_found power_IsPart

abbrev opened_once : Connection
opened_once = record { console_cm = some 0; console = some 0; made = 1; trace = entered 0 ∷ [] }

console_opens : open_console (codes "serial") true board.opening init ≡ (ok 0, opened_once)
unfolding board_runs
console_opens = refl

-- A login prompt in two chunks, a quiet while, and a shell prompt.
abbrev spoken : List Text
spoken = (76 ∷ []) ∷ (58 ∷ []) ∷ [] ∷ (36 ∷ []) ∷ []

two_reads_example :
    (console_read_run board (codes "serial") 3 500 (init, spoken)
      ≡ some (ok (joined ((76 ∷ []) ∷ (58 ∷ []) ∷ [])), (opened_once, (36 ∷ []) ∷ [])))
    × (console_read_run board (codes "serial") 2 800 (opened_once, (36 ∷ []) ∷ [])
        ≡ some (ok (joined ((36 ∷ []) ∷ [])), (opened_once, [])))
unfolding text_of
two_reads_example =
    two_reads board (codes "serial") 500 800 0 init opened_once spoken ((36 ∷ []) ∷ []) []
      ((76 ∷ []) ∷ (58 ∷ []) ∷ []) ((36 ∷ []) ∷ []) console_opens
      (speech refl refl (speech refl refl (ends refl))) (speech refl refl (ends refl))

-- The last words of a console.
abbrev last_words : List Text
last_words = (98 ∷ 121 ∷ []) ∷ (101 ∷ []) ∷ (4 ∷ []) ∷ []

read_is_lost_example :
    console_read_run board (codes "serial") 3 500 (init, last_words)
    ≡ some (error (codes "EOF"), (opened_once, []))
unfolding text_of
read_is_lost_example =
    read_is_lost board (codes "serial") 500 0 init opened_once last_words []
      ((98 ∷ 121 ∷ []) ∷ (101 ∷ []) ∷ []) (codes "EOF") console_opens
      (speech refl refl (speech refl refl (ends refl)))

-- The power client, two steps down.
abbrev bench : Client
bench = client [] (child (98 ∷ []) (client [] (child (112 ∷ []) power end)) end)

resolve_iff_example :
    (Tree.resolve bench (join (46 ∷ []) ((98 ∷ []) ∷ (112 ∷ []) ∷ [])) ≡ ok power)
    ↔ Leads bench ((98 ∷ []) ∷ (112 ∷ []) ∷ []) power
resolve_iff_example =
    resolve_iff bench power (98 ∷ []) ((112 ∷ []) ∷ []) ((refl, tt), ((refl, tt), tt))
