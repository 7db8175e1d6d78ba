-- ===== src/App/Awaits/Tests.antt =====
-- A power cycle and a change of hands in its pause, and the theorems at it.
use yession.Prelude.{
  length, suc, ℕ, ◌+◌, ◌≡◌, ◌≢◌, refl, false, none, some, List, [], ◌∷◌, ◌++◌, Text, codes, text_eq,
  All,
}
use yession.Dict.{Dict, get}
use yession.Words.{strip, lower}
use yession.Claims.{current, touch, expire, is_stale, open_streams}
use yession.Claims.Laws.{Holds}
use yession.Provider.{
  done, ok, World, said, refusal_words, refusal_of, is_power_action, session_holder, released,
  power, power_task, power_steps, power_call, refusal,
}
use yession.Provider.Power.{Act}
use yession.Introspect.{function, judge}
use yession.Exporter.Connection.{opens, close_console}
use yession.Exporter.Describe.{value}
use yession.Exporter.Drain.{timed_out}
use yession.Exporter.Tree
use yession.Exporter.Tree.{client, child, end, split_dots}
use yession.Exporter.Worker.{serve, loop}
use yession.Exporter.Commands.{Sdk, call_run, call_target, close_run}
use yession.App.Events.{happens}
use yession.App.Awaits.{
  Waiting, text_came, woke, Turn, signal, Loop, nth, begun, take_turn, turns, idle,
}
use yession.App.Awaits.Slots.{acts_of}
use yession.App.Awaits.Authorised.{Allowed, acts-Authorised}
use yession.App.Awaits.Handover.{off_act, pause_act, on_act, crossing, cycle_across_holders}
use yession.App.Awaits.Hardware.{
  Entry, tool_asks, closes_console, stops, commands, FromTools, Reached, serve-Reached,
}
use yession.App.Awaits.Course.{Began}
use yession.App.Awaits.Asked.{tools-asked, tools_end}
use yession.App.Awaits.Within.{asked_acts, Ends}

abbrev same : Text → Text
same t = t

abbrev quiet : ℕ → ℕ
quiet n = n

abbrev headers_of : Text → Dict Text
headers_of s = (codes "mcp-session-id", s) ∷ []

abbrev mine : Dict Text
mine = headers_of (codes "a1")

abbrev theirs : Dict Text
theirs = headers_of (codes "b2")

-- The session "a1" has the claim since 10, with a deadline of 60.
abbrev held_world : World ℕ
held_world = (
  record {
    ttl_seconds = 60;
    claim = some (record { holder = codes "a1"; taken_at = 10; last_seen = 10 });
    streaming = [];
  },
  record {
    console = record {
      console_name = codes "serial";
      token = none;
      holder = none;
      attached = false;
    };
    exporter = 0;
  },
)

abbrev change_of_hands : List (Turn ℕ)
change_of_hands =
    crossing mine theirs (codes " Cycle") (codes "None") (codes "ws://h") (codes "t1") 20 21 21 22
      22

abbrev in_pause : Loop ℕ ℕ
in_pause = turns same quiet (codes "host") change_of_hands (idle held_world)

abbrev after_pause : Loop ℕ ℕ
after_pause = take_turn same quiet (codes "host") (signal 0 woke) in_pause

a1_asks : session_holder mine ≢ []
unfolding session_holder get text_eq codes
a1_asks e = cc

b2_asks : session_holder theirs ≢ []
unfolding session_holder get text_eq codes
b2_asks e = cc

says_cycle : lower (strip (codes " Cycle")) ≡ codes "cycle"
unfolding lower strip codes
says_cycle = refl

a1_holds : Holds (session_holder mine) (expire (released quiet) 20 held_world).0
unfolding session_holder get text_eq codes expire is_stale open_streams
a1_holds = refl

cycle_across_holders_example :
    Holds (session_holder theirs) in_pause.world.0
    × (in_pause.acts ≡ (0, session_holder mine, off_act) ∷ (0, session_holder mine, pause_act) ∷ [])
    × (after_pause.acts
        ≡ (0, session_holder mine, off_act)
          ∷ (0, session_holder mine, pause_act)
          ∷ (0, session_holder mine, on_act)
          ∷ [])
    × (after_pause.world ≡ in_pause.world)
cycle_across_holders_example =
    cycle_across_holders same quiet (codes "host") mine theirs (codes " Cycle") (codes "None")
      (codes "ws://h") (codes "t1") 20 21 21 22 22 held_world a1_asks b2_asks says_cycle a1_holds

acts-Authorised_example :
    All (Allowed same quiet (codes "host") held_world change_of_hands) in_pause.acts
acts-Authorised_example = acts-Authorised same quiet (codes "host") held_world change_of_hands

abbrev whole_cycle : List (Turn ℕ)
whole_cycle = change_of_hands ++ signal 0 woke ∷ signal 0 (text_came (ok (codes "None"))) ∷ []

abbrev at_end : Loop ℕ ℕ
at_end = turns same quiet (codes "host") whole_cycle (idle held_world)

abbrev finished : Waiting ℕ
finished = record {
  session = codes "a1";
  task = done (record { text = codes "power cycle done"; meta = none });
}

cycle_runs : Unit {0}
unfolding turns take_turn begun power power_task power_steps power_call refusal refusal_words
    is_power_action session_holder refusal_of said current expire is_stale open_streams touch
    released happens get text_eq codes lower strip
cycle_runs = tt

cycle_ends : nth 0 at_end.tools ≡ some finished
unfolding cycle_runs
cycle_ends = refl

tools-asked_example :
    (b : Began same quiet (codes "host") held_world whole_cycle 0 finished (acts_of 0 at_end.acts))
    × (rest : List (Act ℕ)) × (asked_acts b.call b.args ≡ acts_of 0 at_end.acts ++ rest)
tools-asked_example =
    tools-asked same quiet (codes "host") held_world whole_cycle 0 finished cycle_ends

-- The worker takes the two calls in the other order, after the end of a claim.
abbrev queue : List (Entry ℕ)
queue =
    closes_console
    ∷ tool_asks (0, codes "a1", on_act)
    ∷ tool_asks (0, codes "a1", off_act)
    ∷ stops
    ∷ []

queue-FromTools : FromTools at_end.acts queue
unfolding cycle_runs
queue-FromTools = ((2, refl), ((0, refl), tt))

-- An exporter with a power client, whose objects are the number of calls.
abbrev board : Sdk ℕ ℕ
board = record {
  root = client [] (child (codes "power") (client (codes "power") end) end);
  members = λ c. record {
    members = (codes "on", function) ∷ (codes "off", function) ∷ [];
    of_metaclass = [];
  };
  type_text = λ c. codes "PowerClient";
  base_names = [];
  exports_console = false;
  opening = λ n. opens;
  invoke = λ target method args d. (ok (value (codes "None")), d + 1);
  send = λ k bytes d. (ok tt, d);
  decode = λ b. b;
  expect = λ k wait d. (timed_out, d);
}

two_calls : (serve (ok tt) 5 (commands board 9 queue)).left.1 ≡ 7
unfolding serve loop commands call_run call_target Tree.resolve Tree.find Tree.walk split_dots
    yession.Introspect.resolve judge text_eq codes close_run close_console
two_calls = refl

serve-Reached_example :
    Reached same quiet
      (codes "host")
      held_world
      board
      whole_cycle
      5
      (serve (ok tt) 5 (commands board 9 queue)).left.1
serve-Reached_example =
    serve-Reached same quiet (codes "host") held_world board whole_cycle 9 (ok tt) 5 queue
      queue-FromTools

tools_end_example :
    (b : Began same quiet (codes "host") held_world whole_cycle 0 finished (acts_of 0 at_end.acts))
    × (n : ℕ) × (length (acts_of 0 at_end.acts) + n ≡ suc (length (asked_acts b.call b.args)))
    × Ends n finished.task
tools_end_example = tools_end same quiet (codes "host") held_world whole_cycle 0 finished cycle_ends
