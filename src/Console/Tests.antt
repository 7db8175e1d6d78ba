-- ===== src/Console/Tests.antt =====
-- One conversation, and the theorems about the token and the socket at concrete inputs.
use yession.Prelude.{
  ℕ, ◌≡◌, refl, Bool, true, false, Option, none, some, List, [], ◌∷◌, ◌++◌, Text, codes, text_eq,
  ltb,
}
use yession.Console.{Console, attach}
use yession.Console.Token.{attaches, detaches, releases, acts, attach_once}
use yession.Console.Socket.{
  Json, string, object, member, end, receive, Frame, accept, data_frame, exited, close, Event,
  arrives, says, turn, serve_admitted, is_kill,
}
use yession.Console.Socket.Course.{typed, lively}
use yession.Console.Socket.Transcript.{transcript, serve-sent, serve-written}

-- `json.loads` on the two texts that the tests send.
abbrev reads : Text → Option Json
reads [] = none
reads (c ∷ s) = some (object (member (codes "type") (string (codes "kill")) end))

abbrev same : Text → Text
same t = t

-- Somebody types, the console answers, a kill ends the stream; what comes after it is lost.
abbrev events : List Event
events =
    arrives (receive (some (104 ∷ 105 ∷ [])) none) true
    ∷ says (104 ∷ 105 ∷ [])
    ∷ says []
    ∷ arrives (receive none (some (123 ∷ []))) true
    ∷ says (33 ∷ [])
    ∷ []

-- The transport takes the first two frames only.
abbrev flaky : ℕ → Bool
flaky n = ltb n 2

conversation :
    ((serve_admitted (λ n. true) same same reads events).link.sent
      ≡ accept ∷ data_frame (104 ∷ 105 ∷ []) ∷ exited 0 ∷ close 1000 ∷ [])
    × ((serve_admitted flaky same same reads events).link.sent
        ≡ accept ∷ data_frame (104 ∷ 105 ∷ []) ∷ [])
    × ((serve_admitted flaky same same reads events).written ≡ (104 ∷ 105 ∷ []) ∷ [])
unfolding serve_admitted turn is_kill text_eq codes
conversation = (refl, refl, refl)

serve-sent_example :
    (unsent : List Frame) × (transcript flaky same same reads events
      ≡ (serve_admitted flaky same same reads events).link.sent ++ unsent)
    × ((serve_admitted flaky same same reads events).link.gone ≡ false → unsent ≡ [])
serve-sent_example = serve-sent flaky same same reads events

serve-written_example :
    (serve_admitted flaky same same reads events).written ≡ typed same (lively reads events)
serve-written_example = serve-written flaky same same reads events

-- A console with a token out, and what it is after the token was used.
abbrev offered : Console
offered = record {
  console_name = 115 ∷ [];
  token = some (1 ∷ 2 ∷ []);
  holder = some (97 ∷ []);
  attached = false;
}

abbrev used : Console
used = record offered { token = none; attached = true }

attach_once_example :
    attach (1 ∷ 2 ∷ []) (acts (detaches ∷ attaches (1 ∷ 2 ∷ []) ∷ releases ∷ []) used) ≡ none
unfolding attach text_eq
attach_once_example =
    attach_once (1 ∷ 2 ∷ []) (1 ∷ 2 ∷ []) offered used
      (detaches ∷ attaches (1 ∷ 2 ∷ []) ∷ releases ∷ []) refl
