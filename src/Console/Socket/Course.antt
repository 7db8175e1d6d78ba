-- ===== src/Console/Socket/Course.antt =====
-- The events of a conversation up to the one that ends the stream (stream.py, lines 140 to 185), the
-- frames that they call for, and the keystrokes among them, without the state machine.
use yession.Prelude.{ℕ, Bool, true, false, Option, none, some, List, [], ◌∷◌, Text, if◌then◌else◌}
use yession.Console.Socket.{
  Json, disconnect, receive, Frame, data_frame, failed, Event, arrives, says, breaks, read_raises,
  write_raises, is_kill,
}

-- The events that end a stream by an exception: a write that raises, or a read that does, while there
-- are reads.
abbrev pub raises : Bool → Event → Bool
raises reading read_raises = reading
raises reading (write_raises d) = true
raises reading _ = false

-- After a read that failed there are no reads.
abbrev pub still_reading : Bool → Event → Bool
still_reading reading (breaks reason) = false
still_reading reading _ = reading

module _ (loads : Text → Option Json) where
  -- The events that end a stream: the client goes, the exporter refuses a write, a kill, or an exception.
  abbrev pub ends : Bool → Event → Bool
  ends reading (arrives disconnect taken) = true
  ends reading (arrives (receive (some d) t) false) = true
  ends reading (arrives (receive none (some (c ∷ t))) taken) = is_kill (loads (c ∷ t))
  ends reading e = raises reading e

  -- The events before the first of those.
  abbrev pub lively_from : Bool → List Event → List Event
  lively_from reading [] = []
  lively_from reading (e ∷ es) =
      let rest = lively_from (still_reading reading e) es in if ends reading e then [] else e ∷ rest

  abbrev pub lively : List Event → List Event
  lively es = lively_from true es

  -- Whether it is an exception that ends the stream.
  abbrev pub raises_from : Bool → List Event → Bool
  raises_from reading [] = false
  raises_from reading (e ∷ es) =
      let rest = raises_from (still_reading reading e) es in
      if ends reading e then raises reading e else rest

-- Each text that the console says is a frame, until a read of it fails: that is the last frame.
abbrev pub heard : (Text → List ℕ) → List Event → List Frame
heard encode [] = []
heard encode (says [] ∷ es) = heard encode es
heard encode (says (c ∷ t) ∷ es) = data_frame (encode (c ∷ t)) ∷ heard encode es
heard encode (breaks reason ∷ es) = failed reason ∷ []
heard encode (arrives m taken ∷ es) = heard encode es
heard encode (read_raises ∷ es) = heard encode es
heard encode (write_raises d ∷ es) = heard encode es

-- Each data frame that the exporter takes is a write to the console.
abbrev pub typed : (List ℕ → Text) → List Event → List Text
typed decode [] = []
typed decode (arrives (receive (some d) t) true ∷ es) = decode d ∷ typed decode es
typed decode (_ ∷ es) = typed decode es
