-- ===== src/Console/Socket.antt =====
-- `Console.serve`, `_drain` and `_pump` of
-- examples/jumpstarter/src/jumpstarter_provider/stream.py: one attached socket.
--
-- What happens to a socket is a list of events, in the order in which the event loop runs them.
-- The text codec and the JSON reader are parameters, and so is `up`, which says of each attempt to
-- send whether the transport took the frame.
pub mod Course
pub mod Transcript
use yession.Prelude.{
  ℕ, suc, ◌+◌, Bool, true, false, Option, none, some, List, [], ◌∷◌, ◌++◌, Text, codes, text_eq,
  if◌then◌else◌,
}

-- The values that `json.loads` makes, as far as `_pump` tells them apart.
mutual
  pub data Json : Type 0 where
    string : Text → Json
    object : Members → Json
    other : Json

  pub data Members : Type 0 where
    end : Members
    member : Text → Json → Members → Members

-- An ASGI message that the socket receives. A frame has a `bytes` or a `text` entry, or neither.
pub data Message : Type 0 where
  connect : Message
  disconnect : Message
  receive : Option (List ℕ) → Option Text → Message
  unknown : Message

-- An ASGI message that is sent. The text frames are kept as the control that they carry.
pub data Frame : Type 0 where
  accept : Frame
  data_frame : List ℕ → Frame
  exited : ℕ → Frame
  failed : Text → Frame
  close : ℕ → Frame

-- What happens while a stream is attached: a message arrives, with the word whether the exporter
-- takes the write that it may ask for; or a read of the console comes back, with text or an error. Also,
-- a read, or the write of a data frame that arrived, may raise what is no `ExporterError`, as the time-out
-- of `_ensure` is.
pub data Event : Type 0 where
  arrives : Message → Bool → Event
  says : Text → Event
  breaks : Text → Event
  read_raises : Event
  write_raises : List ℕ → Event

-- The transport: how many sends were tried, the variable `gone`, and what was taken.
pub record Link : Type 0 where
  pub attempts : ℕ
  pub gone : Bool
  pub sent : List Frame

-- One conversation: whether `_drain` and `_pump` are running, what went to the console, and whether an
-- exception goes on out of `serve`.
pub record Session : Type 0 where
  pub link : Link
  pub draining : Bool
  pub pumping : Bool
  pub written : List Text
  pub raised : Bool

-- `control.get("type")`: of equal keys, a dict keeps the last.
unfoldable pub type_of : Members → Option Json → Option Json
type_of end found = found
type_of (member k v ms) found = type_of ms (if text_eq k (codes "type") then some v else found)

abbrev is_word : Text → Option Json → Bool
is_word w (some (string s)) = text_eq s w
is_word w _ = false

-- `isinstance(control, dict) and control.get("type") == "kill"`; `none` is a `ValueError`.
unfoldable pub is_kill : Option Json → Bool
unfolding type_of
is_kill (some (object ms)) = is_word (codes "kill") (type_of ms none)
is_kill _ = false

-- The state of `serve` after an admitted attach; the accept has been sent, as the first attempt.
abbrev pub admitted : Session
admitted = record {
  link = record { attempts = 1; gone = false; sent = accept ∷ [] };
  draining = true;
  pumping = true;
  written = [];
  raised = false;
}

module _ (up : ℕ → Bool) (encode : Text → List ℕ) (decode : List ℕ → Text)
    (loads : Text → Option Json) where
  -- `out`: every send of an admitted stream.
  unfoldable pub out : Frame → Link → Link
  out f l =
      if l.gone
      then l
      else if up l.attempts
      then record l { attempts = l.attempts + 1; sent = l.sent ++ f ∷ [] }
      else record l { attempts = l.attempts + 1; gone = true }

  -- One turn of the loop of `_pump`.
  unfoldable pub pump : Message → Bool → Session → Session
  pump disconnect taken s = record s { pumping = false }
  pump connect taken s = s
  pump unknown taken s = s
  pump (receive (some d) t) true s = record s { written = s.written ++ decode d ∷ [] }
  pump (receive (some d) t) false s = record s { pumping = false }
  pump (receive none none) taken s = s
  pump (receive none (some [])) taken s = s
  pump (receive none (some (c ∷ t))) taken s =
      if is_kill (loads (c ∷ t)) then record s { pumping = false } else s

  -- One turn of the loop of `_drain`.
  unfoldable pub drain_chunk : Text → Session → Session
  unfolding out
  drain_chunk [] s = s
  drain_chunk (c ∷ t) s =
      if s.draining then record s { link = out (data_frame (encode (c ∷ t))) s.link } else s

  unfoldable pub drain_error : Text → Session → Session
  unfolding out
  drain_error reason s =
      if s.draining then record s { link = out (failed reason) s.link; draining = false } else s

  -- The exception of a task cancels the other and leaves the group.
  unfoldable pub read_raised : Session → Session
  read_raised s = if s.draining then record s { pumping = false; raised = true } else s

  unfoldable pub turn : Event → Session → Session
  unfolding pump drain_chunk drain_error read_raised
  turn (arrives m taken) s = pump m taken s
  turn (says t) s = drain_chunk t s
  turn (breaks reason) s = drain_error reason s
  turn read_raises s = read_raised s
  turn (write_raises d) s = record s { pumping = false; raised = true }

  -- The task group: the end of `_pump` cancels `_drain`, and later events find nobody.
  unfoldable pub converse : List Event → Session → Session
  converse [] s = s
  converse (e ∷ es) s = let rest = converse es (turn e s) in if s.pumping then rest else s

  -- What `serve` sends after the task group, unless this raised.
  unfoldable pub farewell : Session → Session
  unfolding out
  farewell s = if s.raised then s else record s { link = out (close 1000) (out (exited 0) s.link) }

  -- `serve` from an admitted attach to its end.
  unfoldable pub serve_admitted : List Event → Session
  unfolding converse farewell
  serve_admitted es = farewell (converse es admitted)

-- What a refused client is sent. These sends do not go through `out`.
abbrev pub refusal_frames : List Frame
refusal_frames = accept ∷ exited 1 ∷ close 1000 ∷ []
