-- ===== src/App.antt =====
-- `Provider.app` and `_session_of` of
-- examples/jumpstarter/src/jumpstarter_provider/provider.py (lines 312 to 356): what the wrapper
-- around the MCP server does with a request before it passes it on, and when a stream of it ends.
pub mod Routes
pub mod Events
pub mod Keeps
pub mod Ownership
pub mod Escape
pub mod Delivery
pub mod Awaits
mod Tests
use yession.Prelude.{
  ℕ, zero, suc, Bool, true, false, ◌&&◌, Option, none, some, List, [], ◌∷◌, length, drop,
  if◌then◌else◌, ◌==◌, Text, codes, text_eq,
}
use yession.Claims
use yession.Claims.{Claims, open_stream, close_stream}
use yession.Provider.{World, released}

pub data Kind : Type 0 where
  http websocket lifespan : Kind

-- An ASGI scope. Header names and values are bytes.
pub record Scope : Type 0 where
  pub kind : Kind
  pub headers : List (List ℕ × List ℕ)
  pub method : Option Text
  pub path : Text

-- ATTACH_PATH
unfoldable pub attach_path : Text
attach_path = codes "/attach/"

unfoldable pub starts_with : Text → Text → Bool
starts_with [] s = true
starts_with (c ∷ p) [] = false
starts_with (c ∷ p) (d ∷ s) = c == d && starts_with p s

abbrev pub is_word : Text → Option Text → Bool
is_word w none = false
is_word w (some t) = text_eq t w

-- Where the wrapper sends a request: to the MCP server, to it inside `claims.streaming(session)`,
-- to `console.serve` with a token, or away with the close code 1008.
pub data Route : Type 0 where
  inner : Route
  streamed : Text → Route
  attached : Text → Route
  turned_away : Route

module _ (decode : List ℕ → Text) where
  -- `_session_of`: the first header of that name, or "".
  unfoldable pub session_of : List (List ℕ × List ℕ) → Text
  session_of [] = []
  session_of ((name, value) ∷ hs) =
      if text_eq name (codes "mcp-session-id") then decode value else session_of hs

  module _ {E : Type 0} (close_console_quietly : E → E) where
    -- An HTTP request of the session, which is "" if it carries none. The second reading is made
    -- only by `touch`.
    unfoldable pub arrive_http : Text → Option Text → ℕ → ℕ → World E → Route × World E
    unfolding released
    arrive_http [] method now later w =
        (inner, Claims.expire (released close_console_quietly) now w)
    arrive_http (c ∷ s) method now later w =
        let (claims, b) = Claims.touch (released close_console_quietly) now later (c ∷ s) w in
        if is_word (codes "GET") method
        then (streamed (c ∷ s), (open_stream (c ∷ s) claims, b))
        else (inner, (claims, b))

    unfoldable pub arrive_kind : Kind → Scope → ℕ → ℕ → World E → Route × World E
    unfolding arrive_http session_of starts_with attach_path
    arrive_kind http scope now later w =
        arrive_http (session_of scope.headers) scope.method now later w
    arrive_kind websocket scope now later w = (
      if starts_with attach_path scope.path
          then attached (drop (length attach_path) scope.path)
          else turned_away,
      w,
    )
    arrive_kind lifespan scope now later w = (inner, w)

    unfoldable pub arrive : Scope → ℕ → ℕ → World E → Route × World E
    unfolding arrive_kind
    arrive scope now later w = arrive_kind scope.kind scope now later w

-- The end of a request that was routed to `streamed session`: the `finally` of `streaming`.
unfoldable pub stream_end : {E : Type 0} → ℕ → Text → World E → World E
stream_end now session (c, b) = (close_stream now session c, b)
