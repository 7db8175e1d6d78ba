-- ===== src/Console.antt =====
-- The class `Console` of examples/jumpstarter/src/jumpstarter_provider/stream.py: the data leg, the
-- console as one stream over a WebSocket. What it keeps between requests is here; one attached
-- socket is in `Console.Socket`.
pub mod Token
pub mod Socket
mod Tests
use yession.Prelude.{
  Bool, true, false, not, ◌&&◌, Option, none, some, ◌++◌, Text, codes, text_eq, if◌then◌else◌,
}

-- `attached` is `self._send is not None`: the closure itself is `Console.Socket.out`.
pub record Console : Type 0 where
  pub console_name : Text
  pub token : Option Text
  pub holder : Option Text
  pub attached : Bool

-- `Console.__init__`; `console_name` is that of the exporter.
unfoldable pub init : Text → Console
init name = record { console_name = name; token = none; holder = none; attached = false }

-- The dict that a client reads.
pub record Offer : Type 0 where
  pub url : Text
  pub label : Text
  pub renewable : Bool

-- `minted` is the value of `secrets.token_hex(16)`.
unfoldable pub offer : Text → Text → Text → Console → Option Offer × Console
offer minted origin holder c = if c.attached then (none, c) else (
  some (record {
    url = origin ++ (codes "/attach/" ++ minted);
    label = c.console_name ++ codes " console";
    renewable = true;
  }),
  record c { token = some minted; holder = some holder },
)

unfoldable pub release : Console → Console
release c = record c { token = none; holder = none }

-- `token != self._token or self._token is None or self.attached`, negated.
abbrev pub opens_with : Text → Option Text → Bool
opens_with token none = false
opens_with token (some t) = text_eq token t

-- The check and the two writes of `serve`, between which it does not await: `none` is a refusal.
unfoldable pub attach : Text → Console → Option Console
attach token c =
    if opens_with token c.token && not c.attached
    then some (record c { token = none; attached = true })
    else none

-- The `finally` of `serve`.
unfoldable pub detach : Console → Console
detach c = record c { attached = false }
