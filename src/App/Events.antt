-- ===== src/App/Events.antt =====
-- The provider as its event loop runs it: everything that happens between two awaits, in any order
-- (provider.py, lines 186 to 348, and stream.py, lines 55 to 136).
use yession.Prelude.{ℕ, none, some, List, [], ◌∷◌, Text}
use yession.Dict.{Dict}
use yession.Console.{Console, attach, detach}
use yession.Provider.{World, status, power, driver_call, acquire, release}
use yession.App.{Scope, arrive, stream_end}

-- Something that runs on the event loop without an await, with the readings of the clock in it. The
-- arguments of a driver call are left out: up to its first await the tool does not look at them.
pub data Event : Type 0 where
  request : Scope → ℕ → ℕ → Event
  ends_stream : ℕ → Text → Event
  asks_status : Dict Text → ℕ → Event
  asks_acquire : Dict Text → Text → Text → ℕ → ℕ → Event
  asks_release : Dict Text → ℕ → ℕ → Event
  asks_power : Dict Text → Text → ℕ → Event
  asks_driver : Dict Text → Text → Text → ℕ → Event
  socket_opens : Text → Event
  socket_ends : Event

module _ (decode : List ℕ → Text) {E : Type 0} (close : E → E) (host : Text) where
  unfoldable pub attach_or_stay : Text → Console → Console
  attach_or_stay t c = elim (attach t c) [ none ↦ c | some d ↦ d ]

  unfoldable pub happens : Event → World E → World E
  unfolding attach_or_stay
  happens (request scope now later) w = (arrive decode close scope now later w).1
  happens (ends_stream now session) w = stream_end now session w
  happens (asks_status headers now) w = (status close host headers {V = ℕ} now w).1
  happens (asks_acquire headers origin minted now later) w =
      (acquire close origin minted headers now later w).1
  happens (asks_release headers now later) w = (release close host headers now later w).1
  happens (asks_power headers action now) w = (power close host headers {V = ℕ} action now w).1
  happens (asks_driver headers driver method now) w =
      (driver_call close host headers {V = ℕ} driver method [] now w).1
  happens (socket_opens t) (c, b) = (c, record b { console = attach_or_stay t b.console })
  happens socket_ends (c, b) = (c, record b { console = detach b.console })

  unfoldable pub history : List Event → World E → World E
  history [] w = w
  history (e ∷ es) w = history es (happens e w)
