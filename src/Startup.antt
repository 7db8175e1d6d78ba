-- ===== src/Startup.antt =====
-- examples/jumpstarter/src/jumpstarter_provider/main.py: the arguments, the environment and the origin
-- of the stream's URL.
mod Tests
use yession.Prelude.{
  ℕ, ◌*◌, Bool, true, false, ◌||◌, Option, none, some, List, [], ◌∷◌, ◌++◌, Text, codes, text_eq,
  if◌then◌else◌,
}
use yession.Dict.{Dict, get}
use yession.Words.{decimal}
use yession.Provider.{ticks_per_second}

-- What `main` reads of the environment, with its defaults.
pub record Settings : Type 0 where
  pub host : Text
  pub port : ℕ
  pub exporter : Text
  pub console : Text
  pub ttl : ℕ
  pub bound_origin : Text

-- What `main` does: it prints a text and returns; it prints one on the error stream and exits with a
-- code; `int` or `float` raises; or it runs the server.
pub data Action : Type 0 where
  prints : Text → Action
  exits : ℕ → Text → Action
  raises : Action
  serves : Settings → Action

-- DEFAULT_CLAIM_TTL_SECONDS
abbrev pub default_ttl : ℕ
default_ttl = 300 * ticks_per_second

-- `os.environ.get(name, default)`
unfoldable pub setting : Dict Text → Text → Text → Text
setting environ name default = elim (get name environ) [ none ↦ default | some t ↦ t ]

-- What `print` adds.
abbrev newline : Text
newline = 10 ∷ []

abbrev unexpected : Text → Text → Text
unexpected a usage =
    codes "jumpstarter-provider: unexpected argument '"
    ++ (a ++ (codes "'" ++ (newline ++ (newline ++ (usage ++ newline)))))

-- `int` and `float` of a text, the latter in clock ticks, are parameters; `none` is a `ValueError`.
module _ (int_of float_of : Text → Option ℕ) where
  -- `float(os.environ.get(name, DEFAULT_CLAIM_TTL_SECONDS))`
  abbrev ttl_of : Option Text → Option ℕ
  ttl_of none = some default_ttl
  ttl_of (some t) = float_of t

  abbrev served : Option ℕ → Option ℕ → Dict Text → Action
  served (some port) (some ttl) environ = serves (record {
    host = setting environ (codes "JUMPSTARTER_PROVIDER_HOST") (codes "127.0.0.1");
    port = port;
    exporter = setting environ (codes "JUMPSTARTER_HOST") (codes "127.0.0.1:8815");
    console = setting environ (codes "JUMPSTARTER_PROVIDER_CONSOLE") (codes "serial");
    ttl = ttl;
    bound_origin = setting environ (codes "JUMPSTARTER_PROVIDER_ORIGIN") [];
  })
  served none ttl environ = raises
  served (some port) none environ = raises

  -- What follows the arguments.
  unfoldable pub configured : Dict Text → Action
  unfolding setting get
  configured environ =
      served (int_of (setting environ (codes "JUMPSTARTER_PROVIDER_PORT") (codes "7334")))
        (ttl_of (get (codes "JUMPSTARTER_PROVIDER_TTL") environ)) environ

  -- `main` with `sys.argv[1:]`, the version and USAGE.
  unfoldable pub main : Text → Text → List Text → Dict Text → Action
  unfolding configured
  main version usage [] environ = configured environ
  main version usage (a ∷ []) environ =
      if text_eq a (codes "--version") || text_eq a (codes "-v")
      then prints (version ++ newline)
      else if text_eq a (codes "--help") || text_eq a (codes "-h")
      then prints (usage ++ newline)
      else exits 2 (unexpected a usage)
  main version usage (a ∷ b ∷ args) environ = exits 2 (unexpected a usage)

-- `_Announce.startup`, once the port is bound: `origins[0]`.
unfoldable pub announced : Settings → ℕ → Text
unfolding decimal
announced s bound = elim s.bound_origin [
  | [] ↦ codes "ws://" ++ (s.host ++ (codes ":" ++ decimal bound))
  | c ∷ o ↦ c ∷ o
]

-- The line that it prints.
unfoldable pub announcement : Text → Settings → ℕ → Text
unfolding announced
announcement version s bound =
    codes "jumpstarter-provider "
    ++ (version
        ++ (codes ": MCP at http://"
            ++ (s.host
                ++ (codes ":"
                    ++ (decimal bound
                        ++ (codes "/mcp, streams at "
                            ++ (announced s bound
                                ++ (codes "/attach/<token>, exporter at " ++ s.exporter))))))))
