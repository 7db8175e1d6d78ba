-- ===== src/Startup/Tests.antt =====
-- Starts of the provider at concrete arguments, and the theorems at them.
use yession.Prelude.{ℕ, ◌≡◌, refl, Option, none, some, [], ◌∷◌, ◌++◌, Text, codes, text_eq}
use yession.Dict.{get}
use yession.Provider.{session_holder}
use yession.Startup.{Settings, prints, serves, default_ttl, main}

abbrev no_number : Text → Option ℕ
no_number t = none

abbrev always : ℕ → Text → Option ℕ
always k t = some k

abbrev local : Settings
local = record {
  host = codes "127.0.0.1";
  port = 0;
  exporter = codes "127.0.0.1:8815";
  console = codes "serial";
  ttl = default_ttl;
  bound_origin = [];
}

startup_runs : Unit {0}
unfolding main codes text_eq session_holder get
startup_runs = tt

version_is_printed :
    main no_number no_number (codes "1.0") (codes "u") (codes "-v" ∷ []) []
    ≡ prints (codes "1.0" ++ 10 ∷ [])
unfolding startup_runs
version_is_printed = refl

defaults_are_served : main (always 0) no_number (codes "1.0") (codes "u") [] [] ≡ serves local
unfolding startup_runs
defaults_are_served = refl
