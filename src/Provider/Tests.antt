-- ===== src/Provider/Tests.antt =====
-- A power cycle at an exporter that fails, and the theorem at it.
use yession.Prelude.{ℕ, ◌≡◌, refl, List, [], ◌∷◌, Text, codes, text_eq}
use yession.Provider.{Result, ok, error, said, power_task}
use yession.Provider.Power.{Act, called, slept, run}

-- An exporter whose power driver fails at its second call.
abbrev failing : List (Act ℕ) → Result Text
failing [] = ok []
failing (a ∷ []) = ok (codes "None")
failing _ = error (codes "stuck")

abbrev no_lines : List (Act ℕ) → Result (List Text)
no_lines acts = ok []

power_runs :
    ((run no_lines failing (power_task (codes " Cycle ")) []).0
      ≡ called (codes "power") (codes "off") []
        ∷ slept 2_000_000_000
        ∷ called (codes "power") (codes "on") []
        ∷ [])
    × ((run no_lines failing (power_task (codes " Cycle ")) []).1
        ≡ said (codes "the power driver refused: stuck"))
    × ((run no_lines failing (power_task (codes "reboot")) []).0 ≡ [])
unfolding run power_task codes text_eq said
power_runs = (refl, refl, refl)
