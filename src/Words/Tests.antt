-- ===== src/Words/Tests.antt =====
-- The text operations on small inputs, and the theorems about them at one.
use yession.Prelude.{◌≡◌, refl, codes, [], ◌∷◌}
use yession.Words.{strip, lower, join, decimal}

text_runs :
    (lower (strip (codes " \tCycle \n")) ≡ codes "cycle")
    × (join (codes ", ") (codes "off" ∷ codes "on" ∷ []) ≡ codes "off, on")
    × (decimal 300 ≡ codes "300")
    × (decimal 0 ≡ codes "0")
unfolding lower strip join decimal codes
text_runs = (refl, refl, refl, refl)
