-- ===== src/Logo/Drawing/Tests.antt =====
-- The drawing of one intro, with the numbers modulo 65.
use yession.Prelude.{◌≡◌, refl, Bool, false, Option, none, some, Text, codes}
use yession.App.{starts_with}
use yession.Logo.Tests.{modular, made}
use yession.Logo.Frame.{frame}
use yession.Logo.Markup.{is_in, frames_at}
use yession.Logo.Drawing.Layers.{mark_svg}

frames_run : Unit {0}
unfolding frame frames_at
frames_run = tt

abbrev animates : Option Text → Option Bool
animates none = none
animates (some t) = some (is_in (codes "<animate") t)

drawing_runs : Unit {0}
unfolding mark_svg is_in starts_with codes
drawing_runs = tt

mark_is_still : animates (mark_svg modular made (codes "m") (codes "y") (codes "b")) ≡ some false
unfolding drawing_runs
mark_is_still = refl
