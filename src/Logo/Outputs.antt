-- ===== src/Logo/Outputs.antt =====
-- The files that assets/logo/gen.py writes (lines 25 and 406 to 424), by their names.
use yession.Prelude.{Option, some, List, [], ◌∷◌, Text, codes}
use yession.Logo.Number.{Float}
use yession.Logo.Intro.{Params, defaults, intro}
use yession.Logo.Small.{small}
use yession.Logo.Derived.{Font, lockup, icon}
use yession.Logo.Drawing.{◌>>=◌}
use yession.Logo.Drawing.Layers.{intro_svg, mark_svg}

module _ (F : Float) where
  open F use {lit}

  -- INK and INK_LIGHT
  abbrev pub ink : Text
  ink = codes "#ffffff"

  abbrev pub ink_light : Text
  ink_light = codes "#14150f"

  -- The arguments of the light variant.
  abbrev pub light_params : Params F
  light_params = record (defaults F) {
    clarity = lit 82 2;
    backs = lit 55 2;
    bloom = lit 1 1;
    agent = lit 1 0;
  }

  -- `out`, with the font of the lockups; `none` is an exception.
  unfoldable pub outputs : Font F → Option (List (Text × Text))
  unfolding intro intro_svg mark_svg lockup small icon
  outputs font = do
    i ← intro F (defaults F)
    opening ← intro_svg F i (codes "intro")
    logo ← mark_svg F i (codes "mark") (codes "yession") (codes "7 0 64 64")
    j ← intro F light_params
    logo_light ← mark_svg F j (codes "mark") (codes "yession") (codes "0 0 64 64")
    locked ← lockup F font logo ink (codes "yession")
    locked_light ← lockup F font logo_light ink_light (codes "yession")
    tiny ← small F (lit 2 1) (lit 1 0)
    app_icon ← icon F logo
    some (
        (codes "intro.svg", opening)
        ∷ (codes "logo.svg", logo)
        ∷ (codes "logo-light.svg", logo_light)
        ∷ (codes "lockup.svg", locked)
        ∷ (codes "lockup-light.svg", locked_light)
        ∷ (codes "logo-16.svg", tiny)
        ∷ (codes "icon.svg", app_icon)
        ∷ [])
