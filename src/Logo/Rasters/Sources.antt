-- ===== src/Logo/Rasters/Sources.antt =====
-- The pictures that are rendered (gen.py, lines 333 to 360 and 406 to 424).
use yession.Prelude.{◌≡◌, ap, Option, none, some, List, [], ◌++◌, Text, codes, text_eq}
use yession.Dict.{Dict, get}
use yession.Logo.Number.{Float}
use yession.Logo.Intro.{defaults, intro}
use yession.Logo.Small.{small, small_target, small_prisms, drawn, Drawn, paths, painted}
use yession.Logo.Camera.{fit, lens, phi1, dist, up1}
use yession.Logo.Derived.{Font, lockup, icon}
use yession.Logo.Drawing.{◌>>=◌}
use yession.Logo.Drawing.Layers.{intro_svg, mark_svg}
use yession.Logo.Outputs.{outputs, light_params, ink, ink_light}
use yession.Logo.Atoms.{svg}
use yession.Logo.Small
use yession.Logo.Derived.{inner, plated}
use yession.Logo.Rasters.Page.{attributes, svg_behind}

-- A text, if it is one, that begins with the tag of a picture.
abbrev Starts : Option Text → Type 0
Starts none = Unit {0}
Starts (some t) = (rest : Text) × (t ≡ codes "<svg " ++ rest)

svg-Starts : (body defs label box extra : Text) → Starts (some (svg body defs label box extra))
svg-Starts body defs label box extra =
    (attributes body defs label box extra, svg_behind body defs label box extra)

module _ (F : Float) where
  bind-Starts :
      {A : Type 0} (o : Option A) (f : A → Option Text)
      → ((x : A) → Starts (f x))
      → Starts (Small.◌>>=◌ F o f)
  bind-Starts none f h = tt
  bind-Starts (some x) f h = h x

  small-Starts : (g pad : F.Num) → Starts (small F g pad)
  unfolding small
  small-Starts g pad =
      let end = λ (ds : List (Drawn F)).
        some (svg (paths F (painted F ds)) [] (codes "yession") (codes "0 0 64 64") []) in
      bind-Starts
        (fit F (lens F (phi1 F) (dist F) (up1 F) (small_target F g)) (small_prisms F g) pad)
        (λ c. Small.◌>>=◌ F (drawn F c (small_prisms F g)) end)
        λ c.
          bind-Starts (drawn F c (small_prisms F g)) end
            λ ds. svg-Starts (paths F (painted F ds)) [] (codes "yession") (codes "0 0 64 64") []

  plated-Starts : (o : Option Text) → Starts (plated F o)
  plated-Starts none = tt
  plated-Starts (some t) = svg-Starts _ _ _ _ _

  icon-Starts : (mark : Text) → Starts (icon F mark)
  unfolding icon
  icon-Starts mark = plated-Starts (inner mark)

-- The sources of the renderings are among the pictures, if there are pictures.
abbrev pub HasIcons : Option (Dict Text) → Type 0
HasIcons none = Unit {0}
HasIcons (some out) =
    (icon_rest tiny_rest : Text) × (get (codes "icon.svg") out ≡ some (codes "<svg " ++ icon_rest))
    × (get (codes "logo-16.svg") out ≡ some (codes "<svg " ++ tiny_rest))

module _ {A : Type 0} where
  bind-HasIcons :
      (o : Option A) (f : A → Option (Dict Text)) → ((x : A) → HasIcons (f x)) → HasIcons (o >>= f)
  bind-HasIcons none f h = tt
  bind-HasIcons (some x) f h = h x

bind_picture-HasIcons :
    (o : Option Text) (f : Text → Option (Dict Text))
    → Starts o
    → ((x : Text) → Starts (some x) → HasIcons (f x))
    → HasIcons (o >>= f)
bind_picture-HasIcons none f p h = tt
bind_picture-HasIcons (some x) f p h = h x p

pub outputs-HasIcons : (F : Float) (font : Font F) → HasIcons (outputs F font)
unfolding outputs get text_eq codes
outputs-HasIcons F font = bind-HasIcons (intro F (defaults F)) _ λ i.
    bind-HasIcons (intro_svg F i (codes "intro")) _ λ opening.
      bind-HasIcons (mark_svg F i (codes "mark") (codes "yession") (codes "7 0 64 64")) _ λ logo.
        bind-HasIcons (intro F (light_params F)) _ λ j.
          bind-HasIcons (mark_svg F j (codes "mark") (codes "yession") (codes "0 0 64 64")) _
            λ logo_light. bind-HasIcons (lockup F font logo (ink F) (codes "yession")) _ λ locked.
              bind-HasIcons (lockup F font logo_light (ink_light F) (codes "yession")) _
                λ locked_light.
                  bind_picture-HasIcons (small F (F.lit 2 1) (F.lit 1 0)) _
                    (small-Starts F (F.lit 2 1) (F.lit 1 0))
                    λ tiny tiny_starts.
                      bind_picture-HasIcons (icon F logo) _ (icon-Starts F logo)
                        λ app_icon icon_starts. (
                          icon_starts.0,
                          tiny_starts.0,
                          ap (λ t. some t) icon_starts.1,
                          ap (λ t. some t) tiny_starts.1,
                        )
