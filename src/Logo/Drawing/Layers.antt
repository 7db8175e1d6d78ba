-- ===== src/Logo/Drawing/Layers.antt =====
-- The layers of `build`, and the pictures of `intro` and `mark` (gen.py, lines 206 to 210 and 244 to 302).
use yession.Prelude.{
  ℕ, Bool, true, false, ◌&&◌, Option, none, some, List, [], ◌∷◌, ◌++◌, Text, codes, if◌then◌else◌,
  ◌==◌,
}
use yession.Words.{decimal, join}
use yession.Logo.Number.{Float}
use yession.Logo.Colours.{mix}
use yession.Logo.Atoms.{n, svg}
use yession.Logo.Solid.{shade}
use yession.Logo.Intro.{Params, Rig}
use yession.Logo.Frame.{Frame}
use yession.Logo.Markup.{Clock, Anim, el, frames_at, intro_instants, mark_instants, clock_of}
use yession.Logo.Drawing.{
  green_hot, blue_hot, ◌>>=◌, Column, prism_of, normal_of, is_top, is_side, col, deep, dk,
  columns_of, frame_anim, any_seen, all_seen, when_seen, when_hidden, of_prism, each, try_each,
}
use yession.Logo.Drawing.Light.{clipped_rect, spill_on, upper, top_clip, spill_def, lamp_def}
use yession.Logo.Drawing.Defs.{cat, numbered, first_defs}

module _ (F : Float) (k : Clock) (key : Text) (p : Params F) (f : Frame F)
    (fs : List (Frame F)) where
  open F use {Num, lit, mul, fixed2, repr}

  -- `Pg` and `Eg`, and the gate of the solid start.
  abbrev pub gate_anim : (Frame F → Num) → Anim
  gate_anim value = frame_anim F (codes "opacity") (λ x. n F (value x)) f fs

  abbrev pub pg : Text → Text
  pg inner = el k (codes "g") [] (gate_anim (λ x. x.panels) ∷ []) inner

  abbrev pub eg : Text → Text
  eg inner = el k (codes "g") [] (gate_anim (λ x. x.material) ∷ []) inner

  -- `use`
  abbrev pub use_of : Column F → Text → Text
  use_of c colour =
      if any_seen F (c.first ∷ c.rest)
      then el k (codes "use")
          (cat (
            codes " href=\"#"
            ∷ numbered key (codes "-p") c.index
            ∷ codes "\" fill=\""
            ∷ colour
            ∷ codes "\""
            ∷ []))
          (when_seen F c ∷ []) []
      else []

  abbrev pub plain_use : Column F → Text
  plain_use c = cat (
      codes "<use href=\"#"
      ∷ numbered key (codes "-p") c.index
      ∷ codes "\" fill=\""
      ∷ col F c
      ∷ codes "\"/>"
      ∷ [])

  -- The columns of the panels.
  abbrev pub of_panels : List (Column F) → List (Column F)
  of_panels [] = []
  of_panels (c ∷ cs) = let rest = of_panels cs in if prism_of F c == 0 then rest else c ∷ rest

  abbrev pub bloom : List (Column F) → Text
  bloom cs = eg (
      cat (
        codes "<g filter=\"url(#"
        ∷ key
        ∷ codes "-bl)\" opacity=\""
        ∷ repr p.bloom
        ∷ codes "\">"
        ∷ each F plain_use (of_prism F 0 cs)
        ∷ pg (each F plain_use (of_panels cs))
        ∷ codes "</g>"
        ∷ []))

  -- What is drawn of a face with those attributes where it is turned away, if it ever is.
  abbrev pub turned_away : (Column F → Text) → Column F → Text
  turned_away attrs c =
      if all_seen F (c.first ∷ c.rest)
      then []
      else el k (codes "use")
          (cat (codes " href=\"#" ∷ numbered key (codes "-p") c.index ∷ codes "\" " ∷ attrs c ∷ []))
          (when_hidden F c ∷ []) []

  -- `bk`
  abbrev pub backs_of : List (Column F) → ℕ → Text
  backs_of cs pi =
      each F (turned_away (λ c. cat (codes "fill=\"" ∷ deep F c ∷ codes "\"" ∷ [])))
        (of_prism F pi cs)

  abbrev pub backs : List (Column F) → Text
  backs cs = eg (
      cat (
        codes "<g opacity=\""
        ∷ repr p.backs
        ∷ codes "\">"
        ∷ backs_of cs 0
        ∷ pg (backs_of cs 1 ++ backs_of cs 2)
        ∷ codes "</g>"
        ∷ []))

  abbrev pub piece : List (Column F) → ℕ → Text
  piece cs pi = cat (
      codes "<g filter=\"url(#"
      ∷ key
      ∷ codes "-rim"
      ∷ (if pi == 0 then codes "b" else codes "g")
      ∷ codes ")\" opacity=\""
      ∷ repr p.clarity
      ∷ codes "\">"
      ∷ each F
          (λ c. use_of c (cat (codes "url(#" ∷ numbered key (codes "-f") c.index ∷ codes ")" ∷ [])))
          (of_prism F pi cs)
      ∷ codes "</g>"
      ∷ [])

  abbrev pub pieces : List (Column F) → Text
  pieces cs = cat (
      codes "<g filter=\"url(#"
      ∷ key
      ∷ codes "-tb)\">"
      ∷ piece cs 0
      ∷ pg (piece cs 1 ++ piece cs 2)
      ∷ codes "</g>"
      ∷ [])

  abbrev pub edges : List (Column F) → ℕ → Text
  edges cs pi = cat (
      codes "<g clip-path=\"url(#"
      ∷ numbered key (codes "-c") pi
      ∷ codes ")\" filter=\"url(#"
      ∷ key
      ∷ codes "-hb)\" opacity=\"0.3\">"
      ∷ each F
          (turned_away (λ c. cat (
            codes "fill=\"none\" stroke=\""
            ∷ (if pi == 0 then blue_hot else green_hot)
            ∷ codes "\" stroke-width=\"0.6\" stroke-linejoin=\"round\""
            ∷ [])))
          (of_prism F pi cs)
      ∷ codes "</g>"
      ∷ [])

  -- The sides of the cube in the hot blue, clipped to a panel.
  abbrev pub sides_of : List (Column F) → List (Column F)
  sides_of [] = []
  sides_of (c ∷ cs) =
      let rest = sides_of cs in if (prism_of F c == 0) && is_side F c then c ∷ rest else rest

  abbrev pub through : List (Column F) → ℕ → Text
  through cs pi = cat (
      codes "<g clip-path=\"url(#"
      ∷ numbered key (codes "-c") pi
      ∷ codes ")\" opacity=\"0.2\">"
      ∷ each F (λ c. use_of c blue_hot) (sides_of cs)
      ∷ codes "</g>"
      ∷ [])

  -- `flat` of a prism; `none` is a ValueError of a colour.
  abbrev pub flat_face : Column F → Option Text
  flat_face c = if is_top F c then some (use_of c (col F c)) else (do
    shaded ← shade F (col F c) (normal_of F c)
    colour ← dk F p.agent c shaded
    some (use_of c colour))

  abbrev pub flat_of : List (Column F) → ℕ → Option Text
  flat_of cs pi = try_each F flat_face (of_prism F pi cs)

  abbrev pub solid_start : List (Column F) → Option Text
  solid_start cs = do
    a ← flat_of cs 0
    b ← flat_of cs 1
    c ← flat_of cs 2
    some (el k (codes "g") [] (gate_anim (λ x. x.flat) ∷ []) (a ++ pg (b ++ c)))

  -- The lamp on a face.
  abbrev pub lamp_on : Column F → Text
  lamp_on c =
      let r_ = clipped_rect key (numbered key (codes "-tc") c.index) (codes "-sh") in
      if prism_of F c == 0 then r_ else pg r_

  -- What `build` returns: the body and the defs.
  unfoldable pub drawing : List (Column F) → Option (Text × Text)
  unfolding first_defs el mix shade n decimal
  drawing cs = do
    defs ← first_defs F k key p cs
    flat ← solid_start cs
    some (
      cat (
          bloom cs
          ∷ backs cs
          ∷ pieces cs
          ∷ eg (edges cs 0 ++ pg (edges cs 1 ++ edges cs 2))
          ∷ eg (pg (through cs 1 ++ through cs 2))
          ∷ eg (spill_on key 0 ++ pg (spill_on key 1 ++ spill_on key 2))
          ∷ flat
          ∷ each F lamp_on (upper F cs)
          ∷ []),
      cat (
          defs
          ∷ spill_def F k key f fs p.spill
          ∷ lamp_def F k key f fs
          ∷ each F (top_clip F key) (upper F cs)
          ∷ []),
    )

module _ (F : Float) where
  open F use {Num}

  -- `build` over the frames; without a frame the source raises an IndexError.
  unfoldable pub build : Rig F → Text → List Num → Bool → Option (Text × Text)
  unfolding drawing frames_at join n
  build i key ts static = frames_at F i ts >>= λ all. elim all [
    | [] ↦ none
    | f ∷ fs ↦ (columns_of F f fs >>= drawing F (clock_of F i key ts static) key i.params f fs)
  ]

  -- The methods `intro` and `mark`.
  unfoldable pub intro_svg : Rig F → Text → Option Text
  unfolding build svg
  intro_svg i key = build i key (intro_instants F i) false >>= λ r. some (
      svg r.0 r.1 (codes "yession") (codes "0 0 64 64")
        (cat (codes " id=\"" ∷ key ∷ codes "\"" ∷ [])))

  unfoldable pub mark_svg : Rig F → Text → Text → Text → Option Text
  unfolding build svg
  mark_svg i key label box =
      build i key (mark_instants F) true >>= λ r. some (svg r.0 r.1 label box [])
