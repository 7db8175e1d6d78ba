-- ===== src/Logo/Intro.antt =====
-- The class `Intro` of assets/logo/gen.py (lines 129 to 188) up to its drawing: the parameters, the
-- cameras, the gate of the panels, and one frame as numbers.
pub mod Gate
use yession.Prelude.{
  ℕ, zero, suc, ◌+◌, Bool, true, false, ◌&&◌, Option, none, some, List, [], ◌∷◌, ◌++◌, map, drop,
  Text, if◌then◌else◌,
}
use yession.Logo.Number.{Float, whole, max_all, min_all}
use yession.Logo.Solid.{
  Point, Vec, Prism, ccw, prism_faces, prisms_at, target, lamp, edge, kerf, height,
}
use yession.Logo.Camera.{
  Lens, lens, project, visible, fit, highlight, dist, up1, phi0, phi1, all_corners,
}
use yession.Logo.Clock.{ramp}

module _ (F : Float) where
  open F use {Num, lit, neg, add, sub, mul, div, lt, le, eq}

  -- The arguments of `Intro`. A pair is when a motion starts and ends.
  pub record Params : Type 0 where
    pub frames : ℕ
    pub dur : Num
    pub delta : Num
    pub panels : Num × Num
    pub fx : Num × Num
    pub camera : Num × Num
    pub clarity : Num
    pub backs : Num
    pub rim : Num
    pub spill : Num
    pub bloom : Num
    pub agent : Num
    pub dolly : Num
    pub margin : Num
    pub start_pad : Num
    pub end_pad : Num

  -- Their defaults.
  abbrev pub defaults : Params
  defaults = record {
    frames = 48;
    dur = lit 24 1;
    delta = lit 1 1;
    panels = (lit 3 1, lit 1 0);
    fx = (lit 0 0, lit 4 1);
    camera = (lit 8 2, lit 1 0);
    clarity = lit 6 1;
    backs = lit 45 2;
    rim = lit 13 1;
    spill = lit 5 1;
    bloom = lit 3 1;
    agent = lit 8 1;
    dolly = lit 2 0;
    margin = lit 3 0;
    start_pad = lit 155 1;
    end_pad = lit 7 0;
  }

  -- `next(... o and all(ok[grid.index(t):]) ...)` over the grid, `none` if there is none. `index` finds
  -- the first equal item.
  abbrev pub index_of : Num → List Num → ℕ
  index_of t [] = 0
  index_of t (g ∷ gs) = if eq g t then 0 else suc (index_of t gs)

  abbrev pub all_true : List Bool → Bool
  all_true [] = true
  all_true (o ∷ os) = o && all_true os

  unfoldable pub first_from : List Num → List Bool → List Num → List Bool → Option Num
  first_from grid ok [] os = none
  first_from grid ok (t ∷ ts) [] = none
  first_from grid ok (t ∷ ts) (o ∷ os) =
      if o && all_true (drop (index_of t grid) ok) then some t else first_from grid ok ts os

  -- `[k/n for k in range(k, k + count)]`
  abbrev pub fractions : ℕ → ℕ → ℕ → List Num
  fractions n k zero = []
  fractions n k (suc count) = div (whole F k) (whole F n) ∷ fractions n (suc k) count

  -- The grid of four hundred steps.
  abbrev pub grid : List Num
  grid = fractions 400 0 401

  -- `top_width`
  unfoldable pub top_width : Lens F → Num
  unfolding project
  top_width c =
      let far = neg (edge F) in
      let near = div (neg (kerf F)) (whole F 2) in
      let x_of = λ (x y : Num). (project F c (x, y, height F)).0 in
      let a = x_of far far in
      let rest = x_of far near ∷ x_of near near ∷ x_of near far ∷ [] in
      sub (max_all F a rest) (min_all F a rest)

  -- What `Intro.__init__` keeps beside the arguments.
  pub record Rig : Type 0 where
    pub params : Params
    pub cam0 : Lens F
    pub cam1 : Lens F
    pub w0 : Num
    pub w1 : Num

  abbrev between : Num → Num → Num → Num
  between a b e = add a (mul (sub b a) e)

  -- `rig`
  unfoldable pub rig : Rig → Num → Lens F
  unfolding lens top_width
  rig i e =
      let c =
        lens F (add (phi0 F) (mul (sub (phi1 F) (phi0 F)) e))
          (mul (dist F) (add (whole F 1) (mul i.params.dolly (sub (whole F 1) e)))) (mul (up1 F) e)
          (target F) in
      let moved = record c {
        cx = between i.cam0.cx i.cam1.cx e;
        cy = between i.cam0.cy i.cam1.cy e;
        s = whole F 1;
      } in
      record moved { s = div (between i.w0 i.w1 e) (top_width moved) }

  -- `margin <= v <= 64 - margin`
  abbrev pub within : Num → Num → Bool
  within margin v = le margin v && le v (sub (lit 64 0) margin)

  abbrev pub all_within : Num → List (Point F) → Bool
  all_within margin [] = true
  all_within margin ((x, y) ∷ ps) = (within margin x && within margin y) && all_within margin ps

  -- `inside`: the panels, far out, fit the frame.
  unfoldable pub inside : Rig → Num → Bool
  unfolding rig project prisms_at ramp
  inside i t =
      let c = rig i (ramp F t i.params.camera.0 i.params.camera.1) in
      all_within i.params.margin
        (map (project F c) (all_corners F (drop 1 (prisms_at F i.params.delta))))

  -- `self.gate`
  unfoldable pub gate : Rig → Option Num
  unfolding first_from inside
  gate i = let ok = map (inside i) grid in first_from grid ok grid ok

  abbrev pub checked : Rig → Option Num → Option Rig
  checked i none = none
  checked i (some g) = if le g i.params.panels.0 then some i else none

  abbrev pub cameras : Params → Option (Lens F) → Option (Lens F) → Option Rig
  cameras p (some c0) (some c1) =
      some (record { params = p; cam0 = c0; cam1 = c1; w0 = top_width c0; w1 = top_width c1 })
  cameras p _ _ = none

  abbrev pub gated : Option Rig → Option Rig
  gated none = none
  gated (some i) = checked i (gate i)

  abbrev first_prism : List (Prism F) → List (Prism F)
  first_prism [] = []
  first_prism (p ∷ ps) = p ∷ []

  -- `Intro.__init__` up to the gate; `none` is a ValueError of `fit`.
  unfoldable pub rigged : Params → Option Rig
  unfolding fit lens top_width prisms_at
  rigged p =
      cameras p
        (fit F (lens F (phi0 F) (dist F) (whole F 0) (target F))
          (first_prism (prisms_at F (whole F 0))) p.start_pad)
        (fit F (lens F (phi1 F) (dist F) (up1 F) (target F)) (prisms_at F (whole F 0)) p.end_pad)

  -- `Intro.__init__`: `none` is the AssertionError of panels that start before they fit.
  unfoldable pub intro : Params → Option Rig
  unfolding rigged gate
  intro p = gated (rigged p)
