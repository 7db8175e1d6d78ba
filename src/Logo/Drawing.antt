-- ===== src/Logo/Drawing.antt =====
-- What `build` of gen.py (lines 189 to 296) knows of each face over the frames, and the colours.
pub mod Defs
pub mod Light
pub mod Layers
mod Tests
use yession.Prelude.{
  ℕ, zero, suc, Bool, true, false, ◌&&◌, Option, none, some, List, [], ◌∷◌, ◌++◌, map, Text, codes,
  if◌then◌else◌, ◌==◌,
}
use yession.Words.{decimal}
use yession.Logo.Number.{Float, whole}
use yession.Logo.Colours.{mix}
use yession.Logo.Solid.{Point, Vec, blue, green}
use yession.Logo.Intro.{Params}
use yession.Logo.Frame.{Face, Frame}
use yession.Logo.Markup.{Clock, Anim, an}

-- Two colours of each hue.
abbrev pub green_hot : Text
green_hot = codes "#d8f54a"

abbrev pub blue_hot : Text
blue_hot = codes "#6fd8ff"

abbrev pub green_deep : Text
green_deep = codes "#6f9a00"

abbrev pub blue_deep : Text
blue_deep = codes "#0f6ea3"

infixl 5 ◌>>=◌
abbrev pub ◌>>=◌ : {A B : Type 0} → Option A → (A → Option B) → Option B
none >>= f = none
some a >>= f = f a

module _ (F : Float) where
  open F use {Num, lit, lt}

  -- A face with its gradient.
  abbrev pub Graded : Type 0
  Graded = Face F × Option (Point F × Point F)

  abbrev pub zipped : List (Face F) → List (Option (Point F × Point F)) → List Graded
  zipped [] gs = []
  zipped (f ∷ fs) [] = []
  zipped (f ∷ fs) (g ∷ gs) = (f, g) ∷ zipped fs gs

  -- A face over the frames: its number, and it in the first frame and in the others.
  pub record Column : Type 0 where
    pub index : ℕ
    pub first : Graded
    pub rest : List Graded

  -- The face of each of the other frames that is next; `none` is an IndexError.
  abbrev pub heads : List (List Graded) → Option (List Graded × List (List Graded))
  heads [] = some ([], [])
  heads ([] ∷ fs) = none
  heads ((g ∷ gs) ∷ fs) = do (hs, ts) ← heads fs; some (g ∷ hs, gs ∷ ts)

  abbrev pub columns : ℕ → List Graded → List (List Graded) → Option (List Column)
  columns i [] fs = some []
  columns i (g ∷ gs) fs = do
    (hs, ts) ← heads fs
    more ← columns (suc i) gs ts
    some (record { index = i; first = g; rest = hs } ∷ more)

  abbrev pub columns_of : Frame F → List (Frame F) → Option (List Column)
  columns_of f fs =
      columns 0 (zipped f.faces f.grads) (map (λ (x : Frame F). zipped x.faces x.grads) fs)

  -- `prism`, `nrm`, and the tests of the normal: above 0.5 and below 0.5.
  abbrev pub prism_of : Column → ℕ
  prism_of c = c.first.0.prism

  abbrev pub normal_of : Column → Vec F
  normal_of c = c.first.0.normal

  abbrev pub is_top : Column → Bool
  is_top c = lt (lit 5 1) (normal_of c).2

  abbrev pub is_side : Column → Bool
  is_side c = lt (normal_of c).2 (lit 5 1)

  -- `col`, `hot`, `deep` and `dk`
  abbrev pub col : Column → Text
  col c = if prism_of c == 0 then blue F else green F

  abbrev pub hot : Column → Text
  hot c = if prism_of c == 0 then blue_hot else green_hot

  abbrev pub deep : Column → Text
  deep c = if prism_of c == 0 then blue_deep else green_deep

  abbrev pub dk : Num → Column → Text → Option Text
  dk agent c colour = if (prism_of c == 0) && is_side c then mix F colour agent else some colour

  -- The values of a column, and those of the frames, as text.
  abbrev pub column_anim : Text → Bool → (Face F → Text) → Column → Anim
  column_anim attr discrete value c = record {
    attr = attr;
    discrete = discrete;
    first = value c.first.0;
    rest = map (λ (g : Graded). value g.0) c.rest;
  }

  abbrev pub frame_anim : Text → (Frame F → Text) → Frame F → List (Frame F) → Anim
  frame_anim attr value f fs = record {
    attr = attr;
    discrete = false;
    first = value f;
    rest = map value fs;
  }

  -- `any` and `all` of whether it is seen.
  abbrev pub any_seen : List Graded → Bool
  any_seen [] = false
  any_seen (g ∷ gs) = if g.0.seen then true else any_seen gs

  abbrev pub all_seen : List Graded → Bool
  all_seen [] = true
  all_seen (g ∷ gs) = g.0.seen && all_seen gs

  -- The opacity of what is drawn where the face is seen, `vis`, and of what is where it is not.
  abbrev pub when_seen : Column → Anim
  when_seen = column_anim (codes "opacity") true (λ f. if f.seen then codes "1" else codes "0")

  abbrev pub when_hidden : Column → Anim
  when_hidden = column_anim (codes "opacity") true (λ f. if f.seen then codes "0" else codes "1")

  -- The columns of a prism.
  abbrev pub of_prism : ℕ → List Column → List Column
  of_prism pi [] = []
  of_prism pi (c ∷ cs) = let rest = of_prism pi cs in if prism_of c == pi then c ∷ rest else rest

  -- `"".join(... for i in range(nf))`, without and with an exception.
  abbrev pub each : (Column → Text) → List Column → Text
  each f [] = []
  each f (c ∷ cs) = f c ++ each f cs

  abbrev pub try_each : (Column → Option Text) → List Column → Option Text
  try_each f [] = some []
  try_each f (c ∷ cs) = do t ← f c; rest ← try_each f cs; some (t ++ rest)
