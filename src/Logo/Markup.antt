-- ===== src/Logo/Markup.antt =====
-- How a value over the frames becomes an attribute or an animation (gen.py, lines 189 to 205).
use yession.Prelude.{
  suc, Bool, true, false, ◌&&◌, ◌||◌, Option, none, some, List, [], ◌∷◌, ◌++◌, map, Text, codes,
  text_eq, if◌then◌else◌,
}
use yession.Words.{join}
use yession.App.{starts_with}
use yession.Logo.Number.{Float, whole}
use yession.Logo.Atoms.{n}
use yession.Logo.Intro.{Rig, fractions}
use yession.Logo.Frame.{Frame, frame}

-- What all drawing reads: whether it is static, `kt`, the duration as text and `beg`.
pub record Clock : Type 0 where
  pub static : Bool
  pub kt : Text
  pub dur : Text
  pub beg : Text

-- `all(v == vals[0] for v in vals)` of the values after the first.
abbrev pub all_same : Text → List Text → Bool
all_same v [] = true
all_same v (w ∷ ws) = text_eq w v && all_same v ws

abbrev pub animation : Clock → Text → Bool → List Text → Text
animation k attr discrete vals =
    codes "<animate attributeName=\""
    ++ (attr
        ++ (codes "\" values=\""
            ++ (join (codes ";") vals
                ++ (codes "\" keyTimes=\""
                    ++ (k.kt
                        ++ (codes "\" calcMode=\""
                            ++ ((if discrete then codes "discrete" else codes "linear")
                                ++ (codes "\" dur=\""
                                    ++ (k.dur
                                        ++ (codes "s\" "
                                            ++ (k.beg ++ codes " fill=\"freeze\"/>")))))))))))

abbrev pub attribute : Text → Text → Text
attribute attr v = codes " " ++ (attr ++ (codes "=\"" ++ (v ++ codes "\"")))

-- `an` of the first value and the others.
unfoldable pub an : Clock → Text → Bool → Text → List Text → Text × Text
unfolding join codes text_eq
an k attr discrete v vs =
    if k.static || all_same v vs
    then (attribute attr v, [])
    else ([], animation k attr discrete (v ∷ vs))

-- `word in s`
unfoldable pub is_in : Text → Text → Bool
unfolding starts_with
is_in word [] = text_eq word []
is_in word (c ∷ s) = starts_with word (c ∷ s) || is_in word s

-- An animated attribute: its name, whether it is discrete, and its values over the frames.
pub record Anim : Type 0 where
  pub attr : Text
  pub discrete : Bool
  pub first : Text
  pub rest : List Text

-- The loop of `el`, with what it has gathered.
unfoldable pub gathered : Clock → Text → Text → List Anim → Text × Text
unfolding an
gathered k s a [] = (s, a)
gathered k s a (m ∷ ms) =
    let (s_, a_) = an k m.attr m.discrete m.first m.rest in gathered k (s ++ s_) (a ++ a_) ms

abbrev pub is_empty : Text → Bool
is_empty [] = true
is_empty (c ∷ s) = false

abbrev pub element : Text → Text → Text → Text × Text → Text
element tag attrs inner (s, a) =
    if is_empty a && is_empty inner
    then codes "<" ++ (tag ++ (attrs ++ (s ++ codes "/>")))
    else codes "<"
      ++ (tag
          ++ (attrs ++ (s ++ (codes ">" ++ (a ++ (inner ++ (codes "</" ++ (tag ++ codes ">"))))))))

-- `el`
unfoldable pub el : Clock → Text → Text → List Anim → Text → Text
unfolding gathered is_in codes
el k tag attrs anims inner =
    let (s, a) = gathered k [] [] anims in
    if k.static && is_in (codes " opacity=\"0\"") s then [] else element tag attrs inner (s, a)

module _ (F : Float) where
  open F use {Num}

  abbrev pub both : Option (Frame F) → Option (List (Frame F)) → Option (List (Frame F))
  both (some f) (some fs) = some (f ∷ fs)
  both _ _ = none

  -- `[self.frame(t) for t in ts]`; `none` is an exception of `frame`.
  unfoldable pub frames_at : Rig F → List Num → Option (List (Frame F))
  unfolding frame
  frames_at i [] = some []
  frames_at i (t ∷ ts) = both (frame F i t) (frames_at i ts)

  -- The instants of `intro` and those of `mark`.
  abbrev pub intro_instants : Rig F → List Num
  intro_instants i = fractions F i.params.frames 0 (suc i.params.frames)

  abbrev pub mark_instants : List Num
  mark_instants = whole F 1 ∷ []

  -- `kt`, `self.dur` as text and `beg` of `build`.
  abbrev pub clock_of : Rig F → Text → List Num → Bool → Clock
  clock_of i key ts static = record {
    static = static;
    kt = join (codes ";") (map (n F) ts);
    dur = F.repr i.params.dur;
    beg = codes "begin=\"0s;" ++ (key ++ codes ".click\"");
  }
