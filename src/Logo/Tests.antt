-- ===== src/Logo/Tests.antt =====
-- The numbers of the logo at concrete inputs. The arithmetic is that of the integers modulo 65, whose
-- least representatives are the coordinates of the box of 64: it is no model of floats, and every theorem
-- about the logo holds of it as of any other.
use yession.Prelude.{
  ◌++◌, ◌∷◌, List, ==_iff, [], ℕ, ◌+◌, ◌-◌, ◌*◌, ◌%◌, ◌≡◌, refl, true, some, All, Text, codes,
  text_eq, ltb, leb, ◌==◌,
}
use yession.Words.{strip}
use yession.App.{starts_with}
use yession.Logo.Atoms.{svg}
use yession.Logo.Derived.{inner, replace}
use yession.Logo.Derived.Nested.{is_tagless, contents, inner-svg}
use yession.Logo.Number.{Float, plus}
use yession.Logo.Atoms.{trimmed}
use yession.Logo.Intro.{Params, Rig, grid, inside, intro}
use yession.Logo.Intro.Gate.{intro-fits}

abbrev pub modular : Float
modular = record {
  Num = ℕ;
  lit = λ m k. m % 65;
  neg = λ a. (65 - a) % 65;
  add = λ a b. (a + b) % 65;
  sub = λ a b. (a + (65 - b)) % 65;
  mul = λ a b. (a * b) % 65;
  div = λ a b. a;
  pow = λ a k. (a * k) % 65;
  lt = ltb;
  le = leb;
  eq = λ a b. a == b;
  sqrt = λ a. a;
  hypot = λ a b. (a + b) % 65;
  sin = λ a. 1;
  cos = λ a. 2;
  radians = λ a. a;
  round = plus;
  fixed2 = λ a. codes "1.00";
  repr = λ a. codes "0.0";
}

-- "100.00" and "-0.00"
hundred : trimmed (codes "100.00") ≡ codes "100"
unfolding trimmed codes text_eq
hundred = refl

zero_left : trimmed (codes "-0.00") ≡ codes "0"
unfolding trimmed codes text_eq
zero_left = refl

abbrev line : ℕ → ℕ
line x = 2 * x

abbrev sample : Params modular
sample = record {
  frames = 1;
  dur = 2;
  delta = 3;
  panels = (1, 2);
  fx = (0, 1);
  camera = (1, 2);
  clarity = 0;
  backs = 0;
  rim = 1;
  spill = 0;
  bloom = 0;
  agent = 0;
  dolly = 2;
  margin = 0;
  start_pad = 15;
  end_pad = 7;
}

logo_runs : Unit {0}
unfolding intro
logo_runs = tt

abbrev pub made : Rig modular
made = record {
  params = sample;
  cam0 = record {
    v = (4, 2, 1);
    r = (1, 63, 0);
    u = (63, 64, 2);
    eye = (61, 57, 15);
    s = 35;
    cx = 15;
    cy = 60;
  };
  cam1 = record {
    v = (4, 2, 1);
    r = (1, 63, 0);
    u = (63, 64, 2);
    eye = (61, 57, 17);
    s = 35;
    cx = 0;
    cy = 5;
  };
  w0 = 40;
  w1 = 60;
}

sample_made : intro modular sample ≡ some made
unfolding logo_runs
sample_made = refl

same_number : (a : ℕ) → (a == a) ≡ true
same_number a = (==_iff a a).1 refl

intro-fits_example :
    (g : ℕ) × (before after : List ℕ) × (grid modular ≡ before ++ g ∷ after)
    × (leb g 1 ≡ true)
    × All (λ t. inside modular made t ≡ true) (g ∷ after)
intro-fits_example = intro-fits modular sample made same_number sample_made

abbrev pub nested : Text
nested = codes "<g><svg x=\"1\">a</svg></g>"

derived_runs : Unit {0}
unfolding inner svg is_tagless strip starts_with replace codes text_eq
derived_runs = tt

nested_is_found : inner (svg nested [] (codes "yession") (codes "0 0 64 64") []) ≡ some nested
unfolding derived_runs
nested_is_found = refl

renamed :
    replace (codes "mark-") (codes "icon-") (codes "mark-p0 mark-p1") ≡ codes "icon-p0 icon-p1"
unfolding derived_runs
renamed = refl

pub attributes_are_tagless :
    (is_tagless (codes "yession") ≡ true) × (is_tagless (codes "0 0 64 64") ≡ true)
unfolding derived_runs
attributes_are_tagless = (refl, refl)

inner-svg_example :
    inner (svg nested [] (codes "yession") (codes "0 0 64 64") [])
    ≡ some (strip (contents nested []))
unfolding is_tagless
inner-svg_example =
    inner-svg nested [] (codes "yession") (codes "0 0 64 64") [] attributes_are_tagless.0
      attributes_are_tagless.1 refl
