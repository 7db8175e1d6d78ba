-- ===== src/Logo/Rasters/Tests.antt =====
-- The script at an arithmetic of one number, no model of floats, and a browser that shows a blank page.
use yession.Prelude.{
  ℕ, zero, suc, ◌*◌, ◌≡◌, ◌≤◌, refl, ap, subst, ◌∙◌, Bool, true, false, Option, none, some, List,
  [], ◌∷◌, ◌++◌, drop, map, take, length, arith, Text, codes, text_eq,
}
use yession.Dict.{Dict, get}
use yession.Raster.{Bytes, zeros, joined_rows, decoded_rows}
use yession.Raster.Chunks.{png_crop, Image, file_of, read_image, as_image}
use yession.Raster.Files.{read_image-file_of}
use yession.Raster.Rows.{HasWidth, whole-IsRow}
use yession.Raster.Crops.{length-zeros, decoded_rows-joined_rows}
use yession.Logo.Number.{Float, plus}
use yession.Logo.Derived.{Font}
use yession.Logo.Outputs.{outputs}
use yession.Words.{decimal}
use yession.Logo.Rasters.{png_name, rasterise, raster, File, sized, generate, pictures, wants_png}
use yession.Logo.Atoms.{svg}
use yession.Logo.Derived.{inner}
use yession.Logo.Derived.Nested.{is_tagless}
use yession.Logo.Tests.{nested, attributes_are_tagless}
use yession.Logo.Rasters.Page.{size_attributes, sized-svg}
use yession.Logo.Rasters.Sizes.{
  Undone, Shows, Cuts, icon_files, favicon_files, length-joined_rows, generate-Cuts,
}

abbrev single : Float
single = record {
  Num = ℕ;
  lit = λ m k. 0;
  neg = λ a. 0;
  add = λ a b. 0;
  sub = λ a b. 0;
  mul = λ a b. 0;
  div = λ a b. 0;
  pow = λ a k. 0;
  lt = λ a b. false;
  le = λ a b. true;
  eq = λ a b. false;
  sqrt = λ a. 0;
  hypot = λ a b. 0;
  sin = λ a. 0;
  cos = λ a. 0;
  radians = λ a. 0;
  round = plus;
  fixed2 = λ a. codes "1.00";
  repr = λ a. codes "0.0";
}

abbrev plain_font : Font single
plain_font = record { units_per_em = 1; commands = λ c. []; width = λ c. 1 }

abbrev is_drawn : Option (Dict Text) → Bool
is_drawn none = false
is_drawn (some out) = true

all_drawn : is_drawn (outputs single plain_font) ≡ true
unfolding outputs
all_drawn = refl

abbrev out_or : Option (Dict Text) → Dict Text
out_or none = []
out_or (some out) = out

out_of : Dict Text
out_of = out_or (outputs single plain_font)

drawn_is_some : (o : Option (Dict Text)) → is_drawn o ≡ true → o ≡ some (out_or o)
drawn_is_some none e = cc
drawn_is_some (some out) e = refl

out_of_lem : outputs single plain_font ≡ some out_of
unfolding out_of
out_of_lem = drawn_is_some (outputs single plain_font) all_drawn

blank_rows : ℕ → ℕ → List Bytes
blank_rows w zero = []
blank_rows w (suc h) = zeros (w * 4) ∷ blank_rows w h

length-blank_rows : (w h : ℕ) → length (blank_rows w h) ≡ h
unfolding blank_rows
length-blank_rows w zero = refl
length-blank_rows w (suc h) = omega (arith, length-blank_rows w h)

blank_rows-HasWidth : (w h : ℕ) → HasWidth (w * 4) (blank_rows w h)
unfolding blank_rows
blank_rows-HasWidth w zero = tt
blank_rows-HasWidth w (suc h) =
    (whole-IsRow (w * 4) _ _ (length-zeros (w * 4)), blank_rows-HasWidth w h)

no_sum : Bytes → ℕ
no_sum b = 0

blank : ℕ → Bytes
blank side = file_of no_sum side side (joined_rows side (blank_rows side side))

blank_image : ℕ → Image
blank_image side = record {
  width = side;
  height = side;
  rows = map (take (side * 4)) (blank_rows side side);
}

blank-read : (side : ℕ) → side ≤ 1424 → read_image some (blank side) ≡ some (blank_image side)
unfolding blank blank_image
blank-read side small =
    read_image-file_of some no_sum side side (joined_rows side (blank_rows side side))
      (omega (arith, small)) (omega (arith, small))
      (omega (
        arith,
        small,
        length-joined_rows side (blank_rows side side) small,
        length-blank_rows side side,
      ))
    ∙ ap (as_image side side) (
        subst
          (λ k.
            decoded_rows (side * 4) k (joined_rows side (blank_rows side side)) (zeros (side * 4))
            ≡ some (map (take (side * 4)) (blank_rows side side)))
          (length-blank_rows side side)
          (decoded_rows-joined_rows (side * 4) side (blank_rows side side) (zeros (side * 4))
            (blank_rows-HasWidth side side) (omega arith) (length-zeros (side * 4))))

plain : Bytes → Bytes
plain b = b

plain_lem : Undone some plain
unfolding plain
plain_lem = record { undone = λ b. refl; compact = λ b. omega arith }

blank_browser : Text → ℕ → Option (Option Bytes)
blank_browser page side = some (some (blank side))

blank_browser-Shows :
    (page : Text) (side : ℕ) → side ≤ 1424 → Shows some plain no_sum blank_browser page side
unfolding blank_browser blank_image
blank_browser-Shows page side small = record {
  file = blank side;
  image = blank_image side;
  made = refl;
  readable = blank-read side small;
  wide = omega arith;
  high = omega arith;
}

png_asked : wants_png (codes "gen.py" ∷ codes "--png" ∷ []) ≡ true
unfolding text_eq codes
png_asked = refl

generate-Cuts_example :
    (icon_rest tiny_rest : Text) × (icons favicons : List (Text × File)) × (get
        (codes "icon.svg")
        out_of
      ≡ some (codes "<svg " ++ icon_rest))
    × (get (codes "logo-16.svg") out_of ≡ some (codes "<svg " ++ tiny_rest))
    × (generate some plain no_sum blank_browser single plain_font
          (codes "gen.py" ∷ codes "--png" ∷ [])
        ≡ (pictures out_of ++ (icons ++ favicons), true))
    × Cuts some plain no_sum blank_browser icon_rest icon_files icons
    × Cuts some plain no_sum blank_browser tiny_rest favicon_files favicons
generate-Cuts_example =
    generate-Cuts some plain no_sum blank_browser single plain_font
      (codes "gen.py" ∷ codes "--png" ∷ []) out_of out_of_lem png_asked plain_lem
      blank_browser-Shows

abbrev nested_svg : Text
nested_svg = svg nested [] (codes "yession") (codes "0 0 64 64") []

no_more : is_tagless [] ≡ true
unfolding is_tagless
no_more = refl

sized-svg_example :
    (sized 16 nested_svg ≡ codes "<svg" ++ size_attributes 16 (drop 5 nested_svg))
    × (inner (sized 16 nested_svg) ≡ inner nested_svg)
sized-svg_example =
    sized-svg 16 nested [] (codes "yession") (codes "0 0 64 64") [] attributes_are_tagless.0
      attributes_are_tagless.1 no_more

rasters_run :
    (png_name (codes "icon.svg") 512 ≡ codes "icon-512.png")
    × (png_name (codes "logo-16.svg") 16 ≡ codes "favicon-16.png")
    × (sized 16 (codes "<svg a><svg b/></svg>")
        ≡ codes "<svg width=\"16\" height=\"16\" a><svg b/></svg>")
    × (rasterise some plain no_sum (λ page side. some (some [])) (codes "<svg >") 16 (codes "x.png")
        ≡ ((codes "x.png", raster []) ∷ [], false))
unfolding decimal sized rasterise png_crop read_image codes text_eq
rasters_run = (refl, refl, refl, refl)
