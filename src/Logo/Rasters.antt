-- ===== src/Logo/Rasters.antt =====
-- The files that assets/logo/gen.py writes (lines 394 to 404 and 423 to 433): the pictures, and with
-- "--png" their renderings by a browser. The browser is a parameter; what is printed is left out.
pub mod Page
pub mod Sources
pub mod Sizes
mod Tests
use yession.Prelude.{
  ℕ, zero, suc, ◌+◌, Bool, true, false, ◌&&◌, ◌||◌, Option, none, some, List, [], ◌∷◌, ◌++◌, drop,
  length, Text, codes, text_eq, if◌then◌else◌,
}
use yession.Dict.{Dict, get}
use yession.Words.{decimal}
use yession.App.{starts_with}
use yession.Raster.{Bytes}
use yession.Raster.Chunks.{png_crop}
use yession.Logo.Number.{Float}
use yession.Logo.Derived.{Font}
use yession.Logo.Outputs.{outputs}

-- `re.sub(old, new, s, count=1)` of an `old` that is a plain text, and a `new` without a backslash.
unfoldable pub replaced_once : Text → Text → Text → Text
unfolding starts_with
replaced_once old new [] = []
replaced_once old new (c ∷ s) =
    let rest = replaced_once old new s in
    if starts_with old (c ∷ s) then new ++ drop (length old) (c ∷ s) else c ∷ rest

-- A picture with the size at which it is rendered.
unfoldable pub sized : ℕ → Text → Text
unfolding replaced_once decimal
sized px s =
    replaced_once (codes "<svg ")
      (codes "<svg width=\""
        ++ (decimal px ++ (codes "\" height=\"" ++ (decimal px ++ codes "\" "))))
      s

-- The text of "x.html".
unfoldable pub page_of : ℕ → Text → Text
unfolding sized
page_of px s =
    codes "<style>html,body{margin:0;background:transparent}svg{display:block}</style>"
    ++ sized px s

-- What is written into a file.
pub data File : Type 0 where
  drawn : Text → File
  raster : Bytes → File

-- The files written, in order, by their names, and whether no exception was raised.
abbrev pub Ran : Type 0
Ran = List (Text × File) × Bool

-- What is written goes on after what was written, if no exception was raised.
abbrev pub followed_by : Ran → Ran → Ran
followed_by (files, false) later = (files, false)
followed_by (files, true) (more, good) = (files ++ more, good)

-- The name of a rendering.
abbrev pub png_name : Text → ℕ → Text
png_name src px =
    (if text_eq src (codes "icon.svg") then codes "icon" else codes "favicon")
    ++ (codes "-" ++ (decimal px ++ codes ".png"))

-- The sources and the sizes of the renderings.
abbrev pub jobs : List (Text × List ℕ)
jobs = (codes "icon.svg", 1024 ∷ 512 ∷ 192 ∷ 180 ∷ []) ∷ (codes "logo-16.svg", 32 ∷ 16 ∷ []) ∷ []

-- `"--png" in sys.argv`
abbrev pub wants_png : List Text → Bool
wants_png [] = false
wants_png (a ∷ argv) = text_eq (codes "--png") a || wants_png argv

abbrev pub pictures : Dict Text → List (Text × File)
pictures [] = []
pictures ((name, s) ∷ out) = (name, drawn s) ∷ pictures out

module _ (decompress : Bytes → Option Bytes) (compress : Bytes → Bytes) (crc : Bytes → ℕ)
    (shot : Text → ℕ → Option (Option Bytes)) where
  -- `png_crop` of the screenshot, if there is one.
  abbrev pub crop_of_shot : ℕ → Option Bytes → Option Bytes
  crop_of_shot px none = none
  crop_of_shot px (some file) = png_crop decompress compress crc file px px

  -- The file is opened before its content is made, so it is left empty when that raises.
  abbrev pub saved : Text → Option Bytes → Ran
  saved path none = ((path, raster []) ∷ [], false)
  saved path (some b) = ((path, raster b) ∷ [], true)

  -- `rasterise` after the run of the browser.
  abbrev pub cropped_to : ℕ → Text → Option (Option Bytes) → Ran
  cropped_to px path none = ([], false)
  cropped_to px path (some made) = saved path (crop_of_shot px made)

  -- `rasterise`. The browser takes the page and the side of its window; it fails, or ends with or
  -- without a screenshot.
  unfoldable pub rasterise : Text → ℕ → Text → Ran
  unfolding page_of png_crop
  rasterise svg_text px path = cropped_to px path (shot (page_of px svg_text) (px + 400))

  -- The loop over the sizes of one source.
  unfoldable pub each_size : Text → Text → List ℕ → Ran
  unfolding rasterise
  each_size svg_text src [] = ([], true)
  each_size svg_text src (px ∷ sizes) =
      followed_by (rasterise svg_text px (png_name src px)) (each_size svg_text src sizes)

  abbrev pub sizes_of : Text → List ℕ → Option Text → Ran
  sizes_of src sizes none = ([], false)
  sizes_of src sizes (some svg_text) = each_size svg_text src sizes

  -- The loop over the sources; `out[src]` is a KeyError without its key.
  unfoldable pub each_source : Dict Text → List (Text × List ℕ) → Ran
  unfolding each_size get
  each_source out [] = ([], true)
  each_source out ((src, sizes) ∷ more) =
      followed_by (sizes_of src sizes (get src out)) (each_source out more)

  -- What the script does with what it has drawn.
  abbrev pub wrote : List Text → Option (Dict Text) → Ran
  wrote argv none = ([], false)
  wrote argv (some out) =
      followed_by (pictures out, true) (if wants_png argv then each_source out jobs else ([], true))

  -- The script.
  unfoldable pub generate : (F : Float) → Font F → List Text → Ran
  unfolding outputs each_source
  generate F font argv = wrote argv (outputs F font)
