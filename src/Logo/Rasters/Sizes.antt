-- ===== src/Logo/Rasters/Sizes.antt =====
-- Each rendering has the size that its name says (gen.py, lines 367 to 404 and 428 to 433).
use yession.Prelude.{
  ℕ, zero, suc, ◌+◌, ◌*◌, ◌≡◌, ◌≤◌, refl, ap, subst, ◌∙◌, true, Option, some, List, [], ◌∷◌, ◌++◌,
  All, length, length-append, append-nil, map, take, arith, Text, codes, text_eq, if◌then◌else◌,
}
use yession.Words.{decimal}
use yession.Logo.Rasters.Sources.{HasIcons, outputs-HasIcons}
use yession.Logo.Rasters.Page.{size_attributes, sized-first}
use yession.Dict.{Dict, get}
use yession.Raster.{Bytes, joined_rows}
use yession.Raster.Chunks.{Image, read_image}
use yession.Raster.Files.{png_crop-read_image, read_image-HasWidth}
use yession.Raster.Rows.{length-take_rows}
use yession.Logo.Number.{Float}
use yession.Logo.Small.{small}
use yession.Logo.Derived.{Font}
use yession.Logo.Outputs.{outputs}
use yession.Logo.Rasters.{
  saved, cropped_to, page_of, File, raster, followed_by, png_name, rasterise, each_size,
  each_source, wants_png, pictures, wrote, generate, jobs,
}

length-take_le : (n : ℕ) (xs : Bytes) → length (take n xs) ≤ n
length-take_le zero xs = omega arith
length-take_le (suc n) [] = omega arith
length-take_le (suc n) (x ∷ xs) = omega (arith, length-take_le n xs)

-- The data of a crop of at most 1,424 pixels in width.
pub length-joined_rows :
    (w : ℕ) (rows : List Bytes) → w ≤ 1424 → length (joined_rows w rows) ≤ length rows * 5697
unfolding joined_rows
length-joined_rows w [] h = omega arith
length-joined_rows w (r ∷ rows) h = omega (
  arith,
  length-append (take (w * 4) r) (joined_rows w rows),
  length-take_le (w * 4) r,
  length-joined_rows w rows h,
)

-- What is relied on of `zlib`: what it compresses it can decompress, and it adds little.
pub record Undone (decompress : Bytes → Option Bytes) (compress : Bytes → Bytes) : Type 0 where
  pub undone : (b : Bytes) → decompress (compress b) ≡ some b
  pub compact : (b : Bytes) → length (compress b) ≤ 2 * length b + 100

abbrev pub icon_files : List (Text × ℕ)
icon_files =
    (codes "icon-1024.png", 1024)
    ∷ (codes "icon-512.png", 512)
    ∷ (codes "icon-192.png", 192)
    ∷ (codes "icon-180.png", 180)
    ∷ []

abbrev pub favicon_files : List (Text × ℕ)
favicon_files = (codes "favicon-32.png", 32) ∷ (codes "favicon-16.png", 16) ∷ []

module _ (decompress : Bytes → Option Bytes) (compress : Bytes → Bytes) (crc : Bytes → ℕ)
    (shot : Text → ℕ → Option (Option Bytes)) where
  -- The browser makes a screenshot of the page that `png_crop` can read, and that lacks at most 400
  -- pixels of the window in each direction.
  pub record Shows (page : Text) (side : ℕ) : Type 0 where
    pub file : Bytes
    pub image : Image
    pub made : shot page side ≡ some (some file)
    pub readable : read_image decompress file ≡ some image
    pub wide : side ≤ image.width + 400
    pub high : side ≤ image.height + 400

  -- The page for a picture "<svg " and the rest of it: the picture, with the width and the height `px` in
  -- its tag, behind a style.
  abbrev pub page : ℕ → Text → Text
  page px rest =
      codes "<style>html,body{margin:0;background:transparent}svg{display:block}</style>"
      ++ (codes "<svg" ++ size_attributes px rest)

  -- The bytes are an image of that width and height, which is cut from the upper left corner of a
  -- screenshot of this page.
  pub record Cut (rest : Text) (px : ℕ) (b : Bytes) : Type 0 where
    pub screenshot : Bytes
    pub image : Image
    pub made : shot (page px rest) (px + 400) ≡ some (some screenshot)
    pub readable : read_image decompress screenshot ≡ some image
    pub cut :
        read_image decompress b
        ≡ some (record { width = px; height = px; rows = map (take (px * 4)) (take px image.rows) })

  -- The files are renderings of the picture, under these names and of these sizes.
  abbrev pub Cuts : Text → List (Text × ℕ) → List (Text × File) → Type 0
  Cuts rest [] [] = Unit {0}
  Cuts rest ((name, px) ∷ sizes) ((path, raster b) ∷ files) =
      (path ≡ name) × Cut rest px b × Cuts rest sizes files
  Cuts _ _ _ = ⊥

  page_of-page : (px : ℕ) (rest : Text) → page_of px (codes "<svg " ++ rest) ≡ page px rest
  unfolding page_of
  page_of-page px rest =
      ap
        (λ t.
          codes "<style>html,body{margin:0;background:transparent}svg{display:block}</style>" ++ t)
        (sized-first px rest)

  rasterise-Cut :
      (rest : Text) (px : ℕ) (path : Text)
      → Undone decompress compress
      → Shows (page px rest) (px + 400)
      → px ≤ 1024
      → (b : Bytes) × (rasterise decompress compress crc shot (codes "<svg " ++ rest) px path
          ≡ ((path, raster b) ∷ [], true))
        × Cut rest px b
  unfolding rasterise
  rasterise-Cut rest px path zlib s small =
      let (tall, broad) = read_image-HasWidth decompress s.file s.image s.readable in
      let cut_off = length-take_rows px s.image.rows (omega (arith, tall, s.high)) in
      let (b, made, read) =
        png_crop-read_image decompress compress crc s.file s.image px px zlib.undone s.readable
          (omega (arith, s.wide)) (omega (arith, s.high)) (omega (arith, small))
          (omega (arith, small))
          (omega (
            arith,
            zlib.compact (joined_rows px (take px s.image.rows)),
            length-joined_rows px (take px s.image.rows) (omega (arith, small)),
            cut_off,
            small,
          )) in
      (
        b,
        ap (cropped_to decompress compress crc shot px path)
              (ap (λ t. shot t (px + 400)) (page_of-page px rest) ∙ s.made)
            ∙ ap (saved decompress compress crc shot path) made,
        record {
          screenshot = s.file;
          image = s.image;
          made = s.made;
          readable = s.readable;
          cut = read;
        },
      )

  abbrev named : Text → List ℕ → List (Text × ℕ)
  named src [] = []
  named src (px ∷ sizes) = (png_name src px, px) ∷ named src sizes

  each_size-Cuts :
      (rest src : Text) (sizes : List ℕ)
      → Undone decompress compress
      → ((page : Text) (side : ℕ) → side ≤ 1424 → Shows page side)
      → All (λ px. px ≤ 1024) sizes
      → (files : List (Text × File)) × (each_size decompress compress crc shot
            (codes "<svg " ++ rest)
            src
            sizes
          ≡ (files, true))
        × Cuts rest (named src sizes) files
  unfolding each_size
  each_size-Cuts rest src [] zlib browser small = ([], refl, tt)
  each_size-Cuts rest src (px ∷ sizes) zlib browser small =
      let (b, made, cut) =
        rasterise-Cut rest px (png_name src px) zlib
          (browser (page px rest) (px + 400) (omega (arith, small))) small.0 in
      let (files, more, cuts) = each_size-Cuts rest src sizes zlib browser small.1 in
      ((png_name src px, raster b) ∷ files, rw (made, more) refl, (refl, cut, cuts))

  files_of_jobs :
      (named (codes "icon.svg") (1024 ∷ 512 ∷ 192 ∷ 180 ∷ []) ≡ icon_files)
      × (named (codes "logo-16.svg") (32 ∷ 16 ∷ []) ≡ favicon_files)
  unfolding decimal text_eq codes
  files_of_jobs = (refl, refl)

  each_source-Cuts :
      (out : Dict Text) (icon_rest tiny_rest : Text)
      → Undone decompress compress
      → ((page : Text) (side : ℕ) → side ≤ 1424 → Shows page side)
      → get (codes "icon.svg") out ≡ some (codes "<svg " ++ icon_rest)
      → get (codes "logo-16.svg") out ≡ some (codes "<svg " ++ tiny_rest)
      → (icons favicons : List (Text × File)) × (each_source decompress compress crc shot out jobs
          ≡ (icons ++ favicons, true))
        × Cuts icon_rest icon_files icons
        × Cuts tiny_rest favicon_files favicons
  unfolding each_source
  each_source-Cuts out icon_rest tiny_rest zlib browser has_icon has_tiny =
      let (icons, made, cuts) =
        each_size-Cuts icon_rest (codes "icon.svg") (1024 ∷ 512 ∷ 192 ∷ 180 ∷ []) zlib browser
          (omega arith) in
      let (favicons, made_too, cuts_too) =
        each_size-Cuts tiny_rest (codes "logo-16.svg") (32 ∷ 16 ∷ []) zlib browser (omega arith) in
      (
        icons,
        favicons,
        rw (has_icon, has_tiny, made, made_too, append-nil favicons) refl,
        subst (λ l. Cuts icon_rest l icons) files_of_jobs.0 cuts,
        subst (λ l. Cuts tiny_rest l favicons) files_of_jobs.1 cuts_too,
      )

  wrote-files :
      (argv : List Text) (out : Dict Text) (files : List (Text × File))
      → wants_png argv ≡ true
      → each_source decompress compress crc shot out jobs ≡ (files, true)
      → wrote decompress compress crc shot argv (some out) ≡ (pictures out ++ files, true)
  wrote-files argv out files asked made =
      ap
        (λ b.
          followed_by (pictures out, true)
            (if b then each_source decompress compress crc shot out jobs else ([], true)))
        asked
      ∙ ap (followed_by (pictures out, true)) made

  -- The script writes the renderings that it promises. When it has drawn the pictures, "--png" is among
  -- its arguments, zlib undoes what it does, and the browser shows each page in a window of up to 1,424
  -- pixels: it raises nothing, and writes the pictures, and after them icon-1024.png, icon-512.png,
  -- icon-192.png and icon-180.png of icon.svg, and favicon-32.png and favicon-16.png of logo-16.svg. Each
  -- is an image of as many pixels each way as its name says, cut from the upper left corner of a
  -- screenshot of a page that holds the picture with this width and height in its tag.
  pub generate-Cuts :
      (F : Float) (font : Font F) (argv : List Text) (out : Dict Text)
      → outputs F font ≡ some out
      → wants_png argv ≡ true
      → Undone decompress compress
      → ((page : Text) (side : ℕ) → side ≤ 1424 → Shows page side)
      → (icon_rest tiny_rest : Text) × (icons favicons : List (Text × File)) × (get
            (codes "icon.svg")
            out
          ≡ some (codes "<svg " ++ icon_rest))
        × (get (codes "logo-16.svg") out ≡ some (codes "<svg " ++ tiny_rest))
        × (generate decompress compress crc shot F font argv
            ≡ (pictures out ++ (icons ++ favicons), true))
        × Cuts icon_rest icon_files icons
        × Cuts tiny_rest favicon_files favicons
  unfolding generate
  generate-Cuts F font argv out drawn_all asked zlib browser =
      let (icon_rest, tiny_rest, has_icon, has_tiny) =
        subst HasIcons drawn_all (outputs-HasIcons F font) in
      let (icons, favicons, made, cuts, cuts_too) =
        each_source-Cuts out icon_rest tiny_rest zlib browser has_icon has_tiny in
      (
        icon_rest,
        tiny_rest,
        icons,
        favicons,
        has_icon,
        has_tiny,
        ap (wrote decompress compress crc shot argv) drawn_all
            ∙ wrote-files argv out (icons ++ favicons) asked made,
        cuts,
        cuts_too,
      )
