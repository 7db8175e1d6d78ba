-- ===== src/Raster/Tests.antt =====
-- A picture of two rows of two pixels, with the filters "left" and Paeth.
use yession.Prelude.{ℕ, ◌*◌, ◌≡◌, refl, none, some, text_eq, List, [], ◌∷◌, map, take, arith}
use yession.Raster.{Bytes, cropped, zeros, joined_rows}
use yession.Raster.Filters.{filtered}
use yession.Raster.Chunks.{Image, read_image, file_of, png_crop}
use yession.Raster.Files.{png_crop-read_image}
use yession.Raster.Crops.{encoded}

abbrev first_row : Bytes
first_row = 10 ∷ 20 ∷ 30 ∷ 255 ∷ 250 ∷ 21 ∷ 31 ∷ 255 ∷ []

abbrev second_row : Bytes
second_row = 12 ∷ 18 ∷ 30 ∷ 255 ∷ 3 ∷ 200 ∷ 40 ∷ 254 ∷ []

abbrev picture : List (ℕ × Bytes)
picture = (1, first_row) ∷ (4, second_row) ∷ []

picture_runs :
    (encoded picture (zeros 8)
      ≡ 1 ∷ 10 ∷ 20 ∷ 30 ∷ 255 ∷ 240 ∷ 1 ∷ 1 ∷ 0 ∷ 4 ∷ 2 ∷ 254 ∷ 0 ∷ 0 ∷ 9 ∷ 182 ∷ 9 ∷ 255 ∷ [])
    × (cropped 2 2 1 2 (encoded picture (zeros 8))
        ≡ some (0 ∷ 10 ∷ 20 ∷ 30 ∷ 255 ∷ 0 ∷ 12 ∷ 18 ∷ 30 ∷ 255 ∷ []))
unfolding encoded cropped zeros filtered
picture_runs = (refl, refl)

abbrev plain : Bytes → Bytes
plain b = b

abbrev no_sum : Bytes → ℕ
no_sum b = 0

abbrev picture_file : Bytes
picture_file = file_of no_sum 2 2 (encoded picture (zeros 8))

abbrev picture_image : Image
picture_image = record { width = 2; height = 2; rows = first_row ∷ second_row ∷ [] }

picture_read : read_image some picture_file ≡ some picture_image
unfolding read_image file_of encoded filtered text_eq
picture_read = refl

png_crop-read_image_example :
    (out : Bytes) × (png_crop some plain no_sum picture_file 1 2 ≡ some out)
    × (read_image some out
        ≡ some (record {
          width = 1;
          height = 2;
          rows = map (take (1 * 4)) (take 2 picture_image.rows);
        }))
png_crop-read_image_example =
    png_crop-read_image some plain no_sum picture_file picture_image 1 2 (λ b. refl) picture_read
      (omega arith) (omega arith) (omega arith) (omega arith) (unfold joined_rows in omega arith)

-- Of a last row without a filter up to four bytes may be missing, and it is cut as it is.
abbrev short_data : Bytes
short_data = 0 ∷ 1 ∷ 2 ∷ 3 ∷ 4 ∷ 5 ∷ []

short_row_is_read :
    (cropped 2 1 2 1 short_data ≡ some short_data) × (cropped 2 1 2 1 (1 ∷ 2 ∷ 3 ∷ []) ≡ none)
unfolding picture_runs
short_row_is_read = (refl, refl)
