-- ===== src/Raster/Chunks.antt =====
-- The chunks of a PNG file, read and written as `png_crop` of assets/logo/gen.py does (lines 367 to 376
-- and 389 to 392). Texts of bytes are compared as texts of code points are.
use yession.Prelude.{
  ℕ, zero, suc, ◌+◌, ◌*◌, ◌/◌, ◌%◌, Option, none, some, List, [], ◌∷◌, ◌++◌, take, drop, length,
  ltb, ◌&&◌, ◌==◌, if◌then◌else◌, text_eq,
}
use yession.Raster.{Bytes, decoded_rows, zeros, joined_rows}

abbrev pub signature : Bytes
signature = 137 ∷ 80 ∷ 78 ∷ 71 ∷ 13 ∷ 10 ∷ 26 ∷ 10 ∷ []

abbrev pub ihdr : Bytes
ihdr = 73 ∷ 72 ∷ 68 ∷ 82 ∷ []

abbrev pub idat_name : Bytes
idat_name = 73 ∷ 68 ∷ 65 ∷ 84 ∷ []

abbrev pub iend : Bytes
iend = 73 ∷ 69 ∷ 78 ∷ 68 ∷ []

-- `struct.pack(">I", n)` for an `n` below 2 ^ 32.
unfoldable pub packed : ℕ → Bytes
packed n = n / 16_777_216 % 256 ∷ n / 65_536 % 256 ∷ n / 256 % 256 ∷ n % 256 ∷ []

-- `struct.unpack(">I", ...)`, which wants four bytes.
unfoldable pub unpacked : Bytes → Option ℕ
unpacked (a ∷ b ∷ c ∷ d ∷ []) = some (((a * 256 + b) * 256 + c) * 256 + d)
unpacked _ = none

-- The width, the height and the data read so far.
pub record Found : Type 0 where
  pub size : Option (ℕ × ℕ)
  pub idat : Bytes

-- `W, Hh` of the body of an IHDR chunk, `none` if it is too short or the assertion fails.
unfoldable pub size_of : Option ℕ → Option ℕ → Bytes → Option (ℕ × ℕ)
size_of (some width) (some height) (depth ∷ ctype ∷ rest) =
    if depth == 8 && ctype == 6 then some (width, height) else none
size_of _ _ _ = none

abbrev pub with_size : Found → Option (ℕ × ℕ) → Option Found
with_size f none = none
with_size f (some s) = some (record f { size = some s })

-- One turn of the loop over the chunks, given the type and the body of one.
unfoldable pub seen : Bytes → Bytes → Found → Option Found
unfolding size_of unpacked
seen typ body f =
    if text_eq typ ihdr
    then with_size f
        (size_of (unpacked (take 4 body)) (unpacked (take 4 (drop 4 body))) (drop 8 (take 10 body)))
    else if text_eq typ idat_name
    then some (record f { idat = f.idat ++ body })
    else some f

abbrev pub go_on : (Bytes → Found → Option Found) → Bytes → Option Found → Option Found
go_on rest file none = none
go_on rest file (some f) = rest file f

-- One turn, given the length of the body: a slice stops at the end of the file.
abbrev pub turn : (Bytes → Found → Option Found) → Option ℕ → Bytes → Found → Option Found
turn rest none file f = none
turn rest (some ln) file f =
    go_on rest (drop (12 + ln) file) (seen (take 4 (drop 4 file)) (take ln (drop 8 file)) f)

-- The loop over the chunks. The fuel is the number of bytes, and each turn takes twelve or more.
unfoldable pub chunks : ℕ → Bytes → Found → Option Found
unfolding seen unpacked
chunks fuel [] f = some f
chunks zero (x ∷ file) f = none
chunks (suc fuel) (x ∷ file) f = turn (chunks fuel) (unpacked (take 4 (x ∷ file))) (x ∷ file) f

-- `chunk`; `crc` is `zlib.crc32`.
unfoldable pub chunk : (Bytes → ℕ) → Bytes → Bytes → Bytes
unfolding packed
chunk crc t b = packed (length b) ++ (t ++ (b ++ packed (crc (t ++ b) % 4_294_967_296)))

-- The size and the rows of a file.
pub record Image : Type 0 where
  pub width : ℕ
  pub height : ℕ
  pub rows : List Bytes

abbrev pub as_image : ℕ → ℕ → Option (List Bytes) → Option Image
as_image width height none = none
as_image width height (some rows) = some (record { width = width; height = height; rows = rows })

abbrev pub unpack_rows : ℕ × ℕ → Option Bytes → Option Image
unpack_rows (width, height) none = none
unpack_rows (width, height) (some raw) =
    as_image width height (decoded_rows (width * 4) height raw (zeros (width * 4)))

module _ (decompress : Bytes → Option Bytes) where
  abbrev pub image_of : Option Found → Option Image
  image_of none = none
  image_of (some f) = elim f.size [ none ↦ none | some s ↦ unpack_rows s (decompress f.idat) ]

  -- `png_crop` up to its loop over the rows, that included. `none` is an exception.
  unfoldable pub read_image : Bytes → Option Image
  unfolding chunks decoded_rows zeros
  read_image file =
      if text_eq (take 8 file) signature
      then image_of (chunks (length file) (drop 8 file) (record { size = none; idat = [] }))
      else none

module _ (crc : Bytes → ℕ) where
  -- The value that `png_crop` returns, for numbers that `struct.pack` takes.
  unfoldable pub file_of : ℕ → ℕ → Bytes → Bytes
  unfolding chunk packed
  file_of w h z =
      signature
      ++ (chunk crc ihdr (packed w ++ (packed h ++ 8 ∷ 6 ∷ 0 ∷ 0 ∷ 0 ∷ []))
          ++ (chunk crc idat_name z ++ chunk crc iend []))

  unfoldable pub write_image : ℕ → ℕ → Bytes → Option Bytes
  unfolding file_of
  write_image w h z =
      if ltb w 4_294_967_296 && (ltb h 4_294_967_296 && ltb (length z) 4_294_967_296)
      then some (file_of w h z)
      else none

module _ (decompress : Bytes → Option Bytes) (compress : Bytes → Bytes) (crc : Bytes → ℕ) where
  abbrev pub crop_of : ℕ → ℕ → Option Image → Option Bytes
  crop_of w h none = none
  crop_of w h (some i) = write_image crc w h (compress (joined_rows w (take h i.rows)))

  unfoldable pub png_crop : Bytes → ℕ → ℕ → Option Bytes
  unfolding read_image write_image joined_rows
  png_crop file w h = crop_of w h (read_image decompress file)
