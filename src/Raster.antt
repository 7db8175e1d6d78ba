-- ===== src/Raster.antt =====
-- `png_crop` of assets/logo/gen.py (lines 367 to 392): the scan lines of a PNG of 8-bit RGBA pixels,
-- unfiltered, and those of the crop.
pub mod Chunks
pub mod Filters
pub mod Rows
pub mod Crops
pub mod Files
mod Tests
use yession.Prelude.{
  ℕ, zero, suc, ◌+◌, ◌-◌, ◌*◌, ◌/◌, ◌%◌, Option, none, some, List, [], ◌∷◌, ◌++◌, map, take, drop,
  length, leb, Bool, not, ◌||◌, ◌&&◌, ◌==◌, if◌then◌else◌,
}

abbrev pub Bytes : Type 0
Bytes = List ℕ

-- `line[i-bpp] if i >= bpp else 0`, of the bytes before the i-th, the nearest first; `bpp` is 4.
unfoldable pub four_back : Bytes → ℕ
four_back (w ∷ x ∷ y ∷ z ∷ rest) = z
four_back _ = 0

-- `abs` of a difference.
unfoldable pub distance : ℕ → ℕ → ℕ
distance m n = (m - n) + (n - m)

-- The choice of filter 4 among the bytes to the left, above, and above to the left.
unfoldable pub paeth : ℕ → ℕ → ℕ → ℕ
unfolding distance
paeth a b c =
    let pa = distance b c in
    let pb = distance a c in
    let pc = distance (a + b) (2 * c) in
    if leb pa pb && leb pa pc then a else if leb pb pc then b else c

-- `line[i]` after its turn of the loop.
unfoldable pub restored : ℕ → ℕ → ℕ → ℕ → ℕ → ℕ
unfolding paeth
restored ft x a b c =
    if ft == 1
    then (x + a) % 256
    else if ft == 2
    then (x + b) % 256
    else if ft == 3
    then (x + (a + b) / 2) % 256
    else if ft == 4
    then (x + paeth a b c) % 256
    else x

-- The loop over `i`: what is left of `line` and of `prev`, and what lies before, the nearest first.
-- It ends where `line` does; whether `line` may be that short is for `is_long_enough`.
unfoldable pub unfiltered : ℕ → Bytes → Bytes → Bytes → Bytes → Bytes
unfolding restored four_back
unfiltered ft [] bs left up = []
unfiltered ft (x ∷ xs) [] left up = []
unfiltered ft (x ∷ xs) (b ∷ bs) left up =
    let v = restored ft x (four_back left) b (four_back up) in
    v ∷ unfiltered ft xs bs (v ∷ left) (b ∷ up)

abbrev pub row_before : Bytes → Option (List Bytes) → Option (List Bytes)
row_before r none = none
row_before r (some rs) = some (r ∷ rs)

-- The four filters that look at `line[i]`.
abbrev pub is_filter : ℕ → Bool
is_filter ft = ft == 1 || (ft == 2 || (ft == 3 || ft == 4))

-- Whether no index of the loop over `i` is out of range in a line of `n` bytes, at most `stride`: without a
-- filter the loop reads of the line only what is four bytes back.
abbrev pub is_long_enough : ℕ → ℕ → ℕ → Bool
is_long_enough ft n stride = n == stride || (not (is_filter ft) && leb stride (n + 4))

-- The loop over the rows; `none` is the IndexError of a `raw` that is too short.
unfoldable pub decoded_rows : ℕ → ℕ → Bytes → Bytes → Option (List Bytes)
unfolding unfiltered
decoded_rows stride zero raw prev = some []
decoded_rows stride (suc n) [] prev = none
decoded_rows stride (suc n) (ft ∷ raw) prev =
    let line = unfiltered ft (take stride raw) prev [] [] in
    let rest = decoded_rows stride n (drop stride raw) line in
    if is_long_enough ft (length (take stride raw)) stride then row_before line rest else none

-- `bytearray(n)`
unfoldable pub zeros : ℕ → Bytes
zeros zero = []
zeros (suc n) = 0 ∷ zeros n

-- `b"".join(b"\x00" + r[:w*4] for r in rows)`
unfoldable pub joined_rows : ℕ → List Bytes → Bytes
joined_rows w [] = []
joined_rows w (r ∷ rows) = 0 ∷ take (w * 4) r ++ joined_rows w rows

abbrev pub joined_option : ℕ → ℕ → Option (List Bytes) → Option Bytes
joined_option w h none = none
joined_option w h (some rows) = some (joined_rows w (take h rows))

-- From the decompressed data of an image of `width` and `height` to the data of the crop of `w` and
-- `h`, before it is compressed.
unfoldable pub cropped : ℕ → ℕ → ℕ → ℕ → Bytes → Option Bytes
unfolding decoded_rows zeros joined_rows
cropped width height w h raw =
    joined_option w h (decoded_rows (width * 4) height raw (zeros (width * 4)))
