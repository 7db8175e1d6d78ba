-- ===== src/Raster/Files.antt =====
-- `png_crop` of assets/logo/gen.py (lines 367 to 392) from file to file.
use yession.Prelude.{
  ℕ, zero, suc, ◌+◌, ◌*◌, ◌%◌, ◌≤◌, ◌<◌, ◌≡◌, refl, Option, none, some, List, [], ◌∷◌, ◌++◌, map,
  take, drop, length, length-append, arith, ap, sym, subst, ◌∙◌, append_assoc, append-nil, text_eq,
  Bool-cases, inl, inr,
}
use yession.Raster.{Bytes, decoded_rows, zeros, joined_rows}
use yession.Raster.Chunks.{
  signature, ihdr, idat_name, iend, packed, unpacked, Found, size_of, seen, go_on, turn, chunks,
  chunk, Image, as_image, unpack_rows, image_of, read_image, file_of, write_image, png_crop,
  with_size,
}
use yession.Raster.Rows.{HasWidth, HasWidth-take, take-append, drop-append, length-take_rows}
use yession.Raster.Crops.{length-zeros, decoded_rows-joined_rows, decoded_rows-HasWidth}

unpacked-packed : (n : ℕ) → n < 4_294_967_296 → unpacked (packed n) ≡ some n
unfolding unpacked packed
unpacked-packed n h = ap some (omega (arith, h))

-- A chunk that `chunk` wrote is read as one turn of the loop.
chunks-chunk :
    (crc : Bytes → ℕ) (fuel : ℕ) (t0 t1 t2 t3 : ℕ) (b rest : Bytes) (f : Found)
    → length b < 4_294_967_296
    → chunks (suc fuel) (chunk crc (t0 ∷ t1 ∷ t2 ∷ t3 ∷ []) b ++ rest) f
      ≡ go_on (chunks fuel) rest (seen (t0 ∷ t1 ∷ t2 ∷ t3 ∷ []) b f)
unfolding chunks chunk packed
chunks-chunk crc fuel t0 t1 t2 t3 b rest f h =
    ap (λ o. turn (chunks fuel) o file f) (unpacked-packed (length b) h)
    ∙ ap (λ d. go_on (chunks fuel) d (seen typ (take (length b) ((b ++ sum) ++ rest)) f))
        (drop-append (chunk crc typ b) rest (12 + length b) long)
    ∙ ap (λ d. go_on (chunks fuel) rest (seen typ d f))
        (ap (take (length b)) (append_assoc b sum rest)
          ∙ take-append b (sum ++ rest) (length b) refl)
  where
    typ : Bytes
    typ = t0 ∷ t1 ∷ t2 ∷ t3 ∷ []

    sum : Bytes
    sum = packed (crc (typ ++ b) % 4_294_967_296)

    file : Bytes
    file = chunk crc typ b ++ rest

    long : length (chunk crc typ b) ≡ 12 + length b
    long = omega (arith, length-append b sum)

seen-ihdr :
    (w h : ℕ) (f : Found)
    → w < 4_294_967_296
    → h < 4_294_967_296
    → seen ihdr (packed w ++ (packed h ++ 8 ∷ 6 ∷ 0 ∷ 0 ∷ 0 ∷ [])) f
      ≡ some (record f { size = some (w, h) })
unfolding seen packed size_of text_eq
seen-ihdr w h f small_w small_h =
    ap (λ o. with_size f (size_of o (unpacked (packed h)) (8 ∷ 6 ∷ []))) (unpacked-packed w small_w)
    ∙ ap (λ o. with_size f (size_of (some w) o (8 ∷ 6 ∷ []))) (unpacked-packed h small_h)

short_header : (m n : ℕ) → length (packed m ++ (packed n ++ 8 ∷ 6 ∷ 0 ∷ 0 ∷ 0 ∷ [])) < 4_294_967_296
unfolding packed
short_header m n = omega arith

seen-idat : (z : Bytes) (f : Found) → seen idat_name z f ≡ some (record f { idat = f.idat ++ z })
unfolding seen text_eq
seen-idat z f = refl

seen-iend : (f : Found) → seen iend [] f ≡ some f
unfolding seen text_eq
seen-iend f = refl

chunks-none : (fuel : ℕ) (f : Found) → chunks fuel [] f ≡ some f
unfolding chunks
chunks-none zero f = refl
chunks-none (suc fuel) f = refl

chunks-file_of :
    (crc : Bytes → ℕ) (fuel w h : ℕ) (z : Bytes)
    → w < 4_294_967_296
    → h < 4_294_967_296
    → length z < 4_294_967_296
    → chunks (suc (suc (suc fuel))) (drop 8 (file_of crc w h z)) (record { size = none; idat = [] })
      ≡ some (record { size = some (w, h); idat = z })
unfolding file_of
chunks-file_of crc fuel w h z small_w small_h small_z =
    chunks-chunk crc (suc (suc fuel)) 73 72 68 82 body rest _ (short_header w h)
    ∙ ap (go_on (chunks (suc (suc fuel))) rest) (seen-ihdr w h _ small_w small_h)
    ∙ chunks-chunk crc (suc fuel) 73 68 65 84 z (chunk crc iend []) _ small_z
    ∙ ap (go_on (chunks (suc fuel)) (chunk crc iend [])) (seen-idat z _)
    ∙ ap (λ d. chunks (suc fuel) d full) (sym (append-nil (chunk crc iend [])))
    ∙ chunks-chunk crc fuel 73 69 78 68 [] [] _ (omega arith)
    ∙ ap (go_on (chunks fuel) []) (seen-iend _)
    ∙ chunks-none fuel _
  where
    full : Found
    full = record { size = some (w, h); idat = z }

    body : Bytes
    body = packed w ++ (packed h ++ 8 ∷ 6 ∷ 0 ∷ 0 ∷ 0 ∷ [])

    rest : Bytes
    rest = chunk crc idat_name z ++ chunk crc iend []

-- A file that `write_image` made is read as what was compressed for it.
pub read_image-file_of :
    (decompress : Bytes → Option Bytes) (crc : Bytes → ℕ) (w h : ℕ) (z : Bytes)
    → w < 4_294_967_296
    → h < 4_294_967_296
    → length z < 4_294_967_296
    → read_image decompress (file_of crc w h z) ≡ unpack_rows (w, h) (decompress z)
unfolding read_image file_of text_eq chunk packed
read_image-file_of decompress crc w h z small_w small_h small_z =
    ap (image_of decompress) (chunks-file_of crc fuel w h z small_w small_h small_z)
  where
    -- The signature alone is eight bytes long.
    fuel : ℕ
    fuel = suc (suc (suc (suc (suc (length (drop 8 (file_of crc w h z)))))))

as_image-some :
    (width height : ℕ) (o : Option (List Bytes)) (i : Image)
    → as_image width height o ≡ some i
    → (o ≡ some i.rows) × (i.width ≡ width) × (i.height ≡ height)
as_image-some width height none i e = cc
as_image-some width height (some rows) i e =
    subst (λ j. (some rows ≡ some j.rows) × (j.width ≡ width) × (j.height ≡ height)) (the_image e)
      (refl, refl, refl)
  where
    the_image :
        some (record { width = width; height = height; rows = rows }) ≡ some i
        → record { width = width; height = height; rows = rows } ≡ i
    the_image e = cc

unpack_rows-HasWidth :
    (s : ℕ × ℕ) (o : Option Bytes) (i : Image)
    → unpack_rows s o ≡ some i
    → (length i.rows ≡ i.height) × HasWidth (i.width * 4) i.rows
unpack_rows-HasWidth (width, height) none i e = cc
unpack_rows-HasWidth (width, height) (some raw) i e =
    let (read, wide, high) = as_image-some width height _ i e in
    rw (wide, high)
      (decoded_rows-HasWidth (width * 4) height raw (zeros (width * 4)) i.rows
        (length-zeros (width * 4)) read)

image_of-HasWidth :
    (decompress : Bytes → Option Bytes) (o : Option Found) (i : Image)
    → image_of decompress o ≡ some i
    → (length i.rows ≡ i.height) × HasWidth (i.width * 4) i.rows
image_of-HasWidth decompress none i e = cc
image_of-HasWidth decompress (some f) i e = go f.size e
  where
    go :
        (o : Option (ℕ × ℕ))
        → elim o [ none ↦ none | some s ↦ unpack_rows s (decompress f.idat) ] ≡ some i
        → (length i.rows ≡ i.height) × HasWidth (i.width * 4) i.rows
    go none e = cc
    go (some s) e = unpack_rows-HasWidth s (decompress f.idat) i e

-- What is read of any file is an image: as many rows as its height says, each as long as its width, but
-- that the last one may lack up to four bytes.
pub read_image-HasWidth :
    (decompress : Bytes → Option Bytes) (file : Bytes) (i : Image)
    → read_image decompress file ≡ some i
    → (length i.rows ≡ i.height) × HasWidth (i.width * 4) i.rows
unfolding read_image
read_image-HasWidth decompress file i e = elim (Bool-cases (text_eq (take 8 file) signature)) [
  | inl signed ↦ image_of-HasWidth decompress _ i (rw signed at e)
  | inr other ↦ absurd (ground (arith, other, e))
]

-- `png_crop` from file to file, over any file that it can read and any crop within the image: it
-- returns a file, and what it reads of that file in turn is the crop: its width and height, and in each
-- of its rows the beginning of the row of the image. The compressor is one that can be undone; sizes
-- fit in 32 bits.
pub png_crop-read_image :
    (decompress : Bytes → Option Bytes) (compress : Bytes → Bytes) (crc : Bytes → ℕ) (file : Bytes)
    (i : Image) (w h : ℕ)
    → ((b : Bytes) → decompress (compress b) ≡ some b)
    → read_image decompress file ≡ some i
    → w ≤ i.width
    → h ≤ i.height
    → w < 4_294_967_296
    → h < 4_294_967_296
    → length (compress (joined_rows w (take h i.rows))) < 4_294_967_296
    → (out : Bytes) × (png_crop decompress compress crc file w h ≡ some out)
      × (read_image decompress out
          ≡ some (record { width = w; height = h; rows = map (take (w * 4)) (take h i.rows) }))
unfolding png_crop write_image
png_crop-read_image decompress compress crc file i w h undone read across down small_w small_h
      small_z =
    (
      file_of crc w h z,
      rw read (ground (arith, small_w, small_h, small_z)),
      read_image-file_of decompress crc w h z small_w small_h small_z
          ∙ ap (unpack_rows (w, h)) (undone (joined_rows w rows))
          ∙ ap (as_image w h) decoded,
    )
  where
    rows : List Bytes
    rows = take h i.rows

    z : Bytes
    z = compress (joined_rows w rows)

    shape : (length i.rows ≡ i.height) × HasWidth (i.width * 4) i.rows
    shape = read_image-HasWidth decompress file i read

    decoded :
        decoded_rows (w * 4) h (joined_rows w rows) (zeros (w * 4)) ≡ some (map (take (w * 4)) rows)
    decoded =
        subst
          (λ k.
            decoded_rows (w * 4) k (joined_rows w rows) (zeros (w * 4))
            ≡ some (map (take (w * 4)) rows))
          (length-take_rows h i.rows (omega (arith, down, shape.0)))
          (decoded_rows-joined_rows (i.width * 4) w rows (zeros (w * 4))
            (HasWidth-take (i.width * 4) h i.rows shape.1) (omega (arith, across))
            (length-zeros (w * 4)))
