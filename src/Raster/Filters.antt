-- ===== src/Raster/Filters.antt =====
-- The filters of the PNG standard as an encoder applies them, and `png_crop` on what it writes.
use yession.Prelude.{
  ℕ, ◌+◌, ◌-◌, ◌/◌, ◌%◌, ◌<◌, ◌≡◌, refl, [], ◌∷◌, length, arith, ap, All, ◌==◌, if◌then◌else◌,
}
use yession.Raster.{Bytes, four_back, paeth, restored, unfiltered}

abbrev pub IsBytes : Bytes → Type 0
IsBytes = All (λ v. v < 256)

-- What the filter predicts for a byte, from those to the left, above, and above to the left.
abbrev pub predicted : ℕ → ℕ → ℕ → ℕ → ℕ
predicted ft a b c =
    if ft == 1
    then a
    else if ft == 2
    then b
    else if ft == 3
    then (a + b) / 2
    else if ft == 4
    then paeth a b c
    else 0

-- The byte less its prediction, modulo 256.
abbrev pub filtered_byte : ℕ → ℕ → ℕ
filtered_byte v p = (v + (256 - p % 256)) % 256

unfoldable pub filtered : ℕ → Bytes → Bytes → Bytes → Bytes → Bytes
filtered ft [] bs left up = []
filtered ft (v ∷ vs) [] left up = []
filtered ft (v ∷ vs) (b ∷ bs) left up =
    filtered_byte v (predicted ft (four_back left) b (four_back up))
    ∷ filtered ft vs bs (v ∷ left) (b ∷ up)

byte_back : (v p : ℕ) → v < 256 → (filtered_byte v p + p) % 256 ≡ v
byte_back v p h = omega arith

restored-filtered_byte :
    (ft v a b c : ℕ) → v < 256 → restored ft (filtered_byte v (predicted ft a b c)) a b c ≡ v
unfolding restored
restored-filtered_byte ft v a b c h = ground (
  arith,
  byte_back v a h,
  byte_back v b h,
  byte_back v ((a + b) / 2) h,
  byte_back v (paeth a b c) h,
)

-- A line that was filtered, by any of the filters, is restored.
pub unfiltered-filtered :
    (ft : ℕ) (vs bs left up : Bytes)
    → IsBytes vs
    → length vs ≡ length bs
    → unfiltered ft (filtered ft vs bs left up) bs left up ≡ vs
unfolding unfiltered filtered
unfiltered-filtered ft [] bs left up h e = refl
unfiltered-filtered ft (v ∷ vs) [] left up h e = absurd (omega (arith, e))
unfiltered-filtered ft (v ∷ vs) (b ∷ bs) left up h e =
    rw (restored-filtered_byte ft v (four_back left) b (four_back up) h.0)
      (ap (λ l. v ∷ l) (unfiltered-filtered ft vs bs (v ∷ left) (b ∷ up) h.1 (omega (arith, e))))
