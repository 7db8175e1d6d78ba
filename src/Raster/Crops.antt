-- ===== src/Raster/Crops.antt =====
-- Whole images: what an encoder writes with any filter on each row, what `png_crop` reads of it, and
-- what a reader finds in the crop.
use yession.Prelude.{
  ℕ, zero, suc, ◌*◌, ◌≤◌, ◌≡◌, refl, Option, none, some, List, [], ◌∷◌, ◌++◌, map, take, drop,
  length, arith, ap, Bool-cases, inl, inr, ◌+◌, ◌==◌, sym, ◌∙◌, All, subst,
}
use yession.Raster.{
  Bytes, is_long_enough, unfiltered, row_before, decoded_rows, zeros, joined_rows, joined_option,
  cropped,
}
use yession.Raster.Rows.{
  whole-IsRow, HasWidth, HasWidth-take, take-append, drop-append, take-all, drop-short,
  length-take_le, length-take_near, length-take, length-take_rows,
}
use yession.Raster.Filters.{IsBytes, filtered, unfiltered-filtered}

-- The rows of an image, each with its filter, as an encoder writes them: the number of the filter and
-- the filtered bytes. `prev` is the row before.
unfoldable pub encoded : List (ℕ × Bytes) → Bytes → Bytes
encoded [] prev = []
encoded ((ft, r) ∷ rows) prev = ft ∷ filtered ft r prev [] [] ++ encoded rows r

abbrev pub pixels : List (ℕ × Bytes) → List Bytes
pixels rows = map (λ row. row.1) rows

-- Every row is that many bytes.
abbrev pub HasRows : ℕ → List Bytes → Type 0
HasRows stride = All (λ r. IsBytes r × (length r ≡ stride))

HasRows-HasWidth : (stride : ℕ) (rows : List Bytes) → HasRows stride rows → HasWidth stride rows
HasRows-HasWidth stride [] v = tt
HasRows-HasWidth stride (r ∷ rows) v =
    (whole-IsRow stride r rows v.0.1, HasRows-HasWidth stride rows v.1)

length-filtered :
    (ft : ℕ) (vs bs left up : Bytes)
    → length vs ≡ length bs
    → length (filtered ft vs bs left up) ≡ length vs
unfolding filtered
length-filtered ft [] bs left up e = refl
length-filtered ft (v ∷ vs) [] left up e = absurd (omega (arith, e))
length-filtered ft (v ∷ vs) (b ∷ bs) left up e =
    ap suc (length-filtered ft vs bs (v ∷ left) (b ∷ up) (omega (arith, e)))

pub length-zeros : (n : ℕ) → length (zeros n) ≡ n
unfolding zeros
length-zeros zero = refl
length-zeros (suc n) = ap suc (length-zeros n)

-- One row of the data, read: the filtered bytes are as many as a row has.
decoded_rows-row :
    (stride n ft : ℕ) (line raw prev : Bytes)
    → length line ≡ stride
    → decoded_rows stride (suc n) (ft ∷ line ++ raw) prev
      ≡ row_before
          (unfiltered ft line prev [] [])
          (decoded_rows stride n raw (unfiltered ft line prev [] []))
unfolding decoded_rows
decoded_rows-row stride n ft line raw prev e =
    rw (take-append line raw stride e, drop-append line raw stride e) (ground (arith, e))

decoded_rows-encoded :
    (stride : ℕ) (rows : List (ℕ × Bytes)) (prev : Bytes)
    → HasRows stride (pixels rows)
    → length prev ≡ stride
    → decoded_rows stride (length rows) (encoded rows prev) prev ≡ some (pixels rows)
unfolding encoded
decoded_rows-encoded stride [] prev h e = unfold decoded_rows in refl
decoded_rows-encoded stride ((ft, r) ∷ rows) prev h e =
    let same = h.0.1 ∙ sym e in
    decoded_rows-row stride (length rows) ft (filtered ft r prev [] []) (encoded rows r) prev
      (length-filtered ft r prev [] [] same ∙ h.0.1)
    ∙ rw (unfiltered-filtered ft r prev [] [] h.0.0 same)
        (ap (row_before r) (decoded_rows-encoded stride rows r h.1 h.0.1))

unfiltered-plain : (vs bs left up : Bytes) → length vs ≤ length bs → unfiltered 0 vs bs left up ≡ vs
unfolding unfiltered
unfiltered-plain [] bs left up e = refl
unfiltered-plain (v ∷ vs) [] left up e = absurd (omega (arith, e))
unfiltered-plain (v ∷ vs) (b ∷ bs) left up e =
    ap (λ l. v ∷ l) (unfiltered-plain vs bs (v ∷ left) (b ∷ up) (omega (arith, e)))

-- The last row of the data, read, when it has no filter.
decoded_rows-last :
    (stride : ℕ) (line prev : Bytes)
    → length line ≤ stride
    → stride ≤ length line + 4
    → length prev ≡ stride
    → decoded_rows stride 1 (0 ∷ line ++ []) prev ≡ some (line ∷ [])
unfolding decoded_rows
decoded_rows-last stride line prev short near e =
    rw (take-all line stride short, unfiltered-plain line prev [] [] (omega (arith, short, e)))
      (ground (arith, near))

-- The rows of a crop, read: each is the beginning of its row.
pub decoded_rows-joined_rows :
    (stride w : ℕ) (rows : List Bytes) (prev : Bytes)
    → HasWidth stride rows
    → w * 4 ≤ stride
    → length prev ≡ w * 4
    → decoded_rows (w * 4) (length rows) (joined_rows w rows) prev ≡ some (map (take (w * 4)) rows)
unfolding joined_rows
decoded_rows-joined_rows stride w [] prev h fits e = unfold decoded_rows in refl
decoded_rows-joined_rows stride w (r ∷ rows) prev h fits e = elim h.0.2 [
  | inl last ↦ rw last (
      decoded_rows-last (w * 4) (take (w * 4) r) prev (length-take_le (w * 4) r)
        (length-take_near (w * 4) r (omega (arith, h.0.1, fits))) e)
  | inr whole ↦
      let cut = length-take (w * 4) r (omega (arith, whole, fits)) in
      decoded_rows-row (w * 4) (length rows) 0 (take (w * 4) r) (joined_rows w rows) prev cut
      ∙ rw (unfiltered-plain (take (w * 4) r) prev [] [] (omega (arith, cut, e))) (
          ap (row_before (take (w * 4) r))
            (decoded_rows-joined_rows stride w rows (take (w * 4) r) h.1 fits cut))
]

length-pixels : (rows : List (ℕ × Bytes)) → length (pixels rows) ≡ length rows
length-pixels [] = refl
length-pixels (row ∷ rows) = ap suc (length-pixels rows)

unfiltered-length :
    (ft : ℕ) (xs bs left up : Bytes)
    → length xs ≤ length bs
    → length (unfiltered ft xs bs left up) ≡ length xs
unfolding unfiltered
unfiltered-length ft [] bs left up e = refl
unfiltered-length ft (x ∷ xs) [] left up e = absurd (omega (arith, e))
unfiltered-length ft (x ∷ xs) (b ∷ bs) left up e =
    ap suc (unfiltered-length ft xs bs _ (b ∷ up) (omega (arith, e)))

row_before-some :
    (r : Bytes) (o : Option (List Bytes)) (rows : List Bytes)
    → row_before r o ≡ some rows
    → (rs : List Bytes) × (o ≡ some rs) × (rows ≡ r ∷ rs)
row_before-some r none rows e = cc
row_before-some r (some rs) rows e = (rs, refl, cc)

-- There are no rows in no data.
decoded_rows-none :
    (stride n : ℕ) (prev : Bytes) (rows : List Bytes)
    → decoded_rows stride n [] prev ≡ some rows
    → (n ≡ 0) × (rows ≡ [])
unfolding decoded_rows
decoded_rows-none stride zero prev rows d = (refl, cc)
decoded_rows-none stride (suc n) prev rows d = cc

-- The rows that are decoded are as many as were asked for, each of the length that was asked for, but
-- that the last one may lack up to four bytes.
pub decoded_rows-HasWidth :
    (stride n : ℕ) (raw prev : Bytes) (rows : List Bytes)
    → length prev ≡ stride
    → decoded_rows stride n raw prev ≡ some rows
    → (length rows ≡ n) × HasWidth stride rows
unfolding decoded_rows
decoded_rows-HasWidth stride zero raw prev rows e d =
    subst (λ l. (length l ≡ zero) × HasWidth stride l) (the_rows d) (refl, tt)
  where
    the_rows : some [] ≡ some rows → [] ≡ rows
    the_rows h = cc
decoded_rows-HasWidth stride (suc n) [] prev rows e d = cc
decoded_rows-HasWidth stride (suc n) (ft ∷ raw) prev rows e d =
    elim (Bool-cases (is_long_enough ft (length (take stride raw)) stride)) [
      | inr short ↦ cc (rw short at d)
      | inl enough ↦
          let line = unfiltered ft (take stride raw) prev [] [] in
          let most = length-take_le stride raw in
          let wide = unfiltered-length ft (take stride raw) prev [] [] (omega (arith, most, e)) in
          let (rs, read, same) = row_before-some line _ rows (rw enough at d) in
          elim (Bool-cases (length (take stride raw) == stride)) [
            | inl full ↦
                let whole = wide ∙ ground (arith, full) in
                let (many, all) =
                  decoded_rows-HasWidth stride n (drop stride raw) line rs whole read in
                rw same (ap suc many, (whole-IsRow stride line rs whole, all))
            | inr short ↦
                let near : stride ≤ length (take stride raw) + 4 = ground (arith, enough, short) in
                let nothing = drop-short stride raw (ground (arith, most, short)) in
                let (done, last) = decoded_rows-none stride n line rs (rw nothing at read) in
                rw (same, last)
                  (
                    omega (arith, done),
                    ((omega (arith, wide, most), omega (arith, wide, near), inl refl), tt),
                  )
          ]
    ]

-- The crop of an image, whichever filter each of its rows was written with, is data in which a reader
-- finds `h` rows: the first `h` of the image, each cut to its first `w` pixels. The crop lies within
-- the image.
pub cropped-rows :
    (width w h : ℕ) (rows : List (ℕ × Bytes))
    → HasRows (width * 4) (pixels rows)
    → w ≤ width
    → h ≤ length rows
    → (out : Bytes) × (cropped width (length rows) w h (encoded rows (zeros (width * 4)))
        ≡ some out)
      × (decoded_rows (w * 4) h out (zeros (w * 4))
          ≡ some (map (take (w * 4)) (take h (pixels rows))))
unfolding cropped
cropped-rows width w h rows v across down = (
  joined_rows w (take h (pixels rows)),
  ap (joined_option w h)
      (decoded_rows-encoded (width * 4) rows (zeros (width * 4)) v (length-zeros (width * 4))),
  subst
      (λ k.
        decoded_rows (w * 4) k (joined_rows w (take h (pixels rows))) (zeros (w * 4))
        ≡ some (map (take (w * 4)) (take h (pixels rows))))
      (length-take_rows h (pixels rows) (omega (arith, down, length-pixels rows)))
      (decoded_rows-joined_rows (width * 4) w (take h (pixels rows)) (zeros (w * 4))
        (HasWidth-take (width * 4) h (pixels rows) (HasRows-HasWidth (width * 4) (pixels rows) v))
        (omega (arith, across)) (length-zeros (w * 4))),
)
