-- ===== src/Hfe/Img/RoundTrip.antt =====
-- hfe/img.go: an image file that is read and written again is the same file.
use fdx.Prelude.{ℕ, ◌+◌, ◌*◌, ◌/◌, ◌≤◌, ◌≡◌, ◌≢◌, refl, ap, ◌∙◌, arith, ◌⊎◌, inl, inr}
use fdx.Prelude.{Bool, true, false, not, ◌&&◌, ◌||◌, if◌then◌else◌, leb, ◌==◌, IsByte, All, u8}
use fdx.Prelude.{List, length}
use fdx.Prelude.Tables.{holds_below, holds_below_sound}
use fdx.Mfm.Symbols.Width.{IsSector, track_width}
use fdx.Mfm.Writer.{header_gap, sector_gap, encode_track_ibmpc}
use fdx.Mfm.Reader.{Reader, got, new_reader, count_sectors_ibmpc}
use fdx.Mfm.Format.{Format, detected, total_sectors, detect_format_from_size}
use fdx.Mfm.Format.Geometry.{IsDensity, IsFormat, detect_format-Fits}
use fdx.Hfe.Disk.{TrackData, Disk}
use fdx.Hfe.Collect.Counted.{count-encode_track}
use fdx.Hfe.Img.{ok, img_bit_rate, img_rpm, img_header, max_half_bits_of, track_sectors}
use fdx.Hfe.Img.{encode_side, encode_disk, read_img, side_of, write_img, saved}
use fdx.Hfe.Img.Sectors.{joined, read_sectors-joined}
use fdx.Hfe.Img.Slices.{track_sectors-HasSectors}
use fdx.Hfe.Img.Disks.{encode_cylinders-HasSides, save_encoded}

half_bits : ℕ → ℕ
half_bits n = img_bit_rate n * 1000 * 60 / img_rpm n * 2

density_test : ℕ → Bool
density_test n = (leb 8 n && leb n 18 && not (n == 11)) || (n == 20 || (n == 36 || n == 39))

fit_test : ℕ → Bool
unfolding density_test half_bits
fit_test n =
    if density_test n then leb (track_width n (img_bit_rate n) false) (half_bits n) else true

-- For 8 to 18, 20, 36 or 39 sectors per track, eleven excepted, the layout at the bit rate and
-- speed that ReadIMG chooses is no longer than the track.
pub density_fits :
    (n : ℕ)
    → IsDensity n
    → n ≢ 11
    → track_width n (img_bit_rate n) false ≤ img_bit_rate n * 1000 * 60 / img_rpm n * 2
unfolding fit_test density_test half_bits
density_fits n d other =
    let fits : fit_test n ≡ true =
      holds_below_sound 40 fit_test
        (unfold holds_below img_bit_rate img_rpm header_gap sector_gap in refl) n (ground arith) in
    let dense : density_test n ≡ true = ground arith in ground arith

-- A track's sectors are among those of the disk.
one_track : (c s n : ℕ) → (c ≡ 40) ⊎ (c ≡ 80) → (s ≡ 1) ⊎ (s ≡ 2) → (0 * s + 0) * n + n ≤ c * s * n
one_track c s n (inl hc) (inl hs) = rw (hc, hs) (omega arith)
one_track c s n (inl hc) (inr hs) = rw (hc, hs) (omega arith)
one_track c s n (inr hc) (inl hs) = rw (hc, hs) (omega arith)
one_track c s n (inr hc) (inr hs) = rw (hc, hs) (omega arith)

-- The sectors of the first track are counted.
count_first :
    (f : Format) (ds : List (List ℕ)) (track : TrackData)
    → IsFormat f
    → f.sectors_per_track ≢ 11
    → All IsSector ds
    → length ds ≡ total_sectors f
    → side_of 0 track ≡ encode_side f (img_header f) ds 0 0
    → (r : Reader) × (count_sectors_ibmpc (new_reader track.side0) ≡ got f.sectors_per_track r)
unfolding encode_side encode_track_ibmpc img_header max_half_bits_of side_of
count_first f ds track shape other all count same =
    let n = f.sectors_per_track in
    let sectors = track_sectors n ((0 * f.sides + 0) * n) ds in
    let inside : (0 * f.sides + 0) * n + n ≤ length ds =
      rw count (one_track f.cylinders f.sides n shape.cylinders shape.sides) in
    let (r, counted) =
      count-encode_track sectors 0 0 (img_bit_rate n) n (ground arith)
        (track_sectors-HasSectors n ((0 * f.sides + 0) * n) ds all inside) false
        (img_bit_rate n * 1000 * 60 / img_rpm n * 2) (density_fits n shape.density other) in
    (r, ap (λ t. count_sectors_ibmpc (new_reader t)) same ∙ counted)

-- The disk of a format is written as its sectors.
write_img-encode_disk :
    (f : Format) (ds : List (List ℕ))
    → IsFormat f
    → f.sectors_per_track ≢ 11
    → All IsSector ds
    → length ds ≡ total_sectors f
    → write_img (encode_disk f ds) ≡ saved (joined ds)
unfolding write_img encode_disk encode_side encode_track_ibmpc img_header max_half_bits_of
write_img-encode_disk f ds shape other all count =
    let side = encode_side f (img_header f) ds in
    let (track, found, same) =
      encode_cylinders-HasSides f.cylinders 0 f.sides 0 side shape.sides (ground arith) in
    let (r, counted) = count_first f ds track shape other all count (same 0 (ground arith)) in
    let n = f.sectors_per_track in
    let cylinders : u8 f.cylinders ≡ f.cylinders = ground arith in
    let sides : u8 f.sides ≡ f.sides = ground arith in
    let written =
      save_encoded ds f.cylinders f.sides n (img_bit_rate n)
        (img_bit_rate n * 1000 * 60 / img_rpm n * 2) false (ground arith) (ground arith)
        (ground arith) all count (density_fits n shape.density other) shape.sides in
    rw (found, write_img) (rw (counted, cylinders, sides) written)

-- A file of bytes whose size DetectFormatFromSize knows, with any number of sectors per track but
-- eleven, is read by ReadIMG without error, and WriteIMG of the disk writes the same bytes, without
-- error.
pub read_img-write_img :
    (file : List ℕ) (f : Format)
    → All IsByte file
    → detect_format_from_size (length file) ≡ detected f
    → f.sectors_per_track ≢ 11
    → (disk : Disk) × (read_img file ≡ ok disk) × (write_img disk ≡ saved file)
unfolding read_img
read_img-write_img file f bytes e other =
    let (size, shape) = detect_format-Fits (length file) f e in
    let (ds, read, count, all, same) = read_sectors-joined (total_sectors f) 0 file size bytes in
    (
      encode_disk f ds,
      rw (e, read_img) (rw read refl),
      write_img-encode_disk f ds shape other all count ∙ ap saved same,
    )
