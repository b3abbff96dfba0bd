-- ===== src/Hfe/Imd/Refused.antt =====
-- hfe/imd.go: ConvertIMDToHFE refuses the sector numbers that WriteIMD writes.
use fdx.Prelude.{
  ℕ, zero, suc, ◌+◌, ◌-◌, ◌≤◌, ◌<◌, ◌≡◌, ◌≢◌, refl, ap, sym, ◌∙◌, arith, false, ◌==◌, ==_of_ne,
}
use fdx.Prelude.{
  List, [], ◌∷◌, ◌++◌, length, All, get_elem?, some, none, leb_of_lt, replicate, Bool, inl, inr,
}
use fdx.Prelude.Splits.{Option-cases}
use fdx.Mfm.Symbols.Buffer.{append-All}
use fdx.Mfm.Symbols.Width.{IsSector}
use fdx.Mfm.Format.{Format, total_sectors}
use fdx.Mfm.Format.Geometry.{IsFormat}
use fdx.Hfe.Disk.{Header, TrackData}
use fdx.Hfe.Img.{encode_disk, img_header}
use fdx.Hfe.Imd.{
  ImdTrack, ImdImage, imd_comment_terminator, imd_sector_size, is_compressible,
  mode_to_rate_density,
}
use fdx.Hfe.Imd.Write.{saved, write_imd}
use fdx.Hfe.Imd.Convert.{
  ConvertError, not_converted, invalid_logical, place_sectors, convert_track, convert_tracks,
  convert_imd_to_hfe, max_cylinder, max_head, larger, head_number, imd_header, imd_unconverted,
  read_imd,
}
use fdx.Hfe.Imd.Found.{numbers_below}
use fdx.Hfe.Imd.Files.{cylinder_tracks, head_tracks, image_of}
use fdx.Hfe.Imd.RoundTrip.{
  track_at, all_tracks, all_tracks-cons, nsec-track_at, low, imd_mode_valid, write_imd-encode_disk,
}

max_cylinder_bound :
    (ts : List ImdTrack) (m b : ℕ) → m ≤ b → All (λ t. t.cylinder ≤ b) ts → max_cylinder m ts ≤ b
unfolding max_cylinder
max_cylinder_bound [] m b hm h = hm
max_cylinder_bound (t ∷ ts) m b hm h =
    max_cylinder_bound ts (larger t.cylinder m) b (ground arith) h.1

max_head_bound : (ts : List ImdTrack) (m : ℕ) → m < 16 → max_head m ts < 16
unfolding max_head
max_head_bound [] m hm = hm
max_head_bound (t ∷ ts) m hm = max_head_bound ts (larger (head_number t) m) (ground arith)

module _ (P : ImdTrack → Type 0) (cylinders sides : ℕ) (track : ℕ → ℕ → ImdTrack)
    (h : (cyl head : ℕ) → cyl < cylinders → P (track cyl head)) where
  head_tracks-All : (k head cyl : ℕ) → cyl < cylinders → All P (head_tracks k head cyl track)
  head_tracks-All zero head cyl hc = tt
  head_tracks-All (suc k) head cyl hc = (h cyl head hc, head_tracks-All k (head + 1) cyl hc)

  cylinder_tracks-All :
      (k cyl : ℕ) → cyl + k ≡ cylinders → All P (cylinder_tracks k cyl sides track)
  cylinder_tracks-All zero cyl e = tt
  cylinder_tracks-All (suc k) cyl e =
      append-All P (head_tracks sides 0 cyl track) _ (head_tracks-All sides 0 cyl (omega arith))
        (cylinder_tracks-All k (cyl + 1) (omega arith))

place-zero :
    (n size : ℕ) (t : ImdTrack) (placed : List (List ℕ))
    → get_elem? t.sector_map 0 ≡ some 0
    → place_sectors (suc n) 0 size t placed ≡ not_converted (invalid_logical 0 t.nsec)
unfolding place_sectors
place-zero n size t placed e = rw (e, place_sectors) refl

mode-some : (mode : ℕ) → mode ≤ 5 → mode_to_rate_density mode ≢ none
unfolding mode_to_rate_density
mode-some mode h = ground arith

rate_of_mode : (mode : ℕ) → mode ≤ 5 → (r : ℕ × Bool) × (mode_to_rate_density mode ≡ some r)
rate_of_mode mode h = elim (Option-cases (mode_to_rate_density mode)) [
  | inl missing ↦ absurd (mode-some mode h missing)
  | inr found ↦ found
]

size-2 : (ssize : ℕ) → ssize ≡ 2 → (imd_sector_size ssize == 0) ≡ false
unfolding imd_sector_size
size-2 ssize h = ap (λ k. imd_sector_size k == 0) h

-- A track whose first sector number is 0.
convert_track-zero :
    (h : Header) (t : ImdTrack) (n : ℕ)
    → t.nsec ≡ suc n
    → t.mode ≤ 5
    → t.ssize ≡ 2
    → t.cylinder < h.number_of_track
    → head_number t < h.number_of_side
    → get_elem? t.sector_map 0 ≡ some 0
    → convert_track h t ≡ not_converted (invalid_logical 0 t.nsec)
unfolding convert_track
convert_track-zero h t n hn hm hs hc hh hz =
    let (r, rate) = rate_of_mode t.mode hm in
    let placed : place_sectors t.nsec 0 (imd_sector_size t.ssize) t (replicate t.nsec [])
        ≡ not_converted (invalid_logical 0 t.nsec) =
      ap (λ k. place_sectors k 0 (imd_sector_size t.ssize) t (replicate t.nsec [])) hn
      ∙ place-zero n (imd_sector_size t.ssize) t (replicate t.nsec []) hz in
    rw (size-2 t.ssize hs) (
      rw (rate, convert_track)
        (rw (leb_of_lt h.number_of_track t.cylinder hc)
          (rw (leb_of_lt h.number_of_side (head_number t) hh) (rw (placed, convert_track) refl))))

convert_tracks-refused :
    (h : Header) (t : ImdTrack) (ts : List ImdTrack) (disk : List TrackData) (e : ConvertError)
    → t.nsec ≢ 0
    → convert_track h t ≡ not_converted e
    → convert_tracks h (t ∷ ts) disk ≡ not_converted e
unfolding convert_tracks
convert_tracks-refused h t ts disk e some_sectors refused =
    rw (==_of_ne t.nsec 0 some_sectors, convert_tracks) (rw (refused, convert_tracks) refl)

-- The first track of an image is refused.
convert-refused :
    (img : ImdImage) (t : ImdTrack) (ts : List ImdTrack) (why : ConvertError)
    → img.tracks ≡ t ∷ ts
    → t.nsec ≢ 0
    → convert_track (imd_header img) t ≡ not_converted why
    → convert_imd_to_hfe img ≡ not_converted why
unfolding convert_imd_to_hfe
convert-refused img t ts why e some_sectors refused =
    let some_tracks : (length img.tracks == 0) ≡ false =
      ap (λ x. length x == 0) e ∙ ==_of_ne (suc (length ts)) 0 (λ z. omega arith) in
    let first : (disk : List TrackData)
        → convert_tracks (imd_header img) img.tracks disk ≡ not_converted why =
      λ disk.
        ap (λ x. convert_tracks (imd_header img) x disk) e
        ∙ convert_tracks-refused (imd_header img) t ts disk why some_sectors refused in
    rw some_tracks (rw (first _, convert_imd_to_hfe) refl)

first-append : (xs ys : List ℕ) (x : ℕ) → get_elem? xs 0 ≡ some x → get_elem? (xs ++ ys) 0 ≡ some x
first-append [] ys x h = cc
first-append (z ∷ xs) ys x h = h

first-numbers_below : (n : ℕ) → get_elem? (numbers_below (suc n)) 0 ≡ some 0
first-numbers_below zero = refl
first-numbers_below (suc n) =
    first-append (numbers_below (suc n)) (suc n ∷ []) 0 (first-numbers_below n)

module _ (f : Format) (ds : List (List ℕ)) (shape : IsFormat f) (other : f.sectors_per_track ≢ 11)
    (all : All IsSector ds) (count : length ds ≡ total_sectors f)
    (plain : All (λ d. is_compressible d ≡ false) ds) (comment : List ℕ) where
  abbrev image : ImdImage
  image = image_of comment (all_tracks f ds shape other all count plain)

  abbrev start : ImdTrack
  start = track_at f ds shape other all count plain 0 0

  spt : suc (f.sectors_per_track - 1) ≡ f.sectors_per_track
  spt = omega (arith, low f ds shape other all count plain)

  sectors_there : start.nsec ≡ suc (f.sectors_per_track - 1)
  sectors_there = nsec-track_at f ds shape other all count plain 0 0 ∙ sym spt

  cylinder_inside : start.cylinder < (imd_header image).number_of_track
  unfolding imd_header
  cylinder_inside =
      let few : max_cylinder 0 image.tracks ≤ 79 =
        max_cylinder_bound image.tracks 0 79 (omega arith) (
          cylinder_tracks-All (λ t. t.cylinder ≤ 79) f.cylinders f.sides
            (track_at f ds shape other all count plain)
            (λ cyl head h. ground (arith, shape.cylinders)) f.cylinders 0 (omega arith)) in
      omega arith

  head_inside : head_number start < (imd_header image).number_of_side
  unfolding imd_header
  head_inside =
      let few : max_head 0 image.tracks < 16 = max_head_bound image.tracks 0 (omega arith) in
      omega arith

  first-refused :
      convert_track (imd_header image) start ≡ not_converted (invalid_logical 0 f.sectors_per_track)
  first-refused =
      convert_track-zero (imd_header image) start (f.sectors_per_track - 1) sectors_there
        (imd_mode_valid (img_header f)) refl cylinder_inside head_inside
        (ap (λ n. get_elem? (numbers_below n) 0) sectors_there
          ∙ first-numbers_below (f.sectors_per_track - 1))
      ∙ ap (λ n. not_converted (invalid_logical 0 n)) (sectors_there ∙ spt)

  -- The file that WriteIMD writes for such a disk is never converted by ReadIMD: ConvertIMDToHFE
  -- takes sector numbers for counted from 1, and refuses the number 0 that WriteIMD writes first.
  pub read_imd-refused :
      All (λ b. b ≢ imd_comment_terminator) comment
      → (file : List ℕ) × (write_imd comment (encode_disk f ds) ≡ saved file)
        × (read_imd file ≡ imd_unconverted (invalid_logical 0 f.sectors_per_track))
  unfolding read_imd
  read_imd-refused h =
      let (file, written, reads) =
        write_imd-encode_disk f ds shape other all count plain comment h in
      let (ts, e) = all_tracks-cons f ds shape other all count plain in
      let refused =
        convert-refused image start ts (invalid_logical 0 f.sectors_per_track) e
          (λ z. omega (arith, sectors_there, z)) first-refused in
      (file, written, rw (reads, read_imd) (rw (refused, read_imd) refl))
