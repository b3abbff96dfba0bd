-- ===== src/Hfe/Imd/RoundTrip.antt =====
-- hfe/imd.go: the disk that ReadIMG encodes, written by WriteIMD and read by ReadIMDFile.
use fdx.Prelude.{
  ℕ, zero, suc, ◌+◌, ◌*◌, ◌/◌, ◌≤◌, ◌<◌, ◌≡◌, ◌≢◌, refl, ap, subst, sym, ◌∙◌, arith, false,
}
use fdx.Prelude.{
  append-nil, append_assoc, ap₂, List, [], ◌∷◌, ◌++◌, length, All, get_or, get_elem?, none, some,
  IsByte, inl, inr,
}
use fdx.Mfm.Symbols.Width.{IsSector}
use fdx.Mfm.Writer.{encode_track_ibmpc}
use fdx.Mfm.Format.{Format, total_sectors}
use fdx.Mfm.Format.Geometry.{IsFormat}
use fdx.Hfe.Disk.{TrackData, Header}
use fdx.Hfe.Img.{
  track_sectors, img_header, img_bit_rate, img_rpm, encode_side, encode_disk, max_half_bits_of,
  side_of,
}
use fdx.Hfe.Img.Slices.{
  track_sectors-HasSectors, length-track_sectors, get_or-track_sectors, mul_mono,
}
use fdx.Hfe.Img.Disks.{encode_cylinders-HasSides}
use fdx.Hfe.Img.RoundTrip.{density_fits}
use fdx.Hfe.Imd.{ImdTrack, imd_comment_terminator, is_compressible, rate_density_to_mode, base_mode}
use fdx.Hfe.Imd.Read.{loaded, read_imd_file, first_with_sectors}
use fdx.Hfe.Imd.Write.{
  saved, write_imd, write_imd_cylinders, write_imd_side, imd_mode, imd_side, imd_cylinders,
  imd_sides,
}
use fdx.Hfe.Imd.Sides.{imd_track, write_imd_side-encoded}
use fdx.Hfe.Imd.Files.{
  Writes, file_of, tracks_of, image_of, cylinder_tracks, cylinders-Writes, cylinder_tracks-cons,
  first_with_sectors-cons, read_imd_file-entries,
}

pub imd_mode_valid : (h : Header) → imd_mode h ≤ 5
unfolding imd_mode rate_density_to_mode base_mode
imd_mode_valid h = ground arith

get_or-All :
    (ds : List (List ℕ)) (i : ℕ)
    → All (λ d. is_compressible d ≡ false) ds
    → i < length ds
    → is_compressible (get_or ds i []) ≡ false
get_or-All [] i h k = absurd (omega arith)
get_or-All (d ∷ ds) zero h k = h.0
get_or-All (d ∷ ds) (suc i) h k = get_or-All ds i h.1 (omega arith)

-- The sides of a track with two sides at most.
imd_side-side_of :
    (cyl head sides : ℕ) (tracks : List TrackData) (track : TrackData)
    → get_elem? tracks cyl ≡ some track
    → head < sides
    → sides ≤ 2
    → imd_side cyl head tracks ≡ side_of head track
unfolding imd_side side_of
imd_side-side_of cyl zero sides tracks track found h k = rw (found, imd_side) refl
imd_side-side_of cyl (suc zero) sides tracks track found h k = rw (found, imd_side) refl
imd_side-side_of cyl (suc (suc head)) sides tracks track found h k = absurd (omega arith)

module _ (f : Format) (ds : List (List ℕ)) (shape : IsFormat f) (other : f.sectors_per_track ≢ 11)
    (all : All IsSector ds) (count : length ds ≡ total_sectors f)
    (plain : All (λ d. is_compressible d ≡ false) ds) where
  -- The sectors of a track, and the track that is read back.
  abbrev pub of_track : ℕ → ℕ → List (List ℕ)
  of_track cyl head =
      track_sectors f.sectors_per_track ((cyl * f.sides + head) * f.sectors_per_track) ds

  abbrev pub track_at : ℕ → ℕ → ImdTrack
  track_at cyl head = imd_track (imd_mode (img_header f)) cyl head (of_track cyl head)

  inside :
      (cyl head : ℕ)
      → cyl < f.cylinders
      → head < f.sides
      → (cyl * f.sides + head) * f.sectors_per_track + f.sectors_per_track ≤ length ds
  inside cyl head h k =
      let n = f.sectors_per_track in
      let a : (cyl + 1) * f.sides ≤ f.cylinders * f.sides =
        mul_mono (cyl + 1) f.cylinders f.sides (omega arith) in
      let b : (cyl * f.sides + head + 1) * n ≤ f.cylinders * f.sides * n =
        mul_mono (cyl * f.sides + head + 1) (f.cylinders * f.sides) n (omega arith) in
      omega arith

  small_cylinder : (cyl : ℕ) → cyl < f.cylinders → IsByte cyl
  small_cylinder cyl h = elim shape.cylinders [ inl e ↦ omega arith | inr e ↦ omega arith ]

  small_head : (head : ℕ) → head < f.sides → head < 16
  small_head head h = elim shape.sides [ inl e ↦ omega arith | inr e ↦ omega arith ]

  pub low : 1 ≤ f.sectors_per_track
  low = ground (arith, shape.density)

  high : f.sectors_per_track < 256
  high = ground (arith, shape.density)

  side-Writes :
      (cyl head : ℕ)
      → cyl < f.cylinders
      → head < f.sides
      → Writes (track_at cyl head ∷ []) (
          write_imd_side
            (imd_mode (img_header f))
            cyl
            head
            (encode_side f (img_header f) ds cyl head))
  unfolding encode_side encode_track_ibmpc img_header max_half_bits_of
  side-Writes cyl head h k =
      let n = f.sectors_per_track in
      let first = (cyl * f.sides + head) * n in
      let (bytes, long, writes, reads) =
        write_imd_side-encoded n (of_track cyl head) cyl head (imd_mode (img_header f))
          (img_bit_rate n) (img_bit_rate n * 1000 * 60 / img_rpm n * 2) (small_cylinder cyl h)
          (small_head head k) low high (length-track_sectors n first ds)
          (track_sectors-HasSectors n first ds all (inside cyl head h k))
          (λ s hs.
            ap is_compressible (get_or-track_sectors n first s ds hs)
            ∙ get_or-All ds (first + s) plain (omega (arith, inside cyl head h k)))
          (imd_mode_valid (img_header f)) (density_fits n shape.density other) in
      (
        (bytes, track_at cyl head) ∷ [],
        ((long, reads), tt),
        refl,
        λ file. writes file ∙ ap (λ t. saved (file ++ t)) (sym (append-nil bytes)),
      )

  disk-Writes :
      (cyl head : ℕ)
      → cyl < f.cylinders
      → head < f.sides
      → Writes (track_at cyl head ∷ []) (
          write_imd_side
            (imd_mode (encode_disk f ds).header)
            cyl
            head
            (imd_side cyl head (encode_disk f ds).tracks))
  unfolding encode_disk
  disk-Writes cyl head h k =
      let side = encode_side f (img_header f) ds in
      let (track, found, same) =
        encode_cylinders-HasSides f.cylinders 0 f.sides cyl side shape.sides h in
      let e : 0 + cyl ≡ cyl = omega arith in
      let whole : imd_side cyl head (encode_disk f ds).tracks ≡ side cyl head =
        imd_side-side_of cyl head f.sides (encode_disk f ds).tracks track found k
          (ground (arith, shape.sides))
        ∙ same head k
        ∙ ap (λ c. side c head) e in
      subst
        (λ x. Writes (track_at cyl head ∷ []) (write_imd_side (imd_mode (img_header f)) cyl head x))
        (sym whole) (side-Writes cyl head h k)

  -- All tracks, cylinder by cylinder.
  abbrev pub all_tracks : List ImdTrack
  all_tracks = cylinder_tracks f.cylinders 0 f.sides track_at

  -- The first of them.
  pub all_tracks-cons : (ts : List ImdTrack) × (all_tracks ≡ track_at 0 0 ∷ ts)
  all_tracks-cons =
      cylinder_tracks-cons f.cylinders 0 f.sides track_at (ground (arith, shape.cylinders))
        (ground (arith, shape.sides))

  pub nsec-track_at : (cyl head : ℕ) → (track_at cyl head).nsec ≡ f.sectors_per_track
  nsec-track_at cyl head =
      length-track_sectors f.sectors_per_track ((cyl * f.sides + head) * f.sectors_per_track) ds

  pub first-all_tracks : first_with_sectors all_tracks ≡ some (track_at 0 0)
  first-all_tracks =
      let (ts, e) = all_tracks-cons in
      ap first_with_sectors e
      ∙ first_with_sectors-cons (track_at 0 0) ts (λ z. omega (arith, z, nsec-track_at 0 0, low))

  geometry :
      (imd_cylinders (encode_disk f ds) ≡ f.cylinders) × (imd_sides (encode_disk f ds) ≡ f.sides)
  unfolding imd_cylinders imd_sides encode_disk img_header
  geometry = (ground (arith, shape.cylinders), ground (arith, shape.sides))

  -- A disk that ReadIMG encodes, with any number of sectors per track but eleven and no sector of
  -- one byte alone, is written by WriteIMD without error, and ReadIMDFile reads the file, without
  -- error, as the comment, which has no terminator in it, and one track for each cylinder and head,
  -- in order, with the sectors of that track numbered from 0.
  pub write_imd-encode_disk :
      (comment : List ℕ)
      → All (λ b. b ≢ imd_comment_terminator) comment
      → (file : List ℕ) × (write_imd comment (encode_disk f ds) ≡ saved file)
        × (read_imd_file file ≡ loaded (image_of comment all_tracks))
  unfolding write_imd
  write_imd-encode_disk comment h =
      let disk = encode_disk f ds in
      let (es, entries, tracks, writes) =
        cylinders-Writes disk f.cylinders f.sides track_at disk-Writes f.cylinders 0
          (omega arith) in
      let start = comment ++ imd_comment_terminator ∷ [] in
      let some_tracks : first_with_sectors (tracks_of es) ≢ none =
        λ missing. cc (missing, tracks, first-all_tracks) in
      (
        start ++ file_of es,
        ap₂ (λ c s. write_imd_cylinders c 0 s disk start) geometry.0 geometry.1 ∙ writes start,
        ap read_imd_file (append_assoc comment (imd_comment_terminator ∷ []) (file_of es))
            ∙ read_imd_file-entries comment es h entries some_tracks
            ∙ ap (λ ts. loaded (image_of comment ts)) tracks,
      )
