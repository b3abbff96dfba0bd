-- ===== src/Hfe/Imd/Track.antt =====
-- hfe/imd.go: one track written by writeIMDTrack and read by readIMDTrack.
use fdx.Prelude.{ℕ, ◌+◌, ◌-◌, ◌%◌, ◌≤◌, ◌<◌, false, ◌≡◌, refl, ap, sym, ◌∙◌, arith}
use fdx.Prelude.{some, none, List, [], ◌∷◌, ◌++◌, length, map, All, u8, append_assoc, append-nil}
use fdx.Prelude.{
  length-append, length-map, replicate, take_exact, drop_exact, ltb, ltb_of_le, ==_of_ne,
}
use fdx.Hfe.Collect.{find}
use fdx.Hfe.Imd.{ImdSector, ImdTrack, imd_sector_size, is_compressible}
use fdx.Hfe.Imd.Read.{
  sectors_got, track_got, read_imd_sectors, read_imd_track, read_track_checked, read_track_body,
  read_track_cyl_map, read_track_head_map, read_track_sectors, decoded, track_header, has_cyl_map,
  has_head_map,
}
use fdx.Hfe.Imd.Write.{
  blocks, saved, write_blocks, write_imd_track, write_imd_sector, sort_numbers, adjusted,
}
use fdx.Hfe.Imd.Sort.{length-sort_numbers, sort_numbers-each}
use fdx.Hfe.Imd.Sector.{read-write_imd_sector, resized_exact}

-- The bytes of a sector of the map, and whether they are of the size and not all the same.
abbrev pub bytes_of : List (ℕ × List ℕ) → ℕ → List ℕ
bytes_of sectors n = elim (find n sectors) [ none ↦ [] | some d ↦ d ]

abbrev pub IsPlain : List ℕ → Type 0
IsPlain d = (length d ≡ 512) × (is_compressible d ≡ false)

abbrev pub HasPlain : List (ℕ × List ℕ) → ℕ → Type 0
HasPlain sectors n = (find n sectors ≡ some (bytes_of sectors n)) × IsPlain (bytes_of sectors n)

-- The blocks of the sectors, and what is read from them.
abbrev pub plain_blocks : List (ℕ × List ℕ) → List ℕ → List ℕ
plain_blocks sectors [] = []
plain_blocks sectors (n ∷ ns) = write_imd_sector 512 (bytes_of sectors n) ++ plain_blocks sectors ns

abbrev pub plain_sectors : List (ℕ × List ℕ) → List ℕ → List ImdSector
plain_sectors sectors [] = []
plain_sectors sectors (n ∷ ns) = decoded 1 (bytes_of sectors n) ∷ plain_sectors sectors ns

adjusted_exact : (d : List ℕ) → length d ≡ 512 → adjusted 512 d ≡ d
adjusted_exact d h = rw (==_of_ne (length d) 0 (λ e. omega arith)) (resized_exact 512 d h)

write_blocks-plain :
    (sectors : List (ℕ × List ℕ)) (ns file : List ℕ)
    → All (HasPlain sectors) ns
    → write_blocks 512 sectors ns file ≡ blocks (file ++ plain_blocks sectors ns)
unfolding write_blocks
write_blocks-plain sectors [] file h = ap blocks (sym (append-nil file))
write_blocks-plain sectors (n ∷ ns) file (found, h) =
    let d = bytes_of sectors n in
    rw (found.0, write_blocks)
      (rw (adjusted_exact d found.1.0) (
        write_blocks-plain sectors ns (file ++ write_imd_sector 512 d) h
        ∙ ap blocks (append_assoc file (write_imd_sector 512 d) (plain_blocks sectors ns))))

read_imd_sectors-plain :
    (sectors : List (ℕ × List ℕ)) (ns numbers rest : List ℕ) (i : ℕ)
    → All (HasPlain sectors) ns
    → read_imd_sectors (length ns) i 512 numbers (plain_blocks sectors ns ++ rest)
      ≡ sectors_got (plain_sectors sectors ns) rest
unfolding read_imd_sectors
read_imd_sectors-plain sectors [] numbers rest i h = refl
read_imd_sectors-plain sectors (n ∷ ns) numbers rest i (found, h) =
    let d = bytes_of sectors n in
    rw (append_assoc (write_imd_sector 512 d) (plain_blocks sectors ns) rest) (
      rw
        (
          read-write_imd_sector 512 d (plain_blocks sectors ns ++ rest) found.1.0 found.1.1,
          read_imd_sectors,
        )
        (rw (read_imd_sectors-plain sectors ns numbers rest (i + 1) h, read_imd_sectors) refl))

-- The record of a written track.
abbrev pub track_bytes : ℕ → ℕ → ℕ → List (ℕ × List ℕ) → List ℕ → List ℕ
track_bytes mode cylinder head sectors sorted =
    (mode ∷ cylinder ∷ head % 16 ∷ length sorted ∷ 2 ∷ [])
    ++ (map u8 sorted ++ plain_blocks sectors sorted)

abbrev pub written_track : ℕ → ℕ → ℕ → List (ℕ × List ℕ) → List ℕ → ImdTrack
written_track mode cylinder head sectors sorted = record {
  mode = mode;
  cylinder = cylinder;
  head = head % 16;
  nsec = length sorted;
  ssize = 2;
  sector_map = map u8 sorted;
  cyl_map = [];
  head_map = [];
  sectors = plain_sectors sectors sorted;
}

size_512 : imd_sector_size 2 ≡ 512
unfolding imd_sector_size
size_512 = refl

regrouped :
    (file header numbers bytes : List ℕ)
    → file ++ header ++ numbers ++ bytes ≡ file ++ (header ++ (numbers ++ bytes))
regrouped file header numbers bytes = simp append_assoc

-- A head number has neither flag.
no_cyl_map : (head : ℕ) → has_cyl_map (head % 16) ≡ false
no_cyl_map head = ==_of_ne _ 1 (λ e. omega arith)

no_head_map : (head : ℕ) → has_head_map (head % 16) ≡ false
no_head_map head = ==_of_ne _ 1 (λ e. omega arith)

module _ (sectors : List (ℕ × List ℕ)) (mode cylinder head : ℕ) where
  pub write_imd_track-saved :
      (numbers file : List ℕ)
      → length numbers ≡ length sectors
      → 0 < length sectors
      → length sectors < 256
      → All (HasPlain sectors) numbers
      → write_imd_track mode cylinder head sectors numbers file
        ≡ saved (
            file
            ++ track_bytes mode cylinder head sectors (sort_numbers (length numbers - 1) numbers))
  unfolding write_imd_track
  write_imd_track-saved numbers file hn h0 h256 h =
      let sorted = sort_numbers (length numbers - 1) numbers in
      let count : length sorted ≡ length sectors =
        length-sort_numbers (length numbers - 1) numbers ∙ hn in
      let header = mode ∷ cylinder ∷ head % 16 ∷ length sorted ∷ 2 ∷ [] in
      rw (==_of_ne (length sectors) 0 (λ e. omega arith), write_imd_track)
        (rw (ltb_of_le 255 (length sectors) (omega arith)) (
          rw (sym count, size_512)
            (rw
              (take_exact (length sorted) (map u8 sorted) (replicate (length sorted) 0)
                (length-map u8 sorted))
              (rw
                (write_blocks-plain sectors sorted (file ++ header ++ map u8 sorted)
                  (sort_numbers-each (HasPlain sectors) _ numbers h))
                (ap saved (regrouped file header (map u8 sorted) (plain_blocks sectors sorted)))))))

  -- The header of the track, with its sector map.
  abbrev mapped : List ℕ → ImdTrack
  mapped sorted = record (track_header mode cylinder (head % 16) (length sorted) 2) {
    sector_map = map u8 sorted;
  }

  sectors-written :
      (sorted rest : List ℕ)
      → All (HasPlain sectors) sorted
      → read_track_sectors (mapped sorted) (plain_blocks sectors sorted ++ rest)
        ≡ track_got (written_track mode cylinder head sectors sorted) rest
  unfolding read_track_sectors
  sectors-written sorted rest h =
      rw (size_512, read_track_sectors)
        (rw (read_imd_sectors-plain sectors sorted (map u8 sorted) rest 0 h, read_track_sectors)
          refl)

  maps-written :
      (sorted rest : List ℕ)
      → All (HasPlain sectors) sorted
      → read_track_cyl_map (mapped sorted) (plain_blocks sectors sorted ++ rest)
        ≡ track_got (written_track mode cylinder head sectors sorted) rest
  unfolding read_track_cyl_map read_track_head_map
  maps-written sorted rest h =
      rw (no_cyl_map head) (rw (no_head_map head) (sectors-written sorted rest h))

  body-written :
      (sorted rest : List ℕ)
      → All (HasPlain sectors) sorted
      → read_track_body
          (track_header mode cylinder (head % 16) (length sorted) 2)
          (map u8 sorted ++ (plain_blocks sectors sorted ++ rest))
        ≡ track_got (written_track mode cylinder head sectors sorted) rest
  unfolding read_track_body
  body-written sorted rest h =
      let numbers = map u8 sorted in
      let behind = plain_blocks sectors sorted ++ rest in
      let long : ltb (length (numbers ++ behind)) (length sorted) ≡ false =
        ltb_of_le _ (length sorted)
          (omega (arith, length-append numbers behind, length-map u8 sorted)) in
      rw long (
        rw (take_exact (length sorted) numbers behind (length-map u8 sorted)) (
          rw (drop_exact (length sorted) numbers behind (length-map u8 sorted))
            (maps-written sorted rest h)))

  pub read_imd_track-written :
      (sorted rest : List ℕ)
      → mode ≤ 5
      → 0 < length sorted
      → All (HasPlain sectors) sorted
      → read_imd_track (track_bytes mode cylinder head sectors sorted ++ rest)
        ≡ track_got (written_track mode cylinder head sectors sorted) rest
  unfolding read_imd_track read_track_checked
  read_imd_track-written sorted rest hm h0 h = rw (ltb_of_le 5 mode hm) (
      rw (==_of_ne (length sorted) 0 (λ e. omega arith)) (
        ap (read_track_body (track_header mode cylinder (head % 16) (length sorted) 2))
          (append_assoc (map u8 sorted) (plain_blocks sectors sorted) rest)
        ∙ body-written sorted rest h))
