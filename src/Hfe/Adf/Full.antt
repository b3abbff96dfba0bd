-- ===== src/Hfe/Adf/Full.antt =====
-- `ReadADF` of hfe/adf.go encodes every track of an image, and each fills its side.
use fdx.Prelude.{ℕ, zero, suc, ◌+◌, ◌*◌, ◌<◌, ◌≡◌, refl, ap, arith, false}
use fdx.Prelude.{some, IsByte, All, List, [], ◌∷◌, length, get_or, get_elem?}
use fdx.Mfm.Symbols.Width.{IsSector}
use fdx.Mfm.Amiga.Length.{length-encode_track_amiga}
use fdx.Hfe.Disk.{TrackData, Disk}
use fdx.Hfe.Img.{track_sectors, set_side}
use fdx.Hfe.Img.Sectors.{read_sectors-joined}
use fdx.Hfe.Img.Slices.{track_sectors-HasSectors, length-track_sectors}
use fdx.Hfe.Adf.{adf_loaded, adf_header, adf_side, adf_encode_heads, adf_encode_cylinders, read_adf}

get_elem?-of_or :
    (ds : List (List ℕ)) (i : ℕ) → i < length ds → get_elem? ds i ≡ some (get_or ds i [])
get_elem?-of_or [] i h = absurd (omega arith)
get_elem?-of_or (d ∷ ds) zero h = refl
get_elem?-of_or (d ∷ ds) (suc i) h = get_elem?-of_or ds i (omega arith)

-- A side of the disk.
side_encoded :
    (ds : List (List ℕ)) (cyl head : ℕ)
    → All IsSector ds
    → length ds ≡ 1760
    → cyl < 80
    → head < 2
    → (side : List ℕ) × (adf_side ds cyl head ≡ some side) × (length side ≡ 12500)
unfolding adf_side
side_encoded ds cyl head all count hc hh =
    let track = track_sectors 11 ((cyl * 2 + head) * 11) ds in
    let has = track_sectors-HasSectors 11 ((cyl * 2 + head) * 11) ds all (omega arith) in
    length-encode_track_amiga 100000 track (cyl * 2 + head) refl λ i hi. (
      get_or track i [],
      get_elem?-of_or track i (omega (arith, length-track_sectors 11 ((cyl * 2 + head) * 11) ds)),
      (has i hi).size,
    )

-- A track with both sides full.
pub record IsFull (track : TrackData) : Type 0 where
  pub first : length track.side0 ≡ 12500
  pub second : length track.side1 ≡ 12500

heads_encoded :
    (ds : List (List ℕ)) (cyl : ℕ)
    → All IsSector ds
    → length ds ≡ 1760
    → cyl < 80
    → (track : TrackData) × (adf_encode_heads 2 0
          (adf_side ds cyl)
          (record { side0 = []; side1 = [] })
        ≡ some track)
      × IsFull track
unfolding adf_encode_heads set_side
heads_encoded ds cyl all count hc =
    let (s0, e0, l0) = side_encoded ds cyl 0 all count hc (omega arith) in
    let (s1, e1, l1) = side_encoded ds cyl 1 all count hc (omega arith) in
    let e1' : adf_side ds cyl (0 + 1) ≡ some s1 = e1 in
    (
      record { side0 = s0; side1 = s1 },
      rw (e0, adf_encode_heads) (rw (e1', adf_encode_heads) refl),
      record { first = l0; second = l1 },
    )

cylinders_encoded :
    (n cyl : ℕ) (ds : List (List ℕ))
    → All IsSector ds
    → length ds ≡ 1760
    → cyl + n ≡ 80
    → (tracks : List TrackData) × (adf_encode_cylinders n cyl (adf_side ds) ≡ some tracks)
      × (length tracks ≡ n)
      × All IsFull tracks
unfolding adf_encode_cylinders
cylinders_encoded zero cyl ds all count h = ([], refl, refl, tt)
cylinders_encoded (suc n) cyl ds all count h =
    let (t, e, full) = heads_encoded ds cyl all count (omega arith) in
    let (ts, es, len, fulls) = cylinders_encoded n (cyl + 1) ds all count (omega arith) in
    (t ∷ ts, rw (e, adf_encode_cylinders) (rw es refl), ap suc len, (full, fulls))

-- From a file of 901120 bytes ReadADF returns a disk of 80 tracks, without error or panic, and both
-- sides of every track are full: 12500 bytes.
pub read_adf-IsFull :
    (file : List ℕ)
    → All IsByte file
    → length file ≡ 901120
    → (disk : Disk) × (read_adf file ≡ adf_loaded disk)
      × (length disk.tracks ≡ 80)
      × All IsFull disk.tracks
unfolding read_adf
read_adf-IsFull file bytes size =
    let (ds, read, count, all, same) = read_sectors-joined 1760 0 file size bytes in
    let (tracks, encoded, len, full) = cylinders_encoded 80 0 ds all count refl in
    (
      record { header = adf_header; tracks = tracks; verify_ibmpc = false; verify_amiga = false },
      rw (size, read_adf) (rw read (rw encoded refl)),
      len,
      full,
    )
