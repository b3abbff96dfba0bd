-- ===== src/Hfe/Imd/Read.antt =====
-- hfe/imd.go: ReadIMDFile on the bytes of the file. `io.ReadFull` gives all the bytes asked for, or
-- an error; opening the file and the reads themselves succeed.
use fdx.Prelude.{ℕ, zero, suc, ◌+◌, ◌*◌, ◌/◌, ◌%◌, Bool, false, ◌||◌, ◌&&◌}
use fdx.Prelude.{if◌then◌else◌, ltb, leb, ◌==◌, u32, Option, none, some}
use fdx.Prelude.{List, [], ◌∷◌, length, get_or, take, drop, replicate}
use fdx.Hfe.Imd.{ImdSector, ImdTrack, ImdImage, imd_comment_terminator, imd_sector_size}
use fdx.Hfe.Imd.{mode_to_rate_density, decode_flag}

pub data SectorError : Type 0 where
  no_flag no_value no_data : SectorError

pub data ImdError : Type 0 where
  comment_eof : ImdError
  incomplete_header : ℕ → ImdError
  invalid_mode invalid_ssize : ℕ → ImdError
  short_sector_map short_cylinder_map short_head_map : ImdError
  bad_sector : ℕ → ℕ → SectorError → ImdError
  no_tracks no_tracks_with_sectors : ImdError

-- The sector and the rest of the file, or the error.
pub data SectorRead : Type 0 where
  sector_got : ImdSector → List ℕ → SectorRead
  sector_failed : SectorError → SectorRead

abbrev pub missing_data : ImdSector
missing_data = record {
  flag = 0;
  sector_data = none;
  compressed = false;
  deleted = false;
  bad = false;
}

abbrev pub decoded : ℕ → List ℕ → ImdSector
decoded flag bytes = record {
  flag = flag;
  sector_data = some bytes;
  compressed = (decode_flag flag).0;
  deleted = (decode_flag flag).1;
  bad = (decode_flag flag).2;
}

-- The data behind a flag: one value for all bytes, or `sec_size` bytes.
unfoldable pub read_sector_bytes : ℕ → ℕ → List ℕ → SectorRead
read_sector_bytes sec_size flag file =
    if (decode_flag flag).0
    then elim file [
      | [] ↦ sector_failed no_value
      | value ∷ rest ↦ sector_got (decoded flag (replicate sec_size value)) rest
    ]
    else if ltb (length file) sec_size
    then sector_failed no_data
    else sector_got (decoded flag (take sec_size file)) (drop sec_size file)

unfoldable pub read_imd_sector : ℕ → List ℕ → SectorRead
read_imd_sector sec_size [] = sector_failed no_flag
read_imd_sector sec_size (flag ∷ file) =
    if flag == 0 then sector_got missing_data file else read_sector_bytes sec_size flag file

pub data SectorsRead : Type 0 where
  sectors_got : List ImdSector → List ℕ → SectorsRead
  sectors_failed : ImdError → SectorsRead

-- The loop over the sectors, `n` of them from `i` on.
unfoldable pub read_imd_sectors : ℕ → ℕ → ℕ → List ℕ → List ℕ → SectorsRead
read_imd_sectors zero i sec_size sector_map file = sectors_got [] file
read_imd_sectors (suc n) i sec_size sector_map file = elim (read_imd_sector sec_size file) [
  | sector_failed e ↦ sectors_failed (bad_sector i (get_or sector_map i 0) e)
  | sector_got s rest ↦ elim (read_imd_sectors n (i + 1) sec_size sector_map rest) [
    | sectors_failed e ↦ sectors_failed e
    | sectors_got ss rest' ↦ sectors_got (s ∷ ss) rest'
  ]
]

-- A track and the rest of the file, the end of the file (`io.EOF`), or an error.
pub data ImdTrackRead : Type 0 where
  track_got : ImdTrack → List ℕ → ImdTrackRead
  track_eof : ImdTrackRead
  track_failed : ImdError → ImdTrackRead

-- `io.ReadFull` into a buffer of `n` bytes, where `e` is the error.
abbrev pub read_full : ℕ → ImdError → List ℕ → (List ℕ → List ℕ → ImdTrackRead) → ImdTrackRead
read_full n e file k = if ltb (length file) n then track_failed e else k (take n file) (drop n file)

-- A map that the head byte announces.
abbrev pub read_map : Bool → ℕ → ImdError → List ℕ → (List ℕ → List ℕ → ImdTrackRead) → ImdTrackRead
read_map present n e file k = if present then read_full n e file k else k [] file

abbrev pub has_cyl_map : ℕ → Bool
has_cyl_map head = head / 128 % 2 == 1

abbrev pub has_head_map : ℕ → Bool
has_head_map head = head / 64 % 2 == 1

-- The sectors of a track whose maps have been read.
unfoldable pub read_track_sectors : ImdTrack → List ℕ → ImdTrackRead
read_track_sectors t file =
    elim (read_imd_sectors t.nsec 0 (imd_sector_size t.ssize) t.sector_map file) [
      | sectors_failed e ↦ track_failed e
      | sectors_got sectors rest ↦ track_got (record t { sectors = sectors }) rest
    ]

unfoldable pub read_track_head_map : ImdTrack → List ℕ → ImdTrackRead
read_track_head_map t file =
    read_map (has_head_map t.head) t.nsec short_head_map file
      (λ buffer. read_track_sectors (record t { head_map = buffer }))

unfoldable pub read_track_cyl_map : ImdTrack → List ℕ → ImdTrackRead
read_track_cyl_map t file =
    read_map (has_cyl_map t.head) t.nsec short_cylinder_map file
      (λ buffer. read_track_head_map (record t { cyl_map = buffer }))

unfoldable pub read_track_body : ImdTrack → List ℕ → ImdTrackRead
read_track_body t file =
    read_full t.nsec short_sector_map file
      (λ buffer. read_track_cyl_map (record t { sector_map = buffer }))

-- The fields of the header.
abbrev pub track_header : ℕ → ℕ → ℕ → ℕ → ℕ → ImdTrack
track_header mode cylinder head nsec ssize = record {
  mode = mode;
  cylinder = cylinder;
  head = head;
  nsec = nsec;
  ssize = ssize;
  sector_map = [];
  cyl_map = [];
  head_map = [];
  sectors = [];
}

unfoldable pub read_track_checked : ImdTrack → List ℕ → ImdTrackRead
read_track_checked t file =
    if ltb 5 t.mode
    then track_failed (invalid_mode t.mode)
    else if ltb 6 t.ssize
    then track_failed (invalid_ssize t.ssize)
    else if t.nsec == 0
    then track_got t file
    else read_track_body t file

unfoldable pub read_imd_track : List ℕ → ImdTrackRead
read_imd_track [] = track_eof
read_imd_track (mode ∷ cylinder ∷ head ∷ nsec ∷ ssize ∷ file) =
    read_track_checked (track_header mode cylinder head nsec ssize) file
read_imd_track file = track_failed (incomplete_header (length file))

-- How a function of the package ends: with a value or an error. `unfinished` is no Go value: a
-- loop ran out of fuel.
pub data Loaded {ℓ} (A : Type ℓ) : Type ℓ where
  loaded : A → Loaded A
  refused : ImdError → Loaded A
  unfinished : Loaded A

-- The bytes before the terminator, and those behind it.
unfoldable pub read_comment : List ℕ → Option (List ℕ × List ℕ)
read_comment [] = none
read_comment (b ∷ file) =
    let later = read_comment file in
    if b == imd_comment_terminator
    then some ([], file)
    else elim later [ none ↦ none | some (comment, rest) ↦ some (b ∷ comment, rest) ]

-- The loop ends at the end of the file. A track takes five bytes at least, so as many rounds as
-- the file has bytes, and one more, are enough.
unfoldable pub read_imd_tracks : ℕ → List ℕ → Loaded (List ImdTrack)
read_imd_tracks zero file = unfinished
read_imd_tracks (suc fuel) file = elim (read_imd_track file) [
  | track_eof ↦ loaded []
  | track_failed e ↦ refused e
  | track_got t rest ↦ elim (read_imd_tracks fuel rest) [
    | loaded ts ↦ loaded (t ∷ ts)
    | refused e ↦ refused e
    | unfinished ↦ unfinished
  ]
]

unfoldable pub first_with_sectors : List ImdTrack → Option ImdTrack
first_with_sectors [] = none
first_with_sectors (t ∷ ts) = if t.nsec == 0 then first_with_sectors ts else some t

-- `trackDataBits * 3 / 2`, in 32-bit arithmetic.
unfoldable pub estimated_track_bits : ℕ → ℕ → ℕ
estimated_track_bits nsec sector_size = u32 (u32 (u32 (nsec * sector_size) * 8) * 3) / 2

unfoldable pub rounded_rpm : ℕ → ℕ
rounded_rpm rpm = if leb 250 rpm && leb rpm 400 then if ltb rpm 330 then 300 else 360 else 300

-- The rotation speed of a track of sectors.
unfoldable pub track_rpm : ImdTrack → ℕ
track_rpm t = elim (mode_to_rate_density t.mode) [
  | none ↦ 300
  | some (rate, mfm) ↦
      let size = imd_sector_size t.ssize in
      let bits = estimated_track_bits t.nsec size in
      if rate == 0 || size == 0 || bits == 0
      then 300
      else rounded_rpm (u32 (60 * rate * 2000) / bits)
]

unfoldable pub floppy_rpm_of : List ImdTrack → ℕ
floppy_rpm_of tracks = elim (first_with_sectors tracks) [ none ↦ 300 | some t ↦ track_rpm t ]

unfoldable pub validated : List ℕ → List ImdTrack → Loaded ImdImage
validated comment tracks =
    if length tracks == 0 then refused no_tracks else elim (first_with_sectors tracks) [
      | none ↦ refused no_tracks_with_sectors
      | some t ↦
          loaded (record { comment = comment; tracks = tracks; floppy_rpm = floppy_rpm_of tracks })
    ]

unfoldable pub read_imd_file : List ℕ → Loaded ImdImage
read_imd_file file = elim (read_comment file) [
  | none ↦ refused comment_eof
  | some (comment, rest) ↦ elim (read_imd_tracks (suc (length rest)) rest) [
    | loaded tracks ↦ validated comment tracks
    | refused e ↦ refused e
    | unfinished ↦ unfinished
  ]
]
