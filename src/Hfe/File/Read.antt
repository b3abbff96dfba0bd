-- ===== src/Hfe/File/Read.antt =====
-- ReadHFE of hfe/read.go, on the bytes of the file.
use fdx.Prelude.{ℕ, ◌+◌, ◌*◌, ◌/◌, Bool, true, false, not, ◌&&◌, ◌||◌, if◌then◌else◌}
use fdx.Prelude.{ltb, ◌==◌, u32, Option, none, some, List, [], ◌∷◌, length, drop}
use fdx.Hfe.Disk.{Header, TrackData, Disk}
use fdx.Hfe.Blocks.{TrackHeader, TrackRead, track_read, short_file, bad_opcodes, read_raw_track}
use fdx.Hfe.Verify.{equal}
use fdx.Hfe.File.Opcodes.{processed, no_bitrate, no_skip, skip_too_long, unknown_opcode}
use fdx.Hfe.File.Opcodes.{process_opcodes}
use fdx.Hfe.File.Header.{hfev1_signature, hfev3_signature, parse_header, parse_entries}

pub data HfeError : Type 0 where
  short_header invalid_signature unsupported_revision : HfeError
  invalid_bit_rate invalid_tracks invalid_sides short_track_list : HfeError
  short_track bad_track : ℕ → HfeError
  unknown_rpm bad_rpm : HfeError

pub data HfeLoaded {ℓ} (A : Type ℓ) : Type ℓ where
  hfe_loaded : A → HfeLoaded A
  hfe_error : HfeError → HfeLoaded A

unfoldable pub processed_side : List ℕ → Option (List ℕ)
processed_side side = elim (process_opcodes side) [
  | processed bits ↦ some bits
  | no_bitrate ↦ none
  | no_skip ↦ none
  | skip_too_long n ↦ none
  | unknown_opcode n ↦ none
]

-- The opcodes of both sides, where the disk has two.
unfoldable pub processed_track : ℕ → TrackData → TrackRead
processed_track sides t = elim (processed_side t.side0) [
  | none ↦ bad_opcodes
  | some side0 ↦ elim (ltb 1 sides) [
    | false ↦ track_read (record { side0 = side0; side1 = [] })
    | true ↦ elim (processed_side t.side1) [
      | none ↦ bad_opcodes
      | some side1 ↦ track_read (record { side0 = side0; side1 = side1 })
    ]
  ]
]

-- `readTrack`
unfoldable pub read_track : Bool → List ℕ → TrackHeader → ℕ → TrackRead
read_track with_opcodes file th sides = elim (read_raw_track file th sides) [
  | track_read t ↦ elim with_opcodes [ true ↦ processed_track sides t | false ↦ track_read t ]
  | short_file ↦ short_file
  | bad_opcodes ↦ bad_opcodes
]

-- The loop over the track list, from track `i` on.
unfoldable pub read_tracks : Bool → List ℕ → ℕ → ℕ → List TrackHeader → HfeLoaded (List TrackData)
read_tracks with_opcodes file sides i [] = hfe_loaded []
read_tracks with_opcodes file sides i (th ∷ ths) = elim (read_track with_opcodes file th sides) [
  | short_file ↦ hfe_error (short_track i)
  | bad_opcodes ↦ hfe_error (bad_track i)
  | track_read t ↦ elim (read_tracks with_opcodes file sides (i + 1) ths) [
    | hfe_error e ↦ hfe_error e
    | hfe_loaded ts ↦ hfe_loaded (t ∷ ts)
  ]
]

-- The checks of the header.
unfoldable pub check_header : Header → Option HfeError
check_header h =
    let is_v1 = equal h.header_signature hfev1_signature in
    let is_v3 = equal h.header_signature hfev3_signature in
    if not is_v1 && not is_v3
    then some invalid_signature
    else if not (h.format_revision == 0)
    then some unsupported_revision
    else if h.bit_rate == 0
    then some invalid_bit_rate
    else if h.number_of_track == 0
    then some invalid_tracks
    else if h.number_of_side == 0
    then some invalid_sides
    else none

unfoldable pub first_bits : List TrackData → ℕ
first_bits [] = 0
first_bits (t ∷ ts) = length t.side0 * 8

-- The speed of a disk whose header does not give it, from the length of the first track.
unfoldable pub hfe_rpm : Header → List TrackData → HfeLoaded ℕ
hfe_rpm h tracks =
    let bits = first_bits tracks in
    let rpm = u32 (60 * h.bit_rate * 2000) / u32 bits in
    if not (h.floppy_rpm == 0)
    then hfe_loaded h.floppy_rpm
    else if bits == 0
    then hfe_error unknown_rpm
    else if ltb 400 rpm || ltb rpm 250
    then hfe_error bad_rpm
    else hfe_loaded (if ltb rpm 330 then 300 else 360)

unfoldable pub finish_hfe : Header → List TrackData → HfeLoaded Disk
finish_hfe h tracks = elim (hfe_rpm h tracks) [
  | hfe_error e ↦ hfe_error e
  | hfe_loaded rpm ↦ hfe_loaded (record {
    header = record h { floppy_rpm = rpm };
    tracks = tracks;
    verify_ibmpc = false;
    verify_amiga = false;
  })
]

unfoldable pub read_disk : Header → List ℕ → HfeLoaded Disk
read_disk h file = elim (parse_entries h.number_of_track (drop (h.track_list_offset * 512) file)) [
  | none ↦ hfe_error short_track_list
  | some ths ↦
      elim (read_tracks (equal h.header_signature hfev3_signature) file h.number_of_side 0 ths) [
        | hfe_error e ↦ hfe_error e
        | hfe_loaded tracks ↦ finish_hfe h tracks
      ]
]

unfoldable pub read_hfe : List ℕ → HfeLoaded Disk
read_hfe file = elim (parse_header file) [
  | none ↦ hfe_error short_header
  | some h ↦ elim (check_header h) [ some e ↦ hfe_error e | none ↦ read_disk h file ]
]
