-- ===== src/Hfe/Imd/Convert.antt =====
-- hfe/imd.go: ConvertIMDToHFE and ReadIMD.
use fdx.Prelude.{ℕ, zero, suc, ◌+◌, ◌-◌, ◌*◌, ◌/◌, ◌%◌, true, false, ◌||◌}
use fdx.Prelude.{if◌then◌else◌, ltb, leb, ◌==◌, u8, u16, none, some}
use fdx.Prelude.{List, [], ◌∷◌, ◌++◌, length, get_elem?, set, take, replicate}
use fdx.Mfm.Writer.{new_writer, encode_track_ibmpc}
use fdx.Hfe.Disk.{Header, TrackData, Disk, enc_isoibm_mfm, enc_isoibm_fm, ifm_ibmpc_hd}
use fdx.Hfe.Img.{set_side}
use fdx.Hfe.Imd.{ImdSector, ImdTrack, ImdImage, imd_sector_size, mode_to_rate_density}
use fdx.Hfe.Imd.Read.{first_with_sectors, read_imd_file, ImdError, loaded, refused}
use fdx.Hfe.Imd.Read.{unfinished}

pub data ConvertError : Type 0 where
  no_tracks_in_image : ConvertError
  invalid_size_of invalid_mode_of : ℕ → ℕ → ℕ → ConvertError
  cylinder_exceeds head_exceeds : ℕ → ℕ → ConvertError
  map_out_of_range sector_out_of_range : ℕ → ConvertError
  invalid_logical : ℕ → ℕ → ConvertError

pub data Converted {ℓ} (A : Type ℓ) : Type ℓ where
  converted : A → Converted A
  not_converted : ConvertError → Converted A

-- `track.Head & 0x0F`
abbrev pub head_number : ImdTrack → ℕ
head_number t = t.head % 16

abbrev pub larger : ℕ → ℕ → ℕ
larger a b = if ltb b a then a else b

unfoldable pub max_cylinder : ℕ → List ImdTrack → ℕ
max_cylinder m [] = m
max_cylinder m (t ∷ ts) = max_cylinder (larger t.cylinder m) ts

unfoldable pub max_head : ℕ → List ImdTrack → ℕ
max_head m [] = m
max_head m (t ∷ ts) = max_head (larger (head_number t) m) ts

-- `bitRate` and `encoding`, from the first track with sectors.
unfoldable pub imd_rate : List ImdTrack → ℕ × ℕ
imd_rate tracks = elim (first_with_sectors tracks) [
  | none ↦ (250, enc_isoibm_mfm)
  | some t ↦ elim (mode_to_rate_density t.mode) [
    | none ↦ (250, enc_isoibm_mfm)
    | some (rate, mfm) ↦ (u16 rate, if mfm then enc_isoibm_mfm else enc_isoibm_fm)
  ]
]

unfoldable pub imd_header : ImdImage → Header
imd_header img = record {
  header_signature = replicate 8 0;
  format_revision = 0;
  number_of_track = u8 (max_cylinder 0 img.tracks + 1);
  number_of_side = u8 (max_head 0 img.tracks + 1);
  track_encoding = (imd_rate img.tracks).1;
  bit_rate = (imd_rate img.tracks).0;
  floppy_rpm = img.floppy_rpm;
  floppy_interface_mode = ifm_ibmpc_hd;
  write_protected = 0xff;
  track_list_offset = 0;
  write_allowed = 0xff;
  single_step = 0xff;
  track0s0_alt_encoding = 0;
  track0s0_encoding = 0;
  track0s1_alt_encoding = 0;
  track0s1_encoding = 0;
}

-- `sectorData`: a copy, filled up with zeros or cut to the size.
unfoldable pub fitted : ℕ → ImdSector → List ℕ
fitted sec_size s = if s.flag == 0 then replicate sec_size 0 else elim s.sector_data [
  | none ↦ replicate sec_size 0
  | some bytes ↦ take sec_size (bytes ++ replicate sec_size 0)
]

-- The loop over the sectors in physical order, `n` of them from `i` on; `placed` is
-- `trackSectors`, where a sector that is not there yet is empty.
unfoldable pub place_sectors : ℕ → ℕ → ℕ → ImdTrack → List (List ℕ) → Converted (List (List ℕ))
place_sectors zero i sec_size t placed = converted placed
place_sectors (suc n) i sec_size t placed = elim (get_elem? t.sector_map i) [
  | none ↦ not_converted (map_out_of_range i)
  | some number ↦ elim (number == 0 || ltb t.nsec number) [
    | true ↦ not_converted (invalid_logical number t.nsec)
    | false ↦ elim (get_elem? t.sectors i) [
      | none ↦ not_converted (sector_out_of_range i)
      | some s ↦ place_sectors n (i + 1) sec_size t (set placed (number - 1) (fitted sec_size s))
    ]
  ]
]

-- The half-bits of a track, of which the sectors are in their places. The speed of an image that was
-- read is 300 or 360; the code would panic at zero.
unfoldable pub encode_imd_track : ImdTrack → ℕ → ℕ → List (List ℕ) → List ℕ
encode_imd_track t rate rpm placed =
    encode_track_ibmpc placed t.cylinder (head_number t) t.nsec rate
      (new_writer (rate * 1000 * 60 / rpm * 2))

-- One track with sectors: the checks, and its cells.
unfoldable pub convert_track : Header → ImdTrack → Converted (List ℕ)
convert_track h t =
    let size = imd_sector_size t.ssize in
    if size == 0
    then not_converted (invalid_size_of t.ssize t.cylinder (head_number t))
    else elim (mode_to_rate_density t.mode) [
      | none ↦ not_converted (invalid_mode_of t.mode t.cylinder (head_number t))
      | some (rate, mfm) ↦
          if leb h.number_of_track t.cylinder
          then not_converted (cylinder_exceeds t.cylinder h.number_of_track)
          else if leb h.number_of_side (head_number t)
          then not_converted (head_exceeds (head_number t) h.number_of_side)
          else elim (place_sectors t.nsec 0 size t (replicate t.nsec [])) [
            | not_converted e ↦ not_converted e
            | converted placed ↦ converted (encode_imd_track t (u16 rate) h.floppy_rpm placed)
          ]
    ]

-- `disk.Tracks[cylinder].Side0 = mfmData`, or `Side1`; the cylinder has been checked.
unfoldable pub store_side : ℕ → ℕ → List ℕ → List TrackData → List TrackData
store_side cylinder head side [] = []
store_side zero head side (d ∷ ds) = set_side head side d ∷ ds
store_side (suc cylinder) head side (d ∷ ds) = d ∷ store_side cylinder head side ds

unfoldable pub convert_tracks : Header → List ImdTrack → List TrackData → Converted (List TrackData)
convert_tracks h [] disk = converted disk
convert_tracks h (t ∷ ts) disk = elim (t.nsec == 0) [
  | true ↦ convert_tracks h ts disk
  | false ↦ elim (convert_track h t) [
    | not_converted e ↦ not_converted e
    | converted side ↦ convert_tracks h ts (store_side t.cylinder (head_number t) side disk)
  ]
]

abbrev empty_track_data : TrackData
empty_track_data = record { side0 = []; side1 = [] }

unfoldable pub convert_imd_to_hfe : ImdImage → Converted Disk
convert_imd_to_hfe img =
    let h = imd_header img in
    if length img.tracks == 0
    then not_converted no_tracks_in_image
    else elim (convert_tracks h img.tracks (replicate h.number_of_track empty_track_data)) [
      | not_converted e ↦ not_converted e
      | converted tracks ↦
          converted
            (record { header = h; tracks = tracks; verify_ibmpc = false; verify_amiga = false })
    ]

-- The outcomes of `ReadIMD`.
pub data ImdLoaded : Type 0 where
  imd_disk : Disk → ImdLoaded
  imd_unread : ImdError → ImdLoaded
  imd_unconverted : ConvertError → ImdLoaded
  imd_unfinished : ImdLoaded

unfoldable pub read_imd : List ℕ → ImdLoaded
read_imd file = elim (read_imd_file file) [
  | refused e ↦ imd_unread e
  | unfinished ↦ imd_unfinished
  | loaded img ↦ elim (convert_imd_to_hfe img) [
    | converted disk ↦ imd_disk disk
    | not_converted e ↦ imd_unconverted e
  ]
]
