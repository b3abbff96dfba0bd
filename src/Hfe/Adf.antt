-- ===== src/Hfe/Adf.antt =====
-- hfe/adf.go: images of Amiga floppies, of one geometry.
pub mod Full
pub mod Finish
use fdx.Prelude.{ℕ, zero, suc, ◌+◌, ◌*◌, ◌/◌, Bool, false, not, if◌then◌else◌, ltb, ◌==◌}
use fdx.Prelude.{Option, none, some, List, [], ◌∷◌, length, get_elem?}
use fdx.Mfm.Writer.{new_writer}
use fdx.Mfm.Reader.{got, failed, stuck, new_reader}
use fdx.Mfm.Amiga.{encode_track_amiga, read_sector_amiga}
use fdx.Hfe.Disk.{Header, TrackData, Disk, enc_amiga_mfm, ifm_amiga_dd}
use fdx.Hfe.Collect.{collect, write_in_order}
use fdx.Hfe.Img.{ok, err, read_sectors, ImgError, track_sectors, set_side, side_of}
use fdx.Hfe.Img.{Saved, saved, empty_track, out_of_range, unfinished, and_then, save_sectors}
use fdx.Hfe.Verify.{as_integer}

abbrev pub adf_cylinders : ℕ
adf_cylinders = 80

abbrev pub adf_heads : ℕ
adf_heads = 2

abbrev pub adf_sectors_per_track : ℕ
adf_sectors_per_track = 11

abbrev pub adf_total_size : ℕ
adf_total_size = 901120

pub data AdfLoaded : Type 0 where
  adf_loaded : Disk → AdfLoaded
  adf_invalid_size : ℕ → AdfLoaded
  adf_unreadable : ImgError → AdfLoaded
  adf_panic : AdfLoaded

unfoldable pub adf_header : Header
adf_header = record {
  header_signature = 0 ∷ 0 ∷ 0 ∷ 0 ∷ 0 ∷ 0 ∷ 0 ∷ 0 ∷ [];
  format_revision = 0;
  number_of_track = adf_cylinders;
  number_of_side = adf_heads;
  track_encoding = enc_amiga_mfm;
  bit_rate = 250;
  floppy_rpm = 300;
  floppy_interface_mode = ifm_amiga_dd;
  write_protected = 0xff;
  track_list_offset = 0;
  write_allowed = 0xff;
  single_step = 0xff;
  track0s0_alt_encoding = 0xff;
  track0s0_encoding = enc_amiga_mfm;
  track0s1_alt_encoding = 0xff;
  track0s1_encoding = enc_amiga_mfm;
}

unfoldable pub adf_side : List (List ℕ) → ℕ → ℕ → Option (List ℕ)
adf_side sectors cyl head =
    encode_track_amiga
      (track_sectors adf_sectors_per_track ((cyl * adf_heads + head) * adf_sectors_per_track)
        sectors)
      (cyl * 2 + head) (new_writer (250 * 1000 * 60 / 300 * 2))

-- The loops over the heads and the cylinders; `none` is a panic in one of them.
unfoldable pub adf_encode_heads : ℕ → ℕ → (ℕ → Option (List ℕ)) → TrackData → Option TrackData
adf_encode_heads zero head side track = some track
adf_encode_heads (suc n) head side track = elim (side head) [
  | none ↦ none
  | some d ↦ adf_encode_heads n (head + 1) side (set_side head d track)
]

unfoldable pub adf_encode_cylinders : ℕ → ℕ → (ℕ → ℕ → Option (List ℕ)) → Option (List TrackData)
adf_encode_cylinders zero cyl side = some []
adf_encode_cylinders (suc n) cyl side =
    elim (adf_encode_heads adf_heads 0 (side cyl) (record { side0 = []; side1 = [] })) [
      | none ↦ none
      | some t ↦ elim (adf_encode_cylinders n (cyl + 1) side) [
        | none ↦ none
        | some ts ↦ some (t ∷ ts)
      ]
    ]

unfoldable pub read_adf : List ℕ → AdfLoaded
read_adf file =
    if not (length file == adf_total_size)
    then adf_invalid_size (length file)
    else elim (read_sectors (adf_cylinders * adf_heads * adf_sectors_per_track) 0 file) [
      | err e ↦ adf_unreadable e
      | ok sectors ↦ elim (adf_encode_cylinders adf_cylinders 0 (adf_side sectors)) [
        | none ↦ adf_panic
        | some tracks ↦ adf_loaded (record {
          header = adf_header;
          tracks = tracks;
          verify_ibmpc = false;
          verify_amiga = false;
        })
      ]
    ]

pub data AdfSaved : Type 0 where
  adf_bad_cylinders : ℕ → AdfSaved
  adf_bad_heads : ℕ → AdfSaved
  adf_written : Saved → AdfSaved

unfoldable pub adf_write_side : ℕ → ℕ → List ℕ → List ℕ → Saved
adf_write_side cyl head side file =
    if length side == 0
    then empty_track cyl head file
    else elim (collect adf_sectors_per_track (as_integer (read_sector_amiga (cyl * 2 + head)))
        (new_reader side)) [
          | got m r ↦ save_sectors cyl head (write_in_order adf_sectors_per_track 0 m file)
          | failed r ↦ unfinished
          | stuck ↦ unfinished
        ]

unfoldable pub adf_write_heads : ℕ → ℕ → ℕ → List TrackData → List ℕ → Saved
adf_write_heads zero head cyl tracks file = saved file
adf_write_heads (suc n) head cyl tracks file = elim (get_elem? tracks cyl) [
  | none ↦ out_of_range file
  | some track ↦
      and_then (adf_write_side cyl head (side_of head track) file)
        (adf_write_heads n (head + 1) cyl tracks)
]

unfoldable pub adf_write_cylinders : ℕ → ℕ → List TrackData → List ℕ → Saved
adf_write_cylinders zero cyl tracks file = saved file
adf_write_cylinders (suc n) cyl tracks file =
    and_then (adf_write_heads adf_heads 0 cyl tracks file) (adf_write_cylinders n (cyl + 1) tracks)

unfoldable pub write_adf : Disk → AdfSaved
write_adf disk =
    if ltb disk.header.number_of_track adf_cylinders
    then adf_bad_cylinders disk.header.number_of_track
    else if not (disk.header.number_of_side == adf_heads)
    then adf_bad_heads disk.header.number_of_side
    else adf_written (adf_write_cylinders adf_cylinders 0 disk.tracks [])
