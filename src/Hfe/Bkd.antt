-- ===== src/Hfe/Bkd.antt =====
-- hfe/bkd.go: images of BK-0010 and BK-0011M floppies, of one geometry and without an index mark.
-- The loops are those of hfe/img.go, with the constants of the format.
pub mod RoundTrip
use fdx.Prelude.{ℕ, ◌+◌, ◌*◌, ◌/◌, Bool, false, not, if◌then◌else◌, ◌==◌}
use fdx.Prelude.{none, some, List, [], ◌∷◌, length, get_elem?}
use fdx.Mfm.Writer.{new_writer, encode_track_bk}
use fdx.Mfm.Reader.{Read, got, failed, stuck, new_reader, count_sectors_ibmpc}
use fdx.Hfe.Disk.{Header, Disk, enc_isoibm_mfm, ifm_ibmpc_dd}
use fdx.Hfe.Img.{ok, err, read_sectors, ImgError, track_sectors, max_half_bits_of, encode_cylinders}
use fdx.Hfe.Img.{Saved, saved, out_of_range, unfinished, write_cylinders}

abbrev pub bkd_cylinders : ℕ
bkd_cylinders = 80

abbrev pub bkd_heads : ℕ
bkd_heads = 2

abbrev pub bkd_sectors_per_track : ℕ
bkd_sectors_per_track = 10

abbrev pub bkd_expected_size : ℕ
bkd_expected_size = 819200

pub data BkdLoaded : Type 0 where
  loaded : Disk → BkdLoaded
  invalid_size : ℕ → BkdLoaded
  unreadable : ImgError → BkdLoaded

unfoldable pub bkd_header : Header
bkd_header = record {
  header_signature = 0 ∷ 0 ∷ 0 ∷ 0 ∷ 0 ∷ 0 ∷ 0 ∷ 0 ∷ [];
  format_revision = 0;
  number_of_track = bkd_cylinders;
  number_of_side = bkd_heads;
  track_encoding = enc_isoibm_mfm;
  bit_rate = 250;
  floppy_rpm = 300;
  floppy_interface_mode = ifm_ibmpc_dd;
  write_protected = 0xff;
  track_list_offset = 0;
  write_allowed = 0xff;
  single_step = 0xff;
  track0s0_alt_encoding = 0xff;
  track0s0_encoding = enc_isoibm_mfm;
  track0s1_alt_encoding = 0xff;
  track0s1_encoding = enc_isoibm_mfm;
}

unfoldable pub bkd_side : List (List ℕ) → ℕ → ℕ → List ℕ
bkd_side sectors cyl head =
    let track = cyl * bkd_heads + head in
    encode_track_bk (track_sectors bkd_sectors_per_track (track * bkd_sectors_per_track) sectors)
      cyl head bkd_sectors_per_track bkd_header.bit_rate (new_writer (max_half_bits_of bkd_header))

unfoldable pub bkd_disk : List (List ℕ) → Disk
bkd_disk sectors = record {
  header = bkd_header;
  tracks = encode_cylinders bkd_cylinders 0 bkd_heads (bkd_side sectors);
  verify_ibmpc = false;
  verify_amiga = false;
}

unfoldable pub read_bkd : List ℕ → BkdLoaded
read_bkd file =
    if not (length file == bkd_expected_size)
    then invalid_size (length file)
    else elim (read_sectors (bkd_cylinders * bkd_heads * bkd_sectors_per_track) 0 file) [
      | ok sectors ↦ loaded (bkd_disk sectors)
      | err e ↦ unreadable e
    ]

-- How `WriteBKD` ends: a geometry that is not the format's, before the file is created, or what
-- the loops write.
pub data BkdSaved : Type 0 where
  bad_cylinders : ℕ → BkdSaved
  bad_heads : ℕ → BkdSaved
  bad_sectors : ℕ → BkdSaved
  no_tracks : BkdSaved
  not_counted : BkdSaved
  written : Saved → BkdSaved

unfoldable pub write_bkd : Disk → BkdSaved
write_bkd disk = elim (get_elem? disk.tracks 0) [
  | none ↦ no_tracks
  | some track ↦ elim (count_sectors_ibmpc (new_reader track.side0)) [
    | got n r ↦
        if not (disk.header.number_of_track == bkd_cylinders)
        then bad_cylinders disk.header.number_of_track
        else if not (disk.header.number_of_side == bkd_heads)
        then bad_heads disk.header.number_of_side
        else if not (n == bkd_sectors_per_track)
        then bad_sectors n
        else written (
            write_cylinders disk.header.number_of_track 0 disk.header.number_of_side n disk.tracks
              [])
    | failed r ↦ not_counted
    | stuck ↦ not_counted
  ]
]
