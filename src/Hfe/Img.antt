-- ===== src/Hfe/Img.antt =====
-- hfe/img.go: a disk from an image file of sectors, and the file from a disk. The file is the list
-- of its bytes; opening, creating and writing it always succeed here.
pub mod Sectors
pub mod Slices
pub mod Save
pub mod Disks
pub mod RoundTrip
pub mod Finish
use fdx.Prelude.{ℕ, zero, suc, ◌+◌, ◌*◌, ◌/◌, Bool, true, false, if◌then◌else◌, ltb, ◌==◌, u8}
use fdx.Prelude.{Option, none, some, List, [], ◌∷◌, ◌++◌, length, get_or, get_elem?, take, drop}
use fdx.Mfm.Writer.{new_writer, encode_track_ibmpc}
use fdx.Mfm.Reader.{
  Reader, Read, got, failed, stuck, new_reader, count_sectors_ibmpc, read_sector_ibmpc,
}
use fdx.Mfm.Format.{Format, Detected, detected, not_divisible, unknown_format, total_sectors}
use fdx.Mfm.Format.{detect_format_from_size}
use fdx.Hfe.Disk.{Header, TrackData, Disk, enc_isoibm_mfm, ifm_ibmpc_dd, ifm_ibmpc_hd, ifm_ibmpc_ed}
use fdx.Hfe.Collect.{collect, InOrder, all_written, missing, write_in_order}

-- The errors of `ReadIMG`.
pub data ImgError : Type 0 where
  no_format : ImgError
  failed_sector : ℕ → ImgError
  incomplete_sector : ℕ → ℕ → ImgError

pub data Result {ℓ} (A : Type ℓ) : Type ℓ where
  ok : A → Result A
  err : ImgError → Result A

-- Sector `i` and the `n` behind it: `file.Read` gives up to 512 bytes, and an error at the end.
unfoldable pub read_sectors : ℕ → ℕ → List ℕ → Result (List (List ℕ))
read_sectors zero i file = ok []
read_sectors (suc n) i file =
    let sector = take 512 file in
    let later = read_sectors n (i + 1) (drop 512 file) in
    if length sector == 0
    then err (failed_sector i)
    else if ltb (length sector) 512
    then err (incomplete_sector i (length sector))
    else elim later [ ok ds ↦ ok (sector ∷ ds) | err e ↦ err e ]

unfoldable pub img_bit_rate : ℕ → ℕ
img_bit_rate spt = if ltb spt 12 then 250 else if ltb 18 spt then 1000 else 500

unfoldable pub img_interface_mode : ℕ → ℕ
img_interface_mode spt =
    if ltb spt 12 then ifm_ibmpc_dd else if ltb 18 spt then ifm_ibmpc_ed else ifm_ibmpc_hd

unfoldable pub img_rpm : ℕ → ℕ
img_rpm spt = if spt == 15 then 360 else 300

-- The fields that the code leaves out are zero values.
unfoldable pub img_header : Format → Header
img_header f = record {
  header_signature = 0 ∷ 0 ∷ 0 ∷ 0 ∷ 0 ∷ 0 ∷ 0 ∷ 0 ∷ [];
  format_revision = 0;
  number_of_track = u8 f.cylinders;
  number_of_side = u8 f.sides;
  track_encoding = enc_isoibm_mfm;
  bit_rate = img_bit_rate f.sectors_per_track;
  floppy_rpm = img_rpm f.sectors_per_track;
  floppy_interface_mode = img_interface_mode f.sectors_per_track;
  write_protected = 0xff;
  track_list_offset = 0;
  write_allowed = 0xff;
  single_step = 0xff;
  track0s0_alt_encoding = 0xff;
  track0s0_encoding = enc_isoibm_mfm;
  track0s1_alt_encoding = 0xff;
  track0s1_encoding = enc_isoibm_mfm;
}

-- `trackSectors`: `n` sectors from index `i` on.
unfoldable pub track_sectors : ℕ → ℕ → List (List ℕ) → List (List ℕ)
track_sectors zero i sectors = []
track_sectors (suc n) i sectors = get_or sectors i [] ∷ track_sectors n (i + 1) sectors

unfoldable pub max_half_bits_of : Header → ℕ
max_half_bits_of h = h.bit_rate * 1000 * 60 / h.floppy_rpm * 2

unfoldable pub encode_side : Format → Header → List (List ℕ) → ℕ → ℕ → List ℕ
encode_side f h sectors cyl head =
    let track = cyl * f.sides + head in
    encode_track_ibmpc (track_sectors f.sectors_per_track (track * f.sectors_per_track) sectors) cyl
      head f.sectors_per_track h.bit_rate (new_writer (max_half_bits_of h))

unfoldable pub set_side : ℕ → List ℕ → TrackData → TrackData
set_side head side track =
    if head == 0 then record track { side0 = side } else record track { side1 = side }

-- The loop over the heads, `n` of them from `head` on, and the loop over the cylinders.
unfoldable pub encode_heads : ℕ → ℕ → (ℕ → List ℕ) → TrackData → TrackData
encode_heads zero head side track = track
encode_heads (suc n) head side track =
    encode_heads n (head + 1) side (set_side head (side head) track)

unfoldable pub encode_cylinders : ℕ → ℕ → ℕ → (ℕ → ℕ → List ℕ) → List TrackData
encode_cylinders zero cyl sides side = []
encode_cylinders (suc n) cyl sides side =
    encode_heads sides 0 (side cyl) (record { side0 = []; side1 = [] })
    ∷ encode_cylinders n (cyl + 1) sides side

unfoldable pub encode_disk : Format → List (List ℕ) → Disk
encode_disk f sectors = record {
  header = img_header f;
  tracks = encode_cylinders f.cylinders 0 f.sides (encode_side f (img_header f) sectors);
  verify_ibmpc = false;
  verify_amiga = false;
}

unfoldable pub read_img : List ℕ → Result Disk
read_img file = elim (detect_format_from_size (length file)) [
  | detected f ↦ elim (read_sectors (total_sectors f) 0 file) [
    | ok sectors ↦ ok (encode_disk f sectors)
    | err e ↦ err e
  ]
  | not_divisible ↦ err no_format
  | unknown_format ↦ err no_format
]

-- How `WriteIMG` ends, with the bytes written so far. `out_of_range` is the panic of an index
-- beyond the tracks, `unfinished` is no Go value: a loop ran out of fuel.
pub data Saved : Type 0 where
  saved : List ℕ → Saved
  empty_track : ℕ → ℕ → List ℕ → Saved
  missing_sector : ℕ → ℕ → ℕ → List ℕ → Saved
  out_of_range : List ℕ → Saved
  unfinished : Saved

-- The next part of the loop, where the one before it returned no error.
abbrev pub and_then : Saved → (List ℕ → Saved) → Saved
and_then (saved file) k = k file
and_then (empty_track c h file) k = empty_track c h file
and_then (missing_sector s c h file) k = missing_sector s c h file
and_then (out_of_range file) k = out_of_range file
and_then unfinished k = unfinished

abbrev pub save_sectors : ℕ → ℕ → InOrder → Saved
save_sectors cyl head (all_written file) = saved file
save_sectors cyl head (missing s file) = missing_sector s cyl head file

unfoldable pub write_side : ℕ → ℕ → ℕ → List ℕ → List ℕ → Saved
write_side spt cyl head side file =
    if length side == 0
    then empty_track cyl head file
    else elim (collect spt (read_sector_ibmpc cyl head) (new_reader side)) [
      | got m r ↦ save_sectors cyl head (write_in_order spt 0 m file)
      | failed r ↦ unfinished
      | stuck ↦ unfinished
    ]

unfoldable pub side_of : ℕ → TrackData → List ℕ
side_of head track = if head == 0 then track.side0 else track.side1

unfoldable pub write_heads : ℕ → ℕ → ℕ → ℕ → List TrackData → List ℕ → Saved
write_heads zero head spt cyl tracks file = saved file
write_heads (suc n) head spt cyl tracks file = elim (get_elem? tracks cyl) [
  | none ↦ out_of_range file
  | some track ↦
      and_then (write_side spt cyl head (side_of head track) file)
        (write_heads n (head + 1) spt cyl tracks)
]

unfoldable pub write_cylinders : ℕ → ℕ → ℕ → ℕ → List TrackData → List ℕ → Saved
write_cylinders zero cyl heads spt tracks file = saved file
write_cylinders (suc n) cyl heads spt tracks file =
    and_then (write_heads heads 0 spt cyl tracks file)
      (write_cylinders n (cyl + 1) heads spt tracks)

unfoldable pub write_img : Disk → Saved
write_img disk = elim (get_elem? disk.tracks 0) [
  | none ↦ out_of_range []
  | some track ↦ elim (count_sectors_ibmpc (new_reader track.side0)) [
    | got spt r ↦
        write_cylinders disk.header.number_of_track 0 disk.header.number_of_side spt disk.tracks []
    | failed r ↦ unfinished
    | stuck ↦ unfinished
  ]
]
