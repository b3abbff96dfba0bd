-- ===== src/Examples/File.antt =====
-- The results about HFE files and the names of images at small concrete inputs.
use fdx.Prelude.{ℕ, ◌≡◌, refl, arith, map, false}
use fdx.Prelude.{All, List, [], ◌∷◌, ◌++◌, replicate}
use fdx.Hfe.Disk.{TrackData, Disk}
use fdx.Hfe.Bkd.{bkd_header}
use fdx.Hfe.ImageFormat.{image_format_hfe, image_format_scp, string, dot, detect_image_format}
use fdx.Hfe.ImageFormat.Names.{detect_image_format-string}
use fdx.Hfe.File.Opcodes.{process_opcodes, encode_opcodes, processed, nop_opcode}
use fdx.Hfe.File.Escapes.{IsStorable, process-encode_opcodes}
use fdx.Hfe.File.Write.{hfe_saved, hfe_version1, hfe_version3, write_hfe}
use fdx.Hfe.File.Read.{hfe_loaded, read_hfe}
use fdx.Hfe.File.Tracks.{IsShort}
use fdx.Hfe.File.Kept.{IsStorableTrack, filled_track, same_track}
use fdx.Hfe.File.RoundTrip.{IsWritable, loaded_disk, read-write_hfe3}
use fdx.Hfe.Dispatch.{read, write, from_hfe, to_hfe, read-write}

-- One is escaped, one is not.
abbrev two_bytes : List ℕ
two_bytes = 0xf1 ∷ 0x44 ∷ []

two_bytes-IsStorable : All IsStorable two_bytes
two_bytes-IsStorable =
    ((ground arith, ground arith, ground arith), ((ground arith, ground arith, ground arith), tt))

process-encode_opcodes_example :
    process_opcodes (encode_opcodes two_bytes ++ replicate 3 nop_opcode) ≡ processed two_bytes
process-encode_opcodes_example = process-encode_opcodes two_bytes 3 two_bytes-IsStorable

abbrev small_track : TrackData
small_track = record { side0 = two_bytes; side1 = two_bytes }

abbrev small_disk : Disk
small_disk = record {
  header = record bkd_header {
    number_of_track = 1;
    number_of_side = 2;
    bit_rate = 250;
    floppy_rpm = 300;
  };
  tracks = small_track ∷ [];
  verify_ibmpc = false;
  verify_amiga = false;
}

small_disk-IsWritable : IsWritable small_disk
small_disk-IsWritable = record {
  counted = refl;
  some_tracks = ground arith;
  room = ground arith;
  some_sides = ground arith;
  some_rate = ground arith;
  some_rpm = ground arith;
}

small_track-IsStorableTrack : IsStorableTrack small_track
small_track-IsStorableTrack = record {
  storable0 = two_bytes-IsStorable;
  storable1 = two_bytes-IsStorable;
  few0 = ground arith;
  few1 = ground arith;
}

small_track-IsShort : IsShort small_track
small_track-IsShort = record {
  bytes0 = (ground arith, (ground arith, tt));
  bytes1 = (ground arith, (ground arith, tt));
  short0 = ground arith;
  short1 = ground arith;
}

read-write_hfe3_example :
    (file : List ℕ) × (write_hfe hfe_version3 small_disk ≡ hfe_saved file)
    × (read_hfe file
        ≡ hfe_loaded (
            loaded_disk hfe_version3 small_disk
              (map (same_track small_disk.header.number_of_side) small_disk.tracks)))
read-write_hfe3_example =
    read-write_hfe3 small_disk small_disk-IsWritable (small_track-IsStorableTrack, tt)

-- "a.HFE"
abbrev small_name : List ℕ
small_name = (0x61 ∷ []) ++ dot ∷ string image_format_hfe

small_name-detected : detect_image_format small_name ≡ image_format_hfe
small_name-detected = detect_image_format-string image_format_hfe (0x61 ∷ []) cc

read-write_example :
    (file : List ℕ) × (write small_name [] small_disk ≡ to_hfe (hfe_saved file))
    × (read small_name file
        ≡ from_hfe (
            hfe_loaded (
              loaded_disk hfe_version1 small_disk
                (map (filled_track small_disk.header.number_of_side) small_disk.tracks))))
read-write_example =
    read-write small_name [] small_disk small_name-detected small_disk-IsWritable
      (small_track-IsShort, tt)

detect_image_format_example :
    detect_image_format ((0x61 ∷ 0x2e ∷ []) ++ dot ∷ string image_format_scp) ≡ image_format_scp
detect_image_format_example = detect_image_format-string image_format_scp (0x61 ∷ 0x2e ∷ []) cc
