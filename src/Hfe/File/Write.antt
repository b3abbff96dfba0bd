-- ===== src/Hfe/File/Write.antt =====
-- WriteHFE of hfe/write.go, as the bytes of the file; creating and writing it succeed.
use fdx.Prelude.{ℕ, ◌+◌, ◌-◌, ◌*◌, ◌/◌, not, ◌&&◌, if◌then◌else◌}
use fdx.Prelude.{ltb, ◌==◌, u16, List, [], ◌∷◌, ◌++◌, length, replicate, map}
use fdx.Hfe.Disk.{Header, TrackData, Disk}
use fdx.Hfe.Blocks.{TrackHeader, header_for, write_encoded_track, write_raw_track}
use fdx.Hfe.Blocks.{block_len, longer}
use fdx.Hfe.File.Opcodes.{encode_opcodes}
use fdx.Hfe.File.Header.{hfev1_signature, hfev3_signature, header_block, track_entry}

abbrev pub hfe_version1 : ℕ
hfe_version1 = 1

abbrev pub hfe_version3 : ℕ
hfe_version3 = 3

-- How the writer ends; what was written of the file before the error.
pub data HfeSaved : Type 0 where
  hfe_saved : List ℕ → HfeSaved
  invalid_version : ℕ → HfeSaved
  too_many_tracks : List ℕ → HfeSaved

unfoldable pub hfe_header : ℕ → Header → Header
hfe_header version h = record h {
  header_signature = if version == hfe_version3 then hfev3_signature else hfev1_signature;
  format_revision = 0;
  track_list_offset = 1;
}

-- The side as it is stored.
unfoldable pub stored_side : ℕ → List ℕ → List ℕ
stored_side version side = if version == hfe_version3 then encode_opcodes side else side

unfoldable pub stored_track : ℕ → ℕ → TrackData → TrackData
stored_track version sides t = record {
  side0 = stored_side version t.side0;
  side1 = if ltb 1 sides then stored_side version t.side1 else stored_side version t.side0;
}

-- The track list, from the block `pos` on.
unfoldable pub track_headers : ℕ → List TrackData → List TrackHeader
track_headers pos [] = []
track_headers pos (t ∷ ts) =
    header_for pos t.side0 t.side1
    ∷ track_headers (u16 (pos + u16 (block_len (longer t.side0 t.side1 * 2) / 512))) ts

unfoldable pub track_entries : List TrackHeader → List ℕ
track_entries [] = []
track_entries (th ∷ ths) = track_entry th ++ track_entries ths

-- `trackListBuf`, where there are no more than 128 tracks.
unfoldable pub track_list : List TrackHeader → List ℕ
track_list ths = track_entries ths ++ replicate (512 - 4 * length ths) 0xff

unfoldable pub write_tracks : ℕ → ℕ → List TrackHeader → List TrackData → List ℕ
write_tracks version sides (th ∷ ths) (t ∷ ts) =
    (if version == hfe_version3
      then write_encoded_track th t.side0 t.side1 sides
      else write_raw_track th t.side0 t.side1 sides)
    ++ write_tracks version sides ths ts
write_tracks version sides ths ts = []

unfoldable pub write_hfe : ℕ → Disk → HfeSaved
write_hfe version disk =
    let header = header_block (hfe_header version disk.header) in
    let tracks = map (stored_track version disk.header.number_of_side) disk.tracks in
    let ths = track_headers 2 tracks in
    if not (version == hfe_version1) && not (version == hfe_version3)
    then invalid_version version
    else if ltb 128 (length tracks)
    then too_many_tracks header
    else hfe_saved
        (header ++ (track_list ths ++ write_tracks version disk.header.number_of_side ths tracks))
