-- ===== src/Hfe/Blocks.antt =====
-- The tracks of an HFE file, hfe/read.go and hfe/write.go: in every block of 512 bytes the first 256
-- are of side 0 and the others of side 1, the low bit of a byte first.
pub mod Sides
pub mod RoundTrip
use fdx.Prelude.{
  ℕ, zero, suc, ◌+◌, ◌-◌, ◌*◌, ◌/◌, ◌%◌, ◌^◌, Bool, true, false, if◌then◌else◌, ltb, ◌==◌,
}
use fdx.Prelude.{List, [], ◌∷◌, ◌++◌, map, length, take, drop, replicate}
use fdx.Hfe.Bits.{byte_bits_inverter}
use fdx.Hfe.Disk.{TrackData}

pub record TrackHeader : Type 0 where
  pub offset : ℕ
  pub track_len : ℕ

-- A buffer of `n` bytes with the side copied into it and padded with `v`.
unfoldable pub padded : ℕ → ℕ → List ℕ → List ℕ
padded n v side = take n side ++ replicate (n - length side) v

-- The loop over the blocks.
unfoldable pub interleave : ℕ → List ℕ → List ℕ → List ℕ
interleave zero s0 s1 = []
interleave (suc k) s0 s1 =
    map byte_bits_inverter (take 256 s0)
    ++ (map byte_bits_inverter (take 256 s1) ++ interleave k (drop 256 s0) (drop 256 s1))

-- `writeEncodedTrack` and `writeRawTrack`, which differ in the padding.
unfoldable pub write_track : ℕ → TrackHeader → List ℕ → List ℕ → ℕ → List ℕ
write_track v th side0 side1 num_sides =
    let s0 = padded (th.track_len / 2) v side0 in
    let s1 = if ltb 1 num_sides then padded (th.track_len / 2) v side1 else s0 in
    interleave (th.track_len / 512) s0 s1 ++ replicate (th.track_len % 512) 0

unfoldable pub write_encoded_track : TrackHeader → List ℕ → List ℕ → ℕ → List ℕ
write_encoded_track = write_track 0xf0

unfoldable pub write_raw_track : TrackHeader → List ℕ → List ℕ → ℕ → List ℕ
write_raw_track = write_track 0xff

-- The track length of a list entry: both sides, in whole blocks, as 16 bits.
unfoldable pub block_len : ℕ → ℕ
block_len bytelen = if bytelen % 512 == 0 then bytelen else (bytelen / 512 + 1) * 512

unfoldable pub longer : List ℕ → List ℕ → ℕ
longer side0 side1 = if ltb (length side0) (length side1) then length side1 else length side0

unfoldable pub header_for : ℕ → List ℕ → List ℕ → TrackHeader
header_for pos side0 side1 = record {
  offset = pos;
  track_len = block_len (longer side0 side1 * 2) % 65536;
}

-- The length that `readTrack` reads, rounded up to a block.
unfoldable pub read_len : ℕ → ℕ
read_len n = if n % 512 == 0 then n else n / 512 * 512 + 512

-- The loops that take the sides apart.
unfoldable pub side0_of : ℕ → List ℕ → List ℕ
side0_of zero buf = []
side0_of (suc k) buf = map byte_bits_inverter (take 256 buf) ++ side0_of k (drop 512 buf)

unfoldable pub side1_of : ℕ → List ℕ → List ℕ
side1_of zero buf = []
side1_of (suc k) buf = map byte_bits_inverter (take 256 (drop 256 buf)) ++ side1_of k (drop 512 buf)

pub data TrackRead : Type 0 where
  track_read : TrackData → TrackRead
  short_file : TrackRead
  bad_opcodes : TrackRead

-- `readTrack` of a version 1 file.
unfoldable pub read_raw_track : List ℕ → TrackHeader → ℕ → TrackRead
read_raw_track file th num_sides =
    let n = read_len th.track_len in
    let buf = take n (drop (th.offset * 512) file) in
    if ltb (length buf) n
    then short_file
    else track_read (record {
      side0 = side0_of (n / 512) buf;
      side1 = if ltb 1 num_sides then side1_of (n / 512) buf else [];
    })
