-- ===== src/Mfm/Writer.antt =====
-- mfm/writer.go: the bit writer and the IBM track layouts.
pub mod Cells
pub mod Emits
pub mod Tracks
pub mod Encode
use fdx.Prelude.{ℕ, zero, suc, ◌+◌, ◌-◌, ◌*◌, ◌/◌, ◌%◌, ◌^◌, bit_or, bit_xor, Bool, true, false}
use fdx.Prelude.{if◌then◌else◌, ltb, leb, ◌==◌, ◌||◌, u8, u16, ◌<<<◌, ◌>>>◌}
use fdx.Prelude.{List, [], ◌∷◌, ◌++◌, length, get_or, set, take}
use fdx.Mfm.Crc16.{crc16_ccitt_byte, crc16_ccitt}

pub record Writer : Type 0 where
  pub buffer : List ℕ
  pub bit_pos : ℕ
  pub last_data_bit : ℕ
  pub max_half_bits : ℕ

unfoldable pub new_writer : ℕ → Writer
new_writer max = record { buffer = []; bit_pos = 0; last_data_bit = 0; max_half_bits = max }

-- The buffer after `append(w.buffer, 0)`, where the code makes it.
unfoldable pub grown : Writer → List ℕ
grown w = if leb (length w.buffer) ((w.bit_pos + 7) / 8) then w.buffer ++ (0 ∷ []) else w.buffer

-- `buffer[pos/8] |= 1 << (7 - pos%8)`
unfoldable pub set_bit : List ℕ → ℕ → List ℕ
set_bit buf pos = set buf (pos / 8) (bit_or (get_or buf (pos / 8) 0) (u8 (1 <<< (7 - pos % 8))))

unfoldable pub write_half_bit : ℕ → Writer → Writer
write_half_bit value w = if leb w.max_half_bits w.bit_pos then w else record w {
  buffer = if value == 0 then grown w else set_bit (grown w) w.bit_pos;
  bit_pos = w.bit_pos + 1;
}

unfoldable pub write_bit : ℕ → Writer → Writer
write_bit bit w =
    let w' =
      if bit == 0
      then write_half_bit 0 (write_half_bit (bit_xor w.last_data_bit 1) w)
      else write_half_bit 1 (write_half_bit 0 w) in
    record w' { last_data_bit = bit }

-- The bits `i - 1` down to 0 of a byte.
unfoldable pub write_bits_below : ℕ → ℕ → Writer → Writer
write_bits_below zero b w = w
write_bits_below (suc i) b w = write_bits_below i b (write_bit ((b >>> i) % 2) w)

unfoldable pub write_byte : ℕ → Writer → Writer
write_byte b = write_bits_below 8 b

unfoldable pub write_bytes : List ℕ → Writer → Writer
write_bytes [] w = w
write_bytes (b ∷ bs) w = write_bytes bs (write_byte b w)

unfoldable pub write_gap : ℕ → ℕ → Writer → Writer
write_gap zero value w = w
write_gap (suc n) value w = write_gap n value (write_byte value w)

-- One A1 with the clock bit of its sixth bit left out.
unfoldable pub write_a1 : Writer → Writer
write_a1 w0 =
    let w1 = write_bit 0 (write_bit 0 (write_bit 1 (write_bit 0 (write_bit 1 w0)))) in
    write_bit 1 (write_bit 0 (write_half_bit 0 (write_half_bit 0 w1)))

-- One 0xC2 with the same violation.
unfoldable pub write_c2 : Writer → Writer
write_c2 w0 =
    let w1 = write_bit 0 (write_bit 0 (write_bit 0 (write_bit 1 (write_bit 1 w0)))) in
    write_bit 0 (write_bit 1 (write_half_bit 0 (write_half_bit 0 w1)))

unfoldable pub write_marker : ℕ → Writer → Writer
write_marker tag w = write_byte tag (write_a1 (write_a1 (write_a1 (write_gap 12 0 w))))

unfoldable pub write_index_marker : Writer → Writer
write_index_marker w = write_byte 0xfc (write_c2 (write_c2 (write_c2 (write_gap 12 0 w))))

unfoldable pub get_data : Writer → List ℕ
get_data w =
    let actual = (w.bit_pos + 7) / 8 in
    if ltb actual (length w.buffer) then take actual w.buffer else w.buffer

-- gap2 and gap3.
unfoldable pub header_gap : ℕ → ℕ
header_gap bit_rate = if ltb 500 bit_rate then 41 else 22

unfoldable pub sector_gap : ℕ → ℕ → ℕ
sector_gap bit_rate spt =
    if bit_rate == 500
    then (if ltb 18 spt then 44 else if ltb spt 18 then 84 else 108)
    else if bit_rate == 1000
    then (if ltb 36 spt then 40 else 84)
    else if bit_rate == 250 || bit_rate == 300
    then (if ltb 9 spt then 34 else 80)
    else 80

unfoldable pub header_sum : ℕ → ℕ → ℕ → ℕ → ℕ
header_sum cylinder head sector size =
    crc16_ccitt_byte
      (crc16_ccitt_byte (crc16_ccitt_byte (crc16_ccitt_byte 0xb230 cylinder) head) sector) size

unfoldable pub data_sum : List ℕ → ℕ
data_sum sector_data = crc16_ccitt (crc16_ccitt_byte 0xcdb4 0xfb) sector_data

-- High byte first.
unfoldable pub write_sum : ℕ → Writer → Writer
write_sum sum w = write_byte (u8 sum) (write_byte (u8 (sum >>> 8)) w)

unfoldable pub write_header : ℕ → ℕ → ℕ → Writer → Writer
write_header cylinder head s w =
    let cyl = u8 cylinder in
    let hd = u8 head in
    let sec = u8 (s + 1) in
    let w1 = write_byte 2 (write_byte sec (write_byte hd (write_byte cyl (write_marker 0xfe w)))) in
    write_sum (header_sum cyl hd sec 2) w1

unfoldable pub write_data : List ℕ → Writer → Writer
write_data sector_data w =
    write_sum (data_sum sector_data) (write_bytes sector_data (write_marker 0xfb w))

-- The loop over the sectors, `n` of them from number `s` on. A sector that is not there is an index out
-- of range in the code and empty here; the results are about tracks that have all their sectors.
unfoldable pub write_sectors : ℕ → List (List ℕ) → ℕ → ℕ → ℕ → ℕ → ℕ → Writer → Writer
write_sectors zero sectors cylinder head hgap sgap s w = w
write_sectors (suc n) sectors cylinder head hgap sgap s w =
    let w1 = write_gap hgap 0x4e (write_header cylinder head s w) in
    let w2 = write_gap sgap 0x4e (write_data (get_or sectors s []) w1) in
    write_sectors n sectors cylinder head hgap sgap (s + 1) w2

unfoldable pub write_preamble : Bool → Writer → Writer
write_preamble skip_index_mark w =
    write_gap 50 0x4e (if skip_index_mark then w else write_index_marker (write_gap 80 0x4e w))

-- The gap that fills the track; where nothing is left the difference is 0 here, and the loop
-- of the code does not run.
unfoldable pub write_fill : ℕ → Writer → Writer
write_fill value w = write_gap (w.max_half_bits / 8 - length (get_data w)) value w

unfoldable pub encode_track_ibm_internal : List (List ℕ) → ℕ → ℕ → ℕ → ℕ → Bool → Writer → List ℕ
encode_track_ibm_internal sectors cylinder head spt bit_rate skip_index_mark w =
    let w1 =
      write_sectors spt sectors cylinder head (header_gap bit_rate) (sector_gap bit_rate spt) 0
        (write_preamble skip_index_mark w) in
    get_data (write_fill 0x4e w1)

unfoldable pub encode_track_ibmpc : List (List ℕ) → ℕ → ℕ → ℕ → ℕ → Writer → List ℕ
encode_track_ibmpc sectors cylinder head spt bit_rate w =
    encode_track_ibm_internal sectors cylinder head spt bit_rate false w

unfoldable pub encode_track_bk : List (List ℕ) → ℕ → ℕ → ℕ → ℕ → Writer → List ℕ
encode_track_bk sectors cylinder head spt bit_rate w =
    encode_track_ibm_internal sectors cylinder head spt bit_rate true w
