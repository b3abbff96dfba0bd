-- ===== src/Examples.antt =====
-- The properties of the IBM PC track code at small concrete inputs, and the disk they stand for: a
-- track of two sectors at 250 kbps.
mod Imd
mod File
mod Kryoflux
mod Greaseweazle
mod Mfm
mod Supercardpro
use fdx.Hfe.Bkd.{read_bkd, write_bkd, loaded, written}
use fdx.Hfe.Bkd.RoundTrip.{read_bkd-write_bkd}
use fdx.Hfe.Bits.{bit_reverse_block, byte_bits_inverter}
use fdx.Hfe.Bits.Mirror.{bit_reverse_block-map}
use fdx.Hfe.Blocks.{read_raw_track, write_raw_track, header_for, track_read}
use fdx.Hfe.Blocks.RoundTrip.{read-write_track}
use fdx.Hfe.Verify.{verify_track_ibmpc, verified}
use fdx.Hfe.Verify.Same.{verify_track-same}
use fdx.Hfe.Verify.{init_verify_options, must_verify}
use fdx.Hfe.Verify.Options.{init_verify_options-encoded}
use fdx.Hfe.Verify.{bad_data}
use fdx.Hfe.Verify.Different.{verify_track-differ}
use fdx.Hfe.Adf.{read_adf, adf_loaded, write_adf}
use fdx.Hfe.Adf.Full.{IsFull, read_adf-IsFull}
use fdx.Hfe.Adf.Finish.{AdfFinishes, write_adf-AdfFinishes}
use fdx.Prelude.Int.{pos}
use fdx.Prelude.{◌≢◌, get_or}
use fdx.Prelude.{get_elem?, false, suc, zero}
use fdx.Hfe.Bkd.{bkd_header}
use fdx.Hfe.Img.Finish.{Finishes, write_img-Finishes}
use fdx.Mfm.Reader.Ends.{left, Costs, read_sector_ibmpc-Costs}
use fdx.Mfm.Reader.Returns.{count_sectors_ibmpc-Returns}
use fdx.Mfm.Amiga.{read_sector_amiga, count_sectors_amiga, encode_track_amiga}
use fdx.Mfm.Amiga.Ends.{read_sector_amiga-Costs, count_sectors_amiga-Returns}
use fdx.Mfm.Amiga.Length.{length-encode_track_amiga}
use fdx.Prelude.{map, true}
use fdx.Prelude.{length-replicate, inl, ◌*◌, ◌/◌, ap, ◌∙◌}
use fdx.Mfm.Reader.{shift_history}
use fdx.Mfm.Reader.Bits.{Fails}
use fdx.Mfm.Reader.Scan.{scan_ibmpc-Reads, scan_ibmpc-Fails}
use fdx.Mfm.Reader.{count_sectors_ibmpc, is_mark, scan_ibmpc}
use fdx.Mfm.Reader.Gaps.{gap_history}
use fdx.Mfm.Reader.Count.{past_data}
use fdx.Mfm.Format.{
  detect_format_from_size, common_formats, common_format, detected, format, total_sectors,
}
use fdx.Mfm.Format.Geometry.{IsFormat, detect_format-Fits}
use fdx.Hfe.Disk.{Disk}
use fdx.Hfe.Collect.Counted.{count-encode_track}
use fdx.Hfe.Img.{img_bit_rate, img_rpm, read_img, write_img, ok, saved}
use fdx.Hfe.Img.RoundTrip.{read_img-write_img, density_fits}
use fdx.Prelude.{ℕ, zero, suc, ◌≤◌, ◌<◌, ◌≡◌, refl, arith}
use fdx.Prelude.{false, IsByte, All, some, none, List, [], ◌∷◌, ◌++◌, length, take, replicate}
use fdx.Mfm.Crc16.{crc16_ccitt, crc16_ccitt_byte, crc16_poly_tab}
use fdx.Mfm.Crc16.Serial.{serial, crc16_ccitt-serial}
use fdx.Mfm.Crc16.Residue.{crc16_ccitt_residue}
use fdx.Mfm.Symbols.{emit, stream, gap_symbols, a1_mark, byte_symbols, bytes_symbols, last_bit}
use fdx.Mfm.Symbols.Width.{HasSectors, track_width, track_symbols}
use fdx.Mfm.Writer.{
  new_writer, write_half_bit, get_data, encode_track_ibm_internal, header_gap, sector_gap,
}
use fdx.Mfm.Writer.Cells.{Written, new_writer-Written, write_half_bit-Written}
use fdx.Mfm.Writer.Tracks.{get_data-stream}
use fdx.Mfm.Writer.Encode.{length-encode_track, encode_track-stream}
use fdx.Mfm.Reader.{Reader, got, new_reader, read_byte, read_sector_ibmpc}
use fdx.Mfm.Reader.Bits.{rest, Reads, read_byte-Reads}
use fdx.Mfm.Reader.Scan.{scan}
use fdx.Mfm.Reader.Gaps.{gap-a1}
use fdx.Mfm.Reader.Quiet.{Quiet, code, Quiet-bytes}
use fdx.Mfm.Reader.Wash.{Quiet-a1}
use fdx.Hfe.Collect.{collect}
use fdx.Hfe.Collect.Map.{Holds}
use fdx.Hfe.Collect.Encoded.{collect-encode_track}

abbrev two_sectors : List (List ℕ)
two_sectors = replicate 512 0x2a ∷ replicate 512 0xff ∷ []

bytes_alike : (n b : ℕ) → IsByte b → All IsByte (replicate n b)
bytes_alike zero b h = tt
bytes_alike (suc n) b h = (h, bytes_alike n b h)

two_sectors-HasSectors : HasSectors 2 two_sectors
two_sectors-HasSectors zero h = record { size = refl; bytes = bytes_alike 512 0x2a (omega arith) }
two_sectors-HasSectors (suc zero) h = record {
  size = refl;
  bytes = bytes_alike 512 0xff (omega arith);
}
two_sectors-HasSectors (suc (suc s)) h = absurd (omega arith)

two_sectors_fit : track_width 2 250 false ≤ 100000
unfolding header_gap sector_gap
two_sectors_fit = omega arith

two_sectors_fit_300 : track_width 2 300 true ≤ 120000
unfolding header_gap sector_gap
two_sectors_fit_300 = omega arith

collect-encode_track_example :
    (m : List (ℕ × List ℕ)) × (r' : Reader) × (collect 2
        (read_sector_ibmpc 5 1)
        (new_reader (encode_track_ibm_internal two_sectors 5 1 2 250 false (new_writer 100000)))
      ≡ got m r')
    × Holds two_sectors 2 m
collect-encode_track_example =
    collect-encode_track two_sectors 5 1 250 (omega arith) (omega arith) 2 (omega arith)
      two_sectors-HasSectors false 100000 two_sectors_fit

encode_track-stream_example :
    (n k z : ℕ) × (z < 8)
    × (stream (encode_track_ibm_internal two_sectors 5 1 2 250 false (new_writer 100000))
        ≡ emit 0 (track_symbols two_sectors 5 1 2 250 false)
          ++ (take k (emit 0 (gap_symbols n 0x4e)) ++ replicate z 0))
encode_track-stream_example =
    encode_track-stream two_sectors 5 1 2 250 false 100000 two_sectors-HasSectors two_sectors_fit

write_half_bit_example : Written (write_half_bit 1 (new_writer 8)) (1 ∷ [])
write_half_bit_example =
    write_half_bit-Written 1 {w = new_writer 8} {hs = []} (new_writer-Written 8)

check_bytes : All IsByte (0x31 ∷ 0x32 ∷ 0x33 ∷ [])
check_bytes = (omega arith, (omega arith, (omega arith, tt)))

crc16_ccitt_example :
    crc16_ccitt 0xffff (0x31 ∷ 0x32 ∷ 0x33 ∷ []) ≡ serial 0xffff (0x31 ∷ 0x32 ∷ 0x33 ∷ [])
crc16_ccitt_example = crc16_ccitt-serial (0x31 ∷ 0x32 ∷ 0x33 ∷ []) 0xffff (omega arith) check_bytes

residue_example : crc16_ccitt 0xffff ((0x31 ∷ 0x32 ∷ 0x33 ∷ []) ++ (0x5b ∷ 0xce ∷ [])) ≡ 0
unfolding crc16_ccitt crc16_ccitt_byte crc16_poly_tab
residue_example = crc16_ccitt_residue 0xffff (0x31 ∷ 0x32 ∷ 0x33 ∷ []) (omega arith) check_bytes

-- The history of a search that has passed over zeros.
zeros-Quiet : Quiet 0xaaaa_aaaa_aaaa 0
unfolding code
zeros-Quiet = record { digits = 0; few = omega arith; last = refl; wide = omega arith; low = refl }

abbrev byte_track : Reader
byte_track = new_reader (0x92 ∷ 0x54 ∷ [])

count-encode_track_example :
    (r' : Reader) × (count_sectors_ibmpc
        (new_reader (encode_track_ibm_internal two_sectors 5 1 2 250 false (new_writer 100000)))
      ≡ got 2 r')
count-encode_track_example =
    count-encode_track two_sectors 5 1 250 2 (omega arith) two_sectors-HasSectors false 100000
      two_sectors_fit

past_data_example :
    scan 0 (
      emit 1 (
        bytes_symbols (0xa1 ∷ 0xa1 ∷ [])
        ++ (bytes_symbols (0xfe ∷ []) ++ (gap_symbols 80 0x4e ++ a1_mark))))
    ≡ scan gap_history (emit 0 a1_mark)
past_data_example =
    past_data 0xa1 (0xa1 ∷ []) (0xfe ∷ []) 1 80 a1_mark (omega arith) (omega arith) (omega arith)

-- Three A1 marks and the tag FE, and a gap byte.
abbrev marked_track : Reader
marked_track = new_reader (0x44 ∷ 0x89 ∷ 0x44 ∷ 0x89 ∷ 0x44 ∷ 0x89 ∷ 0x55 ∷ 0x54 ∷ [])

-- A 1.44M image.
detect_1440 : detect_format_from_size 1474560 ≡ detected (format 80 2 18)
unfolding detect_format_from_size common_formats common_format
detect_1440 = refl

detect_format_example : (1474560 ≡ 512 * total_sectors (format 80 2 18)) × IsFormat (format 80 2 18)
detect_format_example = detect_format-Fits 1474560 (format 80 2 18) detect_1440

density_fits_example :
    track_width 18 (img_bit_rate 18) false ≤ img_bit_rate 18 * 1000 * 60 / img_rpm 18 * 2
density_fits_example = density_fits 18 (inl (omega arith, omega arith)) (omega arith)

-- A blank disk of 160K.
abbrev blank_image : List ℕ
blank_image = replicate 163840 0xf6

detect_160 : detect_format_from_size 163840 ≡ detected (format 40 1 8)
unfolding detect_format_from_size common_formats common_format
detect_160 = refl

detect_blank : detect_format_from_size (length blank_image) ≡ detected (format 40 1 8)
detect_blank = ap detect_format_from_size (length-replicate {A = ℕ} 163840 0xf6) ∙ detect_160

read_img-write_img_example :
    (disk : Disk) × (read_img blank_image ≡ ok disk) × (write_img disk ≡ saved blank_image)
read_img-write_img_example =
    read_img-write_img blank_image (format 40 1 8) (bytes_alike 163840 0xf6 (omega arith))
      detect_blank (omega arith)

-- A blank BK disk.
abbrev blank_bkd : List ℕ
blank_bkd = replicate 819200 0

read_bkd-write_bkd_example :
    (disk : Disk) × (read_bkd blank_bkd ≡ loaded disk)
    × (write_bkd disk ≡ written (saved blank_bkd))
read_bkd-write_bkd_example =
    read_bkd-write_bkd blank_bkd (bytes_alike 819200 0 (omega arith))
      (length-replicate {A = ℕ} 819200 0)

verify_track-same_example :
    verify_track_ibmpc 5 1
      (encode_track_ibm_internal two_sectors 5 1 2 250 false (new_writer 100000))
      (encode_track_ibm_internal two_sectors 5 1 2 300 true (new_writer 120000))
    ≡ verified
verify_track-same_example =
    verify_track-same two_sectors 5 1 (omega arith) (omega arith) 2 (omega arith)
      two_sectors-HasSectors 250 300 100000 120000 false true two_sectors_fit two_sectors_fit_300

small_side-IsByte : All IsByte (1 ∷ 0xfe ∷ [])
small_side-IsByte = (omega arith, (omega arith, tt))

-- A disk of one track without sectors, and of a second that is missing.
abbrev poor_disk : Disk
poor_disk = record {
  header = bkd_header;
  tracks = record { side0 = 0x92 ∷ 0x54 ∷ []; side1 = [] } ∷ [];
  verify_ibmpc = false;
  verify_amiga = false;
}

write_img-Finishes_example : Finishes (write_img poor_disk)
write_img-Finishes_example = write_img-Finishes poor_disk

read_sector_ibmpc-Costs_example : Costs (left marked_track) (read_sector_ibmpc 0 0 marked_track)
read_sector_ibmpc-Costs_example = read_sector_ibmpc-Costs 0 0 marked_track

abbrev blank_sectors : List (List ℕ)
blank_sectors = replicate 11 (replicate 512 0)

blank_sectors-sizes :
    (i : ℕ) → i < 11 → (d : List ℕ) × (get_elem? blank_sectors i ≡ some d) × (length d ≡ 512)
blank_sectors-sizes i h = (replicate 512 0, replicated 11 i h, refl)
  where
    replicated :
        (n j : ℕ)
        → j < n
        → get_elem? {A = List ℕ} (replicate n (replicate 512 0)) j ≡ some (replicate 512 0)
    replicated zero j k = absurd (omega arith)
    replicated (suc n) zero k = refl
    replicated (suc n) (suc j) k = replicated n j (omega arith)

length-encode_track_amiga_example :
    (side : List ℕ) × (encode_track_amiga blank_sectors 7 (new_writer 100000) ≡ some side)
    × (length side ≡ 12500)
length-encode_track_amiga_example =
    length-encode_track_amiga 100000 blank_sectors 7 refl blank_sectors-sizes

-- A disk of one track, encoded.
abbrev small_disk : Disk
small_disk = record {
  header = bkd_header;
  tracks =
      record {
        side0 = encode_track_ibm_internal two_sectors 5 1 2 250 false (new_writer 100000);
        side1 = [];
      }
      ∷ [];
  verify_ibmpc = false;
  verify_amiga = false;
}

init_verify_options-encoded_example :
    (init_verify_options small_disk ≡ some (record small_disk { verify_ibmpc = true }))
    × (must_verify (record small_disk { verify_ibmpc = true }) ≡ true)
init_verify_options-encoded_example =
    init_verify_options-encoded two_sectors 2 (omega arith) two_sectors-HasSectors small_disk
      (record {
        side0 = encode_track_ibm_internal two_sectors 5 1 2 250 false (new_writer 100000);
        side1 = [];
      })
      5 1 250 100000 false (omega arith) two_sectors_fit refl refl

-- The second sector in another byte.
abbrev other_sectors : List (List ℕ)
other_sectors = replicate 512 0x2a ∷ replicate 512 0xfe ∷ []

other_sectors-HasSectors : HasSectors 2 other_sectors
other_sectors-HasSectors zero h = record { size = refl; bytes = bytes_alike 512 0x2a (omega arith) }
other_sectors-HasSectors (suc zero) h = record {
  size = refl;
  bytes = bytes_alike 512 0xfe (omega arith);
}
other_sectors-HasSectors (suc (suc s)) h = absurd (omega arith)

first_alike : (i : ℕ) → i < 1 → get_or two_sectors i [] ≡ get_or other_sectors i []
first_alike zero h = refl
first_alike (suc i) h = absurd (omega arith)

second_other : get_or two_sectors 1 [] ≢ get_or other_sectors 1 []
second_other e =
    let byte : 0xff ≡ 0xfe = ap (λ (bs : List ℕ). get_or bs 0 0) e in omega (arith, byte)

verify_track-differ_example :
    verify_track_ibmpc 5 1
      (encode_track_ibm_internal two_sectors 5 1 2 250 false (new_writer 100000))
      (encode_track_ibm_internal other_sectors 5 1 2 250 false (new_writer 100000))
    ≡ bad_data (pos 1)
verify_track-differ_example =
    verify_track-differ two_sectors other_sectors 5 1 (omega arith) (omega arith) 2 (omega arith)
      two_sectors-HasSectors other_sectors-HasSectors 1 (omega arith) first_alike second_other 250
      250 100000 100000 false false two_sectors_fit two_sectors_fit

-- A blank Amiga disk.
abbrev blank_adf : List ℕ
blank_adf = replicate 901120 0

read_adf-IsFull_example :
    (disk : Disk) × (read_adf blank_adf ≡ adf_loaded disk)
    × (length disk.tracks ≡ 80)
    × All IsFull disk.tracks
read_adf-IsFull_example =
    read_adf-IsFull blank_adf (bytes_alike 901120 0 (omega arith))
      (length-replicate {A = ℕ} 901120 0)
