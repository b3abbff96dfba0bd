-- ===== src/Mfm/Reader/Sectors.antt =====
-- `ReadSectorIBMPC` of mfm/reader.go on a sector that mfm/writer.go wrote.
use fdx.Prelude.{ℕ, ◌+◌, ◌*◌, ◌%◌, ◌≤◌, ◌<◌, ◌≡◌, refl, ap, ◌∙◌, arith}
use fdx.Prelude.{true, ◌==◌, ==_refl, IsByte, IsBit, All, u8}
use fdx.Prelude.{List, ◌++◌, append_assoc}
use fdx.Prelude.Int.{ℤ, pos}
use fdx.Mfm.Crc16.Serial.{crc16_ccitt_byte-lt, crc16_ccitt-lt}
use fdx.Mfm.Symbols.{Symbol, emit, last_bit, byte_symbols, bytes_symbols, gap_symbols}
use fdx.Mfm.Symbols.Track.{sum_bytes, header_bytes, header_symbols, data_symbols}
use fdx.Mfm.Symbols.Width.{IsSector}
use fdx.Mfm.Writer.{header_sum, data_sum}
use fdx.Mfm.Reader.{Reader, M, got, attempt, read_bytes, read_sum}
use fdx.Mfm.Reader.{scan_ibmpc, is_good_sum, sector_index, read_sector_data, read_sector_round}
use fdx.Mfm.Reader.Bits.{rest, Reads, Reads-bind, read_bytes-Reads}
use fdx.Mfm.Reader.Scan.{scan, scan_ibmpc-Reads}
use fdx.Mfm.Reader.Gaps.{gap-a1}
use fdx.Mfm.Reader.Parts.{read_sum-Reads, read_header-Reads}

pub header_sum-lt : (c h s z : ℕ) → IsByte z → header_sum c h s z < 65536
unfolding header_sum
header_sum-lt c h s z hz = crc16_ccitt_byte-lt _ z hz

data_sum-lt : (d : List ℕ) → All IsByte d → data_sum d < 65536
unfolding data_sum
data_sum-lt d k = crc16_ccitt-lt d _ (crc16_ccitt_byte-lt 0xcdb4 0xfb (omega arith)) k

-- The bit before what follows a sector.
abbrev pub after_data : ℕ → List ℕ → ℕ
after_data l d = last_bit (last_bit l (bytes_symbols d)) (bytes_symbols (sum_bytes (data_sum d)))

-- The data mark, the data and their checksum.
read_sector_data-Reads :
    (again : M (ℤ × List ℕ)) (sector n l : ℕ) (d : List ℕ) (ss : List Symbol) (r : Reader)
    → IsBit l
    → 4 ≤ n
    → IsSector d
    → rest r ≡ emit l (gap_symbols n 0x4e ++ (data_symbols d ++ ss))
    → Reads (read_sector_data again sector) r (sector_index sector, d) (emit (data_sum d % 2) ss)
unfolding read_sector_data
read_sector_data-Reads again sector n l d ss r hl hn hd e =
    let sums = bytes_symbols (sum_bytes (data_sum d)) in
    let tagged =
      scan_ibmpc-Reads r 0xfb 1 ((bytes_symbols d ++ sums) ++ ss) (omega arith) (
        ap (scan 0) e
        ∙ gap-a1 n l (byte_symbols 0xfb ++ ((bytes_symbols d ++ sums) ++ ss)) hl hn) in
    Reads-bind scan_ibmpc _ tagged λ r1 e1.
      let bytes =
        read_bytes-Reads d 1 (sums ++ ss) r1 hd.bytes
          (e1 ∙ ap (emit 1) (append_assoc (bytes_symbols d) sums ss)) in
      Reads-bind (read_bytes 512) _ (rw hd.size at bytes) λ r2 e2.
        Reads-bind read_sum _
          (read_sum-Reads (data_sum d) (last_bit 1 (bytes_symbols d)) ss r2 (data_sum-lt d hd.bytes)
            e2)
          λ r3 e3. record { after = r3; result = rw (==_refl (data_sum d)) refl; left = e3 }

-- One round of the search, on a sector of the wanted track.
pub read_sector_round-Reads :
    (again : M (ℤ × List ℕ)) (c h s n hgap l : ℕ) (d : List ℕ) (ss : List Symbol) (r : Reader)
    → IsByte c
    → IsByte h
    → IsByte (s + 1)
    → IsBit l
    → 4 ≤ n
    → 4 ≤ hgap
    → IsSector d
    → rest r
      ≡ emit l (
          gap_symbols n 0x4e
          ++ (header_symbols c h s ++ (gap_symbols hgap 0x4e ++ (data_symbols d ++ ss))))
    → Reads (read_sector_round again c h) r (pos s, d) (emit (data_sum d % 2) ss)
unfolding read_sector_round is_good_sum sector_index
read_sector_round-Reads again c h s n hgap l d ss r hc hh hs hl hn hg hd e =
    let ec : u8 c ≡ c = omega arith in
    let eh : u8 h ≡ h = omega arith in
    let es : u8 (s + 1) ≡ s + 1 = omega arith in
    let sum = header_sum (u8 c) (u8 h) (u8 (s + 1)) 2 in
    let sum-lt : sum < 65536 = header_sum-lt (u8 c) (u8 h) (u8 (s + 1)) 2 (omega arith) in
    let behind = gap_symbols hgap 0x4e ++ (data_symbols d ++ ss) in
    let tagged =
      scan_ibmpc-Reads r 0xfe 1 (bytes_symbols (header_bytes c h s) ++ behind) (omega arith) (
        ap (scan 0) e
        ∙ gap-a1 n l (byte_symbols 0xfe ++ (bytes_symbols (header_bytes c h s) ++ behind)) hl hn) in
    Reads-bind scan_ibmpc _ tagged λ r1 e1.
      let header =
        read_header-Reads (u8 c) (u8 h) (u8 (s + 1)) 2 sum 0 behind r1 (omega arith) sum-lt e1 in
      let reads =
        read_sector_data-Reads again (u8 (s + 1)) hgap (sum % 2) d ss header.after (omega arith) hg
          hd header.left in
      let track : (u8 c * 2 + u8 h == c * 2 + h) ≡ true = ground arith in
      let index : sector_index (u8 (s + 1)) ≡ pos s = ground arith in
      record {
        after = reads.after;
        result =
            rw (header.result, attempt)
              (rw (==_refl sum, track) (reads.result ∙ ap (λ i. got (i, d) reads.after) index));
        left = reads.left;
      }
