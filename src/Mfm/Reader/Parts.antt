-- ===== src/Mfm/Reader/Parts.antt =====
-- The parts of a sector that mfm/reader.go reads: checksums, the header, the data.
use fdx.Prelude.{ℕ, ◌*◌, ◌%◌, ◌^◌, ◌<◌, bit_or, ◌≡◌, ap, ◌∙◌, arith}
use fdx.Prelude.{IsByte, All, u8, u16, ◌<<<◌, ◌>>>◌}
use fdx.Prelude.{List, [], ◌∷◌, ◌++◌}
use fdx.Prelude.Bits.{bit_or_fields}
use fdx.Mfm.Symbols.{Symbol, emit, byte_symbols, bytes_symbols}
use fdx.Mfm.Symbols.Track.{sum_bytes}
use fdx.Mfm.Reader.{Reader, ◌>>=◌, pure, read_byte, read_sum, read_header, SectorHeader}
use fdx.Mfm.Reader.Bits.{rest, Reads, Reads-bind, Reads-pure, read_byte-Reads}

-- A checksum is read back from the two bytes that it was written as.
pub read_sum-Reads :
    (sum l : ℕ) (ss : List Symbol) (r : Reader)
    → sum < 65536
    → rest r ≡ emit l (bytes_symbols (sum_bytes sum) ++ ss)
    → Reads read_sum r sum (emit (sum % 2) ss)
unfolding read_sum
read_sum-Reads sum l ss r hs h =
    let hi = u8 (sum >>> 8) in
    let lo = u8 sum in
    let joined : bit_or (u16 (hi <<< 8)) lo ≡ sum =
      let e : u16 (hi <<< 8) ≡ hi * 2 ^ 8 = omega arith in
      ap (λ t. bit_or t lo) e ∙ bit_or_fields 8 hi lo (omega arith) ∙ omega arith in
    let last : lo % 2 ≡ sum % 2 = omega arith in
    Reads-bind read_byte (λ high. read_byte >>= (λ low. pure (bit_or (u16 (high <<< 8)) low)))
      (read_byte-Reads hi l (byte_symbols lo ++ ss) r (omega arith) h)
      (λ r' h'.
        Reads-bind read_byte (λ low. pure (bit_or (u16 (hi <<< 8)) low))
          (read_byte-Reads lo (hi % 2) ss r' (omega arith) h')
          (λ r'' h''.
            rw joined (Reads-pure sum r'' (emit (sum % 2) ss) (h'' ∙ ap (λ k. emit k ss) last))))

abbrev pub header_of : ℕ → ℕ → ℕ → ℕ → ℕ → SectorHeader
header_of cylinder head sector size sum = record {
  cylinder = cylinder;
  head = head;
  sector = sector;
  size = size;
  sum = sum;
}

-- A header is read back from its six bytes.
pub read_header-Reads :
    (c h s z sum l : ℕ) (ss : List Symbol) (r : Reader)
    → All IsByte (c ∷ h ∷ s ∷ z ∷ [])
    → sum < 65536
    → rest r ≡ emit l (bytes_symbols (c ∷ h ∷ s ∷ z ∷ sum_bytes sum) ++ ss)
    → Reads read_header r (header_of c h s z sum) (emit (sum % 2) ss)
unfolding read_header
read_header-Reads c h s z sum l ss r k hs e =
    let sums = bytes_symbols (sum_bytes sum) ++ ss in
    Reads-bind read_byte _ (read_byte-Reads c l (bytes_symbols (h ∷ s ∷ z ∷ []) ++ sums) r k.0 e)
      λ r1 e1.
        Reads-bind read_byte _
          (read_byte-Reads h (c % 2) (bytes_symbols (s ∷ z ∷ []) ++ sums) r1 k.1.0 e1)
          λ r2 e2.
            Reads-bind read_byte _
              (read_byte-Reads s (h % 2) (bytes_symbols (z ∷ []) ++ sums) r2 k.1.1.0 e2)
              λ r3 e3.
                Reads-bind read_byte _ (read_byte-Reads z (s % 2) sums r3 k.1.1.1.0 e3) λ r4 e4.
                  Reads-bind read_sum (λ sum'. pure (header_of c h s z sum'))
                    (read_sum-Reads sum (z % 2) ss r4 hs e4)
                    (λ r5 e5. Reads-pure (header_of c h s z sum) r5 (emit (sum % 2) ss) e5)
