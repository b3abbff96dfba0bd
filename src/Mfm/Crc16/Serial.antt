-- ===== src/Mfm/Crc16/Serial.antt =====
-- The table of mfm/crc16.go against the bit-serial division by x^16 + x^12 + x^5 + 1.
use fdx.Prelude.{ℕ, zero, suc, ◌+◌, ◌*◌, ◌/◌, ◌%◌, ◌^◌, ◌<◌, ◌≡◌, refl, ap, ◌∙◌, arith, bit_xor}
use fdx.Prelude.{
  if◌then◌else◌, leb, ltb, ◌==◌, ==_iff, Bool, true, ◌&&◌, IsByte, All, u8, u16, ◌<<<◌, ◌>>>◌,
}
use fdx.Prelude.{List, [], ◌∷◌, length, get_or}
use fdx.Prelude.Bits.{bit_xor_fields, bit_xor-zero, bit_xor_comm, bit_xor-lt}
use fdx.Prelude.Tables.{holds_below, holds_below_sound}
use fdx.Mfm.Crc16.{crc16_poly_tab, crc16_ccitt_byte, crc16_ccitt}
use mathlib.Core.List.{foldl}

-- One bit: shift left, and subtract the polynomial where a one falls out.
pub shift_bit : ℕ → ℕ
shift_bit c = if leb 32768 c then bit_xor (u16 (c * 2)) 0x1021 else c * 2

pub shift_bits : ℕ → ℕ → ℕ
unfolding shift_bit
shift_bits zero c = c
shift_bits (suc n) c = shift_bits n (shift_bit c)

-- The register takes a byte at its upper end, and then eight bits are shifted out.
pub serial_byte : ℕ → ℕ → ℕ
serial_byte sum b = shift_bits 8 (bit_xor sum (b * 256))

pub serial : ℕ → List ℕ → ℕ
serial = foldl serial_byte

-- Every value of the register, by evaluation: the rows of the table from row `h` on.
rows_hold : List ℕ → ℕ → Bool
rows_hold [] h = true
rows_hold (t ∷ ts) h =
    holds_below 256 (λ l. bit_xor (l * 256) t == shift_bits 8 (h * 256 + l)) && rows_hold ts (h + 1)

table_holds : rows_hold crc16_poly_tab 0 ≡ true
unfolding rows_hold holds_below shift_bits crc16_poly_tab
table_holds = refl

row_lem :
    (ts : List ℕ) (h i l : ℕ)
    → rows_hold ts h ≡ true
    → i < length ts
    → l < 256
    → bit_xor (l * 256) (get_or ts i 0) ≡ shift_bits 8 ((h + i) * 256 + l)
unfolding rows_hold
row_lem [] h i l e hi hl = absurd (omega arith)
row_lem (t ∷ ts) h zero l e hi hl =
    let holds : holds_below 256 (λ l'. bit_xor (l' * 256) t == shift_bits 8 (h * 256 + l')) ≡ true =
      ground arith in
    let at_l = holds_below_sound 256 _ holds l hl in
    (==_iff _ _).0 at_l ∙ ap (shift_bits 8) (omega arith)
row_lem (t ∷ ts) h (suc i) l e hi hl =
    row_lem ts (h + 1) i l (ground arith) (omega arith) hl ∙ ap (shift_bits 8) (omega arith)

eight_shifts :
    (h l : ℕ)
    → h < 256
    → l < 256
    → bit_xor (l * 256) (get_or crc16_poly_tab h 0) ≡ shift_bits 8 (h * 256 + l)
eight_shifts h l hh hl =
    row_lem crc16_poly_tab 0 h l table_holds (unfold crc16_poly_tab in hh) hl
    ∙ ap (shift_bits 8) (omega arith)

-- The table step is eight steps of the bit-serial division, for every register and byte.
pub crc16_ccitt_byte-serial :
    (sum b : ℕ) → sum < 65536 → IsByte b → crc16_ccitt_byte sum b ≡ serial_byte sum b
unfolding crc16_ccitt_byte serial_byte
crc16_ccitt_byte-serial sum b hs hb =
    let low : u16 (sum <<< 8) ≡ sum % 256 * 256 = omega arith in
    let high : u8 (sum >>> 8) ≡ sum / 256 = omega arith in
    let split : sum ≡ sum / 256 * 2 ^ 8 + sum % 256 = omega arith in
    let shifted : b * 256 ≡ b * 2 ^ 8 + 0 = omega arith in
    let joined : bit_xor sum (b * 256) ≡ bit_xor b (sum / 256) * 256 + sum % 256 =
      ap (λ x. bit_xor x (b * 256)) split
      ∙ ap (bit_xor (sum / 256 * 2 ^ 8 + sum % 256)) shifted
      ∙ bit_xor_fields 8 (sum / 256) b (sum % 256) 0 (omega arith) (omega arith)
      ∙ omega (arith, bit_xor-zero (sum % 256), bit_xor_comm (sum / 256) b) in
    rw (low, high, joined)
      (eight_shifts (bit_xor b (sum / 256)) (sum % 256)
        (bit_xor-lt 8 b (sum / 256) hb (omega arith)) (omega arith))

entry-lt : (i : ℕ) → i < 256 → get_or crc16_poly_tab i 0 < 65536
unfolding crc16_poly_tab holds_below
entry-lt i h =
    let e = holds_below_sound 256 (λ j. ltb (get_or crc16_poly_tab j 0) 65536) refl i h in
    ground arith

pub crc16_ccitt_byte-lt : (sum b : ℕ) → IsByte b → crc16_ccitt_byte sum b < 65536
unfolding crc16_ccitt_byte
crc16_ccitt_byte-lt sum b hb =
    bit_xor-lt 16 _ _ (omega arith) (entry-lt _ (bit_xor-lt 8 b (u8 (sum >>> 8)) hb (omega arith)))

pub crc16_ccitt-lt :
    (data' : List ℕ) (sum : ℕ) → sum < 65536 → All IsByte data' → crc16_ccitt sum data' < 65536
unfolding crc16_ccitt
crc16_ccitt-lt [] sum h k = h
crc16_ccitt-lt (b ∷ bs) sum h (hb, k) =
    crc16_ccitt-lt bs (crc16_ccitt_byte sum b) (crc16_ccitt_byte-lt sum b hb) k

-- From any start value below 65536, the table-driven checksum of bytes is that of the bit-serial
-- register for x^16 + x^12 + x^5 + 1.
pub crc16_ccitt-serial :
    (data' : List ℕ) (sum : ℕ)
    → sum < 65536
    → All IsByte data'
    → crc16_ccitt sum data' ≡ serial sum data'
unfolding crc16_ccitt serial
crc16_ccitt-serial [] sum h k = refl
crc16_ccitt-serial (b ∷ bs) sum h (hb, k) =
    crc16_ccitt-serial bs (crc16_ccitt_byte sum b) (crc16_ccitt_byte-lt sum b hb) k
    ∙ ap (λ s. foldl serial_byte s bs) (crc16_ccitt_byte-serial sum b h hb)
