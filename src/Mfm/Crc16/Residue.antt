-- ===== src/Mfm/Crc16/Residue.antt =====
-- A checksum of mfm/crc16.go that follows its data, high byte first, as the tracks store it.
use fdx.Prelude.{ℕ, ◌*◌, ◌/◌, ◌%◌, ◌<◌, ◌≡◌, refl, ap, ◌∙◌, arith}
use fdx.Prelude.{IsByte, All, u8, u16, ◌<<<◌, ◌>>>◌, List, [], ◌∷◌, ◌++◌}
use fdx.Prelude.Bits.{bit_xor-zero, bit_xor_self}
use fdx.Mfm.Crc16.{crc16_poly_tab, crc16_ccitt_byte, crc16_ccitt}
use fdx.Mfm.Crc16.Serial.{crc16_ccitt-lt}

-- The byte that the register holds at its upper end is shifted out with no subtraction.
upper_byte : (sum : ℕ) → sum < 65536 → crc16_ccitt_byte sum (sum / 256) ≡ sum % 256 * 256
unfolding crc16_ccitt_byte crc16_poly_tab
upper_byte sum h =
    let high : u8 (sum >>> 8) ≡ sum / 256 = omega arith in
    let low : u16 (sum <<< 8) ≡ sum % 256 * 256 = omega arith in
    rw (high, bit_xor_self, low) (bit_xor-zero _)

crc16_ccitt_own : (sum : ℕ) → sum < 65536 → crc16_ccitt sum (sum / 256 ∷ sum % 256 ∷ []) ≡ 0
unfolding crc16_ccitt
crc16_ccitt_own sum h =
    let e : sum % 256 ≡ sum % 256 * 256 / 256 = omega arith in
    ap (λ s. crc16_ccitt_byte s (sum % 256)) (upper_byte sum h)
    ∙ ap (crc16_ccitt_byte (sum % 256 * 256)) e
    ∙ upper_byte (sum % 256 * 256) (omega arith)
    ∙ omega arith

crc16_ccitt-append :
    (xs ys : List ℕ) (sum : ℕ) → crc16_ccitt sum (xs ++ ys) ≡ crc16_ccitt (crc16_ccitt sum xs) ys
unfolding crc16_ccitt
crc16_ccitt-append [] ys sum = refl
crc16_ccitt-append (x ∷ xs) ys sum = crc16_ccitt-append xs ys (crc16_ccitt_byte sum x)

-- Bytes followed by their own checksum, high byte first, have the checksum zero, from any start
-- value below 65536.
pub crc16_ccitt_residue :
    (sum : ℕ) (data' : List ℕ)
    → sum < 65536
    → All IsByte data'
    → crc16_ccitt sum (data' ++ (crc16_ccitt sum data' / 256 ∷ crc16_ccitt sum data' % 256 ∷ []))
      ≡ 0
crc16_ccitt_residue sum data' h k =
    crc16_ccitt-append data' _ sum
    ∙ crc16_ccitt_own (crc16_ccitt sum data') (crc16_ccitt-lt data' sum h k)
