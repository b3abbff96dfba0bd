-- ===== src/Hfe/Bits.antt =====
-- hfe/hfe.go: the order of the bits in a byte, and bits copied at any offset.
pub mod Mirror
use fdx.Prelude.{
  ℕ, zero, suc, ◌+◌, ◌-◌, ◌*◌, ◌/◌, ◌%◌, ◌^◌, bit_and, bit_or, if◌then◌else◌, leb, ◌==◌, ◌||◌,
}
use fdx.Prelude.{u8, ◌<<<◌, ◌>>>◌, List, [], ◌∷◌, length, get_or, set}

-- The inner loop of `init`, from bit `j` on.
unfoldable pub inverted_from : ℕ → ℕ → ℕ → ℕ → ℕ
inverted_from zero j i inverted = inverted
inverted_from (suc n) j i inverted =
    inverted_from n (j + 1) i
      (if bit_and i (1 <<< j) == 0 then inverted else bit_or inverted (u8 (1 <<< (7 - j))))

-- `byteBitsInverter[i]`
unfoldable pub byte_bits_inverter : ℕ → ℕ
byte_bits_inverter i = inverted_from 8 0 i 0

unfoldable pub reversed_from : ℕ → ℕ → ℕ → ℕ
reversed_from zero b result = result
reversed_from (suc n) b result =
    reversed_from n (b >>> 1) (bit_or (u8 (result <<< 1)) (bit_and b 1))

unfoldable pub bit_reverse : ℕ → ℕ
bit_reverse b = reversed_from 8 b 0

unfoldable pub bit_reverse_block : List ℕ → List ℕ
bit_reverse_block [] = []
bit_reverse_block (b ∷ bs) = bit_reverse b ∷ bit_reverse_block bs

-- A byte with one bit written.
unfoldable pub put_bit : ℕ → ℕ → ℕ → ℕ
put_bit b i v = if v == 0 then bit_and b (255 - (1 <<< (7 - i))) else bit_or b (1 <<< (7 - i))

-- The destination, and the offset behind what was copied.
unfoldable pub bit_copy : ℕ → List ℕ → ℕ → List ℕ → ℕ → List ℕ × ℕ
bit_copy zero dst dst_off src src_off = (dst, dst_off)
bit_copy (suc size) dst dst_off src src_off =
    let bit = (get_or src (src_off / 8) 0 >>> (7 - src_off % 8)) % 2 in
    let dst' = set dst (dst_off / 8) (put_bit (get_or dst (dst_off / 8) 0) (dst_off % 8) bit) in
    let later = bit_copy size dst' (dst_off + 1) src (src_off + 1) in
    if leb (8 * length src) src_off || leb (8 * length dst) dst_off then (dst, dst_off) else later
