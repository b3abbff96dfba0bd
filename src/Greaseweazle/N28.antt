-- ===== src/Greaseweazle/N28.antt =====
-- readN28 of greaseweazle/read.go restores what encodeN28 of greaseweazle/write.go encodes.
use fdx.Prelude.{
  ℕ, ◌+◌, ◌*◌, ◌%◌, ◌^◌, ◌<◌, ◌≡◌, refl, ap, ap₂, ◌∙◌, arith, bit_and, bit_or, Bool, true, ◌==◌,
  ==_iff,
}
use fdx.Prelude.{List, ◌++◌, some, ◌<<<◌, ◌>>>◌}
use fdx.Prelude.Bits.{bit_or_fields}
use fdx.Prelude.Tables.{holds_below, holds_below_sound}
use fdx.Greaseweazle.Stream.{n28_byte, encode_n28, read_n28}

masked_test : ℕ → Bool
masked_test m = bit_and (bit_or 1 (m <<< 1)) 0xfe == 2 * m

masked_byte : (value : ℕ) → bit_and (n28_byte value) 0xfe ≡ 2 * (value % 128)
unfolding n28_byte masked_test
masked_byte value =
    let e : masked_test (value % 128) ≡ true =
      holds_below_sound 128 masked_test (unfold holds_below in refl) (value % 128) (omega arith) in
    (==_iff (bit_and (n28_byte value) 0xfe) (2 * (value % 128))).0 e

fields :
    (a b c d : ℕ)
    → a < 128
    → b < 128
    → c < 128
    → bit_or ((2 * d) <<< 20) (bit_or ((2 * c) <<< 13) (bit_or ((2 * b) <<< 6) ((2 * a) >>> 1)))
      ≡ d * 2097152 + (c * 16384 + (b * 128 + a))
fields a b c d ha hb hc =
    let e0 : (2 * a) >>> 1 ≡ a = omega arith in
    let e1 : (2 * b) <<< 6 ≡ b * 2 ^ 7 = omega arith in
    let e2 : (2 * c) <<< 13 ≡ c * 2 ^ 14 = omega arith in
    let e3 : (2 * d) <<< 20 ≡ d * 2 ^ 21 = omega arith in
    let f1 : bit_or ((2 * b) <<< 6) ((2 * a) >>> 1) ≡ b * 2 ^ 7 + a =
      ap₂ bit_or e1 e0 ∙ bit_or_fields 7 b a (omega (arith, ha)) in
    let f2 : bit_or ((2 * c) <<< 13) (bit_or ((2 * b) <<< 6) ((2 * a) >>> 1))
        ≡ c * 2 ^ 14 + (b * 2 ^ 7 + a) =
      ap₂ bit_or e2 f1 ∙ bit_or_fields 14 c (b * 2 ^ 7 + a) (omega (arith, ha, hb)) in
    ap₂ bit_or e3 f2
    ∙ bit_or_fields 21 d (c * 2 ^ 14 + (b * 2 ^ 7 + a)) (omega (arith, ha, hb, hc))
    ∙ omega arith

-- readN28 of a value below 2^28 that encodeN28 encoded returns the value, whatever follows it.
pub read-encode_n28 :
    (value : ℕ) (behind : List ℕ)
    → value < 268435456
    → read_n28 (encode_n28 value ++ behind) ≡ some value
unfolding read_n28 encode_n28
read-encode_n28 value behind small =
    let m0 = masked_byte value in
    let m1 = masked_byte (value >>> 7) in
    let m2 = masked_byte (value >>> 14) in
    let m3 = masked_byte (value >>> 21) in
    rw (m0, m1, m2, m3)
      (ap some (
        fields (value % 128) ((value >>> 7) % 128) ((value >>> 14) % 128) ((value >>> 21) % 128)
          (omega arith) (omega arith) (omega arith)
        ∙ omega (arith, small)))
