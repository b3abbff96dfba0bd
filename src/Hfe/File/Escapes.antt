-- ===== src/Hfe/File/Escapes.antt =====
-- What encodeOpcodes of hfe/write.go escapes is restored by processOpcodes of hfe/read.go.
use fdx.Prelude.{
  ℕ, zero, suc, ◌+◌, ◌-◌, ◌*◌, ◌/◌, ◌<◌, ◌≡◌, ◌≢◌, ◌⊎◌, refl, ap, ap₂, sym, ◌∙◌, arith,
}
use fdx.Prelude.{Bool, true, false, not, ◌&&◌, ◌||◌, ltb, ◌==◌, ==_iff, All, IsByte, ltb_of_lt}
use fdx.Prelude.{
  List, [], ◌∷◌, ◌++◌, length, replicate, append_assoc, append-nil, length-append, length-replicate,
  replicate-add,
}
use fdx.Prelude.Tables.{holds_below, holds_below_sound}
use fdx.Hfe.Bits.{bit_copy}
use fdx.Hfe.File.Opcodes.{
  Track, processed, is_opcode, escaped, unescaped, encode_opcodes, put_bits, process_byte,
  process_loop, rotated, process_opcodes, nop_opcode,
}
use fdx.Hfe.File.Aligned.{bit_copy-bytes}

-- A byte that has one encoding: it is not in the range that escaped bytes are put in, and not the
-- random opcode, which is not escaped.
abbrev pub IsStorable : ℕ → Type 0
IsStorable b = (b < 256) × ((b < 0x60) ⊎ (0x6f < b)) × (b ≢ 0xf4)

storable_test : ℕ → Bool
storable_test b =
    (not (ltb b 0x60) && not (ltb 0x6f b))
    || (b == 0xf4)
    || (not (is_opcode (escaped b)) && unescaped (escaped b) == b)

byte_test : ℕ → Bool
byte_test b = ltb (escaped b) 256

escaped_lem : (b : ℕ) → IsStorable b → (is_opcode (escaped b) ≡ false) × (unescaped (escaped b) ≡ b)
unfolding storable_test
escaped_lem b (small, range, other) =
    let all : storable_test b ≡ true =
      holds_below_sound 256 storable_test (unfold holds_below escaped unescaped is_opcode in refl) b
        small in
    ground (arith, ==_iff (unescaped (escaped b)) b)

abbrev track_of : List ℕ → ℕ → Track
track_of bytes bits = record { new_data = bytes; out_bit = bits; index_bit = 0 }

process_byte-escaped :
    (b : ℕ) (behind : List ℕ) (t : Track)
    → IsStorable b
    → process_byte (escaped b) behind t ≡ processed (put_bits 8 (b ∷ []) 0 t, 0)
unfolding process_byte
process_byte-escaped b behind t h =
    let (plain, same) = escaped_lem b h in rw (plain, process_byte) (rw same refl)

-- One escaped byte.
process_loop-escaped :
    (b : ℕ) (behind : List ℕ) (t : Track)
    → IsStorable b
    → process_loop 0 (escaped b ∷ behind) t ≡ process_loop 0 behind (put_bits 8 (b ∷ []) 0 t)
unfolding process_loop
process_loop-escaped b behind t h = rw (process_byte-escaped b behind t h, process_loop) refl

put_bits-byte :
    (b : ℕ) (before zeros : List ℕ)
    → IsByte b
    → put_bits 8 (b ∷ []) 0 (track_of (before ++ 0 ∷ zeros) (8 * length before))
      ≡ track_of ((before ++ b ∷ []) ++ zeros) (8 * length (before ++ b ∷ []))
put_bits-byte b before zeros h =
    let copied = bit_copy-bytes (b ∷ []) before zeros [] [] (h, tt) in
    ap₂ track_of (ap (λ p. p.0) copied ∙ sym (append_assoc before (b ∷ []) zeros))
      (omega (arith, length-append before (b ∷ [])))

process_loop-nops : (k : ℕ) (t : Track) → process_loop 0 (replicate k 0xf0) t ≡ processed t
unfolding process_loop process_byte is_opcode
process_loop-nops zero t = refl
process_loop-nops (suc k) t = process_loop-nops k t

process_loop-encoded :
    (bytes before zeros : List ℕ) (k : ℕ)
    → All IsStorable bytes
    → process_loop 0
        (encode_opcodes bytes ++ replicate k 0xf0)
        (track_of (before ++ (replicate (length bytes) 0 ++ zeros)) (8 * length before))
      ≡ processed (track_of ((before ++ bytes) ++ zeros) (8 * length (before ++ bytes)))
unfolding encode_opcodes
process_loop-encoded [] before zeros k h =
    process_loop-nops k _
    ∙ ap (λ x. processed (track_of (x ++ zeros) (8 * length x))) (sym (append-nil before))
process_loop-encoded (b ∷ bytes) before zeros k h =
    process_loop-escaped b (encode_opcodes bytes ++ replicate k 0xf0) _ h.0
    ∙ ap (process_loop 0 (encode_opcodes bytes ++ replicate k 0xf0))
        (put_bits-byte b before (replicate (length bytes) 0 ++ zeros) h.0.0)
    ∙ process_loop-encoded bytes (before ++ b ∷ []) zeros k h.1
    ∙ ap (λ x. processed (track_of (x ++ zeros) (8 * length x)))
        (append_assoc before (b ∷ []) bytes)

rotated-bytes :
    (bytes zeros : List ℕ)
    → All IsByte bytes
    → rotated (track_of (bytes ++ zeros) (8 * length bytes)) ≡ bytes
unfolding rotated bit_copy
rotated-bytes [] zeros h = refl
rotated-bytes (b ∷ bytes) zeros h =
    let all = b ∷ bytes in
    let n = 8 * length all in
    let some_bits : ltb 0 n ≡ true = ltb_of_lt 0 n (omega arith) in
    let e1 : n - 0 ≡ 8 * length all = omega arith in
    let e2 : (n + 7) / 8 ≡ length all = omega arith in
    let copied = bit_copy-bytes all [] [] [] zeros h in
    rw some_bits (
      ap₂ (λ k m. (bit_copy k (replicate m 0) 0 (all ++ zeros) 0).0) e1 e2
      ∙ ap (λ d. (bit_copy (8 * length all) d 0 (all ++ zeros) 0).0)
          (sym (append-nil (replicate (length all) 0)))
      ∙ ap (λ p. p.0) copied
      ∙ append-nil all)

pub All-IsStorable-IsByte : (bytes : List ℕ) → All IsStorable bytes → All IsByte bytes
All-IsStorable-IsByte [] h = tt
All-IsStorable-IsByte (b ∷ bytes) h = (h.0.0, All-IsStorable-IsByte bytes h.1)

escaped-IsByte : (b : ℕ) → b < 256 → IsByte (escaped b)
unfolding byte_test
escaped-IsByte b small =
    let all : byte_test b ≡ true =
      holds_below_sound 256 byte_test (unfold holds_below escaped is_opcode in refl) b small in
    ground arith

pub All-IsByte-encode_opcodes :
    (bytes : List ℕ) → All IsStorable bytes → All IsByte (encode_opcodes bytes)
unfolding encode_opcodes
All-IsByte-encode_opcodes [] h = tt
All-IsByte-encode_opcodes (b ∷ bytes) h =
    (escaped-IsByte b h.0.0, All-IsByte-encode_opcodes bytes h.1)

pub length-encode_opcodes : (bytes : List ℕ) → length (encode_opcodes bytes) ≡ length bytes
unfolding encode_opcodes
length-encode_opcodes [] = refl
length-encode_opcodes (b ∷ bytes) = ap suc (length-encode_opcodes bytes)

-- processOpcodes returns the bytes that encodeOpcodes was given, without the NOP opcodes behind
-- them, where none of them is in the range 0x60 to 0x6f or is 0xf4.
pub process-encode_opcodes :
    (bytes : List ℕ) (k : ℕ)
    → All IsStorable bytes
    → process_opcodes (encode_opcodes bytes ++ replicate k nop_opcode) ≡ processed bytes
unfolding process_opcodes
process-encode_opcodes bytes k h =
    let input = encode_opcodes bytes ++ replicate k 0xf0 in
    let size : length input ≡ length bytes + k =
      length-append (encode_opcodes bytes) (replicate k 0xf0)
      ∙ ap₂ (◌+◌) (length-encode_opcodes bytes) (length-replicate {A = ℕ} k 0xf0) in
    let clear : replicate (length input) 0 ≡ replicate (length bytes) 0 ++ replicate k 0 =
      ap (λ n. replicate n 0) size ∙ replicate-add (length bytes) k 0 in
    let loop = process_loop-encoded bytes [] (replicate k 0) k h in
    let looped : process_loop 0 input (track_of (replicate (length input) 0) 0)
        ≡ processed (track_of (bytes ++ replicate k 0) (8 * length bytes)) =
      ap (λ z. process_loop 0 input (track_of z 0)) clear ∙ loop in
    rw (looped, process_opcodes)
      (ap processed (rotated-bytes bytes (replicate k 0) (All-IsStorable-IsByte bytes h)))
