-- ===== src/Hfe/File/Opcodes.antt =====
-- The opcodes of a version 3 file: encodeOpcodes of hfe/write.go and processOpcodes of hfe/read.go.
use fdx.Prelude.{ℕ, zero, suc, ◌+◌, ◌-◌, ◌/◌, bit_and, bit_xor, Bool, not}
use fdx.Prelude.{◌&&◌, if◌then◌else◌, ltb, leb, ◌==◌, List, [], ◌∷◌, ◌++◌, length, map, take, drop}
use fdx.Prelude.{replicate}
use fdx.Hfe.Bits.{bit_copy}

abbrev pub opcode_mask : ℕ
opcode_mask = 0xf0

abbrev pub nop_opcode : ℕ
nop_opcode = 0xf0

abbrev pub setindex_opcode : ℕ
setindex_opcode = 0xf1

abbrev pub setbitrate_opcode : ℕ
setbitrate_opcode = 0xf2

abbrev pub skipbits_opcode : ℕ
skipbits_opcode = 0xf3

abbrev pub rand_opcode : ℕ
rand_opcode = 0xf4

unfoldable pub is_opcode : ℕ → Bool
is_opcode b = bit_and b opcode_mask == opcode_mask

unfoldable pub escaped : ℕ → ℕ
escaped b = if is_opcode b && not (b == rand_opcode) then bit_xor b 0x90 else b

unfoldable pub encode_opcodes : List ℕ → List ℕ
encode_opcodes side = map escaped side

-- A byte that is no opcode, as it was before it was escaped.
unfoldable pub unescaped : ℕ → ℕ
unescaped b = if leb 0x60 b && leb b 0x6f then bit_xor b 0x90 else b

-- The buffer that is written, the bits in it, and where the index mark was. The input is always at
-- a whole byte, and the bit rates are not used.
pub record Track : Type 0 where
  pub new_data : List ℕ
  pub out_bit : ℕ
  pub index_bit : ℕ

pub data Processed {ℓ} (A : Type ℓ) : Type ℓ where
  processed : A → Processed A
  no_bitrate no_skip : Processed A
  skip_too_long unknown_opcode : ℕ → Processed A

abbrev pub put_bits : ℕ → List ℕ → ℕ → Track → Track
put_bits n src src_off t = record t {
  new_data = (bit_copy n t.new_data t.out_bit src src_off).0;
  out_bit = t.out_bit + n;
}

-- `SKIPBITS`: the opcode, the bits to skip, and the byte they are in.
unfoldable pub skip_bits : List ℕ → Track → Processed Track
skip_bits [] t = no_skip
skip_bits (skip ∷ data_left) t =
    if ltb 8 skip then skip_too_long skip else processed (put_bits (8 - skip) data_left skip t)

-- One byte, with what stands behind it: the track, and how many more bytes of the input it takes.
unfoldable pub process_byte : ℕ → List ℕ → Track → Processed (Track × ℕ)
process_byte opc behind t =
    if not (is_opcode opc)
    then processed (put_bits 8 (unescaped opc ∷ []) 0 t, 0)
    else if opc == nop_opcode
    then processed (t, 0)
    else if opc == setindex_opcode
    then processed (record t { index_bit = t.out_bit }, 0)
    else if opc == setbitrate_opcode
    then if length behind == 0 then no_bitrate else processed (t, 1)
    else if opc == skipbits_opcode
    then elim (skip_bits behind t) [
      | processed t' ↦ processed (t', 2)
      | no_bitrate ↦ no_bitrate
      | no_skip ↦ no_skip
      | skip_too_long n ↦ skip_too_long n
      | unknown_opcode n ↦ unknown_opcode n
    ]
    else if opc == rand_opcode
    then processed (record t { out_bit = t.out_bit + 8 }, 0)
    else unknown_opcode opc

-- The loop; `skip` more bytes belong to the opcode before.
unfoldable pub process_loop : ℕ → List ℕ → Track → Processed Track
process_loop skip [] t = processed t
process_loop (suc skip) (opc ∷ behind) t = process_loop skip behind t
process_loop zero (opc ∷ behind) t = elim (process_byte opc behind t) [
  | processed (t', skip) ↦ process_loop skip behind t'
  | no_bitrate ↦ no_bitrate
  | no_skip ↦ no_skip
  | skip_too_long n ↦ skip_too_long n
  | unknown_opcode n ↦ unknown_opcode n
]

-- The track from the index mark on, and then up to it.
unfoldable pub rotated : Track → List ℕ
rotated t =
    let n = t.out_bit in
    let result = replicate ((n + 7) / 8) 0 in
    if ltb t.index_bit n
    then (bit_copy t.index_bit (bit_copy (n - t.index_bit) result 0 t.new_data t.index_bit).0
        (n - t.index_bit) t.new_data 0).0
    else take (n / 8) t.new_data ++ drop (n / 8) result

unfoldable pub process_opcodes : List ℕ → Processed (List ℕ)
process_opcodes side =
    elim (process_loop 0 side
      (record { new_data = replicate (length side) 0; out_bit = 0; index_bit = 0 })) [
        | processed t ↦ processed (rotated t)
        | no_bitrate ↦ no_bitrate
        | no_skip ↦ no_skip
        | skip_too_long n ↦ skip_too_long n
        | unknown_opcode n ↦ unknown_opcode n
      ]
