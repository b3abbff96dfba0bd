-- ===== src/Hfe/Bits/Mirror.antt =====
-- The inverter table of hfe/hfe.go mirrors a byte, and so does bitReverse.
use fdx.Prelude.{ℕ, ◌≡◌, refl, ap, sym, ◌∙◌, arith, ltb, IsByte, All}
use fdx.Prelude.{List, [], ◌∷◌, map}
use fdx.Prelude.Tables.{holds_below, holds_below_sound, agree_below}
use fdx.Hfe.Bits.{byte_bits_inverter, bit_reverse, bit_reverse_block, inverted_from, reversed_from}

pub byte_bits_inverter-bit_reverse : (b : ℕ) → IsByte b → byte_bits_inverter b ≡ bit_reverse b
unfolding byte_bits_inverter bit_reverse inverted_from reversed_from holds_below
byte_bits_inverter-bit_reverse = agree_below byte_bits_inverter bit_reverse 256 refl

pub byte_bits_inverter-twice : (b : ℕ) → IsByte b → byte_bits_inverter (byte_bits_inverter b) ≡ b
unfolding byte_bits_inverter inverted_from holds_below
byte_bits_inverter-twice =
    agree_below (λ b. byte_bits_inverter (byte_bits_inverter b)) (λ b. b) 256 refl

pub byte_bits_inverter-IsByte : (b : ℕ) → IsByte b → IsByte (byte_bits_inverter b)
unfolding byte_bits_inverter inverted_from holds_below
byte_bits_inverter-IsByte b h =
    let test = holds_below_sound 256 (λ c. ltb (byte_bits_inverter c) 256) refl b h in ground arith

-- bitReverseBlock undoes the inverter table on a block of bytes: the table and bitReverse are the
-- same mirror.
pub bit_reverse_block-map :
    (bs : List ℕ) → All IsByte bs → bit_reverse_block (map byte_bits_inverter bs) ≡ bs
unfolding bit_reverse_block
bit_reverse_block-map [] h = refl
bit_reverse_block-map (b ∷ bs) h =
    ap (λ c. c ∷ bit_reverse_block (map byte_bits_inverter bs))
      (sym (byte_bits_inverter-bit_reverse (byte_bits_inverter b) (byte_bits_inverter-IsByte b h.0))
        ∙ byte_bits_inverter-twice b h.0)
    ∙ ap (◌∷◌ b) (bit_reverse_block-map bs h.1)
