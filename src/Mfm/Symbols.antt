-- ===== src/Mfm/Symbols.antt =====
-- The half-bits of an MFM track as an independent description: a track is a sequence of data
-- bits, each with a clock half-bit before it, and of bare half-bits where a mark breaks the rule.
pub mod Buffer
pub mod Track
pub mod Width
use fdx.Prelude.{ℕ, zero, suc, ◌+◌, ◌*◌, ◌/◌, ◌%◌, if◌then◌else◌, ◌==◌, List, [], ◌∷◌, ◌++◌}
use fdx.Prelude.{map, flat_map, replicate, ◌≡◌, refl, ap}

pub data Symbol : Type 0 where
  bit : ℕ → Symbol
  half : ℕ → Symbol

-- A clock half-bit is one only between two zeros.
abbrev pub clock : ℕ → ℕ → ℕ
clock last d = if d == 0 then (if last == 0 then 1 else 0) else 0

-- The half-bits of the symbols that follow the data bit `last`.
abbrev pub emit : ℕ → List Symbol → List ℕ
emit last [] = []
emit last (bit d ∷ ss) = clock last d ∷ (if d == 0 then 0 else 1) ∷ emit d ss
emit last (half h ∷ ss) = (if h == 0 then 0 else 1) ∷ emit last ss

abbrev pub last_bit : ℕ → List Symbol → ℕ
last_bit last [] = last
last_bit last (bit d ∷ ss) = last_bit d ss
last_bit last (half h ∷ ss) = last_bit last ss

pub emit-append :
    (l : ℕ) (xs ys : List Symbol) → emit l (xs ++ ys) ≡ emit l xs ++ emit (last_bit l xs) ys
emit-append l [] ys = refl
emit-append l (bit d ∷ xs) ys =
    ap (λ t. clock l d ∷ (if d == 0 then 0 else 1) ∷ t) (emit-append d xs ys)
emit-append l (half h ∷ xs) ys = ap (λ t. (if h == 0 then 0 else 1) ∷ t) (emit-append l xs ys)

pub last_bit-append :
    (l : ℕ) (xs ys : List Symbol) → last_bit l (xs ++ ys) ≡ last_bit (last_bit l xs) ys
last_bit-append l [] ys = refl
last_bit-append l (bit d ∷ xs) ys = last_bit-append d xs ys
last_bit-append l (half h ∷ xs) ys = last_bit-append l xs ys

-- The bits of a byte, the highest first.
abbrev pub byte_bits : ℕ → List ℕ
byte_bits b =
    b / 128 % 2
    ∷ b / 64 % 2
    ∷ b / 32 % 2
    ∷ b / 16 % 2
    ∷ b / 8 % 2
    ∷ b / 4 % 2
    ∷ b / 2 % 2
    ∷ b % 2
    ∷ []

abbrev pub stream : List ℕ → List ℕ
stream [] = []
stream (b ∷ bs) = byte_bits b ++ stream bs

abbrev pub byte_symbols : ℕ → List Symbol
byte_symbols b = map bit (byte_bits b)

abbrev pub bytes_symbols : List ℕ → List Symbol
bytes_symbols [] = []
bytes_symbols (b ∷ bs) = byte_symbols b ++ bytes_symbols bs

abbrev pub gap_symbols : ℕ → ℕ → List Symbol
gap_symbols zero v = []
gap_symbols (suc n) v = byte_symbols v ++ gap_symbols n v

abbrev pub a1_symbols : List Symbol
a1_symbols = bit 1 ∷ bit 0 ∷ bit 1 ∷ bit 0 ∷ bit 0 ∷ half 0 ∷ half 0 ∷ bit 0 ∷ bit 1 ∷ []

abbrev pub c2_symbols : List Symbol
c2_symbols = bit 1 ∷ bit 1 ∷ bit 0 ∷ bit 0 ∷ bit 0 ∷ half 0 ∷ half 0 ∷ bit 1 ∷ bit 0 ∷ []

abbrev pub a1_mark : List Symbol
a1_mark = gap_symbols 12 0 ++ (a1_symbols ++ (a1_symbols ++ a1_symbols))

abbrev pub c2_mark : List Symbol
c2_mark = gap_symbols 12 0 ++ (c2_symbols ++ (c2_symbols ++ c2_symbols))
