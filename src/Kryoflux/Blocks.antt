-- ===== src/Kryoflux/Blocks.antt =====
-- A stream as a list of blocks, apart from the code: its bytes, the times of its transitions and its
-- index pulses.
use fdx.Prelude.{ℕ, ◌+◌, ◌*◌, ◌≤◌, ◌≢◌, ◌≡◌, ◌&&◌, if◌then◌else◌, leb, ◌==◌}
use fdx.Prelude.{List, [], ◌∷◌, ◌++◌, length, drop}
use fdx.Kryoflux.Stream.{IndexTiming, oob_size, dword}

-- One block; the data of an out-of-band block are any bytes, its type is not that of the end marker.
pub data Block : Type 0 where
  value1 : ℕ → Block
  value2 : ℕ → ℕ → Block
  value3 : ℕ → ℕ → Block
  nop1 : Block
  nop2 : ℕ → Block
  nop3 : ℕ → ℕ → Block
  overflow16 : Block
  oob : ℕ → ℕ → ℕ → List ℕ → Block

abbrev pub IsBlock : Block → Type 0
IsBlock (value1 v) = 0x0e ≤ v
IsBlock (value2 high low) = high ≤ 7
IsBlock (value3 high low) = Unit
IsBlock nop1 = Unit
IsBlock (nop2 a) = Unit
IsBlock (nop3 a b) = Unit
IsBlock overflow16 = Unit
IsBlock (oob kind low high body) = (kind ≢ 0x0d) × (length body ≡ oob_size low high)

-- The bytes of a block behind the first, and the first.
abbrev pub first_byte : Block → ℕ
first_byte (value1 v) = v
first_byte (value2 high low) = high
first_byte (value3 high low) = 0x0c
first_byte nop1 = 0x08
first_byte (nop2 a) = 0x09
first_byte (nop3 a b) = 0x0a
first_byte overflow16 = 0x0b
first_byte (oob kind low high body) = 0x0d

abbrev pub other_bytes : Block → List ℕ
other_bytes (value1 v) = []
other_bytes (value2 high low) = low ∷ []
other_bytes (value3 high low) = high ∷ low ∷ []
other_bytes nop1 = []
other_bytes (nop2 a) = a ∷ []
other_bytes (nop3 a b) = a ∷ b ∷ []
other_bytes overflow16 = []
other_bytes (oob kind low high body) = kind ∷ low ∷ high ∷ body

unfoldable pub stream_bytes : List Block → List ℕ
stream_bytes [] = []
stream_bytes (b ∷ bs) = first_byte b ∷ (other_bytes b ++ stream_bytes bs)

-- The stream position of docs/KryoFlux_Data_Format.md behind some blocks: out-of-band blocks are not
-- in the buffer that it counts.
unfoldable pub position : List Block → ℕ
position [] = 0
position (oob kind low high body ∷ bs) = position bs
position (value1 v ∷ bs) = 1 + position bs
position (value2 high low ∷ bs) = 2 + position bs
position (value3 high low ∷ bs) = 3 + position bs
position (nop1 ∷ bs) = 1 + position bs
position (nop2 a ∷ bs) = 2 + position bs
position (nop3 a b ∷ bs) = 3 + position bs
position (overflow16 ∷ bs) = 1 + position bs

-- The bytes of the out-of-band blocks.
unfoldable pub oob_bytes : List Block → ℕ
oob_bytes [] = 0
oob_bytes (oob kind low high body ∷ bs) = 4 + length body + oob_bytes bs
oob_bytes (value1 v ∷ bs) = oob_bytes bs
oob_bytes (value2 high low ∷ bs) = oob_bytes bs
oob_bytes (value3 high low ∷ bs) = oob_bytes bs
oob_bytes (nop1 ∷ bs) = oob_bytes bs
oob_bytes (nop2 a ∷ bs) = oob_bytes bs
oob_bytes (nop3 a b ∷ bs) = oob_bytes bs
oob_bytes (overflow16 ∷ bs) = oob_bytes bs

-- The times of the transitions in ticks, `t` being the time so far.
unfoldable pub times : ℕ → List Block → List ℕ
times t [] = []
times t (value1 v ∷ bs) = (t + v) ∷ times (t + v) bs
times t (value2 high low ∷ bs) = (t + (high * 256 + low)) ∷ times (t + (high * 256 + low)) bs
times t (value3 high low ∷ bs) = (t + (high * 256 + low)) ∷ times (t + (high * 256 + low)) bs
times t (nop1 ∷ bs) = times t bs
times t (nop2 a ∷ bs) = times t bs
times t (nop3 a b ∷ bs) = times t bs
times t (overflow16 ∷ bs) = times (t + 0x10000) bs
times t (oob kind low high body ∷ bs) = times t bs

-- The index pulses: the blocks of type 2 with twelve bytes or more.
unfoldable pub pulses : List Block → List IndexTiming
pulses [] = []
pulses (oob kind low high body ∷ bs) =
    let later = pulses bs in
    if (kind == 0x02) && leb 12 (length body)
    then record {
      stream_position = dword body;
      sample_counter = dword (drop 4 body);
      index_counter = dword (drop 8 body);
    }
      ∷ later
    else later
pulses (b ∷ bs) = pulses bs
