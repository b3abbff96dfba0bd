-- ===== src/Kryoflux/Stream.antt =====
-- kryoflux/read.go: the blocks of a stream, the search for its end, and the index pulses. A loop that
-- moves its offset on by more than one takes a number of bytes to pass over.
use fdx.Prelude.{ℕ, zero, suc, ◌+◌, ◌*◌, Bool, true, false, ◌&&◌, if◌then◌else◌, ltb, leb, ◌==◌}
use fdx.Prelude.{List, [], ◌∷◌, length, drop}

-- A number of two bytes, the low byte first, and of four.
abbrev pub oob_size : ℕ → ℕ → ℕ
oob_size low high = low + 256 * high

unfoldable pub dword : List ℕ → ℕ
dword (a ∷ b ∷ c ∷ d ∷ behind) = a + 256 * b + 65536 * c + 16777216 * d
dword behind = 0

-- The bytes of a block behind its first, which is not the marker 0x0d.
unfoldable pub block_rest : ℕ → ℕ
block_rest val =
    if leb val 0x07
    then 1
    else if val == 0x08
    then 0
    else if val == 0x09
    then 1
    else if val == 0x0a
    then 2
    else if val == 0x0b
    then 0
    else if val == 0x0c
    then 2
    else 0

-- A block out of band, from the byte behind its marker on: its type, its data and what follows them.
pub data Oob : Type 0 where
  lost_header : Oob
  end_marker : Oob
  lost_data : Oob
  oob_block : ℕ → ℕ → List ℕ → Oob

unfoldable pub read_oob : List ℕ → Oob
read_oob (oob_type ∷ low ∷ high ∷ body) =
    if oob_type == 0x0d
    then end_marker
    else if ltb (length body) (oob_size low high)
    then lost_data
    else oob_block oob_type (oob_size low high) body
read_oob behind = lost_header

unfoldable pub find_end_from : ℕ → List ℕ → Bool
find_end_from skip [] = false
find_end_from (suc skip) (val ∷ behind) = find_end_from skip behind
find_end_from zero (val ∷ behind) = elim (val == 0x0d) [
  | false ↦ find_end_from (block_rest val) behind
  | true ↦ elim (read_oob behind) [
    | lost_header ↦ true
    | end_marker ↦ true
    | lost_data ↦ true
    | oob_block oob_type size body ↦ find_end_from (3 + size) behind
  ]
]

unfoldable pub find_end_of_stream : List ℕ → Bool
find_end_of_stream = find_end_from 0

pub record IndexTiming : Type 0 where
  pub stream_position : ℕ
  pub sample_counter : ℕ
  pub index_counter : ℕ

-- What a block out of band adds to the pulses.
unfoldable pub index_pulse : ℕ → ℕ → List ℕ → List IndexTiming → List IndexTiming
index_pulse oob_type size body pulses =
    if (oob_type == 0x02) && leb 12 size
    then record {
      stream_position = dword body;
      sample_counter = dword (drop 4 body);
      index_counter = dword (drop 8 body);
    }
      ∷ pulses
    else pulses

unfoldable pub pulses_from : ℕ → List ℕ → List IndexTiming
pulses_from skip [] = []
pulses_from (suc skip) (val ∷ behind) = pulses_from skip behind
pulses_from zero (val ∷ behind) = elim (val == 0x0d) [
  | false ↦ pulses_from (block_rest val) behind
  | true ↦ elim (read_oob behind) [
    | lost_header ↦ []
    | end_marker ↦ []
    | lost_data ↦ []
    | oob_block oob_type size body ↦ index_pulse oob_type size body (pulses_from (3 + size) behind)
  ]
]

unfoldable pub decode_pulses : List ℕ → List IndexTiming
decode_pulses = pulses_from 0
