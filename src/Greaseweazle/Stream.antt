-- ===== src/Greaseweazle/Stream.antt =====
-- greaseweazle/write.go and greaseweazle/read.go: a flux stream written from transition times, and the
-- times read from a stream. The conversions between ticks and nanoseconds are float products and
-- quotients, which `to_ticks` and `to_ns` stand for. A loop that moves its offset on by more than one
-- takes a number of bytes to pass over.
use fdx.Prelude.{
  ℕ, zero, suc, ◌+◌, ◌-◌, ◌*◌, ◌%◌, ◌^◌, bit_and, bit_or, if◌then◌else◌, ltb, leb, ◌==◌,
}
use fdx.Prelude.{List, [], ◌∷◌, ◌++◌, Option, some, none, ◌<<<◌, ◌>>>◌}

abbrev pub fluxop_index : ℕ
fluxop_index = 1

abbrev pub fluxop_space : ℕ
fluxop_space = 2

-- Seven bits above a 1.
unfoldable pub n28_byte : ℕ → ℕ
n28_byte value = bit_or 1 ((value % 128) <<< 1)

unfoldable pub encode_n28 : ℕ → List ℕ
encode_n28 value =
    n28_byte value ∷ n28_byte (value >>> 7) ∷ n28_byte (value >>> 14) ∷ n28_byte (value >>> 21) ∷ []

unfoldable pub read_n28 : List ℕ → Option ℕ
read_n28 (b0 ∷ b1 ∷ b2 ∷ b3 ∷ behind) = some (
    bit_or (bit_and b3 0xfe <<< 20)
      (bit_or (bit_and b2 0xfe <<< 13) (bit_or (bit_and b1 0xfe <<< 6) (bit_and b0 0xfe >>> 1))))
read_n28 behind = none

-- The loop over the base byte; five rounds are enough for an offset below 1530.
unfoldable pub extended_from : ℕ → ℕ → ℕ → List ℕ
extended_from zero base offset = base ∷ offset ∷ []
extended_from (suc fuel) base offset =
    let later = extended_from fuel (base + 1) (offset - 255) in
    if leb 255 offset then later else base ∷ offset ∷ []

-- One interval in ticks, at least 1.
unfoldable pub interval_bytes : ℕ → List ℕ
interval_bytes interval_ticks =
    if ltb interval_ticks 250
    then interval_ticks ∷ []
    else if ltb interval_ticks 1525
    then extended_from 5 0xfa (interval_ticks + 1 - 250)
    else 0xff ∷ fluxop_space ∷ encode_n28 interval_ticks

-- The loop over the intervals.
unfoldable pub interval_stream : List ℕ → List ℕ
interval_stream [] = []
interval_stream (t ∷ ts) = interval_bytes t ++ interval_stream ts

unfoldable pub interval_of : (ℕ → ℕ) → ℕ → ℕ
interval_of to_ticks interval_ns =
    let ticks = to_ticks interval_ns in if ticks == 0 then 1 else ticks

unfoldable pub intervals_from : (ℕ → ℕ) → ℕ → List ℕ → List ℕ
intervals_from to_ticks last_time [] = []
intervals_from to_ticks last_time (transition_time ∷ ts) =
    interval_of to_ticks ((transition_time + 2 ^ 64 - last_time) % 2 ^ 64)
    ∷ intervals_from to_ticks transition_time ts

unfoldable pub encode_flux_stream : (ℕ → ℕ) → List ℕ → List ℕ
encode_flux_stream to_ticks transitions =
    interval_stream (intervals_from to_ticks 0 transitions) ++ (0 ∷ [])

-- What one byte of a stream is, with those behind it.
pub data Item : Type 0 where
  interval : ℕ → ℕ → Item
  index space : ℕ → Item
  incomplete_opcode incomplete_interval bad_index bad_space : Item
  unknown_opcode : ℕ → Item

unfoldable pub opcode_item : List ℕ → Item
opcode_item [] = incomplete_opcode
opcode_item (opcode ∷ behind) =
    if opcode == fluxop_index
    then elim (read_n28 behind) [ none ↦ bad_index | some n28 ↦ index n28 ]
    else if opcode == fluxop_space
    then elim (read_n28 behind) [ none ↦ bad_space | some n28 ↦ space n28 ]
    else unknown_opcode opcode

unfoldable pub extended_item : ℕ → List ℕ → Item
extended_item b [] = incomplete_interval
extended_item b (offset ∷ behind) = interval (250 + (b - 250) * 255 + offset - 1) 1

unfoldable pub flux_item : ℕ → List ℕ → Item
flux_item b behind =
    if b == 0xff
    then opcode_item behind
    else if ltb b 250
    then interval b 0
    else extended_item b behind

pub data FluxRead : Type 0 where
  transitions : List ℕ → FluxRead
  failed : Item → FluxRead

abbrev pub timed : Option ℕ → FluxRead → FluxRead
timed none later = later
timed (some time) (transitions ts) = transitions (time ∷ ts)
timed (some time) (failed item) = failed item

-- The time of a transition, where there was one index pulse so far.
unfoldable pub transition_time : (ℕ → ℕ) → ℕ → List ℕ → Option ℕ
transition_time to_ns ticks [] = none
transition_time to_ns ticks (pulse ∷ []) = some ((to_ns ticks + 2 ^ 64 - pulse) % 2 ^ 64)
transition_time to_ns ticks (pulse ∷ later ∷ pulses) = none

-- The loop; the pulses in their order.
unfoldable pub items_from : (ℕ → ℕ) → ℕ → List ℕ → ℕ → List ℕ → FluxRead
items_from to_ns skip [] ticks pulses = transitions []
items_from to_ns (suc skip) (b ∷ behind) ticks pulses = items_from to_ns skip behind ticks pulses
items_from to_ns zero (b ∷ behind) ticks pulses = elim (flux_item b behind) [
  | interval delta rest ↦
      timed (transition_time to_ns (ticks + delta) pulses)
        (items_from to_ns rest behind (ticks + delta) pulses)
  | index n28 ↦ items_from to_ns 5 behind ticks (pulses ++ (to_ns ticks ∷ []))
  | space n28 ↦ items_from to_ns 5 behind (ticks + n28) pulses
  | incomplete_opcode ↦ failed incomplete_opcode
  | incomplete_interval ↦ failed incomplete_interval
  | bad_index ↦ failed bad_index
  | bad_space ↦ failed bad_space
  | unknown_opcode opcode ↦ failed (unknown_opcode opcode)
]
