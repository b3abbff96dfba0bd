-- ===== src/Greaseweazle/Rates.antt =====
-- The rest of greaseweazle/read.go: the speed and the bit rate of a stream, and its flux as half-bits.
-- Sums of ticks and the number of transitions are taken to stay below 2 ^ 64.
pub mod Counted
use fdx.Prelude.{ℕ, zero, suc, ◌+◌, ◌-◌, ◌*◌, ◌/◌, ◌%◌, ◌^◌, if◌then◌else◌, ltb, ◌==◌}
use fdx.Prelude.{List, [], ◌∷◌, ◌++◌, length, Option, none, some}
use fdx.Mfm.Decoder.{Floats, new_decoder, next_bit}
use fdx.Kryoflux.Cells.{Rates, rates, divide_by_zero, pack}
use fdx.Supercardpro.Flux.{cells_until}
use fdx.Greaseweazle.Stream.{
  Item, interval, index, space, incomplete_opcode, incomplete_interval, bad_index, bad_space,
  unknown_opcode, flux_item, transitions, failed, items_from,
}

-- The loop that counts transitions behind the first index pulse; it passes over what it cannot read.
unfoldable pub count_from : (ℕ → ℕ) → ℕ → List ℕ → ℕ → List ℕ → ℕ → List ℕ × ℕ
count_from to_ns skip [] ticks pulses count = (pulses, count)
count_from to_ns (suc skip) (b ∷ behind) ticks pulses count =
    count_from to_ns skip behind ticks pulses count
count_from to_ns zero (b ∷ behind) ticks pulses count = elim (flux_item b behind) [
  | interval delta rest ↦
      count_from to_ns rest behind (ticks + delta) pulses
        (if length pulses == 1 then count + 1 else count)
  | index n28 ↦ count_from to_ns 5 behind ticks (pulses ++ (to_ns (ticks + n28) ∷ [])) count
  | space n28 ↦ count_from to_ns 5 behind (ticks + n28) pulses count
  | incomplete_opcode ↦ (pulses, count)
  | incomplete_interval ↦ (pulses, count)
  | bad_index ↦ count_from to_ns 1 behind ticks pulses count
  | bad_space ↦ count_from to_ns 1 behind ticks pulses count
  | unknown_opcode opcode ↦ count_from to_ns 1 behind ticks pulses count
]

abbrev pub rounded_rpm : ℕ → ℕ
rounded_rpm duration = if ltb (60000000000 / duration) 330 then 300 else 360

unfoldable pub rounded_rate : ℕ → ℕ → ℕ
rounded_rate rpm bits_per_msec =
    if ltb bits_per_msec 375
    then if rpm == 360 then 300 else 250
    else if ltb bits_per_msec 750
    then 500
    else 1000

-- Both, from the duration of a turn and the number of transitions.
unfoldable pub turn_rates : ℕ → ℕ → Rates
turn_rates duration count =
    if duration == 0
    then divide_by_zero
    else rates (rounded_rpm duration)
        (rounded_rate (rounded_rpm duration) (count * 1000000 / duration))

unfoldable pub pulse_rates : List ℕ × ℕ → Rates
pulse_rates (first ∷ second ∷ later, count) = turn_rates ((second + 2 ^ 64 - first) % 2 ^ 64) count
pulse_rates (first ∷ [], count) = rates 300 250
pulse_rates ([], count) = rates 300 250

unfoldable pub stream_rates : (ℕ → ℕ) → List ℕ → Rates
stream_rates to_ns flux_data = pulse_rates (count_from to_ns 0 flux_data 0 [] 0)

pub data TrackDecoded : Type 0 where
  track_bytes : List ℕ → TrackDecoded
  empty_stream no_transitions unfinished : TrackDecoded
  bad_stream : Item → TrackDecoded

-- `decodeFluxToMFM`; `unfinished` is no Go value.
unfoldable pub decode_stream : (fl : Floats) → ℕ → (ℕ → ℕ) → List ℕ → ℕ → TrackDecoded
decode_stream fl fuel to_ns flux_data bit_rate_khz =
    if length flux_data == 0 then empty_stream else elim (items_from to_ns 0 flux_data 0 []) [
      | failed item ↦ bad_stream item
      | transitions ts ↦
          if length ts == 0
          then no_transitions
          else elim (cells_until fl fuel (next_bit fl (new_decoder fl ts bit_rate_khz)).0) [
            | none ↦ unfinished
            | some bitcells ↦ track_bytes (pack bitcells)
          ]
    ]
