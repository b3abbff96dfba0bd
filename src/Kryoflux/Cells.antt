-- ===== src/Kryoflux/Cells.antt =====
-- kryoflux/read.go: the bitcells of a track and their bytes, and the speed and bit rate of a disk.
pub mod Packed
pub mod Decoded
pub mod Restored
pub mod Speeds
use fdx.Prelude.{
  ℕ, zero, suc, ◌+◌, ◌-◌, ◌*◌, ◌/◌, ◌%◌, ◌^◌, bit_or, Bool, true, false, if◌then◌else◌, ltb, ◌==◌,
}
use fdx.Prelude.{List, [], ◌∷◌, length, Option, none, some}
use fdx.Mfm.Decoder.{Floats, Decoder, new_decoder, is_done, next_bit}
use fdx.Kryoflux.Stream.{IndexTiming}
use fdx.Kryoflux.Flux.{DecodedStreamData}

-- `currentByte` with the bit.
unfoldable pub with_bit : Bool → ℕ → ℕ → ℕ
with_bit bit bit_count current_byte =
    if bit then bit_or current_byte (2 ^ (7 - bit_count)) else current_byte

-- The loop over the bitcells, and the partial byte behind it.
unfoldable pub pack_from : ℕ → ℕ → List Bool → List ℕ
pack_from current_byte bit_count [] = if ltb 0 bit_count then current_byte ∷ [] else []
pack_from current_byte bit_count (bit ∷ bitcells) = elim (bit_count + 1 == 8) [
  | true ↦ with_bit bit bit_count current_byte ∷ pack_from 0 0 bitcells
  | false ↦ pack_from (with_bit bit bit_count current_byte) (bit_count + 1) bitcells
]

unfoldable pub pack : List Bool → List ℕ
pack = pack_from 0 0

-- The loop over the decoder, two bitcells a round; `none` is no Go value: it ran out of fuel.
unfoldable pub cells_from : (fl : Floats) → ℕ → Decoder fl → Option (List Bool)
cells_from fl zero pll = none
cells_from fl (suc fuel) pll =
    let (pll1, first) = next_bit fl pll in
    let (pll2, second) = next_bit fl pll1 in
    elim (is_done fl pll) [
      | true ↦ some []
      | false ↦ elim (cells_from fl fuel pll2) [
        | none ↦ none
        | some bitcells ↦ some (first ∷ second ∷ bitcells)
      ]
    ]

-- Bytes, or an error.
pub data CellsDecoded : Type 0 where
  mfm_bytes : List ℕ → CellsDecoded
  no_flux_transitions no_bitcells : CellsDecoded
  unfinished : CellsDecoded

unfoldable pub packed_cells : Option (List Bool) → CellsDecoded
packed_cells none = unfinished
packed_cells (some []) = no_bitcells
packed_cells (some (bit ∷ bitcells)) = mfm_bytes (pack (bit ∷ bitcells))

-- The first half-bit is ignored.
unfoldable pub decode_flux_to_mfm : (fl : Floats) → ℕ → List ℕ → ℕ → CellsDecoded
decode_flux_to_mfm fl fuel transitions bit_rate_khz =
    if length transitions == 0
    then no_flux_transitions
    else packed_cells (cells_from fl fuel (next_bit fl (new_decoder fl transitions bit_rate_khz)).0)

-- The speed and the bit rate, or the panic of a division by zero.
pub data Rates : Type 0 where
  rates : ℕ → ℕ → Rates
  divide_by_zero : Rates

-- `rpm < 330`, where `rpm` is 60e9 over the duration of the track, a whole number of nanoseconds.
unfoldable pub is_slow : ℕ → Bool
is_slow track_duration_ns = ltb 60000000000 (330 * track_duration_ns)

unfoldable pub rounded_bit_rate : ℕ → ℕ
rounded_bit_rate bits_per_msec =
    if ltb bits_per_msec 375 then 250 else if ltb bits_per_msec 750 then 500 else 1000

-- The product has 64 bits, so the transitions are taken to be fewer than 2 ^ 64 / 10 ^ 6.
unfoldable pub rates_of : ℕ → ℕ → Rates
rates_of transition_count track_duration_ns =
    if track_duration_ns == 0
    then divide_by_zero
    else rates (if is_slow track_duration_ns then 300 else 360)
        (rounded_bit_rate (transition_count * 1000000 / track_duration_ns))

-- `index_ns` is the conversion of index clock ticks to nanoseconds, which is a float product; the
-- counters are of 32 bits, and so is their difference.
unfoldable pub calculate_rates : (ℕ → ℕ) → List IndexTiming → ℕ → Rates
calculate_rates index_ns (first ∷ second ∷ later) transition_count =
    rates_of transition_count
      (index_ns ((second.index_counter + 2 ^ 32 - first.index_counter) % 2 ^ 32))
calculate_rates index_ns pulses transition_count = rates 300 250

unfoldable pub calculate_rpm_and_bit_rate : (ℕ → ℕ) → DecodedStreamData → Rates
calculate_rpm_and_bit_rate index_ns decoded =
    calculate_rates index_ns decoded.index_pulses (length decoded.flux_transitions)
