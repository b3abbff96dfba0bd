-- ===== src/Supercardpro/Flux.antt =====
-- supercardpro/write.go and supercardpro/read.go: flux as 16-bit numbers of 25 nanoseconds, the high
-- byte first, and the speed and bit rate of a disk.
use fdx.Prelude.{
  ℕ, zero, suc, ◌+◌, ◌-◌, ◌*◌, ◌/◌, ◌%◌, ◌^◌, Bool, true, false, if◌then◌else◌, ltb, ◌==◌,
}
use fdx.Prelude.{u32, List, [], ◌∷◌, ◌++◌, length, replicate, Option, none, some}
use fdx.Mfm.Decoder.{Floats, Decoder, new_decoder, is_done, next_bit}
use fdx.Kryoflux.Cells.{is_slow, rounded_bit_rate, pack}

-- The zeros of the overflow loop, and the rest of the interval, at least 1.
unfoldable pub unit_bytes : ℕ → List ℕ
unit_bytes interval_25ns =
    let left = interval_25ns % 65536 in
    let interval = if left == 0 then 1 else left in
    replicate (2 * (interval_25ns / 65536)) 0 ++ (interval / 256 ∷ interval % 256 ∷ [])

-- The loop over the intervals, in units of 25 nanoseconds.
unfoldable pub units_bytes : List ℕ → List ℕ
units_bytes [] = []
units_bytes (n ∷ ns) = unit_bytes n ++ units_bytes ns

unfoldable pub units_from : ℕ → List ℕ → List ℕ
units_from last_time [] = []
units_from last_time (transition_time ∷ ts) =
    u32 ((transition_time + 2 ^ 64 - last_time) % 2 ^ 64 / 25) ∷ units_from transition_time ts

unfoldable pub encode_flux_to_scp : List ℕ → List ℕ
encode_flux_to_scp transitions = units_bytes (units_from 0 transitions)

pub record FluxInfo : Type 0 where
  pub index_time : ℕ
  pub nr_bitcells : ℕ

-- `info` has five entries.
pub record FluxData : Type 0 where
  pub info : List FluxInfo
  pub bytes : List ℕ

-- The loop over the samples; it stops where no more than two bytes are left.
unfoldable pub times_from : ℕ → ℕ → List ℕ → List ℕ
times_from index_time_ns flux_ns (high ∷ low ∷ b ∷ behind) =
    let val = high * 256 + low in
    let later = times_from index_time_ns (flux_ns + val * 25) (b ∷ behind) in
    let over = times_from index_time_ns (flux_ns + 0x10000 * 25) (b ∷ behind) in
    if val == 0
    then over
    else if ltb index_time_ns (flux_ns + val * 25)
    then []
    else (flux_ns + val * 25) ∷ later
times_from index_time_ns flux_ns bytes = []

unfoldable pub scp_rates : FluxInfo → ℕ × ℕ
scp_rates first =
    let track_duration_ns = first.index_time * 25 in
    if first.index_time == 0 then (300, 250) else (
      (if is_slow track_duration_ns then 300 else 360),
      rounded_bit_rate (first.nr_bitcells * 1000000 / track_duration_ns),
    )

-- The loop over the decoder, which asks for the end behind each round; `none` is no Go value.
unfoldable pub cells_until : (fl : Floats) → ℕ → Decoder fl → Option (List Bool)
cells_until fl zero pll = none
cells_until fl (suc fuel) pll =
    let (pll1, first) = next_bit fl pll in
    let (pll2, second) = next_bit fl pll1 in
    elim (is_done fl pll2) [
      | true ↦ some (first ∷ second ∷ [])
      | false ↦ elim (cells_until fl fuel pll2) [
        | none ↦ none
        | some bitcells ↦ some (first ∷ second ∷ bitcells)
      ]
    ]

pub data BitsDecoded : Type 0 where
  bits : List ℕ → BitsDecoded
  empty_flux_data invalid_flux_info no_flux_transitions : BitsDecoded
  unfinished : BitsDecoded

unfoldable pub bits_of : (fl : Floats) → ℕ → List ℕ → ℕ → BitsDecoded
bits_of fl fuel transitions bit_rate_khz =
    if length transitions == 0
    then no_flux_transitions
    else elim (cells_until fl fuel (next_bit fl (new_decoder fl transitions bit_rate_khz)).0) [
      | none ↦ unfinished
      | some bitcells ↦ bits (pack bitcells)
    ]

-- Its `no bitcells` and `no MFM bytes` never happen: a round gives two bitcells.
unfoldable pub decode_scp_flux : (fl : Floats) → ℕ → FluxInfo → List ℕ → ℕ → BitsDecoded
decode_scp_flux fl fuel first bytes bit_rate_khz =
    if length bytes == 0
    then empty_flux_data
    else if first.index_time == 0
    then invalid_flux_info
    else bits_of fl fuel (times_from (first.index_time * 25) 0 bytes) bit_rate_khz
