-- ===== src/Mfm/Flux.antt =====
-- mfm/encoder.go: half-bits as the times of flux transitions, in nanoseconds. The float quotients of
-- the periods are below 2 ^ 53 and truncated, so they are those of whole numbers; the rates and speeds
-- are not zero.
pub mod Times
use fdx.Prelude.{
  ℕ, zero, suc, ◌+◌, ◌-◌, ◌*◌, ◌/◌, ◌%◌, ◌^◌, bit_and, Bool, true, false, not, if◌then◌else◌, leb,
  ◌==◌,
}
use fdx.Prelude.{List, [], ◌∷◌, ◌++◌, length, get_or, Option, some, none, u32}

-- `bitcellPeriodNs`
unfoldable pub bitcell_period_ns : ℕ → ℕ
bitcell_period_ns bit_rate_khz = 1000000000 / (bit_rate_khz * 1000 * 2)

-- Half-bit `i`, the highest of a byte first.
unfoldable pub current_bit : List ℕ → ℕ → Bool
current_bit mfm_bits i = not (bit_and (get_or mfm_bits (i / 8) 0) (2 ^ (7 - i % 8)) == 0)

-- The loop over the half-bits, `n` of them from `i` on.
unfoldable pub transitions_from : ℕ → ℕ → List ℕ → ℕ → ℕ → List ℕ
transitions_from zero i mfm_bits period current_time = []
transitions_from (suc n) i mfm_bits period current_time =
    let later = transitions_from n (i + 1) mfm_bits period (current_time + period) in
    if current_bit mfm_bits i then (current_time + period) ∷ later else later

-- `none` is the error of empty data.
unfoldable pub generate_flux_transitions : List ℕ → ℕ → Option (List ℕ)
generate_flux_transitions mfm_bits bit_rate_khz =
    if length mfm_bits == 0
    then none
    else some (transitions_from (length mfm_bits * 8) 0 mfm_bits (bitcell_period_ns bit_rate_khz) 0)

-- `rotationDurationNs`, of 32 bits. At fewer than 14 turns per minute the conversion of the float is
-- out of range, and its value depends on the platform.
unfoldable pub rotation_duration_ns : ℕ → ℕ
rotation_duration_ns floppy_rpm = u32 (60000000000 / floppy_rpm)

unfoldable pub last_time : ℕ → List ℕ → ℕ
last_time t [] = t
last_time t (x ∷ xs) = last_time x xs

-- The loop, with fuel for each transition that it may append.
unfoldable pub cover_from : ℕ → ℕ → ℕ → ℕ → List ℕ
cover_from zero two_periods duration current_time = []
cover_from (suc fuel) two_periods duration current_time =
    let next = current_time + two_periods in
    let later = cover_from fuel two_periods duration next in
    if leb next duration then next ∷ later else []

-- A rotation has fewer transitions than nanoseconds.
unfoldable pub cover_full_rotation : List ℕ → ℕ → ℕ → List ℕ
cover_full_rotation transitions bit_rate_khz floppy_rpm =
    let duration = rotation_duration_ns floppy_rpm in
    transitions
    ++ cover_from duration (2 * bitcell_period_ns bit_rate_khz) duration (last_time 0 transitions)
