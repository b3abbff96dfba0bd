-- ===== src/Mfm/Flux/Times.antt =====
-- The times that mfm/encoder.go gives for half-bits, and the rotation that they cover.
use fdx.Prelude.{
  ℕ, zero, suc, ◌+◌, ◌-◌, ◌*◌, ◌/◌, ◌%◌, ◌^◌, ◌≤◌, ◌<◌, ◌≢◌, ◌≡◌, refl, ap, ap₂, ◌∙◌, arith,
  bit_and, Bool, true, not, if◌then◌else◌, leb, ◌==◌, Bool-cases, inl, inr,
}
use fdx.Prelude.{
  List, [], ◌∷◌, ◌++◌, length, drop, drop_all, map, get_or, some, All, IsByte, ==_of_ne,
}
use native.Mathlib.Nat.{le-div_iff_mul-le, add-mul}
use fdx.Prelude.Tables.{holds_below, holds_below_sound}
use fdx.Mfm.Symbols.{byte_bits, stream}
use fdx.Mfm.Symbols.Buffer.{length-stream}
use fdx.Mfm.Flux.{
  bitcell_period_ns, current_bit, transitions_from, generate_flux_transitions, rotation_duration_ns,
  last_time, cover_from, cover_full_rotation,
}

-- The places of the ones, counted from `i`.
abbrev pub ones : ℕ → List ℕ → List ℕ
ones i [] = []
ones i (b ∷ bs) = let later = ones (i + 1) bs in if not (b == 0) then i ∷ later else later

same_bit : ℕ → ℕ → Bool
same_bit b j =
    let x = not (bit_and b (2 ^ (7 - j)) == 0) in
    let y = not (get_or (byte_bits b) j 0 == 0) in if x then y else not y

byte_bit-same :
    (b j : ℕ)
    → b < 256
    → j < 8
    → not (bit_and b (2 ^ (7 - j)) == 0) ≡ not (get_or (byte_bits b) j 0 == 0)
unfolding same_bit
byte_bit-same b j hb hj =
    let e : same_bit b j ≡ true =
      holds_below_sound 8 (same_bit b)
        (holds_below_sound 256 (λ b'. holds_below 8 (same_bit b')) (unfold holds_below in refl) b
          hb)
        j hj in
    ground arith

current_bit-stream :
    (mfm_bits : List ℕ) (i : ℕ)
    → All IsByte mfm_bits
    → i < 8 * length mfm_bits
    → current_bit mfm_bits i ≡ not (get_or (stream mfm_bits) i 0 == 0)
unfolding current_bit
current_bit-stream [] i bytes h = absurd (omega (arith, h))
current_bit-stream (b ∷ mfm_bits) zero bytes h = byte_bit-same b 0 bytes.0 (omega arith)
current_bit-stream (b ∷ mfm_bits) (suc zero) bytes h = byte_bit-same b 1 bytes.0 (omega arith)
current_bit-stream (b ∷ mfm_bits) (suc (suc zero)) bytes h = byte_bit-same b 2 bytes.0 (omega arith)
current_bit-stream (b ∷ mfm_bits) (suc (suc (suc zero))) bytes h =
    byte_bit-same b 3 bytes.0 (omega arith)
current_bit-stream (b ∷ mfm_bits) (suc (suc (suc (suc zero)))) bytes h =
    byte_bit-same b 4 bytes.0 (omega arith)
current_bit-stream (b ∷ mfm_bits) (suc (suc (suc (suc (suc zero))))) bytes h =
    byte_bit-same b 5 bytes.0 (omega arith)
current_bit-stream (b ∷ mfm_bits) (suc (suc (suc (suc (suc (suc zero)))))) bytes h =
    byte_bit-same b 6 bytes.0 (omega arith)
current_bit-stream (b ∷ mfm_bits) (suc (suc (suc (suc (suc (suc (suc zero))))))) bytes h =
    byte_bit-same b 7 bytes.0 (omega arith)
current_bit-stream (b ∷ mfm_bits) (suc (suc (suc (suc (suc (suc (suc (suc i)))))))) bytes h =
    let byte : (suc (suc (suc (suc (suc (suc (suc (suc i)))))))) / 8 ≡ suc (i / 8) = omega arith in
    let place : (suc (suc (suc (suc (suc (suc (suc (suc i)))))))) % 8 ≡ i % 8 = omega arith in
    ap₂ (λ d m. not (bit_and (get_or (b ∷ mfm_bits) d 0) (2 ^ (7 - m)) == 0)) byte place
    ∙ current_bit-stream mfm_bits i bytes.1 (omega (arith, h))

get_or-drop : (i : ℕ) (xs : List ℕ) → i < length xs → drop i xs ≡ get_or xs i 0 ∷ drop (i + 1) xs
get_or-drop zero [] h = absurd (omega (arith, h))
get_or-drop zero (x ∷ xs) h = refl
get_or-drop (suc i) [] h = absurd (omega (arith, h))
get_or-drop (suc i) (x ∷ xs) h =
    get_or-drop i xs (omega (arith, h))
    ∙ ap (λ k. get_or xs i 0 ∷ drop k (x ∷ xs)) {x = suc (i + 1)} (omega arith)

transitions_from-ones :
    (n i : ℕ) (mfm_bits : List ℕ) (period : ℕ)
    → All IsByte mfm_bits
    → i + n ≡ 8 * length mfm_bits
    → transitions_from n i mfm_bits period (i * period)
      ≡ map (λ k. (k + 1) * period) (ones i (drop i (stream mfm_bits)))
unfolding transitions_from
transitions_from-ones zero i mfm_bits period bytes whole =
    let none : drop i (stream mfm_bits) ≡ [] =
      drop_all i (stream mfm_bits) (omega (arith, whole, length-stream mfm_bits)) in
    rw none refl
transitions_from-ones (suc n) i mfm_bits period bytes whole =
    let inside : i < 8 * length mfm_bits = omega (arith, whole) in
    let front = get_or-drop i (stream mfm_bits) (omega (arith, inside, length-stream mfm_bits)) in
    let next : i * period + period ≡ (i + 1) * period = omega (arith, add-mul i 1 period) in
    let later = transitions_from-ones n (i + 1) mfm_bits period bytes (omega (arith, whole)) in
    let later' = ap (transitions_from n (i + 1) mfm_bits period) next ∙ later in
    rw (front, current_bit-stream mfm_bits i bytes inside)
      (elim (Bool-cases (get_or (stream mfm_bits) i 0 == 0)) [
        | inl zero_bit ↦ rw zero_bit later'
        | inr one_bit ↦ rw one_bit (ap₂ (◌∷◌) next later')
      ])

-- From one byte or more GenerateFluxTransitions returns, without error, one time for every half-bit
-- that is 1, in order: its place, counted from 1, times the period of a half-bit.
pub generate_flux_transitions-ones :
    (mfm_bits : List ℕ) (rate : ℕ)
    → All IsByte mfm_bits
    → length mfm_bits ≢ 0
    → generate_flux_transitions mfm_bits rate
      ≡ some (map (λ k. (k + 1) * bitcell_period_ns rate) (ones 0 (stream mfm_bits)))
unfolding generate_flux_transitions
generate_flux_transitions-ones mfm_bits rate bytes some_bytes =
    let period = bitcell_period_ns rate in
    rw (==_of_ne (length mfm_bits) 0 some_bytes) (
      ap some (
        ap (transitions_from (length mfm_bits * 8) 0 mfm_bits period) {x = 0} {y = 0 * period}
          (omega arith)
        ∙ transitions_from-ones (length mfm_bits * 8) 0 mfm_bits period bytes (omega arith)))

-- Each append is two periods behind the one before.
abbrev pub IsSpaced : ℕ → ℕ → List ℕ → Type 0
IsSpaced step t [] = Unit
IsSpaced step t (x ∷ xs) = (x ≡ t + step) × IsSpaced step x xs

cover_from-IsSpaced :
    (fuel step duration t : ℕ)
    → IsSpaced step t (cover_from fuel step duration t)
      × All (λ x. x ≤ duration) (cover_from fuel step duration t)
unfolding cover_from
cover_from-IsSpaced zero step duration t = (tt, tt)
cover_from-IsSpaced (suc fuel) step duration t = elim (Bool-cases (leb (t + step) duration)) [
  | inl more ↦
      let (spaced, below) = cover_from-IsSpaced fuel step duration (t + step) in
      let fits : t + step ≤ duration = ground arith in rw more ((refl, spaced), (fits, below))
  | inr full ↦ rw full (tt, tt)
]

-- With a step of one or more the fuel is enough.
cover_from-covers :
    (fuel step duration t : ℕ)
    → 1 ≤ step
    → duration < t + step + fuel
    → duration < last_time t (cover_from fuel step duration t) + step
unfolding cover_from last_time
cover_from-covers zero step duration t h enough = omega (arith, enough)
cover_from-covers (suc fuel) step duration t h enough =
    elim (Bool-cases (leb (t + step) duration)) [
      | inl more ↦
          rw more (cover_from-covers fuel step duration (t + step) h (omega (arith, enough, h)))
      | inr full ↦ rw full (ground arith)
    ]

last_time-append : (t : ℕ) (xs ys : List ℕ) → last_time t (xs ++ ys) ≡ last_time (last_time t xs) ys
unfolding last_time
last_time-append t [] ys = refl
last_time-append t (x ∷ xs) ys = last_time-append x xs ys

bitcell_period_ns-positive : (rate : ℕ) → rate ≢ 0 → rate < 65536 → 1 ≤ 2 * bitcell_period_ns rate
unfolding bitcell_period_ns
bitcell_period_ns-positive rate some_rate small =
    let d = rate * 1000 * 2 in
    let some_d : 0 < d = omega (arith, some_rate) in
    let fits : 1 * d ≤ 1000000000 = omega (arith, small) in
    let one : 1 ≤ 1000000000 / d =
      (le-div_iff_mul-le {k = d} {x = 1} {y = 1000000000} some_d).1 fits in
    omega (arith, one)

-- At a bit rate from 1 to 65535 CoverFullRotation keeps the transitions and appends others, each
-- two half-bits behind the one before and none behind the end of the rotation, until the next would
-- be.
pub cover_full_rotation-covers :
    (transitions : List ℕ) (rate rpm : ℕ)
    → rate ≢ 0
    → rate < 65536
    → (let step = 2 * bitcell_period_ns rate in
        let duration = rotation_duration_ns rpm in
        let covered = cover_full_rotation transitions rate rpm in
        (added : List ℕ) × (covered ≡ transitions ++ added)
        × IsSpaced step (last_time 0 transitions) added
        × All (λ x. x ≤ duration) added
        × (duration < last_time 0 covered + step))
unfolding cover_full_rotation
cover_full_rotation-covers transitions rate rpm some_rate small =
    let step = 2 * bitcell_period_ns rate in
    let duration = rotation_duration_ns rpm in
    let start = last_time 0 transitions in
    let added = cover_from duration step duration start in
    let (spaced, below) = cover_from-IsSpaced duration step duration start in
    let positive = bitcell_period_ns-positive rate some_rate small in
    let covers =
      cover_from-covers duration step duration start positive (omega (arith, positive)) in
    let same = last_time-append 0 transitions added in
    (added, refl, spaced, below, omega (arith, covers, same))
