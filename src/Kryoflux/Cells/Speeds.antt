-- ===== src/Kryoflux/Cells/Speeds.antt =====
-- The speed and the bit rate that kryoflux/read.go rounds to.
use fdx.Prelude.{
  ℕ, ◌+◌, ◌-◌, ◌*◌, ◌/◌, ◌≤◌, ◌<◌, ◌≢◌, ◌≡◌, ◌⊎◌, refl, arith, if◌then◌else◌, ==_of_ne,
}
use fdx.Prelude.{List, [], ◌∷◌, All}
use fdx.Kryoflux.Cells.{rates, is_slow, rounded_bit_rate, rates_of}

-- How far apart two numbers are.
abbrev pub distance : ℕ → ℕ → ℕ
distance m n = (m - n) + (n - m)

abbrev pub standard_rates : List ℕ
standard_rates = 250 ∷ 500 ∷ 1000 ∷ []

-- A standard rate, and no other is nearer.
abbrev pub IsNearest : ℕ → ℕ → Type 0
IsNearest n rate =
    ((rate ≡ 250) ⊎ ((rate ≡ 500) ⊎ (rate ≡ 1000)))
    × All (λ r. distance n rate ≤ distance n r) standard_rates

rounded_bit_rate-IsNearest : (n : ℕ) → IsNearest n (rounded_bit_rate n)
unfolding rounded_bit_rate
rounded_bit_rate-IsNearest n = (ground arith, (ground arith, (ground arith, (ground arith, tt))))

-- A speed of 300 or 360, as the turns per minute, 60e9 / d, are less than 330 or not.
abbrev pub IsSpeed : ℕ → ℕ → Type 0
IsSpeed d rpm = ((rpm ≡ 300) × (60000000000 < 330 * d)) ⊎ ((rpm ≡ 360) × (330 * d ≤ 60000000000))

is_slow-IsSpeed : (d : ℕ) → IsSpeed d (if is_slow d then 300 else 360)
unfolding is_slow
is_slow-IsSpeed d = ground arith

-- For a track that takes some time, calculateRPMAndBitRate gives 300 turns per minute where there
-- are fewer than 330 and else 360, and the one of the bit rates 250, 500 and 1000 that no other is
-- nearer than to the transitions per millisecond.
pub rates_of-IsNearest :
    (transition_count d : ℕ)
    → d ≢ 0
    → (rpm rate : ℕ) × (rates_of transition_count d ≡ rates rpm rate)
      × IsSpeed d rpm
      × IsNearest (transition_count * 1000000 / d) rate
unfolding rates_of
rates_of-IsNearest transition_count d some_time = (
  (if is_slow d then 300 else 360),
  rounded_bit_rate (transition_count * 1000000 / d),
  rw (==_of_ne d 0 some_time) refl,
  is_slow-IsSpeed d,
  rounded_bit_rate-IsNearest (transition_count * 1000000 / d),
)
