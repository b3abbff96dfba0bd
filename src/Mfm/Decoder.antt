-- ===== src/Mfm/Decoder.antt =====
-- mfm/decoder.go: the phase-locked loop that decodes flux transitions into bits. The floats are those
-- of an interface.
pub mod Period
pub mod Exact
pub mod Phase
use fdx.Prelude.{
  ℕ, zero, suc, ◌+◌, ◌-◌, ◌*◌, ◌%◌, ◌^◌, Bool, true, false, not, if◌then◌else◌, ltb, leb, ◌==◌,
}
use fdx.Prelude.{List, [], ◌∷◌}

-- `float64`, with the conversion from integers and the comparison.
pub record Floats : Type 1 where
  pub F : Type 0
  pub float : ℕ → F
  pub add : F → F → F
  pub sub : F → F → F
  pub mul : F → F → F
  pub div : F → F → F
  pub less : F → F → Bool
  pub at_least : F → F → Bool

module _ (fl : Floats) where
  -- `transitions` are those from `index` on.
  pub record Decoder : Type 0 where
    pub period_ideal : fl.F
    pub period : fl.F
    pub flux : fl.F
    pub time : fl.F
    pub clocked_zeros : ℕ
    pub transitions : List ℕ
    pub last_time : ℕ

  -- `1e6 / float64(bitRateKhz) / 2`
  abbrev pub period_of : ℕ → fl.F
  period_of bit_rate_khz = fl.div (fl.div (fl.float 1000000) (fl.float bit_rate_khz)) (fl.float 2)

  unfoldable pub new_decoder : List ℕ → ℕ → Decoder
  new_decoder transitions bit_rate_khz = record {
    period_ideal = period_of bit_rate_khz;
    period = period_of bit_rate_khz;
    flux = fl.float 0;
    time = fl.float 0;
    clocked_zeros = 0;
    transitions = transitions;
    last_time = 0;
  }

  unfoldable pub is_done : Decoder → Bool
  is_done pll = elim (pll.transitions) [ [] ↦ true | t ∷ ts ↦ false ]

  -- `pll.Period/2`
  abbrev pub half_period : Decoder → fl.F
  half_period pll = fl.div pll.period (fl.float 2)

  -- A clocked zero.
  unfoldable pub count_zero : Decoder → Decoder
  count_zero pll = record pll { clocked_zeros = pll.clocked_zeros + 1 }

  -- The loop of `NextBit`, which takes transitions with `NextFlux` as long as the flux is less than
  -- half a period; `false` is its return without more transitions, or at an interval of zero.
  -- Intervals are differences of 64 bits.
  unfoldable pub accumulate : List ℕ → Decoder → Decoder × Bool
  accumulate [] pll =
      if fl.less pll.flux (half_period pll) then (count_zero pll, false) else (pll, true)
  accumulate (next_time ∷ ts) pll =
      let interval = (next_time + 2 ^ 64 - pll.last_time) % 2 ^ 64 in
      let taken = record pll { transitions = ts; last_time = next_time } in
      let later = accumulate ts (record taken { flux = fl.add pll.flux (fl.float interval) }) in
      if not (fl.less pll.flux (half_period pll))
      then (pll, true)
      else if interval == 0
      then (count_zero taken, false)
      else later

  -- The time advanced by one period.
  unfoldable pub advance : Decoder → Decoder
  advance pll = record pll { time = fl.add pll.time pll.period; flux = fl.sub pll.flux pll.period }

  abbrev pub percent : fl.F → ℕ → fl.F
  percent x n = fl.div (fl.mul x (fl.float n)) (fl.float 100)

  -- The period adjusted by a fraction of the mismatch, or towards the ideal one.
  unfoldable pub adjusted_period : Decoder → fl.F
  adjusted_period pll =
      if leb pll.clocked_zeros 3
      then fl.add pll.period (percent pll.flux 5)
      else fl.add pll.period (percent (fl.sub pll.period_ideal pll.period) 5)

  unfoldable pub min_period : fl.F → fl.F
  min_period ideal = percent ideal 90

  unfoldable pub max_period : fl.F → fl.F
  max_period ideal = percent ideal 110

  unfoldable pub clamp_min : fl.F → fl.F → fl.F
  clamp_min p_min p = if fl.less p p_min then p_min else p

  unfoldable pub clamp_max : fl.F → fl.F → fl.F
  clamp_max p_max p = if fl.less p_max p then p_max else p

  unfoldable pub clamped : fl.F → fl.F → fl.F
  clamped ideal p = clamp_max (max_period ideal) (clamp_min (min_period ideal) p)

  -- The clock adjusted at a transition.
  unfoldable pub adjust : Decoder → Decoder
  adjust pll =
      let new_flux = percent pll.flux 40 in
      record pll {
        period = clamped pll.period_ideal (adjusted_period pll);
        time = fl.add pll.time (fl.sub pll.flux new_flux);
        flux = new_flux;
        clocked_zeros = 0;
      }

  -- What follows the loop.
  unfoldable pub decide : Decoder → Decoder × Bool
  decide pll =
      if fl.at_least pll.flux (half_period pll) then (count_zero pll, false) else (adjust pll, true)

  unfoldable pub next_bit : Decoder → Decoder × Bool
  next_bit pll =
      let (pll', more) = accumulate pll.transitions pll in
      elim more [ false ↦ (pll', false) | true ↦ decide (advance pll') ]

  -- The state after some bits.
  unfoldable pub after_bits : ℕ → Decoder → Decoder
  after_bits zero pll = pll
  after_bits (suc n) pll = after_bits n (next_bit pll).0
