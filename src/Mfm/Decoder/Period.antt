-- ===== src/Mfm/Decoder/Period.antt =====
-- The period of the decoder in mfm/decoder.go.
use fdx.Prelude.{
  ℕ, zero, suc, ◌+◌, ◌-◌, ◌%◌, ◌^◌, ◌≡◌, refl, sym, subst, false, Bool-cases, inl, inr, ◌==◌,
}
use fdx.Prelude.{List, [], ◌∷◌}
use fdx.Mfm.Decoder.{
  Floats, Decoder, period_of, new_decoder, half_period, count_zero, accumulate, advance, min_period,
  max_period, clamp_min, clamp_max, clamped, adjusted_period, adjust, decide, next_bit, after_bits,
}

-- What is used of floats: a number is not less than itself, and 90 % and 110 % of the period at a bit
-- rate are on their sides of it.
pub record Laws (fl : Floats) : Type 0 where
  pub less_irreflexive : (x : fl.F) → fl.less x x ≡ false
  pub min_below :
      (rate : ℕ) → fl.less (period_of fl rate) (min_period fl (period_of fl rate)) ≡ false
  pub max_above :
      (rate : ℕ) → fl.less (max_period fl (period_of fl rate)) (period_of fl rate) ≡ false
  pub max_above_min :
      (rate : ℕ)
      → fl.less (max_period fl (period_of fl rate)) (min_period fl (period_of fl rate)) ≡ false

module _ (fl : Floats) (laws : Laws fl) (rate : ℕ) where
  abbrev ideal : fl.F
  ideal = period_of fl rate

  -- Neither below 90 % nor above 110 % of the period at the rate.
  abbrev pub IsNear : fl.F → Type 0
  IsNear p = (fl.less p (min_period fl ideal) ≡ false) × (fl.less (max_period fl ideal) p ≡ false)

  abbrev pub IsLocked : Decoder fl → Type 0
  IsLocked pll = (pll.period_ideal ≡ ideal) × IsNear (pll.period)

  clamp_min-Near :
      (p : fl.F) → fl.less (clamp_min fl (min_period fl ideal) p) (min_period fl ideal) ≡ false
  unfolding clamp_min
  clamp_min-Near p = elim (Bool-cases (fl.less p (min_period fl ideal))) [
    | inl low ↦ rw low (laws.less_irreflexive (min_period fl ideal))
    | inr e ↦ rw e e
  ]

  clamp_max-Near :
      (p : fl.F)
      → fl.less p (min_period fl ideal) ≡ false
      → IsNear (clamp_max fl (max_period fl ideal) p)
  unfolding clamp_max
  clamp_max-Near p h = elim (Bool-cases (fl.less (max_period fl ideal) p)) [
    | inl high ↦ rw high (laws.max_above_min rate, laws.less_irreflexive (max_period fl ideal))
    | inr e ↦ rw e (h, e)
  ]

  clamped-Near : (p : fl.F) → IsNear (clamped fl ideal p)
  unfolding clamped
  clamped-Near p = clamp_max-Near (clamp_min fl (min_period fl ideal) p) (clamp_min-Near p)

  adjust-Locked : (pll : Decoder fl) → IsLocked pll → IsLocked (adjust fl pll)
  unfolding adjust
  adjust-Locked pll (same, near) = (
    same,
    subst (λ i. IsNear (clamped fl i (adjusted_period fl pll))) (sym same)
        (clamped-Near (adjusted_period fl pll)),
  )

  decide-Locked : (pll : Decoder fl) → IsLocked pll → IsLocked (decide fl pll).0
  unfolding decide count_zero
  decide-Locked pll h = elim (Bool-cases (fl.at_least pll.flux (half_period fl pll))) [
    | inl zero_bit ↦ rw zero_bit h
    | inr one_bit ↦ rw one_bit (adjust-Locked pll h)
  ]

  accumulate-Locked :
      (ts : List ℕ) (pll : Decoder fl) → IsLocked pll → IsLocked (accumulate fl ts pll).0
  unfolding accumulate count_zero
  accumulate-Locked [] pll h = elim (Bool-cases (fl.less pll.flux (half_period fl pll))) [
    | inl waiting ↦ rw waiting h
    | inr enough ↦ rw enough h
  ]
  accumulate-Locked (next_time ∷ ts) pll h =
      let interval = (next_time + 2 ^ 64 - pll.last_time) % 2 ^ 64 in
      elim (Bool-cases (fl.less pll.flux (half_period fl pll))) [
        | inr enough ↦ rw enough h
        | inl waiting ↦ rw waiting (elim (Bool-cases (interval == 0)) [
          | inl stop ↦ rw stop h
          | inr some_time ↦ rw some_time (accumulate-Locked ts _ h)
        ])
      ]

  next_bit-Locked : (pll : Decoder fl) → IsLocked pll → IsLocked (next_bit fl pll).0
  unfolding next_bit advance
  next_bit-Locked pll h =
      let kept = accumulate-Locked pll.transitions pll h in
      elim (Bool-cases (accumulate fl pll.transitions pll).1) [
        | inl more ↦
            rw (more, next_bit)
              (decide-Locked (advance fl (accumulate fl pll.transitions pll).0) kept)
        | inr none ↦ rw (none, next_bit) kept
      ]

  after_bits-Locked : (n : ℕ) (pll : Decoder fl) → IsLocked pll → IsLocked (after_bits fl n pll)
  unfolding after_bits
  after_bits-Locked zero pll h = h
  after_bits-Locked (suc n) pll h = after_bits-Locked n (next_bit fl pll).0 (next_bit-Locked pll h)

  -- After any number of bits that NextBit of a new decoder returns, whatever the transitions are,
  -- its period is not below 90 % and not above 110 % of that of the bit rate; of floats this uses
  -- that no number is less than itself and that these bounds are on their sides of the period.
  pub new_decoder-IsNear :
      (transitions : List ℕ) (n : ℕ)
      → IsNear (after_bits fl n (new_decoder fl transitions rate)).period
  unfolding new_decoder
  new_decoder-IsNear transitions n =
      (after_bits-Locked n (new_decoder fl transitions rate)
        (refl, (laws.min_below rate, laws.max_above rate))).1
