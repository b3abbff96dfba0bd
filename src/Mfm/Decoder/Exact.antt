-- ===== src/Mfm/Decoder/Exact.antt =====
-- The decoder of mfm/decoder.go on flux without jitter: every transition is a whole number of periods
-- behind the one before.
use fdx.Prelude.{
  ℕ, zero, suc, ◌+◌, ◌-◌, ◌*◌, ◌≤◌, ◌<◌, ◌≡◌, ◌⊎◌, inl, inr, refl, ap, ap₂, sym, subst, ◌∙◌, arith,
  Bool, true, false, not, Bool-cases, leb, ltb, ◌==◌, ltb_of_le, ==_of_ne,
}
use fdx.Prelude.{List, [], ◌∷◌}
use fdx.Mfm.Flux.Times.{ones}
use fdx.Mfm.Decoder.{
  Floats, Decoder, percent, adjusted_period, min_period, max_period, clamp_min, clamp_max, clamped,
  adjust,
}

abbrev pub exact_bound : ℕ
exact_bound = 9007199254740992

-- Whole numbers below 2 ^ 53 are floats: an operation whose result is one gives it, and they compare
-- as numbers.
pub record IsExact (fl : Floats) : Type 0 where
  pub exact_add :
      (a b : ℕ) → a + b < exact_bound → fl.add (fl.float a) (fl.float b) ≡ fl.float (a + b)
  pub exact_sub :
      (a b : ℕ) → b ≤ a → a < exact_bound → fl.sub (fl.float a) (fl.float b) ≡ fl.float (a - b)
  pub exact_mul :
      (a b : ℕ) → a * b < exact_bound → fl.mul (fl.float a) (fl.float b) ≡ fl.float (a * b)
  pub exact_div :
      (a b : ℕ) → 0 < b → a * b < exact_bound → fl.div (fl.float (a * b)) (fl.float b) ≡ fl.float a
  pub exact_less :
      (a b : ℕ) → a < exact_bound → b < exact_bound → fl.less (fl.float a) (fl.float b) ≡ ltb a b
  pub exact_at_least :
      (a b : ℕ)
      → a < exact_bound
      → b < exact_bound
      → fl.at_least (fl.float a) (fl.float b) ≡ leb b a

abbrev pub is_one : ℕ → Bool
is_one b = not (b == 0)

-- The first one of the half-bits is behind `j` others, and `rest` is behind it.
abbrev pub IsDue : ℕ → List ℕ → List ℕ → Type 0
IsDue zero (b ∷ bs) rest = ((b == 0) ≡ false) × (bs ≡ rest)
IsDue (suc j) (b ∷ bs) rest = ((b == 0) ≡ true) × IsDue j bs rest
IsDue j [] rest = ⊥

pub IsDue-or_none :
    (i : ℕ) (bs : List ℕ)
    → (ones i bs ≡ [])
      ⊎ ((j : ℕ) × (rest : List ℕ) × IsDue j bs rest
          × (ones i bs ≡ (i + j) ∷ ones (i + j + 1) rest))
IsDue-or_none i [] = inl refl
IsDue-or_none i (b ∷ bs) = elim (Bool-cases (b == 0)) [
  | inr one ↦
      inr (0, bs, (one, refl), rw one (ap₂ (λ k m. k ∷ ones m bs) (omega arith) (omega arith)))
  | inl zero_bit ↦ elim (IsDue-or_none (i + 1) bs) [
    | inl none ↦ inl (rw zero_bit none)
    | inr (j, rest, due, e) ↦ inr (
      suc j,
      rest,
      (zero_bit, due),
      rw zero_bit (e ∙ ap₂ (λ k m. k ∷ ones m rest) (omega arith) (omega arith)),
    )
  ]
]

-- The first half-bit, where a one is due.
pub due-head : (j : ℕ) (b : ℕ) (bs rest : List ℕ) → IsDue j (b ∷ bs) rest → is_one b ≡ (j == 0)
due-head zero b bs rest h = rw h.0 refl
due-head (suc j) b bs rest h = rw h.0 (sym (==_of_ne (suc j) 0 (ground arith)))

-- A period that is a multiple of 20, so that its half, 90 % and 110 % are whole.
abbrev pub period_ns : ℕ → ℕ
period_ns q = 20 * q

-- The period is the ideal one.
abbrev pub IsSteady : (fl : Floats) → ℕ → Decoder fl → Type 0
IsSteady fl q pll =
    (pll.period_ideal ≡ fl.float (period_ns q)) × (pll.period ≡ fl.float (period_ns q))

module _ (fl : Floats) (exact : IsExact fl) (q : ℕ) (some_q : 0 < q) (small_q : q < 1000000) where
  abbrev period : ℕ
  period = period_ns q

  percent_of :
      (a n m : ℕ) → a * n ≡ m * 100 → a * n < exact_bound → percent fl (fl.float a) n ≡ fl.float m
  percent_of a n m same small =
      ap (λ x. fl.div x (fl.float 100)) (exact.exact_mul a n small ∙ ap fl.float same)
      ∙ exact.exact_div m 100 (omega arith) (subst (λ x. x < exact_bound) same small)

  -- Half a period, and the zero that each correction is.
  pub half_period_of : fl.div (fl.float period) (fl.float 2) ≡ fl.float (10 * q)
  half_period_of =
      ap (λ x. fl.div (fl.float x) (fl.float 2)) {x = period} {y = 10 * q * 2} (omega arith)
      ∙ exact.exact_div (10 * q) 2 (omega arith) (omega (arith, small_q))

  percent_zero : (n : ℕ) → percent fl (fl.float 0) n ≡ fl.float 0
  percent_zero n = percent_of 0 n 0 (omega arith) (omega arith)

  clamped_period : clamped fl (fl.float period) (fl.float period) ≡ fl.float period
  unfolding clamped clamp_min clamp_max min_period max_period
  clamped_period =
      let low = percent_of period 90 (18 * q) (omega arith) (omega (arith, small_q)) in
      let high = percent_of period 110 (22 * q) (omega arith) (omega (arith, small_q)) in
      let not_low : fl.less (fl.float period) (percent fl (fl.float period) 90) ≡ false =
        ap (fl.less (fl.float period)) low
        ∙ exact.exact_less period (18 * q) (omega (arith, small_q)) (omega (arith, small_q))
        ∙ ltb_of_le period (18 * q) (omega arith) in
      let not_high : fl.less (percent fl (fl.float period) 110) (fl.float period) ≡ false =
        ap (λ x. fl.less x (fl.float period)) high
        ∙ exact.exact_less (22 * q) period (omega (arith, small_q)) (omega (arith, small_q))
        ∙ ltb_of_le (22 * q) period (omega arith) in
      rw not_low (rw not_high refl)

  add_zero : fl.add (fl.float period) (fl.float 0) ≡ fl.float period
  add_zero =
      exact.exact_add period 0 (omega (arith, small_q)) ∙ ap fl.float {x = period + 0} (omega arith)

  adjusted_period-steady :
      (pll : Decoder fl)
      → IsSteady fl q pll
      → pll.flux ≡ fl.float 0
      → adjusted_period fl pll ≡ fl.float period
  unfolding adjusted_period
  adjusted_period-steady pll (ideal, same) none =
      let in_sync : fl.add pll.period (percent fl pll.flux 5) ≡ fl.float period =
        ap₂ fl.add same (ap (λ x. percent fl x 5) none ∙ percent_zero 5) ∙ add_zero in
      let difference : fl.sub pll.period_ideal pll.period ≡ fl.float 0 =
        ap₂ fl.sub ideal same
        ∙ exact.exact_sub period period (omega arith) (omega (arith, small_q))
        ∙ ap fl.float {x = period - period} (omega arith) in
      let out : fl.add pll.period (percent fl (fl.sub pll.period_ideal pll.period) 5)
          ≡ fl.float period =
        ap₂ fl.add same (ap (λ x. percent fl x 5) difference ∙ percent_zero 5) ∙ add_zero in
      elim (Bool-cases (leb pll.clocked_zeros 3)) [
        | inl few ↦ rw few in_sync
        | inr many ↦ rw many out
      ]

  pub adjust-IsSteady :
      (pll : Decoder fl)
      → IsSteady fl q pll
      → pll.flux ≡ fl.float 0
      → IsSteady fl q (adjust fl pll) × ((adjust fl pll).flux ≡ fl.float 0)
  unfolding adjust
  adjust-IsSteady pll (ideal, same) none = (
    (
      ideal,
      ap₂ (clamped fl) ideal (adjusted_period-steady pll (ideal, same) none) ∙ clamped_period,
    ),
    ap (λ x. percent fl x 40) none ∙ percent_zero 40,
  )
