-- ===== src/Mfm/Decoder/Phase.antt =====
-- The phase of the decoder of mfm/decoder.go on flux without jitter, from half-bit to half-bit.
use native.Mathlib.Nat.{add-mul, mul-le-mul_right}
use fdx.Prelude.{
  ℕ, zero, suc, ◌+◌, ◌-◌, ◌*◌, ◌%◌, ◌^◌, ◌≤◌, ◌<◌, ◌≡◌, ◌⊎◌, inl, inr, refl, ap, ap₂, sym, ◌∙◌,
  arith, Bool, true, false, Bool-cases, leb, ◌==◌, ltb_of_le, ltb_of_lt, leb_of_le, leb_of_lt,
  ==_of_ne,
}
use fdx.Prelude.{List, [], ◌∷◌, length, map}
use fdx.Mfm.Flux.Times.{ones}
use fdx.Mfm.Decoder.{
  Floats, Decoder, half_period, count_zero, accumulate, advance, adjust, decide, next_bit,
}
use fdx.Mfm.Decoder.Exact.{
  exact_bound, IsExact, is_one, IsDue, IsDue-or_none, due-head, period_ns, IsSteady, half_period_of,
  adjust-IsSteady,
}

-- The times of the ones of half-bits that begin at place `i`.
abbrev pub times_of : ℕ → ℕ → List ℕ → List ℕ
times_of q i bs = map (λ k. (k + 1) * period_ns q) (ones i bs)

-- Before half-bit `i`: no flux is left, and the next transition, if there is one, has not been taken.
pub record IsWaiting (fl : Floats) (q i : ℕ) (bs : List ℕ) (pll : Decoder fl) : Type 0 where
  pub steady : IsSteady fl q pll
  pub no_flux : pll.flux ≡ fl.float 0
  pub waiting_times : pll.transitions ≡ times_of q i bs
  pub in_time : (pll.last_time ≡ i * period_ns q) ⊎ (ones i bs ≡ [])

-- Before half-bit `i`: the transition of the next one has been taken.
pub record IsFlowing (fl : Floats) (q j i : ℕ) (bs rest : List ℕ) (pll : Decoder fl) : Type 0 where
  pub steady' : IsSteady fl q pll
  pub flux_left : pll.flux ≡ fl.float ((j + 1) * period_ns q)
  pub due : IsDue j bs rest
  pub later_times : pll.transitions ≡ times_of q (i + j + 1) rest
  pub ahead : pll.last_time ≡ (i + j + 1) * period_ns q

abbrev pub IsInPhase : (fl : Floats) → ℕ → ℕ → List ℕ → Decoder fl → Type 0
IsInPhase fl q i bs pll =
    IsWaiting fl q i bs pll ⊎ ((j : ℕ) × (rest : List ℕ) × IsFlowing fl q j i bs rest pll)

IsDue-length : (j : ℕ) (bs rest : List ℕ) → IsDue j bs rest → j + 1 ≤ length bs
IsDue-length zero (b ∷ bs) rest h = omega arith
IsDue-length (suc j) (b ∷ bs) rest h = omega (arith, IsDue-length j bs rest h.1)
IsDue-length zero [] rest h = absurd h
IsDue-length (suc j) [] rest h = absurd h

-- Half-bits without a one.
quiet-head :
    (i b : ℕ) (bs : List ℕ) → ones i (b ∷ bs) ≡ [] → (is_one b ≡ false) × (ones (i + 1) bs ≡ [])
quiet-head i b bs h = elim (Bool-cases (b == 0)) [
  | inl zero_bit ↦ (rw zero_bit refl, rw zero_bit at h)
  | inr one ↦ let some_one = rw one at h in cc
]

accumulate-enough :
    (fl : Floats) (ts : List ℕ) (pll : Decoder fl)
    → fl.less pll.flux (half_period fl pll) ≡ false
    → accumulate fl ts pll ≡ (pll, true)
unfolding accumulate
accumulate-enough fl [] pll h = rw h refl
accumulate-enough fl (t ∷ ts) pll h = rw h refl

module _ (fl : Floats) (exact : IsExact fl) (q : ℕ) (some_q : 0 < q) (small_q : q < 1000000) where
  abbrev period : ℕ
  period = period_ns q

  half-steady : (pll : Decoder fl) → IsSteady fl q pll → half_period fl pll ≡ fl.float (10 * q)
  half-steady pll (ideal, same) =
      ap (λ p. fl.div p (fl.float 2)) same ∙ half_period_of fl exact q some_q small_q

  multiple : (j : ℕ) → (j + 1) * period ≡ j * period + period
  multiple j = omega (arith, add-mul j 1 period)

  -- A period or more of flux is enough.
  flux-enough :
      (j : ℕ) (pll : Decoder fl)
      → IsSteady fl q pll
      → pll.flux ≡ fl.float ((j + 1) * period)
      → (j + 1) * period < exact_bound
      → fl.less pll.flux (half_period fl pll) ≡ false
  flux-enough j pll steady left room =
      ap₂ fl.less left (half-steady pll steady)
      ∙ exact.exact_less ((j + 1) * period) (10 * q) room (omega (arith, small_q))
      ∙ ltb_of_le ((j + 1) * period) (10 * q) (omega (arith, multiple j))

  advance-flux :
      (j : ℕ) (pll : Decoder fl)
      → IsSteady fl q pll
      → pll.flux ≡ fl.float ((j + 1) * period)
      → (j + 1) * period < exact_bound
      → (advance fl pll).flux ≡ fl.float (j * period)
  unfolding advance
  advance-flux j pll steady left room =
      ap₂ fl.sub left steady.1
      ∙ exact.exact_sub ((j + 1) * period) period (omega (arith, multiple j)) room
      ∙ ap fl.float (omega (arith, multiple j))

  advance-IsSteady : (pll : Decoder fl) → IsSteady fl q pll → IsSteady fl q (advance fl pll)
  unfolding advance
  advance-IsSteady pll steady = steady

  -- Whether the flux that is left reaches half a period.
  at_least-left :
      (n : ℕ) (pll : Decoder fl)
      → IsSteady fl q pll
      → pll.flux ≡ fl.float n
      → n < exact_bound
      → fl.at_least pll.flux (half_period fl pll) ≡ leb (10 * q) n
  at_least-left n pll steady left room =
      ap₂ fl.at_least left (half-steady pll steady)
      ∙ exact.exact_at_least n (10 * q) room (omega (arith, small_q))

  -- The one that is due.
  decide-one :
      (i b : ℕ) (bs rest : List ℕ) (pll : Decoder fl)
      → IsFlowing fl q 0 i (b ∷ bs) rest pll
      → ((decide fl (advance fl pll)).1 ≡ is_one b)
        × IsInPhase fl q (i + 1) bs (decide fl (advance fl pll)).0
  unfolding decide advance adjust count_zero
  decide-one i b bs rest pll h =
      let moved = advance fl pll in
      let steady = advance-IsSteady pll h.steady' in
      let none : moved.flux ≡ fl.float 0 =
        advance-flux 0 pll h.steady' h.flux_left (omega (arith, small_q))
        ∙ ap fl.float {x = 0 * period} (omega arith) in
      let not_left : fl.at_least moved.flux (half_period fl moved) ≡ false =
        at_least-left 0 moved steady none (omega arith)
        ∙ leb_of_lt (10 * q) 0 (omega (arith, some_q)) in
      let (kept, empty) = adjust-IsSteady fl exact q some_q small_q moved steady none in
      rw not_left (
        sym (due-head 0 b bs rest h.due),
        inl (record {
          steady = kept;
          no_flux = empty;
          waiting_times =
              h.later_times ∙ ap₂ (times_of q) {x = i + 0 + 1} (omega arith) (sym h.due.1);
          in_time = inl (h.ahead ∙ ap (λ k. k * period) {x = i + 0 + 1} (omega arith));
        }),
      )

  -- A half-bit before the one that is due.
  decide-zero :
      (j i b : ℕ) (bs rest : List ℕ) (pll : Decoder fl)
      → IsFlowing fl q (suc j) i (b ∷ bs) rest pll
      → (suc j + 1) * period < exact_bound
      → ((decide fl (advance fl pll)).1 ≡ is_one b)
        × IsInPhase fl q (i + 1) bs (decide fl (advance fl pll)).0
  unfolding decide advance adjust count_zero
  decide-zero j i b bs rest pll h room =
      let moved = advance fl pll in
      let steady = advance-IsSteady pll h.steady' in
      let left : moved.flux ≡ fl.float (suc j * period) =
        advance-flux (suc j) pll h.steady' h.flux_left room in
      let next : suc j * period ≡ (j + 1) * period =
        ap (λ k. k * period) {x = suc j} (omega arith) in
      let enough : fl.at_least moved.flux (half_period fl moved) ≡ true =
        at_least-left (suc j * period) moved steady left (omega (arith, room, multiple (suc j)))
        ∙ leb_of_le (10 * q) (suc j * period) (omega (arith, next, multiple j)) in
      rw enough (
        sym (due-head (suc j) b bs rest h.due ∙ ==_of_ne (suc j) 0 (ground arith)),
        inr (
          j,
          rest,
          record {
            steady' = steady;
            flux_left = left ∙ ap fl.float next;
            due = h.due.1;
            later_times =
                h.later_times ∙ ap (λ k. times_of q k rest) {x = i + suc j + 1} (omega arith);
            ahead = h.ahead ∙ ap (λ k. k * period) {x = i + suc j + 1} (omega arith);
          },
        ),
      )

  -- What NextBit makes of what its loop leaves.
  abbrev chosen : Decoder fl × Bool → Decoder fl × Bool
  chosen r = elim r.1 [ false ↦ (r.0, false) | true ↦ decide fl (advance fl r.0) ]

  next_bit-enough :
      (pll pll' : Decoder fl)
      → accumulate fl pll.transitions pll ≡ (pll', true)
      → next_bit fl pll ≡ decide fl (advance fl pll')
  unfolding next_bit
  next_bit-enough pll pll' e = ap chosen e

  flux-none :
      (pll : Decoder fl)
      → IsSteady fl q pll
      → pll.flux ≡ fl.float 0
      → fl.less pll.flux (half_period fl pll) ≡ true
  flux-none pll steady none =
      ap₂ fl.less none (half-steady pll steady)
      ∙ exact.exact_less 0 (10 * q) (omega arith) (omega (arith, small_q))
      ∙ ltb_of_lt 0 (10 * q) (omega (arith, some_q))

  accumulate-none :
      (pll : Decoder fl)
      → fl.less pll.flux (half_period fl pll) ≡ true
      → accumulate fl [] pll ≡ (count_zero fl pll, false)
  unfolding accumulate
  accumulate-none pll waiting = rw waiting refl

  -- The interval to the next transition is taken.
  abbrev taken : ℕ → List ℕ → ℕ → Decoder fl → Decoder fl
  taken t ts interval pll = record pll {
    transitions = ts;
    last_time = t;
    flux = fl.add pll.flux (fl.float interval);
  }

  accumulate-taken :
      (t : ℕ) (ts : List ℕ) (interval : ℕ) (pll : Decoder fl)
      → fl.less pll.flux (half_period fl pll) ≡ true
      → (t + 2 ^ 64 - pll.last_time) % 2 ^ 64 ≡ interval
      → (interval == 0) ≡ false
      → accumulate fl (t ∷ ts) pll ≡ accumulate fl ts (taken t ts interval pll)
  unfolding accumulate
  accumulate-taken t ts interval pll waiting same some_time =
      rw waiting (rw same (rw some_time refl))

  decide-flowing :
      (j i b : ℕ) (bs rest : List ℕ) (pll : Decoder fl)
      → IsFlowing fl q j i (b ∷ bs) rest pll
      → (j + 1) * period < exact_bound
      → ((decide fl (advance fl pll)).1 ≡ is_one b)
        × IsInPhase fl q (i + 1) bs (decide fl (advance fl pll)).0
  decide-flowing zero i b bs rest pll h room = decide-one i b bs rest pll h
  decide-flowing (suc j) i b bs rest pll h room = decide-zero j i b bs rest pll h room

  -- The next transition, where the flux before it is used up.
  taken-IsFlowing :
      (j i : ℕ) (bs rest : List ℕ) (pll : Decoder fl)
      → IsSteady fl q pll
      → pll.flux ≡ fl.float 0
      → IsDue j bs rest
      → (j + 1) * period < exact_bound
      → IsFlowing fl q j i bs rest
          (taken ((i + j + 1) * period) (times_of q (i + j + 1) rest) ((j + 1) * period) pll)
  taken-IsFlowing j i bs rest pll steady none due room = record {
    steady' = steady;
    flux_left =
        ap (λ f. fl.add f (fl.float ((j + 1) * period))) none
        ∙ exact.exact_add 0 ((j + 1) * period) (omega (arith, room))
        ∙ ap fl.float {x = 0 + (j + 1) * period} (omega arith);
    due = due;
    later_times = refl;
    ahead = refl;
  }

  next_bit-due :
      (j i b : ℕ) (bs rest : List ℕ) (pll : Decoder fl)
      → IsSteady fl q pll
      → pll.flux ≡ fl.float 0
      → IsDue j (b ∷ bs) rest
      → pll.transitions ≡ (i + j + 1) * period ∷ times_of q (i + j + 1) rest
      → pll.last_time ≡ i * period
      → (i + j + 1) * period < exact_bound
      → ((next_bit fl pll).1 ≡ is_one b) × IsInPhase fl q (i + 1) bs (next_bit fl pll).0
  next_bit-due j i b bs rest pll steady none due next last room =
      let t = (i + j + 1) * period in
      let ts = times_of q (i + j + 1) rest in
      let n = (j + 1) * period in
      let whole : t ≡ i * period + n =
        ap (λ k. k * period) {x = i + j + 1} {y = i + (j + 1)} (omega arith)
        ∙ add-mul i (j + 1) period in
      let same : (t + 2 ^ 64 - pll.last_time) % 2 ^ 64 ≡ n = omega (arith, last, whole, room) in
      let some_time : (n == 0) ≡ false = ==_of_ne n 0 (λ e. omega (arith, e, multiple j, some_q)) in
      let small : n < exact_bound = omega (arith, whole, room) in
      let pll' = taken t ts n pll in
      let flowing = taken-IsFlowing j i (b ∷ bs) rest pll steady none due small in
      let enough : accumulate fl pll.transitions pll ≡ (pll', true) =
        ap (λ l. accumulate fl l pll) next
        ∙ accumulate-taken t ts n pll (flux-none pll steady none) same some_time
        ∙ accumulate-enough fl ts pll' (flux-enough j pll' steady flowing.flux_left small) in
      rw (next_bit-enough pll pll' enough) (decide-flowing j i b bs rest pll' flowing small)

  next_bit-quiet :
      (i b : ℕ) (bs : List ℕ) (pll : Decoder fl)
      → IsWaiting fl q i (b ∷ bs) pll
      → ones i (b ∷ bs) ≡ []
      → ((next_bit fl pll).1 ≡ is_one b) × IsInPhase fl q (i + 1) bs (next_bit fl pll).0
  unfolding next_bit count_zero
  next_bit-quiet i b bs pll h quiet =
      let empty : pll.transitions ≡ [] = h.waiting_times ∙ ap (map (λ k. (k + 1) * period)) quiet in
      let stopped : accumulate fl pll.transitions pll ≡ (count_zero fl pll, false) =
        ap (λ l. accumulate fl l pll) empty
        ∙ accumulate-none pll (flux-none pll h.steady h.no_flux) in
      let (zero_bit, quiet') = quiet-head i b bs quiet in
      let bit : next_bit fl pll ≡ (count_zero fl pll, false) = ap chosen stopped in
      rw bit (
        sym zero_bit,
        inl (record {
          steady = h.steady;
          no_flux = h.no_flux;
          waiting_times = empty ∙ ap (map (λ k. (k + 1) * period)) (sym quiet');
          in_time = inr quiet';
        }),
      )

  -- NextBit returns the next half-bit and stays in phase.
  pub next_bit-IsInPhase :
      (i b : ℕ) (bs : List ℕ) (pll : Decoder fl)
      → IsInPhase fl q i (b ∷ bs) pll
      → (i + length (b ∷ bs)) * period < exact_bound
      → ((next_bit fl pll).1 ≡ is_one b) × IsInPhase fl q (i + 1) bs (next_bit fl pll).0
  next_bit-IsInPhase i b bs pll (inr (j, rest, h)) room =
      let fits : (j + 1) * period ≤ (i + length (b ∷ bs)) * period =
        mul-le-mul_right period (omega (arith, IsDue-length j (b ∷ bs) rest h.due)) in
      let small : (j + 1) * period < exact_bound = omega (arith, fits, room) in
      rw
        (next_bit-enough pll pll (
          accumulate-enough fl pll.transitions pll (flux-enough j pll h.steady' h.flux_left small)))
        (decide-flowing j i b bs rest pll h small)
  next_bit-IsInPhase i b bs pll (inl h) room = elim (IsDue-or_none i (b ∷ bs)) [
    | inl quiet ↦ next_bit-quiet i b bs pll h quiet
    | inr (j, rest, due, e) ↦
        let fits : (i + j + 1) * period ≤ (i + length (b ∷ bs)) * period =
          mul-le-mul_right period (omega (arith, IsDue-length j (b ∷ bs) rest due)) in
        let last : pll.last_time ≡ i * period = elim h.in_time [
          | inl same ↦ same
          | inr none ↦ cc
        ] in
        next_bit-due j i b bs rest pll h.steady h.no_flux due
          (h.waiting_times ∙ ap (map (λ k. (k + 1) * period)) e) last (omega (arith, fits, room))
  ]
