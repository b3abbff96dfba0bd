-- ===== src/Kryoflux/Cells/Decoded.antt =====
-- The bitcells that kryoflux/read.go takes from the decoder of mfm/decoder.go are the half-bits whose
-- transitions mfm/encoder.go gives.
use fdx.Prelude.{
  ℕ, zero, suc, ◌+◌, ◌*◌, ◌≤◌, ◌<◌, ◌≡◌, inl, inr, refl, ap, ap₂, ◌∙◌, arith, Bool, true, false,
  Bool-cases, ◌==◌,
}
use fdx.Prelude.{List, [], ◌∷◌, ◌++◌, length, map, take, drop, some}
use native.Mathlib.Nat.{mul-le-mul_right}
use fdx.Mfm.Flux.Times.{ones}
use fdx.Mfm.Decoder.{Floats, Decoder, is_done, next_bit}
use fdx.Mfm.Decoder.Exact.{exact_bound, IsExact, is_one, IsDue, period_ns}
use fdx.Mfm.Decoder.Phase.{IsInPhase, times_of, next_bit-IsInPhase}
use fdx.Kryoflux.Cells.{cells_from}

-- The half-bits as bitcells, and the zero that the decoder gives behind them.
abbrev pub cells_of : List ℕ → List Bool
cells_of bs = map is_one bs ++ (false ∷ [])

-- The first `n` bitcells, where no more than one of the ones is behind them.
abbrev pub IsDecoded : List ℕ → List Bool → Type 0
IsDecoded bs bitcells =
    (n : ℕ) × (bitcells ≡ take n (cells_of bs)) × (length (ones 0 (drop n bs)) ≤ 1)

-- How many ones there are does not depend on the place that they are counted from.
pub length-ones : (i k : ℕ) (bs : List ℕ) → length (ones i bs) ≡ length (ones k bs)
length-ones i k [] = refl
length-ones i k (b ∷ bs) = elim (Bool-cases (b == 0)) [
  | inl zero_bit ↦ rw zero_bit (length-ones (i + 1) (k + 1) bs)
  | inr one ↦ rw one (ap suc (length-ones (i + 1) (k + 1) bs))
]

ones-due :
    (j i : ℕ) (bs rest : List ℕ) → IsDue j bs rest → length (ones i bs) ≡ suc (length (ones i rest))
ones-due zero i (b ∷ bs) rest h =
    rw h.0 (ap suc (length-ones (i + 1) i bs ∙ ap (λ l. length (ones i l)) h.1))
ones-due (suc j) i (b ∷ bs) rest h = rw h.0 (length-ones (i + 1) i bs ∙ ones-due j i bs rest h.1)
ones-due zero i [] rest h = absurd h
ones-due (suc j) i [] rest h = absurd h

map_empty : (f : ℕ → ℕ) (xs : List ℕ) → map f xs ≡ [] → xs ≡ []
map_empty f [] h = refl
map_empty f (x ∷ xs) h = cc

due-empty : (j : ℕ) (rest : List ℕ) → IsDue j [] rest → ⊥
due-empty zero rest h = h
due-empty (suc j) rest h = h

module _ (fl : Floats) where
  is_done-empty : (pll : Decoder fl) → pll.transitions ≡ [] → is_done fl pll ≡ true
  unfolding is_done
  is_done-empty pll h = rw h refl

  is_done_iff_empty :
      (pll : Decoder fl) (ts : List ℕ) → pll.transitions ≡ ts → is_done fl pll ≡ true → ts ≡ []
  unfolding is_done
  is_done_iff_empty pll [] e h = refl
  is_done_iff_empty pll (t ∷ ts) e h = let more = rw e at h in cc

  cells_from-done :
      (fuel : ℕ) (pll : Decoder fl) → is_done fl pll ≡ true → cells_from fl (suc fuel) pll ≡ some []
  unfolding cells_from
  cells_from-done fuel pll h = rw (h, cells_from) refl

  -- One round.
  cells_from-round :
      (fuel : ℕ) (pll : Decoder fl) (bitcells : List Bool)
      → is_done fl pll ≡ false
      → cells_from fl fuel (next_bit fl (next_bit fl pll).0).0 ≡ some bitcells
      → cells_from fl (suc fuel) pll
        ≡ some ((next_bit fl pll).1 ∷ (next_bit fl (next_bit fl pll).0).1 ∷ bitcells)
  unfolding cells_from
  cells_from-round fuel pll bitcells more later =
      rw (more, cells_from) (rw (later, cells_from) refl)

module _ (fl : Floats) (exact : IsExact fl) (q : ℕ) (some_q : 0 < q) (small_q : q < 1000000) where
  -- Without transitions to take, one of the ones is left at most.
  done-ones :
      (i : ℕ) (bs : List ℕ) (pll : Decoder fl)
      → IsInPhase fl q i bs pll
      → is_done fl pll ≡ true
      → length (ones 0 bs) ≤ 1
  done-ones i bs pll (inl h) done =
      let none : ones i bs ≡ [] =
        map_empty (λ k. (k + 1) * period_ns q) (ones i bs)
          (is_done_iff_empty fl pll (times_of q i bs) h.waiting_times done) in
      omega (arith, length-ones 0 i bs, ap length none)
  done-ones i bs pll (inr (j, rest, h)) done =
      let none : ones (i + j + 1) rest ≡ [] =
        map_empty (λ k. (k + 1) * period_ns q) (ones (i + j + 1) rest)
          (is_done_iff_empty fl pll (times_of q (i + j + 1) rest) h.later_times done) in
      omega (arith, ones-due j 0 bs rest h.due, length-ones 0 (i + j + 1) rest, ap length none)

  past-end : (i : ℕ) (pll : Decoder fl) → IsInPhase fl q i [] pll → IsInPhase fl q i (0 ∷ []) pll
  past-end i pll (inl h) = inl (record {
    steady = h.steady;
    no_flux = h.no_flux;
    waiting_times = h.waiting_times;
    in_time = h.in_time;
  })
  past-end i pll (inr (j, rest, h)) = absurd (due-empty j rest h.due)

  end-done : (i : ℕ) (pll : Decoder fl) → IsInPhase fl q i [] pll → is_done fl pll ≡ true
  end-done i pll (inl h) = is_done-empty fl pll h.waiting_times
  end-done i pll (inr (j, rest, h)) = absurd (due-empty j rest h.due)

  step :
      (i b : ℕ) (bs : List ℕ) (pll : Decoder fl)
      → IsInPhase fl q i (b ∷ bs) pll
      → (i + length (b ∷ bs)) * period_ns q < exact_bound
      → ((next_bit fl pll).1 ≡ is_one b) × IsInPhase fl q (i + 1) bs (next_bit fl pll).0
  step = next_bit-IsInPhase fl exact q some_q small_q

  at_most : (m n : ℕ) → m ≤ n → n * period_ns q < exact_bound → m * period_ns q < exact_bound
  at_most m n h room = omega (arith, room, mul-le-mul_right (period_ns q) h)

  pub cells_from-IsDecoded :
      (fuel i : ℕ) (bs : List ℕ) (pll : Decoder fl)
      → IsInPhase fl q i bs pll
      → (i + length bs + 2) * period_ns q < exact_bound
      → length bs + 1 < 2 * fuel
      → (bitcells : List Bool) × (cells_from fl fuel pll ≡ some bitcells) × IsDecoded bs bitcells
  cells_from-IsDecoded zero i bs pll h room enough = absurd (omega (arith, enough))
  cells_from-IsDecoded (suc fuel) i [] pll h room enough =
      ([], cells_from-done fl fuel pll (end-done i pll h), (0, refl, omega arith))
  cells_from-IsDecoded (suc zero) i (b ∷ bs) pll h room enough = absurd (omega (arith, enough))
  cells_from-IsDecoded (suc (suc fuel)) i (b ∷ []) pll h room enough =
      elim (Bool-cases (is_done fl pll)) [
        | inl done ↦
            ([], cells_from-done fl (suc fuel) pll done, (0, refl, done-ones i (b ∷ []) pll h done))
        | inr more ↦
            let (first, later) = step i b [] pll h (at_most _ _ (omega arith) room) in
            let pll1 = (next_bit fl pll).0 in
            let (second, last) =
              step (i + 1) 0 [] pll1 (past-end (i + 1) pll1 later)
                (at_most _ _ (omega arith) room) in
            (
              is_one b ∷ false ∷ [],
              cells_from-round fl (suc fuel) pll [] more
                    (cells_from-done fl fuel _ (end-done (i + 1 + 1) _ last))
                  ∙ ap₂ (λ x y. some (x ∷ y ∷ [])) first second,
              (2, refl, omega arith),
            )
      ]
  cells_from-IsDecoded (suc (suc fuel)) i (b ∷ c ∷ bs) pll h room enough =
      elim (Bool-cases (is_done fl pll)) [
        | inl done ↦ (
          [],
          cells_from-done fl (suc fuel) pll done,
          (0, refl, done-ones i (b ∷ c ∷ bs) pll h done),
        )
        | inr more ↦
            let (first, later) = step i b (c ∷ bs) pll h (at_most _ _ (omega arith) room) in
            let pll1 = (next_bit fl pll).0 in
            let (second, last) = step (i + 1) c bs pll1 later (at_most _ _ (omega arith) room) in
            let (bitcells, read, (n, same, few)) =
              cells_from-IsDecoded (suc fuel) (i + 1 + 1) bs (next_bit fl pll1).0 last
                (at_most _ _ (omega arith) room) (omega (arith, enough)) in
            (
              is_one b ∷ is_one c ∷ bitcells,
              cells_from-round fl (suc fuel) pll bitcells more read
                  ∙ ap₂ (λ x y. some (x ∷ y ∷ bitcells)) first second,
              (suc (suc n), ap (λ l. is_one b ∷ is_one c ∷ l) same, few),
            )
      ]
