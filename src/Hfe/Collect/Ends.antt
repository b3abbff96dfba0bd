-- ===== src/Hfe/Collect/Ends.antt =====
-- The loop that collects sectors ends, on any track.
use fdx.Prelude.{ℕ, zero, suc, ◌<◌, ◌≡◌, refl, arith, Bool-cases, inl, inr, leb, List, [], length}
use fdx.Prelude.Int.{ℤ}
use fdx.Mfm.Reader.{Reader, Read, M, got, failed, stuck, fuel_for}
use fdx.Mfm.Reader.Ends.{left, Costs, CostsAlways}
use fdx.Hfe.Collect.{collect, collect_loop, keep_sector}

abbrev Sectors : Type 0
Sectors = List (ℕ × List ℕ)

-- The outcome is a map.
abbrev pub Collects : Read Sectors → Type 0
Collects x = (m : Sectors) × (r' : Reader) × (x ≡ got m r')

collect_read :
    (k n : ℕ) (loop : Sectors → M Sectors) (m : Sectors) (x : Read (ℤ × List ℕ))
    → ((m' : Sectors) (r : Reader) → left r < k → Collects (loop m' r))
    → Costs k x
    → Collects
        (elim x [ got s r' ↦ loop (keep_sector n s m) r' | failed r' ↦ got m r' | stuck ↦ stuck ])
collect_read k n loop m (got s r') all e = all (keep_sector n s m) r' e
collect_read k n loop m (failed r') all e = (m, r', refl)
collect_read k n loop m stuck all e = absurd e

collect_loop-Collects :
    (fuel n : ℕ) (read : M (ℤ × List ℕ)) (m : Sectors) (r : Reader)
    → CostsAlways read
    → left r < fuel
    → Collects (collect_loop fuel n read m r)
unfolding collect_loop
collect_loop-Collects zero n read m r h f = absurd (omega arith)
collect_loop-Collects (suc fuel) n read m r h f = elim (Bool-cases (leb n (length m))) [
  | inl full ↦ rw (full, collect_loop) (m, r, refl)
  | inr more ↦
      rw (more, collect_loop)
        (collect_read (left r) n (collect_loop fuel n read) m (read r)
          (λ m' r' lt. collect_loop-Collects fuel n read m' r' h (omega arith)) (h r))
]

-- With a reader that takes a half-bit at least, a map is returned.
pub collect-Collects :
    (n : ℕ) (read : M (ℤ × List ℕ)) (r : Reader) → CostsAlways read → Collects (collect n read r)
unfolding collect fuel_for
collect-Collects n read r h = collect_loop-Collects (fuel_for r) n read [] r h (omega arith)
