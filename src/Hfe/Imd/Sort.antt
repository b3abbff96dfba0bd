-- ===== src/Hfe/Imd/Sort.antt =====
-- hfe/imd.go: the exchange sort of writeIMDTrack puts the sector numbers in ascending order.
use mathlib.Core.Logic.Or
use mathlib.Core.List.{Perm, Mem, mem-cons, not-mem-nil}
use native.Mathlib.Bridge.{le_prop}
use mathlib.Core.List.Perm
use fdx.Prelude.{
  ℕ, zero, suc, ◌-◌, ◌≤◌, ◌≡◌, refl, ap, arith, Bool-cases, inl, inr, ltb, ltb_of_le, lt_of_ltb,
  le_of_ltb, All,
}
use fdx.Prelude.{List, [], ◌∷◌, length}
use fdx.Hfe.Imd.Write.{sweep, sort_numbers}

-- Every number is at most those behind it.
abbrev pub IsAscending : List ℕ → Type 0
IsAscending [] = Unit
IsAscending (x ∷ xs) = All (λ y. x ≤ y) xs × IsAscending xs

pub length-sweep : (x : ℕ) (xs : List ℕ) → length (sweep x xs).1 ≡ length xs
unfolding sweep
length-sweep x [] = refl
length-sweep x (y ∷ ys) = ground (arith, length-sweep x ys, length-sweep y ys)

sweep_below : (x : ℕ) (xs : List ℕ) → (sweep x xs).0 ≤ x
unfolding sweep
sweep_below x [] = omega arith
sweep_below x (y ∷ ys) = ground (arith, sweep_below x ys, sweep_below y ys)

sweep-All : (x : ℕ) (xs : List ℕ) → All (λ y. (sweep x xs).0 ≤ y) (sweep x xs).1
unfolding sweep
sweep-All x [] = tt
sweep-All x (y ∷ ys) = elim (Bool-cases (ltb y x)) [
  | inl e ↦ rw e (omega (arith, sweep_below y ys, lt_of_ltb y x e), sweep-All y ys)
  | inr e ↦ rw e (omega (arith, sweep_below x ys, le_of_ltb y x e), sweep-All x ys)
]

sweep-perm : (x : ℕ) (xs : List ℕ) → Perm ((sweep x xs).0 ∷ (sweep x xs).1) (x ∷ xs)
unfolding sweep
sweep-perm x [] = Perm.refl (x ∷ [])
sweep-perm x (y ∷ ys) = elim (Bool-cases (ltb y x)) [
  | inl e ↦ rw e (Perm.trans (Perm.swap _ _ _) (Perm.cons x (sweep-perm y ys)))
  | inr e ↦
      rw e (
        Perm.trans (Perm.swap _ _ _) (Perm.trans (Perm.cons y (sweep-perm x ys)) (Perm.swap _ _ _)))
]

le_of_mem : (m a : ℕ) (xs : List ℕ) → All (λ y. m ≤ y) xs → Mem a xs → m ≤ a
le_of_mem m a [] h p = absurd (not-mem-nil p)
le_of_mem m a (x ∷ xs) h p = Or.elim le_prop (mem-cons.0 p) (λ e. rw e h.0) (le_of_mem m a xs h.1)

All-mem : (m : ℕ) (xs : List ℕ) → ((a : ℕ) → Mem a xs → m ≤ a) → All (λ y. m ≤ y) xs
All-mem m [] h = tt
All-mem m (x ∷ xs) h =
    (h x (mem-cons.1 (Or.inl refl)), All-mem m xs (λ a p. h a (mem-cons.1 (Or.inr p))))

All-perm : (m : ℕ) (xs ys : List ℕ) → Perm xs ys → All (λ y. m ≤ y) xs → All (λ y. m ≤ y) ys
All-perm m xs ys p h = All-mem m ys (λ a q. le_of_mem m a xs h ((Perm.mem_iff p).1 q))

pub sort_numbers-perm : (n : ℕ) (xs : List ℕ) → Perm (sort_numbers n xs) xs
unfolding sort_numbers
sort_numbers-perm zero xs = Perm.refl xs
sort_numbers-perm (suc n) [] = Perm.refl []
sort_numbers-perm (suc n) (x ∷ xs) =
    Perm.trans (Perm.cons (sweep x xs).0 (sort_numbers-perm n (sweep x xs).1)) (sweep-perm x xs)

sort_numbers-IsAscending :
    (n : ℕ) (xs : List ℕ) → length xs ≤ suc n → IsAscending (sort_numbers n xs)
unfolding sort_numbers
sort_numbers-IsAscending zero [] h = tt
sort_numbers-IsAscending zero (x ∷ []) h = (tt, tt)
sort_numbers-IsAscending zero (x ∷ y ∷ xs) h = absurd (omega arith)
sort_numbers-IsAscending (suc n) [] h = tt
sort_numbers-IsAscending (suc n) (x ∷ xs) h = (
  All-perm _ _ _ (Perm.symm (sort_numbers-perm n (sweep x xs).1)) (sweep-All x xs),
  sort_numbers-IsAscending n (sweep x xs).1 (omega (arith, length-sweep x xs)),
)

-- The exchange sort of writeIMDTrack gives the same numbers in ascending order.
pub sort_numbers-sorts :
    (xs : List ℕ)
    → Perm (sort_numbers (length xs - 1) xs) xs × IsAscending (sort_numbers (length xs - 1) xs)
sort_numbers-sorts xs = (sort_numbers-perm _ xs, sort_numbers-IsAscending _ xs (omega arith))

pub length-sort_numbers : (n : ℕ) (xs : List ℕ) → length (sort_numbers n xs) ≡ length xs
unfolding sort_numbers
length-sort_numbers zero xs = refl
length-sort_numbers (suc n) [] = refl
length-sort_numbers (suc n) (x ∷ xs) =
    omega (arith, length-sort_numbers n (sweep x xs).1, length-sweep x xs)

-- A predicate of all numbers holds of all the sorted ones.
sweep-each :
    (P : ℕ → Type 0) (x : ℕ) (xs : List ℕ)
    → P x
    → All P xs
    → P (sweep x xs).0 × All P (sweep x xs).1
unfolding sweep
sweep-each P x [] p ps = (p, tt)
sweep-each P x (y ∷ ys) p ps = elim (Bool-cases (ltb y x)) [
  | inl e ↦ let later = sweep-each P y ys ps.0 ps.1 in rw e (later.0, (p, later.1))
  | inr e ↦ let later = sweep-each P x ys p ps.1 in rw e (later.0, (ps.0, later.1))
]

pub sort_numbers-each :
    (P : ℕ → Type 0) (n : ℕ) (xs : List ℕ) → All P xs → All P (sort_numbers n xs)
unfolding sort_numbers
sort_numbers-each P zero xs ps = ps
sort_numbers-each P (suc n) [] ps = tt
sort_numbers-each P (suc n) (x ∷ xs) ps =
    let swept = sweep-each P x xs ps.0 ps.1 in
    (swept.0, sort_numbers-each P n (sweep x xs).1 swept.1)

sweep-Ascending : (x : ℕ) (xs : List ℕ) → All (λ y. x ≤ y) xs → sweep x xs ≡ (x, xs)
unfolding sweep
sweep-Ascending x [] h = refl
sweep-Ascending x (y ∷ ys) h = rw (ltb_of_le y x h.0) (rw (sweep-Ascending x ys h.1) refl)

-- Numbers in order stay as they are.
pub sort_numbers-Ascending : (n : ℕ) (xs : List ℕ) → IsAscending xs → sort_numbers n xs ≡ xs
unfolding sort_numbers
sort_numbers-Ascending zero xs h = refl
sort_numbers-Ascending (suc n) [] h = refl
sort_numbers-Ascending (suc n) (x ∷ xs) h =
    rw (sweep-Ascending x xs h.0) (ap (◌∷◌ x) (sort_numbers-Ascending n xs h.1))
