-- ===== src/Mfm/Reader/Ends.antt =====
-- The loops of mfm/reader.go end, on any track: no operation runs out of fuel.
use fdx.Prelude.{ℕ, zero, suc, ◌+◌, ◌-◌, ◌*◌, ◌≤◌, ◌<◌, arith}
use fdx.Prelude.{Bool, true, false, not, leb, ◌==◌, Bool-cases, inl, inr, bit_or, u8, ◌<<<◌}
use fdx.Prelude.{if◌then◌else◌}
use fdx.Prelude.{List, length}
use fdx.Prelude.Int.{ℤ}
use fdx.Mfm.Writer.{data_sum}
use fdx.Mfm.Reader.{
  Reader, Read, M, got, failed, stuck, ◌>>=◌, attempt, read_half_bit, read_bit, read_bits,
}
use fdx.Mfm.Reader.{read_byte, read_bytes, fuel_for, shift_history, is_mark, scan_loop, scan_ibmpc}
use fdx.Mfm.Reader.{read_sum, read_header, is_good_sum, read_sector_data, read_sector_round}
use fdx.Mfm.Reader.{read_sector_loop, read_sector_ibmpc}

-- The half-bits that are left.
abbrev pub left : Reader → ℕ
left r = 8 * length r.bytes - r.bit_pos

-- The outcome leaves no more than `n` half-bits, and is no lack of fuel.
abbrev pub Ends {ℓ} : {A : Type ℓ} → ℕ → Read A → Type 0
Ends n (got a r) = left r ≤ n
Ends n (failed r) = left r ≤ n
Ends n stuck = ⊥

abbrev pub EndsAlways {ℓ} : {A : Type ℓ} → M A → Type 0
EndsAlways m = (r : Reader) → Ends (left r) (m r)

-- A value costs a half-bit at least.
abbrev pub Costs {ℓ} : {A : Type ℓ} → ℕ → Read A → Type 0
Costs n (got a r) = left r < n
Costs n (failed r) = left r ≤ n
Costs n stuck = ⊥

abbrev pub CostsAlways {ℓ} : {A : Type ℓ} → M A → Type 0
CostsAlways m = (r : Reader) → Costs (left r) (m r)

pub Ends-more {ℓ} : {A : Type ℓ} (x : Read A) (k n : ℕ) → k ≤ n → Ends k x → Ends n x
Ends-more (got a r) k n h e = omega arith
Ends-more (failed r) k n h e = omega arith
Ends-more stuck k n h e = e

Costs-more {ℓ} : {A : Type ℓ} (x : Read A) (k n : ℕ) → k ≤ n → Costs k x → Costs n x
Costs-more (got a r) k n h e = omega arith
Costs-more (failed r) k n h e = omega arith
Costs-more stuck k n h e = e

pub Costs-Ends {ℓ} : {A : Type ℓ} (x : Read A) (n : ℕ) → Costs n x → Ends n x
Costs-Ends (got a r) n e = omega arith
Costs-Ends (failed r) n e = e
Costs-Ends stuck n e = e

Ends-Costs {ℓ} : {A : Type ℓ} (x : Read A) (k n : ℕ) → k < n → Ends k x → Costs n x
Ends-Costs (got a r) k n h e = omega arith
Ends-Costs (failed r) k n h e = omega arith
Ends-Costs stuck k n h e = e

-- What comes after an operation.
pub Costs-then {ℓ κ} :
    {A : Type ℓ} {B : Type κ} (m : M A) (f : A → M B) (r : Reader)
    → Costs (left r) (m r)
    → ((a : A) (r' : Reader) → left r' < left r → Ends (left r') (f a r'))
    → Costs (left r) ((m >>= f) r)
Costs-then {A} {B} m f r h k = go (m r) h
  where
    go :
        (x : Read A)
        → Costs (left r) x
        → Costs (left r) (elim x [ got a r' ↦ f a r' | failed r' ↦ failed r' | stuck ↦ stuck ])
    go (got a r') e = Ends-Costs (f a r') (left r') (left r) e (k a r' e)
    go (failed r') e = e
    go stuck e = e

pub Ends-then {ℓ κ} :
    {A : Type ℓ} {B : Type κ} (m : M A) (f : A → M B) (r : Reader)
    → Ends (left r) (m r)
    → ((a : A) (r' : Reader) → left r' ≤ left r → Ends (left r') (f a r'))
    → Ends (left r) ((m >>= f) r)
Ends-then {A} {B} m f r h k = go (m r) h
  where
    go :
        (x : Read A)
        → Ends (left r) x
        → Ends (left r) (elim x [ got a r' ↦ f a r' | failed r' ↦ failed r' | stuck ↦ stuck ])
    go (got a r') e = Ends-more (f a r') (left r') (left r) e (k a r' e)
    go (failed r') e = e
    go stuck e = e

pub Ends-attempt {ℓ κ} :
    {A : Type ℓ} {B : Type κ} (m : M A) (again : M B) (f : A → M B) (r : Reader)
    → Ends (left r) (m r)
    → ((r' : Reader) → left r' ≤ left r → Ends (left r') (again r'))
    → ((a : A) (r' : Reader) → left r' ≤ left r → Ends (left r') (f a r'))
    → Ends (left r) (attempt m again f r)
Ends-attempt {A} {B} m again f r h j k = go (m r) h
  where
    go :
        (x : Read A)
        → Ends (left r) x
        → Ends (left r) (elim x [ got a r' ↦ f a r' | failed r' ↦ again r' | stuck ↦ stuck ])
    go (got a r') e = Ends-more (f a r') (left r') (left r) e (k a r' e)
    go (failed r') e = Ends-more (again r') (left r') (left r) e (j r' e)
    go stuck e = e

-- The parts.
pub read_half_bit-Costs : CostsAlways read_half_bit
unfolding read_half_bit
read_half_bit-Costs r = elim (Bool-cases (leb (8 * length r.bytes) r.bit_pos)) [
  | inl out ↦ rw out (omega arith)
  | inr inside ↦
      let before : r.bit_pos < 8 * length r.bytes = ground arith in rw inside (omega arith)
]

read_bit-Ends : EndsAlways read_bit
unfolding read_bit
read_bit-Ends r =
    Ends-then read_half_bit (λ clock. read_half_bit) r
      (Costs-Ends (read_half_bit r) (left r) (read_half_bit-Costs r))
      (λ a r' h. Costs-Ends (read_half_bit r') (left r') (read_half_bit-Costs r'))

read_bits-Ends : (n result : ℕ) → EndsAlways (read_bits n result)
unfolding read_bits
read_bits-Ends zero result r = omega arith
read_bits-Ends (suc n) result r =
    Ends-then read_bit _ r (read_bit-Ends r)
      (λ b r' h. read_bits-Ends n (bit_or (u8 (result <<< 1)) b) r')

pub read_byte-Ends : EndsAlways read_byte
unfolding read_byte
read_byte-Ends r = read_bits-Ends 8 0 r

read_bytes-Ends : (n : ℕ) → EndsAlways (read_bytes n)
unfolding read_bytes
read_bytes-Ends zero r = omega arith
read_bytes-Ends (suc n) r =
    Ends-then read_byte _ r (read_byte-Ends r)
      λ b r' h. Ends-then (read_bytes n) _ r' (read_bytes-Ends n r') λ bs r'' h'. omega arith

read_sum-Ends : EndsAlways read_sum
unfolding read_sum
read_sum-Ends r =
    Ends-then read_byte _ r (read_byte-Ends r)
      λ hi r' h. Ends-then read_byte _ r' (read_byte-Ends r') λ lo r'' h'. omega arith

pub read_header-Ends : EndsAlways read_header
unfolding read_header
read_header-Ends r = Ends-then read_byte _ r (read_byte-Ends r) λ c r1 h1.
    Ends-then read_byte _ r1 (read_byte-Ends r1) λ h r2 h2.
      Ends-then read_byte _ r2 (read_byte-Ends r2) λ s r3 h3.
        Ends-then read_byte _ r3 (read_byte-Ends r3)
          λ z r4 h4. Ends-then read_sum _ r4 (read_sum-Ends r4) λ sum r5 h5. omega arith

-- The search.
scan_loop-Costs : (fuel h : ℕ) (r : Reader) → left r < fuel → Costs (left r) (scan_loop fuel h r)
unfolding scan_loop
scan_loop-Costs zero h r f = absurd (omega arith)
scan_loop-Costs (suc fuel) h r f = Costs-then read_half_bit _ r (read_half_bit-Costs r) λ b r' less.
    elim (Bool-cases (is_mark (shift_history h b))) [
      | inl mark ↦ rw mark (read_byte-Ends r')
      | inr more ↦ rw more (
          Costs-Ends (scan_loop fuel (shift_history h b) r') (left r')
            (scan_loop-Costs fuel (shift_history h b) r' (omega arith)))
    ]

pub scan_ibmpc-Costs : CostsAlways scan_ibmpc
unfolding scan_ibmpc fuel_for
scan_ibmpc-Costs r = scan_loop-Costs (fuel_for r) 0 r (omega arith)

-- A loop that ends wherever fewer than `n` half-bits are left.
abbrev pub EndsBelow {ℓ} : {A : Type ℓ} → ℕ → M A → Type 0
EndsBelow n again = (r : Reader) → left r < n → Ends (left r) (again r)

-- A branch of a test.
pub branch {ℓ} :
    {A : Type ℓ} (b : Bool) (n : ℕ) (x y : Read A)
    → Ends n x
    → Ends n y
    → Ends n (if b then x else y)
branch true n x y h k = h
branch false n x y h k = k

read_sector_data-Ends :
    (n : ℕ) (again : M (ℤ × List ℕ)) (sector : ℕ)
    → EndsBelow n again
    → EndsBelow n (read_sector_data again sector)
unfolding read_sector_data
read_sector_data-Ends n again sector h r lt =
    Ends-then scan_ibmpc _ r (Costs-Ends (scan_ibmpc r) (left r) (scan_ibmpc-Costs r)) λ tag r1 h1.
      branch (not (tag == 0xfb)) (left r1) (again r1) _ (h r1 (omega arith)) (
        Ends-then (read_bytes 512) _ r1 (read_bytes-Ends 512 r1) λ bytes r2 h2.
          Ends-then read_sum _ r2 (read_sum-Ends r2) λ sum r3 h3.
            branch (not (data_sum bytes == sum)) (left r3) (again r3) _ (h r3 (omega arith))
              (omega arith))

read_sector_round-Costs :
    (again : M (ℤ × List ℕ)) (c hd : ℕ) (r : Reader)
    → EndsBelow (left r) again
    → Costs (left r) (read_sector_round again c hd r)
unfolding read_sector_round
read_sector_round-Costs again c hd r h = Costs-then scan_ibmpc _ r (scan_ibmpc-Costs r) λ tag r1 h1.
    branch (not (tag == 0xfe)) (left r1) (again r1) _ (h r1 h1) (
      Ends-attempt read_header again _ r1 (read_header-Ends r1) (λ r2 h2. h r2 (omega arith))
        λ s r2 h2.
          let once = h r2 (omega arith) in
          branch (not (is_good_sum s)) (left r2) (again r2) _ once (
            branch (not (s.cylinder * 2 + s.head == c * 2 + hd)) (left r2) (again r2) _ once (
              branch (not (s.size == 2)) (left r2) (again r2) _ once
                (read_sector_data-Ends (left r) again s.sector h r2 (omega arith)))))

read_sector_loop-Costs :
    (fuel c h : ℕ) (r : Reader) → left r < fuel → Costs (left r) (read_sector_loop fuel c h r)
unfolding read_sector_loop
read_sector_loop-Costs zero c h r f = absurd (omega arith)
read_sector_loop-Costs (suc fuel) c h r f =
    read_sector_round-Costs (λ r'. read_sector_loop fuel c h r') c h r
      λ r' lt.
        Costs-Ends (read_sector_loop fuel c h r') (left r')
          (read_sector_loop-Costs fuel c h r' (omega arith))

-- On any track ReadSectorIBMPC ends, with an error or with a sector, and a sector costs at least
-- one half-bit.
pub read_sector_ibmpc-Costs :
    (cylinder head : ℕ) (r : Reader) → Costs (left r) (read_sector_ibmpc cylinder head r)
unfolding read_sector_ibmpc fuel_for
read_sector_ibmpc-Costs cylinder head r =
    read_sector_loop-Costs (fuel_for r) cylinder head r (omega arith)
