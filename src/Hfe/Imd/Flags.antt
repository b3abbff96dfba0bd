-- ===== src/Hfe/Imd/Flags.antt =====
-- hfe/imd.go: the flag byte of a sector, and the test for sectors of one value.
use fdx.Prelude.{
  ℕ, zero, suc, Bool, true, false, ◌&&◌, ◌≡◌, ◌↔◌, refl, ap, ◌∙◌, arith, List, [], ◌∷◌,
}
use fdx.Prelude.{==_iff, ==_refl, replicate, length}
use fdx.Hfe.Imd.{is_compressible, all_equal, calculate_flag, decode_flag, flag_bit}

-- The flag that `calculateFlag` gives is read back as the same status in the cases where
-- `compressed` equals `deleted && bad`, and in no other.
pub decode-calculate_flag :
    (compressed deleted bad : Bool)
    → (decode_flag (calculate_flag compressed deleted bad) ≡ (compressed, deleted, bad))
      ↔ (compressed ≡ (deleted && bad))
unfolding decode_flag calculate_flag flag_bit
decode-calculate_flag true true true = (λ e. refl, λ e. refl)
decode-calculate_flag true true false = (λ e. cc, λ e. cc)
decode-calculate_flag true false true = (λ e. cc, λ e. cc)
decode-calculate_flag true false false = (λ e. cc, λ e. cc)
decode-calculate_flag false true true = (λ e. cc, λ e. cc)
decode-calculate_flag false true false = (λ e. refl, λ e. refl)
decode-calculate_flag false false true = (λ e. refl, λ e. refl)
decode-calculate_flag false false false = (λ e. refl, λ e. refl)

all_equal_sound : (a : ℕ) (bs : List ℕ) → all_equal a bs ≡ true → bs ≡ replicate (length bs) a
unfolding all_equal
all_equal_sound a [] h = refl
all_equal_sound a (b ∷ bs) h =
    cc ((==_iff b a).0 (ground arith), all_equal_sound a bs (ground arith))

pub all_equal-replicate : (a n : ℕ) → all_equal a (replicate n a) ≡ true
unfolding all_equal
all_equal-replicate a zero = refl
all_equal-replicate a (suc n) = rw (==_refl a) (all_equal-replicate a n)

compressible_sound :
    (bs : List ℕ) → is_compressible bs ≡ true → (n a : ℕ) × (bs ≡ replicate (suc n) a)
unfolding is_compressible
compressible_sound [] h = cc
compressible_sound (b ∷ bs) h = (length bs, b, ap (◌∷◌ b) (all_equal_sound b bs h))

compressible_complete :
    (bs : List ℕ) → ((n a : ℕ) × (bs ≡ replicate (suc n) a)) → is_compressible bs ≡ true
unfolding is_compressible
compressible_complete bs (n, a, e) = ap is_compressible e ∙ all_equal-replicate a n

-- A sector is compressible where it is not empty and repeats one byte.
pub is_compressible_iff :
    (bs : List ℕ) → (is_compressible bs ≡ true) ↔ ((n a : ℕ) × (bs ≡ replicate (suc n) a))
is_compressible_iff bs = (compressible_sound bs, compressible_complete bs)
