-- ===== src/Examples/Mfm.antt =====
-- The results about flux transitions of package mfm at small concrete inputs.
use fdx.Prelude.{ℕ, ◌+◌, ◌-◌, ◌*◌, ◌/◌, ◌≤◌, ◌<◌, ◌≡◌, arith, map, leb, ltb, ltb_of_le}
use fdx.Prelude.{refl, inl, length, take, drop, replicate, All, List, [], ◌∷◌, ◌++◌, some}
use fdx.Mfm.Symbols.{stream}
use fdx.Mfm.Flux.{
  bitcell_period_ns, generate_flux_transitions, rotation_duration_ns, last_time,
  cover_full_rotation,
}
use fdx.Mfm.Flux.Times.{ones, IsSpaced, generate_flux_transitions-ones, cover_full_rotation-covers}
use fdx.Mfm.Decoder.{Floats, period_of, new_decoder, after_bits, min_period, max_period}
use fdx.Mfm.Decoder.Exact.{IsExact}
use fdx.Kryoflux.Cells.{decode_flux_to_mfm, mfm_bytes}
use fdx.Kryoflux.Cells.Packed.{half}
use fdx.Kryoflux.Cells.Decoded.{cells_of}
use fdx.Kryoflux.Cells.Restored.{decode-generate_flux_transitions}
use native.Mathlib.Nat.{mul-div_cancel}
use fdx.Mfm.Decoder.Period.{Laws, IsNear, new_decoder-IsNear}

generate_flux_transitions_example :
    generate_flux_transitions (0x92 ∷ []) 250
    ≡ some (map (λ k. (k + 1) * bitcell_period_ns 250) (ones 0 (stream (0x92 ∷ []))))
generate_flux_transitions_example =
    generate_flux_transitions-ones (0x92 ∷ []) 250 (omega arith, tt) (ground arith)

cover_full_rotation_example :
    (added : List ℕ) × (cover_full_rotation (2000 ∷ []) 250 300 ≡ (2000 ∷ []) ++ added)
    × IsSpaced (2 * bitcell_period_ns 250) (last_time 0 (2000 ∷ [])) added
    × All (λ x. x ≤ rotation_duration_ns 300) added
    × (rotation_duration_ns 300
        < last_time 0 (cover_full_rotation (2000 ∷ []) 250 300) + 2 * bitcell_period_ns 250)
cover_full_rotation_example =
    cover_full_rotation-covers (2000 ∷ []) 250 300 (ground arith) (omega arith)

-- Whole numbers in place of floats.
abbrev pub whole : Floats
whole = record {
  F = ℕ;
  float = λ n. n;
  add = λ a b. a + b;
  sub = λ a b. a - b;
  mul = λ a b. a * b;
  div = λ a b. a / b;
  less = ltb;
  at_least = λ a b. leb b a;
}

min_below_whole : (n : ℕ) → min_period whole n ≤ n
unfolding min_period
min_below_whole n = omega arith

max_above_whole : (n : ℕ) → n ≤ max_period whole n
unfolding max_period
max_above_whole n = omega arith

whole-Laws : Laws whole
whole-Laws = record {
  less_irreflexive = λ x. ltb_of_le x x (omega arith);
  min_below = λ rate.
      ltb_of_le (period_of whole rate) (min_period whole (period_of whole rate))
        (min_below_whole (period_of whole rate));
  max_above = λ rate.
      ltb_of_le (max_period whole (period_of whole rate)) (period_of whole rate)
        (max_above_whole (period_of whole rate));
  max_above_min = λ rate.
      ltb_of_le (max_period whole (period_of whole rate)) (min_period whole (period_of whole rate))
        (omega
          (arith, min_below_whole (period_of whole rate), max_above_whole (period_of whole rate)));
}

new_decoder_example :
    IsNear whole whole-Laws 250
      (after_bits whole 3 (new_decoder whole (2000 ∷ 6000 ∷ []) 250)).period
new_decoder_example = new_decoder-IsNear whole whole-Laws 250 (2000 ∷ 6000 ∷ []) 3

pub whole-IsExact : IsExact whole
whole-IsExact = record {
  exact_add = λ a b h. refl;
  exact_sub = λ a b h h'. refl;
  exact_mul = λ a b h. refl;
  exact_div = λ a b h h'. mul-div_cancel a h;
  exact_less = λ a b h h'. refl;
  exact_at_least = λ a b h h'. refl;
}

decode-generate_flux_transitions_example :
    (transitions bytes : List ℕ) × (n m : ℕ) × (generate_flux_transitions (0x92 ∷ 0x54 ∷ []) 250
      ≡ some transitions)
    × (decode_flux_to_mfm whole 20 transitions 250 ≡ mfm_bytes bytes)
    × (stream bytes
        ≡ map half (take n (cells_of (drop 1 (stream (0x92 ∷ 0x54 ∷ []))))) ++ replicate m 0)
    × (m < 8)
    × (length (ones 0 (drop n (drop 1 (stream (0x92 ∷ 0x54 ∷ []))))) ≤ 1)
decode-generate_flux_transitions_example =
    decode-generate_flux_transitions whole whole-IsExact (0x92 ∷ 0x54 ∷ []) 250 20 (inl refl)
      (omega arith, (omega arith, tt)) (omega arith) (ground arith) (omega arith)
