-- ===== src/Kryoflux/Cells/Restored.antt =====
-- From half-bits to flux in mfm/encoder.go, and from flux to bytes in kryoflux/read.go with the decoder
-- of mfm/decoder.go.
use fdx.Prelude.{
  ℕ, zero, suc, ◌+◌, ◌*◌, ◌≤◌, ◌<◌, ◌≡◌, ◌⊎◌, inl, inr, refl, ap, sym, subst, ◌∙◌, arith, Bool,
  false, Bool-cases, ◌==◌, ==_of_ne, ◌/◌, ◌%◌,
}
use fdx.Prelude.{
  List, [], ◌∷◌, ◌++◌, length, length-map, map, take, drop, replicate, All, IsByte, some,
}
use fdx.Mfm.Symbols.{stream}
use fdx.Mfm.Symbols.Buffer.{length-stream}
use fdx.Mfm.Flux.{bitcell_period_ns, generate_flux_transitions}
use fdx.Mfm.Flux.Times.{ones, generate_flux_transitions-ones}
use fdx.Mfm.Decoder.{Floats, period_of, new_decoder, next_bit}
use fdx.Mfm.Decoder.Exact.{exact_bound, IsExact, period_ns}
use fdx.Mfm.Decoder.Phase.{IsInPhase, IsWaiting, times_of, next_bit-IsInPhase}
use fdx.Kryoflux.Cells.{cells_from, packed_cells, decode_flux_to_mfm, mfm_bytes, pack}
use fdx.Kryoflux.Cells.Packed.{half, pack-stream}
use native.Mathlib.Nat.{mul-le-mul}
use fdx.Kryoflux.Cells.Decoded.{length-ones, IsDecoded, cells_of, cells_from-IsDecoded}

-- The bit rates of floppy disks.
abbrev pub IsFloppyRate : ℕ → Type 0
IsFloppyRate rate = (rate ≡ 250) ⊎ ((rate ≡ 500) ⊎ (rate ≡ 1000))

-- Their period of a half-bit is a multiple of 20, in the encoder and in the decoder.
abbrev IsPeriod : Floats → ℕ → ℕ → Type 0
IsPeriod fl rate q =
    (0 < q)
    × (q ≤ 100)
    × (bitcell_period_ns rate ≡ period_ns q)
    × (period_of fl rate ≡ fl.float (period_ns q))

in_bound : (n q : ℕ) → n < 68719476740 → q ≤ 100 → n * period_ns q < exact_bound
in_bound n q few small = omega (
  arith,
  mul-le-mul {n₁ = n} {m₁ = period_ns q} {n₂ = 68719476740} {m₂ = 2000} (omega (arith, few))
      (omega (arith, small)),
)

-- With two ones or more there are bitcells to pack.
packed_cells-some :
    (bs : List ℕ) (bitcells : List Bool)
    → IsDecoded bs bitcells
    → 2 ≤ length (ones 0 bs)
    → packed_cells (some bitcells) ≡ mfm_bytes (pack bitcells)
unfolding packed_cells
packed_cells-some bs (c ∷ bitcells) h many = refl
packed_cells-some [] [] h many = absurd (omega (arith, many))
packed_cells-some (b ∷ bs) [] (zero, same, few) many = absurd (omega (arith, few, many))
packed_cells-some (b ∷ bs) [] (suc n, same, few) many = cc

more_ones : (b : ℕ) (bs : List ℕ) → length (ones 0 (b ∷ bs)) ≤ suc (length (ones 0 bs))
more_ones b bs = elim (Bool-cases (b == 0)) [
  | inl zero_bit ↦ rw zero_bit (omega (arith, length-ones 1 0 bs))
  | inr one ↦ rw one (omega (arith, length-ones 1 0 bs))
]

module _ (fl : Floats) (exact : IsExact fl) where
  period_exact :
      (rate n : ℕ) → 0 < rate → 2 * n * rate ≡ 1000000 → n < 10000 → period_of fl rate ≡ fl.float n
  period_exact rate n some_rate whole small =
      ap (λ x. fl.div (fl.div (fl.float x) (fl.float rate)) (fl.float 2)) (sym whole)
      ∙ ap (λ x. fl.div x (fl.float 2))
          (exact.exact_div (2 * n) rate some_rate (omega (arith, whole))
            ∙ ap fl.float {x = 2 * n} {y = n * 2} (omega arith))
      ∙ exact.exact_div n 2 (omega arith) (omega (arith, small))

  rate-IsPeriod : (rate : ℕ) → IsFloppyRate rate → (q : ℕ) × IsPeriod fl rate q
  unfolding bitcell_period_ns
  rate-IsPeriod rate (inl e) =
      subst (λ r. (q : ℕ) × IsPeriod fl r q) (sym e)
        (
          100,
          (omega arith, omega arith, refl, period_exact 250 2000 (omega arith) refl (omega arith)),
        )
  rate-IsPeriod rate (inr (inl e)) =
      subst (λ r. (q : ℕ) × IsPeriod fl r q) (sym e)
        (
          50,
          (omega arith, omega arith, refl, period_exact 500 1000 (omega arith) refl (omega arith)),
        )
  rate-IsPeriod rate (inr (inr e)) =
      subst (λ r. (q : ℕ) × IsPeriod fl r q) (sym e)
        (
          25,
          (omega arith, omega arith, refl, period_exact 1000 500 (omega arith) refl (omega arith)),
        )

  new_decoder-IsWaiting :
      (q rate : ℕ) (bs : List ℕ)
      → period_of fl rate ≡ fl.float (period_ns q)
      → IsWaiting fl q 0 bs (new_decoder fl (times_of q 0 bs) rate)
  unfolding new_decoder
  new_decoder-IsWaiting q rate bs e = record {
    steady = (e, e);
    no_flux = refl;
    waiting_times = refl;
    in_time = inl (omega arith);
  }

  first_ignored :
      (q rate : ℕ) (b : ℕ) (bs : List ℕ)
      → IsPeriod fl rate q
      → length bs < 68719476736
      → IsInPhase fl q 1 bs (next_bit fl (new_decoder fl (times_of q 0 (b ∷ bs)) rate)).0
  first_ignored q rate b bs (some_q, small_q, encoded, decoded) room =
      (next_bit-IsInPhase fl exact q some_q (omega (arith, small_q)) 0 b bs _
        (inl (new_decoder-IsWaiting q rate (b ∷ bs) decoded))
        (in_bound _ q (omega (arith, room)) small_q)).1

  -- The bitcells of all half-bits behind the first.
  cells_restored :
      (q rate fuel b : ℕ) (bs : List ℕ)
      → IsPeriod fl rate q
      → length bs < 68719476736
      → length bs + 1 < 2 * fuel
      → (bitcells : List Bool) × (cells_from fl fuel
            (next_bit fl (new_decoder fl (times_of q 0 (b ∷ bs)) rate)).0
          ≡ some bitcells)
        × IsDecoded bs bitcells
  cells_restored q rate fuel b bs h room enough =
      cells_from-IsDecoded fl exact q h.0 (omega (arith, h.1)) fuel 1 bs _
        (first_ignored q rate b bs h room)
        (in_bound (1 + length bs + 2) q (omega (arith, room)) h.1) enough

  -- Bytes whose half-bits are `b` and `bs`.
  half_bits_restored :
      (b : ℕ) (bs : List ℕ) (rate fuel : ℕ)
      → IsFloppyRate rate
      → length bs < 68719476736
      → 3 ≤ length (ones 0 (b ∷ bs))
      → length bs + 1 < 2 * fuel
      → (bytes : List ℕ) × (n m : ℕ) × (decode_flux_to_mfm fl fuel
            (map (λ k. (k + 1) * bitcell_period_ns rate) (ones 0 (b ∷ bs)))
            rate
          ≡ mfm_bytes bytes)
        × (stream bytes ≡ map half (take n (cells_of bs)) ++ replicate m 0)
        × (m < 8)
        × (length (ones 0 (drop n bs)) ≤ 1)
  unfolding decode_flux_to_mfm
  half_bits_restored b bs rate fuel floppy room many enough =
      let (q, h) = rate-IsPeriod rate floppy in
      let (bitcells, read, restored) = cells_restored q rate fuel b bs h room enough in
      let (m, few, packed) = pack-stream bitcells in
      let (n, same, left) = restored in
      let times = map (λ k. (k + 1) * bitcell_period_ns rate) (ones 0 (b ∷ bs)) in
      let some_times : (length times == 0) ≡ false = ==_of_ne (length times) 0 (λ e.
        omega
          (arith, many, e, length-map (λ k. (k + 1) * bitcell_period_ns rate) (ones 0 (b ∷ bs)))) in
      let read' : cells_from fl fuel (next_bit fl (new_decoder fl times rate)).0 ≡ some bitcells =
        ap
          (λ p.
            cells_from fl fuel
              (next_bit fl (new_decoder fl (map (λ k. (k + 1) * p) (ones 0 (b ∷ bs))) rate)).0)
          h.2
        ∙ read in
      (
        pack bitcells,
        n,
        m,
        rw some_times (
            ap packed_cells read'
            ∙ packed_cells-some bs bitcells restored (omega (arith, many, more_ones b bs))),
        packed ∙ ap (λ c. map half c ++ replicate m 0) same,
        few,
        left,
      )

  -- At 250, 500 or 1000 kbps, with floats that are exact on whole numbers below 2^53: fewer than
  -- 2^32 bytes that hold three one bits or more have flux transitions by GenerateFluxTransitions,
  -- and decodeFluxToMFM of these ends, where twice the fuel is above the number of half-bits, and
  -- returns bytes. Their bits are the first n, for some n, of the half-bits from the second on and
  -- one zero behind them, followed by fewer than eight zeros; of the half-bits from the second on,
  -- no more than one that is 1 is behind the first n.
  pub decode-generate_flux_transitions :
      (mfm_bits : List ℕ) (rate fuel : ℕ)
      → IsFloppyRate rate
      → All IsByte mfm_bits
      → length mfm_bits < 4294967296
      → 3 ≤ length (ones 0 (stream mfm_bits))
      → 8 * length mfm_bits < 2 * fuel
      → (transitions bytes : List ℕ) × (n m : ℕ) × (generate_flux_transitions mfm_bits rate
          ≡ some transitions)
        × (decode_flux_to_mfm fl fuel transitions rate ≡ mfm_bytes bytes)
        × (stream bytes ≡ map half (take n (cells_of (drop 1 (stream mfm_bits)))) ++ replicate m 0)
        × (m < 8)
        × (length (ones 0 (drop n (drop 1 (stream mfm_bits)))) ≤ 1)
  decode-generate_flux_transitions [] rate fuel floppy bytes room many enough =
      absurd (omega (arith, many))
  decode-generate_flux_transitions (x ∷ xs) rate fuel floppy bytes room many enough =
      let all = stream (x ∷ xs) in
      let size = length-stream (x ∷ xs) in
      let size' : suc (length (drop 1 all)) ≡ 8 * length (x ∷ xs) = size in
      let (decoded, n, m, read, same, few, left) =
        half_bits_restored (x / 128 % 2) (drop 1 all) rate fuel floppy (omega (arith, size', room))
          many (omega (arith, size', enough)) in
      (
        map (λ k. (k + 1) * bitcell_period_ns rate) (ones 0 all),
        decoded,
        n,
        m,
        generate_flux_transitions-ones (x ∷ xs) rate bytes (ground arith),
        read,
        same,
        few,
        left,
      )
