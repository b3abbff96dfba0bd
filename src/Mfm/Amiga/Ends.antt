-- ===== src/Mfm/Amiga/Ends.antt =====
-- The Amiga readers of mfm/reader.go end on any track.
use fdx.Prelude.{ℕ, zero, suc, ◌%◌, ◌^◌, ◌<◌, ◌≡◌, refl, arith, not, ltb, ◌==◌}
use fdx.Prelude.{
  Bool-cases, inl, inr, bit_or, bit_xor, u32, ◌<<<◌, ◌>>>◌, if◌then◌else◌, List, [], length,
}
use fdx.Mfm.Reader.{Reader, Read, M, got, failed, stuck, read_half_bit, read_byte, fuel_for, insert}
use fdx.Mfm.Reader.Ends.{left, Costs, EndsAlways, CostsAlways, EndsBelow, Costs-Ends, Costs-then}
use fdx.Mfm.Reader.Ends.{Ends-then, Ends-attempt, branch, read_half_bit-Costs, read_byte-Ends}
use fdx.Mfm.Reader.Returns.{Returns}
use fdx.Mfm.Amiga.{
  scan_amiga, scan_amiga_loop, read_half, read_word, read_long, read_label, read_halves, unshuffle,
}
use fdx.Mfm.Amiga.{
  read_data_amiga, read_body_amiga, read_sector_amiga_round, read_sector_amiga_loop,
}
use fdx.Mfm.Amiga.{read_sector_amiga, count_amiga_loop, count_sectors_amiga}

scan_amiga_loop-Costs :
    (fuel h : ℕ) (r : Reader) → left r < fuel → Costs (left r) (scan_amiga_loop fuel h r)
unfolding scan_amiga_loop
scan_amiga_loop-Costs zero h r f = absurd (omega arith)
scan_amiga_loop-Costs (suc fuel) h r f =
    Costs-then read_half_bit _ r (read_half_bit-Costs r) λ b r' less.
      elim (Bool-cases (bit_or (u32 (h <<< 1)) b == 0x4489_4489)) [
        | inl mark ↦ rw mark (omega arith)
        | inr more ↦ rw more (
            Costs-Ends (scan_amiga_loop fuel (bit_or (u32 (h <<< 1)) b) r') (left r')
              (scan_amiga_loop-Costs fuel (bit_or (u32 (h <<< 1)) b) r' (omega arith)))
      ]

scan_amiga-Costs : CostsAlways scan_amiga
unfolding scan_amiga fuel_for
scan_amiga-Costs r = scan_amiga_loop-Costs (fuel_for r) 0 r (omega arith)

read_half-Ends : EndsAlways read_half
unfolding read_half
read_half-Ends r =
    Ends-then read_byte _ r (read_byte-Ends r)
      λ hi r' h. Ends-then read_byte _ r' (read_byte-Ends r') λ lo r'' h'. omega arith

read_word-Ends : EndsAlways read_word
unfolding read_word
read_word-Ends r = Ends-then read_byte _ r (read_byte-Ends r) λ a r1 h1.
    Ends-then read_byte _ r1 (read_byte-Ends r1) λ b r2 h2.
      Ends-then read_byte _ r2 (read_byte-Ends r2)
        λ c r3 h3. Ends-then read_byte _ r3 (read_byte-Ends r3) λ d r4 h4. omega arith

read_long-Ends : (sum : ℕ) → EndsAlways (read_long sum)
unfolding read_long
read_long-Ends sum r =
    Ends-then read_half _ r (read_half-Ends r)
      λ odd r1 h1. Ends-then read_half _ r1 (read_half-Ends r1) λ even r2 h2. omega arith

read_label-Ends : (n sum : ℕ) → EndsAlways (read_label n sum)
unfolding read_label
read_label-Ends zero sum r = omega arith
read_label-Ends (suc n) sum r =
    Ends-attempt (read_long sum) (read_label n sum) _ r (read_long-Ends sum r)
      (λ r' h. read_label-Ends n sum r') (λ sum' r' h. read_label-Ends n sum' r')

read_halves-Ends : (n : ℕ) → EndsAlways (read_halves n)
unfolding read_halves
read_halves-Ends zero r = omega arith
read_halves-Ends (suc n) r =
    Ends-then read_half _ r (read_half-Ends r) λ half r1 h1.
      Ends-then (read_halves n) _ r1 (read_halves-Ends n r1) λ halves r2 h2. omega arith

read_data_amiga-Ends : EndsAlways read_data_amiga
unfolding read_data_amiga
read_data_amiga-Ends r = Ends-then (read_halves 128) _ r (read_halves-Ends 128 r) λ odds r1 h1.
    Ends-then (read_halves 128) _ r1 (read_halves-Ends 128 r1) λ evens r2 h2. omega arith

read_body_amiga-Ends :
    (n : ℕ) (again : M (ℕ × List ℕ)) (sector : ℕ)
    → EndsBelow n again
    → EndsBelow n (read_body_amiga again sector)
unfolding read_body_amiga
read_body_amiga-Ends n again sector h r lt =
    Ends-attempt read_word again _ r (read_word-Ends r) (λ r' k. h r' (omega arith))
      λ sum r1 h1.
        Ends-attempt read_data_amiga again _ r1 (read_data_amiga-Ends r1)
          (λ r' k. h r' (omega arith)) λ bytes r2 h2. omega arith

read_sector_amiga_round-Costs :
    (again : M (ℕ × List ℕ)) (track : ℕ) (r : Reader)
    → EndsBelow (left r) again
    → Costs (left r) (read_sector_amiga_round again track r)
unfolding read_sector_amiga_round
read_sector_amiga_round-Costs again track r h =
    Costs-then scan_amiga _ r (scan_amiga-Costs r) λ mark r1 h1.
      Ends-attempt read_half again _ r1 (read_half-Ends r1) (λ r' k. h r' (omega arith))
        λ odd r2 h2.
          Ends-attempt read_half again _ r2 (read_half-Ends r2) (λ r' k. h r' (omega arith))
            λ even r3 h3.
              Ends-then (read_label 4 (bit_xor odd even)) _ r3
                (read_label-Ends 4 (bit_xor odd even) r3)
                λ mine r4 h4.
                  Ends-attempt read_word again _ r4 (read_word-Ends r4) (λ r' k. h r' (omega arith))
                    λ sum r5 h5.
                      let once = h r5 (omega arith) in
                      branch (not (mine == sum)) (left r5) (again r5) _ once (
                        branch (not ((unshuffle odd even % 2 ^ 24) >>> 16 == track)) (left r5)
                          (again r5) _ once
                          (read_body_amiga-Ends (left r) again
                            (((unshuffle odd even % 2 ^ 24) >>> 8) % 256) h r5 (omega arith)))

read_sector_amiga_loop-Costs :
    (fuel track : ℕ) (r : Reader)
    → left r < fuel
    → Costs (left r) (read_sector_amiga_loop fuel track r)
unfolding read_sector_amiga_loop
read_sector_amiga_loop-Costs zero track r f = absurd (omega arith)
read_sector_amiga_loop-Costs (suc fuel) track r f =
    read_sector_amiga_round-Costs (λ r'. read_sector_amiga_loop fuel track r') track r
      λ r' lt.
        Costs-Ends (read_sector_amiga_loop fuel track r') (left r')
          (read_sector_amiga_loop-Costs fuel track r' (omega arith))

-- On any track ReadSectorAmiga ends, with an error or with a sector, and a sector costs at least
-- one half-bit.
pub read_sector_amiga-Costs : (track : ℕ) (r : Reader) → Costs (left r) (read_sector_amiga track r)
unfolding read_sector_amiga fuel_for
read_sector_amiga-Costs track r = read_sector_amiga_loop-Costs (fuel_for r) track r (omega arith)

count_sector-Returns :
    (k : ℕ) (loop : List ℕ → M ℕ) (set : List ℕ) (x : Read (ℕ × List ℕ))
    → ((set' : List ℕ) (r : Reader) → left r < k → Returns (loop set' r))
    → Costs k x
    → Returns (elim x [
      | got s r' ↦ loop (if ltb (s.0) 11 then insert (s.0) set else set) r'
      | failed r' ↦ got (length set) r'
      | stuck ↦ stuck
    ])
count_sector-Returns k loop set (got s r') all e =
    all (if ltb (s.0) 11 then insert (s.0) set else set) r' e
count_sector-Returns k loop set (failed r') all e = (length set, r', refl)
count_sector-Returns k loop set stuck all e = absurd e

count_amiga_loop-Returns :
    (fuel track : ℕ) (set : List ℕ) (r : Reader)
    → left r < fuel
    → Returns (count_amiga_loop fuel track set r)
unfolding count_amiga_loop
count_amiga_loop-Returns zero track set r f = absurd (omega arith)
count_amiga_loop-Returns (suc fuel) track set r f =
    count_sector-Returns (left r) (count_amiga_loop fuel track) set (read_sector_amiga track r)
      (λ set' r' lt. count_amiga_loop-Returns fuel track set' r' (omega arith))
      (read_sector_amiga-Costs track r)

-- On any track CountSectorsAmiga returns a number.
pub count_sectors_amiga-Returns :
    (track : ℕ) (r : Reader) → (n : ℕ) × (r' : Reader) × (count_sectors_amiga track r ≡ got n r')
unfolding count_sectors_amiga fuel_for
count_sectors_amiga-Returns track r = count_amiga_loop-Returns (fuel_for r) track [] r (omega arith)
