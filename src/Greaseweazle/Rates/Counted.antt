-- ===== src/Greaseweazle/Rates/Counted.antt =====
-- The speed and the bit rate that greaseweazle/read.go finds in a stream that greaseweazle/write.go
-- encodes between index opcodes.
use fdx.Prelude.{
  ℕ, suc, ◌+◌, ◌%◌, ◌-◌, ◌^◌, ◌<◌, ◌≤◌, ◌≡◌, refl, sym, ap, ap₂, ◌∙◌, arith, ltb, Bool-cases, inl,
  inr, if◌then◌else◌, ◌==◌,
}
use fdx.Prelude.{List, [], ◌∷◌, ◌++◌, append_assoc, append-nil, length, All, ltb_of_lt}
use fdx.Greaseweazle.Stream.{encode_n28, interval_bytes, interval_stream}
use fdx.Greaseweazle.Intervals.{
  extended_from-bytes, flux_item-short, flux_item-extended, flux_item-index, index_bytes, total,
}
use fdx.Greaseweazle.Rates.{count_from, turn_rates, pulse_rates, stream_rates}

abbrev AreShort : List ℕ → Type 0
AreShort ts = All (λ t. t < 1524) ts

-- So many more transitions, where there is one index pulse.
abbrev more : ℕ → ℕ → ℕ → ℕ
more pulses n count = if pulses == 1 then count + n else count

more_none : (pulses count : ℕ) → count ≡ more pulses 0 count
more_none pulses count = ground arith

more_add : (pulses n count : ℕ) → more pulses n (more pulses 1 count) ≡ more pulses (suc n) count
more_add pulses n count = ground arith

module _ (to_ns : ℕ → ℕ) where
  count-interval :
      (t : ℕ) (rest : List ℕ) (ticks : ℕ) (pulses : List ℕ) (count : ℕ)
      → t < 1524
      → count_from to_ns 0 (interval_bytes t ++ rest) ticks pulses count
        ≡ count_from to_ns 0 rest (ticks + t) pulses (more (length pulses) 1 count)
  unfolding count_from interval_bytes
  count-interval t rest ticks pulses count h = elim (Bool-cases (ltb t 250)) [
    | inl short ↦
        let small : t < 250 = ground arith in
        rw short (rw (flux_item-short t rest small, count_from) refl)
    | inr long ↦
        let large : 250 ≤ t = ground arith in
        let (b, o, same, sum, above, under) =
          extended_from-bytes 5 0xfa (t + 1 - 250) (omega (arith, h)) in
        let item = flux_item-extended b o t rest above (omega (arith, sum, h, large)) sum large in
        rw long (rw (ltb_of_lt t 1525 (omega (arith, h))) (rw same (rw (item, count_from) refl)))
  ]

  count-index :
      (n28 : ℕ) (rest : List ℕ) (ticks : ℕ) (pulses : List ℕ) (count : ℕ)
      → n28 < 268435456
      → count_from to_ns 0 (index_bytes n28 ++ rest) ticks pulses count
        ≡ count_from to_ns 0 rest ticks (pulses ++ (to_ns (ticks + n28) ∷ [])) count
  unfolding count_from encode_n28
  count-index n28 rest ticks pulses count small =
      rw (flux_item-index n28 rest small, count_from) refl

  -- Intervals behind one index pulse count, others do not.
  count-intervals :
      (ts : List ℕ) (rest : List ℕ) (ticks : ℕ) (pulses : List ℕ) (count : ℕ)
      → AreShort ts
      → count_from to_ns 0 (interval_stream ts ++ rest) ticks pulses count
        ≡ count_from to_ns 0 rest (ticks + total ts) pulses (more (length pulses) (length ts) count)
  unfolding interval_stream
  count-intervals [] rest ticks pulses count h =
      ap₂ (λ n c. count_from to_ns 0 rest n pulses c) (omega arith)
        (more_none (length pulses) count)
  count-intervals (t ∷ ts) rest ticks pulses count h =
      ap (λ bs. count_from to_ns 0 bs ticks pulses count)
        (append_assoc (interval_bytes t) (interval_stream ts) rest)
      ∙ count-interval t (interval_stream ts ++ rest) ticks pulses count h.0
      ∙ count-intervals ts rest (ticks + t) pulses (more (length pulses) 1 count) h.1
      ∙ ap₂ (λ n c. count_from to_ns 0 rest n pulses c) (omega arith)
          (more_add (length pulses) (length ts) count)

  -- For a stream of three runs of encoded intervals, all below 1524 ticks, with an index opcode
  -- between any two, calculateRPMAndBitRate gives what it makes of the number of intervals of the
  -- second run and of the time from the first index to the second, each at the ticks before it and
  -- its own offset, as a difference of 64 bits.
  pub stream_rates-encoded :
      (before turn behind : List ℕ) (n28 n28' : ℕ)
      → AreShort before
      → AreShort turn
      → AreShort behind
      → n28 < 268435456
      → n28' < 268435456
      → stream_rates to_ns (
          interval_stream before
          ++ (index_bytes n28
              ++ (interval_stream turn ++ (index_bytes n28' ++ interval_stream behind))))
        ≡ turn_rates
            ((to_ns (total before + total turn + n28') + 2 ^ 64 - to_ns (total before + n28))
              % 2 ^ 64)
            (length turn)
  unfolding stream_rates pulse_rates count_from
  stream_rates-encoded before turn behind n28 n28' short_before short_turn short_behind small
        small' =
      let later' : List ℕ = interval_stream behind in
      let later : List ℕ = interval_stream turn ++ (index_bytes n28' ++ later') in
      let first : ℕ = to_ns (total before + n28) in
      let second : ℕ = to_ns (total before + total turn + n28') in
      ap pulse_rates (
        count-intervals before (index_bytes n28 ++ later) 0 [] 0 short_before
        ∙ ap (λ n. count_from to_ns 0 (index_bytes n28 ++ later) n [] 0) {x = 0 + total before}
            {y = total before} (omega arith)
        ∙ count-index n28 later (total before) [] 0 small
        ∙ count-intervals turn (index_bytes n28' ++ later') (total before) (first ∷ []) 0 short_turn
        ∙ count-index n28' later' (total before + total turn) (first ∷ []) (0 + length turn) small'
        ∙ ap
            (λ bs.
              count_from to_ns 0 bs (total before + total turn) (first ∷ second ∷ [])
                (0 + length turn))
            (sym (append-nil later'))
        ∙ count-intervals behind [] (total before + total turn) (first ∷ second ∷ [])
            (0 + length turn) short_behind)
      ∙ ap (turn_rates ((second + 2 ^ 64 - first) % 2 ^ 64)) (omega arith)
