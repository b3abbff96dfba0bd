-- ===== src/Greaseweazle/Intervals.antt =====
-- The intervals that greaseweazle/write.go encodes are read back by greaseweazle/read.go.
use fdx.Prelude.{
  ℕ, zero, suc, ◌+◌, ◌-◌, ◌*◌, ◌%◌, ◌^◌, ◌<◌, ◌≤◌, ◌≡◌, refl, sym, ap, ◌∙◌, arith, leb, ltb,
  Bool-cases, inl, inr,
}
use fdx.Prelude.{
  List, [], ◌∷◌, ◌++◌, map, All, some, none, append_assoc, append-nil, ltb_of_lt, ltb_of_le,
  ==_of_ne,
}
use fdx.Greaseweazle.Stream.{
  extended_from, encode_n28, interval_bytes, interval_stream, interval, index, opcode_item,
  extended_item, flux_item, transitions, timed, transition_time, items_from, fluxop_index,
}
use fdx.Greaseweazle.N28.{read-encode_n28}

-- The two bytes of an extended interval.
pub extended_from-bytes :
    (fuel base offset : ℕ)
    → offset < 255 * (fuel + 1)
    → (b o : ℕ) × (extended_from fuel base offset ≡ b ∷ o ∷ [])
      × (255 * b + o ≡ 255 * base + offset)
      × (base ≤ b)
      × (o < 255)
unfolding extended_from
extended_from-bytes zero base offset h = (base, offset, refl, refl, omega arith, omega (arith, h))
extended_from-bytes (suc fuel) base offset h = elim (Bool-cases (leb 255 offset)) [
  | inl more ↦
      let large : 255 ≤ offset = ground arith in
      let (b, o, same, sum, above, small) =
        extended_from-bytes fuel (base + 1) (offset - 255) (omega (arith, h, large)) in
      (b, o, rw more same, omega (arith, sum, large), omega (arith, above), small)
  | inr done ↦ (base, offset, rw done refl, refl, omega arith, ground arith)
]

pub flux_item-short : (b : ℕ) (behind : List ℕ) → b < 250 → flux_item b behind ≡ interval b 0
unfolding flux_item
flux_item-short b behind h = ground arith

pub flux_item-extended :
    (b o t : ℕ) (behind : List ℕ)
    → 250 ≤ b
    → b < 255
    → 255 * b + o ≡ 255 * 250 + (t + 1 - 250)
    → 250 ≤ t
    → flux_item b (o ∷ behind) ≡ interval t 1
unfolding flux_item extended_item
flux_item-extended b o t behind low high sum large =
    let value : 250 + (b - 250) * 255 + o - 1 ≡ t = omega (arith, low, sum, large) in
    rw (==_of_ne b 0xff (ground arith), ltb_of_le b 250 low) (ap (λ v. interval v 1) value)

pub flux_item-index :
    (n28 : ℕ) (rest : List ℕ)
    → n28 < 268435456
    → flux_item 0xff (fluxop_index ∷ (encode_n28 n28 ++ rest)) ≡ index n28
unfolding flux_item opcode_item
flux_item-index n28 rest small = rw (read-encode_n28 n28 rest small, opcode_item) refl

-- An interval that the encoder writes: at least 1, and below the last range.
abbrev pub IsInterval : ℕ → Type 0
IsInterval t = (0 < t) × (t < 1524)

-- An index opcode with its offset in ticks.
abbrev pub index_bytes : ℕ → List ℕ
index_bytes n28 = 0xff ∷ fluxop_index ∷ encode_n28 n28

-- The sums of the intervals, from `ticks` on.
abbrev pub sums : ℕ → List ℕ → List ℕ
sums ticks [] = []
sums ticks (t ∷ ts) = (ticks + t) ∷ sums (ticks + t) ts

abbrev pub total : List ℕ → ℕ
total [] = 0
total (t ∷ ts) = t + total ts

module _ (to_ns : ℕ → ℕ) where
  items_from-interval :
      (t : ℕ) (rest : List ℕ) (ticks : ℕ) (pulses : List ℕ)
      → t < 1524
      → items_from to_ns 0 (interval_bytes t ++ rest) ticks pulses
        ≡ timed
            (transition_time to_ns (ticks + t) pulses)
            (items_from to_ns 0 rest (ticks + t) pulses)
  unfolding items_from interval_bytes
  items_from-interval t rest ticks pulses h = elim (Bool-cases (ltb t 250)) [
    | inl short ↦
        let small : t < 250 = ground arith in
        rw short (rw (flux_item-short t rest small, items_from) refl)
    | inr long ↦
        let large : 250 ≤ t = ground arith in
        let (b, o, same, sum, above, under) =
          extended_from-bytes 5 0xfa (t + 1 - 250) (omega (arith, h)) in
        let item = flux_item-extended b o t rest above (omega (arith, sum, h, large)) sum large in
        rw long (rw (ltb_of_lt t 1525 (omega (arith, h))) (rw same (rw (item, items_from) refl)))
  ]

  -- An index opcode leaves the ticks, whatever its offset is.
  items_from-index :
      (n28 : ℕ) (rest : List ℕ) (ticks : ℕ) (pulses : List ℕ)
      → n28 < 268435456
      → items_from to_ns 0 (index_bytes n28 ++ rest) ticks pulses
        ≡ items_from to_ns 0 rest ticks (pulses ++ (to_ns ticks ∷ []))
  unfolding items_from encode_n28
  items_from-index n28 rest ticks pulses small =
      rw (flux_item-index n28 rest small, items_from) refl

  -- A time since another, as a difference of 64 bits.
  abbrev pub since : ℕ → ℕ → ℕ
  since start ticks = (to_ns ticks + 2 ^ 64 - start) % 2 ^ 64

  -- Intervals behind no index opcode, or behind two.
  items_from-ignored :
      (ts : List ℕ) (rest : List ℕ) (ticks : ℕ) (pulses : List ℕ)
      → ((n : ℕ) → transition_time to_ns n pulses ≡ none)
      → All IsInterval ts
      → items_from to_ns 0 (interval_stream ts ++ rest) ticks pulses
        ≡ items_from to_ns 0 rest (ticks + total ts) pulses
  unfolding interval_stream
  items_from-ignored [] rest ticks pulses quiet h =
      ap (λ n. items_from to_ns 0 rest n pulses) (omega arith)
  items_from-ignored (t ∷ ts) rest ticks pulses quiet h =
      ap (λ bs. items_from to_ns 0 bs ticks pulses)
        (append_assoc (interval_bytes t) (interval_stream ts) rest)
      ∙ items_from-interval t (interval_stream ts ++ rest) ticks pulses h.0.1
      ∙ ap (λ o. timed o (items_from to_ns 0 (interval_stream ts ++ rest) (ticks + t) pulses))
          (quiet (ticks + t))
      ∙ items_from-ignored ts rest (ticks + t) pulses quiet h.1
      ∙ ap (λ n. items_from to_ns 0 rest n pulses) (omega arith)

  -- Intervals behind one index opcode.
  items_from-timed :
      (ts : List ℕ) (rest : List ℕ) (ticks start : ℕ)
      → All IsInterval ts
      → items_from to_ns 0 rest (ticks + total ts) (start ∷ []) ≡ transitions []
      → items_from to_ns 0 (interval_stream ts ++ rest) ticks (start ∷ [])
        ≡ transitions (map (since start) (sums ticks ts))
  unfolding transition_time interval_stream
  items_from-timed [] rest ticks start h later =
      ap (λ n. items_from to_ns 0 rest n (start ∷ [])) (omega arith) ∙ later
  items_from-timed (t ∷ ts) rest ticks start h later =
      ap (λ bs. items_from to_ns 0 bs ticks (start ∷ []))
        (append_assoc (interval_bytes t) (interval_stream ts) rest)
      ∙ items_from-interval t (interval_stream ts ++ rest) ticks (start ∷ []) h.0.1
      ∙ ap (timed (some (since start (ticks + t)))) (
          items_from-timed ts rest (ticks + t) start h.1
            (ap (λ n. items_from to_ns 0 rest n (start ∷ [])) (omega arith) ∙ later))

  -- A stream of three runs of encoded intervals, all from 1 to 1523 ticks, with an index opcode
  -- between any two, is decoded by the loop of decodeFluxToMFM without error to one transition for
  -- each interval of the second run, and none for the others. The time of each is that of the sum
  -- of all ticks up to it, less that of the ticks before the first index opcode, as a difference of
  -- 64 bits; the offset that the opcode gives for the pulse itself has no part in it.
  pub items_from-encoded :
      (before turn behind : List ℕ) (n28 n28' : ℕ)
      → All IsInterval before
      → All IsInterval turn
      → All IsInterval behind
      → n28 < 268435456
      → n28' < 268435456
      → items_from to_ns 0
          (interval_stream before
            ++ (index_bytes n28
                ++ (interval_stream turn ++ (index_bytes n28' ++ interval_stream behind))))
          0
          []
        ≡ transitions (map (since (to_ns (total before))) (sums (total before) turn))
  unfolding items_from transition_time
  items_from-encoded before turn behind n28 n28' h_before h_turn h_behind small small' =
      let start : ℕ = to_ns (total before) in
      let last : List ℕ = index_bytes n28' ++ interval_stream behind in
      let end : (ticks : ℕ) → items_from to_ns 0 last ticks (start ∷ []) ≡ transitions [] = λ ticks.
        items_from-index n28' (interval_stream behind) ticks (start ∷ []) small'
        ∙ ap (λ bs. items_from to_ns 0 bs ticks (start ∷ to_ns ticks ∷ []))
            (sym (append-nil (interval_stream behind)))
        ∙ items_from-ignored behind [] ticks (start ∷ to_ns ticks ∷ []) (λ n. refl) h_behind in
      items_from-ignored before _ 0 [] (λ n. refl) h_before
      ∙ ap (λ n. items_from to_ns 0 (index_bytes n28 ++ (interval_stream turn ++ last)) n [])
          {x = 0 + total before} {y = total before} (omega arith)
      ∙ items_from-index n28 (interval_stream turn ++ last) (total before) [] small
      ∙ items_from-timed turn last (total before) start h_turn (end (total before + total turn))
