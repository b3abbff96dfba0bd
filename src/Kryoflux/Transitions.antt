-- ===== src/Kryoflux/Transitions.antt =====
-- The flux transitions that kryoflux/read.go decodes from a stream of blocks.
use fdx.Prelude.{
  ℕ, suc, ◌+◌, ◌-◌, ◌*◌, ◌≤◌, ◌≢◌, ◌≡◌, refl, ap, ap₂, sym, ◌∙◌, arith, ==_of_ne, ltb_of_le,
}
use fdx.Prelude.{List, [], ◌∷◌, ◌++◌, length, map, drop_exact, All, append_assoc, length-append}
use fdx.Kryoflux.Stream.{IndexTiming, oob_size, decode_pulses}
use fdx.Kryoflux.Flux.{
  flux, passed, flux_block, flux_oob, flux2, flux3, transitions, with_transition, flux_from,
  decode_flux, decoded, decode_between, decode_kryoflux_stream,
}
use fdx.Kryoflux.Blocks.{
  Block, value1, value2, value3, nop1, nop2, nop3, overflow16, oob, IsBlock, first_byte,
  other_bytes, stream_bytes, position, oob_bytes, times, pulses,
}
use fdx.Kryoflux.Pulses.{decode_pulses-blocks}

flux_block-value1 : (left v : ℕ) (behind : List ℕ) → 0x0e ≤ v → flux_block left v behind ≡ flux v 0
unfolding flux_block
flux_block-value1 left v behind h = ground arith

flux_block-value2 :
    (left high low : ℕ) (behind : List ℕ)
    → high ≤ 7
    → flux_block (suc left) high (low ∷ behind) ≡ flux (high * 256 + low) 1
unfolding flux_block flux2
flux_block-value2 left high low behind h = ground arith

flux_block-value3 :
    (left high low : ℕ) (behind : List ℕ)
    → flux_block (suc (suc left)) 0x0c (high ∷ low ∷ behind) ≡ flux (high * 256 + low) 2
unfolding flux_block flux3
flux_block-value3 left high low behind = ground arith

flux_block-oob :
    (kind low high left : ℕ) (body : List ℕ)
    → kind ≢ 0x0d
    → 3 + oob_size low high ≤ left
    → flux_block left 0x0d (kind ∷ low ∷ high ∷ body) ≡ passed (3 + oob_size low high)
unfolding flux_block flux_oob
flux_block-oob kind low high left body other fits =
    rw (ltb_of_le left 3 (omega (arith, fits)))
      (rw (==_of_ne kind 0x0d other) (rw (ltb_of_le left (3 + oob_size low high) fits) refl))

stream_bytes-append :
    (cs bs : List Block) → stream_bytes (cs ++ bs) ≡ stream_bytes cs ++ stream_bytes bs
unfolding stream_bytes
stream_bytes-append [] bs = refl
stream_bytes-append (c ∷ cs) bs =
    ap (λ l. first_byte c ∷ l)
      (ap (λ l. other_bytes c ++ l) (stream_bytes-append cs bs)
        ∙ sym (append_assoc (other_bytes c) (stream_bytes cs) (stream_bytes bs)))

-- The offset of a block in the captured bytes is its stream position and the out-of-band bytes so far.
length-stream_bytes : (bs : List Block) → length (stream_bytes bs) ≡ position bs + oob_bytes bs
unfolding stream_bytes position oob_bytes
length-stream_bytes [] = refl
length-stream_bytes (value1 v ∷ bs) = omega (arith, length-stream_bytes bs)
length-stream_bytes (value2 high low ∷ bs) = omega (arith, length-stream_bytes bs)
length-stream_bytes (value3 high low ∷ bs) = omega (arith, length-stream_bytes bs)
length-stream_bytes (nop1 ∷ bs) = omega (arith, length-stream_bytes bs)
length-stream_bytes (nop2 a ∷ bs) = omega (arith, length-stream_bytes bs)
length-stream_bytes (nop3 a b ∷ bs) = omega (arith, length-stream_bytes bs)
length-stream_bytes (overflow16 ∷ bs) = omega (arith, length-stream_bytes bs)
length-stream_bytes (oob kind low high body ∷ bs) =
    omega (arith, length-append body (stream_bytes bs), length-stream_bytes bs)

module _ (to_ns : ℕ → ℕ) where
  -- Bytes that belong to a block are passed over; the positions are those of the bytes left.
  flux_from-skip :
      (xs ys rest : List ℕ) (t : ℕ)
      → flux_from to_ns (length (xs ++ ys)) (length xs) (xs ++ rest) t
        ≡ flux_from to_ns (length ys) 0 rest t
  unfolding flux_from
  flux_from-skip [] ys rest t = refl
  flux_from-skip (x ∷ xs) ys rest t = flux_from-skip xs ys rest t

  flux_from-flux :
      (val value : ℕ) (others ys rest : List ℕ) (t : ℕ)
      → flux_block (length (others ++ ys)) val (others ++ rest) ≡ flux value (length others)
      → flux_from to_ns (length (val ∷ (others ++ ys))) 0 (val ∷ (others ++ rest)) t
        ≡ with_transition (to_ns (t + value)) (flux_from to_ns (length ys) 0 rest (t + value))
  unfolding flux_from
  flux_from-flux val value others ys rest t e =
      rw (e, flux_from)
        (ap (with_transition (to_ns (t + value))) (flux_from-skip others ys rest (t + value)))

  flux_from-passed :
      (val n : ℕ) (others ys rest : List ℕ) (t : ℕ)
      → flux_block (length (others ++ ys)) val (others ++ rest) ≡ passed n
      → n ≡ length others
      → flux_from to_ns (length (val ∷ (others ++ ys))) 0 (val ∷ (others ++ rest)) t
        ≡ flux_from to_ns (length ys) 0 rest t
  unfolding flux_from
  flux_from-passed val n others ys rest t e size =
      rw (e, flux_from) (rw size (flux_from-skip others ys rest t))

  flux_from-overflow :
      (ys rest : List ℕ) (t : ℕ)
      → flux_from to_ns (length (0x0b ∷ ys)) 0 (0x0b ∷ rest) t
        ≡ flux_from to_ns (length ys) 0 rest (t + 0x10000)
  unfolding flux_from flux_block
  flux_from-overflow ys rest t = refl

  -- One block in front of a stream that is decoded.
  flux_from-block :
      (b : Block) (bs : List Block) (ys rest : List ℕ) (t : ℕ)
      → IsBlock b
      → ((u : ℕ) → flux_from to_ns (length ys) 0 rest u ≡ transitions (map to_ns (times u bs)))
      → flux_from to_ns
          (length (first_byte b ∷ (other_bytes b ++ ys)))
          0
          (first_byte b ∷ (other_bytes b ++ rest))
          t
        ≡ transitions (map to_ns (times t (b ∷ bs)))
  unfolding times
  flux_from-block (value1 v) bs ys rest t h later =
      flux_from-flux v v [] ys rest t (flux_block-value1 (length ys) v rest h)
      ∙ ap (with_transition (to_ns (t + v))) (later (t + v))
  flux_from-block (value2 high low) bs ys rest t h later =
      let value = high * 256 + low in
      flux_from-flux high value (low ∷ []) ys rest t (flux_block-value2 (length ys) high low rest h)
      ∙ ap (with_transition (to_ns (t + value))) (later (t + value))
  flux_from-block (value3 high low) bs ys rest t h later =
      let value = high * 256 + low in
      flux_from-flux 0x0c value (high ∷ low ∷ []) ys rest t
        (flux_block-value3 (length ys) high low rest)
      ∙ ap (with_transition (to_ns (t + value))) (later (t + value))
  flux_from-block nop1 bs ys rest t h later =
      flux_from-passed 0x08 0 [] ys rest t (unfold flux_block in refl) refl ∙ later t
  flux_from-block (nop2 a) bs ys rest t h later =
      flux_from-passed 0x09 1 (a ∷ []) ys rest t (unfold flux_block in refl) refl ∙ later t
  flux_from-block (nop3 a b) bs ys rest t h later =
      flux_from-passed 0x0a 2 (a ∷ b ∷ []) ys rest t (unfold flux_block in refl) refl ∙ later t
  flux_from-block overflow16 bs ys rest t h later =
      flux_from-overflow ys rest t ∙ later (t + 0x10000)
  flux_from-block (oob kind low high body) bs ys rest t h later =
      let three : 3 + oob_size low high ≡ length (kind ∷ low ∷ high ∷ body) = omega (arith, h.1) in
      let fits : 3 + oob_size low high ≤ length (kind ∷ low ∷ high ∷ (body ++ ys)) =
        omega (arith, h.1, length-append body ys) in
      flux_from-passed 0x0d (3 + oob_size low high) (kind ∷ low ∷ high ∷ body) ys rest t
        (flux_block-oob kind low high _ (body ++ rest) h.0 fits) three
      ∙ later t

  flux_from-blocks :
      (bs : List Block) (rest : List ℕ) (t : ℕ)
      → All IsBlock bs
      → flux_from to_ns (length (stream_bytes bs)) 0 (stream_bytes bs ++ rest) t
        ≡ transitions (map to_ns (times t bs))
  unfolding stream_bytes times flux_from
  flux_from-blocks [] rest t h = refl
  flux_from-blocks (b ∷ bs) rest t h =
      ap
        (λ l.
          flux_from to_ns (length (first_byte b ∷ (other_bytes b ++ stream_bytes bs))) 0
            (first_byte b ∷ l) t)
        (append_assoc (other_bytes b) (stream_bytes bs) rest)
      ∙ flux_from-block b bs (stream_bytes bs) (stream_bytes bs ++ rest) t h.0
          (λ u. flux_from-blocks bs rest u h.1)

  pub decode_flux-blocks :
      (before : List ℕ) (bs : List Block) (rest : List ℕ)
      → All IsBlock bs
      → decode_flux to_ns
          (before ++ (stream_bytes bs ++ rest))
          (length before)
          (length before + length (stream_bytes bs))
        ≡ transitions (map to_ns (times 0 bs))
  unfolding decode_flux
  decode_flux-blocks before bs rest h =
      let left : length before + length (stream_bytes bs) - length before
          ≡ length (stream_bytes bs) =
        omega arith in
      ap₂ (λ n l. flux_from to_ns n 0 l 0) left (drop_exact (length before) before _ refl)
      ∙ flux_from-blocks bs rest 0 h

  -- The end marker and what follows it.
  abbrev ended : ℕ → ℕ → List ℕ → List ℕ
  ended a b rest = 0x0d ∷ 0x0d ∷ a ∷ b ∷ rest

  -- Whatever the blocks of a stream are, where its first two index pulses give, as positions, the
  -- offsets in the captured bytes at which a run of blocks begins and ends, so the documented
  -- stream positions and the bytes of all out-of-band blocks so far, decodeKryoFluxStream of the
  -- stream and an end marker returns all index pulses and, in nanoseconds, the times of the
  -- transitions of those blocks: the sum of their ticks and overflows, out-of-band blocks and NOPs
  -- left out. The documented position leaves out-of-band blocks out of account; the two agree where
  -- no such block comes before.
  pub decode_kryoflux_stream-blocks :
      (before between behind : List Block) (first second : IndexTiming) (later : List IndexTiming)
      (a b : ℕ) (rest : List ℕ)
      → All IsBlock (before ++ (between ++ behind))
      → All IsBlock between
      → pulses (before ++ (between ++ behind)) ≡ first ∷ second ∷ later
      → first.stream_position ≡ position before + oob_bytes before
      → second.stream_position
        ≡ position before + oob_bytes before + (position between + oob_bytes between)
      → decode_kryoflux_stream to_ns
          (stream_bytes (before ++ (between ++ behind)) ++ (0x0d ∷ 0x0d ∷ a ∷ b ∷ rest))
        ≡ decoded (record {
          flux_transitions = map to_ns (times 0 between);
          index_pulses = first ∷ second ∷ later;
        })
  unfolding decode_kryoflux_stream decode_between
  decode_kryoflux_stream-blocks before between behind first second later a b rest h h' found at1
        at2 =
      let stream = stream_bytes (before ++ (between ++ behind)) in
      let marker = ended a b rest in
      let start : first.stream_position ≡ length (stream_bytes before) =
        at1 ∙ sym (length-stream_bytes before) in
      let end : second.stream_position
          ≡ length (stream_bytes before) + length (stream_bytes between) =
        at2 ∙ sym (ap₂ (λ m n. m + n) (length-stream_bytes before) (length-stream_bytes between)) in
      let got : decode_pulses (stream ++ marker) ≡ first ∷ second ∷ later =
        decode_pulses-blocks (before ++ (between ++ behind)) a b rest h ∙ found in
      let split : (stream ++ marker)
          ≡ stream_bytes before ++ (stream_bytes between ++ (stream_bytes behind ++ marker)) =
        ap (λ l. l ++ marker)
          (stream_bytes-append before (between ++ behind)
            ∙ ap (λ l. stream_bytes before ++ l) (stream_bytes-append between behind))
        ∙ append_assoc (stream_bytes before) (stream_bytes between ++ stream_bytes behind) marker
        ∙ ap (λ l. stream_bytes before ++ l)
            (append_assoc (stream_bytes between) (stream_bytes behind) marker) in
      let flux : decode_flux to_ns (stream ++ marker) first.stream_position second.stream_position
          ≡ transitions (map to_ns (times 0 between)) =
        ap₂ (decode_flux to_ns (stream ++ marker)) start end
        ∙ ap
            (λ l.
              decode_flux to_ns l (length (stream_bytes before))
                (length (stream_bytes before) + length (stream_bytes between)))
            split
        ∙ decode_flux-blocks (stream_bytes before) between (stream_bytes behind ++ marker) h' in
      rw (got, decode_between) (rw (flux, decode_between) refl)
