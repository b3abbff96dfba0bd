-- ===== src/Mfm/Writer/Emits.antt =====
-- The operations of mfm/writer.go write the half-bits of the symbols that they stand for.
use fdx.Prelude.{ℕ, zero, suc, ◌/◌, ◌%◌, ◌≡◌, refl, ap, subst, ◌∙◌, arith, bit_xor}
use fdx.Prelude.{if◌then◌else◌, ◌==◌, IsBit}
use fdx.Prelude.{List, [], ◌∷◌, ◌++◌, append_assoc, append-nil, ◌>>>◌}
use fdx.Mfm.Symbols.{Symbol, bit, half, emit, last_bit, emit-append, last_bit-append}
use fdx.Mfm.Symbols.{
  byte_symbols, bytes_symbols, gap_symbols, a1_symbols, c2_symbols, a1_mark, c2_mark,
}
use fdx.Mfm.Writer.{Writer, new_writer, write_half_bit, write_bit, write_bits_below, write_byte}
use fdx.Mfm.Writer.{write_bytes, write_gap, write_a1, write_c2, write_marker, write_index_marker}
use fdx.Mfm.Writer.Cells.{Written, new_writer-Written, write_half_bit-Written}

-- The writer has been handed `hs`, and the last data bit was `l`.
pub record At (max : ℕ) (w : Writer) (l : ℕ) (hs : List ℕ) : Type 0 where
  pub written : Written w hs
  pub last : w.last_data_bit ≡ l
  pub is_bit : IsBit l
  pub limit : w.max_half_bits ≡ max

abbrev pub Emits : ℕ → (Writer → Writer) → List Symbol → Type 0
Emits max f ss =
    (w : Writer) (l : ℕ) (hs : List ℕ)
    → At max w l hs
    → At max (f w) (last_bit l ss) (hs ++ emit l ss)

pub new_writer-At : (max : ℕ) → At max (new_writer max) 0 []
new_writer-At max = record {
  written = new_writer-Written max;
  last = unfold new_writer in refl;
  is_bit = omega arith;
  limit = unfold new_writer in refl;
}

module _ (max : ℕ) where
  pub Emits-then :
      (f g : Writer → Writer) (xs ys : List Symbol)
      → Emits max f xs
      → Emits max g ys
      → Emits max (λ w. g (f w)) (xs ++ ys)
  Emits-then f g xs ys hf hg w l hs h =
      let after = hg (f w) (last_bit l xs) (hs ++ emit l xs) (hf w l hs h) in
      rw (last_bit-append l xs ys, emit-append l xs ys, ← append_assoc hs (emit l xs)) after

  write_half_bit-fields :
      (v : ℕ) (w : Writer)
      → ((write_half_bit v w).last_data_bit ≡ w.last_data_bit)
        × ((write_half_bit v w).max_half_bits ≡ w.max_half_bits)
  unfolding write_half_bit
  write_half_bit-fields v w = ground arith

  pub write_half_bit-Emits : (v : ℕ) → Emits max (write_half_bit v) (half v ∷ [])
  write_half_bit-Emits v w l hs h = record {
    written = write_half_bit-Written v h.written;
    last = (write_half_bit-fields v w).0 ∙ h.last;
    is_bit = h.is_bit;
    limit = (write_half_bit-fields v w).1 ∙ h.limit;
  }

  -- Noting the last data bit changes nothing of what is written.
  noted :
      (d : ℕ) (w : Writer) (l : ℕ) (hs : List ℕ)
      → IsBit d
      → At max w l hs
      → At max (record w { last_data_bit = d }) d hs
  noted d w l hs hd h = record {
    written = record {
      pos = h.written.pos;
      room = h.written.room;
      bytes = h.written.bytes;
      cells = h.written.cells;
    };
    last = refl;
    is_bit = hd;
    limit = h.limit;
  }

  two_halves :
      (a b : ℕ) → Emits max (λ w. write_half_bit b (write_half_bit a w)) (half a ∷ half b ∷ [])
  two_halves a b =
      Emits-then (write_half_bit a) (write_half_bit b) (half a ∷ []) (half b ∷ [])
        (write_half_bit-Emits a) (write_half_bit-Emits b)

  clock_value :
      (l : ℕ) → IsBit l → ◌≡◌ {A = ℕ} (if bit_xor l 1 == 0 then 0 else 1) (if l == 0 then 1 else 0)
  clock_value zero h = refl
  clock_value (suc zero) h = refl
  clock_value (suc (suc l)) h = absurd (omega arith)

  pub write_bit-Emits : (d : ℕ) → IsBit d → Emits max (write_bit d) (bit d ∷ [])
  unfolding write_bit
  write_bit-Emits zero hd w l hs h =
      let w' = write_half_bit 0 (write_half_bit (bit_xor w.last_data_bit 1) w) in
      let after = noted 0 w' l _ hd (two_halves (bit_xor w.last_data_bit 1) 0 w l hs h) in
      let value = ap (λ k. if bit_xor k 1 == 0 then 0 else 1) h.last ∙ clock_value l h.is_bit in
      subst (λ c. At max (write_bit zero w) 0 (hs ++ (c ∷ 0 ∷ []))) value after
  write_bit-Emits (suc zero) hd w l hs h =
      noted 1 (write_half_bit 1 (write_half_bit 0 w)) l (hs ++ (0 ∷ 1 ∷ [])) hd
        (two_halves 0 1 w l hs h)
  write_bit-Emits (suc (suc d)) hd w l hs h = absurd (omega arith)

  abbrev below_symbols : ℕ → ℕ → List Symbol
  below_symbols zero b = []
  below_symbols (suc i) b = bit ((b >>> i) % 2) ∷ below_symbols i b

  pub nothing-Emits : Emits max (λ w. w) []
  nothing-Emits w l hs h = rw append-nil h

  write_bits_below-Emits : (i b : ℕ) → Emits max (write_bits_below i b) (below_symbols i b)
  unfolding write_bits_below
  write_bits_below-Emits zero b = nothing-Emits
  write_bits_below-Emits (suc i) b =
      Emits-then (write_bit ((b >>> i) % 2)) (write_bits_below i b) (bit ((b >>> i) % 2) ∷ [])
        (below_symbols i b) (write_bit-Emits _ (omega arith)) (write_bits_below-Emits i b)

  pub write_byte-Emits : (b : ℕ) → Emits max (write_byte b) (byte_symbols b)
  unfolding write_byte
  write_byte-Emits b =
      let e : b / 1 ≡ b = omega arith in
      subst
        (λ k. Emits max (write_bits_below 8 b) (
          bit (b / 128 % 2)
          ∷ bit (b / 64 % 2)
          ∷ bit (b / 32 % 2)
          ∷ bit (b / 16 % 2)
          ∷ bit (b / 8 % 2)
          ∷ bit (b / 4 % 2)
          ∷ bit (b / 2 % 2)
          ∷ bit (k % 2)
          ∷ []))
        e (write_bits_below-Emits 8 b)

  pub write_bytes-Emits : (bs : List ℕ) → Emits max (write_bytes bs) (bytes_symbols bs)
  unfolding write_bytes
  write_bytes-Emits [] = nothing-Emits
  write_bytes-Emits (b ∷ bs) =
      Emits-then (write_byte b) (write_bytes bs) (byte_symbols b) (bytes_symbols bs)
        (write_byte-Emits b) (write_bytes-Emits bs)

  pub write_gap-Emits : (n v : ℕ) → Emits max (write_gap n v) (gap_symbols n v)
  unfolding write_gap
  write_gap-Emits zero v = nothing-Emits
  write_gap-Emits (suc n) v =
      Emits-then (write_byte v) (write_gap n v) (byte_symbols v) (gap_symbols n v)
        (write_byte-Emits v) (write_gap-Emits n v)

  zero_bit : Emits max (write_bit 0) (bit 0 ∷ [])
  zero_bit = write_bit-Emits 0 (omega arith)

  one_bit : Emits max (write_bit 1) (bit 1 ∷ [])
  one_bit = write_bit-Emits 1 (omega arith)

  half_zero : Emits max (write_half_bit 0) (half 0 ∷ [])
  half_zero = write_half_bit-Emits 0

  pub write_a1-Emits : Emits max write_a1 a1_symbols
  unfolding write_a1
  write_a1-Emits w l hs h =
      let h1 = zero_bit _ _ _ (one_bit _ _ _ (zero_bit _ _ _ (one_bit _ _ _ h))) in
      let h2 = half_zero _ _ _ (half_zero _ _ _ (zero_bit _ _ _ h1)) in
      simp append_assoc at (one_bit _ _ _ (zero_bit _ _ _ h2))

  write_c2-Emits : Emits max write_c2 c2_symbols
  unfolding write_c2
  write_c2-Emits w l hs h =
      let h1 = zero_bit _ _ _ (zero_bit _ _ _ (one_bit _ _ _ (one_bit _ _ _ h))) in
      let h2 = half_zero _ _ _ (half_zero _ _ _ (zero_bit _ _ _ h1)) in
      simp append_assoc at (zero_bit _ _ _ (one_bit _ _ _ h2))

  -- Three marks after twelve zeros.
  thrice :
      (f : Writer → Writer) (ss : List Symbol)
      → Emits max f ss
      → Emits max (λ w. f (f (f (write_gap 12 0 w)))) (gap_symbols 12 0 ++ (ss ++ (ss ++ ss)))
  thrice f ss e =
      Emits-then (write_gap 12 0) (λ w. f (f (f w))) (gap_symbols 12 0) (ss ++ (ss ++ ss))
        (write_gap-Emits 12 0)
        (Emits-then f (λ w. f (f w)) ss (ss ++ ss) e (Emits-then f f ss ss e e))

  pub write_marker-Emits : (tag : ℕ) → Emits max (write_marker tag) (a1_mark ++ byte_symbols tag)
  unfolding write_marker
  write_marker-Emits tag =
      Emits-then (λ w. write_a1 (write_a1 (write_a1 (write_gap 12 0 w)))) (write_byte tag) a1_mark
        (byte_symbols tag) (thrice write_a1 a1_symbols write_a1-Emits) (write_byte-Emits tag)

  pub write_index_marker-Emits : Emits max write_index_marker (c2_mark ++ byte_symbols 0xfc)
  unfolding write_index_marker
  write_index_marker-Emits =
      Emits-then (λ w. write_c2 (write_c2 (write_c2 (write_gap 12 0 w)))) (write_byte 0xfc) c2_mark
        (byte_symbols 0xfc) (thrice write_c2 c2_symbols write_c2-Emits) (write_byte-Emits 0xfc)
