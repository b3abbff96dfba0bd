-- ===== src/Mfm/Reader/Scan.antt =====
-- The search of mfm/reader.go for a mark, against the first place where one ends.
use fdx.Prelude.{ℕ, zero, suc, ◌%◌, ◌<◌, ◌≡◌, refl, sym, ◌∙◌, arith}
use fdx.Prelude.{true, false, Bool-cases, inl, inr, IsByte, Option, some, none}
use fdx.Prelude.{List, [], ◌∷◌, ◌++◌, length}
use fdx.Mfm.Symbols.{Symbol, emit, byte_symbols}
use fdx.Mfm.Reader.{Reader, ◌>>=◌, read_byte}
use fdx.Mfm.Reader.{fuel_for, shift_history, is_mark, scan_loop, scan_ibmpc}
use fdx.Mfm.Reader.Bits.{rest, length-rest, next, rest-next, read_half_bit-cons, read_half_bit-nil}
use fdx.Mfm.Reader.Bits.{Reads, Fails, read_byte-Reads}

-- What lies behind the first mark.
unfoldable pub scan : ℕ → List ℕ → Option (List ℕ)
scan h [] = none
scan h (b ∷ bs) =
    let h' = shift_history h b in elim (is_mark h') [ true ↦ some bs | false ↦ scan h' bs ]

scan_loop-nil : (fuel h : ℕ) (r : Reader) → rest r ≡ [] → 0 < fuel → Fails (scan_loop fuel h) r
unfolding scan_loop
scan_loop-nil zero h r e f = absurd (omega arith)
scan_loop-nil (suc fuel) h r e f = record {
  after = r;
  result = rw (read_half_bit-nil r e, ◌>>=◌);
  left = e;
}

-- One round on a half-bit that ends a mark, and on one that does not.
scan_loop-mark :
    (fuel h b : ℕ) (bs : List ℕ) (r : Reader)
    → rest r ≡ b ∷ bs
    → is_mark (shift_history h b) ≡ true
    → scan_loop (suc fuel) h r ≡ read_byte (next r)
unfolding scan_loop
scan_loop-mark fuel h b bs r e m = rw (read_half_bit-cons r b bs e, ◌>>=◌) (rw m)

scan_loop-more :
    (fuel h b : ℕ) (bs : List ℕ) (r : Reader)
    → rest r ≡ b ∷ bs
    → is_mark (shift_history h b) ≡ false
    → scan_loop (suc fuel) h r ≡ scan_loop fuel (shift_history h b) (next r)
unfolding scan_loop
scan_loop-more fuel h b bs r e m = rw (read_half_bit-cons r b bs e, ◌>>=◌) (rw m)

scan-mark : (h b : ℕ) (bs : List ℕ) → is_mark (shift_history h b) ≡ true → scan h (b ∷ bs) ≡ some bs
unfolding scan
scan-mark h b bs m = rw (m, scan)

pub scan-more :
    (h b : ℕ) (bs : List ℕ)
    → is_mark (shift_history h b) ≡ false
    → scan h (b ∷ bs) ≡ scan (shift_history h b) bs
unfolding scan
scan-more h b bs m = rw (m, scan)

-- The tag that follows the mark is what the search returns.
scan_loop-some :
    (bs : List ℕ) (fuel h : ℕ) (r : Reader) (cs : List ℕ)
    → rest r ≡ bs
    → length bs < fuel
    → scan h bs ≡ some cs
    → (r' : Reader) × (rest r' ≡ cs) × (scan_loop fuel h r ≡ read_byte r')
scan_loop-some [] fuel h r cs e f s = unfold scan in cc
scan_loop-some (b ∷ bs) zero h r cs e f s = absurd (omega arith)
scan_loop-some (b ∷ bs) (suc fuel) h r cs e f s = elim (Bool-cases (is_mark (shift_history h b))) [
  | inl found ↦
      let here : some bs ≡ some cs = sym (scan-mark h b bs found) ∙ s in
      (next r, rest-next r b bs e ∙ cc, scan_loop-mark fuel h b bs r e found)
  | inr more ↦
      let (r', left, found) =
        scan_loop-some bs fuel (shift_history h b) (next r) cs (rest-next r b bs e) (omega arith)
          (sym (scan-more h b bs more) ∙ s) in
      (r', left, scan_loop-more fuel h b bs r e more ∙ found)
]

scan_loop-none :
    (bs : List ℕ) (fuel h : ℕ) (r : Reader)
    → rest r ≡ bs
    → length bs < fuel
    → scan h bs ≡ none
    → Fails (scan_loop fuel h) r
scan_loop-none [] fuel h r e f s = scan_loop-nil fuel h r e (omega arith)
scan_loop-none (b ∷ bs) zero h r e f s = absurd (omega arith)
scan_loop-none (b ∷ bs) (suc fuel) h r e f s = elim (Bool-cases (is_mark (shift_history h b))) [
  | inl found ↦ let here : some bs ≡ none = sym (scan-mark h b bs found) ∙ s in absurd (cc)
  | inr more ↦
      let later =
        scan_loop-none bs fuel (shift_history h b) (next r) (rest-next r b bs e) (omega arith)
          (sym (scan-more h b bs more) ∙ s) in
      record {
        after = later.after;
        result = scan_loop-more fuel h b bs r e more ∙ later.result;
        left = later.left;
      }
]

pub fuel_for-rest : (r : Reader) → fuel_for r ≡ suc (length (rest r))
unfolding fuel_for
fuel_for-rest r = omega (arith, length-rest r)

-- Where the half-bits that are left have a first mark and a tag byte behind it, scanIBMPC returns
-- the tag, and leaves what follows it.
pub scan_ibmpc-Reads :
    (r : Reader) (tag l : ℕ) (ss : List Symbol)
    → IsByte tag
    → scan 0 (rest r) ≡ some (emit l (byte_symbols tag ++ ss))
    → Reads scan_ibmpc r tag (emit (tag % 2) ss)
unfolding scan_ibmpc
scan_ibmpc-Reads r tag l ss ht s =
    let (r', left, found) =
      scan_loop-some (rest r) (fuel_for r) 0 r _ refl (omega (arith, fuel_for-rest r)) s in
    let reads = read_byte-Reads tag l ss r' ht left in
    record { after = reads.after; result = found ∙ reads.result; left = reads.left }

-- Where the half-bits that are left have no mark, scanIBMPC fails with all of them read.
pub scan_ibmpc-Fails : (r : Reader) → scan 0 (rest r) ≡ none → Fails scan_ibmpc r
unfolding scan_ibmpc
scan_ibmpc-Fails r s =
    let ends = scan_loop-none (rest r) (fuel_for r) 0 r refl (omega (arith, fuel_for-rest r)) s in
    record { after = ends.after; result = ends.result; left = ends.left }
