-- ===== src/Mfm/Reader/Wash.antt =====
-- Behind data, the zeros before a mark and the bytes of a gap bring the search of mfm/reader.go to
-- a history that does not depend on the data.
use fdx.Prelude.{ℕ, ◌+◌, ◌*◌, ◌%◌, ◌^◌, ◌<◌, ◌≡◌, refl, ap, subst, ◌∙◌, arith}
use fdx.Prelude.{
  Bool, true, false, not, ◌&&◌, Bool-cases, inl, inr, ltb, ◌==◌, ==_iff, IsByte, IsBit, some,
}
use fdx.Prelude.{List, [], ◌∷◌, ◌++◌, replicate}
use fdx.Prelude.Tables.{holds_below, holds_below_sound}
use fdx.Mfm.Symbols.{Symbol, emit, byte_bits, byte_symbols, gap_symbols, a1_mark, a1_symbols}
use fdx.Mfm.Reader.{shift_history, is_mark}
use fdx.Mfm.Reader.Scan.{scan, scan-more}
use fdx.Mfm.Reader.Gaps.{gap_history}
use fdx.Mfm.Reader.Quiet.{run, code, shift_sum, Quiet, Quiet-bits, Quiet-bytes}

nibble :
    (h a b c d : ℕ)
    → h < 2 ^ 48
    → IsBit a
    → IsBit b
    → IsBit c
    → IsBit d
    → run h (a ∷ b ∷ c ∷ d ∷ []) ≡ (h * 16 + (a * 8 + (b * 4 + (c * 2 + d)))) % 2 ^ 48
unfolding run
nibble h a b c d hh ha hb hc hd =
    let e1 = shift_sum h a hh ha in
    let h1 = shift_history h a in
    let e2 = shift_sum h1 b (omega (arith, e1)) hb in
    let h2 = shift_history h1 b in
    let e3 = shift_sum h2 c (omega (arith, e2)) hc in
    let h3 = shift_history h2 c in
    let e4 = shift_sum h3 d (omega (arith, e3)) hd in
    let two : h2 ≡ (h * 4 + (a * 2 + b)) % 2 ^ 48 = omega (arith, e1, e2) in
    let four : shift_history h3 d ≡ (h2 * 4 + (c * 2 + d)) % 2 ^ 48 = omega (arith, e3, e4) in
    omega (arith, two, four)

-- Two steps of four half-bits.
twice :
    (h g k m n : ℕ)
    → g ≡ (h * 16 + m) % 2 ^ 48
    → k ≡ (g * 16 + n) % 2 ^ 48
    → k ≡ (h * 256 + (m * 16 + n)) % 2 ^ 48
twice h g k m n e f = omega arith

run-append : (xs ys : List ℕ) (h : ℕ) → run h (xs ++ ys) ≡ run (run h xs) ys
unfolding run
run-append [] ys h = refl
run-append (x ∷ xs) ys h = run-append xs ys (shift_history h x)

-- The half-bits of a zero byte, and of a gap byte, behind a zero.
zero_byte : (h : ℕ) → h < 2 ^ 48 → run h (emit 0 (byte_symbols 0)) ≡ (h * 65536 + 0xaaaa) % 2 ^ 48
unfolding run
zero_byte h hh =
    let one = λ (g : ℕ) (hg : g < 2 ^ 48).
      nibble g 1 0 1 0 hg (omega arith) (omega arith) (omega arith) (omega arith) in
    let h1 = run h (1 ∷ 0 ∷ 1 ∷ 0 ∷ []) in
    let e1 : h1 ≡ (h * 16 + 10) % 2 ^ 48 = one h hh in
    let h2 = run h1 (1 ∷ 0 ∷ 1 ∷ 0 ∷ []) in
    let e2 : h2 ≡ (h1 * 16 + 10) % 2 ^ 48 = one h1 (omega (arith, e1)) in
    let h3 = run h2 (1 ∷ 0 ∷ 1 ∷ 0 ∷ []) in
    let e3 : h3 ≡ (h2 * 16 + 10) % 2 ^ 48 = one h2 (omega (arith, e2)) in
    let h4 = run h3 (1 ∷ 0 ∷ 1 ∷ 0 ∷ []) in
    let e4 : h4 ≡ (h3 * 16 + 10) % 2 ^ 48 = one h3 (omega (arith, e3)) in
    omega (arith, twice h h1 h2 10 10 e1 e2, twice h2 h3 h4 10 10 e3 e4)

gap_byte : (h : ℕ) → h < 2 ^ 48 → run h (emit 0 (byte_symbols 0x4e)) ≡ (h * 65536 + 0x9254) % 2 ^ 48
unfolding run
gap_byte h hh =
    let h1 = run h (1 ∷ 0 ∷ 0 ∷ 1 ∷ []) in
    let e1 : h1 ≡ (h * 16 + 9) % 2 ^ 48 =
      nibble h 1 0 0 1 hh (omega arith) (omega arith) (omega arith) (omega arith) in
    let h2 = run h1 (0 ∷ 0 ∷ 1 ∷ 0 ∷ []) in
    let e2 : h2 ≡ (h1 * 16 + 2) % 2 ^ 48 =
      nibble h1 0 0 1 0 (omega (arith, e1)) (omega arith) (omega arith) (omega arith)
        (omega arith) in
    let h3 = run h2 (0 ∷ 1 ∷ 0 ∷ 1 ∷ []) in
    let e3 : h3 ≡ (h2 * 16 + 5) % 2 ^ 48 =
      nibble h2 0 1 0 1 (omega (arith, e2)) (omega arith) (omega arith) (omega arith)
        (omega arith) in
    let h4 = run h3 (0 ∷ 1 ∷ 0 ∷ 0 ∷ []) in
    let e4 : h4 ≡ (h3 * 16 + 4) % 2 ^ 48 =
      nibble h3 0 1 0 0 (omega (arith, e3)) (omega arith) (omega arith) (omega arith)
        (omega arith) in
    omega (arith, twice h h1 h2 9 2 e1 e2, twice h2 h3 h4 5 4 e3 e4)

-- The search over a byte between two zeros.
even_byte :
    (b h : ℕ) (ss : List Symbol)
    → b % 2 ≡ 0
    → Quiet h 0
    → (h' : ℕ) × Quiet h' 0
      × (run h (emit 0 (byte_symbols b)) ≡ h')
      × (scan h (emit 0 (byte_symbols b ++ ss)) ≡ scan h' (emit 0 ss))
even_byte b h ss even q =
    let (h', q', e, r) = Quiet-bits (byte_bits b) h 0 ss q (omega arith) in
    (h', subst (λ l. Quiet h' l) even q', r, e ∙ ap (λ l. scan h' (emit l ss)) even)

-- Three zero bytes, and three gap bytes, leave nothing of what was before them.
three_zeros :
    (h : ℕ) (ss : List Symbol)
    → Quiet h 0
    → scan h (emit 0 (gap_symbols 3 0 ++ ss)) ≡ scan 0xaaaa_aaaa_aaaa (emit 0 ss)
three_zeros h ss q =
    let (h1, q1, r1, e1) = even_byte 0 h (gap_symbols 2 0 ++ ss) refl q in
    let (h2, q2, r2, e2) = even_byte 0 h1 (gap_symbols 1 0 ++ ss) refl q1 in
    let (h3, q3, r3, e3) = even_byte 0 h2 ss refl q2 in
    let known : h3 ≡ 0xaaaa_aaaa_aaaa =
      omega (arith, zero_byte h q.wide, zero_byte h1 q1.wide, zero_byte h2 q2.wide) in
    e1 ∙ e2 ∙ e3 ∙ ap (λ g. scan g (emit 0 ss)) known

three_gaps :
    (h : ℕ) (ss : List Symbol)
    → Quiet h 0
    → scan h (emit 0 (gap_symbols 3 0x4e ++ ss)) ≡ scan gap_history (emit 0 ss)
three_gaps h ss q =
    let (h1, q1, r1, e1) = even_byte 0x4e h (gap_symbols 2 0x4e ++ ss) refl q in
    let (h2, q2, r2, e2) = even_byte 0x4e h1 (gap_symbols 1 0x4e ++ ss) refl q1 in
    let (h3, q3, r3, e3) = even_byte 0x4e h2 ss refl q2 in
    let known : h3 ≡ gap_history =
      omega (arith, gap_byte h q.wide, gap_byte h1 q1.wide, gap_byte h2 q2.wide) in
    e1 ∙ e2 ∙ e3 ∙ ap (λ g. scan g (emit 0 ss)) known

marks_found :
    (ss : List Symbol)
    → scan 0xaaaa_aaaa_aaaa (emit 0 (a1_symbols ++ (a1_symbols ++ a1_symbols) ++ ss))
      ≡ some (emit 1 ss)
unfolding scan shift_history is_mark
marks_found ss = refl

-- Behind any data, an A1 mark with its zeros is found where it ends, and not before.
pub Quiet-a1 :
    (h l : ℕ) (ss : List Symbol) → Quiet h l → scan h (emit l (a1_mark ++ ss)) ≡ some (emit 1 ss)
Quiet-a1 h l ss q =
    let marks = a1_symbols ++ (a1_symbols ++ a1_symbols) ++ ss in
    let (h0, q0, e0) = Quiet-bytes (replicate 9 0) h l (gap_symbols 3 0 ++ marks) q in
    e0 ∙ three_zeros h0 marks q0 ∙ marks_found ss

-- Behind any data four gap bytes bring the search to the history of a gap.
pub Quiet-gap :
    (h l : ℕ) (ss : List Symbol)
    → Quiet h l
    → scan h (emit l (gap_symbols 4 0x4e ++ ss)) ≡ scan gap_history (emit 0 ss)
Quiet-gap h l ss q =
    let (h0, q0, e0) = Quiet-bytes (0x4e ∷ []) h l (gap_symbols 3 0x4e ++ ss) q in
    e0 ∙ three_gaps h0 ss q0

-- Half-bits that end no mark, by evaluation.
calm : ℕ → List ℕ → Bool
calm h [] = true
calm h (b ∷ bs) = not (is_mark (shift_history h b)) && calm (shift_history h b) bs

calm_sound :
    (bs : List ℕ) (h : ℕ) (cs : List ℕ) → calm h bs ≡ true → scan h (bs ++ cs) ≡ scan (run h bs) cs
unfolding calm run
calm_sound [] h cs e = refl
calm_sound (b ∷ bs) h cs e = elim (Bool-cases (is_mark (shift_history h b))) [
  | inl mark ↦ absurd (cc (rw mark at e))
  | inr more ↦ scan-more h b (bs ++ cs) more ∙ calm_sound bs (shift_history h b) cs (rw more at e)
]

first_test : ℕ → ℕ → Bool
first_test l b =
    calm 0 (emit l (byte_symbols b))
    && (ltb (run 0 (emit l (byte_symbols b))) (2 ^ 48)
        && run 0 (emit l (byte_symbols b)) % 65536 == code (l * 256 + b))

first_table : (l b : ℕ) → l < 2 → b < 256 → first_test l b ≡ true
unfolding first_test calm run code shift_history is_mark holds_below
first_table l b hl hb =
    holds_below_sound 256 (first_test l)
      (holds_below_sound 2 (λ m. holds_below 256 (first_test m)) refl l hl) b hb

and_three : (a b c : Bool) → (a && (b && c)) ≡ true → (a ≡ true) × (b ≡ true) × (c ≡ true)
and_three true true true h = (refl, refl, refl)
and_three true true false h = cc
and_three true false c h = cc
and_three false b c h = cc

-- A search that begins at a byte is behind data after it.
pub Quiet-start :
    (l b : ℕ) (ss : List Symbol)
    → IsBit l
    → IsByte b
    → (h : ℕ) × Quiet h (b % 2)
      × (scan 0 (emit l (byte_symbols b ++ ss)) ≡ scan h (emit (b % 2) ss))
unfolding first_test
Quiet-start l b ss hl hb =
    let (calm', wide, low) = and_three _ _ _ (first_table l b hl hb) in
    let h = run 0 (emit l (byte_symbols b)) in
    (
      h,
      record {
        digits = l * 256 + b;
        few = omega arith;
        last = omega arith;
        wide = ground arith;
        low = (==_iff _ _).0 low;
      },
      calm_sound (emit l (byte_symbols b)) 0 (emit (b % 2) ss) calm',
    )
