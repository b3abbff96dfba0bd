-- ===== src/Mfm/Reader/Quiet.antt =====
-- Data never looks like a mark: whatever bytes are encoded, the search of mfm/reader.go passes
-- over them, because a mark leaves out a clock half-bit that data always has.
use fdx.Prelude.{ℕ, zero, suc, ◌+◌, ◌*◌, ◌/◌, ◌%◌, ◌^◌, ◌<◌, bit_or, ◌≡◌, refl, ap, ◌∙◌, arith}
use fdx.Prelude.{Bool, true, false, not, ◌&&◌, ◌==◌, ==_iff, if◌then◌else◌, IsBit, All}
use fdx.Prelude.{List, [], ◌∷◌, ◌++◌}
use fdx.Prelude.Bits.{bit_or_fields}
use fdx.Prelude.Tables.{holds_below, holds_below_sound}
use fdx.Mfm.Symbols.{Symbol, bit, clock, emit, last_bit, byte_bits, bytes_symbols}
use fdx.Mfm.Reader.{shift_history, is_mark}
use fdx.Mfm.Reader.Bits.{data_bits}
use fdx.Mfm.Reader.Scan.{scan, scan-more}

-- The sixteen half-bits of the eight lowest digits of `p`, each after the digit above it.
code_of : ℕ → ℕ → ℕ
code_of zero p = 0
code_of (suc n) p = code_of n (p / 2) * 4 + (clock (p / 2 % 2) (p % 2) * 2 + p % 2)

unfoldable pub code : ℕ → ℕ
unfolding code_of
code p = code_of 8 p

pub shift_sum : (h b : ℕ) → h < 2 ^ 48 → IsBit b → shift_history h b ≡ (h * 2 + b) % 2 ^ 48
unfolding shift_history
shift_sum h b hh hb =
    let e : h * 2 % 2 ^ 64 ≡ h * 2 ^ 1 = omega arith in
    ap (λ t. bit_or t b % 2 ^ 48) e ∙ ap (λ t. t % 2 ^ 48) (bit_or_fields 1 h b (omega arith))

-- A mark shows in the low sixteen half-bits.
no_mark :
    (h v : ℕ) → h % 65536 ≡ v → (v == 0x4489) ≡ false → (v == 0x5284) ≡ false → is_mark h ≡ false
unfolding is_mark
no_mark h v e a b = ground arith

quiet_value : ℕ → Bool
quiet_value v = not (v == 0x4489) && not (v == 0x5284)

no_mark-of_quiet : (h v : ℕ) → h % 65536 ≡ v → quiet_value v ≡ true → is_mark h ≡ false
unfolding quiet_value
no_mark-of_quiet h v e q = no_mark h v e (ground arith) (ground arith)

-- One more data bit `d` after the digits `p`: its clock half-bit ends no mark, nor does it, and the
-- low half-bits are those of the digits with `d` appended.
bit_test : ℕ → ℕ → Bool
bit_test p d =
    let c = clock (p % 2) d in
    quiet_value ((code p * 2 + c) % 65536)
    && (quiet_value ((code p * 4 + (c * 2 + d)) % 65536)
        && (code p * 4 + (c * 2 + d)) % 65536 == code ((p * 2 + d) % 512))

bit_table : (p d : ℕ) → p < 512 → d < 2 → bit_test p d ≡ true
unfolding bit_test holds_below quiet_value code
bit_table p d hp hd =
    holds_below_sound 2 (bit_test p)
      (holds_below_sound 512 (λ q. holds_below 2 (bit_test q)) refl p hp) d hd

-- The history of a search that has passed over data, the last bit being `l`.
pub record Quiet (h l : ℕ) : Type 0 where
  pub digits : ℕ
  pub few : digits < 512
  pub last : digits % 2 ≡ l
  pub wide : h < 2 ^ 48
  pub low : h % 65536 ≡ code digits

bit_test_lem :
    (p d : ℕ)
    → p < 512
    → d < 2
    → (quiet_value ((code p * 2 + clock (p % 2) d) % 65536)
        && (quiet_value ((code p * 4 + (clock (p % 2) d * 2 + d)) % 65536)
            && (code p * 4 + (clock (p % 2) d * 2 + d)) % 65536 == code ((p * 2 + d) % 512)))
      ≡ true
unfolding bit_test
bit_test_lem p d hp hd = bit_table p d hp hd

clock-IsBit : (l d : ℕ) → IsBit (clock l d)
clock-IsBit l d = ground arith

and_both : (a b : Bool) → (a && b) ≡ true → (a ≡ true) × (b ≡ true)
and_both true true h = (refl, refl)
and_both true false h = cc
and_both false b h = cc

bit_facts :
    (p d l : ℕ)
    → p < 512
    → IsBit d
    → p % 2 ≡ l
    → (quiet_value ((code p * 2 + clock l d) % 65536) ≡ true)
      × (quiet_value ((code p * 4 + (clock l d * 2 + d)) % 65536) ≡ true)
      × ((code p * 4 + (clock l d * 2 + d)) % 65536 ≡ code ((p * 2 + d) % 512))
bit_facts p d l hp hd hl =
    let c = clock (p % 2) d in
    let v = (code p * 4 + (c * 2 + d)) % 65536 in
    let test : (quiet_value ((code p * 2 + c) % 65536)
          && (quiet_value v && v == code ((p * 2 + d) % 512)))
        ≡ true =
      bit_test_lem p d hp hd in
    let first = and_both (quiet_value ((code p * 2 + c) % 65536)) _ test in
    let second = and_both (quiet_value v) (v == code ((p * 2 + d) % 512)) first.1 in
    rw (← hl) (first.0, second.0, (==_iff v (code ((p * 2 + d) % 512))).0 second.1)

digit : (d : ℕ) → IsBit d → (if d == 0 then 0 else 1) ≡ d
digit zero h = refl
digit (suc zero) h = refl
digit (suc (suc d)) h = absurd (omega arith)

-- The history behind some half-bits.
unfoldable pub run : ℕ → List ℕ → ℕ
run h [] = h
run h (b ∷ bs) = run (shift_history h b) bs

-- The search passes over one data bit.
Quiet-bit :
    (h l d : ℕ) (ss : List Symbol)
    → Quiet h l
    → IsBit d
    → (h' : ℕ) × Quiet h' d
      × (scan h (emit l (bit d ∷ ss)) ≡ scan h' (emit d ss))
      × (run h (emit l (bit d ∷ [])) ≡ h')
unfolding run
Quiet-bit h l d ss q hd =
    let p = q.digits in
    let c = clock l d in
    let (quiet1, quiet2, same) = bit_facts p d l q.few hd q.last in
    let hc = clock-IsBit l d in
    let e1 : shift_history h c ≡ (h * 2 + c) % 2 ^ 48 = shift_sum h c q.wide hc in
    let h1 = shift_history h c in
    let wide1 : h1 < 2 ^ 48 = omega (arith, e1) in
    let e2 : shift_history h1 d ≡ (h1 * 2 + d) % 2 ^ 48 = shift_sum h1 d wide1 hd in
    let h2 = shift_history h1 d in
    let low1 : h1 % 65536 ≡ (code p * 2 + c) % 65536 = omega (arith, e1, q.low) in
    let low2 : h2 % 65536 ≡ (code p * 4 + (c * 2 + d)) % 65536 = omega (arith, e1, e2, q.low) in
    (
      h2,
      record {
        digits = (p * 2 + d) % 512;
        few = omega arith;
        last = omega arith;
        wide = omega (arith, e2);
        low = low2 ∙ same;
      },
      scan-more h c _ (no_mark-of_quiet h1 _ low1 quiet1)
          ∙ ap (λ k. scan h1 (k ∷ emit d ss)) (digit d hd)
          ∙ scan-more h1 d _ (no_mark-of_quiet h2 _ low2 quiet2),
      ap (shift_history h1) (digit d hd),
    )

pub Quiet-bits :
    (ds : List ℕ) (h l : ℕ) (ss : List Symbol)
    → Quiet h l
    → All IsBit ds
    → (h' : ℕ) × Quiet h' (last_bit l (data_bits ds))
      × (scan h (emit l (data_bits ds ++ ss)) ≡ scan h' (emit (last_bit l (data_bits ds)) ss))
      × (run h (emit l (data_bits ds)) ≡ h')
unfolding run
Quiet-bits [] h l ss q k = (h, q, refl, refl)
Quiet-bits (d ∷ ds) h l ss q k =
    let (h1, q1, e1, r1) = Quiet-bit h l d (data_bits ds ++ ss) q k.0 in
    let (h2, q2, e2, r2) = Quiet-bits ds h1 d ss q1 k.1 in
    (h2, q2, e1 ∙ e2, ap (λ g. run g (emit d (data_bits ds))) r1 ∙ r2)

-- The search passes over any bytes.
pub Quiet-bytes :
    (bs : List ℕ) (h l : ℕ) (ss : List Symbol)
    → Quiet h l
    → (h' : ℕ) × Quiet h' (last_bit l (bytes_symbols bs))
      × (scan h (emit l (bytes_symbols bs ++ ss))
          ≡ scan h' (emit (last_bit l (bytes_symbols bs)) ss))
Quiet-bytes [] h l ss q = (h, q, refl)
Quiet-bytes (b ∷ bs) h l ss q =
    let (h1, q1, e1, r1) = Quiet-bits (byte_bits b) h l (bytes_symbols bs ++ ss) q (omega arith) in
    let (h2, q2, e2) = Quiet-bytes bs h1 (b % 2) ss q1 in (h2, q2, e1 ∙ e2)
