-- ===== src/Mfm/Reader/Gaps.antt =====
-- The search through the gaps that mfm/writer.go puts before a mark: no mark is found too early.
use fdx.Prelude.{ℕ, zero, suc, ◌+◌, ◌-◌, ◌≤◌, ◌<◌, ◌≡◌, refl, ap, ◌∙◌, arith}
use fdx.Prelude.{Bool, true, false, IsBit, Option, some, none}
use fdx.Prelude.{List, ◌++◌, take, replicate}
use fdx.Prelude.{take-nil, take_within, take_beyond}
use native.Mathlib.Decide.{dec_lt}
use fdx.Prelude.Tables.{holds_below, holds_below_sound}
use fdx.Mfm.Symbols.{Symbol, emit, byte_symbols, gap_symbols, a1_mark, c2_mark}
use fdx.Mfm.Reader.{shift_history, is_mark}
use fdx.Mfm.Reader.Scan.{scan}

-- The last 48 half-bits inside a gap of 4E.
abbrev pub gap_history : ℕ
gap_history = 0x9254_9254_9254

four_bytes :
    (l : ℕ) (ss : List Symbol)
    → IsBit l
    → scan 0 (emit l (gap_symbols 4 0x4e ++ ss)) ≡ scan gap_history (emit 0 ss)
unfolding scan shift_history is_mark
four_bytes zero ss h = refl
four_bytes (suc zero) ss h = refl
four_bytes (suc (suc l)) ss h = absurd (omega arith)

one_byte :
    (ss : List Symbol)
    → scan gap_history (emit 0 (byte_symbols 0x4e ++ ss)) ≡ scan gap_history (emit 0 ss)
unfolding scan shift_history is_mark
one_byte ss = refl

pub a1_found : (ss : List Symbol) → scan gap_history (emit 0 (a1_mark ++ ss)) ≡ some (emit 1 ss)
unfolding scan shift_history is_mark
a1_found ss = refl

pub c2_found : (ss : List Symbol) → scan gap_history (emit 0 (c2_mark ++ ss)) ≡ some (emit 0 ss)
unfolding scan shift_history is_mark
c2_found ss = refl

pub steady :
    (n : ℕ) (ss : List Symbol)
    → scan gap_history (emit 0 (gap_symbols n 0x4e ++ ss)) ≡ scan gap_history (emit 0 ss)
steady zero ss = refl
steady (suc n) ss = one_byte (gap_symbols n 0x4e ++ ss) ∙ steady n ss

pub gap_add :
    (m n v : ℕ) (ss : List Symbol)
    → gap_symbols (m + n) v ++ ss ≡ gap_symbols m v ++ (gap_symbols n v ++ ss)
gap_add zero n v ss = ap (λ k. gap_symbols k v ++ ss) (omega arith)
gap_add (suc m) n v ss =
    let e : suc m + n ≡ suc (m + n) = omega arith in
    rw e (ap (λ t. byte_symbols v ++ t) (gap_add m n v ss))

-- Four bytes of the gap are enough to forget where the search began.
pub through_gap :
    (n l : ℕ) (ss : List Symbol)
    → IsBit l
    → 4 ≤ n
    → scan 0 (emit l (gap_symbols n 0x4e ++ ss)) ≡ scan gap_history (emit 0 ss)
through_gap n l ss hl hn =
    let e : n ≡ 4 + (n - 4) = omega arith in
    ap (λ k. scan 0 (emit l (gap_symbols k 0x4e ++ ss))) e
    ∙ ap (λ t. scan 0 (emit l t)) (gap_add 4 (n - 4) 0x4e ss)
    ∙ four_bytes l (gap_symbols (n - 4) 0x4e ++ ss) hl
    ∙ steady (n - 4) ss

-- Behind a gap of four bytes or more the search finds the first data mark, and no earlier one.
pub gap-a1 :
    (n l : ℕ) (ss : List Symbol)
    → IsBit l
    → 4 ≤ n
    → scan 0 (emit l (gap_symbols n 0x4e ++ (a1_mark ++ ss))) ≡ some (emit 1 ss)
gap-a1 n l ss hl hn = through_gap n l (a1_mark ++ ss) hl hn ∙ a1_found ss

pub gap-c2 :
    (n l : ℕ) (ss : List Symbol)
    → IsBit l
    → 4 ≤ n
    → scan 0 (emit l (gap_symbols n 0x4e ++ (c2_mark ++ ss))) ≡ some (emit 0 ss)
gap-c2 n l ss hl hn = through_gap n l (c2_mark ++ ss) hl hn ∙ c2_found ss

is_none : Option (List ℕ) → Bool
is_none none = true
is_none (some bs) = false

is_none_sound : (o : Option (List ℕ)) → is_none o ≡ true → o ≡ none
unfolding is_none
is_none_sound none h = refl
is_none_sound (some bs) h = cc

-- The end of the track cuts a gap byte anywhere, and up to seven zeros follow.
cut_byte :
    (k z : ℕ)
    → k < 16
    → z < 8
    → scan gap_history (take k (emit 0 (byte_symbols 0x4e)) ++ replicate z 0) ≡ none
unfolding scan shift_history is_mark holds_below is_none
cut_byte k z hk hz =
    let test = λ (k' z' : ℕ).
      is_none (scan gap_history (take k' (emit 0 (byte_symbols 0x4e)) ++ replicate z' 0)) in
    is_none_sound _ (
      holds_below_sound 8 (test k) (holds_below_sound 16 (λ k'. holds_below 8 (test k')) refl k hk)
        z hz)

cut_nothing : (z : ℕ) → z < 8 → scan gap_history (replicate z 0) ≡ none
cut_nothing z hz = cut_byte 0 z (omega arith) hz

one_cells :
    (bs : List ℕ) → scan gap_history (emit 0 (byte_symbols 0x4e) ++ bs) ≡ scan gap_history bs
unfolding scan shift_history is_mark
one_cells bs = refl

-- However the track is cut, its last gap holds no mark.
pub gap_end :
    (n k z : ℕ)
    → z < 8
    → scan gap_history (take k (emit 0 (gap_symbols n 0x4e)) ++ replicate z 0) ≡ none
gap_end zero k z hz = rw (take-nil ℕ k) (cut_nothing z hz)
gap_end (suc n) k z hz = elim (dec_lt k 16) [
  | yes inside ↦
      rw (take_within k (emit 0 (byte_symbols 0x4e)) (emit 0 (gap_symbols n 0x4e)) (omega arith))
        (cut_byte k z inside hz)
  | no beyond ↦
      let cells = emit 0 (byte_symbols 0x4e) in
      let later = emit 0 (gap_symbols n 0x4e) in
      ap (λ t. scan gap_history (t ++ replicate z 0)) (take_beyond k cells later (omega arith))
      ∙ one_cells (take (k - 16) later ++ replicate z 0)
      ∙ gap_end n (k - 16) z hz
]
