-- ===== src/Mfm/Reader/Count.antt =====
-- `CountSectorsIBMPC` of mfm/reader.go on a track of mfm/writer.go.
use fdx.Prelude.{ℕ, zero, suc, ◌+◌, ◌-◌, ◌*◌, ◌%◌, ◌≤◌, ◌<◌, ◌≡◌, refl, ap, subst, ◌∙◌, arith}
use fdx.Prelude.{false, ◌==◌, ==_refl, none, IsByte, IsBit, All, u8, append_assoc}
use fdx.Prelude.{List, [], ◌∷◌, ◌++◌, length, get_or}
use fdx.Mfm.Symbols.{Symbol, emit, last_bit, byte_symbols, bytes_symbols, gap_symbols}
use fdx.Mfm.Symbols.Track.{sum_bytes, header_bytes, header_symbols, data_symbols, sectors_symbols}
use fdx.Mfm.Symbols.Width.{IsSector}
use fdx.Mfm.Writer.{header_sum, data_sum}
use fdx.Mfm.Reader.{Reader, got, failed, attempt, read_header, scan_ibmpc, is_good_sum, insert}
use fdx.Mfm.Reader.{SectorHeader, count_header, count_sectors_loop}
use fdx.Mfm.Reader.Bits.{rest}
use fdx.Mfm.Reader.Scan.{scan, scan_ibmpc-Reads, scan_ibmpc-Fails}
use fdx.Mfm.Reader.Gaps.{gap_history, a1_found, steady, gap_add, gap-a1}
use fdx.Mfm.Reader.Parts.{read_header-Reads, header_of}
use fdx.Mfm.Reader.Quiet.{Quiet-bytes}
use fdx.Mfm.Reader.Wash.{Quiet-start, Quiet-gap}
use fdx.Mfm.Reader.Sectors.{header_sum-lt}
use fdx.Mfm.Reader.Sequence.{regroup}

-- Whatever bytes a sector and its checksum are, a search that begins at them finds no mark in them:
-- it reaches the end of the gap behind them, which is of four bytes or more, in the state of a gap.
pub past_data :
    (b : ℕ) (bs cs : List ℕ) (l g : ℕ) (ss : List Symbol)
    → IsByte b
    → IsBit l
    → 4 ≤ g
    → scan 0 (emit l (bytes_symbols (b ∷ bs) ++ (bytes_symbols cs ++ (gap_symbols g 0x4e ++ ss))))
      ≡ scan gap_history (emit 0 ss)
past_data b bs cs l g ss hb hl hg =
    let gap = gap_symbols g 0x4e ++ ss in
    let (h, q, e) = Quiet-start l b (bytes_symbols bs ++ (bytes_symbols cs ++ gap)) hl hb in
    let (h1, q1, e1) = Quiet-bytes bs h (b % 2) (bytes_symbols cs ++ gap) q in
    let l1 = last_bit (b % 2) (bytes_symbols bs) in
    let (h2, q2, e2) = Quiet-bytes cs h1 l1 gap q1 in
    let l2 = last_bit l1 (bytes_symbols cs) in
    let four : g ≡ 4 + (g - 4) = omega arith in
    e
    ∙ e1
    ∙ e2
    ∙ ap (λ k. scan h2 (emit l2 (gap_symbols k 0x4e ++ ss))) four
    ∙ ap (λ t. scan h2 (emit l2 t)) (gap_add 4 (g - 4) 0x4e ss)
    ∙ Quiet-gap h2 l2 (gap_symbols (g - 4) 0x4e ++ ss) q2
    ∙ steady (g - 4) ss

past_sector :
    (d cs : List ℕ) (l g : ℕ) (ss : List Symbol)
    → IsSector d
    → IsBit l
    → 4 ≤ g
    → scan 0 (emit l ((bytes_symbols d ++ bytes_symbols cs) ++ (gap_symbols g 0x4e ++ ss)))
      ≡ scan gap_history (emit 0 ss)
past_sector [] cs l g ss hd hl hg = absurd (omega (arith, hd.size))
past_sector (b ∷ bs) cs l g ss hd hl hg =
    ap (λ t. scan 0 (emit l t)) (append_assoc (bytes_symbols (b ∷ bs)) (bytes_symbols cs) _)
    ∙ past_data b bs cs l g ss hd.bytes.0 hl hg

-- A number above all those in the set makes it larger by one.
pub insert-new :
    (k : ℕ) (js : List ℕ)
    → All (λ j. j < k) js
    → (length (insert k js) ≡ suc (length js)) × All (λ j. j < suc k) (insert k js)
unfolding insert
insert-new k [] h = (refl, (omega arith, tt))
insert-new k (j ∷ js) h =
    let (longer, below) = insert-new k js h.1 in
    let other : (j == k) ≡ false = ground arith in rw other (ap suc longer, (omega arith, below))

-- What the loop does with a mark that is no sector header, with a header, and with none.
pub count-other :
    (fuel : ℕ) (set : List ℕ) (r r' : Reader) (tag : ℕ)
    → scan_ibmpc r ≡ got tag r'
    → (tag == 0xfe) ≡ false
    → count_sectors_loop (suc fuel) set r ≡ count_sectors_loop fuel set r'
unfolding count_sectors_loop
count-other fuel set r r' tag e t = rw (e, count_sectors_loop) (rw t)

count-header :
    (fuel : ℕ) (set : List ℕ) (r r' r'' : Reader) (h : SectorHeader)
    → scan_ibmpc r ≡ got 0xfe r'
    → read_header r' ≡ got h r''
    → count_sectors_loop (suc fuel) set r ≡ count_sectors_loop fuel (count_header h set) r''
unfolding count_sectors_loop
count-header fuel set r r' r'' h e t = rw (e, count_sectors_loop) (rw (t, attempt))

count-end :
    (fuel : ℕ) (set : List ℕ) (r r' : Reader)
    → scan_ibmpc r ≡ failed r'
    → count_sectors_loop (suc fuel) set r ≡ got (length set) r'
unfolding count_sectors_loop
count-end fuel set r r' e = rw (e, count_sectors_loop)

good_header :
    (c h s : ℕ) (set : List ℕ)
    → IsByte (s + 1)
    → count_header
        (header_of (u8 c) (u8 h) (u8 (s + 1)) 2 (header_sum (u8 c) (u8 h) (u8 (s + 1)) 2))
        set
      ≡ insert s set
unfolding count_header is_good_sum
good_header c h s set hs =
    let good = ==_refl (header_sum (u8 c) (u8 h) (u8 (s + 1)) 2) in
    let some_sector : (u8 (s + 1) == 0) ≡ false = ground arith in
    let index : u8 (s + 1) - 1 ≡ s = omega arith in
    rw (good, some_sector) (ap (λ k. insert k set) index)

module _ (sectors : List (List ℕ)) (c h hgap sgap : ℕ) (hg : 4 ≤ hgap) (sg : 4 ≤ sgap) (count : ℕ)
    (small : count < 256) (has : (s : ℕ) → s < count → IsSector (get_or sectors s [])) where
  -- What is ahead: sectors `s` to `s + n - 1`, then `tail`, behind a gap or behind data and a gap.
  abbrev pub Behind : Reader → ℕ → ℕ → List Symbol → Type 0
  Behind r n s tail =
      scan 0 (rest r)
      ≡ scan gap_history (emit 0 (sectors_symbols n sectors c h hgap sgap s ++ tail))

  -- One sector takes two rounds: its header, which is counted, and its data, which are not.
  count_sector :
      (fuel n s : ℕ) (set : List ℕ) (tail : List Symbol) (r : Reader)
      → s < count
      → Behind r (suc n) s tail
      → (r' : Reader) × (count_sectors_loop (suc (suc fuel)) set r
          ≡ count_sectors_loop fuel (insert s set) r')
        × Behind r' n (s + 1) tail
  unfolding sectors_symbols
  count_sector fuel n s set tail r hs e =
      let d = get_or sectors s [] in
      let later = sectors_symbols n sectors c h hgap sgap (s + 1) ++ tail in
      let behind = data_symbols d ++ (gap_symbols sgap 0x4e ++ later) in
      let sum = header_sum (u8 c) (u8 h) (u8 (s + 1)) 2 in
      let sum-lt : sum < 65536 = header_sum-lt (u8 c) (u8 h) (u8 (s + 1)) 2 (omega arith) in
      let header = bytes_symbols (header_bytes c h s) ++ (gap_symbols hgap 0x4e ++ behind) in
      let marked = scan_ibmpc-Reads r 0xfe 1 header (omega arith) (
        e
        ∙ ap (λ t. scan gap_history (emit 0 t))
            (regroup (header_symbols c h s) (gap_symbols hgap 0x4e) (data_symbols d)
              (gap_symbols sgap 0x4e) (sectors_symbols n sectors c h hgap sgap (s + 1)) tail)
        ∙ a1_found (byte_symbols 0xfe ++ header)) in
      let read =
        read_header-Reads (u8 c) (u8 h) (u8 (s + 1)) 2 sum 0 (gap_symbols hgap 0x4e ++ behind)
          marked.after (omega arith) sum-lt marked.left in
      let data' =
        (bytes_symbols d ++ bytes_symbols (sum_bytes (data_sum d)))
        ++ (gap_symbols sgap 0x4e ++ later) in
      let data_mark = scan_ibmpc-Reads read.after 0xfb 1 data' (omega arith) (
        ap (scan 0) read.left
        ∙ gap-a1 hgap (sum % 2) (byte_symbols 0xfb ++ data') (omega arith) hg) in
      (
        data_mark.after,
        count-header (suc fuel) set r marked.after read.after _ marked.result read.result
            ∙ count-other fuel _ read.after data_mark.after 0xfb data_mark.result refl
            ∙ ap (λ js. count_sectors_loop fuel js data_mark.after)
                (good_header c h s set (omega arith)),
        ap (scan 0) data_mark.left
            ∙ past_sector d (sum_bytes (data_sum d)) 1 sgap later (has s hs) (omega arith) sg,
      )

  -- The sectors from `s` on are counted, and the loop ends at the end of the track.
  pub count_rest :
      (n s fuel : ℕ) (set : List ℕ) (tail : List Symbol) (r : Reader)
      → s + n ≡ count
      → 2 * n < fuel
      → length set ≡ s
      → All (λ j. j < s) set
      → scan gap_history (emit 0 tail) ≡ none
      → Behind r n s tail
      → (r' : Reader) × (count_sectors_loop fuel set r ≡ got count r')
  unfolding sectors_symbols
  count_rest zero s zero set tail r hs hf len below end e = absurd (omega arith)
  count_rest zero s (suc fuel) set tail r hs hf len below end e =
      let none_left = scan_ibmpc-Fails r (e ∙ end) in
      let all : length set ≡ count = omega arith in
      (
        none_left.after,
        count-end fuel set r none_left.after none_left.result ∙ ap (λ k. got k none_left.after) all,
      )
  count_rest (suc n) s zero set tail r hs hf len below end e = absurd (omega arith)
  count_rest (suc n) s (suc zero) set tail r hs hf len below end e = absurd (omega arith)
  count_rest (suc n) s (suc (suc fuel)) set tail r hs hf len below end e =
      let (r1, counted, left) = count_sector fuel n s set tail r (omega arith) e in
      let (longer, below') = insert-new s set below in
      let one : suc s ≡ s + 1 = omega arith in
      let (r2, ends) =
        count_rest n (s + 1) fuel (insert s set) tail r1 (omega arith) (omega arith)
          (omega (arith, longer)) (subst (λ k. All (λ j. j < k) (insert s set)) one below') end
          left in
      (r2, counted ∙ ends)
