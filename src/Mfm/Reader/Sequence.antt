-- ===== src/Mfm/Reader/Sequence.antt =====
-- `ReadSectorIBMPC` of mfm/reader.go, called again and again on a track of mfm/writer.go.
use fdx.Prelude.{ℕ, zero, suc, ◌+◌, ◌%◌, ◌≤◌, ◌<◌, ◌≡◌, refl, ap, ◌∙◌, arith}
use fdx.Prelude.{none, IsByte, IsBit, All, append_assoc}
use fdx.Prelude.{List, [], ◌∷◌, ◌++◌, get_or, take, replicate, map}
use fdx.Prelude.Int.{pos}
use fdx.Mfm.Symbols.{Symbol, half, bit, emit, byte_symbols, gap_symbols}
use fdx.Mfm.Symbols.{c2_mark}
use fdx.Mfm.Symbols.Track.{header_symbols, data_symbols, sectors_symbols}
use fdx.Mfm.Symbols.Buffer.{append-All}
use fdx.Mfm.Symbols.Width.{IsSector}
use fdx.Mfm.Writer.{data_sum}
use fdx.Mfm.Reader.{Reader, got, ◌>>=◌, read_sector_round, read_sector_loop}
use fdx.Mfm.Reader.Bits.{rest, Fails}
use fdx.Mfm.Reader.Scan.{scan, scan_ibmpc-Reads, scan_ibmpc-Fails}
use fdx.Mfm.Reader.Gaps.{gap-c2, through_gap, gap_end, gap_history}
use fdx.Mfm.Reader.Sectors.{read_sector_round-Reads}

-- Half-bits as symbols that write themselves.
abbrev pub raw : List ℕ → List Symbol
raw bs = map half bs

pub emit-raw : (l : ℕ) (bs : List ℕ) → All IsBit bs → emit l (raw bs) ≡ bs
emit-raw l [] h = refl
emit-raw l (zero ∷ bs) h = ap (λ t. 0 ∷ t) (emit-raw l bs h.1)
emit-raw l (suc zero ∷ bs) h = ap (λ t. 1 ∷ t) (emit-raw l bs h.1)
emit-raw l (suc (suc b) ∷ bs) h = absurd (omega arith)

pub regroup {ℓ} :
    {A : Type ℓ} (a b c d e t : List A)
    → (((a ++ b) ++ (c ++ d)) ++ e) ++ t ≡ a ++ (b ++ (c ++ (d ++ (e ++ t))))
regroup a b c d e t = simp append_assoc

module _ (sectors : List (List ℕ)) (c h hgap sgap : ℕ) (hc : IsByte c) (hh : IsByte h)
    (hg : 4 ≤ hgap) (sg : 4 ≤ sgap) where
  -- What is ahead: a gap of `g` bytes, sectors `s` to `s + n - 1`, and `tail`.
  abbrev pub Ahead : Reader → ℕ → ℕ → ℕ → ℕ → List Symbol → Type 0
  Ahead r l g n s tail =
      rest r ≡ emit l (gap_symbols g 0x4e ++ (sectors_symbols n sectors c h hgap sgap s ++ tail))

  -- The next sector is returned, and the reader stands before the sectors behind it.
  pub next_sector :
      (fuel n s l g : ℕ) (tail : List Symbol) (r : Reader)
      → IsBit l
      → 4 ≤ g
      → IsByte (s + 1)
      → IsSector (get_or sectors s [])
      → Ahead r l g (suc n) s tail
      → (r' : Reader) × (read_sector_loop (suc fuel) c h r ≡ got (pos s, get_or sectors s []) r')
        × Ahead r' (data_sum (get_or sectors s []) % 2) sgap n (s + 1) tail
  unfolding read_sector_loop sectors_symbols
  next_sector fuel n s l g tail r hl gg hs hd e =
      let d = get_or sectors s [] in
      let later = sectors_symbols n sectors c h hgap sgap (s + 1) in
      let ahead =
        e
        ∙ ap (λ t. emit l (gap_symbols g 0x4e ++ t))
            (regroup (header_symbols c h s) (gap_symbols hgap 0x4e) (data_symbols d)
              (gap_symbols sgap 0x4e) later tail) in
      let reads =
        read_sector_round-Reads (λ r'. read_sector_loop fuel c h r') c h s g hgap l d
          (gap_symbols sgap 0x4e ++ (later ++ tail)) r hc hh hs hl gg hg hd ahead in
      (reads.after, reads.result, reads.left)

  -- An index mark ahead is passed over in one round.
  pub past_index_mark :
      (fuel l : ℕ) (ss : List Symbol) (r : Reader)
      → IsBit l
      → rest r ≡ emit l (gap_symbols 80 0x4e ++ (c2_mark ++ (byte_symbols 0xfc ++ ss)))
      → (r' : Reader) × (rest r' ≡ emit 0 ss)
        × (read_sector_loop (suc fuel) c h r ≡ read_sector_loop fuel c h r')
  unfolding read_sector_loop read_sector_round
  past_index_mark fuel l ss r hl e =
      let tagged =
        scan_ibmpc-Reads r 0xfc 0 ss (omega arith)
          (ap (scan 0) e ∙ gap-c2 80 l (byte_symbols 0xfc ++ ss) hl (omega arith)) in
      (tagged.after, tagged.left, rw (tagged.result, ◌>>=◌) refl)

  -- With no mark ahead the read fails.
  pub no_more_sectors :
      (fuel : ℕ) (r : Reader) → scan 0 (rest r) ≡ none → Fails (read_sector_loop (suc fuel) c h) r
  unfolding read_sector_loop read_sector_round
  no_more_sectors fuel r s =
      let ends = scan_ibmpc-Fails r s in
      record { after = ends.after; result = rw (ends.result, ◌>>=◌) refl; left = ends.left }

-- The end of a track: a gap, cut anywhere, and zeros to a whole byte.
abbrev pub cut_gap : ℕ → ℕ → ℕ → List ℕ
cut_gap n k z = take k (emit 0 (gap_symbols n 0x4e)) ++ replicate z 0

emit-IsBit : (l : ℕ) (ss : List Symbol) → All IsBit (emit l ss)
emit-IsBit l [] = tt
emit-IsBit l (bit d ∷ ss) = (ground arith, (ground arith, emit-IsBit d ss))
emit-IsBit l (half b ∷ ss) = (ground arith, emit-IsBit l ss)

take-IsBit : (k : ℕ) (bs : List ℕ) → All IsBit bs → All IsBit (take k bs)
take-IsBit zero bs h = tt
take-IsBit (suc k) [] h = tt
take-IsBit (suc k) (b ∷ bs) h = (h.0, take-IsBit k bs h.1)

zeros-IsBit : (z : ℕ) → All IsBit (replicate z 0)
zeros-IsBit zero = tt
zeros-IsBit (suc z) = (omega arith, zeros-IsBit z)

pub cut_gap-IsBit : (n k z : ℕ) → All IsBit (cut_gap n k z)
cut_gap-IsBit n k z =
    append-All IsBit (take k (emit 0 (gap_symbols n 0x4e))) (replicate z 0)
      (take-IsBit k _ (emit-IsBit 0 (gap_symbols n 0x4e))) (zeros-IsBit z)

-- Behind the last sector no mark is left.
pub scan-cut_gap :
    (g l n k z : ℕ)
    → IsBit l
    → 4 ≤ g
    → z < 8
    → scan 0 (emit l (gap_symbols g 0x4e ++ raw (cut_gap n k z))) ≡ none
scan-cut_gap g l n k z hl gg hz =
    through_gap g l (raw (cut_gap n k z)) hl gg
    ∙ ap (scan gap_history) (emit-raw 0 (cut_gap n k z) (cut_gap-IsBit n k z))
    ∙ gap_end n k z hz
