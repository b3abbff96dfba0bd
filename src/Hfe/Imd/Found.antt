-- ===== src/Hfe/Imd/Found.antt =====
-- hfe/imd.go: the loop of WriteIMD that reads the sectors of a track finds those that
-- mfm/writer.go wrote, in order.
use fdx.Prelude.{ℕ, zero, suc, ◌+◌, ◌%◌, ◌≤◌, ◌<◌, ◌≡◌, refl, ap, ◌∙◌, sym, subst, arith, false}
use fdx.Prelude.{IsByte, IsBit, List, [], ◌∷◌, ◌++◌, length, get_or, length-append}
use fdx.Prelude.Int.{ℤ, pos}
use fdx.Mfm.Symbols.{emit, emit-append, last_bit}
use fdx.Mfm.Symbols.Track.{sectors_symbols}
use fdx.Mfm.Symbols.Width.{HasSectors, track_symbols, track_width, length-emit, width-track}
use fdx.Mfm.Writer.{data_sum, new_writer, encode_track_ibm_internal, header_gap, sector_gap}
use fdx.Mfm.Reader.{Reader, M, got, new_reader, fuel_for, read_sector_loop, read_sector_ibmpc}
use fdx.Mfm.Reader.Bits.{rest, Fails}
use fdx.Mfm.Reader.Scan.{scan, fuel_for-rest}
use fdx.Mfm.Reader.Sequence.{Ahead, no_more_sectors, raw, cut_gap, scan-cut_gap}
use fdx.Hfe.Collect.{store}
use fdx.Hfe.Collect.Map.{Holds, Holds-empty, Holds-store}
use fdx.Hfe.Collect.Track.{read_next}
use fdx.Hfe.Collect.Encoded.{encoded-rest, first_read, hg, sg}
use fdx.Hfe.Collect.Counted.{track_long}
use fdx.Hfe.Imd.Write.{Found, note_number, note_sector, find_sectors}

-- The numbers below `n`, in order.
abbrev pub numbers_below : ℕ → List ℕ
numbers_below zero = []
numbers_below (suc n) = numbers_below n ++ n ∷ []

find_sectors-got :
    (fuel : ℕ) (read : M (ℤ × List ℕ)) (found : Found) (s : ℤ × List ℕ) (r r' : Reader)
    → read r ≡ got s r'
    → find_sectors (suc fuel) read found r ≡ find_sectors fuel read (note_sector s found) r'
unfolding find_sectors
find_sectors-got fuel read found s r r' e = rw (e, find_sectors) refl

find_sectors-Fails :
    (fuel : ℕ) (read : M (ℤ × List ℕ)) (found : Found) (r : Reader)
    → Fails read r
    → (r' : Reader) × (find_sectors (suc fuel) read found r ≡ got found r')
unfolding find_sectors
find_sectors-Fails fuel read found r f = (f.after, rw (f.result, find_sectors) refl)

-- The next sector is new.
note_sector-new :
    (sectors : List (List ℕ)) (s : ℕ) (m : List (ℕ × List ℕ)) (d : List ℕ)
    → Holds sectors s m
    → note_sector (pos s, d) (m, numbers_below s) ≡ (store s d m, numbers_below (suc s))
unfolding note_sector note_number
note_sector-new sectors s m d h = rw (h.beyond s (omega arith), note_number) refl

module _ (sectors : List (List ℕ)) (c h bit_rate : ℕ) (hc : IsByte c) (hh : IsByte h) (spt : ℕ)
    (small : spt < 256) (has : HasSectors spt sectors) (k kk z : ℕ) (hz : z < 8) where
  abbrev hgap : ℕ
  hgap = header_gap bit_rate

  abbrev sgap : ℕ
  sgap = sector_gap bit_rate spt

  wide_header : 4 ≤ hgap
  wide_header = hg sectors c h bit_rate hc hh spt small has

  wide_sector : 4 ≤ sgap
  wide_sector = sg sectors c h bit_rate hc hh spt small has

  -- What is ahead of the reader, up to the end of the track.
  abbrev Before : Reader → ℕ → ℕ → ℕ → ℕ → Type 0
  Before r l g n s =
      Ahead sectors c h hgap sgap hc hh wide_header wide_sector r l g n s (raw (cut_gap k kk z))

  last_read :
      (s l g : ℕ) (r : Reader)
      → IsBit l
      → 4 ≤ g
      → Before r l g 0 s
      → Fails (read_sector_ibmpc c h) r
  unfolding read_sector_ibmpc sectors_symbols
  last_read s l g r hl gg e =
      let fails =
        no_more_sectors sectors c h hgap sgap hc hh wide_header wide_sector (length (rest r)) r
          (ap (scan 0) e ∙ scan-cut_gap g l k kk z hl gg hz) in
      record {
        after = fails.after;
        result = ap (λ f. read_sector_loop f c h r) (fuel_for-rest r) ∙ fails.result;
        left = fails.left;
      }

  found_rest :
      (n s l g fuel : ℕ) (m : List (ℕ × List ℕ)) (r : Reader)
      → IsBit l
      → 4 ≤ g
      → s + n ≡ spt
      → n < fuel
      → Holds sectors s m
      → Before r l g n s
      → (m' : List (ℕ × List ℕ)) × (r' : Reader) × (find_sectors fuel
            (read_sector_ibmpc c h)
            (m, numbers_below s)
            r
          ≡ got (m', numbers_below spt) r')
        × Holds sectors spt m'
  found_rest n s l g zero m r hl gg hs hf hm e = absurd (omega arith)
  found_rest zero s l g (suc fuel) m r hl gg hs hf hm e =
      let done : s ≡ spt = omega arith in
      let (r', ends) =
        find_sectors-Fails fuel (read_sector_ibmpc c h) (m, numbers_below s) r
          (last_read s l g r hl gg e) in
      (m, r', ends ∙ ap (λ k'. got (m, numbers_below k') r') done, rw done at hm)
  found_rest (suc n) s l g (suc fuel) m r hl gg hs hf hm e =
      let d = get_or sectors s [] in
      let (r1, found, ahead) =
        read_next sectors c h hgap sgap hc hh wide_header wide_sector spt small has n s l g
          (raw (cut_gap k kk z)) r hl gg (omega arith) e in
      let step : suc s ≡ s + 1 = omega arith in
      let ahead' = subst (Before r1 (data_sum d % 2) sgap n) (sym step) ahead in
      let (m', r', ends, holds) =
        found_rest n (suc s) (data_sum d % 2) sgap fuel (store s d m) r1 (omega arith) wide_sector
          (omega arith) (omega arith) (Holds-store sectors s m hm) ahead' in
      (
        m',
        r',
        find_sectors-got fuel (read_sector_ibmpc c h) (m, numbers_below s) (pos s, d) r r1 found
            ∙ ap (λ f. find_sectors fuel (read_sector_ibmpc c h) f r1)
                (note_sector-new sectors s m d hm)
            ∙ ends,
        holds,
      )

module _ (sectors : List (List ℕ)) (c h bit_rate : ℕ) (hc : IsByte c) (hh : IsByte h) (n : ℕ)
    (small : suc n < 256) (has : HasSectors (suc n) sectors) where
  -- Where at least one sector was written, and all of them fit, the loop that reads until an error
  -- finds them and no other, and their numbers in order.
  pub find-encode_track :
      (max : ℕ)
      → track_width (suc n) bit_rate false ≤ max
      → (m : List (ℕ × List ℕ)) × (r' : Reader) × (find_sectors
            (fuel_for (
              new_reader
                (encode_track_ibm_internal sectors c h (suc n) bit_rate false (new_writer max))))
            (read_sector_ibmpc c h)
            ([], [])
            (new_reader
              (encode_track_ibm_internal sectors c h (suc n) bit_rate false (new_writer max)))
          ≡ got (m, numbers_below (suc n)) r')
        × Holds sectors (suc n) m
  find-encode_track max fits =
      let r =
        new_reader
          (encode_track_ibm_internal sectors c h (suc n) bit_rate false (new_writer max)) in
      let (k, kk, z, hz, e) = encoded-rest sectors c h (suc n) bit_rate false max has fits in
      let track = track_symbols sectors c h (suc n) bit_rate false in
      let d = get_or sectors 0 [] in
      let tail = raw (cut_gap k kk z) in
      let len : suc n < length (rest r) = omega (
        arith,
        track_long (suc n) bit_rate false,
        ap length e,
        ap length (emit-append 0 track tail),
        length-append (emit 0 track) (emit (last_bit 0 track) tail),
        length-emit 0 track,
        width-track sectors c h (suc n) bit_rate false has,
      ) in
      let (r1, found, ahead) =
        first_read sectors c h bit_rate hc hh (suc n) small has n tail r refl e in
      let (m, r', ends, holds) =
        found_rest sectors c h bit_rate hc hh (suc n) small has k kk z hz n 1 (data_sum d % 2)
          (sector_gap bit_rate (suc n)) (length (rest r)) (store 0 d []) r1 (omega arith)
          (sg sectors c h bit_rate hc hh (suc n) small has) (omega arith) (omega arith)
          (Holds-store sectors 0 [] (Holds-empty sectors)) ahead in
      (
        m,
        r',
        ap (λ f. find_sectors f (read_sector_ibmpc c h) ([], []) r) (fuel_for-rest r)
            ∙ find_sectors-got (length (rest r)) (read_sector_ibmpc c h) ([], []) (pos 0, d) r r1
                found
            ∙ ap (λ f. find_sectors (length (rest r)) (read_sector_ibmpc c h) f r1)
                (note_sector-new sectors 0 [] d (Holds-empty sectors))
            ∙ ends,
        holds,
      )
