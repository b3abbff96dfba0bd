-- ===== src/Hfe/Verify/Same.antt =====
-- A track that holds the sectors written passes the comparison of hfe/verify.go.
use fdx.Prelude.{
  ℕ, zero, suc, ◌+◌, ◌%◌, ◌≤◌, ◌<◌, ◌≡◌, refl, ap, sym, ◌∙◌, arith, Bool, true, false,
}
use fdx.Prelude.{
  ==_refl, ltb, leb_of_le, leb_of_lt, IsByte, IsBit, List, [], ◌∷◌, ◌++◌, length, get_or,
  append_assoc, length-append,
}
use fdx.Prelude.Int.{ℤ, pos}
use fdx.Mfm.Symbols.{Symbol, emit, gap_symbols, emit-append, last_bit}
use fdx.Mfm.Symbols.Track.{sectors_symbols}
use fdx.Mfm.Symbols.Width.{
  HasSectors, track_symbols, track_width, gaps_wide, length-emit, width-track,
}
use fdx.Mfm.Writer.{new_writer, header_gap, sector_gap, data_sum, encode_track_ibm_internal}
use fdx.Mfm.Reader.{Reader, M, got, fuel_for, new_reader, read_sector_ibmpc}
use fdx.Mfm.Reader.Bits.{rest}
use fdx.Mfm.Reader.Scan.{fuel_for-rest}
use fdx.Mfm.Reader.Sequence.{Ahead, raw, cut_gap}
use fdx.Prelude.{some}
use fdx.Hfe.Collect.{find}
use fdx.Hfe.Collect.Map.{Holds}
use fdx.Hfe.Collect.Track.{read_next}
use fdx.Hfe.Collect.Encoded.{encoded-rest, first_read, collect-encode_track}
use fdx.Hfe.Collect.Counted.{count-encode_track, track_long}
use fdx.Hfe.Verify.{equal, verified, sector_or_nil, compare_sector, same, compare_loop}
use fdx.Hfe.Verify.{verify_sectors, verify_track_ibmpc}

equal_refl : (xs : List ℕ) → equal xs xs ≡ true
unfolding equal
equal_refl [] = refl
equal_refl (x ∷ xs) = rw (==_refl x) (equal_refl xs)

pub held : (k : ℕ) (d : List ℕ) (m : List (ℕ × List ℕ)) → find k m ≡ some d → sector_or_nil k m ≡ d
unfolding sector_or_nil
held k d m e = rw (e, sector_or_nil) refl

-- A sector that the map holds is the same.
pub compare_sector-same :
    (n i : ℕ) (ds : List (List ℕ)) (m : List (ℕ × List ℕ))
    → i < n
    → Holds ds n m
    → compare_sector n m (pos i, get_or ds i []) ≡ same
unfolding compare_sector
compare_sector-same n i ds m hi h =
    let inside : ltb i n ≡ true = ground arith in
    rw (inside, held i (get_or ds i []) m (h.below i hi), equal_refl (get_or ds i [])) refl

compare_loop-done :
    (fuel n : ℕ) (read : M (ℤ × List ℕ)) (m : List (ℕ × List ℕ)) (r : Reader)
    → compare_loop (suc fuel) n read m n r ≡ verified
unfolding compare_loop
compare_loop-done fuel n read m r =
    rw (leb_of_le n n (omega arith), compare_loop) (rw (==_refl n) refl)

pub compare_loop-same :
    (fuel n count : ℕ) (read : M (ℤ × List ℕ)) (m : List (ℕ × List ℕ)) (r r' : Reader)
    (s : ℤ × List ℕ)
    → count < n
    → read r ≡ got s r'
    → compare_sector n m s ≡ same
    → compare_loop (suc fuel) n read m count r ≡ compare_loop fuel n read m (count + 1) r'
unfolding compare_loop
compare_loop-same fuel n count read m r r' s h e k =
    rw (leb_of_lt n count h, compare_loop) (rw e (rw k refl))

module _ (sectors : List (List ℕ)) (c h bit_rate : ℕ) (hc : IsByte c) (hh : IsByte h) (spt : ℕ)
    (small : spt < 256) (has : HasSectors spt sectors) (m : List (ℕ × List ℕ))
    (holds : Holds sectors spt m) where
  abbrev hgap : ℕ
  hgap = header_gap bit_rate

  abbrev sgap : ℕ
  sgap = sector_gap bit_rate spt

  hg : 4 ≤ hgap
  hg = omega (arith, gaps_wide bit_rate spt)

  sg : 4 ≤ sgap
  sg = omega (arith, gaps_wide bit_rate spt)

  -- The rest of a track whose first `s` sectors are compared.
  compare_rest :
      (n s l g fuel : ℕ) (tail : List Symbol) (r : Reader)
      → IsBit l
      → 4 ≤ g
      → s + n ≡ spt
      → n < fuel
      → Ahead sectors c h hgap sgap hc hh hg sg r l g n s tail
      → compare_loop fuel spt (read_sector_ibmpc c h) m s r ≡ verified
  compare_rest n s l g zero tail r hl gg hs hf e = absurd (omega arith)
  compare_rest zero s l g (suc fuel) tail r hl gg hs hf e =
      let done : s ≡ spt = omega arith in
      ap (λ k. compare_loop (suc fuel) spt (read_sector_ibmpc c h) m k r) done
      ∙ compare_loop-done fuel spt (read_sector_ibmpc c h) m r
  compare_rest (suc n) s l g (suc fuel) tail r hl gg hs hf e =
      let d = get_or sectors s [] in
      let (r1, found, ahead) =
        read_next sectors c h hgap sgap hc hh hg sg spt small has n s l g tail r hl gg (omega arith)
          e in
      compare_loop-same fuel spt s (read_sector_ibmpc c h) m r r1 (pos s, d) (omega arith) found
        (compare_sector-same spt s sectors m (omega arith) holds)
      ∙ compare_rest n (s + 1) (data_sum d % 2) sgap fuel tail r1 (omega arith) sg (omega arith)
          (omega arith) ahead

  compare_marked :
      (n fuel : ℕ) (tail : List Symbol) (r : Reader)
      → spt ≡ n
      → spt < fuel
      → rest r ≡ emit 0 (track_symbols sectors c h spt bit_rate false ++ tail)
      → compare_loop fuel spt (read_sector_ibmpc c h) m 0 r ≡ verified
  compare_marked n zero tail r e1 hf e = absurd (omega arith)
  compare_marked zero (suc fuel) tail r e1 hf e =
      ap (λ k. compare_loop (suc fuel) spt (read_sector_ibmpc c h) m k r) (sym e1)
      ∙ compare_loop-done fuel spt (read_sector_ibmpc c h) m r
  compare_marked (suc n) (suc fuel) tail r e1 hf e =
      let d = get_or sectors 0 [] in
      let (r1, found, ahead) = first_read sectors c h bit_rate hc hh spt small has n tail r e1 e in
      compare_loop-same fuel spt 0 (read_sector_ibmpc c h) m r r1 (pos 0, d) (omega arith) found
        (compare_sector-same spt 0 sectors m (omega arith) holds)
      ∙ ap (λ k. compare_loop fuel spt (read_sector_ibmpc c h) m k r1) (omega arith)
      ∙ compare_rest n 1 (data_sum d % 2) sgap fuel tail r1 (omega arith) sg (omega arith)
          (omega arith) ahead

  compare_either :
      (skip : Bool) (fuel : ℕ) (tail : List Symbol) (r : Reader)
      → spt < fuel
      → rest r ≡ emit 0 (track_symbols sectors c h spt bit_rate skip ++ tail)
      → compare_loop fuel spt (read_sector_ibmpc c h) m 0 r ≡ verified
  compare_either true fuel tail r hf e =
      compare_rest spt 0 0 50 fuel tail r (omega arith) (omega arith) (omega arith) hf (
        e
        ∙ ap (emit 0)
            (append_assoc (gap_symbols 50 0x4e) (sectors_symbols spt sectors c h hgap sgap 0) tail))
  compare_either false fuel tail r hf e = compare_marked spt fuel tail r refl hf e

  -- The comparison loop on an encoded track.
  compare_encoded :
      (skip : Bool) (max : ℕ)
      → track_width spt bit_rate skip ≤ max
      → (let r =
            new_reader (encode_track_ibm_internal sectors c h spt bit_rate skip (new_writer max)) in
          compare_loop (fuel_for r) spt (read_sector_ibmpc c h) m 0 r ≡ verified)
  compare_encoded skip max fits =
      let r =
        new_reader (encode_track_ibm_internal sectors c h spt bit_rate skip (new_writer max)) in
      let (n, k, z, hz, e) = encoded-rest sectors c h spt bit_rate skip max has fits in
      let track = track_symbols sectors c h spt bit_rate skip in
      let len : spt < fuel_for r = omega (
        arith,
        fuel_for-rest r,
        track_long spt bit_rate skip,
        ap length e,
        ap length (emit-append 0 track (raw (cut_gap n k z))),
        length-append (emit 0 track) (emit (last_bit 0 track) (raw (cut_gap n k z))),
        length-emit 0 track,
        width-track sectors c h spt bit_rate skip has,
      ) in
      compare_either skip (fuel_for r) (raw (cut_gap n k z)) r len e

module _ (sectors : List (List ℕ)) (c h : ℕ) (hc : IsByte c) (hh : IsByte h) (spt : ℕ)
    (small : spt < 256) (has : HasSectors spt sectors) where
  verify_sectors-same :
      (rate rate' max max' : ℕ) (skip skip' : Bool)
      → track_width spt rate skip ≤ max
      → track_width spt rate' skip' ≤ max'
      → verify_sectors spt
          (read_sector_ibmpc c h)
          (encode_track_ibm_internal sectors c h spt rate skip (new_writer max))
          (encode_track_ibm_internal sectors c h spt rate' skip' (new_writer max'))
        ≡ verified
  unfolding verify_sectors
  verify_sectors-same rate rate' max max' skip skip' fits fits' =
      let (m, r, collected, holds) =
        collect-encode_track sectors c h rate hc hh spt small has skip max fits in
      rw (collected, verify_sectors)
        (rw (holds.count, ==_refl spt)
          (compare_encoded sectors c h rate' hc hh spt small has m holds skip' max' fits'))

  -- VerifyTrackIBMPC accepts a track against another encoding of the same sectors, fewer than 256
  -- of 512 bytes each, where they fit on both tracks, at any two bit rates and with or without an
  -- index mark. Cylinder and head are bytes.
  pub verify_track-same :
      (rate rate' max max' : ℕ) (skip skip' : Bool)
      → track_width spt rate skip ≤ max
      → track_width spt rate' skip' ≤ max'
      → verify_track_ibmpc c h
          (encode_track_ibm_internal sectors c h spt rate skip (new_writer max))
          (encode_track_ibm_internal sectors c h spt rate' skip' (new_writer max'))
        ≡ verified
  unfolding verify_track_ibmpc
  verify_track-same rate rate' max max' skip skip' fits fits' =
      let (r1, counted) = count-encode_track sectors c h rate spt small has skip max fits in
      let (r2, counted') = count-encode_track sectors c h rate' spt small has skip' max' fits' in
      rw (counted, verify_track_ibmpc)
        (rw counted'
          (rw (==_refl spt) (verify_sectors-same rate rate' max max' skip skip' fits fits')))
