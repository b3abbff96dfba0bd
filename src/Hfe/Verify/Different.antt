-- ===== src/Hfe/Verify/Different.antt =====
-- A track that holds another sector fails the comparison of hfe/verify.go.
use fdx.Prelude.{
  ℕ, zero, suc, ◌+◌, ◌-◌, ◌%◌, ◌≤◌, ◌<◌, ◌≡◌, ◌≢◌, refl, ap, ap₂, sym, subst, ◌∙◌, arith, Bool,
  true, false,
}
use fdx.Prelude.{
  ◌==◌, ==_refl, ==_iff, ◌&&◌, Bool-cases, inl, inr, ltb, leb_of_lt, IsByte, IsBit, List, [], ◌∷◌,
  ◌++◌, length, get_or, append_assoc, length-append,
}
use fdx.Prelude.Int.{ℤ, pos}
use fdx.Mfm.Symbols.{Symbol, emit, gap_symbols, emit-append, last_bit}
use fdx.Mfm.Symbols.Track.{sectors_symbols}
use fdx.Mfm.Symbols.Width.{
  HasSectors, track_symbols, track_width, gaps_wide, length-emit, width-track,
}
use fdx.Mfm.Writer.{new_writer, header_gap, sector_gap, data_sum, encode_track_ibm_internal}
use fdx.Mfm.Reader.{Reader, M, got, fuel_for, new_reader, read_sector_ibmpc}
use fdx.Mfm.Reader.Bits.{rest}
use fdx.Mfm.Reader.Scan.{fuel_for-rest}
use fdx.Mfm.Reader.Sequence.{Ahead, raw, cut_gap}
use fdx.Hfe.Collect.Map.{Holds}
use fdx.Hfe.Collect.Track.{read_next}
use fdx.Hfe.Collect.Encoded.{encoded-rest, first_read, collect-encode_track}
use fdx.Hfe.Collect.Counted.{count-encode_track, track_long}
use fdx.Hfe.Verify.{equal, bad_data, compare_sector, same, differs, compare_loop}
use fdx.Hfe.Verify.{verify_sectors, verify_track_ibmpc}
use fdx.Hfe.Verify.Same.{held, compare_sector-same, compare_loop-same}

and_true : (a b : Bool) → (a && b) ≡ true → (a ≡ true) × (b ≡ true)
and_true true b h = (refl, h)
and_true false b h = cc

equal_sound : (xs ys : List ℕ) → equal xs ys ≡ true → xs ≡ ys
unfolding equal
equal_sound [] [] h = refl
equal_sound [] (y ∷ ys) h = cc
equal_sound (x ∷ xs) [] h = cc
equal_sound (x ∷ xs) (y ∷ ys) h =
    let (head, tail) = and_true (x == y) (equal xs ys) h in
    ap₂ (◌∷◌) ((==_iff x y).0 head) (equal_sound xs ys tail)

equal_other : (xs ys : List ℕ) → xs ≢ ys → equal xs ys ≡ false
equal_other xs ys h = elim (Bool-cases (equal xs ys)) [
  | inl alike ↦ absurd (h (equal_sound xs ys alike))
  | inr other ↦ other
]

compare_sector-differs :
    (n i : ℕ) (ds : List (List ℕ)) (d : List ℕ) (m : List (ℕ × List ℕ))
    → i < n
    → Holds ds n m
    → get_or ds i [] ≢ d
    → compare_sector n m (pos i, d) ≡ differs
unfolding compare_sector
compare_sector-differs n i ds d m hi h other =
    let inside : ltb i n ≡ true = ground arith in
    rw (inside, held i (get_or ds i []) m (h.below i hi), equal_other (get_or ds i []) d other) refl

compare_loop-differs :
    (fuel n count : ℕ) (read : M (ℤ × List ℕ)) (m : List (ℕ × List ℕ)) (r r' : Reader)
    (s : ℤ × List ℕ)
    → count < n
    → read r ≡ got s r'
    → compare_sector n m s ≡ differs
    → compare_loop (suc fuel) n read m count r ≡ bad_data (s.0)
unfolding compare_loop
compare_loop-differs fuel n count read m r r' s h e k =
    rw (leb_of_lt n count h, compare_loop) (rw e (rw k refl))

module _ (written : List (List ℕ)) (sectors : List (List ℕ)) (c h bit_rate : ℕ) (hc : IsByte c)
    (hh : IsByte h) (spt : ℕ) (small : spt < 256) (has : HasSectors spt sectors)
    (m : List (ℕ × List ℕ)) (holds : Holds written spt m) (j : ℕ) (inside : j < spt)
    (alike : (i : ℕ) → i < j → get_or written i [] ≡ get_or sectors i [])
    (other : get_or written j [] ≢ get_or sectors j []) where
  abbrev hgap : ℕ
  hgap = header_gap bit_rate

  abbrev sgap : ℕ
  sgap = sector_gap bit_rate spt

  hg : 4 ≤ hgap
  hg = omega (arith, gaps_wide bit_rate spt)

  sg : 4 ≤ sgap
  sg = omega (arith, gaps_wide bit_rate spt)

  -- The sector read is the one written.
  same_there : (i : ℕ) → i < j → compare_sector spt m (pos i, get_or sectors i []) ≡ same
  same_there i hi =
      subst (λ d. compare_sector spt m (pos i, d) ≡ same) (alike i hi)
        (compare_sector-same spt i written m (omega arith) holds)

  -- A sector that is read: the comparison ends at `j`, and goes on before it.
  differ_step :
      (s fuel : ℕ) (r r1 : Reader)
      → s ≤ j
      → read_sector_ibmpc c h r ≡ got (pos s, get_or sectors s []) r1
      → (s < j → compare_loop fuel spt (read_sector_ibmpc c h) m (s + 1) r1 ≡ bad_data (pos j))
      → compare_loop (suc fuel) spt (read_sector_ibmpc c h) m s r ≡ bad_data (pos j)
  differ_step s fuel r r1 hj found later =
      let d = get_or sectors s [] in
      elim (Bool-cases (s == j)) [
        | inl here ↦
            let at : s ≡ j = (==_iff s j).0 here in
            compare_loop-differs fuel spt s (read_sector_ibmpc c h) m r r1 (pos s, d) (omega arith)
              found
              (compare_sector-differs spt s written d m (omega arith) holds
                (subst (λ k. get_or written k [] ≢ get_or sectors k []) (sym at) other))
            ∙ ap (λ k. bad_data (pos k)) at
        | inr before ↦
            let less : s < j = ground arith in
            compare_loop-same fuel spt s (read_sector_ibmpc c h) m r r1 (pos s, d) (omega arith)
              found (same_there s less)
            ∙ later less
      ]

  differ_rest :
      (n s l g fuel : ℕ) (tail : List Symbol) (r : Reader)
      → IsBit l
      → 4 ≤ g
      → s + n ≡ spt
      → s ≤ j
      → n < fuel
      → Ahead sectors c h hgap sgap hc hh hg sg r l g n s tail
      → compare_loop fuel spt (read_sector_ibmpc c h) m s r ≡ bad_data (pos j)
  differ_rest n s l g zero tail r hl gg hs hj hf e = absurd (omega arith)
  differ_rest zero s l g (suc fuel) tail r hl gg hs hj hf e = absurd (omega arith)
  differ_rest (suc n) s l g (suc fuel) tail r hl gg hs hj hf e =
      let d = get_or sectors s [] in
      let (r1, found, ahead) =
        read_next sectors c h hgap sgap hc hh hg sg spt small has n s l g tail r hl gg (omega arith)
          e in
      differ_step s fuel r r1 hj found λ less.
        differ_rest n (s + 1) (data_sum d % 2) sgap fuel tail r1 (omega arith) sg (omega arith)
          (omega arith) (omega arith) ahead

  differ_marked :
      (n fuel : ℕ) (tail : List Symbol) (r : Reader)
      → spt ≡ suc n
      → spt < fuel
      → rest r ≡ emit 0 (track_symbols sectors c h spt bit_rate false ++ tail)
      → compare_loop fuel spt (read_sector_ibmpc c h) m 0 r ≡ bad_data (pos j)
  differ_marked n zero tail r e1 hf e = absurd (omega arith)
  differ_marked n (suc fuel) tail r e1 hf e =
      let (r1, found, ahead) = first_read sectors c h bit_rate hc hh spt small has n tail r e1 e in
      differ_step 0 fuel r r1 (omega arith) found λ less.
        let one : 0 + 1 ≡ 1 = omega arith in
        ap (λ k. compare_loop fuel spt (read_sector_ibmpc c h) m k r1) one
        ∙ differ_rest n 1 (data_sum (get_or sectors 0 []) % 2) sgap fuel tail r1 (omega arith) sg
            (omega arith) (omega arith) (omega arith) ahead

  differ_either :
      (skip : Bool) (fuel : ℕ) (tail : List Symbol) (r : Reader)
      → spt < fuel
      → rest r ≡ emit 0 (track_symbols sectors c h spt bit_rate skip ++ tail)
      → compare_loop fuel spt (read_sector_ibmpc c h) m 0 r ≡ bad_data (pos j)
  differ_either true fuel tail r hf e =
      differ_rest spt 0 0 50 fuel tail r (omega arith) (omega arith) (omega arith) (omega arith) hf
        (e
          ∙ ap (emit 0) (
              append_assoc (gap_symbols 50 0x4e) (sectors_symbols spt sectors c h hgap sgap 0)
                tail))
  differ_either false fuel tail r hf e = differ_marked (spt - 1) fuel tail r (omega arith) hf e

  -- The comparison loop on an encoded track.
  differ_encoded :
      (skip : Bool) (max : ℕ)
      → track_width spt bit_rate skip ≤ max
      → (let r =
            new_reader (encode_track_ibm_internal sectors c h spt bit_rate skip (new_writer max)) in
          compare_loop (fuel_for r) spt (read_sector_ibmpc c h) m 0 r ≡ bad_data (pos j))
  differ_encoded skip max fits =
      let r =
        new_reader (encode_track_ibm_internal sectors c h spt bit_rate skip (new_writer max)) in
      let (n, k, z, hz, e) = encoded-rest sectors c h spt bit_rate skip max has fits in
      let track = track_symbols sectors c h spt bit_rate skip in
      let tail = raw (cut_gap n k z) in
      let len : spt < fuel_for r = omega (
        arith,
        fuel_for-rest r,
        track_long spt bit_rate skip,
        ap length e,
        ap length (emit-append 0 track tail),
        length-append (emit 0 track) (emit (last_bit 0 track) tail),
        length-emit 0 track,
        width-track sectors c h spt bit_rate skip has,
      ) in
      differ_either skip (fuel_for r) tail r len e

module _ (written read : List (List ℕ)) (c h : ℕ) (hc : IsByte c) (hh : IsByte h) (spt : ℕ)
    (small : spt < 256) (has : HasSectors spt written) (has' : HasSectors spt read) (j : ℕ)
    (inside : j < spt) (alike : (i : ℕ) → i < j → get_or written i [] ≡ get_or read i [])
    (other : get_or written j [] ≢ get_or read j []) where
  verify_sectors-differ :
      (rate rate' max max' : ℕ) (skip skip' : Bool)
      → track_width spt rate skip ≤ max
      → track_width spt rate' skip' ≤ max'
      → verify_sectors spt
          (read_sector_ibmpc c h)
          (encode_track_ibm_internal written c h spt rate skip (new_writer max))
          (encode_track_ibm_internal read c h spt rate' skip' (new_writer max'))
        ≡ bad_data (pos j)
  unfolding verify_sectors
  verify_sectors-differ rate rate' max max' skip skip' fits fits' =
      let (m, r, collected, holds) =
        collect-encode_track written c h rate hc hh spt small has skip max fits in
      rw (collected, verify_sectors)
        (rw (holds.count, ==_refl spt)
          (differ_encoded written read c h rate' hc hh spt small has' m holds j inside alike other
            skip' max' fits'))

  -- VerifyTrackIBMPC rejects a track that encodes other sectors than those written, as many: it
  -- reports the first sector whose data differ. Both have fewer than 256 sectors of 512 bytes each,
  -- which fit on their tracks; cylinder and head are bytes.
  pub verify_track-differ :
      (rate rate' max max' : ℕ) (skip skip' : Bool)
      → track_width spt rate skip ≤ max
      → track_width spt rate' skip' ≤ max'
      → verify_track_ibmpc c h
          (encode_track_ibm_internal written c h spt rate skip (new_writer max))
          (encode_track_ibm_internal read c h spt rate' skip' (new_writer max'))
        ≡ bad_data (pos j)
  unfolding verify_track_ibmpc
  verify_track-differ rate rate' max max' skip skip' fits fits' =
      let (r1, counted) = count-encode_track written c h rate spt small has skip max fits in
      let (r2, counted') = count-encode_track read c h rate' spt small has' skip' max' fits' in
      rw (counted, verify_track_ibmpc)
        (rw counted'
          (rw (==_refl spt) (verify_sectors-differ rate rate' max max' skip skip' fits fits')))
