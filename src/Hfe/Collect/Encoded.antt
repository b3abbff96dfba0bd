-- ===== src/Hfe/Collect/Encoded.antt =====
-- Collecting the sectors of a track gives what mfm/writer.go was given to encode.
use fdx.Prelude.{ℕ, zero, suc, ◌-◌, ◌%◌, ◌≤◌, ◌<◌, ◌≡◌, refl, ap, sym, subst, ◌∙◌, arith}
use fdx.Prelude.{Bool, true, false, IsByte, List, [], ◌++◌, length, get_or}
use fdx.Prelude.{length-append, append_assoc}
use fdx.Prelude.Int.{pos}
use fdx.Mfm.Symbols.{Symbol, emit, gap_symbols, emit-append, last_bit, byte_symbols, c2_mark}
use fdx.Mfm.Symbols.Track.{sectors_symbols}
use fdx.Mfm.Symbols.Width.{
  HasSectors, track_symbols, track_width, gaps_wide, length-emit, width-track,
}
use fdx.Mfm.Writer.{new_writer, header_gap, sector_gap, data_sum, encode_track_ibm_internal}
use fdx.Mfm.Writer.Encode.{encode_track-stream}
use fdx.Mfm.Reader.{Reader, got, fuel_for, new_reader, read_sector_loop, read_sector_ibmpc}
use fdx.Mfm.Reader.Bits.{rest, rest-new_reader}
use fdx.Mfm.Reader.Scan.{fuel_for-rest}
use fdx.Mfm.Reader.Sequence.{
  Ahead, regroup, next_sector, past_index_mark, raw, emit-raw, cut_gap, cut_gap-IsBit,
}
use fdx.Hfe.Collect.{store, collect_loop, collect}
use fdx.Hfe.Collect.Map.{Holds, Holds-empty, Holds-store}
use fdx.Hfe.Collect.Track.{collect_rest, collect_loop-full, collect_loop-got}

-- The half-bits of an encoded track whose sectors fit, as symbols up to its end.
pub encoded-rest :
    (sectors : List (List ℕ)) (c h spt bit_rate : ℕ) (skip : Bool) (max : ℕ)
    → HasSectors spt sectors
    → track_width spt bit_rate skip ≤ max
    → (n k z : ℕ) × (z < 8)
      × (rest
            (new_reader (encode_track_ibm_internal sectors c h spt bit_rate skip (new_writer max)))
          ≡ emit 0 (track_symbols sectors c h spt bit_rate skip ++ raw (cut_gap n k z)))
encoded-rest sectors c h spt bit_rate skip max has fits =
    let (n, k, z, hz, cells) = encode_track-stream sectors c h spt bit_rate skip max has fits in
    let track = track_symbols sectors c h spt bit_rate skip in
    (
      n,
      k,
      z,
      hz,
      rest-new_reader _
          ∙ cells
          ∙ sym (
              ap (λ t. emit 0 track ++ t)
                (emit-raw (last_bit 0 track) (cut_gap n k z) (cut_gap-IsBit n k z)))
          ∙ sym (emit-append 0 track (raw (cut_gap n k z))),
    )

module _ (sectors : List (List ℕ)) (c h bit_rate : ℕ) (hc : IsByte c) (hh : IsByte h) (spt : ℕ)
    (small : spt < 256) (has : HasSectors spt sectors) where
  abbrev hgap : ℕ
  hgap = header_gap bit_rate

  abbrev sgap : ℕ
  sgap = sector_gap bit_rate spt

  pub hg : 4 ≤ hgap
  hg = omega (arith, gaps_wide bit_rate spt)

  pub sg : 4 ≤ sgap
  sg = omega (arith, gaps_wide bit_rate spt)

  -- The loop from the start of a track without an index mark.
  collect_plain :
      (fuel : ℕ) (tail : List Symbol) (r : Reader)
      → spt < fuel
      → rest r ≡ emit 0 (track_symbols sectors c h spt bit_rate true ++ tail)
      → (m : List (ℕ × List ℕ)) × (r' : Reader) × (collect_loop fuel spt
            (read_sector_ibmpc c h)
            []
            r
          ≡ got m r')
        × Holds sectors spt m
  collect_plain fuel tail r hf e =
      collect_rest sectors c h hgap sgap hc hh hg sg spt small has spt 0 0 50 fuel tail [] r
        (omega arith) (omega arith) (omega arith) hf (Holds-empty sectors)
        (e
          ∙ ap (emit 0) (
              append_assoc (gap_symbols 50 0x4e) (sectors_symbols spt sectors c h hgap sgap 0)
                tail))

  -- The symbols of a track with an index mark, grouped to the right.
  marked : (tail : List Symbol) → List Symbol
  marked tail = gap_symbols 50 0x4e ++ (sectors_symbols spt sectors c h hgap sgap 0 ++ tail)

  marked-eq :
      (tail : List Symbol)
      → track_symbols sectors c h spt bit_rate false ++ tail
        ≡ gap_symbols 80 0x4e ++ (c2_mark ++ (byte_symbols 0xfc ++ marked tail))
  unfolding marked
  marked-eq tail =
      regroup (gap_symbols 80 0x4e) c2_mark (byte_symbols 0xfc) (gap_symbols 50 0x4e)
        (sectors_symbols spt sectors c h hgap sgap 0) tail

  -- The first read passes the index mark over.
  pub first_read :
      (n : ℕ) (tail : List Symbol) (r : Reader)
      → spt ≡ suc n
      → rest r ≡ emit 0 (track_symbols sectors c h spt bit_rate false ++ tail)
      → (r' : Reader) × (read_sector_ibmpc c h r ≡ got (pos 0, get_or sectors 0 []) r')
        × Ahead sectors c h hgap sgap hc hh hg sg r'
            (data_sum (get_or sectors 0 []) % 2)
            sgap
            n
            1
            tail
  unfolding read_sector_ibmpc marked
  first_read n tail r e1 e =
      let cells = e ∙ ap (emit 0) (marked-eq tail) in
      let (r1, left, passed) =
        past_index_mark sectors c h hgap sgap hc hh hg sg (length (rest r)) 0 (marked tail) r
          (omega arith) cells in
      let more : length (rest r) ≡ suc (length (rest r) - 1) = rw cells (omega arith) in
      let left' =
        subst
          (λ k.
            rest r1
            ≡ emit 0 (gap_symbols 50 0x4e ++ (sectors_symbols k sectors c h hgap sgap 0 ++ tail)))
          e1 left in
      let (r2, found, ahead) =
        next_sector sectors c h hgap sgap hc hh hg sg (length (rest r) - 1) n 0 0 50 tail r1
          (omega arith) (omega arith) (omega arith) (has 0 (omega arith)) left' in
      (
        r2,
        ap (λ f. read_sector_loop f c h r) (fuel_for-rest r)
            ∙ passed
            ∙ ap (λ f. read_sector_loop f c h r1) more
            ∙ found,
        ahead,
      )

  collect_marked :
      (n fuel : ℕ) (tail : List Symbol) (r : Reader)
      → spt ≡ n
      → spt < fuel
      → rest r ≡ emit 0 (track_symbols sectors c h spt bit_rate false ++ tail)
      → (m : List (ℕ × List ℕ)) × (r' : Reader) × (collect_loop fuel spt
            (read_sector_ibmpc c h)
            []
            r
          ≡ got m r')
        × Holds sectors spt m
  collect_marked n zero tail r e1 hf e = absurd (omega arith)
  collect_marked zero (suc fuel) tail r e1 hf e = (
    [],
    r,
    collect_loop-full fuel spt (read_sector_ibmpc c h) [] r (omega arith),
    subst (λ k. Holds sectors k []) (sym e1) (Holds-empty sectors),
  )
  collect_marked (suc n) (suc fuel) tail r e1 hf e =
      let d = get_or sectors 0 [] in
      let (r1, found, ahead) = first_read n tail r e1 e in
      let (m, r', ends, holds) =
        collect_rest sectors c h hgap sgap hc hh hg sg spt small has n 1 (data_sum d % 2) sgap fuel
          tail (store 0 d []) r1 (omega arith) sg (omega arith) (omega arith)
          (Holds-store sectors 0 [] (Holds-empty sectors)) ahead in
      (
        m,
        r',
        collect_loop-got fuel spt (read_sector_ibmpc c h) [] r r1 0 d (omega arith) (omega arith)
              found
            ∙ ends,
        holds,
      )

  collect_either :
      (skip : Bool) (fuel : ℕ) (tail : List Symbol) (r : Reader)
      → spt < fuel
      → rest r ≡ emit 0 (track_symbols sectors c h spt bit_rate skip ++ tail)
      → (m : List (ℕ × List ℕ)) × (r' : Reader) × (collect_loop fuel spt
            (read_sector_ibmpc c h)
            []
            r
          ≡ got m r')
        × Holds sectors spt m
  collect_either true fuel tail r hf e = collect_plain fuel tail r hf e
  collect_either false fuel tail r hf e = collect_marked spt fuel tail r refl hf e

  -- Where the sectors of a track, fewer than 256 of 512 bytes each, fit on it, the loop that
  -- collects sectors from the encoded track ends with a map that holds every sector under its
  -- number and nothing else. Cylinder and head are bytes.
  pub collect-encode_track :
      (skip : Bool) (max : ℕ)
      → track_width spt bit_rate skip ≤ max
      → (m : List (ℕ × List ℕ)) × (r' : Reader) × (collect spt
            (read_sector_ibmpc c h)
            (new_reader (encode_track_ibm_internal sectors c h spt bit_rate skip (new_writer max)))
          ≡ got m r')
        × Holds sectors spt m
  unfolding collect
  collect-encode_track skip max fits =
      let r =
        new_reader (encode_track_ibm_internal sectors c h spt bit_rate skip (new_writer max)) in
      let (n, k, z, hz, e) = encoded-rest sectors c h spt bit_rate skip max has fits in
      let track = track_symbols sectors c h spt bit_rate skip in
      let len : spt < fuel_for r = omega (
        arith,
        fuel_for-rest r,
        ap length e,
        ap length (emit-append 0 track (raw (cut_gap n k z))),
        length-append (emit 0 track) (emit (last_bit 0 track) (raw (cut_gap n k z))),
        length-emit 0 track,
        width-track sectors c h spt bit_rate skip has,
      ) in
      collect_either skip (fuel_for r) (raw (cut_gap n k z)) r len e
