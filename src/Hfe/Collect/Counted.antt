-- ===== src/Hfe/Collect/Counted.antt =====
-- Counting the sectors of a track gives the number that mfm/writer.go was asked to encode.
use fdx.Prelude.{ℕ, zero, suc, ◌*◌, ◌≤◌, ◌<◌, ◌≡◌, refl, ap, ◌∙◌, arith, Bool, true, false, none}
use fdx.Prelude.{List, [], ◌++◌, length, append_assoc, length-append}
use fdx.Mfm.Symbols.{Symbol, emit, emit-append, last_bit, gap_symbols, byte_symbols, c2_mark}
use fdx.Mfm.Symbols.Track.{sectors_symbols}
use fdx.Mfm.Symbols.Width.{
  HasSectors, track_symbols, track_width, gaps_wide, length-emit, width-track,
}
use fdx.Mfm.Writer.{new_writer, header_gap, sector_gap, encode_track_ibm_internal}
use fdx.Mfm.Reader.{Reader, got, fuel_for, new_reader, count_sectors_loop, count_sectors_ibmpc}
use fdx.Mfm.Reader.Bits.{rest}
use fdx.Mfm.Reader.Scan.{scan, fuel_for-rest, scan_ibmpc-Reads}
use fdx.Mfm.Reader.Gaps.{gap_history, through_gap, gap-c2, gap_end}
use fdx.Mfm.Reader.Sequence.{regroup, raw, emit-raw, cut_gap, cut_gap-IsBit}
use fdx.Mfm.Reader.Count.{count_rest, count-other}
use fdx.Hfe.Collect.Encoded.{encoded-rest}

-- More half-bits than rounds of the loop.
pub track_long : (spt bit_rate : ℕ) (skip : Bool) → suc (2 * spt) ≤ track_width spt bit_rate skip
track_long spt bit_rate true = omega arith
track_long spt bit_rate false = omega arith

module _ (sectors : List (List ℕ)) (c h bit_rate spt : ℕ) (small : spt < 256)
    (has : HasSectors spt sectors) where
  abbrev hgap : ℕ
  hgap = header_gap bit_rate

  abbrev sgap : ℕ
  sgap = sector_gap bit_rate spt

  hg : 4 ≤ hgap
  hg = omega (arith, gaps_wide bit_rate spt)

  sg : 4 ≤ sgap
  sg = omega (arith, gaps_wide bit_rate spt)

  -- The sectors and what follows them.
  abbrev ahead : List Symbol → List Symbol
  ahead tail = sectors_symbols spt sectors c h hgap sgap 0 ++ tail

  count_ahead :
      (fuel : ℕ) (tail : List Symbol) (r : Reader)
      → 2 * spt < fuel
      → scan gap_history (emit 0 tail) ≡ none
      → rest r ≡ emit 0 (gap_symbols 50 0x4e ++ ahead tail)
      → (r' : Reader) × (count_sectors_loop fuel [] r ≡ got spt r')
  count_ahead fuel tail r hf end e =
      count_rest sectors c h hgap sgap hg sg spt small has spt 0 fuel [] tail r (omega arith) hf
        refl tt end (ap (scan 0) e ∙ through_gap 50 0 (ahead tail) (omega arith) (omega arith))

  count_either :
      (skip : Bool) (fuel : ℕ) (tail : List Symbol) (r : Reader)
      → suc (2 * spt) < fuel
      → scan gap_history (emit 0 tail) ≡ none
      → rest r ≡ emit 0 (track_symbols sectors c h spt bit_rate skip ++ tail)
      → (r' : Reader) × (count_sectors_loop fuel [] r ≡ got spt r')
  count_either skip zero tail r hf end e = absurd (omega arith)
  count_either true (suc fuel) tail r hf end e = count_ahead (suc fuel) tail r (omega arith) end (
      e
      ∙ ap (emit 0)
          (append_assoc (gap_symbols 50 0x4e) (sectors_symbols spt sectors c h hgap sgap 0) tail))
  count_either false (suc fuel) tail r hf end e =
      let behind = gap_symbols 50 0x4e ++ ahead tail in
      let cells =
        e
        ∙ ap (emit 0) (
            regroup (gap_symbols 80 0x4e) c2_mark (byte_symbols 0xfc) (gap_symbols 50 0x4e)
              (sectors_symbols spt sectors c h hgap sgap 0) tail) in
      let marked = scan_ibmpc-Reads r 0xfc 0 behind (omega arith) (
        ap (scan 0) cells
        ∙ gap-c2 80 0 (byte_symbols 0xfc ++ behind) (omega arith) (omega arith)) in
      let (r', counted) = count_ahead fuel tail marked.after (omega arith) end marked.left in
      (r', count-other fuel [] r marked.after 0xfc marked.result refl ∙ counted)

  -- Where the sectors of a track, fewer than 256 of 512 bytes each, fit on it, CountSectorsIBMPC of
  -- the encoded track returns their number.
  pub count-encode_track :
      (skip : Bool) (max : ℕ)
      → track_width spt bit_rate skip ≤ max
      → (r' : Reader) × (count_sectors_ibmpc
            (new_reader (encode_track_ibm_internal sectors c h spt bit_rate skip (new_writer max)))
          ≡ got spt r')
  unfolding count_sectors_ibmpc
  count-encode_track skip max fits =
      let r =
        new_reader (encode_track_ibm_internal sectors c h spt bit_rate skip (new_writer max)) in
      let (n, k, z, hz, e) = encoded-rest sectors c h spt bit_rate skip max has fits in
      let track = track_symbols sectors c h spt bit_rate skip in
      let len : suc (2 * spt) < fuel_for r = omega (
        arith,
        fuel_for-rest r,
        track_long spt bit_rate skip,
        ap length e,
        ap length (emit-append 0 track (raw (cut_gap n k z))),
        length-append (emit 0 track) (emit (last_bit 0 track) (raw (cut_gap n k z))),
        length-emit 0 track,
        width-track sectors c h spt bit_rate skip has,
      ) in
      count_either skip (fuel_for r) (raw (cut_gap n k z)) r len
        (ap (scan gap_history) (emit-raw 0 (cut_gap n k z) (cut_gap-IsBit n k z))
          ∙ gap_end n k z hz)
        e
