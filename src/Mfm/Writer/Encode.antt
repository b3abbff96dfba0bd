-- ===== src/Mfm/Writer/Encode.antt =====
-- The whole track of mfm/writer.go: its length, and its half-bits where the sectors fit.
use fdx.Prelude.{ℕ, ◌+◌, ◌-◌, ◌*◌, ◌/◌, ◌%◌, ◌≤◌, ◌<◌, ◌≡◌, ap, ◌∙◌, arith}
use fdx.Prelude.{Bool, List, [], ◌++◌, length, take, replicate, append_assoc}
use fdx.Prelude.{length-append, take_beyond}
use fdx.Mfm.Symbols.{Symbol, emit, last_bit, stream, gap_symbols}
use fdx.Mfm.Symbols.Track.{sectors_symbols, preamble_symbols}
use fdx.Mfm.Symbols.Width.{length-emit, width-gap, HasSectors, track_symbols}
use fdx.Mfm.Symbols.Width.{track_width, width-track, last_bit-track}
use fdx.Mfm.Writer.{Writer, new_writer, write_sectors, write_preamble, write_fill, get_data}
use fdx.Mfm.Writer.{write_gap, header_gap, sector_gap, encode_track_ibm_internal}
use fdx.Mfm.Writer.Emits.{At, Emits-then, new_writer-At, write_gap-Emits}
use fdx.Mfm.Writer.Tracks.{
  write_sectors-Emits, write_preamble-Emits, length-get_data, get_data-stream,
}

module _ (sectors : List (List ℕ)) (cylinder head spt bit_rate : ℕ) (skip : Bool) (max : ℕ) where
  abbrev before_fill : Writer
  before_fill =
      write_sectors spt sectors cylinder head (header_gap bit_rate) (sector_gap bit_rate spt) 0
        (write_preamble skip (new_writer max))

  abbrev track : List Symbol
  track = track_symbols sectors cylinder head spt bit_rate skip

  before_fill-At : At max before_fill (last_bit 0 track) (emit 0 track)
  before_fill-At =
      Emits-then max (write_preamble skip)
        (write_sectors spt sectors cylinder head (header_gap bit_rate) (sector_gap bit_rate spt) 0)
        (preamble_symbols skip)
        (sectors_symbols spt sectors cylinder head (header_gap bit_rate) (sector_gap bit_rate spt)
          0)
        (write_preamble-Emits max skip)
        (write_sectors-Emits max spt sectors cylinder head (header_gap bit_rate)
          (sector_gap bit_rate spt) 0)
        (new_writer max) 0 [] (new_writer-At max)

  abbrev fill : ℕ
  fill = before_fill.max_half_bits / 8 - length (get_data before_fill)

  filled-At :
      At max
        (write_gap fill 0x4e before_fill)
        (last_bit (last_bit 0 track) (gap_symbols fill 0x4e))
        (emit 0 track ++ emit (last_bit 0 track) (gap_symbols fill 0x4e))
  filled-At =
      write_gap-Emits max fill 0x4e before_fill (last_bit 0 track) (emit 0 track) before_fill-At

  -- On a track of a whole number of bytes, the encoded track fills it exactly, whatever the sectors
  -- are.
  pub length-encode_track :
      max % 8 ≡ 0
      → length (encode_track_ibm_internal sectors cylinder head spt bit_rate skip (new_writer max))
        ≡ max / 8
  unfolding encode_track_ibm_internal write_fill
  length-encode_track whole = omega (
    arith,
    length-get_data filled-At.written,
    length-get_data before_fill-At.written,
    filled-At.written.pos,
    filled-At.limit,
    before_fill-At.written.pos,
    before_fill-At.limit,
    length-append (emit 0 track) (emit (last_bit 0 track) (gap_symbols fill 0x4e)),
    length-emit (last_bit 0 track) (gap_symbols fill 0x4e),
    width-gap fill 0x4e,
  )

  -- Where the sectors fit on the track, the half-bits of the encoded track are those of the layout
  -- (gaps, marks, headers, data and checksums), then a cut of the fill gap, then fewer than eight
  -- zeros.
  pub encode_track-stream :
      HasSectors spt sectors
      → track_width spt bit_rate skip ≤ max
      → (n k z : ℕ) × (z < 8)
        × (stream
              (encode_track_ibm_internal sectors cylinder head spt bit_rate skip (new_writer max))
            ≡ emit 0 track ++ (take k (emit 0 (gap_symbols n 0x4e)) ++ replicate z 0))
  unfolding encode_track_ibm_internal write_fill
  encode_track-stream has fits =
      let w = write_gap fill 0x4e before_fill in
      let len : length (emit 0 track) ≡ track_width spt bit_rate skip =
        length-emit 0 track ∙ width-track sectors cylinder head spt bit_rate skip has in
      let k = max - length (emit 0 track) in
      let z = 8 * ((w.bit_pos + 7) / 8) - w.bit_pos in
      let gap = emit (last_bit 0 track) (gap_symbols fill 0x4e) in
      let zero_last : gap ≡ emit 0 (gap_symbols fill 0x4e) =
        ap (λ l. emit l (gap_symbols fill 0x4e))
          (last_bit-track sectors cylinder head spt bit_rate skip) in
      (
        fill,
        k,
        z,
        omega arith,
        get_data-stream filled-At.written
            ∙ ap (λ m. take m (emit 0 track ++ gap) ++ replicate z 0) filled-At.limit
            ∙ ap (λ t. t ++ replicate z 0) (take_beyond max (emit 0 track) gap (omega (arith, len)))
            ∙ append_assoc (emit 0 track) (take k gap) (replicate z 0)
            ∙ ap (λ g. emit 0 track ++ (take k g ++ replicate z 0)) zero_last,
      )
