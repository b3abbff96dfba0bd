-- ===== src/Mfm/Amiga/Length.antt =====
-- `EncodeTrackAmiga` of mfm/writer.go fills the track.
use fdx.Prelude.{ℕ, zero, suc, ◌+◌, ◌-◌, ◌/◌, ◌%◌, ◌<◌, ◌≡◌, refl, arith, bit_xor}
use fdx.Prelude.{u8, ◌>>>◌, some, List, [], ◌∷◌, ◌++◌, length, get_elem?, length-append}
use fdx.Mfm.Symbols.{Symbol, emit, last_bit, gap_symbols, byte_symbols, a1_symbols}
use fdx.Mfm.Symbols.Width.{length-emit, width-gap}
use fdx.Mfm.Writer.{Writer, new_writer, write_byte, write_gap, write_a1, write_fill, get_data}
use fdx.Mfm.Writer.Emits.{
  At, Emits, new_writer-At, write_byte-Emits, write_gap-Emits, write_a1-Emits,
}
use fdx.Mfm.Writer.Tracks.{length-get_data}
use fdx.Mfm.Amiga.{
  write_marker_amiga, write_half, write_word, write_ident_amiga, shuffle, shuffled, word_of,
}
use fdx.Mfm.Amiga.{
  sum_amiga, write_odds, write_evens, write_sector_amiga, write_sectors_amiga, encode_track_amiga,
}

module _ (max : ℕ) where
  -- A writer whose buffer holds what was written, whatever that is.
  pub record Sound (w : Writer) : Type 0 where
    pub last : ℕ
    pub half_bits : List ℕ
    pub at : At max w last half_bits

  keep :
      (f : Writer → Writer) (ss : List Symbol) (w : Writer) → Emits max f ss → Sound w → Sound (f w)
  keep f ss w e h = record {
    last = last_bit h.last ss;
    half_bits = h.half_bits ++ emit h.last ss;
    at = e w h.last h.half_bits h.at;
  }

  byte-Sound : (b : ℕ) (w : Writer) → Sound w → Sound (write_byte b w)
  byte-Sound b w h = keep (write_byte b) (byte_symbols b) w (write_byte-Emits max b) h

  gap-Sound : (n v : ℕ) (w : Writer) → Sound w → Sound (write_gap n v w)
  gap-Sound n v w h = keep (write_gap n v) (gap_symbols n v) w (write_gap-Emits max n v) h

  a1-Sound : (w : Writer) → Sound w → Sound (write_a1 w)
  a1-Sound w h = keep write_a1 a1_symbols w (write_a1-Emits max) h

  marker-Sound : (w : Writer) → Sound w → Sound (write_marker_amiga w)
  unfolding write_marker_amiga
  marker-Sound w h = a1-Sound _ (a1-Sound _ (byte-Sound 0 _ (byte-Sound 0 w h)))

  half-Sound : (k : ℕ) (w : Writer) → Sound w → Sound (write_half k w)
  unfolding write_half
  half-Sound k w h = byte-Sound (u8 k) _ (byte-Sound (u8 (k >>> 8)) w h)

  word-Sound : (k : ℕ) (w : Writer) → Sound w → Sound (write_word k w)
  unfolding write_word
  word-Sound k w h =
      byte-Sound (u8 k) _ (
        byte-Sound (u8 (k >>> 8)) _ (byte-Sound (u8 (k >>> 16)) _ (byte-Sound (u8 (k >>> 24)) w h)))

  ident-Sound : (track s : ℕ) (w : Writer) → Sound w → Sound (write_ident_amiga track s w)
  unfolding write_ident_amiga
  ident-Sound track s w h =
      let odd = (shuffle (word_of 0xff track s (11 - s))).0 in
      let even = (shuffle (word_of 0xff track s (11 - s))).1 in
      word-Sound (bit_xor odd even) _ (gap-Sound 16 0 _ (half-Sound even _ (half-Sound odd w h)))

  odds-Sound : (ws : List (ℕ × ℕ)) (w : Writer) → Sound w → Sound (write_odds ws w)
  unfolding write_odds
  odds-Sound [] w h = h
  odds-Sound ((odd, even) ∷ ws) w h = odds-Sound ws (write_half odd w) (half-Sound odd w h)

  evens-Sound : (ws : List (ℕ × ℕ)) (w : Writer) → Sound w → Sound (write_evens ws w)
  unfolding write_evens
  evens-Sound [] w h = h
  evens-Sound ((odd, even) ∷ ws) w h = evens-Sound ws (write_half even w) (half-Sound even w h)

  -- A sector of 512 bytes is written.
  sector-Sound :
      (bytes : List ℕ) (w : Writer)
      → length bytes ≡ 512
      → Sound w
      → (w' : Writer) × (write_sector_amiga bytes w ≡ some w') × Sound w'
  unfolding write_sector_amiga
  sector-Sound bytes w e h =
      let ws = shuffled bytes in
      (
        write_evens ws (write_odds ws (write_word (sum_amiga ws 0) w)),
        rw e refl,
        evens-Sound ws _ (odds-Sound ws _ (word-Sound (sum_amiga ws 0) w h)),
      )

  sectors-Sound :
      (n s : ℕ) (sectors : List (List ℕ)) (track : ℕ) (w : Writer)
      → ((i : ℕ) → i < s + n → (d : List ℕ) × (get_elem? sectors i ≡ some d) × (length d ≡ 512))
      → Sound w
      → (w' : Writer) × (write_sectors_amiga n s sectors track w ≡ some w') × Sound w'
  unfolding write_sectors_amiga
  sectors-Sound zero s sectors track w has h = (w, refl, h)
  sectors-Sound (suc n) s sectors track w has h =
      let (d, found, size) = has s (omega arith) in
      let (w1, one, sound) =
        sector-Sound d (write_ident_amiga track s (write_marker_amiga w)) size
          (ident-Sound track s _ (marker-Sound w h)) in
      let (w2, others, sound') =
        sectors-Sound n (s + 1) sectors track w1 (λ i hi. has i (omega arith)) sound in
      (w2, rw (found, write_sectors_amiga) (rw one others), sound')

  fill-length : (w : Writer) → max % 8 ≡ 0 → Sound w → length (get_data (write_fill 0 w)) ≡ max / 8
  unfolding write_fill
  fill-length w whole h =
      let n = w.max_half_bits / 8 - length (get_data w) in
      let filled = write_gap-Emits max n 0 w h.last h.half_bits h.at in
      omega (
        arith,
        length-get_data filled.written,
        length-get_data h.at.written,
        filled.written.pos,
        filled.limit,
        h.at.written.pos,
        h.at.limit,
        length-append h.half_bits (emit h.last (gap_symbols n 0)),
        length-emit h.last (gap_symbols n 0),
        width-gap n 0,
      )

  -- From eleven sectors of 512 bytes EncodeTrackAmiga returns, without a panic, a side that fills a
  -- track of a whole number of bytes exactly.
  pub length-encode_track_amiga :
      (sectors : List (List ℕ)) (track : ℕ)
      → max % 8 ≡ 0
      → ((i : ℕ) → i < 11 → (d : List ℕ) × (get_elem? sectors i ≡ some d) × (length d ≡ 512))
      → (side : List ℕ) × (encode_track_amiga sectors track (new_writer max) ≡ some side)
        × (length side ≡ max / 8)
  unfolding encode_track_amiga
  length-encode_track_amiga sectors track whole has =
      let start : Sound (new_writer max) = record {
        last = 0;
        half_bits = [];
        at = new_writer-At max;
      } in
      let (w, written, sound) =
        sectors-Sound 11 0 sectors track (write_gap 150 0 (new_writer max))
          (λ i hi. has i (omega arith)) (gap-Sound 150 0 (new_writer max) start) in
      (get_data (write_fill 0 w), rw (written, encode_track_amiga) refl, fill-length w whole sound)
