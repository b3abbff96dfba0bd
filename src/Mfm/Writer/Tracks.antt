-- ===== src/Mfm/Writer/Tracks.antt =====
-- The tracks of mfm/writer.go: their half-bits, and their length.
use fdx.Prelude.{ℕ, zero, suc, ◌+◌, ◌-◌, ◌*◌, ◌/◌, ◌%◌, ◌≤◌, ◌≡◌, refl, ap, sym, ◌∙◌, arith}
use fdx.Prelude.{Bool, true, false, Bool-cases, inl, inr, ltb}
use fdx.Prelude.{List, [], ◌∷◌, ◌++◌, length, take, replicate, get_or}
use fdx.Prelude.{length-take, take_beyond, take_all, take-nil}
use fdx.Mfm.Symbols.{emit, stream, byte_bits, byte_symbols, bytes_symbols, gap_symbols}
use fdx.Mfm.Symbols.{a1_mark, c2_mark}
use fdx.Mfm.Symbols.Track.{sum_bytes, header_bytes, header_symbols, data_symbols, sector_symbols}
use fdx.Mfm.Symbols.Track.{sectors_symbols, preamble_symbols}
use fdx.Mfm.Writer.{Writer, write_bytes, write_gap, write_marker, write_index_marker}
use fdx.Mfm.Writer.{write_sum, write_header, write_data, write_sectors, write_preamble}
use fdx.Mfm.Writer.{get_data, data_sum}
use fdx.Mfm.Writer.Cells.{Written}
use fdx.Mfm.Writer.Emits.{Emits, Emits-then, write_bytes-Emits, write_gap-Emits}
use fdx.Mfm.Writer.Emits.{nothing-Emits, write_marker-Emits, write_index_marker-Emits}

module _ (max : ℕ) where
  write_header-Emits :
      (cylinder head s : ℕ)
      → Emits max (write_header cylinder head s) (header_symbols cylinder head s)
  unfolding write_header write_sum write_bytes
  write_header-Emits cylinder head s =
      Emits-then max (write_marker 0xfe) (write_bytes (header_bytes cylinder head s))
        (a1_mark ++ byte_symbols 0xfe) (bytes_symbols (header_bytes cylinder head s))
        (write_marker-Emits max 0xfe) (write_bytes-Emits max (header_bytes cylinder head s))

  write_data-Emits : (d : List ℕ) → Emits max (write_data d) (data_symbols d)
  unfolding write_data write_sum write_bytes
  write_data-Emits d =
      Emits-then max (write_marker 0xfb)
        (λ w. write_bytes (sum_bytes (data_sum d)) (write_bytes d w)) (a1_mark ++ byte_symbols 0xfb)
        (bytes_symbols d ++ bytes_symbols (sum_bytes (data_sum d))) (write_marker-Emits max 0xfb)
        (Emits-then max (write_bytes d) (write_bytes (sum_bytes (data_sum d))) (bytes_symbols d)
          (bytes_symbols (sum_bytes (data_sum d))) (write_bytes-Emits max d)
          (write_bytes-Emits max (sum_bytes (data_sum d))))

  pub write_sectors-Emits :
      (n : ℕ) (sectors : List (List ℕ)) (cylinder head hgap sgap s : ℕ)
      → Emits max
          (write_sectors n sectors cylinder head hgap sgap s)
          (sectors_symbols n sectors cylinder head hgap sgap s)
  unfolding write_sectors sectors_symbols
  write_sectors-Emits zero sectors cylinder head hgap sgap s = nothing-Emits max
  write_sectors-Emits (suc n) sectors cylinder head hgap sgap s =
      let d = get_or sectors s [] in
      Emits-then max
        (λ w.
          write_gap sgap 0x4e (write_data d (write_gap hgap 0x4e (write_header cylinder head s w))))
        (write_sectors n sectors cylinder head hgap sgap (s + 1))
        (sector_symbols cylinder head hgap sgap s d)
        (sectors_symbols n sectors cylinder head hgap sgap (s + 1))
        (Emits-then max (λ w. write_gap hgap 0x4e (write_header cylinder head s w))
          (λ w. write_gap sgap 0x4e (write_data d w))
          (header_symbols cylinder head s ++ gap_symbols hgap 0x4e)
          (data_symbols d ++ gap_symbols sgap 0x4e)
          (Emits-then max (write_header cylinder head s) (write_gap hgap 0x4e)
            (header_symbols cylinder head s) (gap_symbols hgap 0x4e)
            (write_header-Emits cylinder head s) (write_gap-Emits max hgap 0x4e))
          (Emits-then max (write_data d) (write_gap sgap 0x4e) (data_symbols d)
            (gap_symbols sgap 0x4e) (write_data-Emits d) (write_gap-Emits max sgap 0x4e)))
        (write_sectors-Emits n sectors cylinder head hgap sgap (s + 1))

  pub write_preamble-Emits : (skip : Bool) → Emits max (write_preamble skip) (preamble_symbols skip)
  unfolding write_preamble
  write_preamble-Emits true = write_gap-Emits max 50 0x4e
  write_preamble-Emits false =
      Emits-then max (λ w. write_index_marker (write_gap 80 0x4e w)) (write_gap 50 0x4e)
        (gap_symbols 80 0x4e ++ (c2_mark ++ byte_symbols 0xfc)) (gap_symbols 50 0x4e)
        (Emits-then max (write_gap 80 0x4e) write_index_marker (gap_symbols 80 0x4e)
          (c2_mark ++ byte_symbols 0xfc) (write_gap-Emits max 80 0x4e)
          (write_index_marker-Emits max))
        (write_gap-Emits max 50 0x4e)

stream-take : (n : ℕ) (buf : List ℕ) → stream (take n buf) ≡ take (8 * n) (stream buf)
stream-take zero buf = refl
stream-take (suc n) [] = sym (take-nil ℕ (8 * suc n))
stream-take (suc n) (b ∷ buf) =
    ap (λ t. byte_bits b ++ t) (stream-take n buf)
    ∙ ap (λ k. byte_bits b ++ take k (stream buf)) (omega arith)
    ∙ sym (take_beyond (8 * suc n) (byte_bits b) (stream buf) (omega arith))

take-replicate : (k n : ℕ) → k ≤ n → take k (replicate {A = ℕ} n 0) ≡ replicate k 0
take-replicate zero n h = refl
take-replicate (suc k) zero h = absurd (omega arith)
take-replicate (suc k) (suc n) h = ap (λ t. 0 ∷ t) (take-replicate k n (omega arith))

-- `getData` is the buffer cut at the byte of the last half-bit.
get_data-take : (w : Writer) → get_data w ≡ take ((w.bit_pos + 7) / 8) w.buffer
unfolding get_data
get_data-take w = elim (Bool-cases (ltb ((w.bit_pos + 7) / 8) (length w.buffer))) [
  | inl cut ↦ rw cut
  | inr whole ↦ rw whole (sym (take_all ((w.bit_pos + 7) / 8) w.buffer (ground arith)))
]

pub length-get_data :
    {w : Writer} {hs : List ℕ} → Written w hs → length (get_data w) ≡ (w.bit_pos + 7) / 8
length-get_data {w} h =
    ap length (get_data-take w) ∙ omega (arith, length-take ((w.bit_pos + 7) / 8) w.buffer, h.room)

-- getData returns the half-bits that were written, cut at the end of the track, and zeros to a
-- whole byte.
pub get_data-stream :
    {w : Writer} {hs : List ℕ}
    → Written w hs
    → stream (get_data w)
      ≡ take w.max_half_bits hs ++ replicate (8 * ((w.bit_pos + 7) / 8) - w.bit_pos) 0
get_data-stream {w} {hs} h =
    let n = (w.bit_pos + 7) / 8 in
    let kept = take w.max_half_bits hs in
    let len : length kept ≡ w.bit_pos = omega (arith, length-take w.max_half_bits hs, h.pos) in
    let rest : 8 * n - length kept ≡ 8 * n - w.bit_pos = omega (arith, len) in
    ap stream (get_data-take w)
    ∙ stream-take n w.buffer
    ∙ ap (take (8 * n)) h.cells
    ∙ take_beyond (8 * n) kept _ (omega (arith, len))
    ∙ ap (λ t. kept ++ t)
        (ap (λ k. take k (replicate (8 * length w.buffer - w.bit_pos) 0)) rest
          ∙ take-replicate _ _ (omega (arith, h.room)))

length-emit_gap : (n v l : ℕ) → length (emit l (gap_symbols n v)) ≡ 16 * n
length-emit_gap zero v l = refl
length-emit_gap (suc n) v l = omega (arith, length-emit_gap n v (v % 2))
