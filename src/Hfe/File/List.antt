-- ===== src/Hfe/File/List.antt =====
-- The header and the track list of hfe/write.go are read back by hfe/read.go.
use fdx.Prelude.{ℕ, ◌+◌, ◌-◌, ◌*◌, ◌≤◌, ◌≡◌, refl, ap, ap₂, ◌∙◌, arith}
use fdx.Prelude.{
  List, [], ◌∷◌, ◌++◌, length, take, drop, some, take_exact, drop_exact, append_assoc, replicate,
  length-append, length-replicate,
}
use fdx.Hfe.Disk.{Header}
use fdx.Hfe.Blocks.{TrackHeader}
use fdx.Hfe.File.Header.{
  header_fields, header_block, parse_fields, parse_header, track_entry, parse_entries, word,
  low_byte, high_byte,
}
use fdx.Hfe.File.Write.{track_entries, track_list}

word_bytes : (n : ℕ) → word (low_byte n) (high_byte n) ≡ n
word_bytes n = omega arith

-- Whatever follows the fields of a header, they are read back.
parse-header_fields :
    (h : Header) (behind : List ℕ)
    → parse_fields h.header_signature (header_fields h ++ behind) ≡ some h
unfolding parse_fields header_fields
parse-header_fields h behind =
    cc (word_bytes h.bit_rate, word_bytes h.floppy_rpm, word_bytes h.track_list_offset)

pub parse-header_block :
    (h : Header) (behind : List ℕ)
    → length h.header_signature ≡ 8
    → parse_header (header_block h ++ behind) ≡ some h
unfolding parse_header header_block
parse-header_block h behind size =
    let fill = replicate 6 0 ++ replicate 480 0xff in
    let whole = append_assoc h.header_signature (header_fields h ++ fill) behind in
    ap₂ parse_fields (ap (take 8) whole ∙ take_exact 8 h.header_signature _ size) (
      ap (drop 8) whole
      ∙ drop_exact 8 h.header_signature _ size
      ∙ append_assoc (header_fields h) fill behind)
    ∙ parse-header_fields h (fill ++ behind)

pub length-header_block :
    (h : Header) → length h.header_signature ≡ 8 → length (header_block h) ≡ 512
unfolding header_block header_fields
length-header_block h size =
    let fields = header_fields h ++ (replicate 6 0 ++ replicate 480 0xff) in
    let rest : length fields ≡ 504 = refl in
    length-append h.header_signature fields ∙ ap₂ (◌+◌) size rest

pub parse-track_entries :
    (ths : List TrackHeader) (behind : List ℕ)
    → parse_entries (length ths) (track_entries ths ++ behind) ≡ some ths
unfolding parse_entries track_entries track_entry
parse-track_entries [] behind = refl
parse-track_entries (th ∷ ths) behind =
    rw (parse-track_entries ths behind, parse_entries)
      (cc (word_bytes th.offset, word_bytes th.track_len))

pub length-track_entries : (ths : List TrackHeader) → length (track_entries ths) ≡ 4 * length ths
unfolding track_entries track_entry
length-track_entries [] = refl
length-track_entries (th ∷ ths) = omega (arith, length-track_entries ths)

pub length-track_list : (ths : List TrackHeader) → length ths ≤ 128 → length (track_list ths) ≡ 512
unfolding track_list
length-track_list ths h = omega (
  arith,
  length-append (track_entries ths) (replicate (512 - 4 * length ths) 0xff),
  length-track_entries ths,
  length-replicate {A = ℕ} (512 - 4 * length ths) 0xff,
)
