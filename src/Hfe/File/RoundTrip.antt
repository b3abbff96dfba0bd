-- ===== src/Hfe/File/RoundTrip.antt =====
-- A disk that WriteHFE of hfe/write.go writes is loaded by ReadHFE of hfe/read.go.
use fdx.Prelude.{ℕ, suc, ◌+◌, ◌-◌, ◌*◌, ◌/◌, ◌≤◌, ◌≡◌, ◌≢◌, refl, ap, ap₂, sym, ◌∙◌, arith}
use fdx.Prelude.{u16, Bool, true, false, not, ◌&&◌, ltb, ==_of_ne, ltb_of_le, All, some, none}
use fdx.Prelude.{
  List, [], ◌∷◌, ◌++◌, length, map, replicate, drop, append_assoc, length-append, drop_exact,
  length-map,
}
use fdx.Hfe.Disk.{Header, TrackData, Disk}
use fdx.Hfe.Blocks.{TrackHeader, header_for, block_len, longer, write_track, track_read}
use fdx.Hfe.Verify.{equal}
use fdx.Hfe.File.Header.{hfev1_signature, hfev3_signature, header_block, parse_entries}
use fdx.Hfe.File.List.{
  parse-header_block, length-header_block, parse-track_entries, length-track_list,
}
use fdx.Hfe.File.Write.{
  hfe_version1, hfe_version3, hfe_header, hfe_saved, write_hfe, write_tracks, stored_track,
  track_headers, track_entries, track_list,
}
use fdx.Hfe.File.Read.{
  hfe_loaded, check_header, hfe_rpm, finish_hfe, read_disk, read_hfe, read_tracks, read_track,
}
use fdx.Hfe.File.Tracks.{IsShort, filler, read_tracks-written}
use fdx.Hfe.File.Kept.{
  IsStorableTrack, filled_track, same_track, stored_track1-IsShort, stored_track3-IsShort,
  read_track-version1, read_track-version3,
}

-- The header fits the tracks, and says what the reader asks for.
pub record IsWritable (disk : Disk) : Type 0 where
  pub counted : disk.header.number_of_track ≡ length disk.tracks
  pub some_tracks : disk.header.number_of_track ≢ 0
  pub room : disk.header.number_of_track ≤ 128
  pub some_sides : disk.header.number_of_side ≢ 0
  pub some_rate : disk.header.bit_rate ≢ 0
  pub some_rpm : disk.header.floppy_rpm ≢ 0

-- The disk as it is loaded, with the tracks given.
abbrev pub loaded_disk : ℕ → Disk → List TrackData → Disk
loaded_disk version disk tracks = record {
  header = hfe_header version disk.header;
  tracks = tracks;
  verify_ibmpc = false;
  verify_amiga = false;
}

-- The bytes of the file.
abbrev file_of : ℕ → Disk → List ℕ
file_of version disk =
    let stored = map (stored_track version disk.header.number_of_side) disk.tracks in
    let ths = track_headers 2 stored in
    header_block (hfe_header version disk.header)
    ++ (track_list ths ++ write_tracks version disk.header.number_of_side ths stored)

length-track_headers : (pos : ℕ) (ts : List TrackData) → length (track_headers pos ts) ≡ length ts
unfolding track_headers
length-track_headers pos [] = refl
length-track_headers pos (t ∷ ts) =
    ap suc
      (length-track_headers (u16 (pos + u16 (block_len (longer t.side0 t.side1 * 2) / 512))) ts)

hfe_rpm-given :
    (h : Header) (tracks : List TrackData)
    → h.floppy_rpm ≢ 0
    → hfe_rpm h tracks ≡ hfe_loaded h.floppy_rpm
unfolding hfe_rpm
hfe_rpm-given h tracks known = rw (==_of_ne h.floppy_rpm 0 known) refl

finish_hfe-given :
    (h : Header) (tracks : List TrackData)
    → h.floppy_rpm ≢ 0
    → finish_hfe h tracks
      ≡ hfe_loaded
          (record { header = h; tracks = tracks; verify_ibmpc = false; verify_amiga = false })
unfolding finish_hfe
finish_hfe-given h tracks known = rw (hfe_rpm-given h tracks known, finish_hfe) refl

parse-track_list :
    (ths : List TrackHeader) (behind : List ℕ) (n : ℕ)
    → length ths ≡ n
    → parse_entries n (track_list ths ++ behind) ≡ some ths
unfolding track_list
parse-track_list ths behind n count =
    let fill = replicate (512 - 4 * length ths) 0xff in
    ap₂ parse_entries (sym count) (append_assoc (track_entries ths) fill behind)
    ∙ parse-track_entries ths (fill ++ behind)

module _ (version : ℕ) (with_opcodes : Bool) (disk : Disk) (h : IsWritable disk)
    (keep : TrackData → TrackData) (IsGood : TrackData → Type 0)
    (short : (t : TrackData)
      → IsGood t
      → IsShort (stored_track version disk.header.number_of_side t))
    (reads : (t : TrackData) (pos : ℕ) (before behind : List ℕ)
      → IsGood t
      → length before ≡ pos * 512
      → (let s = stored_track version disk.header.number_of_side t in
          read_track with_opcodes
            (before
              ++ (write_track
                    (filler version)
                    (header_for pos s.side0 s.side1)
                    s.side0
                    s.side1
                    disk.header.number_of_side
                  ++ behind))
            (header_for pos s.side0 s.side1)
            disk.header.number_of_side)
        ≡ track_read (keep t))
    (size : length (hfe_header version disk.header).header_signature ≡ 8)
    (opcodes : equal (hfe_header version disk.header).header_signature hfev3_signature
      ≡ with_opcodes)
    (checked : check_header (hfe_header version disk.header) ≡ none) where
  read_disk-written :
      All IsGood disk.tracks
      → read_disk (hfe_header version disk.header) (file_of version disk)
        ≡ hfe_loaded (loaded_disk version disk (map keep disk.tracks))
  unfolding read_disk hfe_header
  read_disk-written good =
      let sides = disk.header.number_of_side in
      let stored = map (stored_track version sides) disk.tracks in
      let ths = track_headers 2 stored in
      let front = header_block (hfe_header version disk.header) in
      let behind = write_tracks version sides ths stored in
      let count : length ths ≡ disk.header.number_of_track =
        length-track_headers 2 stored
        ∙ length-map (stored_track version sides) disk.tracks
        ∙ sym h.counted in
      let few : length ths ≤ 128 = omega (arith, count, h.room) in
      let size1 = length-header_block (hfe_header version disk.header) size in
      let entries : parse_entries disk.header.number_of_track (drop 512 (file_of version disk))
          ≡ some ths =
        ap (parse_entries disk.header.number_of_track)
          (drop_exact 512 front (track_list ths ++ behind) size1)
        ∙ parse-track_list ths behind disk.header.number_of_track count in
      let at : length (front ++ track_list ths) ≡ 2 * 512 =
        omega (arith, length-append front (track_list ths), size1, length-track_list ths few) in
      let tracks : read_tracks with_opcodes (file_of version disk) sides 0 ths
          ≡ hfe_loaded (map keep disk.tracks) =
        ap (λ f. read_tracks with_opcodes f sides 0 ths)
          (sym (append_assoc front (track_list ths) behind))
        ∙ read_tracks-written version sides with_opcodes keep IsGood short reads disk.tracks 2 0
            (front ++ track_list ths) good at (omega (arith, h.counted, h.room)) in
      rw (entries, read_disk)
        (rw opcodes (
          rw (tracks, read_disk)
            (finish_hfe-given (hfe_header version disk.header) (map keep disk.tracks) h.some_rpm)))

  read_hfe-written :
      All IsGood disk.tracks
      → read_hfe (file_of version disk)
        ≡ hfe_loaded (loaded_disk version disk (map keep disk.tracks))
  unfolding read_hfe
  read_hfe-written good =
      let hh = hfe_header version disk.header in
      rw (parse-header_block hh _ size, read_hfe) (rw (checked, read_hfe) (read_disk-written good))

check_header-written :
    (h : Header) (signature : List ℕ)
    → (let is_v1 = equal signature hfev1_signature in
        let is_v3 = equal signature hfev3_signature in not is_v1 && not is_v3)
      ≡ false
    → h.bit_rate ≢ 0
    → h.number_of_track ≢ 0
    → h.number_of_side ≢ 0
    → check_header
        (record h { header_signature = signature; format_revision = 0; track_list_offset = 1 })
      ≡ none
unfolding check_header
check_header-written h signature known rate tracks sides =
    rw
      (
        known,
        ==_of_ne h.bit_rate 0 rate,
        ==_of_ne h.number_of_track 0 tracks,
        ==_of_ne h.number_of_side 0 sides,
      )
      refl

module _ (disk : Disk) (h : IsWritable disk) where
  few_tracks :
      (version : ℕ)
      → ltb 128 (length (map (stored_track version disk.header.number_of_side) disk.tracks)) ≡ false
  few_tracks version = ltb_of_le 128 _ (
      omega (
        arith,
        h.counted,
        h.room,
        length-map (stored_track version disk.header.number_of_side) disk.tracks,
      ))

  pub read-write_hfe1 :
      All IsShort disk.tracks
      → (file : List ℕ) × (write_hfe hfe_version1 disk ≡ hfe_saved file)
        × (read_hfe file
            ≡ hfe_loaded (
                loaded_disk hfe_version1 disk
                  (map (filled_track disk.header.number_of_side) disk.tracks)))
  unfolding write_hfe
  read-write_hfe1 good = (
    file_of 1 disk,
    rw (few_tracks 1, write_hfe) refl,
    read_hfe-written 1 false disk h (filled_track disk.header.number_of_side) IsShort
        (stored_track1-IsShort disk.header.number_of_side)
        (read_track-version1 disk.header.number_of_side) (unfold hfe_header in refl)
        (unfold hfe_header equal in refl)
        (unfold hfe_header in
          check_header-written disk.header hfev1_signature (unfold equal in refl) h.some_rate
            h.some_tracks h.some_sides)
        good,
  )

  -- A disk whose header counts its tracks, from one to 128, and gives a number of sides, a bit rate
  -- and a speed, and whose sides are no more than 32512 bytes outside the range 0x60 to 0x6f and
  -- not 0xf4, is written by WriteHFE of version 3 without error, and ReadHFE of the file returns it
  -- with the same bytes, side 1 where the disk has two sides, its header with the version's
  -- signature and list offset.
  pub read-write_hfe3 :
      All IsStorableTrack disk.tracks
      → (file : List ℕ) × (write_hfe hfe_version3 disk ≡ hfe_saved file)
        × (read_hfe file
            ≡ hfe_loaded (
                loaded_disk hfe_version3 disk
                  (map (same_track disk.header.number_of_side) disk.tracks)))
  unfolding write_hfe
  read-write_hfe3 good = (
    file_of 3 disk,
    rw (few_tracks 3, write_hfe) refl,
    read_hfe-written 3 true disk h (same_track disk.header.number_of_side) IsStorableTrack
        (stored_track3-IsShort disk.header.number_of_side)
        (read_track-version3 disk.header.number_of_side) (unfold hfe_header in refl)
        (unfold hfe_header equal in refl)
        (unfold hfe_header in
          check_header-written disk.header hfev3_signature (unfold equal in refl) h.some_rate
            h.some_tracks h.some_sides)
        good,
  )
