-- ===== src/Hfe/Verify.antt =====
-- hfe/verify.go: a track that was read back from the floppy against the track that was written.
pub mod Same
pub mod Different
pub mod Options
use fdx.Prelude.{◌||◌, get_elem?}
use fdx.Hfe.Disk.{Disk}
use fdx.Mfm.Amiga.{count_sectors_amiga, read_sector_amiga}
use fdx.Prelude.{
  ℕ, zero, suc, ◌+◌, ◌*◌, Bool, true, false, not, ◌&&◌, if◌then◌else◌, ltb, leb, ◌==◌,
}
use fdx.Prelude.{Option, some, none, List, [], ◌∷◌, length}
use fdx.Prelude.Int.{ℤ, pos, negsuc}
use fdx.Mfm.Reader.{Reader, Read, M, got, failed, stuck, fuel_for, new_reader, read_sector_ibmpc}
use fdx.Mfm.Reader.{count_sectors_ibmpc}
use fdx.Hfe.Collect.{find, collect}

-- `bytes.Equal`
unfoldable pub equal : List ℕ → List ℕ → Bool
equal [] [] = true
equal [] (y ∷ ys) = false
equal (x ∷ xs) [] = false
equal (x ∷ xs) (y ∷ ys) = x == y && equal xs ys

-- `unverified` is no Go value: a loop ran out of fuel.
pub data Verified : Type 0 where
  verified : Verified
  wrong_count : ℕ → ℕ → Verified
  bad_write_data : Verified
  bad_data : ℤ → Verified
  missing_sectors : Verified
  unverified : Verified

-- `sectors[sectorNum]`, nil where the map has no such sector.
unfoldable pub sector_or_nil : ℕ → List (ℕ × List ℕ) → List ℕ
sector_or_nil k m = elim (find k m) [ some d ↦ d | none ↦ [] ]

-- What a sector that was read is to the comparison: passed over, equal to the one written, or not.
pub data Compared : Type 0 where
  out_of_track : Compared
  same : Compared
  differs : Compared

unfoldable pub compare_sector : ℕ → List (ℕ × List ℕ) → ℤ × List ℕ → Compared
compare_sector n m (negsuc i, d) = out_of_track
compare_sector n m (pos i, d) =
    if not (ltb i n) then out_of_track else if equal (sector_or_nil i m) d then same else differs

-- The loop over the sectors that are read.
unfoldable pub compare_loop : ℕ → ℕ → M (ℤ × List ℕ) → List (ℕ × List ℕ) → ℕ → Reader → Verified
compare_loop zero n read m count r = unverified
compare_loop (suc fuel) n read m count r = elim (leb n count) [
  | true ↦ if not (count == n) then missing_sectors else verified
  | false ↦ elim (read r) [
    | got s r' ↦ elim (compare_sector n m s) [
      | out_of_track ↦ compare_loop fuel n read m count r'
      | same ↦ compare_loop fuel n read m (count + 1) r'
      | differs ↦ bad_data (s.0)
    ]
    | failed r' ↦ missing_sectors
    | stuck ↦ unverified
  ]
]

unfoldable pub verify_sectors : ℕ → M (ℤ × List ℕ) → List ℕ → List ℕ → Verified
verify_sectors n read write_bits read_bits = elim (collect n read (new_reader write_bits)) [
  | got m r ↦
      if not (length m == n)
      then bad_write_data
      else compare_loop (fuel_for (new_reader read_bits)) n read m 0 (new_reader read_bits)
  | failed r ↦ unverified
  | stuck ↦ unverified
]

unfoldable pub verify_track_ibmpc : ℕ → ℕ → List ℕ → List ℕ → Verified
verify_track_ibmpc cyl head write_bits read_bits =
    elim (count_sectors_ibmpc (new_reader write_bits)) [
      | got n r ↦ elim (count_sectors_ibmpc (new_reader read_bits)) [
        | got n' r' ↦
            if not (n == n')
            then wrong_count n n'
            else verify_sectors n (read_sector_ibmpc cyl head) write_bits read_bits
        | failed r' ↦ unverified
        | stuck ↦ unverified
      ]
      | failed r ↦ unverified
      | stuck ↦ unverified
    ]

-- A sector number of the Amiga reader as an integer.
unfoldable pub as_integer : M (ℕ × List ℕ) → M (ℤ × List ℕ)
as_integer read r = elim (read r) [
  | got s r' ↦ got (pos (s.0), s.1) r'
  | failed r' ↦ failed r'
  | stuck ↦ stuck
]

unfoldable pub verify_track_amiga : ℕ → ℕ → List ℕ → List ℕ → Verified
verify_track_amiga cyl head write_bits read_bits =
    let track = cyl * 2 + head in
    elim (count_sectors_amiga track (new_reader write_bits)) [
      | got n r ↦ elim (count_sectors_amiga track (new_reader read_bits)) [
        | got n' r' ↦
            if not (n == n')
            then wrong_count n n'
            else verify_sectors n (as_integer (read_sector_amiga track)) write_bits read_bits
        | failed r' ↦ unverified
        | stuck ↦ unverified
      ]
      | failed r ↦ unverified
      | stuck ↦ unverified
    ]

-- `none` is the panic on a disk without tracks, or a lack of fuel.
unfoldable pub init_verify_options : Disk → Option Disk
init_verify_options disk = elim (get_elem? disk.tracks 0) [
  | none ↦ none
  | some track ↦ elim (count_sectors_ibmpc (new_reader track.side0)) [
    | got n r ↦
        let ibmpc = record disk { verify_ibmpc = ltb 0 n } in
        elim (ltb 0 n) [
          | true ↦ some ibmpc
          | false ↦ elim (count_sectors_amiga 0 (new_reader track.side0)) [
            | got n' r' ↦ some (record ibmpc { verify_amiga = ltb 0 n' })
            | failed r' ↦ none
            | stuck ↦ none
          ]
        ]
    | failed r ↦ none
    | stuck ↦ none
  ]
]

unfoldable pub must_verify : Disk → Bool
must_verify disk = disk.verify_ibmpc || disk.verify_amiga

-- The comparison that comes next, where the one before it found no error.
abbrev pub and_then_verify : Verified → Verified → Verified
and_then_verify verified next = next
and_then_verify v next = v

-- `none` is the panic of an index beyond the tracks.
unfoldable pub verify_track : Disk → ℕ → ℕ → List ℕ → Option Verified
verify_track disk cyl head read_bits = elim (get_elem? disk.tracks cyl) [
  | none ↦ none
  | some track ↦
      let write_bits = if head == 0 then track.side0 else track.side1 in
      some (
        and_then_verify
          (if disk.verify_ibmpc then verify_track_ibmpc cyl head write_bits read_bits else verified)
          (if disk.verify_amiga
            then verify_track_amiga cyl head write_bits read_bits
            else verified))
]
