-- ===== src/Hfe/Imd/Write.antt =====
-- hfe/imd.go: WriteIMD, as the bytes of the file. The text of the comment, which names the time, is
-- a parameter; creating the file and the writes succeed.
use fdx.Prelude.{ℕ, zero, suc, ◌+◌, ◌-◌, ◌%◌, true, false}
use fdx.Prelude.{if◌then◌else◌, ltb, ◌==◌, u8, none, some}
use fdx.Prelude.{List, [], ◌∷◌, ◌++◌, length, get_or, get_elem?, take, replicate, map}
use fdx.Prelude.Int.{ℤ, pos, negsuc}
use fdx.Mfm.Reader.{M, got, failed, stuck, new_reader, fuel_for, read_sector_ibmpc}
use fdx.Hfe.Disk.{Header, TrackData, Disk, enc_isoibm_mfm}
use fdx.Hfe.Collect.{store, find}
use fdx.Hfe.Imd.{imd_comment_terminator, imd_sector_size, rate_density_to_mode, is_compressible}
use fdx.Hfe.Imd.{calculate_flag}

-- `data` filled up with zeros or cut to `sec_size` bytes.
unfoldable pub resized : ℕ → List ℕ → List ℕ
resized sec_size bytes =
    if ltb (length bytes) sec_size
    then bytes ++ replicate (sec_size - length bytes) 0
    else take sec_size bytes

unfoldable pub write_imd_sector : ℕ → List ℕ → List ℕ
write_imd_sector sec_size bytes =
    if is_compressible bytes
    then calculate_flag true false false ∷ get_or bytes 0 0 ∷ []
    else calculate_flag false false false ∷ resized sec_size bytes

-- The inner loop of the sort: `x` stands at position `i`, and is exchanged with every smaller
-- element behind it.
unfoldable pub sweep : ℕ → List ℕ → ℕ × List ℕ
sweep x [] = (x, [])
sweep x (y ∷ ys) =
    if ltb y x then ((sweep y ys).0, x ∷ (sweep y ys).1) else ((sweep x ys).0, y ∷ (sweep x ys).1)

-- The outer loop, of `n` rounds.
unfoldable pub sort_numbers : ℕ → List ℕ → List ℕ
sort_numbers zero xs = xs
sort_numbers (suc n) [] = []
sort_numbers (suc n) (x ∷ xs) = (sweep x xs).0 ∷ sort_numbers n (sweep x xs).1

-- The sectors in the order of their numbers. A sector of another size, but for an empty one, is
-- brought to the size; `inr` holds the number that is not in the map, and what was written before.
pub data Blocks : Type 0 where
  blocks : List ℕ → Blocks
  not_in_map : ℕ → List ℕ → Blocks

abbrev pub adjusted : ℕ → List ℕ → List ℕ
adjusted sec_size bytes = if length bytes == 0 then bytes else resized sec_size bytes

unfoldable pub write_blocks : ℕ → List (ℕ × List ℕ) → List ℕ → List ℕ → Blocks
write_blocks sec_size sectors [] file = blocks file
write_blocks sec_size sectors (number ∷ numbers) file = elim (find number sectors) [
  | none ↦ not_in_map number file
  | some bytes ↦
      write_blocks sec_size sectors numbers
        (file ++ write_imd_sector sec_size (adjusted sec_size bytes))
]

-- How the writer ends, with the bytes written so far. `unfinished` is no Go value: a loop ran out
-- of fuel.
pub data ImdSaved : Type 0 where
  saved : List ℕ → ImdSaved
  no_sectors too_many_sectors : List ℕ → ImdSaved
  lost_sector : ℕ → List ℕ → ImdSaved
  unfinished : ImdSaved

-- The cylinder and head maps are never needed (`needCylMap` and `needHeadMap` stay false).
unfoldable pub write_imd_track : ℕ → ℕ → ℕ → List (ℕ × List ℕ) → List ℕ → List ℕ → ImdSaved
write_imd_track mode cylinder head sectors numbers file =
    let nsec = length sectors in
    let sorted = sort_numbers (length numbers - 1) numbers in
    if nsec == 0
    then no_sectors file
    else if ltb 255 nsec
    then too_many_sectors file
    else elim (write_blocks (imd_sector_size 2) sectors sorted (
        file
        ++ (mode ∷ cylinder ∷ head % 16 ∷ nsec ∷ 2 ∷ [])
        ++ take nsec (map u8 sorted ++ replicate nsec 0))) [
          | blocks file' ↦ saved file'
          | not_in_map number file' ↦ lost_sector number file'
        ]

-- The sectors read so far: the map, and the numbers in the order in which they were first read.
abbrev pub Found : Type 0
Found = List (ℕ × List ℕ) × List ℕ

unfoldable pub note_number : ℕ → Found → List ℕ
note_number number (sectors, numbers) = elim (find number sectors) [
  | none ↦ numbers ++ number ∷ []
  | some bytes ↦ numbers
]

unfoldable pub note_sector : ℤ × List ℕ → Found → Found
note_sector (pos i, bytes) found = (store i bytes found.0, note_number i found)
note_sector (negsuc i, bytes) found = found

-- Reads until the reader returns an error.
unfoldable pub find_sectors : ℕ → M (ℤ × List ℕ) → Found → M Found
find_sectors zero read found r = stuck
find_sectors (suc fuel) read found r = elim (read r) [
  | got s r' ↦ find_sectors fuel read (note_sector s found) r'
  | failed r' ↦ got found r'
  | stuck ↦ stuck
]

unfoldable pub imd_null_track : ℕ → ℕ → ℕ → List ℕ
imd_null_track mode cyl head = mode ∷ u8 cyl ∷ u8 head ∷ 0 ∷ 2 ∷ []

-- The track of a cylinder and head; there are two sides at most.
unfoldable pub imd_side : ℕ → ℕ → List TrackData → List ℕ
imd_side cyl head tracks = elim (get_elem? tracks cyl) [
  | none ↦ []
  | some t ↦ if head == 0 then t.side0 else if head == 1 then t.side1 else []
]

unfoldable pub imd_mode : Header → ℕ
imd_mode h = elim (rate_density_to_mode h.bit_rate (h.track_encoding == enc_isoibm_mfm)) [
  | none ↦ 3
  | some mode ↦ mode
]

-- One track: its sectors, or a null track where there are none.
unfoldable pub write_imd_side : ℕ → ℕ → ℕ → List ℕ → List ℕ → ImdSaved
write_imd_side mode cyl head side file =
    if length side == 0
    then saved (file ++ imd_null_track mode cyl head)
    else elim (find_sectors (fuel_for (new_reader side)) (read_sector_ibmpc cyl head) ([], [])
        (new_reader side)) [
          | got (sectors, numbers) r ↦
              if length sectors == 0
              then saved (file ++ imd_null_track mode cyl head)
              else write_imd_track mode (u8 cyl) (u8 head) sectors numbers file
          | failed r ↦ unfinished
          | stuck ↦ unfinished
        ]

-- The next part of the loop, where the one before it returned no error.
abbrev pub and_then_imd : ImdSaved → (List ℕ → ImdSaved) → ImdSaved
and_then_imd (saved file) k = k file
and_then_imd (no_sectors file) k = no_sectors file
and_then_imd (too_many_sectors file) k = too_many_sectors file
and_then_imd (lost_sector number file) k = lost_sector number file
and_then_imd unfinished k = unfinished

unfoldable pub write_imd_heads : ℕ → ℕ → ℕ → Disk → List ℕ → ImdSaved
write_imd_heads zero head cyl disk file = saved file
write_imd_heads (suc n) head cyl disk file =
    and_then_imd
      (write_imd_side (imd_mode disk.header) cyl head (imd_side cyl head disk.tracks) file)
      (write_imd_heads n (head + 1) cyl disk)

unfoldable pub write_imd_cylinders : ℕ → ℕ → ℕ → Disk → List ℕ → ImdSaved
write_imd_cylinders zero cyl heads disk file = saved file
write_imd_cylinders (suc n) cyl heads disk file =
    and_then_imd (write_imd_heads heads 0 cyl disk file)
      (write_imd_cylinders n (cyl + 1) heads disk)

unfoldable pub imd_cylinders : Disk → ℕ
imd_cylinders disk =
    if disk.header.number_of_track == 0 then length disk.tracks else disk.header.number_of_track

unfoldable pub imd_sides : Disk → ℕ
imd_sides disk = if disk.header.number_of_side == 0 then 1 else disk.header.number_of_side

unfoldable pub write_imd : List ℕ → Disk → ImdSaved
write_imd comment disk =
    write_imd_cylinders (imd_cylinders disk) 0 (imd_sides disk) disk
      (comment ++ imd_comment_terminator ∷ [])
