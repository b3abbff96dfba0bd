-- ===== src/Hfe/Img/Finish.antt =====
-- `WriteIMG` of hfe/img.go ends on any disk, with a file or an error.
use fdx.Prelude.{ℕ, zero, suc, ◌+◌, ◌==◌, Bool-cases, inl, inr}
use fdx.Prelude.{List, [], length, get_elem?}
use fdx.Prelude.Splits.{Option-cases}
use fdx.Mfm.Reader.{new_reader, read_sector_ibmpc}
use fdx.Mfm.Reader.Ends.{read_sector_ibmpc-Costs}
use fdx.Mfm.Reader.Returns.{count_sectors_ibmpc-Returns}
use fdx.Hfe.Disk.{TrackData, Disk}
use fdx.Hfe.Collect.{InOrder, all_written, missing, write_in_order}
use fdx.Hfe.Collect.Ends.{collect-Collects}
use fdx.Hfe.Img.{
  Saved, saved, empty_track, missing_sector, out_of_range, unfinished, and_then, save_sectors,
}
use fdx.Hfe.Img.{write_side, side_of, write_heads, write_cylinders, write_img}

-- A file, or one of the errors and the panic of the code.
abbrev pub Finishes : Saved → Type 0
Finishes (saved file) = Unit
Finishes (empty_track c h file) = Unit
Finishes (missing_sector s c h file) = Unit
Finishes (out_of_range file) = Unit
Finishes unfinished = ⊥

pub and_then-Finishes :
    (x : Saved) (k : List ℕ → Saved)
    → Finishes x
    → ((file : List ℕ) → Finishes (k file))
    → Finishes (and_then x k)
and_then-Finishes (saved file) k h j = j file
and_then-Finishes (empty_track c d file) k h j = tt
and_then-Finishes (missing_sector s c d file) k h j = tt
and_then-Finishes (out_of_range file) k h j = tt
and_then-Finishes unfinished k h j = absurd h

pub save_sectors-Finishes : (cyl head : ℕ) (x : InOrder) → Finishes (save_sectors cyl head x)
save_sectors-Finishes cyl head (all_written file) = tt
save_sectors-Finishes cyl head (missing s file) = tt

write_side-Finishes :
    (n cyl head : ℕ) (side file : List ℕ) → Finishes (write_side n cyl head side file)
unfolding write_side
write_side-Finishes n cyl head side file = elim (Bool-cases (length side == 0)) [
  | inl empty ↦ rw empty tt
  | inr some_data ↦
      let (m, r, ends) =
        collect-Collects n (read_sector_ibmpc cyl head) (new_reader side)
          (read_sector_ibmpc-Costs cyl head) in
      rw (some_data, ends) (save_sectors-Finishes cyl head (write_in_order n 0 m file))
]

write_heads-Finishes :
    (k head n cyl : ℕ) (tracks : List TrackData) (file : List ℕ)
    → Finishes (write_heads k head n cyl tracks file)
unfolding write_heads
write_heads-Finishes zero head n cyl tracks file = tt
write_heads-Finishes (suc k) head n cyl tracks file = elim (Option-cases (get_elem? tracks cyl)) [
  | inl beyond ↦ rw (beyond, write_heads) tt
  | inr (track, found) ↦
      rw (found, write_heads)
        (and_then-Finishes (write_side n cyl head (side_of head track) file) _
          (write_side-Finishes n cyl head (side_of head track) file)
          (λ file'. write_heads-Finishes k (head + 1) n cyl tracks file'))
]

write_cylinders-Finishes :
    (k cyl heads n : ℕ) (tracks : List TrackData) (file : List ℕ)
    → Finishes (write_cylinders k cyl heads n tracks file)
unfolding write_cylinders
write_cylinders-Finishes zero cyl heads n tracks file = tt
write_cylinders-Finishes (suc k) cyl heads n tracks file =
    and_then-Finishes (write_heads heads 0 n cyl tracks file) _
      (write_heads-Finishes heads 0 n cyl tracks file)
      (λ file'. write_cylinders-Finishes k (cyl + 1) heads n tracks file')

-- On any disk WriteIMG ends: with a file, with an empty track, with a missing sector, or with the
-- panic of an index out of range.
pub write_img-Finishes : (disk : Disk) → Finishes (write_img disk)
unfolding write_img
write_img-Finishes disk = elim (Option-cases (get_elem? disk.tracks 0)) [
  | inl none_there ↦ rw (none_there, write_img) tt
  | inr (track, found) ↦
      let (n, r, counted) = count_sectors_ibmpc-Returns (new_reader track.side0) in
      rw (found, write_img)
        (rw counted (
          write_cylinders-Finishes disk.header.number_of_track 0 disk.header.number_of_side n
            disk.tracks []))
]
