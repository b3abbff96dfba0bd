-- ===== src/Hfe/Adf/Finish.antt =====
-- `WriteADF` of hfe/adf.go ends on any disk.
use fdx.Prelude.{ℕ, zero, suc, ◌+◌, ◌*◌, ◌==◌, ltb, Bool-cases, inl, inr}
use fdx.Prelude.{List, [], length, get_elem?}
use fdx.Prelude.Int.{ℤ, pos}
use fdx.Prelude.Splits.{Option-cases}
use fdx.Mfm.Reader.{Reader, Read, M, got, failed, stuck, new_reader}
use fdx.Mfm.Reader.Ends.{left, Costs}
use fdx.Mfm.Amiga.{read_sector_amiga}
use fdx.Mfm.Amiga.Ends.{read_sector_amiga-Costs}
use fdx.Hfe.Disk.{TrackData, Disk}
use fdx.Hfe.Collect.{write_in_order}
use fdx.Hfe.Collect.Ends.{collect-Collects}
use fdx.Hfe.Img.{side_of}
use fdx.Hfe.Img.Finish.{Finishes, and_then-Finishes, save_sectors-Finishes}
use fdx.Hfe.Verify.{as_integer}
use fdx.Hfe.Adf.{
  AdfSaved, adf_bad_cylinders, adf_bad_heads, adf_written, adf_write_side, adf_write_heads,
}
use fdx.Hfe.Adf.{adf_write_cylinders, write_adf}

as_integer-Costs :
    (read : M (ℕ × List ℕ)) (r : Reader)
    → Costs (left r) (read r)
    → Costs (left r) (as_integer read r)
unfolding as_integer
as_integer-Costs read r h = go (read r) h
  where
    go :
        (x : Read (ℕ × List ℕ))
        → Costs (left r) x
        → Costs {A = ℤ × List ℕ}
            (left r)
            (elim x [ got s r' ↦ got (pos (s.0), s.1) r' | failed r' ↦ failed r' | stuck ↦ stuck ])
    go (got s r') e = e
    go (failed r') e = e
    go stuck e = e

write_side-Finishes :
    (cyl head : ℕ) (side file : List ℕ) → Finishes (adf_write_side cyl head side file)
unfolding adf_write_side
write_side-Finishes cyl head side file = elim (Bool-cases (length side == 0)) [
  | inl empty ↦ rw empty tt
  | inr some_data ↦
      let read = read_sector_amiga (cyl * 2 + head) in
      let (m, r, ends) =
        collect-Collects 11 (as_integer read) (new_reader side)
          (λ r'. as_integer-Costs read r' (read_sector_amiga-Costs (cyl * 2 + head) r')) in
      rw (some_data, ends) (save_sectors-Finishes cyl head (write_in_order 11 0 m file))
]

write_heads-Finishes :
    (k head cyl : ℕ) (tracks : List TrackData) (file : List ℕ)
    → Finishes (adf_write_heads k head cyl tracks file)
unfolding adf_write_heads
write_heads-Finishes zero head cyl tracks file = tt
write_heads-Finishes (suc k) head cyl tracks file = elim (Option-cases (get_elem? tracks cyl)) [
  | inl beyond ↦ rw (beyond, adf_write_heads) tt
  | inr (track, found) ↦
      rw (found, adf_write_heads)
        (and_then-Finishes (adf_write_side cyl head (side_of head track) file) _
          (write_side-Finishes cyl head (side_of head track) file)
          (λ file'. write_heads-Finishes k (head + 1) cyl tracks file'))
]

-- The loop over the cylinders ends with a file, an error, or the panic of an index.
pub adf_write_cylinders-Finishes :
    (k cyl : ℕ) (tracks : List TrackData) (file : List ℕ)
    → Finishes (adf_write_cylinders k cyl tracks file)
unfolding adf_write_cylinders
adf_write_cylinders-Finishes zero cyl tracks file = tt
adf_write_cylinders-Finishes (suc k) cyl tracks file =
    and_then-Finishes (adf_write_heads 2 0 cyl tracks file) _
      (write_heads-Finishes 2 0 cyl tracks file)
      (λ file'. adf_write_cylinders-Finishes k (cyl + 1) tracks file')

abbrev pub AdfFinishes : AdfSaved → Type 0
AdfFinishes (adf_bad_cylinders n) = Unit
AdfFinishes (adf_bad_heads n) = Unit
AdfFinishes (adf_written x) = Finishes x

-- On any disk WriteADF ends: with a geometry that is not the format's, with a file, with an empty
-- track, with a missing sector, or with the panic of an index out of range.
pub write_adf-AdfFinishes : (disk : Disk) → AdfFinishes (write_adf disk)
unfolding write_adf
write_adf-AdfFinishes disk = elim (Bool-cases (ltb disk.header.number_of_track 80)) [
  | inl few ↦ rw few tt
  | inr enough ↦ elim (Bool-cases (disk.header.number_of_side == 2)) [
    | inl two ↦ rw (enough, two) (adf_write_cylinders-Finishes 80 0 disk.tracks [])
    | inr other ↦ rw (enough, other) tt
  ]
]
