-- ===== src/Hfe/Bkd/RoundTrip.antt =====
-- hfe/bkd.go: an image file that is read and written again is the same file.
use fdx.Prelude.{ℕ, ◌+◌, ◌*◌, ◌≤◌, ◌≡◌, refl, ap, ◌∙◌, arith, inr, true}
use fdx.Prelude.{IsByte, All, List, length}
use fdx.Mfm.Symbols.Width.{IsSector, track_width}
use fdx.Mfm.Writer.{header_gap, sector_gap, encode_track_bk}
use fdx.Mfm.Reader.{Reader, got, new_reader, count_sectors_ibmpc}
use fdx.Hfe.Disk.{TrackData, Disk}
use fdx.Hfe.Collect.Counted.{count-encode_track}
use fdx.Hfe.Img.{track_sectors, max_half_bits_of, side_of, saved}
use fdx.Hfe.Img.Sectors.{joined, read_sectors-joined}
use fdx.Hfe.Img.Slices.{track_sectors-HasSectors}
use fdx.Hfe.Img.Disks.{encode_cylinders-HasSides, save_encoded}
use fdx.Hfe.Bkd.{bkd_header, bkd_side, bkd_disk, read_bkd, loaded, write_bkd, written}

-- Ten sectors at 250 kbps fit on the track.
bkd_fits : track_width 10 250 true ≤ 100000
unfolding header_gap sector_gap
bkd_fits = omega arith

count_first :
    (ds : List (List ℕ)) (track : TrackData)
    → All IsSector ds
    → length ds ≡ 1600
    → side_of 0 track ≡ bkd_side ds 0 0
    → (r : Reader) × (count_sectors_ibmpc (new_reader track.side0) ≡ got 10 r)
unfolding bkd_side encode_track_bk bkd_header max_half_bits_of side_of
count_first ds track all count same =
    let sectors = track_sectors 10 ((0 * 2 + 0) * 10) ds in
    let (r, counted) =
      count-encode_track sectors 0 0 250 10 (omega arith)
        (track_sectors-HasSectors 10 ((0 * 2 + 0) * 10) ds all (omega arith)) true 100000
        bkd_fits in
    (r, ap (λ t. count_sectors_ibmpc (new_reader t)) same ∙ counted)

write_bkd-bkd_disk :
    (ds : List (List ℕ))
    → All IsSector ds
    → length ds ≡ 1600
    → write_bkd (bkd_disk ds) ≡ written (saved (joined ds))
unfolding write_bkd bkd_disk bkd_side encode_track_bk bkd_header max_half_bits_of
write_bkd-bkd_disk ds all count =
    let side = bkd_side ds in
    let (track, found, same) = encode_cylinders-HasSides 80 0 2 0 side (inr refl) (omega arith) in
    let (r, counted) = count_first ds track all count (same 0 (omega arith)) in
    let saved_all =
      save_encoded ds 80 2 10 250 100000 true (omega arith) (omega arith) (omega arith) all count
        bkd_fits (inr refl) in
    rw (found, write_bkd) (rw counted (ap written saved_all))

-- A file of 819200 bytes is read by ReadBKD without error, and WriteBKD of the disk writes the same
-- bytes, without error.
pub read_bkd-write_bkd :
    (file : List ℕ)
    → All IsByte file
    → length file ≡ 819200
    → (disk : Disk) × (read_bkd file ≡ loaded disk) × (write_bkd disk ≡ written (saved file))
unfolding read_bkd
read_bkd-write_bkd file bytes size =
    let (ds, read, count, all, same) = read_sectors-joined 1600 0 file size bytes in
    (
      bkd_disk ds,
      rw (size, read_bkd) (rw read refl),
      write_bkd-bkd_disk ds all count ∙ ap (λ t. written (saved t)) same,
    )
