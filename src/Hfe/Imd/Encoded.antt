-- ===== src/Hfe/Imd/Encoded.antt =====
-- hfe/imd.go: the track that ConvertIMDToHFE encodes holds the sectors of the IMD track under their
-- numbers.
use fdx.Prelude.{ℕ, ◌-◌, ◌*◌, ◌/◌, ◌≤◌, ◌<◌, ◌≡◌, refl, ap, subst, sym, ◌∙◌, arith, Bool, false}
use fdx.Prelude.{List, [], get_or, some, IsByte, u16, leb_of_lt, replicate}
use fdx.Mfm.Symbols.Width.{IsSector, HasSectors, track_width}
use fdx.Mfm.Writer.{encode_track_ibmpc}
use fdx.Mfm.Reader.{Reader, got, new_reader, read_sector_ibmpc}
use fdx.Hfe.Disk.{Header}
use fdx.Hfe.Collect.{find, collect}
use fdx.Hfe.Collect.Encoded.{collect-encode_track}
use fdx.Hfe.Imd.{ImdTrack, imd_sector_size, mode_to_rate_density}
use fdx.Hfe.Imd.Convert.{
  converted, fitted, head_number, convert_track, encode_imd_track, place_sectors,
}
use fdx.Hfe.Imd.Logical.{
  IsNumbered, number_at, sector_at, place_sectors-IsPlaced, HasBytes, fitted-IsSector,
}

size-512 : (ssize : ℕ) → ssize ≡ 2 → imd_sector_size ssize ≡ 512
unfolding imd_sector_size
size-512 ssize h = ap imd_sector_size h

convert_track-placed :
    (h : Header) (t : ImdTrack) (rate : ℕ) (mfm : Bool) (placed : List (List ℕ))
    → t.ssize ≡ 2
    → mode_to_rate_density t.mode ≡ some (rate, mfm)
    → t.cylinder < h.number_of_track
    → head_number t < h.number_of_side
    → place_sectors t.nsec 0 512 t (replicate t.nsec []) ≡ converted placed
    → convert_track h t ≡ converted (encode_imd_track t (u16 rate) h.floppy_rpm placed)
unfolding convert_track
convert_track-placed h t rate mfm placed hs hm hc hh e =
    let sized : place_sectors t.nsec 0 (imd_sector_size t.ssize) t (replicate t.nsec [])
        ≡ converted placed =
      ap (λ k. place_sectors t.nsec 0 k t (replicate t.nsec [])) (size-512 t.ssize hs) ∙ e in
    rw (size-512 t.ssize hs) (
      rw (hm, convert_track)
        (rw (leb_of_lt h.number_of_track t.cylinder hc)
          (rw (leb_of_lt h.number_of_side (head_number t) hh) (rw (sized, convert_track) refl))))

-- A track of an IMD image with 512-byte sectors, fewer than 256, whose map names each number from 1
-- to their count once, at a cylinder and head of the disk and a rate and speed at which they fit,
-- is encoded without error, and the sectors collected from it are those of the IMD track, each
-- under its number less one, whatever their order in the image.
pub convert_track-collect :
    (h : Header) (t : ImdTrack) (rate : ℕ) (mfm : Bool)
    → IsNumbered t
    → ((i : ℕ) → i < t.nsec → HasBytes (sector_at t i))
    → t.nsec < 256
    → t.ssize ≡ 2
    → mode_to_rate_density t.mode ≡ some (rate, mfm)
    → IsByte t.cylinder
    → t.cylinder < h.number_of_track
    → head_number t < h.number_of_side
    → track_width t.nsec (u16 rate) false ≤ u16 rate * 1000 * 60 / h.floppy_rpm * 2
    → (side : List ℕ) × (m : List (ℕ × List ℕ)) × (r : Reader) × (convert_track h t
        ≡ converted side)
      × (collect t.nsec (read_sector_ibmpc t.cylinder (head_number t)) (new_reader side) ≡ got m r)
      × ((i : ℕ) → i < t.nsec → find (number_at t i - 1) m ≡ some (fitted 512 (sector_at t i)))
unfolding encode_imd_track encode_track_ibmpc
convert_track-collect h t rate mfm numbered bytes small hs hm hb hc hh fits =
    let (placed, placing, there) = place_sectors-IsPlaced 512 t numbered in
    let has : HasSectors t.nsec placed = λ s lt.
      let (i, hi, e) = numbered.named s lt in
      subst IsSector (sym (there.1 i hi hi) ∙ ap (λ k. get_or placed k []) (omega (arith, e)))
        (fitted-IsSector (sector_at t i) (bytes i hi)) in
    let (m, r, collected, holds) =
      collect-encode_track placed t.cylinder (head_number t) (u16 rate) hb (omega arith) t.nsec
        small has false (u16 rate * 1000 * 60 / h.floppy_rpm * 2) fits in
    (
      encode_imd_track t (u16 rate) h.floppy_rpm placed,
      m,
      r,
      convert_track-placed h t rate mfm placed hs hm hc hh placing,
      collected,
      λ i hi.
          let (low, high) = numbered.in_range i hi in
          holds.below (number_at t i - 1) (omega arith) ∙ ap some (there.1 i hi hi),
    )
