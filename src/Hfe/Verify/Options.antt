-- ===== src/Hfe/Verify/Options.antt =====
-- Which comparison hfe/verify.go makes for a disk.
use fdx.Prelude.{ℕ, ◌≤◌, ◌<◌, ◌≡◌, refl, ap, ◌∙◌, arith, Bool, true, ltb}
use fdx.Prelude.{some, List, get_elem?}
use fdx.Mfm.Symbols.Width.{HasSectors, track_width}
use fdx.Mfm.Writer.{new_writer, encode_track_ibm_internal}
use fdx.Mfm.Reader.{got, new_reader, count_sectors_ibmpc}
use fdx.Hfe.Disk.{TrackData, Disk}
use fdx.Hfe.Collect.Counted.{count-encode_track}
use fdx.Hfe.Verify.{init_verify_options, must_verify}

module _ (sectors : List (List ℕ)) (spt : ℕ) (small : spt < 256)
    (has : HasSectors spt sectors) where
  -- On a disk whose first side is the encoding of one sector or more, fewer than 256 of 512 bytes
  -- each, that fit on the track, InitVerifyOptions sets the flag of the IBM PC comparison and
  -- nothing else, and the disk must then be verified.
  pub init_verify_options-encoded :
      (disk : Disk) (track : TrackData) (c h rate max : ℕ) (skip : Bool)
      → 0 < spt
      → track_width spt rate skip ≤ max
      → get_elem? disk.tracks 0 ≡ some track
      → track.side0 ≡ encode_track_ibm_internal sectors c h spt rate skip (new_writer max)
      → (init_verify_options disk ≡ some (record disk { verify_ibmpc = true }))
        × (must_verify (record disk { verify_ibmpc = true }) ≡ true)
  unfolding init_verify_options must_verify
  init_verify_options-encoded disk track c h rate max skip some_sector fits found same =
      let (r, counted) = count-encode_track sectors c h rate spt small has skip max fits in
      let counted' : count_sectors_ibmpc (new_reader track.side0) ≡ got spt r =
        ap (λ t. count_sectors_ibmpc (new_reader t)) same ∙ counted in
      let positive : ltb 0 spt ≡ true = ground arith in
      (
        rw (found, init_verify_options)
            (rw counted'
              (rw positive (ap (λ b. some (record disk { verify_ibmpc = b })) positive))),
        refl,
      )
