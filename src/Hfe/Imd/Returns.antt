-- ===== src/Hfe/Imd/Returns.antt =====
-- hfe/imd.go: ReadIMDFile ends on any file, with an error or with an image that has been checked.
use fdx.Prelude.{ℕ, zero, suc, ◌≤◌, ◌<◌, ◌≡◌, ◌⊎◌, inl, inr, refl, arith, Bool-cases, All}
use fdx.Prelude.{List, [], ◌∷◌, length, ◌==◌}
use fdx.Prelude.Splits.{Option-cases}
use fdx.Hfe.Imd.{ImdTrack, ImdImage}
use fdx.Hfe.Imd.Read.{
  ImdTrackRead, track_got, track_eof, track_failed, Loaded, loaded, refused, unfinished, ImdError,
  read_imd_track, read_imd_tracks, read_imd_file, read_comment, validated, first_with_sectors,
}
use fdx.Hfe.Imd.Modes.{floppy_rpm_of-values}
use fdx.Hfe.Imd.Shape.{IsTrack, IsImage, TrackIsOk, read_imd_track-TrackIsOk}

-- An error, or tracks that have been checked.
abbrev TracksAreOk : Loaded (List ImdTrack) → Type 0
TracksAreOk (loaded ts) = All IsTrack ts
TracksAreOk (refused e) = Unit
TracksAreOk unfinished = ⊥

add_track-ok :
    (t : ImdTrack) (x : Loaded (List ImdTrack))
    → IsTrack t
    → TracksAreOk x
    → TracksAreOk
        (elim x [ loaded ts ↦ loaded (t ∷ ts) | refused e ↦ refused e | unfinished ↦ unfinished ])
add_track-ok t (loaded ts) ht h = (ht, h)
add_track-ok t (refused e) ht h = tt
add_track-ok t unfinished ht h = absurd h

next_track-ok :
    (len : ℕ) (later : List ℕ → Loaded (List ImdTrack)) (x : ImdTrackRead)
    → ((file : List ℕ) → length file ≤ len → TracksAreOk (later file))
    → TrackIsOk len x
    → TracksAreOk (elim x [
      | track_eof ↦ loaded []
      | track_failed e ↦ refused e
      | track_got t rest ↦ elim (later rest) [
        | loaded ts ↦ loaded (t ∷ ts)
        | refused e ↦ refused e
        | unfinished ↦ unfinished
      ]
    ])
next_track-ok len later (track_got t rest) all h = add_track-ok t (later rest) h.0 (all rest h.1)
next_track-ok len later track_eof all h = tt
next_track-ok len later (track_failed e) all h = tt

tracks-ok :
    (fuel : ℕ) (file : List ℕ) → length file < fuel → TracksAreOk (read_imd_tracks fuel file)
unfolding read_imd_tracks read_imd_track
tracks-ok zero file h = absurd (omega arith)
tracks-ok (suc fuel) [] h = tt
tracks-ok (suc fuel) (b ∷ bs) h =
    next_track-ok (length bs) (read_imd_tracks fuel) (read_imd_track (b ∷ bs))
      (λ file hf. tracks-ok fuel file (omega arith))
      (read_imd_track-TrackIsOk (length bs) (b ∷ bs) (omega arith))

-- The outcomes of the whole read.
abbrev ImageIsOk : Loaded ImdImage → Type 0
ImageIsOk x =
    ((e : ImdError) × (x ≡ refused e)) ⊎ ((img : ImdImage) × (x ≡ loaded img) × IsImage img)

validated-ok :
    (comment : List ℕ) (tracks : List ImdTrack)
    → All IsTrack tracks
    → ImageIsOk (validated comment tracks)
unfolding validated
validated-ok comment tracks h = elim (Bool-cases (length tracks == 0)) [
  | inl e ↦ rw e (inl (_, refl))
  | inr e ↦ elim (Option-cases (first_with_sectors tracks)) [
    | inl missing ↦ rw e (rw missing (inl (_, refl)))
    | inr found ↦ rw e (
        rw (found.1) (
          inr (
            _,
            refl,
            record {
              rpm_valid = floppy_rpm_of-values tracks;
              valid = h;
              some_sectors = λ missing. cc (found.1, missing);
            },
          )))
  ]
]

loaded-ok :
    (comment : List ℕ) (x : Loaded (List ImdTrack))
    → TracksAreOk x
    → ImageIsOk (elim x [
      | loaded tracks ↦ validated comment tracks
      | refused e ↦ refused e
      | unfinished ↦ unfinished
    ])
loaded-ok comment (loaded tracks) h = validated-ok comment tracks h
loaded-ok comment (refused e) h = inl (e, refl)
loaded-ok comment unfinished h = absurd h

-- On any bytes ReadIMDFile returns, with an error or with an image. Of an image the mode and the
-- size of every track are in range, its sector map and its sectors are as many as its header says,
-- each sector has no data or as many bytes as the size says, some track has sectors, and the
-- rotation speed is 300 or 360.
pub read_imd_file-IsImage :
    (file : List ℕ)
    → ((e : ImdError) × (read_imd_file file ≡ refused e))
      ⊎ ((img : ImdImage) × (read_imd_file file ≡ loaded img) × IsImage img)
unfolding read_imd_file
read_imd_file-IsImage file = elim (Option-cases (read_comment file)) [
  | inl e ↦ rw (e, read_imd_file) (inl (_, refl))
  | inr found ↦
      rw (found.1, read_imd_file)
        (loaded-ok found.0.0 (read_imd_tracks (suc (length found.0.1)) found.0.1)
          (tracks-ok (suc (length found.0.1)) found.0.1 (omega arith)))
]
