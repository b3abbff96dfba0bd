-- ===== src/Supercardpro/Verified.antt =====
-- What `Write` of supercardpro/write.go has verified, from state to state.
use fdx.Prelude.{
  ℕ, zero, suc, ◌+◌, ◌*◌, ◌/◌, ◌≡◌, ◌<◌, refl, ap, ◌∙◌, arith, true, if◌then◌else◌, Bool-cases, inl,
  inr, ◌==◌, Option, none, some, List, [], ◌∷◌, ◌++◌, get_elem?,
}
use fdx.Prelude.Splits.{Option-cases}
use fdx.Hfe.Disk.{Disk, TrackData}
use fdx.Hfe.Verify.{
  Verified, verified, wrong_count, bad_write_data, bad_data, missing_sectors, unverified,
  must_verify,
}
use fdx.Mfm.Decoder.{Floats}
use fdx.Mfm.Flux.{generate_flux_transitions}
use fdx.Supercardpro.Flux.{
  BitsDecoded, bits, unfinished, no_flux_transitions, empty_flux_data, invalid_flux_info,
}
use fdx.Supercardpro.Actions.{Answer, ok, err}
use fdx.Supercardpro.Client.{Port, seek_cylinder, seek_track, select_drive, deselect_drive}
use fdx.Supercardpro.Transfer.{
  from_decoded, checked, read_back, try_track, write_retries, write_scp_side, write_scp_track,
  write_scp_heads, write_scp_cylinders, write_floppy, finally, otherwise, is_panic,
}
use fdx.Supercardpro.Holds.{bind_inverted, err_is_no_answer}
use fdx.Supercardpro.Session.{
  sides_of, places, flux_of, IsStepped, IsSought, AreFailed, IsAccepted, IsWritten, Session,
}

-- An answer without an operation leaves the state.
same_state :
    {D A : Type 0} → {a b : A} {s s' : D} → ◌≡◌ {A = Answer A × D} (ok a, s) (ok b, s') → s ≡ s'
same_state h = ap (λ r. r.1) h

from_decoded_inverted :
    {D : Type 0}
    → (d : BitsDecoded) {b : List ℕ} {s s' : D} → from_decoded d s ≡ (ok b, s')
    → (d ≡ bits b) × (s ≡ s')
unfolding from_decoded
from_decoded_inverted (bits c) {b} h =
    (ap (λ r. elim r.0 [ ok x ↦ bits x | err e ↦ unfinished ]) h, same_state h)
from_decoded_inverted empty_flux_data h = absurd (err_is_no_answer h)
from_decoded_inverted invalid_flux_info h = absurd (err_is_no_answer h)
from_decoded_inverted no_flux_transitions h = absurd (err_is_no_answer h)
from_decoded_inverted unfinished h = absurd (err_is_no_answer h)

checked_inverted :
    {D : Type 0}
    → (v : Option Verified) {s s' : D} → checked v s ≡ (ok tt, s')
    → (v ≡ some verified) × (s ≡ s')
unfolding checked
checked_inverted none h = absurd (err_is_no_answer h)
checked_inverted (some verified) h = (refl, same_state h)
checked_inverted (some (wrong_count m n)) h = absurd (err_is_no_answer h)
checked_inverted (some bad_write_data) h = absurd (err_is_no_answer h)
checked_inverted (some (bad_data i)) h = absurd (err_is_no_answer h)
checked_inverted (some missing_sectors) h = absurd (err_is_no_answer h)
checked_inverted (some unverified) h = absurd (err_is_no_answer h)

seek_cylinder-IsStepped :
    (port : Port) (cyl : ℕ) (bytes : List ℕ) (s s' : port.Device)
    → seek_cylinder port cyl s ≡ (ok bytes, s')
    → IsStepped port cyl s s'
unfolding seek_cylinder
seek_cylinder-IsStepped port zero bytes s s' h = (_, h)
seek_cylinder-IsStepped port (suc cyl) bytes s s' h = (_, h)

seek_track-IsSought :
    (port : Port) (track : ℕ) (s s' : port.Device)
    → seek_track port track s ≡ (ok tt, s')
    → IsSought port track s s'
unfolding seek_track
seek_track-IsSought port track s s' h =
    let (stepped, s1, e1, h1) = bind_inverted _ _ h in
    let (bytes, s2, e2, h2) = bind_inverted _ _ h1 in
    (
      s1,
      bytes,
      seek_cylinder-IsStepped port (track / 2) _ _ _ e1,
      e2 ∙ ap (λ x. (ok bytes, x)) (same_state h2),
    )

module _ (port : Port) (fl : Floats) (fuel heads : ℕ) (disk : Disk)
    (must : must_verify disk ≡ true) where
  try_track-IsAccepted :
      (cyl head : ℕ) (flux_data : List ℕ) (s s' : port.Device)
      → try_track port fl fuel disk cyl head flux_data s ≡ (ok tt, s')
      → IsAccepted port fl fuel heads disk cyl head flux_data s s'
  unfolding try_track read_back
  try_track-IsAccepted cyl head flux_data s s' h =
      let (loaded, s1, e1, h1) = bind_inverted _ _ (rw must at h) in
      let (written, s2, e2, h2) = bind_inverted _ _ h1 in
      let (flux, s3, e3, h3) = bind_inverted _ _ h2 in
      let (read_bits, s4, e4, h4) = bind_inverted _ _ h3 in
      let (decoded, same) = from_decoded_inverted _ e4 in
      let (accepted, same') = checked_inverted _ h4 in
      (
        s1,
        s2,
        flux,
        read_bits,
        e1,
        e2,
        e3 ∙ ap (λ x. (ok flux, x)) (same ∙ same'),
        decoded,
        accepted,
      )

  Accepted : ℕ → ℕ → List ℕ → ℕ → port.Device → port.Device → Type 0
  Accepted cyl head flux_data bound s s' =
      (n : ℕ) × (s1 : port.Device) × (n < bound)
      × AreFailed port fl fuel heads disk n cyl head flux_data s s1
      × IsAccepted port fl fuel heads disk cyl head flux_data s1 s'

  -- A success is one of the rounds, behind rounds that failed.
  round :
      (retries cyl head : ℕ) (flux_data : List ℕ) (s s' : port.Device)
      → (r : Answer (Unit {0}) × port.Device) → try_track port fl fuel disk cyl head flux_data s ≡ r
      → ((s1 : port.Device)
          → write_retries port fl fuel retries disk cyl head flux_data s1 ≡ (ok tt, s')
          → Accepted cyl head flux_data retries s1 s')
      → otherwise r (write_retries port fl fuel retries disk cyl head flux_data) ≡ (ok tt, s')
      → Accepted cyl head flux_data (suc retries) s s'
  unfolding Accepted AreFailed otherwise
  round retries cyl head flux_data s s' (ok done, s1) e later h = (
    0,
    s,
    omega arith,
    refl,
    try_track-IsAccepted cyl head flux_data s s' (e ∙ ap (λ x. (ok tt, x)) (same_state h)),
  )
  round retries cyl head flux_data s s' (err x, s1) e later h = elim (Bool-cases (is_panic x)) [
    | inl panic ↦ absurd (err_is_no_answer (rw panic at h))
    | inr other ↦
        let (n, s2, few, failed, accepted) = later s1 (rw other at h) in
        (suc n, s2, omega arith, (x, s1, e, other, failed), accepted)
  ]

  write_retries-Accepted :
      (retries cyl head : ℕ) (flux_data : List ℕ) (s s' : port.Device)
      → write_retries port fl fuel retries disk cyl head flux_data s ≡ (ok tt, s')
      → Accepted cyl head flux_data retries s s'
  unfolding write_retries
  write_retries-Accepted zero cyl head flux_data s s' h = absurd (err_is_no_answer h)
  write_retries-Accepted (suc retries) cyl head flux_data s s' h =
      round retries cyl head flux_data s s' _ refl
        (λ s1. write_retries-Accepted retries cyl head flux_data s1 s') h

  write_scp_side-IsWritten :
      (cyl head : ℕ) (place : Option TrackData) (s s1 s' : port.Device)
      → get_elem? disk.tracks cyl ≡ place
      → IsSought port (cyl * heads + head) s s1
      → write_scp_side port fl fuel place disk cyl head s1 ≡ (ok tt, s')
      → IsWritten port fl fuel heads disk cyl head s s'
  unfolding write_scp_side IsWritten Accepted
  write_scp_side-IsWritten cyl head none s s1 s' at sought h = absurd (err_is_no_answer h)
  write_scp_side-IsWritten cyl head (some track) s s1 s' at sought h =
      elim (Option-cases (
        generate_flux_transitions (if head == 0 then track.side0 else track.side1)
          disk.header.bit_rate)) [
            | inl empty ↦ absurd (err_is_no_answer (rw (empty, write_scp_side) at h))
            | inr (transitions, e) ↦
                let (n, s2, few, failed, accepted) =
                  write_retries-Accepted 5 cyl head (flux_of disk transitions) s1 s'
                    (rw (e, write_scp_side) at h) in
                (track, transitions, n, s1, s2, at, e, sought, few, failed, accepted)
          ]

  write_scp_track-IsWritten :
      (cyl head : ℕ) (s s' : port.Device)
      → write_scp_track port fl fuel heads disk cyl head s ≡ (ok tt, s')
      → IsWritten port fl fuel heads disk cyl head s s'
  unfolding write_scp_track
  write_scp_track-IsWritten cyl head s s' h =
      let (sought, s1, e1, h1) = bind_inverted _ _ h in
      write_scp_side-IsWritten cyl head (get_elem? disk.tracks cyl) s s1 s' refl
        (seek_track-IsSought port (cyl * heads + head) s s1 e1) h1

  Session-append :
      (xs ys : List (ℕ × ℕ)) (s s1 s' : port.Device)
      → Session port fl fuel heads disk xs s s1
      → Session port fl fuel heads disk ys s1 s'
      → Session port fl fuel heads disk (xs ++ ys) s s'
  unfolding Session
  Session-append [] ys s s1 s' e later = rw e later
  Session-append ((cyl, head) ∷ xs) ys s s1 s' (s2, here, more) later =
      (s2, here, Session-append xs ys s2 s1 s' more later)

  write_scp_heads-Session :
      (n head cyl : ℕ) (s s' : port.Device)
      → write_scp_heads port fl fuel n head heads disk cyl s ≡ (ok tt, s')
      → Session port fl fuel heads disk (sides_of n head cyl) s s'
  unfolding write_scp_heads Session
  write_scp_heads-Session zero head cyl s s' h = same_state h
  write_scp_heads-Session (suc n) head cyl s s' h =
      let (done, s1, e1, h1) = bind_inverted _ _ h in
      (
        s1,
        write_scp_track-IsWritten cyl head s s1 e1,
        write_scp_heads-Session n (head + 1) cyl s1 s' h1,
      )

  write_scp_cylinders-Session :
      (n cyl : ℕ) (s s' : port.Device)
      → write_scp_cylinders port fl fuel n cyl heads disk s ≡ (ok tt, s')
      → Session port fl fuel heads disk (places n cyl disk.header.number_of_side) s s'
  unfolding write_scp_cylinders Session
  write_scp_cylinders-Session zero cyl s s' h = same_state h
  write_scp_cylinders-Session (suc n) cyl s s' h =
      let (done, s1, e1, h1) = bind_inverted _ _ h in
      Session-append (sides_of disk.header.number_of_side 0 cyl)
        (places n (cyl + 1) disk.header.number_of_side) s s1 s'
        (write_scp_heads-Session disk.header.number_of_side 0 cyl s s1 e1)
        (write_scp_cylinders-Session n (cyl + 1) s1 s' h1)

  -- Where the disk must be verified and Write ends without error, its run is: the drive is
  -- selected; then for every side of every track, in order, the head is sent to track cyl * heads +
  -- head, its cylinder and its side; at most four rounds fail; in the next the flux that
  -- GenerateFluxTransitions, CoverFullRotation and encodeFluxToSCP make of the side is loaded and
  -- written, and directly behind that two revolutions are read that decode to a track that
  -- VerifyTrack accepts; at last the drive is deselected. Each begins in the state of the device
  -- that the one before has left.
  pub write_floppy-Session :
      (number_of_tracks : ℕ) (s s' : port.Device)
      → write_floppy port fl fuel heads disk number_of_tracks s ≡ (ok tt, s')
      → (s1 : port.Device) × (s2 : port.Device) × (select_drive port 0 s ≡ (ok tt, s1))
        × Session port fl fuel heads disk
            (places number_of_tracks 0 disk.header.number_of_side)
            s1
            s2
        × ((deselect_drive port 0 s2).1 ≡ s')
  unfolding write_floppy finally
  write_floppy-Session number_of_tracks s s' h =
      let (selected, s1, e1, h1) = bind_inverted _ _ h in
      let run = write_scp_cylinders port fl fuel number_of_tracks 0 heads disk s1 in
      let same : run ≡ (ok tt, run.1) = ap (λ r. (r, run.1)) {x = run.0} (ap (λ r. r.0) h1) in
      (
        s1,
        run.1,
        e1,
        write_scp_cylinders-Session number_of_tracks 0 s1 run.1 same,
        ap (λ r. r.1) h1,
      )
