-- ===== src/Supercardpro/Transfer.antt =====
-- `Read` of supercardpro/read.go, `Write` of supercardpro/write.go and `Erase` of supercardpro/erase.go.
-- `heads` is that of the configuration; what they print is left out.
use fdx.Prelude.{
  Bool, true, ℕ, zero, suc, ◌+◌, ◌*◌, ◌/◌, ◌%◌, false, if◌then◌else◌, ◌==◌, u8, u32, List, [], ◌∷◌,
  length, replicate, set, get_elem?, get_or, Option, none, some,
}
use fdx.Hfe.Disk.{Disk, TrackData, enc_isoibm_mfm, ifm_ibmpc_dd}
use fdx.Hfe.Img.{set_side}
use fdx.Hfe.Verify.{
  Verified, verified, wrong_count, bad_write_data, bad_data, missing_sectors, unverified,
  must_verify, verify_track,
}
use fdx.Mfm.Decoder.{Floats}
use fdx.Mfm.Flux.{generate_flux_transitions, cover_full_rotation}
use fdx.Supercardpro.Flux.{
  FluxData, BitsDecoded, bits, decode_scp_flux, scp_rates, encode_flux_to_scp,
}
use fdx.Supercardpro.Actions.{
  Answer, ok, err, Action, ◌>>=◌, ◌>>◌, pure, ScpError, undecoded, no_transitions, bad_track,
  out_of_retries, out_of_range,
}
use fdx.Supercardpro.Client.{
  Port, no_info, select_drive, deselect_drive, seek_track, read_flux, load_ram, write_flux,
}

-- The disk before the first track is read.
unfoldable pub scp_disk : ℕ → ℕ → Disk
scp_disk number_of_tracks heads = record {
  header = record {
    header_signature = replicate 8 0;
    format_revision = 0;
    number_of_track = u8 number_of_tracks;
    number_of_side = u8 heads;
    track_encoding = enc_isoibm_mfm;
    bit_rate = 500;
    floppy_rpm = 300;
    floppy_interface_mode = ifm_ibmpc_dd;
    write_protected = 0xff;
    track_list_offset = 0;
    write_allowed = 0xff;
    single_step = 0xff;
    track0s0_alt_encoding = 0xff;
    track0s0_encoding = enc_isoibm_mfm;
    track0s1_alt_encoding = 0xff;
    track0s1_encoding = enc_isoibm_mfm;
  };
  tracks = replicate number_of_tracks (record { side0 = []; side1 = [] });
  verify_ibmpc = false;
  verify_amiga = false;
}

-- Speed and bit rate, at the first track only.
unfoldable pub set_rates : ℕ → FluxData → Disk → Disk
set_rates zero flux_data disk =
    let (rpm, rate) = scp_rates (get_or flux_data.info 0 no_info) in
    record disk { header = record (disk.header) { floppy_rpm = rpm; bit_rate = rate } }
set_rates (suc track) flux_data disk = disk

-- The index beyond the tracks ends the run; other errors do not end the retries.
unfoldable pub is_panic : ScpError → Bool
is_panic out_of_range = true
is_panic e = false

module _ {D : Type 0} where
  unfoldable pub from_decoded : BitsDecoded → Action D (List ℕ)
  from_decoded (bits mfm_bytes) s = (ok mfm_bytes, s)
  from_decoded failed s = (err (undecoded failed), s)

  unfoldable pub store_track : ℕ → ℕ → List ℕ → Disk → Action D Disk
  store_track cyl head bitstream disk s = elim (get_elem? disk.tracks cyl) [
    | none ↦ (err out_of_range, s)
    | some track ↦
        (ok (record disk { tracks = set disk.tracks cyl (set_side head bitstream track) }), s)
  ]

  -- The result of `VerifyTrack`, a panic for `none`.
  unfoldable pub checked : Option Verified → Action D (Unit {0})
  checked none s = (err out_of_range, s)
  checked (some verified) s = (ok tt, s)
  checked (some (wrong_count m n)) s = (err bad_track, s)
  checked (some bad_write_data) s = (err bad_track, s)
  checked (some (bad_data i)) s = (err bad_track, s)
  checked (some missing_sectors) s = (err bad_track, s)
  checked (some unverified) s = (err bad_track, s)

  -- The next round of the retries, behind an error; a panic goes through.
  unfoldable pub otherwise : {A : Type 0} → Answer A × D → Action D A → Answer A × D
  otherwise (ok a, s) later = (ok a, s)
  otherwise (err e, s) later = if is_panic e then (err e, s) else later s

  -- The deferred `deselectDrive`, whose error is dropped.
  unfoldable pub finally : {A : Type 0} → Action D A → Action D (Unit {0}) → Action D A
  finally m cleanup s = let (r, s') = m s in (r, (cleanup s').1)

module _ (port : Port) (fl : Floats) (fuel : ℕ) where
  -- The flux of a track as half-bits: `readFlux` and `decodeFluxToMFM`.
  unfoldable pub read_scp_track : ℕ → Disk → Action port.Device Disk
  read_scp_track track disk = do
    seek_track port track
    flux_data ← read_flux port 1
    let rated = set_rates track flux_data disk
    bitstream ← from_decoded (
        decode_scp_flux fl fuel (get_or flux_data.info 0 no_info) flux_data.bytes
          rated.header.bit_rate)
    store_track (track / 2) (track % 2) bitstream rated

  -- The loop, `n` tracks from `track` on.
  unfoldable pub read_scp_tracks : ℕ → ℕ → Disk → Action port.Device Disk
  read_scp_tracks zero track disk = pure disk
  read_scp_tracks (suc n) track disk = do
    disk' ← read_scp_track track disk
    read_scp_tracks n (track + 1) disk'

  unfoldable pub read_floppy : ℕ → ℕ → Action port.Device Disk
  read_floppy heads number_of_tracks = do
    select_drive port 0
    finally (read_scp_tracks (number_of_tracks * heads) 0 (scp_disk number_of_tracks heads))
        (deselect_drive port 0)

  -- What is read back of a track that was written.
  unfoldable pub read_back : Disk → ℕ → ℕ → Action port.Device (Unit {0})
  read_back disk cyl head = do
    flux_result ← read_flux port 2
    bits_result ← from_decoded (
        decode_scp_flux fl fuel (get_or flux_result.info 0 no_info) flux_result.bytes
          disk.header.bit_rate)
    checked (verify_track disk cyl head bits_result)

  -- One round of the retries.
  unfoldable pub try_track : Disk → ℕ → ℕ → List ℕ → Action port.Device (Unit {0})
  try_track disk cyl head flux_data = do
    load_ram port flux_data
    write_flux port (u32 (length flux_data / 2)) 2
    if must_verify disk then read_back disk cyl head else pure tt

  unfoldable pub write_retries : ℕ → Disk → ℕ → ℕ → List ℕ → Action port.Device (Unit {0})
  write_retries zero disk cyl head flux_data s = (err out_of_retries, s)
  write_retries (suc retries) disk cyl head flux_data s =
      let later = write_retries retries disk cyl head flux_data in
      otherwise (try_track disk cyl head flux_data s) later

  -- `none` is the index beyond the tracks.
  unfoldable pub write_scp_side : Option TrackData → Disk → ℕ → ℕ → Action port.Device (Unit {0})
  write_scp_side none disk cyl head s = (err out_of_range, s)
  write_scp_side (some track) disk cyl head s =
      elim (generate_flux_transitions (if head == 0 then track.side0 else track.side1)
        disk.header.bit_rate) [
          | none ↦ (err no_transitions, s)
          | some transitions ↦
              write_retries 5 disk cyl head
                (encode_flux_to_scp
                  (cover_full_rotation transitions disk.header.bit_rate disk.header.floppy_rpm))
                s
        ]

  unfoldable pub write_scp_track : ℕ → Disk → ℕ → ℕ → Action port.Device (Unit {0})
  write_scp_track heads disk cyl head = do
    seek_track port (cyl * heads + head)
    write_scp_side (get_elem? disk.tracks cyl) disk cyl head

  unfoldable pub write_scp_heads : ℕ → ℕ → ℕ → Disk → ℕ → Action port.Device (Unit {0})
  write_scp_heads zero head heads disk cyl = pure tt
  write_scp_heads (suc n) head heads disk cyl = do
    write_scp_track heads disk cyl head
    write_scp_heads n (head + 1) heads disk cyl

  unfoldable pub write_scp_cylinders : ℕ → ℕ → ℕ → Disk → Action port.Device (Unit {0})
  write_scp_cylinders zero cyl heads disk = pure tt
  write_scp_cylinders (suc n) cyl heads disk = do
    write_scp_heads disk.header.number_of_side 0 heads disk cyl
    write_scp_cylinders n (cyl + 1) heads disk

  unfoldable pub write_floppy : ℕ → Disk → ℕ → Action port.Device (Unit {0})
  write_floppy heads disk number_of_tracks = do
    select_drive port 0
    finally (write_scp_cylinders number_of_tracks 0 heads disk) (deselect_drive port 0)

-- The samples of `generateEraseFlux`, each of 40.
unfoldable pub erase_samples : ℕ → List ℕ
erase_samples zero = []
erase_samples (suc n) = 0 ∷ 40 ∷ erase_samples n

abbrev pub erase_nr_samples : ℕ
erase_nr_samples = 8000000 / 40

module _ (port : Port) where
  unfoldable pub erase_tracks : ℕ → ℕ → ℕ → Action port.Device (Unit {0})
  erase_tracks zero track nr_samples = pure tt
  erase_tracks (suc n) track nr_samples = do
    seek_track port track
    write_flux port nr_samples 1
    erase_tracks n (track + 1) nr_samples

  unfoldable pub erase_loaded : List ℕ → ℕ → Action port.Device (Unit {0})
  erase_loaded flux max_track = do
    load_ram port flux
    erase_tracks max_track 0 (u32 (length flux / 2))

  unfoldable pub erase_floppy : ℕ → ℕ → Action port.Device (Unit {0})
  erase_floppy heads number_of_tracks = do
    select_drive port 0
    finally (erase_loaded (erase_samples erase_nr_samples) (number_of_tracks * heads))
        (deselect_drive port 0)
