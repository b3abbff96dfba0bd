-- ===== src/Supercardpro/Session.antt =====
-- What the device goes through in `Write` of supercardpro/write.go, apart from the loops of the code.
use fdx.Prelude.{
  ℕ, zero, suc, ◌+◌, ◌*◌, ◌/◌, ◌%◌, ◌≡◌, ◌<◌, List, [], ◌∷◌, ◌++◌, length, get_or, get_elem?, some,
  if◌then◌else◌, ◌==◌, u8, u32, false,
}
use fdx.Hfe.Disk.{Disk, TrackData}
use fdx.Hfe.Verify.{verified, verify_track}
use fdx.Mfm.Decoder.{Floats}
use fdx.Mfm.Flux.{generate_flux_transitions, cover_full_rotation}
use fdx.Supercardpro.Flux.{FluxData, bits, decode_scp_flux, encode_flux_to_scp}
use fdx.Supercardpro.Actions.{ok, err, ScpError}
use fdx.Supercardpro.Client.{
  Port, no_info, scp_send, scpcmd_seek0, scpcmd_stepto, scpcmd_side, load_ram, write_flux,
  read_flux,
}
use fdx.Supercardpro.Transfer.{try_track, is_panic}

-- The sides of the disk in the order of writing, as cylinder and head.
abbrev pub sides_of : ℕ → ℕ → ℕ → List (ℕ × ℕ)
sides_of zero head cyl = []
sides_of (suc n) head cyl = (cyl, head) ∷ sides_of n (head + 1) cyl

abbrev pub places : ℕ → ℕ → ℕ → List (ℕ × ℕ)
places zero cyl sides = []
places (suc n) cyl sides = sides_of sides 0 cyl ++ places n (cyl + 1) sides

-- The flux of a side.
abbrev pub flux_of : Disk → List ℕ → List ℕ
flux_of disk transitions =
    encode_flux_to_scp (cover_full_rotation transitions disk.header.bit_rate disk.header.floppy_rpm)

module _ (port : Port) where
  -- The head steps to the cylinder.
  abbrev pub IsStepped : ℕ → port.Device → port.Device → Type 0
  IsStepped zero s s' = (bytes : List ℕ) × (scp_send port scpcmd_seek0 [] 0 s ≡ (ok bytes, s'))
  IsStepped (suc cyl) s s' =
      (bytes : List ℕ) × (scp_send port scpcmd_stepto (u8 (suc cyl) ∷ []) 0 s ≡ (ok bytes, s'))

  -- It is at half the number of the track, on the side that the lowest bit says.
  abbrev pub IsSought : ℕ → port.Device → port.Device → Type 0
  IsSought track s s' =
      (s1 : port.Device) × (bytes : List ℕ) × IsStepped (track / 2) s s1
      × (scp_send port scpcmd_side (u8 (track % 2) ∷ []) 0 s1 ≡ (ok bytes, s'))

  module _ (fl : Floats) (fuel : ℕ) (heads : ℕ) (disk : Disk) where
    -- `n` rounds that end in an error.
    unfoldable pub AreFailed : ℕ → ℕ → ℕ → List ℕ → port.Device → port.Device → Type 0
    AreFailed zero cyl head flux_data s s' = s ≡ s'
    AreFailed (suc n) cyl head flux_data s s' =
        (e : ScpError) × (s1 : port.Device) × (try_track port fl fuel disk cyl head flux_data s
          ≡ (err e, s1))
        × (is_panic e ≡ false)
        × AreFailed n cyl head flux_data s1 s'

    -- The flux is loaded, written, and directly behind that two revolutions are read, which decode to a
    -- track that `VerifyTrack` accepts.
    abbrev pub IsAccepted : ℕ → ℕ → List ℕ → port.Device → port.Device → Type 0
    IsAccepted cyl head flux_data s s' =
        (s1 : port.Device) × (s2 : port.Device) × (flux : FluxData) × (read_bits : List ℕ)
        × (load_ram port flux_data s ≡ (ok tt, s1))
        × (write_flux port (u32 (length flux_data / 2)) 2 s1 ≡ (ok tt, s2))
        × (read_flux port 2 s2 ≡ (ok flux, s'))
        × (decode_scp_flux fl fuel (get_or flux.info 0 no_info) flux.bytes disk.header.bit_rate
            ≡ bits read_bits)
        × (verify_track disk cyl head read_bits ≡ some verified)

    -- A side is sought, and its flux is accepted behind four failed rounds at most.
    unfoldable pub IsWritten : ℕ → ℕ → port.Device → port.Device → Type 0
    IsWritten cyl head s s' =
        (track : TrackData) × (transitions : List ℕ) × (n : ℕ) × (s1 : port.Device)
        × (s2 : port.Device) × (get_elem? disk.tracks cyl ≡ some track)
        × (generate_flux_transitions (if head == 0 then track.side0 else track.side1)
              disk.header.bit_rate
            ≡ some transitions)
        × IsSought (cyl * heads + head) s s1
        × (n < 5)
        × AreFailed n cyl head (flux_of disk transitions) s1 s2
        × IsAccepted cyl head (flux_of disk transitions) s2 s'

    -- One side after the other, from state to state.
    unfoldable pub Session : List (ℕ × ℕ) → port.Device → port.Device → Type 0
    Session [] s s' = s ≡ s'
    Session ((cyl, head) ∷ rest) s s' =
        (s1 : port.Device) × IsWritten cyl head s s1 × Session rest s1 s'
