-- ===== src/Supercardpro/Refused.antt =====
-- What `readFlux` and `Read` of supercardpro/read.go do with one revolution.
use fdx.Prelude.{
  ℕ, zero, suc, ◌*◌, ◌≡◌, ◌<◌, refl, some, List, [], ◌∷◌, length, arith, inl, inr, Bool-cases, ltb,
  u8,
}
use fdx.Prelude.Splits.{Option-cases}
use fdx.Hfe.Disk.{Disk}
use fdx.Mfm.Decoder.{Floats}
use fdx.Supercardpro.Flux.{FluxInfo, FluxData, decode_scp_flux}
use fdx.Supercardpro.Actions.{Answer, ok, err, ScpError}
use fdx.Supercardpro.Client.{
  Port, write_port, read_port, packet, check_response, scp_send, select_drive, deselect_drive,
  seek_track, infos_from, read_flux, scpcmd_readflux, scpcmd_getfluxinfo, scpcmd_sendram_usb,
}
use fdx.Supercardpro.Transfer.{
  read_scp_track, read_scp_tracks, read_floppy, finally, from_decoded, scp_disk,
}
use fdx.Supercardpro.Holds.{Holds, Always, bind-Always, then-Always, pure-Always}

-- `io.ReadFull` fills its buffer where it gives no error.
unfoldable pub ReadsInFull : Port → Type 0
ReadsInFull port =
    (n : ℕ) (s : port.Device) (bytes : List ℕ) (s' : port.Device)
    → port.read_full n s ≡ some (bytes, s')
    → length bytes ≡ n

module _ (port : Port) (full : ReadsInFull port) where
  read_port-length : (n : ℕ) → Always (λ bytes. length bytes ≡ n) (read_port port n)
  unfolding Always Holds read_port ReadsInFull
  read_port-length n s = elim (Option-cases (port.read_full n s)) [
    | inl e ↦ rw (e, read_port) tt
    | inr ((bytes, s'), e) ↦ rw (e, read_port) (full n s bytes s' e)
  ]

  -- What SENDRAM_USB gives has the length asked for.
  scp_send-length :
      (args : List ℕ) (n : ℕ)
      → Always (λ bytes. length bytes ≡ n) (scp_send port scpcmd_sendram_usb args n)
  unfolding Always Holds scp_send
  scp_send-length args n s = elim (Bool-cases (ltb 255 (length args))) [
    | inl h ↦ rw h tt
    | inr h ↦ rw h (
        then-Always (λ bytes. length bytes ≡ n) (write_port port (packet scpcmd_sendram_usb args)) _
          (λ written.
            bind-Always (λ bytes. length bytes ≡ n) (λ bytes. length bytes ≡ n) (read_port port n) _
              (read_port-length n)
              (λ bytes e.
                then-Always (λ bytes. length bytes ≡ n) (read_port port 2) _
                  (λ response.
                    then-Always (λ bytes. length bytes ≡ n)
                      (check_response port scpcmd_sendram_usb response) _
                      (λ checked. pure-Always port.Device (λ bytes. length bytes ≡ n) bytes e))))
          s)
  ]

  HasNoBytes : FluxData → Type 0
  HasNoBytes flux_data = length flux_data.bytes ≡ 0

  read_flux-empty : Always HasNoBytes (read_flux port 1)
  unfolding read_flux infos_from HasNoBytes Always
  read_flux-empty = then-Always HasNoBytes (scp_send port scpcmd_readflux (u8 1 ∷ 0 ∷ []) 0) _ (λ a.
      then-Always HasNoBytes (scp_send port scpcmd_getfluxinfo [] 0) _ (λ b.
        then-Always HasNoBytes (read_port port 40) _ (λ info_data.
          bind-Always (λ bytes. length bytes ≡ 0) HasNoBytes (scp_send port scpcmd_sendram_usb _ 0)
            _ (scp_send-length _ 0) (λ bytes. pure-Always port.Device HasNoBytes _))))

  module _ (fl : Floats) (fuel : ℕ) where
    from_decoded-empty :
        (first : FluxInfo) (bytes : List ℕ) (rate : ℕ)
        → length bytes ≡ 0
        → Always
            (λ bitstream. ⊥)
            (from_decoded {D = port.Device} (decode_scp_flux fl fuel first bytes rate))
    unfolding Always Holds from_decoded decode_scp_flux
    from_decoded-empty first bytes rate h s = rw h tt

    read_scp_track-never :
        (track : ℕ) (disk : Disk) → Always (λ d. ⊥) (read_scp_track port fl fuel track disk)
    unfolding read_scp_track HasNoBytes
    read_scp_track-never track disk =
        then-Always (λ d. ⊥) (seek_track port track) _
          (λ sought.
            bind-Always HasNoBytes (λ d. ⊥) (read_flux port 1) _ read_flux-empty
              (λ flux_data h.
                bind-Always (λ bitstream. ⊥) (λ d. ⊥) _ _ (from_decoded-empty _ flux_data.bytes _ h)
                  (λ bitstream absurd. elim absurd [ ])))

    read_scp_tracks-never :
        (n : ℕ) (track : ℕ) (disk : Disk)
        → 0 < n
        → Always (λ d. ⊥) (read_scp_tracks port fl fuel n track disk)
    unfolding read_scp_tracks Always Holds
    read_scp_tracks-never zero track disk h = omega arith
    read_scp_tracks-never (suc n) track disk h =
        bind-Always (λ d. ⊥) (λ d. ⊥) _ _ (read_scp_track-never track disk)
          (λ d absurd. elim absurd [ ])

is_error : {A : Type 0} → (r : Answer A) → Holds (λ a. ⊥) r → (e : ScpError) × (r ≡ err e)
unfolding Holds
is_error (ok a) h = elim h [ ]
is_error (err e) h = (e, refl)

-- Where a read of the serial port that gives no error gives as many bytes as were asked for, Read
-- of one track or more ends with an error.
pub read_floppy-refused :
    (port : Port)
    → ReadsInFull port
    → (fl : Floats) (fuel : ℕ) (heads number_of_tracks : ℕ) → 0 < number_of_tracks * heads
    → (s : port.Device)
    → (e : ScpError) × ((read_floppy port fl fuel heads number_of_tracks s).0 ≡ err e)
unfolding read_floppy Always finally
read_floppy-refused port full fl fuel heads number_of_tracks h s = is_error _ (
    then-Always (λ d. ⊥) (select_drive port 0)
      (λ selected.
        finally
          (read_scp_tracks port fl fuel (number_of_tracks * heads) 0
            (scp_disk number_of_tracks heads))
          (deselect_drive port 0))
      (λ selected s'.
        read_scp_tracks-never port full fl fuel (number_of_tracks * heads) 0
          (scp_disk number_of_tracks heads) h s')
      s)
