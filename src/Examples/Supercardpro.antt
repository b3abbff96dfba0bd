-- ===== src/Examples/Supercardpro.antt =====
-- The results about the SuperCard Pro client at small concrete inputs.
use fdx.Prelude.{
  ℕ, ◌≡◌, refl, sym, ap, ◌∙◌, arith, leb, true, some, none, Option, if◌then◌else◌, false, ◌==◌,
}
use fdx.Prelude.{
  List, [], ◌∷◌, ◌++◌, length, take, length-take, length-replicate, replicate, get_or, min, suc,
}
use fdx.Hfe.Disk.{Disk}
use fdx.Examples.Mfm.{whole}
use fdx.Supercardpro.Actions.{ScpError, ok, err}
use fdx.Supercardpro.Client.{Port}
use fdx.Supercardpro.Transfer.{read_floppy}
use fdx.Supercardpro.Refused.{ReadsInFull, read_floppy-refused}
use fdx.Supercardpro.Verified.{write_floppy-Session}
use fdx.Supercardpro.Session.{Session}
use fdx.Supercardpro.Flux.{
  unit_bytes, units_bytes, units_from, encode_flux_to_scp, times_from, cells_until, bits_of,
  decode_scp_flux,
}
use fdx.Supercardpro.Client.{
  packet, from_be32, infos_from, write_port, read_port, check_response, scp_send, select_drive,
  deselect_drive, seek_cylinder, seek_track, load_ram, write_flux, read_flux,
}
use fdx.Supercardpro.Transfer.{
  scp_disk, from_decoded, checked, otherwise, finally, read_back, try_track, write_retries,
  write_scp_side, write_scp_track, write_scp_heads, write_scp_cylinders, write_floppy,
}
use fdx.Mfm.Flux.{
  bitcell_period_ns, current_bit, transitions_from, generate_flux_transitions, rotation_duration_ns,
  last_time, cover_from, cover_full_rotation,
}
use fdx.Mfm.Decoder.{
  new_decoder, is_done, count_zero, accumulate, advance, adjusted_period, min_period, max_period,
  clamp_min, clamp_max, clamped, adjust, decide, next_bit,
}
use fdx.Mfm.Reader.{
  new_reader, read_half_bit, fuel_for, shift_history, is_mark, scan_loop, scan_ibmpc,
  count_sectors_loop, count_sectors_ibmpc,
}
use fdx.Hfe.Verify.{compare_loop, verify_sectors, verify_track_ibmpc, must_verify, verify_track}
use fdx.Hfe.Collect.{collect_loop, collect}
use fdx.Kryoflux.Cells.{with_bit, pack_from, pack}
use fdx.Supercardpro.Intervals.{AreTimed, times_from-encode}

-- A device that accepts every command and answers ones: its state is the last command.
abbrev echo_device : Port
echo_device = record {
  Device = ℕ;
  port_write = λ bytes cmd. some (if leb 0x80 (get_or bytes 0 0) then get_or bytes 0 0 else cmd);
  read_full = λ n cmd. some (take n (cmd ∷ 0x4f ∷ replicate n 1), cmd);
}

abbrev read_length : Option (List ℕ × ℕ) → ℕ
read_length none = 0
read_length (some (bytes, cmd)) = length bytes

echo_device-ReadsInFull : ReadsInFull echo_device
unfolding ReadsInFull
echo_device-ReadsInFull n cmd bytes later e =
    ap read_length (sym e)
    ∙ length-take n (cmd ∷ 0x4f ∷ replicate n 1)
    ∙ ap (λ k. min n (suc (suc k))) (length-replicate n 1)
    ∙ omega arith

read_floppy-refused_example :
    (e : ScpError) × ((read_floppy echo_device whole 100 2 80 0).0 ≡ err e)
read_floppy-refused_example =
    read_floppy-refused echo_device echo_device-ReadsInFull whole 100 2 80 (omega arith) 0

-- Two sides without sectors, at the highest speed that a header holds.
abbrev disk_to_verify : Disk
disk_to_verify = record {
  header = record (scp_disk 2 1).header { bit_rate = 250; floppy_rpm = 65535 };
  tracks = replicate 2 (record { side0 = 0x92 ∷ []; side1 = [] });
  verify_ibmpc = true;
  verify_amiga = false;
}

abbrev turns : List ℕ
turns = 0 ∷ 0 ∷ 0x75 ∷ 0x30 ∷ 0 ∷ 0 ∷ 0 ∷ 4 ∷ 0 ∷ 0 ∷ 0x75 ∷ 0x30 ∷ 0 ∷ 0 ∷ 0 ∷ 4 ∷ replicate 24 0

-- A device that accepts every command and has read four samples in each of five turns.
abbrev small_device : Port
small_device = record {
  Device = ℕ;
  port_write = λ bytes cmd. some (if leb 0x80 (get_or bytes 0 0) then get_or bytes 0 0 else cmd);
  read_full = λ n cmd.
      some
        (if n == 2 then cmd ∷ 0x4f ∷ [] else if n == 40 then take 40 turns else replicate n 1, cmd);
}

written : write_floppy small_device whole 100 2 disk_to_verify 2 0 ≡ (ok tt, 130)
unfolding unit_bytes units_bytes units_from encode_flux_to_scp times_from cells_until bits_of
    decode_scp_flux packet from_be32 infos_from write_port read_port check_response scp_send
    select_drive deselect_drive seek_cylinder seek_track load_ram write_flux read_flux scp_disk
    from_decoded checked otherwise finally read_back try_track write_retries write_scp_side
    write_scp_track write_scp_heads write_scp_cylinders write_floppy bitcell_period_ns current_bit
    transitions_from generate_flux_transitions rotation_duration_ns last_time cover_from
    cover_full_rotation new_decoder is_done count_zero accumulate advance adjusted_period min_period
    max_period clamp_min clamp_max clamped adjust decide next_bit new_reader read_half_bit fuel_for
    shift_history is_mark scan_loop scan_ibmpc count_sectors_loop count_sectors_ibmpc compare_loop
    verify_sectors verify_track_ibmpc must_verify verify_track collect_loop collect with_bit
    pack_from pack
written = refl

write_floppy-Session_example :
    (s1 : ℕ) × (s2 : ℕ) × (select_drive small_device 0 0 ≡ (ok tt, s1))
    × Session small_device whole 100 2 disk_to_verify ((0, 0) ∷ (1, 0) ∷ []) s1 s2
    × ((deselect_drive small_device 0 s2).1 ≡ 130)
unfolding must_verify scp_disk
write_floppy-Session_example =
    write_floppy-Session small_device whole 100 2 disk_to_verify refl 2 0 130 written

times_from-encode_example :
    ((x : ℕ)
      → times_from 8000000 0 (encode_flux_to_scp (4000 ∷ 10000 ∷ []) ++ (x ∷ []))
        ≡ 4000 ∷ 10000 ∷ [])
    × ((t : ℕ)
        → times_from 8000000 0 (encode_flux_to_scp ((4000 ∷ 10000 ∷ []) ++ (t ∷ [])))
          ≡ 4000 ∷ 10000 ∷ [])
unfolding AreTimed
times_from-encode_example = times_from-encode 8000000 (4000 ∷ 10000 ∷ []) (
    (
      160,
      refl,
      omega arith,
      omega arith,
      omega arith,
      omega arith,
      (240, refl, omega arith, omega arith, omega arith, omega arith, tt),
    ))
