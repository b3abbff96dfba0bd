-- ===== src/Supercardpro/Client.antt =====
-- The client of supercardpro/supercardpro.go and `readFlux` of supercardpro/read.go over a serial port.
-- The errors leave out the texts that wrap them, and `seekTrack` its delay.
use fdx.Prelude.{ℕ, zero, suc, ◌+◌, ◌*◌, ◌/◌, ◌%◌, not, if◌then◌else◌, ltb, ◌==◌, u8, u32}
use fdx.Prelude.{List, [], ◌∷◌, ◌++◌, length, take, drop, get_or, Option, none, some}
use fdx.Supercardpro.Flux.{FluxInfo, FluxData}
use fdx.Supercardpro.Actions.{
  ok, err, Action, ◌>>=◌, ◌>>◌, pure, data_too_long, write_failed, read_failed, echo_mismatch,
  bad_status, odd_length,
}

-- A serial port: `none` is an error of Write or of ReadFull. What is read has the length asked for.
pub record Port : Type 1 where
  pub Device : Type 0
  pub port_write : List ℕ → Device → Option Device
  pub read_full : ℕ → Device → Option (List ℕ × Device)

abbrev pub scp_status_ok : ℕ
scp_status_ok = 0x4f

-- The commands of the two drives, A first.
abbrev pub scpcmd_sel : ℕ → ℕ
scpcmd_sel drive = if drive == 1 then 0x81 else 0x80

abbrev pub scpcmd_dsel : ℕ → ℕ
scpcmd_dsel drive = if drive == 1 then 0x83 else 0x82

abbrev pub scpcmd_mtron : ℕ → ℕ
scpcmd_mtron drive = if drive == 1 then 0x85 else 0x84

abbrev pub scpcmd_mtroff : ℕ → ℕ
scpcmd_mtroff drive = if drive == 1 then 0x87 else 0x86

abbrev pub scpcmd_seek0 : ℕ
scpcmd_seek0 = 0x88

abbrev pub scpcmd_stepto : ℕ
scpcmd_stepto = 0x89

abbrev pub scpcmd_side : ℕ
scpcmd_side = 0x8d

abbrev pub scpcmd_readflux : ℕ
scpcmd_readflux = 0xa0

abbrev pub scpcmd_getfluxinfo : ℕ
scpcmd_getfluxinfo = 0xa1

abbrev pub scpcmd_writeflux : ℕ
scpcmd_writeflux = 0xa2

abbrev pub scpcmd_sendram_usb : ℕ
scpcmd_sendram_usb = 0xa9

abbrev pub scpcmd_loadram_usb : ℕ
scpcmd_loadram_usb = 0xaa

unfoldable pub byte_sum : List ℕ → ℕ
byte_sum [] = 0
byte_sum (n ∷ ns) = n + byte_sum ns

-- The packet of a command.
unfoldable pub packet : ℕ → List ℕ → List ℕ
packet cmd args =
    cmd ∷ length args ∷ (args ++ (u8 (0x4a + byte_sum (cmd ∷ length args ∷ args)) ∷ []))

-- `binary.BigEndian.PutUint32` and `Uint32`.
abbrev pub be32 : ℕ → List ℕ
be32 n = n / 16777216 % 256 ∷ n / 65536 % 256 ∷ n / 256 % 256 ∷ n % 256 ∷ []

unfoldable pub from_be32 : List ℕ → ℕ
from_be32 (a ∷ b ∷ c ∷ d ∷ behind) = 16777216 * a + 65536 * b + 256 * c + d
from_be32 behind = 0

abbrev pub no_info : FluxInfo
no_info = record { index_time = 0; nr_bitcells = 0 }

-- The entries of `Info`, of which the loop fills the first `nr_revs`. With more of these than entries
-- the code panics.
unfoldable pub infos_from : ℕ → ℕ → List ℕ → List FluxInfo
infos_from zero nr_revs info_data = []
infos_from (suc count) zero info_data = no_info ∷ infos_from count zero info_data
infos_from (suc count) (suc nr_revs) info_data =
    record {
      index_time = from_be32 (take 4 info_data);
      nr_bitcells = from_be32 (take 4 (drop 4 info_data));
    }
    ∷ infos_from count nr_revs (drop 8 info_data)

module _ (port : Port) where
  unfoldable pub write_port : List ℕ → Action port.Device (Unit {0})
  write_port bytes s = elim (port.port_write bytes s) [
    | none ↦ (err write_failed, s)
    | some s' ↦ (ok tt, s')
  ]

  unfoldable pub read_port : ℕ → Action port.Device (List ℕ)
  read_port n s = elim (port.read_full n s) [
    | none ↦ (err read_failed, s)
    | some (bytes, s') ↦ (ok bytes, s')
  ]

  -- The echo and the status of a response.
  unfoldable pub check_response : ℕ → List ℕ → Action port.Device (Unit {0})
  check_response cmd response s =
      if not (get_or response 0 0 == cmd)
      then (err (echo_mismatch (get_or response 0 0)), s)
      else if not (get_or response 1 0 == scp_status_ok)
      then (err (bad_status (get_or response 1 0)), s)
      else (ok tt, s)

  -- A command; `read_len` is the length of `readData`, which only SENDRAM_USB reads.
  unfoldable pub scp_send : ℕ → List ℕ → ℕ → Action port.Device (List ℕ)
  scp_send cmd args read_len s =
      if ltb 255 (length args)
      then (err data_too_long, s)
      else (do
        write_port (packet cmd args)
        bytes ← (if cmd == scpcmd_sendram_usb then read_port read_len else pure [])
        response ← read_port 2
        check_response cmd response
        pure bytes)
          s

  unfoldable pub select_drive : ℕ → Action port.Device (Unit {0})
  select_drive drive = do
    scp_send (scpcmd_sel drive) [] 0
    scp_send (scpcmd_mtron drive) [] 0
    pure tt

  unfoldable pub deselect_drive : ℕ → Action port.Device (Unit {0})
  deselect_drive drive = do
    scp_send (scpcmd_mtroff drive) [] 0
    scp_send (scpcmd_dsel drive) [] 0
    pure tt

  unfoldable pub seek_cylinder : ℕ → Action port.Device (List ℕ)
  seek_cylinder zero = scp_send scpcmd_seek0 [] 0
  seek_cylinder (suc cyl) = scp_send scpcmd_stepto (u8 (suc cyl) ∷ []) 0

  unfoldable pub seek_track : ℕ → Action port.Device (Unit {0})
  seek_track track = do
    seek_cylinder (track / 2)
    scp_send scpcmd_side (u8 (track % 2) ∷ []) 0
    pure tt

  unfoldable pub load_ram : List ℕ → Action port.Device (Unit {0})
  load_ram flux_data s =
      if not (length flux_data % 2 == 0)
      then (err odd_length, s)
      else (do
        write_port (packet scpcmd_loadram_usb (be32 0 ++ be32 (u32 (length flux_data))))
        write_port flux_data
        response ← read_port 2
        check_response scpcmd_loadram_usb response)
          s

  unfoldable pub write_flux : ℕ → ℕ → Action port.Device (Unit {0})
  write_flux nr_samples nr_revs = do
    scp_send scpcmd_writeflux (be32 nr_samples ++ (nr_revs ∷ [])) 0
    pure tt

  unfoldable pub read_flux : ℕ → Action port.Device FluxData
  read_flux nr_revs = do
    scp_send scpcmd_readflux (u8 nr_revs ∷ 0 ∷ []) 0
    scp_send scpcmd_getfluxinfo [] 0
    info_data ← read_port 40
    let info = infos_from 5 nr_revs info_data
    let ignore_bitcells = u32 ((get_or info 0 no_info).nr_bitcells * 95) / 100
    let nr_bitcells = (get_or info 1 no_info).nr_bitcells
    bytes ←
        scp_send scpcmd_sendram_usb
          (be32 (u32 (ignore_bitcells * 2)) ++ be32 (u32 (nr_bitcells * 2))) (u32 (nr_bitcells * 2))
    pure (record { info = info; bytes = bytes })
