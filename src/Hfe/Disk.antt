-- ===== src/Hfe/Disk.antt =====
-- hfe/hfe.go: the disk image in memory.
use fdx.Prelude.{ℕ, Bool, List}

-- The signature and the reserved bytes are numbers below 256, `bit_rate`, `floppy_rpm` and
-- `track_list_offset` below 65536.
pub record Header : Type 0 where
  pub header_signature : List ℕ
  pub format_revision : ℕ
  pub number_of_track : ℕ
  pub number_of_side : ℕ
  pub track_encoding : ℕ
  pub bit_rate : ℕ
  pub floppy_rpm : ℕ
  pub floppy_interface_mode : ℕ
  pub write_protected : ℕ
  pub track_list_offset : ℕ
  pub write_allowed : ℕ
  pub single_step : ℕ
  pub track0s0_alt_encoding : ℕ
  pub track0s0_encoding : ℕ
  pub track0s1_alt_encoding : ℕ
  pub track0s1_encoding : ℕ

pub record TrackData : Type 0 where
  pub side0 : List ℕ
  pub side1 : List ℕ

pub record Disk : Type 0 where
  pub header : Header
  pub tracks : List TrackData
  pub verify_ibmpc : Bool
  pub verify_amiga : Bool

abbrev pub enc_isoibm_mfm : ℕ
enc_isoibm_mfm = 0x00

abbrev pub enc_amiga_mfm : ℕ
enc_amiga_mfm = 0x01

abbrev pub enc_isoibm_fm : ℕ
enc_isoibm_fm = 0x02

abbrev pub ifm_ibmpc_dd : ℕ
ifm_ibmpc_dd = 0x00

abbrev pub ifm_ibmpc_hd : ℕ
ifm_ibmpc_hd = 0x01

abbrev pub ifm_amiga_dd : ℕ
ifm_amiga_dd = 0x04

abbrev pub ifm_ibmpc_ed : ℕ
ifm_ibmpc_ed = 0x08
