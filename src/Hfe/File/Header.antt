-- ===== src/Hfe/File/Header.antt =====
-- The header and the track list of an HFE file, hfe/read.go and hfe/write.go: numbers of two bytes,
-- the low byte first.
use fdx.Prelude.{
  ℕ, zero, suc, ◌+◌, ◌*◌, ◌/◌, ◌%◌, List, [], ◌∷◌, ◌++◌, Option, some, none, replicate,
}
use fdx.Prelude.{take, drop}
use fdx.Hfe.Disk.{Header}
use fdx.Hfe.Blocks.{TrackHeader}

abbrev pub block_size : ℕ
block_size = 512

-- "HXCPICFE" and "HXCHFEV3"
abbrev pub hfev1_signature : List ℕ
hfev1_signature = 0x48 ∷ 0x58 ∷ 0x43 ∷ 0x50 ∷ 0x49 ∷ 0x43 ∷ 0x46 ∷ 0x45 ∷ []

abbrev pub hfev3_signature : List ℕ
hfev3_signature = 0x48 ∷ 0x58 ∷ 0x43 ∷ 0x48 ∷ 0x46 ∷ 0x45 ∷ 0x56 ∷ 0x33 ∷ []

-- `binary.LittleEndian.PutUint16` of a number below 65536, and back.
abbrev pub low_byte : ℕ → ℕ
low_byte n = n % 256

abbrev pub high_byte : ℕ → ℕ
high_byte n = n / 256

abbrev pub word : ℕ → ℕ → ℕ
word low high = low + 256 * high

-- `headerData` behind the signature, and the block around it.
unfoldable pub header_fields : Header → List ℕ
header_fields h =
    h.format_revision
    ∷ h.number_of_track
    ∷ h.number_of_side
    ∷ h.track_encoding
    ∷ low_byte h.bit_rate
    ∷ high_byte h.bit_rate
    ∷ low_byte h.floppy_rpm
    ∷ high_byte h.floppy_rpm
    ∷ h.floppy_interface_mode
    ∷ h.write_protected
    ∷ low_byte h.track_list_offset
    ∷ high_byte h.track_list_offset
    ∷ h.write_allowed
    ∷ h.single_step
    ∷ h.track0s0_alt_encoding
    ∷ h.track0s0_encoding
    ∷ h.track0s1_alt_encoding
    ∷ h.track0s1_encoding
    ∷ []

-- The signature has eight bytes.
unfoldable pub header_block : Header → List ℕ
header_block h = h.header_signature ++ (header_fields h ++ (replicate 6 0 ++ replicate 480 0xff))

-- `binary.Read` of the fields behind the signature; `none` is its error.
unfoldable pub parse_fields : List ℕ → List ℕ → Option Header
parse_fields signature
      (revision ∷ tracks ∷ sides ∷ encoding ∷ rate0 ∷ rate1 ∷ rpm0 ∷ rpm1 ∷ mode ∷ protected ∷ list0
        ∷ list1 ∷ allowed ∷ step ∷ e0 ∷ e1 ∷ e2 ∷ e3 ∷ behind) =
    some (record {
      header_signature = signature;
      format_revision = revision;
      number_of_track = tracks;
      number_of_side = sides;
      track_encoding = encoding;
      bit_rate = word rate0 rate1;
      floppy_rpm = word rpm0 rpm1;
      floppy_interface_mode = mode;
      write_protected = protected;
      track_list_offset = word list0 list1;
      write_allowed = allowed;
      single_step = step;
      track0s0_alt_encoding = e0;
      track0s0_encoding = e1;
      track0s1_alt_encoding = e2;
      track0s1_encoding = e3;
    })
parse_fields signature behind = none

unfoldable pub parse_header : List ℕ → Option Header
parse_header file = parse_fields (take 8 file) (drop 8 file)

unfoldable pub track_entry : TrackHeader → List ℕ
track_entry th =
    low_byte th.offset ∷ high_byte th.offset ∷ low_byte th.track_len ∷ high_byte th.track_len ∷ []

-- `n` entries from a place in the file; `none` is the error of a short file.
unfoldable pub parse_entries : ℕ → List ℕ → Option (List TrackHeader)
parse_entries zero file = some []
parse_entries (suc n) (a ∷ b ∷ c ∷ d ∷ file) = elim (parse_entries n file) [
  | none ↦ none
  | some ths ↦ some (record { offset = word a b; track_len = word c d } ∷ ths)
]
parse_entries (suc n) file = none
