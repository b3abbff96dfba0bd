-- ===== src/Hfe/Imd.antt =====
-- hfe/imd.go: the records of an IMD image, the mode byte and the flag byte. The children are the
-- reader of the file, the conversion to a disk, and the writer.
pub mod Read
pub mod Convert
pub mod Write
pub mod Modes
pub mod Sort
pub mod Flags
pub mod Sector
pub mod Shape
pub mod Returns
pub mod Track
pub mod Found
pub mod Sides
pub mod Files
pub mod RoundTrip
pub mod Refused
pub mod Logical
pub mod Encoded
use fdx.Prelude.{ℕ, ◌+◌, ◌*◌, ◌^◌, bit_or, Bool, true, false, ◌||◌, ◌&&◌, if◌then◌else◌, ltb, leb}
use fdx.Prelude.{◌==◌, Option, none, some, List, [], ◌∷◌, get_or, ◌<<<◌}

abbrev pub imd_comment_terminator : ℕ
imd_comment_terminator = 0x1a

-- `sector_data` is the field `Data`, `none` where the Go slice is nil.
pub record ImdSector : Type 0 where
  pub flag : ℕ
  pub sector_data : Option (List ℕ)
  pub compressed : Bool
  pub deleted : Bool
  pub bad : Bool

-- A map that the file does not have is the empty list.
pub record ImdTrack : Type 0 where
  pub mode : ℕ
  pub cylinder : ℕ
  pub head : ℕ
  pub nsec : ℕ
  pub ssize : ℕ
  pub sector_map : List ℕ
  pub cyl_map : List ℕ
  pub head_map : List ℕ
  pub sectors : List ImdSector

pub record ImdImage : Type 0 where
  pub comment : List ℕ
  pub tracks : List ImdTrack
  pub floppy_rpm : ℕ

unfoldable pub imd_sector_size : ℕ → ℕ
imd_sector_size ssize = if ltb 6 ssize then 0 else 128 <<< ssize

-- `none` is the error of a mode above 5.
unfoldable pub mode_to_rate_density : ℕ → Option (ℕ × Bool)
mode_to_rate_density mode =
    if ltb 5 mode
    then none
    else some (get_or (500 ∷ 300 ∷ 250 ∷ 500 ∷ 300 ∷ 250 ∷ []) mode 0, leb 3 mode)

-- The three modes of each rate; `none` is the error of another rate.
unfoldable pub base_mode : ℕ → Option ℕ
base_mode rate =
    if rate == 500
    then some 0
    else if rate == 300
    then some 1
    else if rate == 250
    then some 2
    else none

unfoldable pub rate_density_to_mode : ℕ → Bool → Option ℕ
rate_density_to_mode rate mfm = elim (base_mode rate) [
  | none ↦ none
  | some base ↦ some (if mfm then base + 3 else base)
]

-- Whether the rest of the loop finds `first` alone.
unfoldable pub all_equal : ℕ → List ℕ → Bool
all_equal first [] = true
all_equal first (b ∷ bs) = (b == first) && all_equal first bs

unfoldable pub is_compressible : List ℕ → Bool
is_compressible [] = false
is_compressible (first ∷ bs) = all_equal first bs

unfoldable pub flag_bit : Bool → ℕ → ℕ → ℕ
flag_bit is_set mask flag = if is_set then bit_or flag mask else flag

unfoldable pub calculate_flag : Bool → Bool → Bool → ℕ
calculate_flag compressed deleted bad =
    flag_bit bad 4 (flag_bit deleted 2 (flag_bit compressed 1 1))

-- `compressed`, `deleted`, `bad`.
unfoldable pub decode_flag : ℕ → Bool × Bool × Bool
decode_flag flag = (
  flag == 2 || flag == 6 || flag == 7,
  flag == 3 || flag == 7,
  flag == 5 || flag == 6 || flag == 7,
)
