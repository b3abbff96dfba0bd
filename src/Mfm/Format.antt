-- ===== src/Mfm/Format.antt =====
-- `DetectFormatFromSize` of mfm/reader.go: the geometry of a floppy image from the size of its file.
pub mod Geometry
use fdx.Prelude.{
  ℕ, zero, suc, ◌+◌, ◌*◌, ◌/◌, ◌%◌, Bool, true, false, not, ◌&&◌, if◌then◌else◌, leb, ◌==◌,
}
use fdx.Prelude.{Option, none, some, List, [], ◌∷◌}

pub record Format : Type 0 where
  pub cylinders : ℕ
  pub sides : ℕ
  pub sectors_per_track : ℕ

pub data Detected : Type 0 where
  detected : Format → Detected
  not_divisible : Detected
  unknown_format : Detected

abbrev pub format : ℕ → ℕ → ℕ → Format
format c s n = record { cylinders = c; sides = s; sectors_per_track = n }

abbrev pub total_sectors : Format → ℕ
total_sectors f = f.cylinders * f.sides * f.sectors_per_track

unfoldable pub common_formats : List Format
common_formats =
    format 80 2 18
    ∷ format 80 2 20
    ∷ format 80 2 9
    ∷ format 80 2 10
    ∷ format 80 1 9
    ∷ format 80 2 36
    ∷ format 80 2 39
    ∷ format 80 2 15
    ∷ format 40 2 9
    ∷ format 40 2 8
    ∷ format 40 2 9
    ∷ format 40 1 8
    ∷ format 40 1 9
    ∷ []

unfoldable pub common_format : ℕ → List Format → Option Format
common_format total [] = none
common_format total (f ∷ fs) = if total == total_sectors f then some f else common_format total fs

-- The inner loop, over the cylinder counts that it takes in turn.
unfoldable pub try_cylinders : ℕ → ℕ → List ℕ → Option Format
try_cylinders sides per_side [] = none
try_cylinders sides per_side (c ∷ cs) =
    let spt = per_side / c in
    if per_side % c == 0 && (leb 8 spt && leb spt 18)
    then some (format c sides spt)
    else try_cylinders sides per_side cs

-- The outer loop, over the side counts.
unfoldable pub try_sides : ℕ → List ℕ → Option Format
try_sides total [] = none
try_sides total (s ∷ ss) =
    let later = try_sides total ss in
    if not (total % s == 0)
    then later
    else elim (try_cylinders s (total / s) (80 ∷ 40 ∷ [])) [ some f ↦ some f | none ↦ later ]

unfoldable pub detect_format_from_size : ℕ → Detected
detect_format_from_size file_size =
    if not (file_size % 512 == 0)
    then not_divisible
    else elim (common_format (file_size / 512) common_formats) [
      | some f ↦ detected f
      | none ↦ elim (try_sides (file_size / 512) (2 ∷ 1 ∷ [])) [
        | some f ↦ detected f
        | none ↦ unknown_format
      ]
    ]
