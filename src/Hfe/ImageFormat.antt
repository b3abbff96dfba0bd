-- ===== src/Hfe/ImageFormat.antt =====
-- hfe/imageformat.go: the format of an image by the name of its file. A name is the list of its code
-- points.
pub mod Names
use fdx.Prelude.{
  ℕ, ◌+◌, Bool, true, false, ◌&&◌, ◌||◌, not, if◌then◌else◌, leb, ◌==◌, List, [], ◌∷◌, map,
}
use fdx.Hfe.Verify.{equal}

pub data ImageFormat : Type 0 where
  image_format_unknown : ImageFormat
  image_format_adf image_format_bkd image_format_cp2 image_format_dcf image_format_epl
        image_format_hfe :
      ImageFormat
  image_format_imd image_format_img image_format_mfm image_format_pdi image_format_pri
        image_format_psi image_format_scp image_format_td0 :
      ImageFormat

-- `String`: "ADF", and so on.
unfoldable pub string : ImageFormat → List ℕ
string image_format_unknown = 0x55 ∷ 0x6e ∷ 0x6b ∷ 0x6e ∷ 0x6f ∷ 0x77 ∷ 0x6e ∷ []
string image_format_adf = 0x41 ∷ 0x44 ∷ 0x46 ∷ []
string image_format_bkd = 0x42 ∷ 0x4b ∷ 0x44 ∷ []
string image_format_cp2 = 0x43 ∷ 0x50 ∷ 0x32 ∷ []
string image_format_dcf = 0x44 ∷ 0x43 ∷ 0x46 ∷ []
string image_format_epl = 0x45 ∷ 0x50 ∷ 0x4c ∷ []
string image_format_hfe = 0x48 ∷ 0x46 ∷ 0x45 ∷ []
string image_format_imd = 0x49 ∷ 0x4d ∷ 0x44 ∷ []
string image_format_img = 0x49 ∷ 0x4d ∷ 0x47 ∷ []
string image_format_mfm = 0x4d ∷ 0x46 ∷ 0x4d ∷ []
string image_format_pdi = 0x50 ∷ 0x44 ∷ 0x49 ∷ []
string image_format_pri = 0x50 ∷ 0x52 ∷ 0x49 ∷ []
string image_format_psi = 0x50 ∷ 0x53 ∷ 0x49 ∷ []
string image_format_scp = 0x53 ∷ 0x43 ∷ 0x50 ∷ []
string image_format_td0 = 0x54 ∷ 0x44 ∷ 0x30 ∷ []

abbrev pub dot : ℕ
dot = 0x2e

abbrev pub slash : ℕ
slash = 0x2f

unfoldable pub has : ℕ → List ℕ → Bool
has c [] = false
has c (x ∷ xs) = (x == c) || has c xs

-- `filepath.Ext`: from the last dot on, where no separator stands behind it; with the dot.
unfoldable pub ext : List ℕ → List ℕ
ext [] = []
ext (c ∷ name) =
    let behind = ext name in
    if (c == dot) && not (has dot name || has slash name) then c ∷ name else behind

-- `strings.ToLower`, of the letters whose lower case is an ASCII letter: A to Z, the dotted I and the
-- Kelvin sign. The case of the others plays no part in the comparisons.
unfoldable pub to_lower : ℕ → ℕ
to_lower c =
    if leb 0x41 c && leb c 0x5a
    then c + 32
    else if c == 0x130
    then 0x69
    else if c == 0x212a
    then 0x6b
    else c

-- The cases of the switch, in their order.
abbrev pub extensions : List (List ℕ × ImageFormat)
extensions =
    (0x61 ∷ 0x64 ∷ 0x66 ∷ [], image_format_adf)
    ∷ (0x62 ∷ 0x6b ∷ 0x64 ∷ [], image_format_bkd)
    ∷ (0x63 ∷ 0x70 ∷ 0x32 ∷ [], image_format_cp2)
    ∷ (0x64 ∷ 0x63 ∷ 0x66 ∷ [], image_format_dcf)
    ∷ (0x65 ∷ 0x70 ∷ 0x6c ∷ [], image_format_epl)
    ∷ (0x68 ∷ 0x66 ∷ 0x65 ∷ [], image_format_hfe)
    ∷ (0x69 ∷ 0x6d ∷ 0x61 ∷ [], image_format_img)
    ∷ (0x69 ∷ 0x6d ∷ 0x64 ∷ [], image_format_imd)
    ∷ (0x69 ∷ 0x6d ∷ 0x67 ∷ [], image_format_img)
    ∷ (0x6d ∷ 0x66 ∷ 0x6d ∷ [], image_format_mfm)
    ∷ (0x70 ∷ 0x64 ∷ 0x69 ∷ [], image_format_pdi)
    ∷ (0x70 ∷ 0x72 ∷ 0x69 ∷ [], image_format_pri)
    ∷ (0x70 ∷ 0x73 ∷ 0x69 ∷ [], image_format_psi)
    ∷ (0x73 ∷ 0x63 ∷ 0x70 ∷ [], image_format_scp)
    ∷ (0x74 ∷ 0x64 ∷ 0x30 ∷ [], image_format_td0)
    ∷ []

unfoldable pub format_of : List (List ℕ × ImageFormat) → List ℕ → ImageFormat
format_of [] name = image_format_unknown
format_of ((extension, format) ∷ cases) name =
    let behind = format_of cases name in if equal name extension then format else behind

-- Of the extension, with its dot.
unfoldable pub format_of_ext : List ℕ → ImageFormat
format_of_ext [] = image_format_unknown
format_of_ext (c ∷ name) = format_of extensions (map to_lower name)

unfoldable pub detect_image_format : List ℕ → ImageFormat
detect_image_format filename = format_of_ext (ext filename)
