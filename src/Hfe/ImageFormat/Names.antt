-- ===== src/Hfe/ImageFormat/Names.antt =====
-- What detects a format in hfe/imageformat.go, on names that end in the format's own name.
use fdx.Prelude.{ℕ, ◌≡◌, ◌≢◌, refl, ap, ◌∙◌, Bool, true, false, ◌&&◌, ◌||◌}
use fdx.Prelude.{List, [], ◌∷◌, ◌++◌, ◌==◌}
use fdx.Hfe.Verify.{equal}
use fdx.Hfe.ImageFormat.{
  ImageFormat, image_format_unknown, image_format_adf, image_format_bkd, image_format_cp2,
  image_format_dcf, image_format_epl, image_format_hfe, image_format_imd, image_format_img,
  image_format_mfm, image_format_pdi, image_format_pri, image_format_psi, image_format_scp,
  image_format_td0, string, has, ext, dot, slash, detect_image_format, format_of, format_of_ext,
  to_lower,
}

or_true : (b : Bool) → (b || true) ≡ true
or_true false = refl
or_true true = refl

and_false : (b : Bool) → (b && false) ≡ false
and_false false = refl
and_false true = refl

has-behind : (base name : List ℕ) → has dot (base ++ dot ∷ name) ≡ true
unfolding has
has-behind [] name = refl
has-behind (c ∷ base) name = rw (has-behind base name) (or_true (c == dot))

-- Whatever stands before the last dot.
ext-name :
    (base name : List ℕ)
    → has dot name ≡ false
    → has slash name ≡ false
    → ext (base ++ dot ∷ name) ≡ dot ∷ name
unfolding ext
ext-name [] name no_dot no_slash = rw (no_dot, no_slash) refl
ext-name (c ∷ base) name no_dot no_slash =
    rw (has-behind base name, ext-name base name no_dot no_slash) (rw (and_false (c == dot)) refl)

has-string : (f : ImageFormat) → (has dot (string f) ≡ false) × (has slash (string f) ≡ false)
unfolding has string
has-string image_format_unknown = (refl, refl)
has-string image_format_adf = (refl, refl)
has-string image_format_bkd = (refl, refl)
has-string image_format_cp2 = (refl, refl)
has-string image_format_dcf = (refl, refl)
has-string image_format_epl = (refl, refl)
has-string image_format_hfe = (refl, refl)
has-string image_format_imd = (refl, refl)
has-string image_format_img = (refl, refl)
has-string image_format_mfm = (refl, refl)
has-string image_format_pdi = (refl, refl)
has-string image_format_pri = (refl, refl)
has-string image_format_psi = (refl, refl)
has-string image_format_scp = (refl, refl)
has-string image_format_td0 = (refl, refl)

format_of_ext-string :
    (f : ImageFormat) → f ≢ image_format_unknown → format_of_ext (dot ∷ string f) ≡ f
unfolding format_of_ext format_of to_lower string equal
format_of_ext-string image_format_unknown known = refl
format_of_ext-string image_format_adf known = refl
format_of_ext-string image_format_bkd known = refl
format_of_ext-string image_format_cp2 known = refl
format_of_ext-string image_format_dcf known = refl
format_of_ext-string image_format_epl known = refl
format_of_ext-string image_format_hfe known = refl
format_of_ext-string image_format_imd known = refl
format_of_ext-string image_format_img known = refl
format_of_ext-string image_format_mfm known = refl
format_of_ext-string image_format_pdi known = refl
format_of_ext-string image_format_pri known = refl
format_of_ext-string image_format_psi known = refl
format_of_ext-string image_format_scp known = refl
format_of_ext-string image_format_td0 known = refl

-- DetectImageFormat of any name that ends in a dot and the name that String gives a known format
-- returns this format.
pub detect_image_format-string :
    (f : ImageFormat) (base : List ℕ)
    → f ≢ image_format_unknown
    → detect_image_format (base ++ dot ∷ string f) ≡ f
unfolding detect_image_format
detect_image_format-string f base known =
    ap format_of_ext (ext-name base (string f) (has-string f).0 (has-string f).1)
    ∙ format_of_ext-string f known
