-- ===== src/Hfe/Img/Sectors.antt =====
-- Cutting an image file into sectors, and joining them again.
use fdx.Prelude.{All-take, All-drop}
use fdx.Prelude.{ℕ, zero, suc, ◌+◌, ◌*◌, ◌≡◌, refl, ap, sym, ◌∙◌, arith}
use fdx.Prelude.{IsByte, All, List, [], ◌∷◌, ◌++◌, length, take, drop}
use fdx.Prelude.{length-take, length-drop, take-append-drop}
use fdx.Mfm.Symbols.Width.{IsSector}
use fdx.Hfe.Img.{ok, read_sectors}

abbrev pub joined : List (List ℕ) → List ℕ
joined [] = []
joined (d ∷ ds) = d ++ joined ds

no_bytes : (bs : List ℕ) → length bs ≡ 0 → bs ≡ []
no_bytes [] h = refl
no_bytes (b ∷ bs) h = absurd (omega arith)

-- A file of `n` sectors is read as `n` sectors, which joined give the file.
pub read_sectors-joined :
    (n i : ℕ) (file : List ℕ)
    → length file ≡ 512 * n
    → All IsByte file
    → (ds : List (List ℕ)) × (read_sectors n i file ≡ ok ds)
      × (length ds ≡ n)
      × All IsSector ds
      × (joined ds ≡ file)
unfolding read_sectors
read_sectors-joined zero i file h k = ([], refl, refl, tt, sym (no_bytes file h))
read_sectors-joined (suc n) i file h k =
    let sector = take 512 file in
    let whole : length sector ≡ 512 = omega (arith, length-take 512 file) in
    let (ds, read, count, all, same) =
      read_sectors-joined n (i + 1) (drop 512 file) (omega (arith, length-drop 512 file))
        (All-drop IsByte 512 file k) in
    (
      sector ∷ ds,
      rw (whole, read) refl,
      ap suc count,
      (record { size = whole; bytes = All-take IsByte 512 file k }, all),
      ap (λ t. sector ++ t) same ∙ take-append-drop 512 file,
    )
