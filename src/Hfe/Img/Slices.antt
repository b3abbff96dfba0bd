-- ===== src/Hfe/Img/Slices.antt =====
-- The sectors of one track in the list of all sectors of hfe/img.go.
use fdx.Prelude.{ℕ, zero, suc, ◌+◌, ◌-◌, ◌*◌, ◌≤◌, ◌<◌, ◌≡◌, refl, ap, subst, sym, ◌∙◌, arith}
use fdx.Prelude.{All, List, [], ◌∷◌, ◌++◌, length, get_or, append_assoc, append-nil}
use fdx.Mfm.Symbols.Width.{IsSector, HasSectors}
use fdx.Hfe.Img.{track_sectors}
use fdx.Hfe.Img.Sectors.{joined}

pub mul_mono : (a b n : ℕ) → a ≤ b → a * n ≤ b * n
mul_mono a b n h =
    let k = b - a in
    let e : b ≡ a + k = omega arith in subst (λ t. a * n ≤ t * n) (sym e) (omega arith)

pub joined-append : (xs ys : List (List ℕ)) → joined (xs ++ ys) ≡ joined xs ++ joined ys
joined-append [] ys = refl
joined-append (x ∷ xs) ys =
    ap (λ t. x ++ t) (joined-append xs ys) ∙ sym (append_assoc x (joined xs) (joined ys))

pub get_or-track_sectors :
    (n i s : ℕ) (ds : List (List ℕ))
    → s < n
    → get_or (track_sectors n i ds) s [] ≡ get_or ds (i + s) []
unfolding track_sectors
get_or-track_sectors zero i s ds h = absurd (omega arith)
get_or-track_sectors (suc n) i zero ds h = ap (λ k. get_or ds k []) (omega arith)
get_or-track_sectors (suc n) i (suc s) ds h =
    get_or-track_sectors n (i + 1) s ds (omega arith) ∙ ap (λ k. get_or ds k []) (omega arith)

pub length-track_sectors : (n i : ℕ) (ds : List (List ℕ)) → length (track_sectors n i ds) ≡ n
unfolding track_sectors
length-track_sectors zero i ds = refl
length-track_sectors (suc n) i ds = ap suc (length-track_sectors n (i + 1) ds)

get_or-All :
    (ds : List (List ℕ)) (i : ℕ) → All IsSector ds → i < length ds → IsSector (get_or ds i [])
get_or-All [] i h k = absurd (omega arith)
get_or-All (d ∷ ds) zero h k = h.0
get_or-All (d ∷ ds) (suc i) h k = get_or-All ds i h.1 (omega arith)

pub track_sectors-HasSectors :
    (n i : ℕ) (ds : List (List ℕ))
    → All IsSector ds
    → i + n ≤ length ds
    → HasSectors n (track_sectors n i ds)
track_sectors-HasSectors n i ds h k s hs =
    subst IsSector (sym (get_or-track_sectors n i s ds hs)) (get_or-All ds (i + s) h (omega arith))

pub track_sectors-append :
    (m n i : ℕ) (ds : List (List ℕ))
    → track_sectors (m + n) i ds ≡ track_sectors m i ds ++ track_sectors n (i + m) ds
unfolding track_sectors
track_sectors-append zero n i ds =
    ap (λ k. track_sectors k i ds) (omega arith) ∙ ap (λ k. track_sectors n k ds) (omega arith)
track_sectors-append (suc m) n i ds =
    let e : suc m + n ≡ suc (m + n) = omega arith in
    let e' : i + suc m ≡ i + 1 + m = omega arith in
    rw (e, e') (ap (◌∷◌ (get_or ds i [])) (track_sectors-append m n (i + 1) ds))

track_sectors-cons :
    (n i : ℕ) (d : List ℕ) (ds : List (List ℕ))
    → track_sectors n (suc i) (d ∷ ds) ≡ track_sectors n i ds
unfolding track_sectors
track_sectors-cons zero i d ds = refl
track_sectors-cons (suc n) i d ds =
    let e : suc i + 1 ≡ suc (i + 1) = omega arith in
    rw e (ap (◌∷◌ (get_or ds i [])) (track_sectors-cons n (i + 1) d ds))

-- All the sectors.
pub track_sectors-all : (ds : List (List ℕ)) → track_sectors (length ds) 0 ds ≡ ds
unfolding track_sectors
track_sectors-all [] = refl
track_sectors-all (d ∷ ds) =
    ap (◌∷◌ d) (track_sectors-cons (length ds) 0 d ds ∙ track_sectors-all ds)

-- The bytes of two slices that follow each other.
pub joined-slices :
    (m n i : ℕ) (ds : List (List ℕ)) (file : List ℕ)
    → (file ++ joined (track_sectors m i ds)) ++ joined (track_sectors n (i + m) ds)
      ≡ file ++ joined (track_sectors (m + n) i ds)
joined-slices m n i ds file =
    append_assoc file (joined (track_sectors m i ds)) (joined (track_sectors n (i + m) ds))
    ∙ ap (λ t. file ++ t)
        (sym (
          ap joined (track_sectors-append m n i ds)
          ∙ joined-append (track_sectors m i ds) (track_sectors n (i + m) ds)))

-- A slice of no sectors.
pub no_slice :
    (m i : ℕ) (ds : List (List ℕ)) (file : List ℕ)
    → m ≡ 0
    → file ≡ file ++ joined (track_sectors m i ds)
unfolding track_sectors
no_slice m i ds file e =
    sym (append-nil file) ∙ ap (λ k. file ++ joined (track_sectors k i ds)) (sym e)
