-- ===== src/Mfm/Format/Geometry.antt =====
-- What the geometry found by mfm/reader.go has to do with the size of the file.
use fdx.Prelude.{ℕ, ◌*◌, ◌/◌, ◌%◌, ◌≤◌, ◌≡◌, refl, subst, arith, ◌⊎◌, inl, inr}
use fdx.Prelude.{Bool, true, false, ◌&&◌, leb, ◌==◌, ==_iff, Bool-cases, All}
use fdx.Prelude.{Option, none, some, List, [], ◌∷◌}
use fdx.Prelude.Splits.{Option-cases}
use fdx.Mfm.Format.{Format, detected, format, total_sectors}
use fdx.Mfm.Format.{
  common_formats, common_format, try_cylinders, try_sides, detect_format_from_size,
}

-- The sectors per track at each bit rate that hfe/img.go chooses.
abbrev pub IsDensity : ℕ → Type 0
IsDensity n = ((8 ≤ n) × (n ≤ 18)) ⊎ ((n ≡ 20) ⊎ ((n ≡ 36) ⊎ (n ≡ 39)))

pub record IsFormat (f : Format) : Type 0 where
  pub cylinders : (f.cylinders ≡ 40) ⊎ (f.cylinders ≡ 80)
  pub sides : (f.sides ≡ 1) ⊎ (f.sides ≡ 2)
  pub density : IsDensity f.sectors_per_track

-- A format of as many sectors as the file has.
pub record Fits (total : ℕ) (f : Format) : Type 0 where
  pub size : total ≡ total_sectors f
  pub shape : IsFormat f

abbrev Each : (Format → Type 0) → Option Format → Type 0
Each P none = Unit
Each P (some f) = P f

common_format-Fits :
    (total : ℕ) (fs : List Format) → All IsFormat fs → Each (Fits total) (common_format total fs)
unfolding common_format
common_format-Fits total [] h = tt
common_format-Fits total (f ∷ fs) h = elim (Bool-cases (total == total_sectors f)) [
  | inl same ↦ rw same (record { size = (==_iff total (total_sectors f)).0 same; shape = h.0 })
  | inr other ↦ rw other (common_format-Fits total fs h.1)
]

common :
    (c s n : ℕ) → (c ≡ 40) ⊎ (c ≡ 80) → (s ≡ 1) ⊎ (s ≡ 2) → IsDensity n → IsFormat (format c s n)
common c s n hc hs hn = record { cylinders = hc; sides = hs; density = hn }

few :
    (c s n : ℕ) → (c ≡ 40) ⊎ (c ≡ 80) → (s ≡ 1) ⊎ (s ≡ 2) → 8 ≤ n → n ≤ 18 → IsFormat (format c s n)
few c s n hc hs low high = common c s n hc hs (inl (low, high))

common_formats-IsFormat : All IsFormat common_formats
unfolding common_formats
common_formats-IsFormat = (
  few 80 2 18 (inr refl) (inr refl) (omega arith) (omega arith),
  (
    common 80 2 20 (inr refl) (inr refl) (inr (inl refl)),
    (
      few 80 2 9 (inr refl) (inr refl) (omega arith) (omega arith),
      (
        few 80 2 10 (inr refl) (inr refl) (omega arith) (omega arith),
        (
          few 80 1 9 (inr refl) (inl refl) (omega arith) (omega arith),
          (
            common 80 2 36 (inr refl) (inr refl) (inr (inr (inl refl))),
            (
              common 80 2 39 (inr refl) (inr refl) (inr (inr (inr refl))),
              (
                few 80 2 15 (inr refl) (inr refl) (omega arith) (omega arith),
                (
                  few 40 2 9 (inl refl) (inr refl) (omega arith) (omega arith),
                  (
                    few 40 2 8 (inl refl) (inr refl) (omega arith) (omega arith),
                    (
                      few 40 2 9 (inl refl) (inr refl) (omega arith) (omega arith),
                      (
                        few 40 1 8 (inl refl) (inl refl) (omega arith) (omega arith),
                        (few 40 1 9 (inl refl) (inl refl) (omega arith) (omega arith), tt),
                      ),
                    ),
                  ),
                ),
              ),
            ),
          ),
        ),
      ),
    ),
  ),
)

-- Exact division by a side count and a cylinder count.
divided :
    (total s c : ℕ)
    → (c ≡ 40) ⊎ (c ≡ 80)
    → (s ≡ 1) ⊎ (s ≡ 2)
    → total % s ≡ 0
    → total / s % c ≡ 0
    → total ≡ c * s * (total / s / c)
divided total s c (inl hc) (inl hs) = rw (hc, hs) (λ a b. omega arith)
divided total s c (inl hc) (inr hs) = rw (hc, hs) (λ a b. omega arith)
divided total s c (inr hc) (inl hs) = rw (hc, hs) (λ a b. omega arith)
divided total s c (inr hc) (inr hs) = rw (hc, hs) (λ a b. omega arith)

-- The test of the inner loop.
accepted : (a b c : Bool) → (a && (b && c)) ≡ true → (a ≡ true) × (b ≡ true) × (c ≡ true)
accepted true true true h = (refl, refl, refl)
accepted true true false h = cc
accepted true false c h = cc
accepted false b c h = cc

-- The factors found give the sectors of a side back.
try_cylinders-Fits :
    (total s : ℕ) (cs : List ℕ)
    → All (λ c. (c ≡ 40) ⊎ (c ≡ 80)) cs
    → (s ≡ 1) ⊎ (s ≡ 2)
    → total % s ≡ 0
    → Each (Fits total) (try_cylinders s (total / s) cs)
unfolding try_cylinders
try_cylinders-Fits total s [] h hs e = tt
try_cylinders-Fits total s (c ∷ cs) h hs e =
    elim (Bool-cases (total / s % c == 0 && (leb 8 (total / s / c) && leb (total / s / c) 18))) [
      | inl fits ↦
          let (exact, low, high) =
            accepted (total / s % c == 0) (leb 8 (total / s / c)) (leb (total / s / c) 18) fits in
          let at_least : 8 ≤ total / s / c = ground arith in
          let at_most : total / s / c ≤ 18 = ground arith in
          rw fits (record {
            size = divided total s c h.0 hs e ((==_iff _ _).0 exact);
            shape = few c s (total / s / c) h.0 hs at_least at_most;
          })
      | inr more ↦ rw more (try_cylinders-Fits total s cs h.1 hs e)
    ]

try_sides-Fits :
    (total : ℕ) (ss : List ℕ)
    → All (λ s. (s ≡ 1) ⊎ (s ≡ 2)) ss
    → Each (Fits total) (try_sides total ss)
unfolding try_sides
try_sides-Fits total [] h = tt
try_sides-Fits total (s ∷ ss) h = elim (Bool-cases (total % s == 0)) [
  | inr odd ↦ rw odd (try_sides-Fits total ss h.1)
  | inl even ↦
      let found =
        try_cylinders-Fits total s (80 ∷ 40 ∷ []) (inr refl, (inl refl, tt)) h.0
          ((==_iff (total % s) 0).0 even) in
      rw even (elim (Option-cases (try_cylinders s (total / s) (80 ∷ 40 ∷ []))) [
        | inl nothing ↦ rw nothing (try_sides-Fits total ss h.1)
        | inr (f, something) ↦ rw something (rw something at found)
      ])
]

whole_file :
    (file_size : ℕ) (g f : Format)
    → (file_size % 512 == 0) ≡ true
    → Fits (file_size / 512) g
    → detected g ≡ detected f
    → (file_size ≡ 512 * total_sectors f) × IsFormat f
whole_file file_size g f whole fits e =
    let same : g ≡ f = cc in
    subst (λ t. (file_size ≡ 512 * total_sectors t) × IsFormat t) same
      (omega (arith, fits.size, (==_iff (file_size % 512) 0).0 whole), fits.shape)

-- A geometry that DetectFormatFromSize returns has as many bytes as the file, one or two sides of
-- 40 or 80 cylinders, and 8 to 18, 20, 36 or 39 sectors per track.
pub detect_format-Fits :
    (file_size : ℕ) (f : Format)
    → detect_format_from_size file_size ≡ detected f
    → (file_size ≡ 512 * total_sectors f) × IsFormat f
unfolding detect_format_from_size
detect_format-Fits file_size f e =
    let total = file_size / 512 in
    let table = common_format-Fits total common_formats common_formats-IsFormat in
    let factors = try_sides-Fits total (2 ∷ 1 ∷ []) (inr refl, (inl refl, tt)) in
    elim (Bool-cases (file_size % 512 == 0)) [
      | inr odd ↦ absurd (cc (rw odd at e))
      | inl whole ↦ elim (Option-cases (common_format total common_formats)) [
        | inr (g, found) ↦
            whole_file file_size g f whole (rw found at table) (rw (whole, found) at e)
        | inl nothing ↦ elim (Option-cases (try_sides total (2 ∷ 1 ∷ []))) [
          | inr (g, found) ↦
              whole_file file_size g f whole (rw found at factors) (rw (whole, nothing, found) at e)
          | inl still ↦ absurd (cc (rw (whole, nothing, still) at e))
        ]
      ]
    ]
