-- ===== src/Mfm/Symbols/Width.antt =====
-- How many half-bits symbols take, and the length of an IBM track.
use fdx.Prelude.{
  ℕ, zero, suc, ◌+◌, ◌*◌, ◌≤◌, ◌<◌, ◌≡◌, refl, ap, subst, ◌∙◌, arith, Bool, true, false,
}
use fdx.Prelude.{if◌then◌else◌, IsByte, All, List, [], ◌∷◌, ◌++◌, length, get_or}
use fdx.Mfm.Symbols.{Symbol, bit, half, emit, last_bit, last_bit-append, bytes_symbols, gap_symbols}
use fdx.Mfm.Symbols.Track.{header_symbols, data_symbols, sector_symbols, sectors_symbols}
use fdx.Mfm.Symbols.Track.{preamble_symbols, sum_bytes}
use fdx.Mfm.Writer.{data_sum, header_gap, sector_gap}

abbrev pub width : List Symbol → ℕ
width [] = 0
width (bit d ∷ ss) = suc (suc (width ss))
width (half h ∷ ss) = suc (width ss)

pub length-emit : (l : ℕ) (ss : List Symbol) → length (emit l ss) ≡ width ss
length-emit l [] = refl
length-emit l (bit d ∷ ss) = omega (arith, length-emit d ss)
length-emit l (half h ∷ ss) = omega (arith, length-emit l ss)

pub width-append : (xs ys : List Symbol) → width (xs ++ ys) ≡ width xs + width ys
width-append [] ys = omega arith
width-append (bit d ∷ xs) ys = omega (arith, width-append xs ys)
width-append (half h ∷ xs) ys = omega (arith, width-append xs ys)

pub width-gap : (n v : ℕ) → width (gap_symbols n v) ≡ 16 * n
width-gap zero v = refl
width-gap (suc n) v = omega (arith, width-gap n v)

pub width-bytes : (bs : List ℕ) → width (bytes_symbols bs) ≡ 16 * length bs
width-bytes [] = refl
width-bytes (b ∷ bs) = omega (arith, width-bytes bs)

-- The data of one sector: 512 bytes.
pub record IsSector (d : List ℕ) : Type 0 where
  pub size : length d ≡ 512
  pub bytes : All IsByte d

-- The sectors that a track of `n` sectors takes are all there.
abbrev pub HasSectors : ℕ → List (List ℕ) → Type 0
HasSectors n sectors = (s : ℕ) → s < n → IsSector (get_or sectors s [])

width-sector :
    (cylinder head hgap sgap s : ℕ) (d : List ℕ)
    → length d ≡ 512
    → width (sector_symbols cylinder head hgap sgap s d) ≡ 16 * (hgap + sgap + 552)
width-sector cylinder head hgap sgap s d h = omega (
  arith,
  width-append (header_symbols cylinder head s ++ gap_symbols hgap 0x4e)
      (data_symbols d ++ gap_symbols sgap 0x4e),
  width-append (header_symbols cylinder head s) (gap_symbols hgap 0x4e),
  width-append (data_symbols d) (gap_symbols sgap 0x4e),
  width-append (bytes_symbols d) (bytes_symbols (sum_bytes (data_sum d))),
  width-bytes d,
  width-gap hgap 0x4e,
  width-gap sgap 0x4e,
)

pub width-sectors :
    (n : ℕ) (sectors : List (List ℕ)) (cylinder head hgap sgap s : ℕ)
    → ((i : ℕ) → i < n → IsSector (get_or sectors (s + i) []))
    → width (sectors_symbols n sectors cylinder head hgap sgap s) ≡ 16 * (n * (hgap + sgap + 552))
unfolding sectors_symbols
width-sectors zero sectors cylinder head hgap sgap s h = omega arith
width-sectors (suc n) sectors cylinder head hgap sgap s h =
    let first = h 0 (omega arith) in
    let e : s + 0 ≡ s = omega arith in
    let size : length (get_or sectors s []) ≡ 512 = rw e at first.size in
    let later = λ (i : ℕ) (hi : i < n).
      let e' : s + (i + 1) ≡ s + 1 + i = omega arith in rw e' at (h (i + 1) (omega arith)) in
    omega (
      arith,
      width-append (sector_symbols cylinder head hgap sgap s (get_or sectors s []))
          (sectors_symbols n sectors cylinder head hgap sgap (s + 1)),
      width-sector cylinder head hgap sgap s (get_or sectors s []) size,
      width-sectors n sectors cylinder head hgap sgap (s + 1) later,
    )

pub width-preamble : (skip : Bool) → width (preamble_symbols skip) ≡ 16 * (if skip then 50 else 146)
width-preamble true = refl
width-preamble false = refl

-- A whole track: the preamble and the sectors.
abbrev pub track_symbols : List (List ℕ) → ℕ → ℕ → ℕ → ℕ → Bool → List Symbol
track_symbols sectors cylinder head spt bit_rate skip =
    preamble_symbols skip
    ++ sectors_symbols spt sectors cylinder head (header_gap bit_rate) (sector_gap bit_rate spt) 0

abbrev pub track_width : ℕ → ℕ → Bool → ℕ
track_width spt bit_rate skip =
    16 * ((if skip then 50 else 146) + spt * (header_gap bit_rate + sector_gap bit_rate spt + 552))

pub width-track :
    (sectors : List (List ℕ)) (cylinder head spt bit_rate : ℕ) (skip : Bool)
    → HasSectors spt sectors
    → width (track_symbols sectors cylinder head spt bit_rate skip) ≡ track_width spt bit_rate skip
width-track sectors cylinder head spt bit_rate skip h =
    let all = λ (i : ℕ) (hi : i < spt).
      let e : i ≡ 0 + i = omega arith in subst (λ k. IsSector (get_or sectors k [])) e (h i hi) in
    omega (
      arith,
      width-append (preamble_symbols skip) (
          sectors_symbols spt sectors cylinder head (header_gap bit_rate) (sector_gap bit_rate spt)
            0),
      width-preamble skip,
      width-sectors spt sectors cylinder head (header_gap bit_rate) (sector_gap bit_rate spt) 0 all,
    )

last_bit-gap : (n l : ℕ) → 0 < n → last_bit l (gap_symbols n 0x4e) ≡ 0
last_bit-gap zero l h = absurd (omega arith)
last_bit-gap (suc zero) l h = refl
last_bit-gap (suc (suc n)) l h = last_bit-gap (suc n) 0 (omega arith)

pub gaps_wide : (bit_rate spt : ℕ) → (22 ≤ header_gap bit_rate) × (34 ≤ sector_gap bit_rate spt)
unfolding header_gap sector_gap
gaps_wide bit_rate spt = (ground arith, ground arith)

last_bit-sectors :
    (n : ℕ) (sectors : List (List ℕ)) (cylinder head hgap sgap s : ℕ)
    → 0 < sgap
    → last_bit 0 (sectors_symbols n sectors cylinder head hgap sgap s) ≡ 0
unfolding sectors_symbols
last_bit-sectors zero sectors cylinder head hgap sgap s h = refl
last_bit-sectors (suc n) sectors cylinder head hgap sgap s h =
    let d = get_or sectors s [] in
    let front = header_symbols cylinder head s ++ gap_symbols hgap 0x4e in
    let later = sectors_symbols n sectors cylinder head hgap sgap (s + 1) in
    last_bit-append 0 (sector_symbols cylinder head hgap sgap s d) later
    ∙ ap (λ k. last_bit k later)
        (last_bit-append 0 front (data_symbols d ++ gap_symbols sgap 0x4e)
          ∙ last_bit-append (last_bit 0 front) (data_symbols d) (gap_symbols sgap 0x4e)
          ∙ last_bit-gap sgap _ h)
    ∙ last_bit-sectors n sectors cylinder head hgap sgap (s + 1) h

-- Every track ends in a gap byte, so its last data bit is zero.
pub last_bit-track :
    (sectors : List (List ℕ)) (cylinder head spt bit_rate : ℕ) (skip : Bool)
    → last_bit 0 (track_symbols sectors cylinder head spt bit_rate skip) ≡ 0
last_bit-track sectors cylinder head spt bit_rate skip =
    let body =
      sectors_symbols spt sectors cylinder head (header_gap bit_rate) (sector_gap bit_rate spt) 0 in
    last_bit-append 0 (preamble_symbols skip) body
    ∙ ap (λ k. last_bit k body) (preamble_end skip)
    ∙ last_bit-sectors spt sectors cylinder head (header_gap bit_rate) (sector_gap bit_rate spt) 0
        (omega (arith, gaps_wide bit_rate spt))
  where
    preamble_end : (skip' : Bool) → last_bit 0 (preamble_symbols skip') ≡ 0
    preamble_end true = refl
    preamble_end false = refl
