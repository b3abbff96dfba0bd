-- ===== src/Hfe/Imd/Logical.antt =====
-- hfe/imd.go: ConvertIMDToHFE puts the sectors of a track in the order of their numbers.
use fdx.Prelude.{ℕ, zero, suc, ◌+◌, ◌-◌, ◌≤◌, ◌<◌, ◌≡◌, ◌≢◌, refl, ap, sym, subst, ◌∙◌, arith}
use fdx.Prelude.{
  List, [], ◌++◌, length, get_or, Bool-cases, ==_iff, set, replicate, ltb_of_le, ==_of_ne, ◌==◌,
  inl, inr, some,
}
use fdx.Prelude.{get_or-set_same, get_or-set_other, get_elem?-get_or, length-set, length-replicate}
use fdx.Hfe.Imd.{ImdSector, ImdTrack}
use fdx.Hfe.Imd.Read.{missing_data}
use fdx.Mfm.Symbols.Buffer.{append-All}
use fdx.Mfm.Symbols.Width.{IsSector}
use fdx.Prelude.{All, IsByte, none, length-take, length-append, take, All-take, Option}
use fdx.Hfe.Imd.Convert.{converted, fitted, place_sectors}

-- The number and the sector at position `i` of the track.
abbrev pub number_at : ImdTrack → ℕ → ℕ
number_at t i = get_or t.sector_map i 0

abbrev pub sector_at : ImdTrack → ℕ → ImdSector
sector_at t i = get_or t.sectors i missing_data

-- The sector map names each number from 1 to the number of sectors once.
pub record IsNumbered (t : ImdTrack) : Type 0 where
  pub mapped : length t.sector_map ≡ t.nsec
  pub complete : length t.sectors ≡ t.nsec
  pub in_range : (i : ℕ) → i < t.nsec → (1 ≤ number_at t i) × (number_at t i ≤ t.nsec)
  pub named : (s : ℕ) → s < t.nsec → (i : ℕ) × (i < t.nsec) × (number_at t i ≡ s + 1)
  pub once : (i j : ℕ) → i < t.nsec → j < t.nsec → number_at t i ≡ number_at t j → i ≡ j

place_sectors-suc :
    (n i size : ℕ) (t : ImdTrack) (placed : List (List ℕ))
    → IsNumbered t
    → i < t.nsec
    → place_sectors (suc n) i size t placed
      ≡ place_sectors n
          (i + 1)
          size
          t
          (set placed (number_at t i - 1) (fitted size (sector_at t i)))
unfolding place_sectors
place_sectors-suc n i size t placed h hi =
    let (low, high) = h.in_range i hi in
    rw (get_elem?-get_or t.sector_map i 0 (omega (arith, h.mapped)), place_sectors)
      (rw (==_of_ne (number_at t i) 0 (λ e. omega arith)) (
        rw (ltb_of_le t.nsec (number_at t i) high) (
          rw (get_elem?-get_or t.sectors i missing_data (omega (arith, h.complete)), place_sectors)
            refl)))

-- The sectors up to position `i` are in their places.
abbrev pub IsPlaced : ImdTrack → ℕ → ℕ → List (List ℕ) → Type 0
IsPlaced t size i placed =
    (length placed ≡ t.nsec)
    × ((j : ℕ)
        → j < i
        → j < t.nsec
        → get_or placed (number_at t j - 1) [] ≡ fitted size (sector_at t j))

IsPlaced-set :
    (t : ImdTrack) (size i : ℕ) (placed : List (List ℕ))
    → IsNumbered t
    → i < t.nsec
    → IsPlaced t size i placed
    → IsPlaced t size (i + 1) (set placed (number_at t i - 1) (fitted size (sector_at t i)))
IsPlaced-set t size i placed h hi (len, there) = (
  length-set placed (number_at t i - 1) _ ∙ len,
  λ j hj hn. elim (Bool-cases (j == i)) [
    | inl same ↦
        let e = (==_iff j i).0 same in
        let (low, high) = h.in_range i hi in
        ap
          (λ k.
            get_or (set placed (number_at t i - 1) (fitted size (sector_at t i)))
              (number_at t k - 1) [])
          e
        ∙ get_or-set_same placed (number_at t i - 1) (fitted size (sector_at t i)) [] (omega arith)
        ∙ ap (λ k. fitted size (sector_at t k)) (sym e)
    | inr other ↦
        let ne : j ≢ i = λ e. cc (other, (==_iff j i).1 e) in
        get_or-set_other placed (number_at t i - 1) (number_at t j - 1) _ []
          (λ e. ne (h.once j i hn hi (omega (arith, e, (h.in_range i hi).0, (h.in_range j hn).0))))
        ∙ there j (omega arith) hn
  ],
)

place_sectors-rest :
    (n i size : ℕ) (t : ImdTrack) (placed : List (List ℕ))
    → IsNumbered t
    → i + n ≡ t.nsec
    → IsPlaced t size i placed
    → (placed' : List (List ℕ)) × (place_sectors n i size t placed ≡ converted placed')
      × IsPlaced t size t.nsec placed'
unfolding place_sectors
place_sectors-rest zero i size t placed h e p =
    (placed, refl, subst (λ k. IsPlaced t size k placed) (omega arith) p)
place_sectors-rest (suc n) i size t placed h e p =
    let hi : i < t.nsec = omega arith in
    let (placed', placing, all) =
      place_sectors-rest n (i + 1) size t _ h (omega arith) (IsPlaced-set t size i placed h hi p) in
    (placed', place_sectors-suc n i size t placed h hi ∙ placing, all)

pub place_sectors-IsPlaced :
    (size : ℕ) (t : ImdTrack)
    → IsNumbered t
    → (placed : List (List ℕ)) × (place_sectors t.nsec 0 size t (replicate t.nsec [])
        ≡ converted placed)
      × IsPlaced t size t.nsec placed
place_sectors-IsPlaced size t h =
    place_sectors-rest t.nsec 0 size t (replicate t.nsec []) h (omega arith)
      (length-replicate t.nsec [], λ j hj hn. absurd (omega arith))

-- The bytes of a sector, where it has any, are bytes.
abbrev pub HasBytes : ImdSector → Type 0
HasBytes s = elim s.sector_data [ none ↦ Unit | some bytes ↦ All IsByte bytes ]

zeros-All : (n : ℕ) → All IsByte (replicate n 0)
zeros-All zero = tt
zeros-All (suc n) = (omega arith, zeros-All n)

blank-IsSector : IsSector (replicate 512 0)
blank-IsSector = record { size = length-replicate {A = ℕ} 512 0; bytes = zeros-All 512 }

bytes-IsSector :
    (bytes : List ℕ) → All IsByte bytes → IsSector (take 512 (bytes ++ replicate 512 0))
bytes-IsSector bytes h = record {
  size = omega (
    arith,
    length-take 512 (bytes ++ replicate 512 0),
    length-append bytes (replicate 512 0),
    length-replicate {A = ℕ} 512 0,
  );
  bytes =
      All-take IsByte 512 (bytes ++ replicate 512 0)
        (append-All IsByte bytes (replicate 512 0) h (zeros-All 512));
}

of_data :
    (o : Option (List ℕ))
    → elim o as (λ x. Type 0) [ none ↦ Unit | some bytes ↦ All IsByte bytes ]
    → IsSector
        (elim o [ none ↦ replicate 512 0 | some bytes ↦ take 512 (bytes ++ replicate 512 0) ])
of_data none h = blank-IsSector
of_data (some bytes) h = bytes-IsSector bytes h

pub fitted-IsSector : (s : ImdSector) → HasBytes s → IsSector (fitted 512 s)
unfolding fitted
fitted-IsSector s h = elim (Bool-cases (s.flag == 0)) [
  | inl e ↦ rw e blank-IsSector
  | inr e ↦ rw e (of_data s.sector_data h)
]
