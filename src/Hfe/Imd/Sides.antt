-- ===== src/Hfe/Imd/Sides.antt =====
-- hfe/imd.go: one side of a disk, which mfm/writer.go encoded, written as a track of an IMD file.
use fdx.Prelude.{ℕ, zero, suc, ◌-◌, ◌%◌, ◌≤◌, ◌<◌, ◌≡◌, refl, ap, ap₂, sym, ◌∙◌, arith, false}
use fdx.Prelude.{IsByte, List, [], ◌∷◌, ◌++◌, length, get_or, take, map, All, u8, some}
use fdx.Prelude.{length-append, take_all, ==_of_ne, ◌==◌}
use fdx.Mfm.Symbols.Buffer.{append-All}
use fdx.Mfm.Symbols.Width.{HasSectors, track_width}
use fdx.Mfm.Writer.{new_writer, encode_track_ibm_internal}
use fdx.Hfe.Collect.Map.{Holds}
use fdx.Hfe.Img.Save.{side_not_empty}
use fdx.Hfe.Imd.{ImdTrack, is_compressible}
use fdx.Hfe.Imd.Read.{decoded, track_got, read_imd_track}
use fdx.Hfe.Imd.Write.{saved, write_imd_track, write_imd_side, sort_numbers}
use fdx.Hfe.Imd.Sort.{IsAscending, sort_numbers-Ascending}
use fdx.Hfe.Imd.Found.{numbers_below, find-encode_track}
use fdx.Hfe.Imd.Track.{
  HasPlain, bytes_of, plain_sectors, track_bytes, write_imd_track-saved, written_track,
  read_imd_track-written,
}

pub length-numbers_below : (n : ℕ) → length (numbers_below n) ≡ n
length-numbers_below zero = refl
length-numbers_below (suc n) =
    omega (arith, length-append (numbers_below n) (n ∷ []), length-numbers_below n)

-- A predicate of all numbers below `n`.
All-numbers_below : (P : ℕ → Type 0) (n : ℕ) → ((i : ℕ) → i < n → P i) → All P (numbers_below n)
All-numbers_below P zero h = tt
All-numbers_below P (suc n) h =
    append-All P (numbers_below n) (n ∷ []) (All-numbers_below P n (λ i hi. h i (omega arith)))
      (h n (omega arith), tt)

IsAscending-append :
    (xs : List ℕ) (n : ℕ) → IsAscending xs → All (λ x. x ≤ n) xs → IsAscending (xs ++ n ∷ [])
IsAscending-append [] n h k = (tt, tt)
IsAscending-append (x ∷ xs) n h k =
    (append-All (λ y. x ≤ y) xs (n ∷ []) h.0 (k.0, tt), IsAscending-append xs n h.1 k.1)

numbers_below-IsAscending : (n : ℕ) → IsAscending (numbers_below n)
numbers_below-IsAscending zero = tt
numbers_below-IsAscending (suc n) =
    IsAscending-append (numbers_below n) n (numbers_below-IsAscending n)
      (All-numbers_below (λ x. x ≤ n) n (λ i hi. omega arith))

map-append {ℓ κ} :
    {A : Type ℓ} {B : Type κ} (f : A → B) (xs ys : List A) → map f (xs ++ ys) ≡ map f xs ++ map f ys
map-append f [] ys = refl
map-append f (x ∷ xs) ys = ap (◌∷◌ (f x)) (map-append f xs ys)

map-u8-numbers_below : (n : ℕ) → n ≤ 256 → map u8 (numbers_below n) ≡ numbers_below n
map-u8-numbers_below zero h = refl
map-u8-numbers_below (suc n) h =
    let small : u8 n ≡ n = omega arith in
    map-append u8 (numbers_below n) (n ∷ [])
    ∙ ap₂ (λ a b. a ++ b ∷ []) (map-u8-numbers_below n (omega arith)) small

plain_sectors-append :
    (m : List (ℕ × List ℕ)) (ns : List ℕ) (n : ℕ)
    → plain_sectors m (ns ++ n ∷ []) ≡ plain_sectors m ns ++ decoded 1 (bytes_of m n) ∷ []
plain_sectors-append m [] n = refl
plain_sectors-append m (k ∷ ns) n =
    ap (◌∷◌ (decoded 1 (bytes_of m k))) (plain_sectors-append m ns n)

take-suc :
    (n : ℕ) (ds : List (List ℕ))
    → n < length ds
    → take (suc n) ds ≡ take n ds ++ get_or ds n [] ∷ []
take-suc n [] h = absurd (omega arith)
take-suc zero (d ∷ ds) h = refl
take-suc (suc n) (d ∷ ds) h = ap (◌∷◌ d) (take-suc n ds (omega arith))

bytes_of-Holds :
    (sectors : List (List ℕ)) (count i : ℕ) (m : List (ℕ × List ℕ))
    → Holds sectors count m
    → i < count
    → bytes_of m i ≡ get_or sectors i []
bytes_of-Holds sectors count i m h hi = rw (h.below i hi, bytes_of) refl

-- The sectors of the track, in order.
plain_sectors-Holds :
    (sectors : List (List ℕ)) (count n : ℕ) (m : List (ℕ × List ℕ))
    → Holds sectors count m
    → n ≤ count
    → n ≤ length sectors
    → plain_sectors m (numbers_below n) ≡ map (decoded 1) (take n sectors)
plain_sectors-Holds sectors count zero m h hc hn = refl
plain_sectors-Holds sectors count (suc n) m h hc hn =
    plain_sectors-append m (numbers_below n) n
    ∙ ap₂ (λ a b. a ++ decoded 1 b ∷ [])
        (plain_sectors-Holds sectors count n m h (omega arith) (omega arith))
        (bytes_of-Holds sectors count n m h (omega arith))
    ∙ sym (
        ap (map (decoded 1)) (take-suc n sectors (omega arith))
        ∙ map-append (decoded 1) (take n sectors) (get_or sectors n [] ∷ []))

-- The track that is read back: its sectors are numbered from 0.
abbrev pub imd_track : ℕ → ℕ → ℕ → List (List ℕ) → ImdTrack
imd_track mode c h sectors = record {
  mode = mode;
  cylinder = c;
  head = h;
  nsec = length sectors;
  ssize = 2;
  sector_map = numbers_below (length sectors);
  cyl_map = [];
  head_map = [];
  sectors = map (decoded 1) sectors;
}

module _ (sectors : List (List ℕ)) (c h : ℕ) (hc : IsByte c) (hh : h < 16) (n : ℕ)
    (small : suc n < 256) (count : length sectors ≡ suc n) (has : HasSectors (suc n) sectors)
    (plain : (s : ℕ) → s < suc n → is_compressible (get_or sectors s []) ≡ false) where
  HasPlain-Holds :
      (m : List (ℕ × List ℕ)) (s : ℕ) → Holds sectors (suc n) m → s < suc n → HasPlain m s
  HasPlain-Holds m s hm hs =
      let e = bytes_of-Holds sectors (suc n) s m hm hs in
      (
        hm.below s hs ∙ ap some (sym e),
        (ap length e ∙ (has s hs).size, ap is_compressible e ∙ plain s hs),
      )

  all-HasPlain :
      (m : List (ℕ × List ℕ)) → Holds sectors (suc n) m → All (HasPlain m) (numbers_below (suc n))
  all-HasPlain m hm = All-numbers_below (HasPlain m) (suc n) (λ s hs. HasPlain-Holds m s hm hs)

  -- What the sort is given is in order.
  sorted :
      sort_numbers (length (numbers_below (suc n)) - 1) (numbers_below (suc n))
      ≡ numbers_below (suc n)
  sorted = sort_numbers-Ascending _ (numbers_below (suc n)) (numbers_below-IsAscending (suc n))

  written-imd_track :
      (m : List (ℕ × List ℕ)) (mode : ℕ)
      → Holds sectors (suc n) m
      → written_track mode c h m (numbers_below (suc n)) ≡ imd_track mode c h sectors
  written-imd_track m mode hm =
      let e1 : h % 16 ≡ h = omega arith in
      let e2 : length (numbers_below (suc n)) ≡ length sectors =
        length-numbers_below (suc n) ∙ sym count in
      let e3 : map u8 (numbers_below (suc n)) ≡ numbers_below (length sectors) =
        map-u8-numbers_below (suc n) (omega arith) ∙ ap numbers_below (sym count) in
      let e4 : plain_sectors m (numbers_below (suc n)) ≡ map (decoded 1) sectors =
        plain_sectors-Holds sectors (suc n) (suc n) m hm (omega arith) (omega arith)
        ∙ ap (map (decoded 1)) (take_all (suc n) sectors (omega arith)) in
      cc (e1, e2, e3, e4)

  side-saved :
      (m : List (ℕ × List ℕ)) (mode : ℕ) (file : List ℕ)
      → Holds sectors (suc n) m
      → write_imd_track mode (u8 c) (u8 h) m (numbers_below (suc n)) file
        ≡ saved (file ++ track_bytes mode c h m (numbers_below (suc n)))
  side-saved m mode file hm =
      let e1 : u8 c ≡ c = omega arith in
      let e2 : u8 h ≡ h = omega arith in
      ap₂ (λ a b. write_imd_track mode a b m (numbers_below (suc n)) file) e1 e2
      ∙ write_imd_track-saved m mode c h (numbers_below (suc n)) file
          (length-numbers_below (suc n) ∙ sym hm.count) (omega (arith, hm.count))
          (omega (arith, hm.count)) (all-HasPlain m hm)
      ∙ ap (λ ns. saved (file ++ track_bytes mode c h m ns)) sorted

  write_imd_side-Reads :
      (mode bit_rate max : ℕ)
      → mode ≤ 5
      → track_width (suc n) bit_rate false ≤ max
      → (bytes : List ℕ) × (1 ≤ length bytes)
        × ((file : List ℕ)
            → write_imd_side mode c h
                (encode_track_ibm_internal sectors c h (suc n) bit_rate false (new_writer max))
                file
              ≡ saved (file ++ bytes))
        × ((rest : List ℕ)
            → read_imd_track (bytes ++ rest) ≡ track_got (imd_track mode c h sectors) rest)
  unfolding write_imd_side
  write_imd_side-Reads mode bit_rate max hm fits =
      let numbers = numbers_below (suc n) in
      let (m, r, found, holds) =
        find-encode_track sectors c h bit_rate hc (omega arith) n small has max fits in
      let some_found : (length m == 0) ≡ false =
        ==_of_ne (length m) 0 (λ e. omega (arith, holds.count)) in
      (
        track_bytes mode c h m numbers,
        omega arith,
        (λ file.
            rw (side_not_empty sectors c h (suc n) bit_rate max false has fits, found)
              (rw some_found (side-saved m mode file holds))),
        (λ rest.
            read_imd_track-written m mode c h numbers rest hm
              (omega (arith, length-numbers_below (suc n))) (all-HasPlain m holds)
            ∙ ap (λ t. track_got t rest) (written-imd_track m mode holds)),
      )

-- A side of at least one sector and fewer than 256, none of one byte alone, is written as a record
-- that is read as the track of those sectors, whatever follows.
pub write_imd_side-encoded :
    (n : ℕ) (sectors : List (List ℕ)) (c h mode bit_rate max : ℕ)
    → IsByte c
    → h < 16
    → 1 ≤ n
    → n < 256
    → length sectors ≡ n
    → HasSectors n sectors
    → ((s : ℕ) → s < n → is_compressible (get_or sectors s []) ≡ false)
    → mode ≤ 5
    → track_width n bit_rate false ≤ max
    → (bytes : List ℕ) × (1 ≤ length bytes)
      × ((file : List ℕ)
          → write_imd_side mode c h
              (encode_track_ibm_internal sectors c h n bit_rate false (new_writer max))
              file
            ≡ saved (file ++ bytes))
      × ((rest : List ℕ)
          → read_imd_track (bytes ++ rest) ≡ track_got (imd_track mode c h sectors) rest)
write_imd_side-encoded zero sectors c h mode bit_rate max hc hh low small count has plain hm fits =
    absurd (omega arith)
write_imd_side-encoded (suc n) sectors c h mode bit_rate max hc hh low small count has plain hm
      fits =
    write_imd_side-Reads sectors c h hc hh n small count has plain mode bit_rate max hm fits
