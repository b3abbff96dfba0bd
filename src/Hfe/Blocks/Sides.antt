-- ===== src/Hfe/Blocks/Sides.antt =====
-- The two sides of a track in blocks, which hfe/write.go puts together and hfe/read.go takes apart.
use fdx.Prelude.{All-take, All-drop}
use fdx.Prelude.{take_exact, drop_exact}
use fdx.Prelude.{ℕ, zero, suc, ◌-◌, ◌*◌, ◌≡◌, refl, ap, ap₂, sym, ◌∙◌, arith}
use fdx.Prelude.{IsByte, All}
use fdx.Prelude.{List, [], ◌∷◌, ◌++◌, map, length, take, drop, replicate, append_assoc}
use fdx.Prelude.{length-append, length-take, length-drop, length-replicate, take-append-drop}
use fdx.Hfe.Bits.{byte_bits_inverter}
use fdx.Hfe.Bits.Mirror.{byte_bits_inverter-twice}
use fdx.Hfe.Blocks.{padded, interleave}
use fdx.Hfe.Blocks.{side0_of, side1_of}

length-map : (f : ℕ → ℕ) (xs : List ℕ) → length (map f xs) ≡ length xs
length-map f [] = refl
length-map f (x ∷ xs) = ap suc (length-map f xs)

inverted_twice :
    (bs : List ℕ) → All IsByte bs → map byte_bits_inverter (map byte_bits_inverter bs) ≡ bs
inverted_twice [] h = refl
inverted_twice (b ∷ bs) h = ap₂ (◌∷◌) (byte_bits_inverter-twice b h.0) (inverted_twice bs h.1)

All-append : (xs ys : List ℕ) → All IsByte xs → All IsByte ys → All IsByte (xs ++ ys)
All-append [] ys h k = k
All-append (x ∷ xs) ys h k = (h.0, All-append xs ys h.1 k)

All-replicate : (n v : ℕ) → IsByte v → All IsByte (replicate n v)
All-replicate zero v h = tt
All-replicate (suc n) v h = (h, All-replicate n v h)

pub length-padded : (n v : ℕ) (side : List ℕ) → length (padded n v side) ≡ n
unfolding padded
length-padded n v side = omega (
  arith,
  length-append (take n side) (replicate (n - length side) v),
  length-take n side,
  length-replicate (n - length side) v,
)

pub padded-IsByte :
    (n v : ℕ) (side : List ℕ) → IsByte v → All IsByte side → All IsByte (padded n v side)
unfolding padded
padded-IsByte n v side hv h =
    All-append (take n side) (replicate (n - length side) v) (All-take IsByte n side h)
      (All-replicate (n - length side) v hv)

-- One block of each side.
half : ℕ → List ℕ → List ℕ
half k s = map byte_bits_inverter (take 256 s)

length-half : (k : ℕ) (s : List ℕ) → length s ≡ 256 * suc k → length (half k s) ≡ 256
unfolding half
length-half k s h = omega (arith, length-map byte_bits_inverter (take 256 s), length-take 256 s)

pub length-interleave :
    (k : ℕ) (s0 s1 : List ℕ)
    → length s0 ≡ 256 * k
    → length s1 ≡ 256 * k
    → length (interleave k s0 s1) ≡ 512 * k
unfolding interleave half
length-interleave zero s0 s1 h0 h1 = refl
length-interleave (suc k) s0 s1 h0 h1 = omega (
  arith,
  length-append (half k s0) (half k s1 ++ interleave k (drop 256 s0) (drop 256 s1)),
  length-append (half k s1) (interleave k (drop 256 s0) (drop 256 s1)),
  length-half k s0 h0,
  length-half k s1 h1,
  length-interleave k (drop 256 s0) (drop 256 s1) (omega (arith, length-drop 256 s0))
      (omega (arith, length-drop 256 s1)),
)

no_bytes : (bs : List ℕ) → length bs ≡ 0 → [] ≡ bs
no_bytes [] h = refl
no_bytes (b ∷ bs) h = absurd (omega arith)

-- Both sides come apart again.
pub sides_apart :
    (k : ℕ) (s0 s1 : List ℕ)
    → length s0 ≡ 256 * k
    → length s1 ≡ 256 * k
    → All IsByte s0
    → All IsByte s1
    → (side0_of k (interleave k s0 s1) ≡ s0) × (side1_of k (interleave k s0 s1) ≡ s1)
unfolding interleave side0_of side1_of half
sides_apart zero s0 s1 h0 h1 b0 b1 = (no_bytes s0 h0, no_bytes s1 h1)
sides_apart (suc k) s0 s1 h0 h1 b0 b1 =
    let d0 = drop 256 s0 in
    let d1 = drop 256 s1 in
    let behind = interleave k d0 d1 in
    let (e0, e1) =
      sides_apart k d0 d1 (omega (arith, length-drop 256 s0)) (omega (arith, length-drop 256 s1))
        (All-drop IsByte 256 s0 b0) (All-drop IsByte 256 s1 b1) in
    let first = take_exact 256 (half k s0) (half k s1 ++ behind) (length-half k s0 h0) in
    let both : drop 512 (half k s0 ++ (half k s1 ++ behind)) ≡ behind =
      ap (drop 512) (sym (append_assoc (half k s0) (half k s1) behind))
      ∙ drop_exact 512 (half k s0 ++ half k s1) behind (
          omega (
            arith,
            length-append (half k s0) (half k s1),
            length-half k s0 h0,
            length-half k s1 h1,
          )) in
    let second =
      ap (take 256) (drop_exact 256 (half k s0) (half k s1 ++ behind) (length-half k s0 h0))
      ∙ take_exact 256 (half k s1) behind (length-half k s1 h1) in
    (
      ap₂ (◌++◌)
            (ap (map byte_bits_inverter) first
              ∙ inverted_twice (take 256 s0) (All-take IsByte 256 s0 b0))
            (ap (side0_of k) both ∙ e0)
          ∙ take-append-drop 256 s0,
      ap₂ (◌++◌)
            (ap (map byte_bits_inverter) second
              ∙ inverted_twice (take 256 s1) (All-take IsByte 256 s1 b1))
            (ap (side1_of k) both ∙ e1)
          ∙ take-append-drop 256 s1,
    )
