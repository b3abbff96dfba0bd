-- ===== src/Mfm/Symbols/Buffer.antt =====
-- The bits of a byte buffer: appending, and setting one of them.
use fdx.Prelude.{ℕ, zero, suc, ◌+◌, ◌-◌, ◌*◌, ◌^◌, ◌<◌, bit_or, ◌≡◌, refl, ap, ◌∙◌, arith}
use fdx.Prelude.{Bool, true, false, ◌&&◌, ◌==◌, IsByte, All, List, [], ◌∷◌, ◌++◌}
use fdx.Prelude.{length, get_or, set, set-append, sym, ltb}
use fdx.Prelude.Tables.{holds_below, holds_below_sound}
use fdx.Mfm.Symbols.{byte_bits, stream}

pub length-stream : (buf : List ℕ) → length (stream buf) ≡ 8 * length buf
length-stream [] = refl
length-stream (b ∷ buf) = omega (arith, length-stream buf)

pub stream-append : (xs ys : List ℕ) → stream (xs ++ ys) ≡ stream xs ++ stream ys
stream-append [] ys = refl
stream-append (x ∷ xs) ys = ap (λ t. byte_bits x ++ t) (stream-append xs ys)

same : List ℕ → List ℕ → Bool
same [] [] = true
same [] (y ∷ ys) = false
same (x ∷ xs) [] = false
same (x ∷ xs) (y ∷ ys) = x == y && same xs ys

same_sound : (xs ys : List ℕ) → same xs ys ≡ true → xs ≡ ys
unfolding same
same_sound [] [] h = refl
same_sound [] (y ∷ ys) h = cc
same_sound (x ∷ xs) [] h = cc
same_sound (x ∷ xs) (y ∷ ys) h = ground (arith, same_sound xs ys (ground arith))

set-append_left : (xs ys : List ℕ) (i v : ℕ) → i < length xs → set (xs ++ ys) i v ≡ set xs i v ++ ys
set-append_left [] ys i v h = absurd (omega arith)
set-append_left (x ∷ xs) ys zero v h = refl
set-append_left (x ∷ xs) ys (suc i) v h = ap (◌∷◌ x) (set-append_left xs ys i v (omega arith))

-- A byte with one bit set, at every byte and place.
pub byte_bits-set :
    (b j : ℕ) → b < 256 → j < 8 → byte_bits (bit_or b (2 ^ (7 - j))) ≡ set (byte_bits b) j 1
unfolding holds_below same
byte_bits-set b j hb hj =
    let test =
      λ (b' j' : ℕ). same (byte_bits (bit_or b' (2 ^ (7 - j')))) (set (byte_bits b') j' 1) in
    same_sound _ _ (
      holds_below_sound 8 (test b) (holds_below_sound 256 (λ b'. holds_below 8 (test b')) refl b hb)
        j hj)

-- Setting bit `j` of byte `i` sets one bit of the stream.
pub stream-set :
    (buf : List ℕ) (i j : ℕ)
    → All IsByte buf
    → i < length buf
    → j < 8
    → stream (set buf i (bit_or (get_or buf i 0) (2 ^ (7 - j)))) ≡ set (stream buf) (8 * i + j) 1
stream-set [] i j k hi hj = absurd (omega arith)
stream-set (b ∷ buf) zero j k hi hj =
    ap (λ t. t ++ stream buf) (byte_bits-set b j k.0 hj)
    ∙ sym (set-append_left (byte_bits b) (stream buf) j 1 (omega arith))
    ∙ ap (λ p. set (byte_bits b ++ stream buf) p 1) (omega arith)
stream-set (b ∷ buf) (suc i) j k hi hj =
    ap (λ t. byte_bits b ++ t) (stream-set buf i j k.1 (omega arith) hj)
    ∙ sym (set-append (byte_bits b) (stream buf) (8 * i + j) 1)
    ∙ ap (λ p. set (byte_bits b ++ stream buf) p 1) (omega arith)

pub mask_byte : (b j : ℕ) → b < 256 → j < 8 → bit_or b (2 ^ (7 - j)) < 256
unfolding holds_below
mask_byte b j hb hj =
    let test = λ (b' j' : ℕ). ltb (bit_or b' (2 ^ (7 - j'))) 256 in
    let e =
      holds_below_sound 8 (test b) (holds_below_sound 256 (λ b'. holds_below 8 (test b')) refl b hb)
        j hj in
    ground arith

pub set-All :
    (buf : List ℕ) (i j : ℕ)
    → All IsByte buf
    → j < 8
    → All IsByte (set buf i (bit_or (get_or buf i 0) (2 ^ (7 - j))))
set-All [] i j k hj = k
set-All (b ∷ buf) zero j k hj = (mask_byte b j k.0 hj, k.1)
set-All (b ∷ buf) (suc i) j k hj = (k.0, set-All buf i j k.1 hj)

pub append-All {ℓ κ} :
    {A : Type ℓ} (P : A → Type κ) (xs ys : List A) → All P xs → All P ys → All P (xs ++ ys)
append-All P [] ys h k = k
append-All P (x ∷ xs) ys h k = (h.0, append-All P xs ys h.1 k)
