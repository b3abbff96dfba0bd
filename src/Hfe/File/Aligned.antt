-- ===== src/Hfe/File/Aligned.antt =====
-- bitCopy of hfe/hfe.go at whole bytes copies the bytes.
use fdx.Prelude.{
  ℕ, zero, suc, ◌+◌, ◌-◌, ◌*◌, ◌/◌, ◌%◌, ◌≤◌, ◌<◌, ◌≡◌, refl, ap, ap₂, sym, ◌∙◌, arith,
}
use fdx.Prelude.{
  List, [], ◌∷◌, ◌++◌, length, get_or, set, length-set, length-append, append_assoc,
  get_or-set_same, leb_of_lt, ◌>>>◌, IsByte, All, replicate,
}
use fdx.Prelude.Tables.{holds_below, agree_below}
use fdx.Hfe.Bits.{bit_copy, put_bit}

-- Bits `i` to `i + k - 1` of the byte `b` written to the byte `v`.
unfoldable pub put_all : ℕ → ℕ → ℕ → ℕ → ℕ
put_all zero i v b = v
put_all (suc k) i v b = put_all k (i + 1) (put_bit v i ((b >>> (7 - i)) % 2)) b

pub put_all-byte : (b : ℕ) → IsByte b → put_all 8 0 0 b ≡ b
unfolding put_all put_bit holds_below
put_all-byte = agree_below (λ b. put_all 8 0 0 b) (λ b. b) 256 refl

set-get_or : (xs : List ℕ) (n : ℕ) → set xs n (get_or xs n 0) ≡ xs
set-get_or [] n = refl
set-get_or (x ∷ xs) zero = refl
set-get_or (x ∷ xs) (suc n) = ap (◌∷◌ x) (set-get_or xs n)

set_twice : (xs : List ℕ) (n v w : ℕ) → set (set xs n v) n w ≡ set xs n w
set_twice [] n v w = refl
set_twice (x ∷ xs) zero v w = refl
set_twice (x ∷ xs) (suc n) v w = ap (◌∷◌ x) (set_twice xs n v w)

bit_copy-suc :
    (size : ℕ) (dst src : List ℕ) (n j i : ℕ)
    → i < 8
    → n < length dst
    → j < length src
    → bit_copy (suc size) dst (8 * n + i) src (8 * j + i)
      ≡ bit_copy size
          (set dst n (put_bit (get_or dst n 0) i ((get_or src j 0 >>> (7 - i)) % 2)))
          (8 * n + i + 1)
          src
          (8 * j + i + 1)
unfolding bit_copy
bit_copy-suc size dst src n j i hi hn hj =
    let d8 : (8 * n + i) / 8 ≡ n = omega arith in
    let s8 : (8 * j + i) / 8 ≡ j = omega arith in
    let dm : (8 * n + i) % 8 ≡ i = omega arith in
    let sm : (8 * j + i) % 8 ≡ i = omega arith in
    rw (leb_of_lt (8 * length src) (8 * j + i) (omega arith))
      (rw (leb_of_lt (8 * length dst) (8 * n + i) (omega arith)) (rw (d8, s8, dm, sm) refl))

bit_copy-args :
    (m m' : ℕ) (dst src : List ℕ) (a a' b b' : ℕ)
    → m ≡ m'
    → a ≡ a'
    → b ≡ b'
    → bit_copy m dst a src b ≡ bit_copy m' dst a' src b'
bit_copy-args m m' dst src a a' b b' hm ha hb = cc (hm, ha, hb)

same_copy :
    (m : ℕ) (dst dst' : List ℕ) (a a' : ℕ) (src src' : List ℕ) (b b' : ℕ)
    → dst ≡ dst'
    → a ≡ a'
    → src ≡ src'
    → b ≡ b'
    → bit_copy m dst a src b ≡ bit_copy m dst' a' src' b'
same_copy m dst dst' a a' src src' b b' hd ha hs hb = cc (hd, ha, hs, hb)

-- The rest of a byte.
bit_copy-put_all :
    (k more : ℕ) (dst src : List ℕ) (n j i : ℕ)
    → i + k ≤ 8
    → n < length dst
    → j < length src
    → bit_copy (k + more) dst (8 * n + i) src (8 * j + i)
      ≡ bit_copy more
          (set dst n (put_all k i (get_or dst n 0) (get_or src j 0)))
          (8 * n + i + k)
          src
          (8 * j + i + k)
unfolding put_all
bit_copy-put_all zero more dst src n j i h hn hj =
    bit_copy-args (0 + more) more dst src (8 * n + i) (8 * n + i + 0) (8 * j + i) (8 * j + i + 0)
      (omega arith) (omega arith) (omega arith)
    ∙ ap (λ d. bit_copy more d (8 * n + i + 0) src (8 * j + i + 0)) (sym (set-get_or dst n))
bit_copy-put_all (suc k) more dst src n j i h hn hj =
    let b = get_or src j 0 in
    let v = put_bit (get_or dst n 0) i ((b >>> (7 - i)) % 2) in
    let dst' = set dst n v in
    bit_copy-args (suc k + more) (suc (k + more)) dst src (8 * n + i) (8 * n + i) (8 * j + i)
      (8 * j + i) (omega arith) refl refl
    ∙ bit_copy-suc (k + more) dst src n j i (omega arith) hn hj
    ∙ bit_copy-args (k + more) (k + more) dst' src (8 * n + i + 1) (8 * n + (i + 1)) (8 * j + i + 1)
        (8 * j + (i + 1)) refl (omega arith) (omega arith)
    ∙ bit_copy-put_all k more dst' src n j (i + 1) (omega arith)
        (omega (arith, hn, length-set dst n v)) hj
    ∙ ap
        (λ x.
          bit_copy more (set dst' n (put_all k (i + 1) x b)) (8 * n + (i + 1) + k) src
            (8 * j + (i + 1) + k))
        (get_or-set_same dst n v 0 hn)
    ∙ ap (λ d. bit_copy more d (8 * n + (i + 1) + k) src (8 * j + (i + 1) + k))
        (set_twice dst n v (put_all k (i + 1) v b))
    ∙ bit_copy-args more more (set dst n (put_all k (i + 1) v b)) src (8 * n + (i + 1) + k)
        (8 * n + i + suc k) (8 * j + (i + 1) + k) (8 * j + i + suc k) refl (omega arith)
        (omega arith)

-- A whole byte over a zero.
pub bit_copy-byte :
    (more : ℕ) (dst src : List ℕ) (n j b : ℕ)
    → IsByte b
    → n < length dst
    → j < length src
    → get_or dst n 0 ≡ 0
    → get_or src j 0 ≡ b
    → bit_copy (8 + more) dst (8 * n) src (8 * j)
      ≡ bit_copy more (set dst n b) (8 * suc n) src (8 * suc j)
bit_copy-byte more dst src n j b hb hn hj clear e =
    bit_copy-args (8 + more) (8 + more) dst src (8 * n) (8 * n + 0) (8 * j) (8 * j + 0) refl
      (omega arith) (omega arith)
    ∙ bit_copy-put_all 8 more dst src n j 0 (omega arith) hn hj
    ∙ ap₂ (λ x y. bit_copy more (set dst n (put_all 8 0 x y)) (8 * n + 0 + 8) src (8 * j + 0 + 8))
        clear e
    ∙ ap (λ x. bit_copy more (set dst n x) (8 * n + 0 + 8) src (8 * j + 0 + 8)) (put_all-byte b hb)
    ∙ bit_copy-args more more (set dst n b) src (8 * n + 0 + 8) (8 * suc n) (8 * j + 0 + 8)
        (8 * suc j) refl (omega arith) (omega arith)

get_or-middle : (xs : List ℕ) (y : ℕ) (ys : List ℕ) → get_or (xs ++ y ∷ ys) (length xs) 0 ≡ y
get_or-middle [] y ys = refl
get_or-middle (x ∷ xs) y ys = get_or-middle xs y ys

set-middle :
    (xs : List ℕ) (y v : ℕ) (ys : List ℕ) → set (xs ++ y ∷ ys) (length xs) v ≡ (xs ++ v ∷ []) ++ ys
set-middle [] y v ys = refl
set-middle (x ∷ xs) y v ys = ap (◌∷◌ x) (set-middle xs y v ys)

length-snoc : (xs : List ℕ) (y : ℕ) → length (xs ++ y ∷ []) ≡ suc (length xs)
length-snoc xs y = omega (arith, length-append xs (y ∷ []))

-- Bytes over zeros: `before` has been written, and `bytes` are next in the source.
pub bit_copy-bytes :
    (bytes before zeros src_before src_behind : List ℕ)
    → All IsByte bytes
    → bit_copy
        (8 * length bytes)
        (before ++ (replicate (length bytes) 0 ++ zeros))
        (8 * length before)
        (src_before ++ (bytes ++ src_behind))
        (8 * length src_before)
      ≡ (before ++ (bytes ++ zeros), 8 * (length before + length bytes))
unfolding bit_copy
bit_copy-bytes [] before zeros src_before src_behind h =
    ap (λ k. (before ++ zeros, k)) (omega arith)
bit_copy-bytes (b ∷ bytes) before zeros src_before src_behind h =
    let rest = replicate (length bytes) 0 ++ zeros in
    let dst = before ++ 0 ∷ rest in
    let src = src_before ++ b ∷ (bytes ++ src_behind) in
    let e1 = set-middle before 0 b rest in
    let e2 : 8 * suc (length before) ≡ 8 * length (before ++ b ∷ []) =
      ap (λ k. 8 * k) (sym (length-snoc before b)) in
    let e3 = sym (append_assoc src_before (b ∷ []) (bytes ++ src_behind)) in
    let e4 : 8 * suc (length src_before) ≡ 8 * length (src_before ++ b ∷ []) =
      ap (λ k. 8 * k) (sym (length-snoc src_before b)) in
    let size : 8 * suc (length bytes) ≡ 8 + 8 * length bytes = omega arith in
    bit_copy-args (8 * suc (length bytes)) (8 + 8 * length bytes) dst src (8 * length before)
      (8 * length before) (8 * length src_before) (8 * length src_before) size refl refl
    ∙ bit_copy-byte (8 * length bytes) dst src (length before) (length src_before) b h.0
        (omega (arith, length-append before (0 ∷ rest)))
        (omega (arith, length-append src_before (b ∷ (bytes ++ src_behind))))
        (get_or-middle before 0 rest) (get_or-middle src_before b (bytes ++ src_behind))
    ∙ same_copy (8 * length bytes) _ _ _ _ _ _ _ _ e1 e2 e3 e4
    ∙ bit_copy-bytes bytes (before ++ b ∷ []) zeros (src_before ++ b ∷ []) src_behind h.1
    ∙ ap₂ (λ x y. (x, y)) (append_assoc before (b ∷ []) (bytes ++ zeros))
        (omega (arith, length-snoc before b))
