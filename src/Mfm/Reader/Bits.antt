-- ===== src/Mfm/Reader/Bits.antt =====
-- The reader of mfm/reader.go against the sequence of half-bits that are left.
use fdx.Prelude.{ℕ, zero, suc, ◌+◌, ◌-◌, ◌*◌, ◌/◌, ◌%◌, ◌<◌, bit_or, ◌≡◌, refl, ap, ◌∙◌, arith}
use fdx.Prelude.{if◌then◌else◌, ◌==◌, IsByte, IsBit, All, some, u8, ◌<<<◌, ◌>>>◌}
use fdx.Prelude.{List, [], ◌∷◌, ◌++◌, length, get_or, get_elem?, drop, length-drop}
use fdx.Prelude.{get_elem?-of_drop, drop-suc, some}
use fdx.Prelude.Tables.{holds_below, agree_below}
use fdx.Mfm.Symbols.{
  Symbol, bit, emit, clock, last_bit, byte_bits, stream, byte_symbols, bytes_symbols,
}
use fdx.Mfm.Symbols.Buffer.{length-stream}
use fdx.Mfm.Reader.{Reader, M, got, failed, ◌>>=◌, pure, new_reader}
use fdx.Mfm.Reader.{read_half_bit, read_bit, read_bits, read_byte, read_bytes}

-- The half-bits that the reader has not reached.
unfoldable pub rest : Reader → List ℕ
rest r = drop r.bit_pos (stream r.bytes)

pub rest-new_reader : (bytes : List ℕ) → rest (new_reader bytes) ≡ stream bytes
unfolding rest new_reader
rest-new_reader bytes = refl

pub length-rest : (r : Reader) → length (rest r) ≡ 8 * length r.bytes - r.bit_pos
unfolding rest
length-rest r = omega (arith, length-drop r.bit_pos (stream r.bytes), length-stream r.bytes)

-- The bit at a position of the stream.
byte_bit : (b j : ℕ) → j < 8 → get_elem? (byte_bits b) j ≡ some ((b >>> (7 - j)) % 2)
byte_bit b zero h = refl
byte_bit b (suc zero) h = refl
byte_bit b (suc (suc zero)) h = refl
byte_bit b (suc (suc (suc zero))) h = refl
byte_bit b (suc (suc (suc (suc zero)))) h = refl
byte_bit b (suc (suc (suc (suc (suc zero))))) h = refl
byte_bit b (suc (suc (suc (suc (suc (suc zero)))))) h = refl
byte_bit b (suc (suc (suc (suc (suc (suc (suc zero))))))) h = ap some (omega arith)
byte_bit b (suc (suc (suc (suc (suc (suc (suc (suc j)))))))) h = absurd (omega arith)

get_elem?-append_left :
    (xs ys : List ℕ) (i : ℕ) → i < length xs → get_elem? (xs ++ ys) i ≡ get_elem? xs i
get_elem?-append_left [] ys i h = absurd (omega arith)
get_elem?-append_left (x ∷ xs) ys zero h = refl
get_elem?-append_left (x ∷ xs) ys (suc i) h = get_elem?-append_left xs ys i (omega arith)

get_elem?-append_right :
    (xs ys : List ℕ) (i : ℕ) → get_elem? (xs ++ ys) (length xs + i) ≡ get_elem? ys i
get_elem?-append_right [] ys i = ap (get_elem? ys) (omega arith)
get_elem?-append_right (x ∷ xs) ys i =
    let e : suc (length xs) + i ≡ suc (length xs + i) = omega arith in
    rw e (get_elem?-append_right xs ys i)

stream-bit :
    (bytes : List ℕ) (i j : ℕ)
    → j < 8
    → i < length bytes
    → get_elem? (stream bytes) (8 * i + j) ≡ some ((get_or bytes i 0 >>> (7 - j)) % 2)
stream-bit [] i j hj hi = absurd (omega arith)
stream-bit (b ∷ bytes) zero j hj hi =
    ap (get_elem? (byte_bits b ++ stream bytes)) (omega arith)
    ∙ get_elem?-append_left (byte_bits b) (stream bytes) j (omega arith)
    ∙ byte_bit b j hj
stream-bit (b ∷ bytes) (suc i) j hj hi =
    ap (get_elem? (byte_bits b ++ stream bytes)) (omega arith)
    ∙ get_elem?-append_right (byte_bits b) (stream bytes) (8 * i + j)
    ∙ stream-bit bytes i j hj (omega arith)

abbrev pub next : Reader → Reader
next r = record r { bit_pos = r.bit_pos + 1 }

pub rest-next : (r : Reader) (b : ℕ) (bs : List ℕ) → rest r ≡ b ∷ bs → rest (next r) ≡ bs
unfolding rest
rest-next r b bs h =
    let e : r.bit_pos + 1 ≡ suc r.bit_pos = omega arith in
    ap (λ n. drop n (stream r.bytes)) e ∙ drop-suc r.bit_pos (stream r.bytes) b bs h

-- `readHalfBit` takes the next half-bit, and fails exactly at the end.
pub read_half_bit-cons :
    (r : Reader) (b : ℕ) (bs : List ℕ) → rest r ≡ b ∷ bs → read_half_bit r ≡ got b (next r)
unfolding read_half_bit
read_half_bit-cons r b bs h =
    let left : 0 < length (rest r) = rw h (omega arith) in
    let inside : r.bit_pos < 8 * length r.bytes = omega (arith, length-rest r) in
    let here = get_elem?-of_drop r.bit_pos (stream r.bytes) b bs (unfold rest in h) in
    let e : r.bit_pos ≡ 8 * (r.bit_pos / 8) + r.bit_pos % 8 = omega arith in
    let at =
      ap (get_elem? (stream r.bytes)) e
      ∙ stream-bit r.bytes (r.bit_pos / 8) (r.bit_pos % 8) (omega arith) (omega arith) in
    ground arith

pub read_half_bit-nil : (r : Reader) → rest r ≡ [] → read_half_bit r ≡ failed r
unfolding read_half_bit
read_half_bit-nil r h =
    let out : 8 * length r.bytes - r.bit_pos ≡ 0 = omega (arith, length-rest r, ap length h) in
    ground arith

-- The operation succeeds with `a`, and leaves the half-bits `bs`.
pub record Reads {ℓ} {A : Type ℓ} (m : M A) (r : Reader) (a : A) (bs : List ℕ) : Type ℓ where
  pub after : Reader
  pub result : m r ≡ got a after
  pub left : rest after ≡ bs

-- The operation fails, and nothing is left.
pub record Fails {ℓ} {A : Type ℓ} (m : M A) (r : Reader) : Type ℓ where
  pub after : Reader
  pub result : m r ≡ failed after
  pub left : rest after ≡ []

pub Reads-bind {ℓ κ} :
    {A : Type ℓ} {B : Type κ} (m : M A) (f : A → M B) {r : Reader} {a : A} {b : B} {bs cs : List ℕ}
    → Reads m r a bs
    → ((r' : Reader) → rest r' ≡ bs → Reads (f a) r' b cs)
    → Reads (m >>= f) r b cs
Reads-bind m f {r} {a} {b} {bs} {cs} h k =
    let next_part = k h.after h.left in
    record {
      after = next_part.after;
      result = rw (h.result, ◌>>=◌) next_part.result;
      left = next_part.left;
    }

pub Reads-pure {ℓ} :
    {A : Type ℓ} (a : A) (r : Reader) (bs : List ℕ) → rest r ≡ bs → Reads (pure a) r a bs
Reads-pure a r bs h = record { after = r; result = refl; left = h }

pub read_half_bit-Reads :
    (r : Reader) (b : ℕ) (bs : List ℕ) → rest r ≡ b ∷ bs → Reads read_half_bit r b bs
read_half_bit-Reads r b bs h = record {
  after = next r;
  result = read_half_bit-cons r b bs h;
  left = rest-next r b bs h;
}

pub read_bit-Reads :
    (r : Reader) (a b : ℕ) (bs : List ℕ) → rest r ≡ a ∷ b ∷ bs → Reads read_bit r b bs
unfolding read_bit
read_bit-Reads r a b bs h =
    Reads-bind read_half_bit (λ clock. read_half_bit) (read_half_bit-Reads r a (b ∷ bs) h)
      (λ r'. read_half_bit-Reads r' b bs)

-- The value of bits that follow the higher bits `v`.
abbrev pub value : ℕ → List ℕ → ℕ
value v [] = v
value v (b ∷ bs) = value (bit_or (u8 (v <<< 1)) b) bs

abbrev pub data_bits : List ℕ → List Symbol
data_bits [] = []
data_bits (d ∷ ds) = bit d ∷ data_bits ds

digit : (d : ℕ) → IsBit d → (if d == 0 then 0 else 1) ≡ d
digit zero h = refl
digit (suc zero) h = refl
digit (suc (suc d)) h = absurd (omega arith)

pub read_bits-Reads :
    (ds : List ℕ) (v l : ℕ) (ss : List Symbol) (r : Reader)
    → All IsBit ds
    → rest r ≡ emit l (data_bits ds ++ ss)
    → Reads (read_bits (length ds) v) r (value v ds) (emit (last_bit l (data_bits ds)) ss)
unfolding read_bits
read_bits-Reads [] v l ss r k h = Reads-pure v r (emit l ss) h
read_bits-Reads (d ∷ ds) v l ss r k h =
    Reads-bind read_bit (λ b. read_bits (length ds) (bit_or (u8 (v <<< 1)) b))
      (read_bit-Reads r (clock l d) d _
        (h ∙ ap (λ c. clock l d ∷ c ∷ emit d (data_bits ds ++ ss)) (digit d k.0)))
      (λ r'. read_bits-Reads ds (bit_or (u8 (v <<< 1)) d) d ss r' k.1)

-- The eight bits of a byte give it back.
value-byte_bits : (b : ℕ) → IsByte b → value 0 (byte_bits b) ≡ b
unfolding holds_below
value-byte_bits = agree_below (λ b. value 0 (byte_bits b)) (λ b. b) 256 refl

-- readByte returns the byte whose half-bits lie ahead, whatever the bit before them was, and leaves
-- what follows.
pub read_byte-Reads :
    (b l : ℕ) (ss : List Symbol) (r : Reader)
    → IsByte b
    → rest r ≡ emit l (byte_symbols b ++ ss)
    → Reads read_byte r b (emit (b % 2) ss)
unfolding read_byte
read_byte-Reads b l ss r hb h =
    let reads = read_bits-Reads (byte_bits b) 0 l ss r (omega arith) h in
    record {
      after = reads.after;
      result = reads.result ∙ ap (λ v. got v reads.after) (value-byte_bits b hb);
      left = reads.left;
    }

pub last_byte : ℕ → List ℕ → ℕ
last_byte l [] = l
last_byte l (b ∷ bs) = last_byte (b % 2) bs

pub read_bytes-Reads :
    (bs : List ℕ) (l : ℕ) (ss : List Symbol) (r : Reader)
    → All IsByte bs
    → rest r ≡ emit l (bytes_symbols bs ++ ss)
    → Reads (read_bytes (length bs)) r bs (emit (last_bit l (bytes_symbols bs)) ss)
unfolding read_bytes
read_bytes-Reads [] l ss r k h = Reads-pure [] r (emit l ss) h
read_bytes-Reads (b ∷ bs) l ss r k h =
    Reads-bind read_byte (λ c. read_bytes (length bs) >>= (λ cs. pure (c ∷ cs)))
      (read_byte-Reads b l (bytes_symbols bs ++ ss) r k.0 h)
      (λ r' h'.
        Reads-bind (read_bytes (length bs)) (λ cs. pure (b ∷ cs))
          (read_bytes-Reads bs (b % 2) ss r' k.1 h') (λ r'' h''. Reads-pure (b ∷ bs) r'' _ h''))
