-- ===== src/Mfm/Writer/Cells.antt =====
-- The buffer of mfm/writer.go against the sequence of half-bits that were written.
use fdx.Prelude.{ℕ, zero, suc, ◌+◌, ◌-◌, ◌*◌, ◌/◌, ◌%◌, ◌^◌, ◌≤◌, ◌<◌, min, ◌≡◌, refl, ap, sym, ◌∙◌}
use fdx.Prelude.{arith, if◌then◌else◌, leb, ◌==◌, Bool-cases, inl, inr, IsByte, All}
use fdx.Prelude.{List, [], ◌∷◌, ◌++◌, length, set, take, replicate, append_assoc}
use fdx.Prelude.{length-append, length-set, take_all, take_within}
use fdx.Prelude.{take-nil, set-append, replicate-add, u8, ◌<<<◌}
use fdx.Mfm.Symbols.{stream}
use fdx.Mfm.Symbols.Buffer.{stream-append, stream-set, set-All, append-All}
use fdx.Mfm.Writer.{Writer, new_writer, grown, set_bit, write_half_bit}

-- `hs` are the half-bits handed to the writer; those past the end of the track are dropped, and
-- the buffer goes on in zeros. Every write lands inside the buffer.
pub record Written (w : Writer) (hs : List ℕ) : Type 0 where
  pub pos : w.bit_pos ≡ min (length hs) w.max_half_bits
  pub room : (w.bit_pos + 7) / 8 ≤ length w.buffer
  pub bytes : All IsByte w.buffer
  pub cells :
      stream w.buffer ≡ take w.max_half_bits hs ++ replicate (8 * length w.buffer - w.bit_pos) 0

pub new_writer-Written : (max : ℕ) → Written (new_writer max) []
unfolding new_writer
new_writer-Written max = record {
  pos = omega arith;
  room = omega arith;
  bytes = tt;
  cells = ap (λ t. t ++ []) (sym (take-nil ℕ max));
}

abbrev norm : ℕ → ℕ
norm v = if v == 0 then 0 else 1

-- The buffer has the byte that the next half-bit goes to.
grown-room : {w : Writer} {hs : List ℕ} → Written w hs → w.bit_pos / 8 < length (grown w)
unfolding grown
grown-room {w} h = elim (Bool-cases (leb (length w.buffer) ((w.bit_pos + 7) / 8))) [
  | inl full ↦ rw full (omega (arith, length-append w.buffer (0 ∷ []), h.room))
  | inr free ↦ rw free (ground arith)
]

grown-bytes : {w : Writer} {hs : List ℕ} → Written w hs → All IsByte (grown w)
unfolding grown
grown-bytes {w} h = elim (Bool-cases (leb (length w.buffer) ((w.bit_pos + 7) / 8))) [
  | inl full ↦ rw full (append-All IsByte w.buffer (0 ∷ []) h.bytes (omega arith, tt))
  | inr free ↦ rw free h.bytes
]

grown-cells :
    {w : Writer} {hs : List ℕ}
    → Written w hs
    → stream (grown w) ≡ take w.max_half_bits hs ++ replicate (8 * length (grown w) - w.bit_pos) 0
unfolding grown
grown-cells {w} {hs} h = elim (Bool-cases (leb (length w.buffer) ((w.bit_pos + 7) / 8))) [
  | inl full ↦
      let old = 8 * length w.buffer - w.bit_pos in
      let more : 8 * length (w.buffer ++ (0 ∷ [])) - w.bit_pos ≡ old + 8 =
        omega (arith, length-append w.buffer (0 ∷ []), h.room) in
      rw (full, more, replicate-add {A = ℕ} old 8 0)
        (stream-append w.buffer (0 ∷ [])
          ∙ ap (λ t. t ++ replicate 8 0) h.cells
          ∙ append_assoc (take w.max_half_bits hs) (replicate old 0) (replicate 8 0))
  | inr free ↦ rw free h.cells
]

-- `n` is positive where it counts the zeros after a position inside the buffer.
replicate-pos : (n : ℕ) → 0 < n → replicate {A = ℕ} n 0 ≡ 0 ∷ replicate (n - 1) 0
replicate-pos zero h = absurd (omega arith)
replicate-pos (suc n) h = ap (λ k. 0 ∷ replicate k 0) (omega arith)

set_bit-stream :
    (buf : List ℕ) (p : ℕ)
    → All IsByte buf
    → p / 8 < length buf
    → (stream (set_bit buf p) ≡ set (stream buf) p 1)
      × All IsByte (set_bit buf p)
      × (length (set_bit buf p) ≡ length buf)
unfolding set_bit
set_bit-stream buf p k h =
    let m : (j : ℕ) → j < 8 → u8 (1 <<< (7 - j)) ≡ 2 ^ (7 - j) = mask in
    let e = m (p % 8) (omega arith) in
    (
      rw e (
          stream-set buf (p / 8) (p % 8) k h (omega arith)
          ∙ ap (λ q. set (stream buf) q 1) (omega arith)),
      rw e (set-All buf (p / 8) (p % 8) k (omega arith)),
      length-set buf (p / 8) _,
    )
  where
    mask : (j : ℕ) → j < 8 → u8 (1 <<< (7 - j)) ≡ 2 ^ (7 - j)
    mask zero h = refl
    mask (suc zero) h = refl
    mask (suc (suc zero)) h = refl
    mask (suc (suc (suc zero))) h = refl
    mask (suc (suc (suc (suc zero)))) h = refl
    mask (suc (suc (suc (suc (suc zero))))) h = refl
    mask (suc (suc (suc (suc (suc (suc zero)))))) h = refl
    mask (suc (suc (suc (suc (suc (suc (suc zero))))))) h = refl
    mask (suc (suc (suc (suc (suc (suc (suc (suc j)))))))) h = absurd (omega arith)

-- The zeros that follow the written half-bits, and what a write makes of the first.
module _ {w : Writer} {hs : List ℕ} (h : Written w hs) (open' : w.bit_pos < w.max_half_bits) where
  all_kept : take w.max_half_bits hs ≡ hs
  all_kept = take_all w.max_half_bits hs (omega (arith, h.pos))

  at_end : w.bit_pos ≡ length hs
  at_end = omega (arith, h.pos)

  zeros : ℕ
  zeros = 8 * length (grown w) - w.bit_pos - 1

  spread : stream (grown w) ≡ hs ++ (0 ∷ replicate zeros 0)
  unfolding zeros
  spread =
      grown-cells h
      ∙ ap (λ t. t ++ replicate (8 * length (grown w) - w.bit_pos) 0) all_kept
      ∙ ap (λ t. hs ++ t) (replicate-pos _ (omega (arith, grown-room h)))

  kept_more : (v : ℕ) → take w.max_half_bits (hs ++ (v ∷ [])) ≡ hs ++ (v ∷ [])
  kept_more v =
      take_all w.max_half_bits (hs ++ (v ∷ [])) (omega (arith, length-append hs (v ∷ []), at_end))

  -- A buffer that holds the half-bits, one more and zeros, at the next position.
  advanced :
      (v : ℕ) (buf : List ℕ)
      → length buf ≡ length (grown w)
      → All IsByte buf
      → stream buf ≡ hs ++ (v ∷ replicate zeros 0)
      → Written (record w { buffer = buf; bit_pos = w.bit_pos + 1 }) (hs ++ (v ∷ []))
  unfolding zeros
  advanced v buf len bytes cells =
      let rest : 8 * length buf - (w.bit_pos + 1) ≡ 8 * length (grown w) - w.bit_pos - 1 =
        omega (arith, len) in
      record {
        pos = omega (arith, length-append hs (v ∷ []), at_end);
        room = omega (arith, len, grown-room h);
        bytes = bytes;
        cells =
            rw (rest, kept_more v)
              (cells
                ∙ sym (
                    append_assoc hs (v ∷ []) (replicate (8 * length (grown w) - w.bit_pos - 1) 0)));
      }

-- The buffer holds the half-bits written so far, cut at the end of the track, and zeros;
-- writeHalfBit keeps this, with the new half-bit at their end, also where the track is full.
pub write_half_bit-Written :
    (v : ℕ) {w : Writer} {hs : List ℕ}
    → Written w hs
    → Written (write_half_bit v w) (hs ++ ((if v == 0 then 0 else 1) ∷ []))
unfolding write_half_bit
write_half_bit-Written v {w} {hs} h = elim (Bool-cases (leb w.max_half_bits w.bit_pos)) [
  | inl full ↦
      let past : w.max_half_bits ≤ length hs = ground (arith, h.pos) in
      rw full (record {
        pos = omega (arith, length-append hs ((if v == 0 then 0 else 1) ∷ []), h.pos);
        room = h.room;
        bytes = h.bytes;
        cells = rw (take_within w.max_half_bits hs ((if v == 0 then 0 else 1) ∷ []) past) h.cells;
      })
  | inr free ↦
      let open' : w.bit_pos < w.max_half_bits = ground arith in
      let one = set_bit-stream (grown w) w.bit_pos (grown-bytes h) (grown-room h) in
      elim (Bool-cases (v == 0)) [
        | inl z ↦ rw (free, z) (advanced h open' 0 (grown w) refl (grown-bytes h) (spread h open'))
        | inr nz ↦
            rw (free, nz)
              (advanced h open' 1 (set_bit (grown w) w.bit_pos) one.2 one.1 (
                one.0
                ∙ ap (λ t. set t w.bit_pos 1) (spread h open')
                ∙ ap (λ p. set (hs ++ (0 ∷ replicate (zeros h open') 0)) p 1)
                    (omega (arith, at_end h open'))
                ∙ set-append hs (0 ∷ replicate (zeros h open') 0) 0 1))
      ]
]
