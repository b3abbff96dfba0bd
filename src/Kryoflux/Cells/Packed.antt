-- ===== src/Kryoflux/Cells/Packed.antt =====
-- The bytes that bitcells are packed to in kryoflux/read.go have the bitcells as their bits.
use fdx.Prelude.{
  ℕ, zero, suc, ◌+◌, ◌<◌, ◌≡◌, refl, ap, ap₂, sym, ◌∙◌, arith, Bool, true, false, ◌==◌,
}
use fdx.Prelude.{
  List, [], ◌∷◌, ◌++◌, length, map, replicate, set, set-append, append_assoc, append-nil,
  length-append, ltb_of_lt,
}
use fdx.Mfm.Symbols.{byte_bits, stream}
use fdx.Mfm.Symbols.Buffer.{byte_bits-set, mask_byte}
use fdx.Kryoflux.Cells.{with_bit, pack_from, pack}

abbrev pub half : Bool → ℕ
half false = 0
half true = 1

byte_bits-with_bit :
    (bit : Bool) (pre : List ℕ) (k current : ℕ)
    → current < 256
    → length pre + suc k ≡ 8
    → byte_bits current ≡ pre ++ (0 ∷ replicate k 0)
    → (byte_bits (with_bit bit (length pre) current) ≡ (pre ++ (half bit ∷ [])) ++ replicate k 0)
      × (with_bit bit (length pre) current < 256)
unfolding with_bit
byte_bits-with_bit false pre k current small size bits =
    (bits ∙ sym (append_assoc pre (0 ∷ []) (replicate k 0)), small)
byte_bits-with_bit true pre k current small size bits =
    let at : length pre < 8 = omega (arith, size) in
    (
      byte_bits-set current (length pre) small at
          ∙ ap (λ l. set l (length pre) 1) bits
          ∙ ap (λ i. set (pre ++ (0 ∷ replicate k 0)) i 1) (omega arith)
          ∙ set-append pre (0 ∷ replicate k 0) 0 1
          ∙ sym (append_assoc pre (1 ∷ []) (replicate k 0)),
      mask_byte current (length pre) small at,
    )

-- The bits that are left of the last byte are zeros.
pack_from-stream :
    (bitcells : List Bool) (pre : List ℕ) (k current : ℕ)
    → current < 256
    → length pre + suc k ≡ 8
    → byte_bits current ≡ pre ++ (0 ∷ replicate k 0)
    → (n : ℕ) × (n < 8)
      × (stream (pack_from current (length pre) bitcells)
          ≡ (pre ++ map half bitcells) ++ replicate n 0)
unfolding pack_from
pack_from-stream [] [] k current small size bits = (0, omega arith, refl)
pack_from-stream [] (p ∷ pre) k current small size bits = (
  suc k,
  omega (arith, size),
  rw (ltb_of_lt 0 (length (p ∷ pre)) (omega arith)) (
      append-nil (byte_bits current)
      ∙ bits
      ∙ ap (λ l. l ++ (0 ∷ replicate k 0)) (sym (append-nil (p ∷ pre)))),
)
pack_from-stream (bit ∷ bitcells) pre zero current small size bits =
    let (later, byte) = byte_bits-with_bit bit pre 0 current small size bits in
    let full : (length pre + 1 == 8) ≡ true = ground (arith, size) in
    let (n, few, rest) = pack_from-stream bitcells [] 7 0 (omega arith) refl refl in
    (
      n,
      few,
      rw (full, pack_from)
          (ap₂ (◌++◌) (later ∙ append-nil (pre ++ (half bit ∷ []))) rest
            ∙ sym (append_assoc (pre ++ (half bit ∷ [])) (map half bitcells) (replicate n 0))
            ∙ ap (λ l. l ++ replicate n 0) (append_assoc pre (half bit ∷ []) (map half bitcells))),
    )
pack_from-stream (bit ∷ bitcells) pre (suc k) current small size bits =
    let (later, byte) = byte_bits-with_bit bit pre (suc k) current small size bits in
    let open' : (length pre + 1 == 8) ≡ false = ground (arith, size) in
    let count : length (pre ++ (half bit ∷ [])) ≡ length pre + 1 =
      omega (arith, length-append pre (half bit ∷ [])) in
    let (n, few, rest) =
      pack_from-stream bitcells (pre ++ (half bit ∷ [])) k (with_bit bit (length pre) current) byte
        (omega (arith, count, size)) later in
    (
      n,
      few,
      rw (open', pack_from)
          (ap (λ c. stream (pack_from (with_bit bit (length pre) current) c bitcells)) (sym count)
            ∙ rest
            ∙ ap (λ l. l ++ replicate n 0) (append_assoc pre (half bit ∷ []) (map half bitcells))),
    )

-- The bits of the bytes that decodeFluxToMFM packs bitcells to are the bitcells, followed by fewer
-- than eight zeros.
pub pack-stream :
    (bitcells : List Bool)
    → (n : ℕ) × (n < 8) × (stream (pack bitcells) ≡ map half bitcells ++ replicate n 0)
unfolding pack
pack-stream bitcells = pack_from-stream bitcells [] 7 0 (omega arith) refl refl
