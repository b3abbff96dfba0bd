-- ===== src/Kryoflux/Pulses.antt =====
-- The end of a stream and its index pulses, as kryoflux/read.go finds them in a stream of blocks.
use fdx.Prelude.{
  ℕ, zero, suc, ◌+◌, ◌≤◌, ◌≢◌, ◌≡◌, refl, ap, ap₂, sym, ◌∙◌, arith, true, false, leb, ltb, ◌==◌,
  ==_of_ne, Bool-cases, inl, inr,
}
use fdx.Prelude.{List, [], ◌∷◌, ◌++◌, length, drop, All, append_assoc, append-nil, length-append}
use fdx.Kryoflux.Stream.{
  IndexTiming, oob_size, dword, block_rest, read_oob, oob_block, find_end_from, find_end_of_stream,
  index_pulse, pulses_from, decode_pulses,
}
use fdx.Kryoflux.Blocks.{
  Block, value1, value2, value3, nop1, nop2, nop3, overflow16, oob, IsBlock, first_byte,
  other_bytes, stream_bytes, pulses,
}

-- The first byte of a block that is not out of band says how many follow.
pub block_rest-value1 : (v : ℕ) → 0x0e ≤ v → ((v == 0x0d) ≡ false) × (block_rest v ≡ 0)
unfolding block_rest
block_rest-value1 v h = (ground arith, ground arith)

pub block_rest-value2 : (v : ℕ) → v ≤ 7 → ((v == 0x0d) ≡ false) × (block_rest v ≡ 1)
unfolding block_rest
block_rest-value2 v h = (ground arith, ground arith)

pub read_oob-block :
    (kind low high : ℕ) (body rest : List ℕ)
    → kind ≢ 0x0d
    → length body ≡ oob_size low high
    → read_oob (kind ∷ low ∷ high ∷ (body ++ rest))
      ≡ oob_block kind (oob_size low high) (body ++ rest)
unfolding read_oob
read_oob-block kind low high body rest other size =
    let enough : ltb (length (body ++ rest)) (oob_size low high) ≡ false =
      ground (arith, length-append body rest) in
    rw (==_of_ne kind 0x0d other) (rw enough refl)

find_end_from-skip :
    (xs rest : List ℕ) → find_end_from (length xs) (xs ++ rest) ≡ find_end_from 0 rest
unfolding find_end_from
find_end_from-skip [] rest = refl
find_end_from-skip (x ∷ xs) rest = find_end_from-skip xs rest

find_end_from-plain :
    (val : ℕ) (others rest : List ℕ)
    → ((val == 0x0d) ≡ false) × (block_rest val ≡ length others)
    → find_end_from 0 (val ∷ (others ++ rest)) ≡ find_end_from 0 rest
unfolding find_end_from
find_end_from-plain val others rest (plain, size) =
    rw (plain, find_end_from) (rw size (find_end_from-skip others rest))

find_end_from-oob :
    (kind low high : ℕ) (body rest : List ℕ)
    → kind ≢ 0x0d
    → length body ≡ oob_size low high
    → find_end_from 0 (0x0d ∷ kind ∷ low ∷ high ∷ (body ++ rest)) ≡ find_end_from 0 rest
unfolding find_end_from
find_end_from-oob kind low high body rest other size =
    let three : 3 + oob_size low high ≡ length (kind ∷ low ∷ high ∷ body) = omega (arith, size) in
    rw (read_oob-block kind low high body rest other size, find_end_from)
      (ap (λ n. find_end_from n (kind ∷ low ∷ high ∷ (body ++ rest))) three
        ∙ find_end_from-skip (kind ∷ low ∷ high ∷ body) rest)

find_end_from-block :
    (b : Block) (rest : List ℕ)
    → IsBlock b
    → find_end_from 0 (first_byte b ∷ (other_bytes b ++ rest)) ≡ find_end_from 0 rest
find_end_from-block (value1 v) rest h = find_end_from-plain v [] rest (block_rest-value1 v h)
find_end_from-block (value2 high low) rest h =
    find_end_from-plain high (low ∷ []) rest (block_rest-value2 high h)
find_end_from-block (value3 high low) rest h =
    find_end_from-plain 0x0c (high ∷ low ∷ []) rest (refl, unfold block_rest in refl)
find_end_from-block nop1 rest h = find_end_from-plain 0x08 [] rest (refl, unfold block_rest in refl)
find_end_from-block (nop2 a) rest h =
    find_end_from-plain 0x09 (a ∷ []) rest (refl, unfold block_rest in refl)
find_end_from-block (nop3 a b) rest h =
    find_end_from-plain 0x0a (a ∷ b ∷ []) rest (refl, unfold block_rest in refl)
find_end_from-block overflow16 rest h =
    find_end_from-plain 0x0b [] rest (refl, unfold block_rest in refl)
find_end_from-block (oob kind low high body) rest h =
    find_end_from-oob kind low high body rest h.0 h.1

find_end_from-blocks :
    (bs : List Block) (rest : List ℕ)
    → All IsBlock bs
    → find_end_from 0 (stream_bytes bs ++ rest) ≡ find_end_from 0 rest
unfolding stream_bytes
find_end_from-blocks [] rest h = refl
find_end_from-blocks (b ∷ bs) rest h =
    ap (λ l. find_end_from 0 (first_byte b ∷ l))
      (append_assoc (other_bytes b) (stream_bytes bs) rest)
    ∙ find_end_from-block b (stream_bytes bs ++ rest) h.0
    ∙ find_end_from-blocks bs rest h.1

-- findEndOfStream of whole blocks is false, and with an end marker and anything behind them it is
-- true.
pub find_end_of_stream-blocks :
    (bs : List Block) (a b : ℕ) (rest : List ℕ)
    → All IsBlock bs
    → (find_end_of_stream (stream_bytes bs) ≡ false)
      × (find_end_of_stream (stream_bytes bs ++ (0x0d ∷ 0x0d ∷ a ∷ b ∷ rest)) ≡ true)
unfolding find_end_of_stream find_end_from read_oob
find_end_of_stream-blocks bs a b rest h = (
  ap (find_end_from 0) (sym (append-nil (stream_bytes bs))) ∙ find_end_from-blocks bs [] h,
  find_end_from-blocks bs (0x0d ∷ 0x0d ∷ a ∷ b ∷ rest) h,
)

pulses_from-skip : (xs rest : List ℕ) → pulses_from (length xs) (xs ++ rest) ≡ pulses_from 0 rest
unfolding pulses_from
pulses_from-skip [] rest = refl
pulses_from-skip (x ∷ xs) rest = pulses_from-skip xs rest

pulses_from-plain :
    (val : ℕ) (others rest : List ℕ)
    → ((val == 0x0d) ≡ false) × (block_rest val ≡ length others)
    → pulses_from 0 (val ∷ (others ++ rest)) ≡ pulses_from 0 rest
unfolding pulses_from
pulses_from-plain val others rest (plain, size) =
    rw (plain, pulses_from) (rw size (pulses_from-skip others rest))

-- The numbers of an index block lie in its data.
dword-drop :
    (k : ℕ) (body rest : List ℕ)
    → k + 4 ≤ length body
    → dword (drop k (body ++ rest)) ≡ dword (drop k body)
unfolding dword
dword-drop zero (a ∷ b ∷ c ∷ d ∷ body) rest h = refl
dword-drop zero (a ∷ b ∷ c ∷ []) rest h = omega (arith, h)
dword-drop zero (a ∷ b ∷ []) rest h = omega (arith, h)
dword-drop zero (a ∷ []) rest h = omega (arith, h)
dword-drop zero [] rest h = omega (arith, h)
dword-drop (suc k) [] rest h = omega (arith, h)
dword-drop (suc k) (a ∷ body) rest h = dword-drop k body rest (omega (arith, h))

index_pulse-append :
    (kind : ℕ) (body rest : List ℕ) (later : List IndexTiming)
    → index_pulse kind (length body) (body ++ rest) later
      ≡ index_pulse kind (length body) body later
unfolding index_pulse
index_pulse-append kind body rest later = elim (Bool-cases (leb 12 (length body))) [
  | inl enough ↦
      let n : 12 ≤ length body = ground arith in
      rw
        (
          dword-drop 0 body rest (omega (arith, n)),
          dword-drop 4 body rest (omega (arith, n)),
          dword-drop 8 body rest (omega (arith, n)),
        )
        refl
  | inr few ↦
      rw few
        (elim (Bool-cases (kind == 0x02)) [ inl index ↦ rw index refl | inr other ↦ rw other refl ])
]

pulses_from-oob :
    (kind low high : ℕ) (body rest : List ℕ)
    → kind ≢ 0x0d
    → length body ≡ oob_size low high
    → pulses_from 0 (0x0d ∷ kind ∷ low ∷ high ∷ (body ++ rest))
      ≡ index_pulse kind (length body) body (pulses_from 0 rest)
unfolding pulses_from
pulses_from-oob kind low high body rest other size =
    let three : 3 + oob_size low high ≡ length (kind ∷ low ∷ high ∷ body) = omega (arith, size) in
    rw (read_oob-block kind low high body rest other size, pulses_from)
      (ap
          (λ n.
            index_pulse kind (oob_size low high) (body ++ rest)
              (pulses_from n (kind ∷ low ∷ high ∷ (body ++ rest))))
          three
        ∙ ap₂ (λ n. index_pulse kind n (body ++ rest)) (sym size)
            (pulses_from-skip (kind ∷ low ∷ high ∷ body) rest)
        ∙ index_pulse-append kind body rest (pulses_from 0 rest))

pulses_from-block :
    (b : Block) (bs : List Block) (rest : List ℕ)
    → IsBlock b
    → pulses_from 0 rest ≡ pulses bs
    → pulses_from 0 (first_byte b ∷ (other_bytes b ++ rest)) ≡ pulses (b ∷ bs)
unfolding pulses
pulses_from-block (value1 v) bs rest h later =
    pulses_from-plain v [] rest (block_rest-value1 v h) ∙ later
pulses_from-block (value2 high low) bs rest h later =
    pulses_from-plain high (low ∷ []) rest (block_rest-value2 high h) ∙ later
pulses_from-block (value3 high low) bs rest h later =
    pulses_from-plain 0x0c (high ∷ low ∷ []) rest (refl, unfold block_rest in refl) ∙ later
pulses_from-block nop1 bs rest h later =
    pulses_from-plain 0x08 [] rest (refl, unfold block_rest in refl) ∙ later
pulses_from-block (nop2 a) bs rest h later =
    pulses_from-plain 0x09 (a ∷ []) rest (refl, unfold block_rest in refl) ∙ later
pulses_from-block (nop3 a b) bs rest h later =
    pulses_from-plain 0x0a (a ∷ b ∷ []) rest (refl, unfold block_rest in refl) ∙ later
pulses_from-block overflow16 bs rest h later =
    pulses_from-plain 0x0b [] rest (refl, unfold block_rest in refl) ∙ later
pulses_from-block (oob kind low high body) bs rest h later =
    pulses_from-oob kind low high body rest h.0 h.1
    ∙ ap (index_pulse kind (length body) body) later
    ∙ (unfold index_pulse in refl)

pulses_from-blocks :
    (bs : List Block) (rest : List ℕ)
    → All IsBlock bs
    → pulses_from 0 rest ≡ []
    → pulses_from 0 (stream_bytes bs ++ rest) ≡ pulses bs
unfolding stream_bytes pulses
pulses_from-blocks [] rest h none = none
pulses_from-blocks (b ∷ bs) rest h none =
    ap (λ l. pulses_from 0 (first_byte b ∷ l)) (append_assoc (other_bytes b) (stream_bytes bs) rest)
    ∙ pulses_from-block b bs (stream_bytes bs ++ rest) h.0 (pulses_from-blocks bs rest h.1 none)

-- Up to the end marker.
pub decode_pulses-blocks :
    (bs : List Block) (a b : ℕ) (rest : List ℕ)
    → All IsBlock bs
    → decode_pulses (stream_bytes bs ++ (0x0d ∷ 0x0d ∷ a ∷ b ∷ rest)) ≡ pulses bs
unfolding decode_pulses
decode_pulses-blocks bs a b rest h =
    pulses_from-blocks bs (0x0d ∷ 0x0d ∷ a ∷ b ∷ rest) h (unfold pulses_from read_oob in refl)
