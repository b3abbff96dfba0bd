-- ===== src/Mfm/Amiga.antt =====
-- The Amiga layout of mfm/writer.go and its readers in mfm/reader.go.
pub mod Ends
pub mod Length
use fdx.Prelude.{
  ℕ, zero, suc, ◌+◌, ◌-◌, ◌*◌, ◌/◌, ◌%◌, ◌^◌, bit_or, bit_xor, bit_and, Bool, true, false, not,
  if◌then◌else◌,
}
use fdx.Prelude.{ltb, leb, ◌==◌, u8, u16, u32, ◌<<<◌, ◌>>>◌, Option, none, some}
use fdx.Prelude.{List, [], ◌∷◌, ◌++◌, length, get_elem?}
use fdx.Mfm.Writer.{Writer, write_byte, write_bytes, write_gap, write_a1, write_fill, get_data}
use fdx.Mfm.Reader.{
  Reader, Read, M, got, failed, stuck, ◌>>=◌, attempt, pure, read_half_bit, read_byte, fuel_for,
}
use fdx.Mfm.Reader.{insert}

-- The odd and the even bits of a word, `n` of each still to come.
unfoldable pub shuffle_from : ℕ → ℕ → ℕ → ℕ → ℕ × ℕ
shuffle_from zero word odd even = (odd, even)
shuffle_from (suc n) word odd even =
    shuffle_from n (u32 (word <<< 2)) (bit_or (u16 (odd <<< 1)) ((word >>> 31) % 2))
      (bit_or (u16 (even <<< 1)) ((word >>> 30) % 2))

unfoldable pub shuffle : ℕ → ℕ × ℕ
shuffle word = shuffle_from 16 word 0 0

unfoldable pub unshuffle_from : ℕ → ℕ → ℕ → ℕ → ℕ
unshuffle_from zero odd even word = word
unshuffle_from (suc n) odd even word =
    unshuffle_from n (u16 (odd <<< 1)) (u16 (even <<< 1))
      (bit_or (bit_or (u32 (word <<< 2)) ((even >>> 15) % 2)) (bit_and (odd >>> 14) 2))

unfoldable pub unshuffle : ℕ → ℕ → ℕ
unshuffle odd even = unshuffle_from 16 odd even 0

unfoldable pub write_marker_amiga : Writer → Writer
write_marker_amiga w = write_a1 (write_a1 (write_byte 0 (write_byte 0 w)))

unfoldable pub word_of : ℕ → ℕ → ℕ → ℕ → ℕ
word_of a b c d = bit_or (bit_or (bit_or (u32 (a <<< 24)) (u32 (b <<< 16))) (u32 (c <<< 8))) (u32 d)

unfoldable pub write_half : ℕ → Writer → Writer
write_half half w = write_byte (u8 half) (write_byte (u8 (half >>> 8)) w)

unfoldable pub write_word : ℕ → Writer → Writer
write_word word w =
    write_byte (u8 word) (
      write_byte (u8 (word >>> 8))
        (write_byte (u8 (word >>> 16)) (write_byte (u8 (word >>> 24)) w)))

-- The sectors of a track are numbered 0 to 10, so that `11 - sector` does not go below 0.
unfoldable pub write_ident_amiga : ℕ → ℕ → Writer → Writer
write_ident_amiga track sector w =
    let (odd, even) = shuffle (word_of 0xff track sector (11 - sector)) in
    write_word (bit_xor odd even) (write_gap 16 0 (write_half even (write_half odd w)))

-- The shuffled words of the data; bytes that make no whole word are not looked at.
unfoldable pub shuffled : List ℕ → List (ℕ × ℕ)
shuffled (a ∷ b ∷ c ∷ d ∷ bytes) = shuffle (word_of a b c d) ∷ shuffled bytes
shuffled bytes = []

unfoldable pub sum_amiga : List (ℕ × ℕ) → ℕ → ℕ
sum_amiga [] sum = sum
sum_amiga ((odd, even) ∷ ws) sum = sum_amiga ws (bit_xor sum (bit_xor odd even))

unfoldable pub write_odds : List (ℕ × ℕ) → Writer → Writer
write_odds [] w = w
write_odds ((odd, even) ∷ ws) w = write_odds ws (write_half odd w)

unfoldable pub write_evens : List (ℕ × ℕ) → Writer → Writer
write_evens [] w = w
write_evens ((odd, even) ∷ ws) w = write_evens ws (write_half even w)

-- `none` is the panic on a buffer of another size.
unfoldable pub write_sector_amiga : List ℕ → Writer → Option Writer
write_sector_amiga bytes w =
    if not (length bytes == 512)
    then none
    else let ws = shuffled bytes in
      some (write_evens ws (write_odds ws (write_word (sum_amiga ws 0) w)))

-- `n` sectors from `s` on; `none` is a panic.
unfoldable pub write_sectors_amiga : ℕ → ℕ → List (List ℕ) → ℕ → Writer → Option Writer
write_sectors_amiga zero s sectors track w = some w
write_sectors_amiga (suc n) s sectors track w = elim (get_elem? sectors s) [
  | none ↦ none
  | some bytes ↦
      elim (write_sector_amiga bytes (write_ident_amiga track s (write_marker_amiga w))) [
        | none ↦ none
        | some w' ↦ write_sectors_amiga n (s + 1) sectors track w'
      ]
]

unfoldable pub encode_track_amiga : List (List ℕ) → ℕ → Writer → Option (List ℕ)
encode_track_amiga sectors track w =
    elim (write_sectors_amiga 11 0 sectors track (write_gap 150 0 w)) [
      | none ↦ none
      | some w' ↦ some (get_data (write_fill 0 w'))
    ]

unfoldable pub scan_amiga_loop : ℕ → ℕ → M ℕ
scan_amiga_loop zero history r = stuck
scan_amiga_loop (suc fuel) history r =
    (do
      bit ← read_half_bit
      let history' = bit_or (u32 (history <<< 1)) bit
      λ r'. elim (history' == 0x4489_4489) [
        | true ↦ got history' r'
        | false ↦ scan_amiga_loop fuel history' r'
      ])
      r

-- The value returned is of no use.
unfoldable pub scan_amiga : M ℕ
scan_amiga r = scan_amiga_loop (fuel_for r) 0 r

unfoldable pub read_half : M ℕ
read_half = do high ← read_byte; low ← read_byte; pure (bit_or (u16 (high <<< 8)) low)

unfoldable pub read_word : M ℕ
read_word = do a ← read_byte; b ← read_byte; c ← read_byte; d ← read_byte; pure (word_of a b c d)

-- The word itself is of no use; the checksum is what is kept.
unfoldable pub read_long : ℕ → M ℕ
read_long sum = do odd ← read_half; even ← read_half; pure (bit_xor sum (bit_xor odd even))

-- The label: `continue` in its loop goes on with the next long.
unfoldable pub read_label : ℕ → ℕ → M ℕ
read_label zero sum r = got sum r
read_label (suc n) sum r =
    attempt (read_long sum) (read_label n sum) (λ sum' r'. read_label n sum' r') r

unfoldable pub read_halves : ℕ → M (List ℕ)
read_halves zero = pure []
read_halves (suc n) = do half ← read_half; halves ← read_halves n; pure (half ∷ halves)

unfoldable pub restored : List ℕ → List ℕ → List ℕ
restored (odd ∷ odds) (even ∷ evens) =
    let word = unshuffle odd even in
    u8 (word >>> 24) ∷ u8 (word >>> 16) ∷ u8 (word >>> 8) ∷ u8 word ∷ restored odds evens
restored odds evens = []

-- The data, into a buffer of 512 bytes; its checksum is compared by the caller to no effect, and is
-- left out.
unfoldable pub read_data_amiga : M (List ℕ)
read_data_amiga = do odds ← read_halves 128; evens ← read_halves 128; pure (restored odds evens)

-- What follows the header checksum: a bad data checksum does not matter.
unfoldable pub read_body_amiga : M (ℕ × List ℕ) → ℕ → M (ℕ × List ℕ)
read_body_amiga again sector =
    attempt read_word again
      (λ data_sum. attempt read_data_amiga again (λ bytes. pure (sector, bytes)))

unfoldable pub read_sector_amiga_round : M (ℕ × List ℕ) → ℕ → M (ℕ × List ℕ)
read_sector_amiga_round again track = do
  mark ← scan_amiga
  attempt read_half again (λ odd. attempt read_half again (λ even r.
      let ident = unshuffle odd even % 2 ^ 24 in
      (read_label 4 (bit_xor odd even) >>= (λ my_sum. attempt read_word again (λ sum r'.
          if not (my_sum == sum)
          then again r'
          else if not (ident >>> 16 == track)
          then again r'
          else read_body_amiga again ((ident >>> 8) % 256) r')))
        r))

unfoldable pub read_sector_amiga_loop : ℕ → ℕ → M (ℕ × List ℕ)
read_sector_amiga_loop zero track r = stuck
read_sector_amiga_loop (suc fuel) track r =
    read_sector_amiga_round (λ r'. read_sector_amiga_loop fuel track r') track r

unfoldable pub read_sector_amiga : ℕ → M (ℕ × List ℕ)
read_sector_amiga track r = read_sector_amiga_loop (fuel_for r) track r

unfoldable pub count_amiga_loop : ℕ → ℕ → List ℕ → M ℕ
count_amiga_loop zero track sectors r = stuck
count_amiga_loop (suc fuel) track sectors r = elim (read_sector_amiga track r) [
  | got s r' ↦
      count_amiga_loop fuel track (if ltb (s.0) 11 then insert (s.0) sectors else sectors) r'
  | failed r' ↦ got (length sectors) r'
  | stuck ↦ stuck
]

unfoldable pub count_sectors_amiga : ℕ → M ℕ
count_sectors_amiga track r = count_amiga_loop (fuel_for r) track [] r
