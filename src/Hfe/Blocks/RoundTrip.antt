-- ===== src/Hfe/Blocks/RoundTrip.antt =====
-- A track that hfe/write.go writes in blocks is read back by hfe/read.go.
use fdx.Prelude.{take_exact, drop_exact}
use fdx.Prelude.{ℕ, ◌-◌, ◌*◌, ◌/◌, ◌%◌, ◌≤◌, ◌≡◌, refl, ap, ap₂, ◌∙◌, arith}
use fdx.Prelude.{false, if◌then◌else◌, ltb, Bool-cases, inl, inr, IsByte, All}
use fdx.Prelude.{List, [], ◌++◌, length, take, drop, replicate, append-nil}
use fdx.Prelude.{take_all}
use fdx.Hfe.Blocks.{
  TrackHeader, padded, interleave, write_track, write_raw_track, block_len, longer, header_for,
}
use fdx.Hfe.Blocks.{read_len, track_read, read_raw_track}
use fdx.Hfe.Blocks.Sides.{length-padded, padded-IsByte, length-interleave, sides_apart}

-- The sides that a track is written with.
abbrev pub first_side : ℕ → TrackHeader → List ℕ → List ℕ
first_side v th side0 = padded (th.track_len / 2) v side0

abbrev pub second_side : ℕ → TrackHeader → List ℕ → List ℕ → ℕ → List ℕ
second_side v th side0 side1 sides =
    if ltb 1 sides then padded (th.track_len / 2) v side1 else first_side v th side0

second_side-lem :
    (v : ℕ) (th : TrackHeader) (side0 side1 : List ℕ) (sides : ℕ)
    → IsByte v
    → All IsByte side0
    → All IsByte side1
    → (length (second_side v th side0 side1 sides) ≡ th.track_len / 2)
      × All IsByte (second_side v th side0 side1 sides)
second_side-lem v th side0 side1 sides hv b0 b1 = elim (Bool-cases (ltb 1 sides)) [
  | inl two ↦
      rw two
        (length-padded (th.track_len / 2) v side1, padded-IsByte (th.track_len / 2) v side1 hv b1)
  | inr one ↦
      rw one
        (length-padded (th.track_len / 2) v side0, padded-IsByte (th.track_len / 2) v side0 hv b0)
]

read_len-whole : (n : ℕ) → n % 512 ≡ 0 → read_len n ≡ n
unfolding read_len
read_len-whole n h = ground arith

-- What is kept of side 1.
second_kept :
    (v : ℕ) (th : TrackHeader) (side0 side1 : List ℕ) (sides : ℕ)
    → (if ltb 1 sides then second_side v th side0 side1 sides else [])
      ≡ (if ltb 1 sides then padded (th.track_len / 2) v side1 else [])
second_kept v th side0 side1 sides = elim (Bool-cases (ltb 1 sides)) [
  | inl two ↦ rw two refl
  | inr one ↦ rw one refl
]

-- A track of whole blocks is read from where it was written, padded with the byte `v`.
pub read-write_padded :
    (v : ℕ) (before behind side0 side1 : List ℕ) (th : TrackHeader) (sides : ℕ)
    → IsByte v
    → All IsByte side0
    → All IsByte side1
    → length before ≡ th.offset * 512
    → th.track_len % 512 ≡ 0
    → read_raw_track (before ++ (write_track v th side0 side1 sides ++ behind)) th sides
      ≡ track_read (record {
        side0 = padded (th.track_len / 2) v side0;
        side1 = if ltb 1 sides then padded (th.track_len / 2) v side1 else [];
      })
unfolding read_raw_track write_track
read-write_padded v before behind side0 side1 th sides hv b0 b1 at whole =
    let n = th.track_len in
    let k = n / 512 in
    let s0 = first_side v th side0 in
    let s1 = second_side v th side0 side1 sides in
    let (len1, bytes1) = second_side-lem v th side0 side1 sides hv b0 b1 in
    let len0 : length s0 ≡ 256 * k = omega (arith, length-padded (n / 2) v side0) in
    let len1' : length s1 ≡ 256 * k = omega arith in
    let blocks = interleave k s0 s1 in
    let written : (blocks ++ replicate (n % 512) 0) ≡ blocks =
      ap (λ m. blocks ++ replicate m 0) whole ∙ append-nil blocks in
    let size : length blocks ≡ n = omega (arith, length-interleave k s0 s1 len0 len1') in
    let buf : take n
          (drop (th.offset * 512) (before ++ ((blocks ++ replicate (n % 512) 0) ++ behind)))
        ≡ blocks =
      ap (take n) (drop_exact (th.offset * 512) before _ at)
      ∙ ap (λ t. take n (t ++ behind)) written
      ∙ take_exact n blocks behind size in
    let (e0, e1) = sides_apart k s0 s1 len0 len1' (padded-IsByte (n / 2) v side0 hv b0) bytes1 in
    let full : ltb (length blocks) n ≡ false = ground arith in
    rw (read_len-whole n whole) (
      rw (buf, full)
        (rw (e0, e1)
          (ap (λ t. track_read (record { side0 = s0; side1 = t }))
            (second_kept v th side0 side1 sides))))

pub padded_fits :
    (n v : ℕ) (side : List ℕ)
    → length side ≤ n
    → padded n v side ≡ side ++ replicate (n - length side) v
unfolding padded
padded_fits n v side h = ap (λ t. t ++ replicate (n - length side) v) (take_all n side h)

-- The list entry of a track whose sides have up to 127 half blocks.
pub header_for-lem :
    (pos : ℕ) (side0 side1 : List ℕ)
    → length side0 ≤ 32512
    → length side1 ≤ 32512
    → ((header_for pos side0 side1).track_len % 512 ≡ 0)
      × (length side0 ≤ (header_for pos side0 side1).track_len / 2)
      × (length side1 ≤ (header_for pos side0 side1).track_len / 2)
unfolding header_for longer block_len
header_for-lem pos side0 side1 h0 h1 = (ground arith, ground arith, ground arith)

-- A track whose sides are bytes, no more than 32512 each, written by writeRawTrack at the block of
-- its list entry, is read back by readTrack of a version 1 file, side 1 where the disk has two
-- sides, each side followed by bytes 0xff only.
pub read-write_track :
    (before behind side0 side1 : List ℕ) (pos sides : ℕ)
    → All IsByte side0
    → All IsByte side1
    → length side0 ≤ 32512
    → length side1 ≤ 32512
    → length before ≡ pos * 512
    → (m n : ℕ) × (read_raw_track
          (before ++ (write_raw_track (header_for pos side0 side1) side0 side1 sides ++ behind))
          (header_for pos side0 side1)
          sides
        ≡ track_read (record {
          side0 = side0 ++ replicate m 0xff;
          side1 = if ltb 1 sides then side1 ++ replicate n 0xff else [];
        }))
unfolding write_raw_track
read-write_track before behind side0 side1 pos sides b0 b1 h0 h1 at =
    let th = header_for pos side0 side1 in
    let (whole, fits0, fits1) = header_for-lem pos side0 side1 h0 h1 in
    let at' : length before ≡ th.offset * 512 = unfold header_for in at in
    (
      th.track_len / 2 - length side0,
      th.track_len / 2 - length side1,
      read-write_padded 0xff before behind side0 side1 th sides (omega arith) b0 b1 at' whole
          ∙ ap₂ (λ s t. track_read (record { side0 = s; side1 = if ltb 1 sides then t else [] }))
              (padded_fits (th.track_len / 2) 0xff side0 fits0)
              (padded_fits (th.track_len / 2) 0xff side1 fits1),
    )
