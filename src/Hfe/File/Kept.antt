-- ===== src/Hfe/File/Kept.antt =====
-- What hfe/read.go gives back of one track of hfe/write.go, in each version.
use fdx.Prelude.{ℕ, ◌-◌, ◌*◌, ◌/◌, ◌≤◌, ◌≡◌, refl, ap, ap₂, ◌∙◌, arith}
use fdx.Prelude.{true, false, if◌then◌else◌, ltb, Bool-cases, inl, inr, All, IsByte, some}
use fdx.Prelude.{List, [], ◌++◌, length, replicate}
use fdx.Hfe.Disk.{TrackData}
use fdx.Hfe.Blocks.{header_for, write_track, read_raw_track, track_read}
use fdx.Hfe.Blocks.RoundTrip.{read-write_padded, padded_fits, header_for-lem}
use fdx.Hfe.File.Opcodes.{encode_opcodes}
use fdx.Hfe.File.Escapes.{
  IsStorable, process-encode_opcodes, length-encode_opcodes, All-IsByte-encode_opcodes,
}
use fdx.Hfe.File.Write.{stored_side, stored_track}
use fdx.Hfe.File.Read.{read_track, processed_side, processed_track}
use fdx.Hfe.File.Tracks.{IsShort}

-- Both sides are bytes that have one encoding, no more than 32512 each.
pub record IsStorableTrack (t : TrackData) : Type 0 where
  pub storable0 : All IsStorable t.side0
  pub storable1 : All IsStorable t.side1
  pub few0 : length t.side0 ≤ 32512
  pub few1 : length t.side1 ≤ 32512

-- The bytes of a side of a version 1 file.
abbrev pub side_len : ℕ → TrackData → ℕ
side_len sides t = let s = stored_track 1 sides t in (header_for 0 s.side0 s.side1).track_len / 2

-- A track of a version 1 file: the sides are filled with 0xff.
abbrev pub filled_track : ℕ → TrackData → TrackData
filled_track sides t = record {
  side0 = t.side0 ++ replicate (side_len sides t - length t.side0) 0xff;
  side1 = if ltb 1 sides then t.side1 ++ replicate (side_len sides t - length t.side1) 0xff else [];
}

-- A track of a version 3 file.
abbrev pub same_track : ℕ → TrackData → TrackData
same_track sides t = record { side0 = t.side0; side1 = if ltb 1 sides then t.side1 else [] }

pub stored_track1-IsShort :
    (sides : ℕ) (t : TrackData) → IsShort t → IsShort (stored_track 1 sides t)
unfolding stored_track stored_side
stored_track1-IsShort sides t h = elim (Bool-cases (ltb 1 sides)) [
  | inl two ↦
      rw two (record { bytes0 = h.bytes0; bytes1 = h.bytes1; short0 = h.short0; short1 = h.short1 })
  | inr one ↦
      rw one (record { bytes0 = h.bytes0; bytes1 = h.bytes0; short0 = h.short0; short1 = h.short0 })
]

pub stored_track3-IsShort :
    (sides : ℕ) (t : TrackData) → IsStorableTrack t → IsShort (stored_track 3 sides t)
unfolding stored_track stored_side
stored_track3-IsShort sides t h =
    let b0 = All-IsByte-encode_opcodes t.side0 h.storable0 in
    let b1 = All-IsByte-encode_opcodes t.side1 h.storable1 in
    let n0 : length (encode_opcodes t.side0) ≤ 32512 =
      omega (arith, length-encode_opcodes t.side0, h.few0) in
    let n1 : length (encode_opcodes t.side1) ≤ 32512 =
      omega (arith, length-encode_opcodes t.side1, h.few1) in
    elim (Bool-cases (ltb 1 sides)) [
      | inl two ↦ rw two (record { bytes0 = b0; bytes1 = b1; short0 = n0; short1 = n1 })
      | inr one ↦ rw one (record { bytes0 = b0; bytes1 = b0; short0 = n0; short1 = n0 })
    ]

-- What is read of a track before the opcodes are processed.
read-stored :
    (v pos sides : ℕ) (s : TrackData) (before behind : List ℕ)
    → IsByte v
    → IsShort s
    → length before ≡ pos * 512
    → (let n = (header_for pos s.side0 s.side1).track_len / 2 in
        read_raw_track
          (before
            ++ (write_track v (header_for pos s.side0 s.side1) s.side0 s.side1 sides ++ behind))
          (header_for pos s.side0 s.side1)
          sides
        ≡ track_read (record {
          side0 = s.side0 ++ replicate (n - length s.side0) v;
          side1 = if ltb 1 sides then s.side1 ++ replicate (n - length s.side1) v else [];
        }))
read-stored v pos sides s before behind hv h at =
    let th = header_for pos s.side0 s.side1 in
    let (whole, fits0, fits1) = header_for-lem pos s.side0 s.side1 h.short0 h.short1 in
    let at' : length before ≡ th.offset * 512 = unfold header_for in at in
    read-write_padded v before behind s.side0 s.side1 th sides hv h.bytes0 h.bytes1 at' whole
    ∙ ap₂ (λ a b. track_read (record { side0 = a; side1 = if ltb 1 sides then b else [] }))
        (padded_fits (th.track_len / 2) v s.side0 fits0)
        (padded_fits (th.track_len / 2) v s.side1 fits1)

-- The filled sides, in terms of the stored track.
filled_stored :
    (sides : ℕ) (t : TrackData)
    → (let s = stored_track 1 sides t in
        let read : TrackData = record {
          side0 = s.side0 ++ replicate (side_len sides t - length s.side0) 0xff;
          side1 =
              if ltb 1 sides
              then s.side1 ++ replicate (side_len sides t - length s.side1) 0xff
              else [];
        } in
        read ≡ filled_track sides t)
unfolding stored_track stored_side
filled_stored sides t = elim (Bool-cases (ltb 1 sides)) [
  | inl two ↦ rw two refl
  | inr one ↦ rw one refl
]

pub read_track-version1 :
    (sides : ℕ) (t : TrackData) (pos : ℕ) (before behind : List ℕ)
    → IsShort t
    → length before ≡ pos * 512
    → (let s = stored_track 1 sides t in
        read_track false
          (before
            ++ (write_track 0xff (header_for pos s.side0 s.side1) s.side0 s.side1 sides ++ behind))
          (header_for pos s.side0 s.side1)
          sides
        ≡ track_read (filled_track sides t))
unfolding read_track header_for
read_track-version1 sides t pos before behind h at =
    let s = stored_track 1 sides t in
    let raw =
      read-stored 0xff pos sides s before behind (omega arith) (stored_track1-IsShort sides t h)
        at in
    rw (raw, read_track) (ap track_read (filled_stored sides t))

processed_side-encoded :
    (side : List ℕ) (k : ℕ)
    → All IsStorable side
    → processed_side (encode_opcodes side ++ replicate k 0xf0) ≡ some side
unfolding processed_side
processed_side-encoded side k h = rw (process-encode_opcodes side k h, processed_side) refl

-- The opcodes of a stored track.
processed_track-stored :
    (sides k0 k1 : ℕ) (t : TrackData)
    → IsStorableTrack t
    → processed_track sides (record {
      side0 = encode_opcodes t.side0 ++ replicate k0 0xf0;
      side1 = if ltb 1 sides then encode_opcodes t.side1 ++ replicate k1 0xf0 else [];
    })
      ≡ track_read (same_track sides t)
unfolding processed_track
processed_track-stored sides k0 k1 t h =
    rw (processed_side-encoded t.side0 k0 h.storable0, processed_track)
      (elim (Bool-cases (ltb 1 sides)) [
        | inl two ↦
            rw two
              (rw two (rw (processed_side-encoded t.side1 k1 h.storable1, processed_track) refl))
        | inr one ↦ rw (one, processed_track) refl
      ])

encoded_stored :
    (sides k0 k1 : ℕ) (t : TrackData)
    → (let s = stored_track 3 sides t in
        let read : TrackData = record {
          side0 = s.side0 ++ replicate k0 0xf0;
          side1 = if ltb 1 sides then s.side1 ++ replicate k1 0xf0 else [];
        } in
        read ≡ record {
          side0 = encode_opcodes t.side0 ++ replicate k0 0xf0;
          side1 = if ltb 1 sides then encode_opcodes t.side1 ++ replicate k1 0xf0 else [];
        })
unfolding stored_track stored_side
encoded_stored sides k0 k1 t = elim (Bool-cases (ltb 1 sides)) [
  | inl two ↦ rw two refl
  | inr one ↦ rw one refl
]

pub read_track-version3 :
    (sides : ℕ) (t : TrackData) (pos : ℕ) (before behind : List ℕ)
    → IsStorableTrack t
    → length before ≡ pos * 512
    → (let s = stored_track 3 sides t in
        read_track true
          (before
            ++ (write_track 0xf0 (header_for pos s.side0 s.side1) s.side0 s.side1 sides ++ behind))
          (header_for pos s.side0 s.side1)
          sides
        ≡ track_read (same_track sides t))
unfolding read_track
read_track-version3 sides t pos before behind h at =
    let s = stored_track 3 sides t in
    let n = (header_for pos s.side0 s.side1).track_len / 2 in
    let raw =
      read-stored 0xf0 pos sides s before behind (omega arith) (stored_track3-IsShort sides t h)
        at in
    rw (raw, read_track)
      (ap (processed_track sides) (encoded_stored sides (n - length s.side0) (n - length s.side1) t)
        ∙ processed_track-stored sides (n - length s.side0) (n - length s.side1) t h)
