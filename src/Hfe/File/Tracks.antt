-- ===== src/Hfe/File/Tracks.antt =====
-- The tracks of hfe/write.go are read back by hfe/read.go, in the places that the track list gives.
use fdx.Prelude.{ℕ, ◌+◌, ◌*◌, ◌/◌, ◌%◌, ◌≤◌, ◌<◌, ◌≡◌, refl, ap, sym, ◌∙◌, arith}
use fdx.Prelude.{Bool, if◌then◌else◌, ltb, ◌==◌, u16, Bool-cases, inl, inr, All, IsByte}
use fdx.Prelude.{List, [], ◌∷◌, ◌++◌, length, map, replicate, append_assoc, length-append}
use fdx.Hfe.Disk.{TrackData}
use fdx.Hfe.Blocks.{
  TrackHeader, padded, header_for, write_track, write_raw_track, write_encoded_track, track_read,
  block_len, longer,
}
use fdx.Hfe.Blocks.{interleave}
use fdx.Hfe.Blocks.Sides.{length-padded, length-interleave}
use fdx.Prelude.{length-replicate}
use fdx.Hfe.Blocks.RoundTrip.{header_for-lem}
use fdx.Hfe.File.Write.{stored_track, track_headers, write_tracks, hfe_version3}
use fdx.Hfe.File.Read.{read_track, read_tracks, hfe_loaded}

-- Both sides are bytes, no more than 32512 each.
pub record IsShort (t : TrackData) : Type 0 where
  pub bytes0 : All IsByte t.side0
  pub bytes1 : All IsByte t.side1
  pub short0 : length t.side0 ≤ 32512
  pub short1 : length t.side1 ≤ 32512

-- The padding and the fate of a track in a file of a version.
abbrev pub filler : ℕ → ℕ
filler version = if version == hfe_version3 then 0xf0 else 0xff

write_one :
    (version sides : ℕ) (th : TrackHeader) (t : TrackData)
    → (if version == hfe_version3
        then write_encoded_track th t.side0 t.side1 sides
        else write_raw_track th t.side0 t.side1 sides)
      ≡ write_track (filler version) th t.side0 t.side1 sides
unfolding write_encoded_track write_raw_track
write_one version sides th t = elim (Bool-cases (version == hfe_version3)) [
  | inl e ↦ rw e refl
  | inr e ↦ rw e refl
]

length-write_track :
    (v : ℕ) (th : TrackHeader) (side0 side1 : List ℕ) (sides : ℕ)
    → th.track_len % 512 ≡ 0
    → length (write_track v th side0 side1 sides) ≡ th.track_len
unfolding write_track
length-write_track v th side0 side1 sides whole =
    let n = th.track_len in
    let s0 = padded (n / 2) v side0 in
    let s1 = if ltb 1 sides then padded (n / 2) v side1 else s0 in
    let k0 : length s0 ≡ 256 * (n / 512) = omega (arith, length-padded (n / 2) v side0) in
    let k1 : length s1 ≡ 256 * (n / 512) = elim (Bool-cases (ltb 1 sides)) [
      | inl e ↦ rw e (omega (arith, length-padded (n / 2) v side1))
      | inr e ↦ rw e k0
    ] in
    omega (
      arith,
      length-append (interleave (n / 512) s0 s1) (replicate (n % 512) 0),
      length-interleave (n / 512) s0 s1 k0 k1,
      length-replicate {A = ℕ} (n % 512) 0,
    )

-- How far a track reaches: no more than 127 blocks.
header_for-blocks :
    (pos : ℕ) (side0 side1 : List ℕ)
    → length side0 ≤ 32512
    → length side1 ≤ 32512
    → ((header_for pos side0 side1).track_len ≡ block_len (longer side0 side1 * 2) / 512 * 512)
      × (block_len (longer side0 side1 * 2) / 512 ≤ 127)
unfolding header_for longer block_len
header_for-blocks pos side0 side1 h0 h1 = (ground arith, ground arith)

read_tracks-cons :
    (with_opcodes : Bool) (file : List ℕ) (sides i : ℕ) (th : TrackHeader) (ths : List TrackHeader)
    (t : TrackData) (ts : List TrackData)
    → read_track with_opcodes file th sides ≡ track_read t
    → read_tracks with_opcodes file sides (i + 1) ths ≡ hfe_loaded ts
    → read_tracks with_opcodes file sides i (th ∷ ths) ≡ hfe_loaded (t ∷ ts)
unfolding read_tracks
read_tracks-cons with_opcodes file sides i th ths t ts first others =
    rw (first, read_tracks) (rw (others, read_tracks) refl)

-- The next track begins where this one ends.
next_pos : (pos n : ℕ) → n ≤ 127 → pos + 127 < 65536 → u16 (pos + u16 n) ≡ pos + n
next_pos pos n h room = omega arith

module _ (version sides : ℕ) (with_opcodes : Bool) (keep : TrackData → TrackData)
    (IsGood : TrackData → Type 0)
    (short : (t : TrackData) → IsGood t → IsShort (stored_track version sides t))
    (reads : (t : TrackData) (pos : ℕ) (before behind : List ℕ)
      → IsGood t
      → length before ≡ pos * 512
      → (let s = stored_track version sides t in
          read_track with_opcodes
            (before
              ++ (write_track
                    (filler version)
                    (header_for pos s.side0 s.side1)
                    s.side0
                    s.side1
                    sides
                  ++ behind))
            (header_for pos s.side0 s.side1)
            sides)
        ≡ track_read (keep t)) where
  pub read_tracks-written :
      (ts : List TrackData) (pos i : ℕ) (before : List ℕ)
      → All IsGood ts
      → length before ≡ pos * 512
      → pos + 127 * length ts < 65536
      → (let stored = map (stored_track version sides) ts in
          read_tracks with_opcodes
            (before ++ write_tracks version sides (track_headers pos stored) stored)
            sides
            i
            (track_headers pos stored))
        ≡ hfe_loaded (map keep ts)
  unfolding read_tracks track_headers write_tracks
  read_tracks-written [] pos i before h at room = refl
  read_tracks-written (t ∷ ts) pos i before h at room =
      let s = stored_track version sides t in
      let th = header_for pos s.side0 s.side1 in
      let one = write_track (filler version) th s.side0 s.side1 sides in
      let stored = map (stored_track version sides) ts in
      let blocks = block_len (longer s.side0 s.side1 * 2) / 512 in
      let ths = track_headers (u16 (pos + u16 blocks)) stored in
      let behind = write_tracks version sides ths stored in
      let fits = short t h.0 in
      let (exact, few) = header_for-blocks pos s.side0 s.side1 fits.short0 fits.short1 in
      let (whole, fits0, fits1) = header_for-lem pos s.side0 s.side1 fits.short0 fits.short1 in
      let next : u16 (pos + u16 blocks) ≡ pos + blocks = next_pos pos blocks few (omega arith) in
      let size : length (before ++ one) ≡ (pos + blocks) * 512 = omega (
        arith,
        length-append before one,
        length-write_track (filler version) th s.side0 s.side1 sides whole,
        exact,
      ) in
      let others : read_tracks with_opcodes (before ++ (one ++ behind)) sides (i + 1) ths
          ≡ hfe_loaded (map keep ts) =
        ap (λ f. read_tracks with_opcodes f sides (i + 1) ths)
          (sym (append_assoc before one behind))
        ∙ ap
            (λ p.
              read_tracks with_opcodes
                ((before ++ one) ++ write_tracks version sides (track_headers p stored) stored)
                sides (i + 1) (track_headers p stored))
            next
        ∙ read_tracks-written ts (pos + blocks) (i + 1) (before ++ one) h.1 size (omega arith) in
      ap (λ w. read_tracks with_opcodes (before ++ (w ++ behind)) sides i (th ∷ ths))
        (write_one version sides th s)
      ∙ read_tracks-cons with_opcodes (before ++ (one ++ behind)) sides i th ths (keep t)
          (map keep ts) (reads t pos before behind h.0 at) others
