-- ===== src/Hfe/Img/Disks.antt =====
-- The tracks that `ReadIMG` of hfe/img.go encodes, written back to a file by `WriteIMG`.
use fdx.Prelude.{Bool}
use fdx.Prelude.{
  ℕ, zero, suc, ◌+◌, ◌*◌, ◌≤◌, ◌<◌, ◌≡◌, refl, ap, sym, subst, ◌∙◌, arith, ◌⊎◌, inl, inr,
}
use fdx.Prelude.{some, All, List, [], ◌++◌, length, get_elem?}
use fdx.Mfm.Symbols.Width.{IsSector, track_width}
use fdx.Mfm.Writer.{new_writer, encode_track_ibm_internal}
use fdx.Hfe.Disk.{TrackData}
use fdx.Hfe.Img.{track_sectors, encode_heads, encode_cylinders, set_side, side_of, saved, and_then}
use fdx.Hfe.Img.{write_side, write_heads, write_cylinders}
use fdx.Hfe.Img.Sectors.{joined}
use fdx.Hfe.Img.Slices.{
  joined-slices, track_sectors-all, mul_mono, track_sectors-HasSectors, length-track_sectors,
  no_slice,
}
use fdx.Hfe.Img.Save.{write_side-encoded}

-- The track has the sides that were encoded for it.
abbrev pub HasSides : ℕ → (ℕ → List ℕ) → TrackData → Type 0
HasSides sides side track = (head : ℕ) → head < sides → side_of head track ≡ side head

encode_heads-HasSides :
    (sides : ℕ) (side : ℕ → List ℕ) (track : TrackData)
    → (sides ≡ 1) ⊎ (sides ≡ 2)
    → HasSides sides side (encode_heads sides 0 side track)
unfolding encode_heads set_side side_of
encode_heads-HasSides sides side track (inl e) =
    subst (λ k. HasSides k side (encode_heads k 0 side track)) (sym e) one
  where
    one : HasSides 1 side (encode_heads 1 0 side track)
    one zero h = refl
    one (suc head) h = absurd (omega arith)
encode_heads-HasSides sides side track (inr e) =
    subst (λ k. HasSides k side (encode_heads k 0 side track)) (sym e) two
  where
    two : HasSides 2 side (encode_heads 2 0 side track)
    two zero h = refl
    two (suc zero) h = refl
    two (suc (suc head)) h = absurd (omega arith)

pub encode_cylinders-HasSides :
    (n cyl sides i : ℕ) (side : ℕ → ℕ → List ℕ)
    → (sides ≡ 1) ⊎ (sides ≡ 2)
    → i < n
    → (track : TrackData) × (get_elem? (encode_cylinders n cyl sides side) i ≡ some track)
      × HasSides sides (side (cyl + i)) track
unfolding encode_cylinders
encode_cylinders-HasSides zero cyl sides i side hs hi = absurd (omega arith)
encode_cylinders-HasSides (suc n) cyl sides zero side hs hi =
    let e : cyl ≡ cyl + 0 = omega arith in
    (
      _,
      refl,
      subst
          (λ k.
            HasSides sides (side k)
              (encode_heads sides 0 (side cyl) (record { side0 = []; side1 = [] })))
          e (encode_heads-HasSides sides (side cyl) (record { side0 = []; side1 = [] }) hs),
    )
encode_cylinders-HasSides (suc n) cyl sides (suc i) side hs hi =
    let e : cyl + 1 + i ≡ cyl + suc i = omega arith in
    let (track, found, same) =
      encode_cylinders-HasSides n (cyl + 1) sides i side hs (omega arith) in
    (track, found, subst (λ k. HasSides sides (side k) track) e same)

module _ (ds : List (List ℕ)) (cylinders sides n bit_rate max : ℕ) (skip : Bool)
    (hc : cylinders ≤ 256) (hs : sides ≤ 256) (hn : n < 256) (all : All IsSector ds)
    (count : length ds ≡ cylinders * sides * n) (fits : track_width n bit_rate skip ≤ max) where
  abbrev pub first : ℕ → ℕ → ℕ
  first cyl head = (cyl * sides + head) * n

  abbrev pub encoded : ℕ → ℕ → List ℕ
  encoded cyl head =
      encode_track_ibm_internal (track_sectors n (first cyl head) ds) cyl head n bit_rate skip
        (new_writer max)

  inside : (cyl head : ℕ) → cyl < cylinders → head < sides → first cyl head + n ≤ length ds
  inside cyl head h k =
      let a : (cyl + 1) * sides ≤ cylinders * sides =
        mul_mono (cyl + 1) cylinders sides (omega arith) in
      let b : (cyl * sides + head + 1) * n ≤ cylinders * sides * n =
        mul_mono (cyl * sides + head + 1) (cylinders * sides) n (omega arith) in
      omega arith

  save_side :
      (cyl head : ℕ) (file : List ℕ)
      → cyl < cylinders
      → head < sides
      → write_side n cyl head (encoded cyl head) file
        ≡ saved (file ++ joined (track_sectors n (first cyl head) ds))
  save_side cyl head file h k =
      write_side-encoded (track_sectors n (first cyl head) ds) cyl head n bit_rate max skip file
        (omega arith) (omega arith) hn
        (track_sectors-HasSectors n (first cyl head) ds all (inside cyl head h k))
        (length-track_sectors n (first cyl head) ds) fits

  -- The heads from `head` on.
  save_heads :
      (k cyl head : ℕ) (tracks : List TrackData) (track : TrackData) (file : List ℕ)
      → head + k ≡ sides
      → cyl < cylinders
      → get_elem? tracks cyl ≡ some track
      → HasSides sides (encoded cyl) track
      → write_heads k head n cyl tracks file
        ≡ saved (file ++ joined (track_sectors (k * n) (first cyl head) ds))
  unfolding write_heads
  save_heads zero cyl head tracks track file e h found same =
      ap saved (no_slice (0 * n) (first cyl head) ds file (omega arith))
  save_heads (suc k) cyl head tracks track file e h found same =
      let later = write_heads k (head + 1) n cyl tracks in
      let one : write_side n cyl head (side_of head track) file
          ≡ saved (file ++ joined (track_sectors n (first cyl head) ds)) =
        ap (λ t. write_side n cyl head t file) (same head (omega arith))
        ∙ save_side cyl head file h (omega arith) in
      let next : first cyl (head + 1) ≡ first cyl head + n = omega arith in
      let total : suc k * n ≡ n + k * n = omega arith in
      rw (found, write_heads)
        (ap (λ t. and_then t later) one
          ∙ save_heads k cyl (head + 1) tracks track _ (omega arith) h found same
          ∙ ap
              (λ i. saved (
                (file ++ joined (track_sectors n (first cyl head) ds))
                ++ joined (track_sectors (k * n) i ds)))
              next
          ∙ ap saved (joined-slices n (k * n) (first cyl head) ds file)
          ∙ ap (λ m. saved (file ++ joined (track_sectors m (first cyl head) ds))) (sym total))

  -- The cylinders from `cyl` on.
  save_cylinders :
      (k cyl : ℕ) (tracks : List TrackData) (file : List ℕ)
      → ((i : ℕ)
          → i < cylinders
          → (track : TrackData) × (get_elem? tracks i ≡ some track)
            × HasSides sides (encoded i) track)
      → cyl + k ≡ cylinders
      → write_cylinders k cyl sides n tracks file
        ≡ saved (file ++ joined (track_sectors (k * sides * n) (first cyl 0) ds))
  unfolding write_cylinders
  save_cylinders zero cyl tracks file has e =
      ap saved (no_slice (0 * sides * n) (first cyl 0) ds file (omega arith))
  save_cylinders (suc k) cyl tracks file has e =
      let (track, found, same) = has cyl (omega arith) in
      let next : first (cyl + 1) 0 ≡ first cyl 0 + sides * n = omega arith in
      let total : suc k * sides * n ≡ sides * n + k * sides * n = omega arith in
      ap (λ t. and_then t (write_cylinders k (cyl + 1) sides n tracks))
        (save_heads sides cyl 0 tracks track file (omega arith) (omega arith) found same)
      ∙ save_cylinders k (cyl + 1) tracks _ has (omega arith)
      ∙ ap
          (λ i. saved (
            (file ++ joined (track_sectors (sides * n) (first cyl 0) ds))
            ++ joined (track_sectors (k * sides * n) i ds)))
          next
      ∙ ap saved (joined-slices (sides * n) (k * sides * n) (first cyl 0) ds file)
      ∙ ap (λ m. saved (file ++ joined (track_sectors m (first cyl 0) ds))) (sym total)

  -- The encoded tracks are written as all the sectors, in order.
  pub save_encoded :
      (sides ≡ 1) ⊎ (sides ≡ 2)
      → write_cylinders cylinders 0 sides n (encode_cylinders cylinders 0 sides encoded) []
        ≡ saved (joined ds)
  save_encoded one_or_two =
      let tracks = encode_cylinders cylinders 0 sides encoded in
      save_cylinders cylinders 0 tracks []
        (λ i hi.
          let e : 0 + i ≡ i = omega arith in
          subst
            (λ j.
              (track : TrackData) × (get_elem? tracks i ≡ some track)
              × HasSides sides (encoded j) track)
            e (encode_cylinders-HasSides cylinders 0 sides i encoded one_or_two hi))
        (omega arith)
      ∙ ap (λ k. saved (joined (track_sectors k (first 0 0) ds))) (sym count)
      ∙ ap (λ i. saved (joined (track_sectors (length ds) i ds))) (omega arith)
      ∙ ap (λ t. saved (joined t)) (track_sectors-all ds)
