-- ===== src/Hfe/Imd/Files.antt =====
-- hfe/imd.go: the file that WriteIMD writes is read by ReadIMDFile as the tracks that were written.
use fdx.Prelude.{ℕ, zero, suc, ◌+◌, ◌≤◌, ◌<◌, ◌≡◌, ◌≢◌, refl, ap, ap₂, sym, ◌∙◌, arith}
use fdx.Prelude.{
  List, [], ◌∷◌, ◌++◌, length, All, append_assoc, append-nil, length-append, none, some, ==_of_ne,
}
use fdx.Prelude.Splits.{Option-cases}
use fdx.Prelude.{inl, inr}
use fdx.Mfm.Symbols.Buffer.{append-All}
use fdx.Hfe.Disk.{Disk}
use fdx.Hfe.Imd.{ImdTrack, ImdImage, imd_comment_terminator}
use fdx.Hfe.Imd.Read.{
  track_got, loaded, read_imd_track, read_imd_tracks, read_comment, read_imd_file, validated,
  first_with_sectors, floppy_rpm_of,
}
use fdx.Hfe.Imd.Write.{
  ImdSaved, saved, and_then_imd, write_imd_side, write_imd_heads, write_imd_cylinders, imd_mode,
  imd_side,
}

-- A track and the bytes that stand for it in a file.
abbrev pub Entry : Type 0
Entry = List ℕ × ImdTrack

abbrev pub IsEntry : Entry → Type 0
IsEntry (bytes, t) =
    (1 ≤ length bytes) × ((rest : List ℕ) → read_imd_track (bytes ++ rest) ≡ track_got t rest)

abbrev pub file_of : List Entry → List ℕ
file_of [] = []
file_of ((bytes, t) ∷ es) = bytes ++ file_of es

abbrev pub tracks_of : List Entry → List ImdTrack
tracks_of [] = []
tracks_of ((bytes, t) ∷ es) = t ∷ tracks_of es

file_of-append : (es fs : List Entry) → file_of (es ++ fs) ≡ file_of es ++ file_of fs
file_of-append [] fs = refl
file_of-append ((bytes, t) ∷ es) fs =
    ap (λ x. bytes ++ x) (file_of-append es fs) ∙ sym (append_assoc bytes (file_of es) (file_of fs))

entries_short : (es : List Entry) → All IsEntry es → length es ≤ length (file_of es)
entries_short [] h = omega arith
entries_short ((bytes, t) ∷ es) h =
    omega (arith, length-append bytes (file_of es), entries_short es h.1, h.0.0)

read_imd_tracks-entries :
    (es : List Entry) (fuel : ℕ)
    → All IsEntry es
    → length es < fuel
    → read_imd_tracks fuel (file_of es) ≡ loaded (tracks_of es)
unfolding read_imd_tracks read_imd_track
read_imd_tracks-entries es zero h f = absurd (omega arith)
read_imd_tracks-entries [] (suc fuel) h f = refl
read_imd_tracks-entries ((bytes, t) ∷ es) (suc fuel) h f =
    rw (h.0.1 (file_of es), read_imd_tracks)
      (rw (read_imd_tracks-entries es fuel h.1 (omega arith), read_imd_tracks) refl)

read_comment-end :
    (comment rest : List ℕ)
    → All (λ b. b ≢ imd_comment_terminator) comment
    → read_comment (comment ++ imd_comment_terminator ∷ rest) ≡ some (comment, rest)
unfolding read_comment
read_comment-end [] rest h = refl
read_comment-end (b ∷ comment) rest h =
    rw (==_of_ne b imd_comment_terminator h.0) (rw (read_comment-end comment rest h.1) refl)

-- The image that is read.
abbrev pub image_of : List ℕ → List ImdTrack → ImdImage
image_of comment tracks = record {
  comment = comment;
  tracks = tracks;
  floppy_rpm = floppy_rpm_of tracks;
}

validated-some :
    (comment : List ℕ) (tracks : List ImdTrack)
    → first_with_sectors tracks ≢ none
    → validated comment tracks ≡ loaded (image_of comment tracks)
unfolding validated
validated-some comment [] h = absurd (h (unfold first_with_sectors in refl))
validated-some comment (t ∷ ts) h = elim (Option-cases (first_with_sectors (t ∷ ts))) [
  | inl missing ↦ absurd (h missing)
  | inr found ↦ rw (==_of_ne (suc (length ts)) 0 (λ e. omega arith)) (rw found.1 refl)
]

pub read_imd_file-entries :
    (comment : List ℕ) (es : List Entry)
    → All (λ b. b ≢ imd_comment_terminator) comment
    → All IsEntry es
    → first_with_sectors (tracks_of es) ≢ none
    → read_imd_file (comment ++ imd_comment_terminator ∷ file_of es)
      ≡ loaded (image_of comment (tracks_of es))
unfolding read_imd_file
read_imd_file-entries comment es hc he hs =
    rw (read_comment-end comment (file_of es) hc, read_imd_file)
      (rw
        (
          read_imd_tracks-entries es (suc (length (file_of es))) he
              (omega (arith, entries_short es he)),
          read_imd_file,
        )
        (validated-some comment (tracks_of es) hs))

-- The tracks of a cylinder, `k` heads from `head` on, and of `k` cylinders from `cyl` on.
abbrev pub head_tracks : ℕ → ℕ → ℕ → (ℕ → ℕ → ImdTrack) → List ImdTrack
head_tracks zero head cyl track = []
head_tracks (suc k) head cyl track = track cyl head ∷ head_tracks k (head + 1) cyl track

abbrev pub cylinder_tracks : ℕ → ℕ → ℕ → (ℕ → ℕ → ImdTrack) → List ImdTrack
cylinder_tracks zero cyl sides track = []
cylinder_tracks (suc k) cyl sides track =
    head_tracks sides 0 cyl track ++ cylinder_tracks k (cyl + 1) sides track

pub cylinder_tracks-cons :
    (k cyl sides : ℕ) (track : ℕ → ℕ → ImdTrack)
    → 1 ≤ k
    → 1 ≤ sides
    → (ts : List ImdTrack) × (cylinder_tracks k cyl sides track ≡ track cyl 0 ∷ ts)
cylinder_tracks-cons zero cyl sides track hk hs = absurd (omega arith)
cylinder_tracks-cons (suc k) cyl zero track hk hs = absurd (omega arith)
cylinder_tracks-cons (suc k) cyl (suc sides) track hk hs = (_, refl)

pub first_with_sectors-cons :
    (t : ImdTrack) (ts : List ImdTrack) → t.nsec ≢ 0 → first_with_sectors (t ∷ ts) ≡ some t
unfolding first_with_sectors
first_with_sectors-cons t ts h = rw (==_of_ne t.nsec 0 h) refl

tracks_of-append : (es fs : List Entry) → tracks_of (es ++ fs) ≡ tracks_of es ++ tracks_of fs
tracks_of-append [] fs = refl
tracks_of-append ((bytes, t) ∷ es) fs = ap (◌∷◌ t) (tracks_of-append es fs)

-- What is written is a list of entries for the tracks.
abbrev pub Writes : List ImdTrack → (List ℕ → ImdSaved) → Type 0
Writes ts write =
    (es : List Entry) × All IsEntry es
    × (tracks_of es ≡ ts)
    × ((file : List ℕ) → write file ≡ saved (file ++ file_of es))

Writes-nil : Writes [] saved
Writes-nil = ([], tt, refl, λ file. ap saved (sym (append-nil file)))

Writes-append :
    (ts us : List ImdTrack) (first second : List ℕ → ImdSaved)
    → Writes ts first
    → Writes us second
    → Writes (ts ++ us) (λ file. and_then_imd (first file) second)
Writes-append ts us first second (es, he, te, we) (fs, hf, tf, wf) = (
  es ++ fs,
  append-All IsEntry es fs he hf,
  tracks_of-append es fs ∙ ap₂ (◌++◌) te tf,
  λ file.
      ap (λ x. and_then_imd x second) (we file)
      ∙ wf (file ++ file_of es)
      ∙ ap saved (
          append_assoc file (file_of es) (file_of fs)
          ∙ ap (λ t. file ++ t) (sym (file_of-append es fs))),
)

module _ (disk : Disk) (cylinders sides : ℕ) (track : ℕ → ℕ → ImdTrack)
    (side : (cyl head : ℕ)
      → cyl < cylinders
      → head < sides
      → Writes
          (track cyl head ∷ [])
          (write_imd_side (imd_mode disk.header) cyl head (imd_side cyl head disk.tracks))) where
  heads-Writes :
      (k head cyl : ℕ)
      → head + k ≡ sides
      → cyl < cylinders
      → Writes (head_tracks k head cyl track) (write_imd_heads k head cyl disk)
  unfolding write_imd_heads
  heads-Writes zero head cyl e h = Writes-nil
  heads-Writes (suc k) head cyl e h =
      Writes-append (track cyl head ∷ []) (head_tracks k (head + 1) cyl track) _
        (write_imd_heads k (head + 1) cyl disk) (side cyl head h (omega arith))
        (heads-Writes k (head + 1) cyl (omega arith) h)

  pub cylinders-Writes :
      (k cyl : ℕ)
      → cyl + k ≡ cylinders
      → Writes (cylinder_tracks k cyl sides track) (write_imd_cylinders k cyl sides disk)
  unfolding write_imd_cylinders
  cylinders-Writes zero cyl e = Writes-nil
  cylinders-Writes (suc k) cyl e =
      Writes-append (head_tracks sides 0 cyl track) (cylinder_tracks k (cyl + 1) sides track)
        (write_imd_heads sides 0 cyl disk) (write_imd_cylinders k (cyl + 1) sides disk)
        (heads-Writes sides 0 cyl (omega arith) (omega arith))
        (cylinders-Writes k (cyl + 1) (omega arith))
