-- ===== src/Hfe/Imd/Shape.antt =====
-- hfe/imd.go: what ReadIMDFile has checked of an image that it returns.
use fdx.Prelude.{
  ℕ, zero, suc, ◌+◌, ◌≤◌, ◌<◌, Bool, true, false, ◌≡◌, ◌≢◌, refl, ap, sym, ◌∙◌, arith, ◌⊎◌, inl,
  inr,
}
use fdx.Prelude.{Bool-cases, ltb, le_of_ltb, ◌==◌, ==_iff, All, some, none}
use fdx.Prelude.{
  List, [], ◌∷◌, length, take, drop, length-take, length-drop, length-replicate, replicate,
}
use fdx.Hfe.Imd.{ImdSector, ImdTrack, ImdImage, imd_sector_size, decode_flag}
use fdx.Hfe.Imd.Read.{
  SectorRead, sector_got, sector_failed, SectorsRead, sectors_got, sectors_failed, ImdTrackRead,
  track_got, track_eof, track_failed, ImdError, SectorError, read_imd_sector, read_sector_bytes,
  read_imd_sectors, read_track_body, read_track_checked, read_track_cyl_map, read_track_head_map,
  read_track_sectors, short_sector_map, short_cylinder_map, short_head_map, track_header,
  read_imd_track, read_full, read_map, has_cyl_map, has_head_map, no_value, decoded,
  first_with_sectors,
}

-- A sector has no data, or as many bytes as its track says.
abbrev pub HasSize : ℕ → ImdSector → Type 0
HasSize size s = elim s.sector_data [ none ↦ Unit | some bytes ↦ length bytes ≡ size ]

pub record IsTrack (t : ImdTrack) : Type 0 where
  pub mode_valid : t.mode ≤ 5
  pub ssize_valid : t.ssize ≤ 6
  pub mapped : length t.sector_map ≡ t.nsec
  pub complete : length t.sectors ≡ t.nsec
  pub sized : All (HasSize (imd_sector_size t.ssize)) t.sectors

-- The checks of the header alone.
abbrev IsHeader : ImdTrack → Type 0
IsHeader t = (t.mode ≤ 5) × (t.ssize ≤ 6)

pub record IsImage (img : ImdImage) : Type 0 where
  pub rpm_valid : (img.floppy_rpm ≡ 300) ⊎ (img.floppy_rpm ≡ 360)
  pub valid : All IsTrack img.tracks
  pub some_sectors : first_with_sectors img.tracks ≢ none

-- What a reader gives is right, and shorter than what it was given.
abbrev SectorIsOk : ℕ → ℕ → SectorRead → Type 0
SectorIsOk size len (sector_got s rest) = HasSize size s × (length rest ≤ len)
SectorIsOk size len (sector_failed e) = Unit

abbrev SectorsAreOk : ℕ → ℕ → ℕ → SectorsRead → Type 0
SectorsAreOk n size len (sectors_got ss rest) =
    (length ss ≡ n) × All (HasSize size) ss × (length rest ≤ len)
SectorsAreOk n size len (sectors_failed e) = Unit

abbrev pub TrackIsOk : ℕ → ImdTrackRead → Type 0
TrackIsOk len (track_got t rest) = IsTrack t × (length rest ≤ len)
TrackIsOk len track_eof = Unit
TrackIsOk len (track_failed e) = Unit

value-ok :
    (size flag len : ℕ) (file : List ℕ)
    → length file ≤ len
    → SectorIsOk size len (elim file [
      | [] ↦ sector_failed no_value
      | value ∷ rest ↦ sector_got (decoded flag (replicate size value)) rest
    ])
value-ok size flag len [] h = tt
value-ok size flag len (v ∷ file) h = (length-replicate size v, omega arith)

bytes-ok :
    (size flag len : ℕ) (file : List ℕ)
    → length file ≤ len
    → SectorIsOk size len (read_sector_bytes size flag file)
unfolding read_sector_bytes
bytes-ok size flag len file h = elim (Bool-cases (decode_flag flag).0) [
  | inl e ↦ rw (e, read_sector_bytes) (value-ok size flag len file h)
  | inr e ↦ elim (Bool-cases (ltb (length file) size)) [
    | inl short ↦ rw (e, read_sector_bytes) (rw short tt)
    | inr long ↦
        rw (e, read_sector_bytes)
          (rw long (
            omega (arith, length-take size file, le_of_ltb _ _ long),
            omega (arith, length-drop size file),
          ))
  ]
]

sector-ok :
    (size len : ℕ) (file : List ℕ)
    → length file ≤ len
    → SectorIsOk size len (read_imd_sector size file)
unfolding read_imd_sector
sector-ok size len [] h = tt
sector-ok size len (flag ∷ file) h = elim (Bool-cases (flag == 0)) [
  | inl e ↦ rw e (tt, omega arith)
  | inr e ↦ rw e (bytes-ok size flag len file (omega arith))
]

more_sectors-ok :
    (n size len : ℕ) (s : ImdSector) (x : SectorsRead)
    → HasSize size s
    → SectorsAreOk n size len x
    → SectorsAreOk (suc n) size len (elim x [
      | sectors_failed e ↦ sectors_failed e
      | sectors_got ss rest ↦ sectors_got (s ∷ ss) rest
    ])
more_sectors-ok n size len s (sectors_got ss rest) hs h = (ap suc h.0, (hs, h.1), h.2)
more_sectors-ok n size len s (sectors_failed e) hs h = tt

first_sector-ok :
    (n size len : ℕ) (e : SectorError → ImdError) (later : List ℕ → SectorsRead) (x : SectorRead)
    → ((file : List ℕ) → length file ≤ len → SectorsAreOk n size len (later file))
    → SectorIsOk size len x
    → SectorsAreOk (suc n) size len (elim x [
      | sector_failed why ↦ sectors_failed (e why)
      | sector_got s rest ↦ elim (later rest) [
        | sectors_failed why ↦ sectors_failed why
        | sectors_got ss rest' ↦ sectors_got (s ∷ ss) rest'
      ]
    ])
first_sector-ok n size len e later (sector_failed why) all h = tt
first_sector-ok n size len e later (sector_got s rest) all h =
    more_sectors-ok n size len s (later rest) h.0 (all rest h.1)

sectors-ok :
    (n i size len : ℕ) (numbers file : List ℕ)
    → length file ≤ len
    → SectorsAreOk n size len (read_imd_sectors n i size numbers file)
unfolding read_imd_sectors
sectors-ok zero i size len numbers file h = (refl, tt, h)
sectors-ok (suc n) i size len numbers file h =
    first_sector-ok n size len _ (read_imd_sectors n (i + 1) size numbers)
      (read_imd_sector size file) (sectors-ok n (i + 1) size len numbers)
      (sector-ok size len file h)

-- What is read into a buffer fills it.
full-ok :
    (n len : ℕ) (e : ImdError) (file : List ℕ) (k : List ℕ → List ℕ → ImdTrackRead)
    → length file ≤ len
    → ((buffer rest : List ℕ)
        → length buffer ≡ n
        → length rest ≤ len
        → TrackIsOk len (k buffer rest))
    → TrackIsOk len (read_full n e file k)
full-ok n len e file k h all = elim (Bool-cases (ltb (length file) n)) [
  | inl short ↦ rw short tt
  | inr long ↦ rw long (
      all (take n file) (drop n file) (omega (arith, length-take n file, le_of_ltb _ _ long))
        (omega (arith, length-drop n file)))
]

map-ok :
    (present : Bool) (n len : ℕ) (e : ImdError) (file : List ℕ) (k : List ℕ → List ℕ → ImdTrackRead)
    → length file ≤ len
    → ((buffer rest : List ℕ) → length rest ≤ len → TrackIsOk len (k buffer rest))
    → TrackIsOk len (read_map present n e file k)
map-ok true n len e file k h all = full-ok n len e file k h (λ b r hb hr. all b r hr)
map-ok false n len e file k h all = all [] file h

sectors_track-ok :
    (len : ℕ) (t : ImdTrack) (x : SectorsRead)
    → IsHeader t
    → length t.sector_map ≡ t.nsec
    → SectorsAreOk t.nsec (imd_sector_size t.ssize) len x
    → TrackIsOk len (elim x [
      | sectors_failed e ↦ track_failed e
      | sectors_got sectors rest ↦ track_got (record t { sectors = sectors }) rest
    ])
sectors_track-ok len t (sectors_failed e) ht hn h = tt
sectors_track-ok len t (sectors_got sectors rest) ht hn h = (
  record { mode_valid = ht.0; ssize_valid = ht.1; mapped = hn; complete = h.0; sized = h.1 },
  h.2,
)

-- The sectors behind the maps.
behind_maps-ok :
    (t : ImdTrack) (len : ℕ) (file : List ℕ)
    → IsHeader t
    → length t.sector_map ≡ t.nsec
    → length file ≤ len
    → TrackIsOk len (read_track_cyl_map t file)
unfolding read_track_cyl_map read_track_head_map read_track_sectors
behind_maps-ok t len file ht hn h =
    map-ok (has_cyl_map t.head) t.nsec len short_cylinder_map file
      (λ buffer. read_track_head_map (record t { cyl_map = buffer })) h
      (λ cyl_map f2 h2.
        map-ok (has_head_map t.head) t.nsec len short_head_map f2
          (λ buffer. read_track_sectors (record t { cyl_map = cyl_map; head_map = buffer })) h2
          (λ head_map f3 h3.
            sectors_track-ok len (record t { cyl_map = cyl_map; head_map = head_map })
              (read_imd_sectors t.nsec 0 (imd_sector_size t.ssize) t.sector_map f3) ht hn
              (sectors-ok t.nsec 0 (imd_sector_size t.ssize) len t.sector_map f3 h3)))

body-ok :
    (t : ImdTrack) (len : ℕ) (file : List ℕ)
    → IsHeader t
    → length file ≤ len
    → TrackIsOk len (read_track_body t file)
unfolding read_track_body
body-ok t len file ht h =
    full-ok t.nsec len short_sector_map file
      (λ buffer. read_track_cyl_map (record t { sector_map = buffer })) h
      (λ buffer rest hn hr. behind_maps-ok (record t { sector_map = buffer }) len rest ht hn hr)

null_track-ok :
    (t : ImdTrack) (len : ℕ) (file : List ℕ)
    → IsHeader t
    → t.sector_map ≡ []
    → t.sectors ≡ []
    → t.nsec ≡ 0
    → length file ≤ len
    → TrackIsOk len (track_got t file)
null_track-ok t len file ht em es e h = (
  record {
    mode_valid = ht.0;
    ssize_valid = ht.1;
    mapped = ap length em ∙ sym e;
    complete = ap length es ∙ sym e;
    sized = rw es tt;
  },
  h,
)

checked-ok :
    (t : ImdTrack) (len : ℕ) (file : List ℕ)
    → t.sector_map ≡ []
    → t.sectors ≡ []
    → length file ≤ len
    → TrackIsOk len (read_track_checked t file)
unfolding read_track_checked
checked-ok t len file em es h = elim (Bool-cases (ltb 5 t.mode)) [
  | inl e ↦ rw e tt
  | inr e5 ↦ elim (Bool-cases (ltb 6 t.ssize)) [
    | inl e ↦ rw e5 (rw e tt)
    | inr e6 ↦
        let ht : IsHeader t = (le_of_ltb 5 t.mode e5, le_of_ltb 6 t.ssize e6) in
        elim (Bool-cases (t.nsec == 0)) [
          | inl e ↦
              rw e5 (rw e6 (rw e (null_track-ok t len file ht em es ((==_iff t.nsec 0).0 e) h)))
          | inr e ↦ rw e5 (rw e6 (rw e (body-ok t len file ht h)))
        ]
  ]
]

-- A track takes five bytes at least.
pub read_imd_track-TrackIsOk :
    (len : ℕ) (file : List ℕ) → length file < len + 5 → TrackIsOk len (read_imd_track file)
unfolding read_imd_track
read_imd_track-TrackIsOk len [] h = tt
read_imd_track-TrackIsOk len (a ∷ []) h = tt
read_imd_track-TrackIsOk len (a ∷ b ∷ []) h = tt
read_imd_track-TrackIsOk len (a ∷ b ∷ c ∷ []) h = tt
read_imd_track-TrackIsOk len (a ∷ b ∷ c ∷ d ∷ []) h = tt
read_imd_track-TrackIsOk len (a ∷ b ∷ c ∷ d ∷ e ∷ file) h =
    checked-ok (track_header a b c d e) len file refl refl (omega arith)
