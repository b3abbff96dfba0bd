-- ===== src/Examples/Imd.antt =====
-- The results about hfe/imd.go at small concrete inputs.
use fdx.Prelude.{ℕ, zero, suc, ◌+◌, ◌-◌, ◌*◌, ◌/◌, ◌≤◌, ◌<◌, ◌≡◌, ◌↔◌, ◌⊎◌, refl, arith, inl}
use fdx.Prelude.{true, false, ◌&&◌, All, some, List, [], ◌∷◌, ◌++◌, length, take, drop, replicate}
use fdx.Prelude.{length-replicate}
use fdx.Mfm.Symbols.Width.{IsSector, track_width}
use fdx.Mfm.Writer.{header_gap, sector_gap}
use fdx.Mfm.Format.{Format, format}
use fdx.Mfm.Format.Geometry.{IsFormat}
use fdx.Mfm.Reader.{Reader, got, new_reader, read_sector_ibmpc}
use fdx.Hfe.Bkd.{bkd_header}
use fdx.Hfe.Img.{encode_disk}
use fdx.Hfe.Collect.{find, collect}
use fdx.Hfe.Imd.{ImdTrack, ImdImage, is_compressible, all_equal}
use fdx.Hfe.Imd.{mode_to_rate_density, decode_flag, calculate_flag}
use fdx.Hfe.Imd.Read.{
  loaded, refused, read_imd_file, ImdError, decoded, sector_got, read_imd_sector,
}
use fdx.Hfe.Imd.Write.{saved, write_imd, write_imd_sector}
use fdx.Hfe.Imd.Convert.{
  converted, convert_track, fitted, read_imd, imd_unconverted, invalid_logical,
}
use fdx.Hfe.Imd.Flags.{decode-calculate_flag}
use fdx.Hfe.Imd.Sector.{read-write_uniform}
use fdx.Hfe.Imd.Shape.{IsImage}
use fdx.Hfe.Imd.Returns.{read_imd_file-IsImage}
use fdx.Hfe.Imd.Files.{image_of}
use fdx.Hfe.Imd.RoundTrip.{all_tracks, write_imd-encode_disk}
use fdx.Hfe.Imd.Refused.{read_imd-refused}
use fdx.Hfe.Imd.Logical.{IsNumbered, number_at, sector_at, HasBytes}
use fdx.Hfe.Imd.Encoded.{convert_track-collect}
use fdx.Examples.{bytes_alike}

decode-calculate_flag_example :
    (decode_flag (calculate_flag true false false) ≡ (true, false, false))
    ↔ (true ≡ (false && false))
decode-calculate_flag_example = decode-calculate_flag true false false

-- A file with one track of one sector, of one byte.
abbrev small_file : List ℕ
small_file = 0x41 ∷ 0x1a ∷ 5 ∷ 0 ∷ 0 ∷ 1 ∷ 2 ∷ 1 ∷ 2 ∷ 0xe5 ∷ []

read_imd_file-IsImage_example :
    ((e : ImdError) × (read_imd_file small_file ≡ refused e))
    ⊎ ((img : ImdImage) × (read_imd_file small_file ≡ loaded img) × IsImage img)
read_imd_file-IsImage_example = read_imd_file-IsImage small_file

read-write_uniform_example :
    read_imd_sector 512 (write_imd_sector 512 (replicate 512 0xe5) ++ replicate 600 7)
    ≡ sector_got (decoded 1 (take 512 (0xe5 ∷ replicate 600 7))) (drop 512 (0xe5 ∷ replicate 600 7))
read-write_uniform_example = read-write_uniform 512 511 0xe5 (replicate 600 7) (omega arith)

-- A disk of 160K whose sectors are a zero and 511 ones.
abbrev plain_sector : List ℕ
plain_sector = 0 ∷ replicate 511 1

plain_sector-IsSector : IsSector plain_sector
plain_sector-IsSector = record {
  size = refl;
  bytes = (omega arith, bytes_alike 511 1 (omega arith));
}

plain_sector_mixed : is_compressible plain_sector ≡ false
unfolding is_compressible all_equal
plain_sector_mixed = refl

sectors_alike : (P : List ℕ → Type 0) (n : ℕ) (d : List ℕ) → P d → All P (replicate n d)
sectors_alike P zero d h = tt
sectors_alike P (suc n) d h = (h, sectors_alike P n d h)

abbrev plain_disk : List (List ℕ)
plain_disk = replicate 320 plain_sector

abbrev small_format : Format
small_format = format 40 1 8

small_format-IsFormat : IsFormat small_format
small_format-IsFormat = record {
  cylinders = inl refl;
  sides = inl refl;
  density = inl (omega arith, omega arith);
}

plain_disk-All : All IsSector plain_disk
plain_disk-All = sectors_alike IsSector 320 plain_sector plain_sector-IsSector

plain_disk_mixed : All (λ d. is_compressible d ≡ false) plain_disk
plain_disk_mixed =
    sectors_alike (λ d. is_compressible d ≡ false) 320 plain_sector plain_sector_mixed

plain_disk_count : length plain_disk ≡ 320
plain_disk_count = length-replicate 320 plain_sector

write_imd-encode_disk_example :
    (file : List ℕ) × (write_imd (0x49 ∷ []) (encode_disk small_format plain_disk) ≡ saved file)
    × (read_imd_file file
        ≡ loaded (
            image_of (0x49 ∷ []) (
              all_tracks small_format plain_disk small_format-IsFormat
                (omega arith)
                plain_disk-All
                plain_disk_count
                plain_disk_mixed)))
write_imd-encode_disk_example =
    write_imd-encode_disk small_format plain_disk small_format-IsFormat (omega arith) plain_disk-All
      plain_disk_count plain_disk_mixed (0x49 ∷ []) (omega arith, tt)

read_imd-refused_example :
    (file : List ℕ) × (write_imd (0x49 ∷ []) (encode_disk small_format plain_disk) ≡ saved file)
    × (read_imd file ≡ imd_unconverted (invalid_logical 0 8))
read_imd-refused_example =
    read_imd-refused small_format plain_disk small_format-IsFormat (omega arith) plain_disk-All
      plain_disk_count plain_disk_mixed (0x49 ∷ []) (omega arith, tt)

-- A track of two sectors, in the order 2, 1.
abbrev swapped_track : ImdTrack
swapped_track = record {
  mode = 5;
  cylinder = 3;
  head = 1;
  nsec = 2;
  ssize = 2;
  sector_map = 2 ∷ 1 ∷ [];
  cyl_map = [];
  head_map = [];
  sectors = decoded 1 plain_sector ∷ decoded 2 (replicate 512 0xe5) ∷ [];
}

swapped_track-IsNumbered : IsNumbered swapped_track
swapped_track-IsNumbered = record {
  mapped = refl;
  complete = refl;
  in_range = in_range;
  named = named;
  once = once;
}
  where
    in_range : (i : ℕ) → i < 2 → (1 ≤ number_at swapped_track i) × (number_at swapped_track i ≤ 2)
    in_range zero h = (omega arith, omega arith)
    in_range (suc zero) h = (omega arith, omega arith)
    in_range (suc (suc i)) h = absurd (omega arith)

    named : (s : ℕ) → s < 2 → (i : ℕ) × (i < 2) × (number_at swapped_track i ≡ s + 1)
    named zero h = (1, omega arith, refl)
    named (suc zero) h = (0, omega arith, refl)
    named (suc (suc s)) h = absurd (omega arith)

    once : (i j : ℕ) → i < 2 → j < 2 → number_at swapped_track i ≡ number_at swapped_track j → i ≡ j
    once zero zero h k e = refl
    once zero (suc zero) h k e = absurd (omega arith)
    once (suc zero) zero h k e = absurd (omega arith)
    once (suc zero) (suc zero) h k e = refl
    once zero (suc (suc j)) h k e = absurd (omega arith)
    once (suc zero) (suc (suc j)) h k e = absurd (omega arith)
    once (suc (suc i)) j h k e = absurd (omega arith)

swapped_track-HasBytes : (i : ℕ) → i < 2 → HasBytes (sector_at swapped_track i)
swapped_track-HasBytes zero h = plain_sector-IsSector.bytes
swapped_track-HasBytes (suc zero) h = bytes_alike 512 0xe5 (omega arith)
swapped_track-HasBytes (suc (suc i)) h = absurd (omega arith)

swapped_track_fits : track_width 2 250 false ≤ 250 * 1000 * 60 / 300 * 2
unfolding header_gap sector_gap
swapped_track_fits = omega arith

convert_track-collect_example :
    (side : List ℕ) × (m : List (ℕ × List ℕ)) × (r : Reader) × (convert_track bkd_header
        swapped_track
      ≡ converted side)
    × (collect 2 (read_sector_ibmpc 3 1) (new_reader side) ≡ got m r)
    × ((i : ℕ)
        → i < 2
        → find (number_at swapped_track i - 1) m ≡ some (fitted 512 (sector_at swapped_track i)))
convert_track-collect_example =
    convert_track-collect bkd_header swapped_track 250 true swapped_track-IsNumbered
      swapped_track-HasBytes (omega arith) refl (unfold mode_to_rate_density in refl) (omega arith)
      (unfold bkd_header in omega arith) (unfold bkd_header in omega arith)
      (unfold bkd_header in swapped_track_fits)
