-- ===== src/Hfe/Imd/Sector.antt =====
-- hfe/imd.go: one sector written and read back.
use fdx.Prelude.{ℕ, suc, ◌≤◌, false, ◌≡◌, refl, ap, ◌∙◌, arith}
use fdx.Prelude.{List, ◌∷◌, ◌++◌, length, take, drop, ltb, if◌then◌else◌}
use fdx.Prelude.{length-append, take_all, replicate}
use fdx.Prelude.{take_exact, drop_exact, ltb_of_le}
use fdx.Hfe.Imd.{is_compressible, calculate_flag, decode_flag, flag_bit}
use fdx.Hfe.Imd.Flags.{all_equal-replicate}
use fdx.Hfe.Imd.Read.{sector_got, sector_failed, no_data, decoded, read_imd_sector}
use fdx.Hfe.Imd.Read.{read_sector_bytes}
use fdx.Hfe.Imd.Write.{write_imd_sector, resized}

-- Reading behind the flag of a sector that is present and not compressed.
pub read_plain :
    (size : ℕ) (file : List ℕ)
    → read_imd_sector size (1 ∷ file) ≡ (
        if ltb (length file) size
        then sector_failed no_data
        else sector_got (decoded 1 (take size file)) (drop size file))
unfolding read_imd_sector read_sector_bytes decode_flag
read_plain size file = refl

pub read_whole :
    (size : ℕ) (bytes rest : List ℕ)
    → length bytes ≡ size
    → read_imd_sector size (1 ∷ (bytes ++ rest)) ≡ sector_got (decoded 1 bytes) rest
read_whole size bytes rest h =
    read_plain size (bytes ++ rest)
    ∙ rw
        (
          ltb_of_le (length (bytes ++ rest)) size (omega (arith, length-append bytes rest)),
          take_exact size bytes rest h,
          drop_exact size bytes rest h,
        )
        refl

pub resized_exact : (size : ℕ) (bytes : List ℕ) → length bytes ≡ size → resized size bytes ≡ bytes
unfolding resized
resized_exact size bytes h =
    rw (ltb_of_le (length bytes) size (omega arith)) (take_all size bytes (omega arith))

-- A sector of the right size, not all of one byte, is read back as it was written.
pub read-write_imd_sector :
    (size : ℕ) (bytes rest : List ℕ)
    → length bytes ≡ size
    → is_compressible bytes ≡ false
    → read_imd_sector size (write_imd_sector size bytes ++ rest) ≡ sector_got (decoded 1 bytes) rest
unfolding write_imd_sector calculate_flag flag_bit
read-write_imd_sector size bytes rest h plain =
    rw (plain, write_imd_sector)
      (ap (λ t. read_imd_sector size (1 ∷ (t ++ rest))) (resized_exact size bytes h)
        ∙ read_whole size bytes rest h)

-- A sector of one byte value, as writeIMDSector writes it, is read by readIMDSector as a sector
-- that is not compressed: where enough of the file follows, that byte and what follows it are taken
-- for its data.
pub read-write_uniform :
    (size n a : ℕ) (rest : List ℕ)
    → size ≤ suc (length rest)
    → read_imd_sector size (write_imd_sector size (replicate (suc n) a) ++ rest)
      ≡ sector_got (decoded 1 (take size (a ∷ rest))) (drop size (a ∷ rest))
unfolding write_imd_sector calculate_flag flag_bit is_compressible
read-write_uniform size n a rest h =
    rw (all_equal-replicate a n, write_imd_sector)
      (read_plain size (a ∷ rest) ∙ rw (ltb_of_le (suc (length rest)) size h) refl)
