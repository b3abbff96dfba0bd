-- ===== src/Hfe/Dispatch.antt =====
-- Read of hfe/read.go and Write of hfe/write.go: the image in the format that its name gives, as the
-- bytes of the file.
use fdx.Prelude.{ℕ, List, ◌≡◌, All, refl, map}
use fdx.Hfe.Disk.{Disk}
use fdx.Hfe.Img.{Result, Saved, read_img, write_img}
use fdx.Hfe.Bkd.{BkdLoaded, BkdSaved, read_bkd, write_bkd}
use fdx.Hfe.Adf.{AdfLoaded, AdfSaved, read_adf, write_adf}
use fdx.Hfe.Imd.Convert.{ImdLoaded, read_imd}
use fdx.Hfe.Imd.Write.{ImdSaved, write_imd}
use fdx.Hfe.File.Write.{HfeSaved, hfe_saved, hfe_version1, write_hfe}
use fdx.Hfe.File.Read.{HfeLoaded, hfe_loaded, read_hfe}
use fdx.Hfe.File.Tracks.{IsShort}
use fdx.Hfe.File.Kept.{filled_track}
use fdx.Hfe.File.RoundTrip.{IsWritable, loaded_disk, read-write_hfe1}
use fdx.Hfe.ImageFormat.{
  ImageFormat, image_format_unknown, image_format_adf, image_format_bkd, image_format_cp2,
  image_format_dcf, image_format_epl, image_format_hfe, image_format_imd, image_format_img,
  image_format_mfm, image_format_pdi, image_format_pri, image_format_psi, image_format_scp,
  image_format_td0, detect_image_format,
}

-- What the reader of the format returns.
pub data ImageRead : Type 0 where
  from_hfe : HfeLoaded Disk → ImageRead
  from_adf : AdfLoaded → ImageRead
  from_bkd : BkdLoaded → ImageRead
  from_imd : ImdLoaded → ImageRead
  from_img : Result Disk → ImageRead
  not_implemented : ImageFormat → ImageRead
  unsupported : ImageRead

unfoldable pub read : List ℕ → List ℕ → ImageRead
read filename file = elim (detect_image_format filename) [
  | image_format_hfe ↦ from_hfe (read_hfe file)
  | image_format_adf ↦ from_adf (read_adf file)
  | image_format_bkd ↦ from_bkd (read_bkd file)
  | image_format_cp2 ↦ not_implemented image_format_cp2
  | image_format_dcf ↦ not_implemented image_format_dcf
  | image_format_epl ↦ not_implemented image_format_epl
  | image_format_imd ↦ from_imd (read_imd file)
  | image_format_img ↦ from_img (read_img file)
  | image_format_mfm ↦ not_implemented image_format_mfm
  | image_format_pdi ↦ not_implemented image_format_pdi
  | image_format_pri ↦ not_implemented image_format_pri
  | image_format_psi ↦ not_implemented image_format_psi
  | image_format_scp ↦ not_implemented image_format_scp
  | image_format_td0 ↦ not_implemented image_format_td0
  | image_format_unknown ↦ unsupported
]

-- What the writer of the format returns.
pub data ImageWritten : Type 0 where
  to_hfe : HfeSaved → ImageWritten
  to_adf : AdfSaved → ImageWritten
  to_bkd : BkdSaved → ImageWritten
  to_imd : ImdSaved → ImageWritten
  to_img : Saved → ImageWritten
  not_implemented : ImageFormat → ImageWritten
  unsupported : ImageWritten

-- The comment of an IMD file has the time in it.
unfoldable pub write : List ℕ → List ℕ → Disk → ImageWritten
write filename comment disk = elim (detect_image_format filename) [
  | image_format_hfe ↦ to_hfe (write_hfe hfe_version1 disk)
  | image_format_adf ↦ to_adf (write_adf disk)
  | image_format_bkd ↦ to_bkd (write_bkd disk)
  | image_format_cp2 ↦ not_implemented image_format_cp2
  | image_format_dcf ↦ not_implemented image_format_dcf
  | image_format_epl ↦ not_implemented image_format_epl
  | image_format_imd ↦ to_imd (write_imd comment disk)
  | image_format_img ↦ to_img (write_img disk)
  | image_format_mfm ↦ not_implemented image_format_mfm
  | image_format_pdi ↦ not_implemented image_format_pdi
  | image_format_pri ↦ not_implemented image_format_pri
  | image_format_psi ↦ not_implemented image_format_psi
  | image_format_scp ↦ not_implemented image_format_scp
  | image_format_td0 ↦ not_implemented image_format_td0
  | image_format_unknown ↦ unsupported
]

-- A disk whose header counts its tracks, from one to 128, and gives a number of sides, a bit rate
-- and a speed, and whose sides are no more than 32512 bytes, is written by Write to a name that is
-- detected as HFE, without error, and Read of that name and file returns it, side 1 where the disk
-- has two sides, each side followed by bytes 0xff up to the length of the track, the header with
-- the signature of version 1.
pub read-write :
    (filename comment : List ℕ) (disk : Disk)
    → detect_image_format filename ≡ image_format_hfe
    → IsWritable disk
    → All IsShort disk.tracks
    → (file : List ℕ) × (write filename comment disk ≡ to_hfe (hfe_saved file))
      × (read filename file
          ≡ from_hfe (
              hfe_loaded (
                loaded_disk hfe_version1 disk
                  (map (filled_track disk.header.number_of_side) disk.tracks))))
unfolding read write
read-write filename comment disk named h short =
    let (file, saved, loaded) = read-write_hfe1 disk h short in
    (file, rw (named, write) (rw saved refl), rw (named, read) (rw loaded refl))
