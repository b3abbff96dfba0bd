-- ===== src/Hfe/Img/Save.antt =====
-- `WriteIMG` of hfe/img.go on one side of a track that was encoded.
use fdx.Hfe.Collect.Counted.{track_long}
use fdx.Prelude.{Bool}
use fdx.Prelude.{ℕ, zero, suc, ◌+◌, ◌≤◌, ◌<◌, ◌≡◌, ap, sym, ◌∙◌, arith}
use fdx.Prelude.{false, ◌==◌, IsByte, List, [], ◌++◌, length, get_or, append_assoc}
use fdx.Prelude.{length-append, append-nil, take, replicate}
use fdx.Mfm.Symbols.{emit, gap_symbols}
use fdx.Mfm.Symbols.Buffer.{length-stream}
use fdx.Mfm.Symbols.Width.{HasSectors, track_width, track_symbols, length-emit, width-track}
use fdx.Mfm.Writer.{new_writer, encode_track_ibm_internal}
use fdx.Mfm.Writer.Encode.{encode_track-stream}
use fdx.Hfe.Collect.{all_written, write_in_order}
use fdx.Hfe.Collect.Map.{Holds}
use fdx.Hfe.Collect.Encoded.{collect-encode_track}
use fdx.Hfe.Img.{track_sectors, write_side, saved, save_sectors}
use fdx.Hfe.Img.Sectors.{joined}
use fdx.Hfe.Img.Slices.{track_sectors-all}

-- A map that holds a track is written as the track's sectors, none missing.
pub write_in_order-Holds :
    (k s n : ℕ) (ds : List (List ℕ)) (m : List (ℕ × List ℕ)) (file : List ℕ)
    → s + k ≡ n
    → Holds ds n m
    → write_in_order k s m file ≡ all_written (file ++ joined (track_sectors k s ds))
unfolding write_in_order track_sectors
write_in_order-Holds zero s n ds m file e h = ap all_written (sym (append-nil file))
write_in_order-Holds (suc k) s n ds m file e h =
    let d = get_or ds s [] in
    rw (h.below s (omega arith), write_in_order)
      (write_in_order-Holds k (s + 1) n ds m (file ++ d) (omega arith) h
        ∙ ap all_written (append_assoc file d (joined (track_sectors k (s + 1) ds))))

-- An encoded track is not empty.
pub side_not_empty :
    (ds : List (List ℕ)) (c h n bit_rate max : ℕ) (skip : Bool)
    → HasSectors n ds
    → track_width n bit_rate skip ≤ max
    → (length (encode_track_ibm_internal ds c h n bit_rate skip (new_writer max)) == 0) ≡ false
side_not_empty ds c h n bit_rate max skip has fits =
    let side = encode_track_ibm_internal ds c h n bit_rate skip (new_writer max) in
    let (k, j, z, hz, cells) = encode_track-stream ds c h n bit_rate skip max has fits in
    let track = track_symbols ds c h n bit_rate skip in
    let long : 0 < length side = omega (
      arith,
      length-stream side,
      track_long n bit_rate skip,
      ap length cells,
      length-append (emit 0 track) (take j (emit 0 (gap_symbols k 0x4e)) ++ replicate z 0),
      length-emit 0 track,
      width-track ds c h n bit_rate skip has,
    ) in
    ground arith

-- The side is written to the file as its sectors, in the order of their numbers.
pub write_side-encoded :
    (ds : List (List ℕ)) (c h n bit_rate max : ℕ) (skip : Bool) (file : List ℕ)
    → IsByte c
    → IsByte h
    → n < 256
    → HasSectors n ds
    → length ds ≡ n
    → track_width n bit_rate skip ≤ max
    → write_side n c h (encode_track_ibm_internal ds c h n bit_rate skip (new_writer max)) file
      ≡ saved (file ++ joined ds)
unfolding write_side
write_side-encoded ds c h n bit_rate max skip file hc hh small has count fits =
    let (m, r, collected, holds) =
      collect-encode_track ds c h bit_rate hc hh n small has skip max fits in
    let all : track_sectors n 0 ds ≡ ds =
      ap (λ k. track_sectors k 0 ds) (sym count) ∙ track_sectors-all ds in
    rw (side_not_empty ds c h n bit_rate max skip has fits, collected)
      (ap (save_sectors c h) (write_in_order-Holds n 0 n ds m file (omega arith) holds)
        ∙ ap (λ t. saved (file ++ joined t)) all)
