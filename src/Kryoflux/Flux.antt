-- ===== src/Kryoflux/Flux.antt =====
-- kryoflux/read.go: the flux transitions between two positions of a stream, and the whole stream. The
-- stream is shorter than 4 GB and its ticks are fewer than 2 ^ 64, so no position or time wraps. The
-- conversion of ticks to nanoseconds is a float product, which `to_ns` stands for.
use fdx.Prelude.{ℕ, zero, suc, ◌+◌, ◌-◌, ◌*◌, if◌then◌else◌, ltb, leb, ◌==◌}
use fdx.Prelude.{List, [], ◌∷◌, drop}
use fdx.Kryoflux.Stream.{oob_size, IndexTiming, decode_pulses}

-- What one block is to decodeFlux: the ticks of a transition, with how many bytes it has behind the
-- first, an overflow, bytes to pass over, or the end.
pub data FluxBlock : Type 0 where
  flux : ℕ → ℕ → FluxBlock
  overflow : FluxBlock
  passed : ℕ → FluxBlock
  eof : FluxBlock
  incomplete_flux2 incomplete_flux3 incomplete_header incomplete_data : FluxBlock
  beyond : FluxBlock

unfoldable pub flux2 : ℕ → List ℕ → FluxBlock
flux2 val [] = beyond
flux2 val (low ∷ behind) = flux (val * 256 + low) 1

unfoldable pub flux3 : List ℕ → FluxBlock
flux3 (high ∷ low ∷ behind) = flux (high * 256 + low) 2
flux3 behind = beyond

-- `left` is what lies behind the marker before the end position.
unfoldable pub flux_oob : ℕ → List ℕ → FluxBlock
flux_oob left (oob_type ∷ low ∷ high ∷ body) =
    if oob_type == 0x0d
    then eof
    else if ltb left (3 + oob_size low high)
    then incomplete_data
    else passed (3 + oob_size low high)
flux_oob left (oob_type ∷ behind) = if oob_type == 0x0d then eof else beyond
flux_oob left [] = beyond

-- The block of the byte `val`, with `left` positions and the bytes `behind` it.
unfoldable pub flux_block : ℕ → ℕ → List ℕ → FluxBlock
flux_block left val behind =
    if leb val 7
    then if ltb left 1 then incomplete_flux2 else flux2 val behind
    else if val == 0x08
    then passed 0
    else if val == 0x09
    then passed 1
    else if val == 0x0a
    then passed 2
    else if val == 0x0b
    then overflow
    else if val == 0x0c
    then if ltb left 2 then incomplete_flux3 else flux3 behind
    else if val == 0x0d
    then if ltb left 3 then incomplete_header else flux_oob left behind
    else flux val 0

-- The transitions, an error, or the panic of an index out of range. The offsets that the messages
-- name are left out.
pub data Decoded : Type 0 where
  transitions : List ℕ → Decoded
  incomplete : FluxBlock → Decoded
  out_of_range : Decoded

abbrev pub with_transition : ℕ → Decoded → Decoded
with_transition time later = elim later [
  | transitions ts ↦ transitions (time ∷ ts)
  | incomplete e ↦ incomplete e
  | out_of_range ↦ out_of_range
]

-- The loop with `left` positions to the end.
unfoldable pub flux_from : (ℕ → ℕ) → ℕ → ℕ → List ℕ → ℕ → Decoded
flux_from to_ns zero skip bytes ticks = transitions []
flux_from to_ns (suc left) (suc skip) bytes ticks = flux_from to_ns left skip (drop 1 bytes) ticks
flux_from to_ns (suc left) zero [] ticks = out_of_range
flux_from to_ns (suc left) zero (val ∷ behind) ticks = elim (flux_block left val behind) [
  | flux value rest ↦
      with_transition (to_ns (ticks + value)) (flux_from to_ns left rest behind (ticks + value))
  | overflow ↦ flux_from to_ns left 0 behind (ticks + 0x10000)
  | passed rest ↦ flux_from to_ns left rest behind ticks
  | eof ↦ transitions []
  | incomplete_flux2 ↦ incomplete incomplete_flux2
  | incomplete_flux3 ↦ incomplete incomplete_flux3
  | incomplete_header ↦ incomplete incomplete_header
  | incomplete_data ↦ incomplete incomplete_data
  | beyond ↦ out_of_range
]

unfoldable pub decode_flux : (ℕ → ℕ) → List ℕ → ℕ → ℕ → Decoded
decode_flux to_ns bytes stream_start stream_end =
    flux_from to_ns (stream_end - stream_start) 0 (drop stream_start bytes) 0

pub record DecodedStreamData : Type 0 where
  pub flux_transitions : List ℕ
  pub index_pulses : List IndexTiming

pub data StreamDecoded : Type 0 where
  decoded : DecodedStreamData → StreamDecoded
  no_index_pulses : StreamDecoded
  undecoded : FluxBlock → StreamDecoded
  stream_panic : StreamDecoded

unfoldable pub decode_between : (ℕ → ℕ) → List ℕ → List IndexTiming → StreamDecoded
decode_between to_ns bytes (first ∷ second ∷ later) =
    elim (decode_flux to_ns bytes first.stream_position second.stream_position) [
      | transitions ts ↦
          decoded (record { flux_transitions = ts; index_pulses = first ∷ second ∷ later })
      | incomplete e ↦ undecoded e
      | out_of_range ↦ stream_panic
    ]
decode_between to_ns bytes pulses = no_index_pulses

unfoldable pub decode_kryoflux_stream : (ℕ → ℕ) → List ℕ → StreamDecoded
decode_kryoflux_stream to_ns bytes = decode_between to_ns bytes (decode_pulses bytes)
