-- ===== src/Examples/Kryoflux.antt =====
-- The results about KryoFlux streams at small concrete inputs.
use fdx.Prelude.{ℕ, ◌+◌, ◌*◌, ◌/◌, ◌≡◌, refl, arith, map, true, false}
use fdx.Prelude.{All, List, [], ◌∷◌, ◌++◌}
use fdx.Kryoflux.Stream.{
  IndexTiming, find_end_of_stream, dword, decode_pulses, pulses_from, read_oob, index_pulse,
  block_rest,
}
use fdx.Kryoflux.Flux.{
  decode_flux, decoded, decode_kryoflux_stream, decode_between, flux_from, flux_block, flux2,
}
use fdx.Kryoflux.Blocks.{
  Block, value1, value2, overflow16, oob, IsBlock, stream_bytes, position, oob_bytes, times, pulses,
}
use fdx.Kryoflux.Pulses.{find_end_of_stream-blocks}
use fdx.Kryoflux.Transitions.{decode_kryoflux_stream-blocks}
use fdx.Kryoflux.Order.{IsTimed, decode_flux-IsTimed}
use fdx.Kryoflux.Cells.{rates, rates_of}
use fdx.Kryoflux.Cells.Speeds.{IsNearest, IsSpeed, rates_of-IsNearest}

-- An index block with a position below 256.
abbrev index_at : ℕ → Block
index_at n = oob 2 12 0 (n ∷ 0 ∷ 0 ∷ 0 ∷ 66 ∷ 0 ∷ 0 ∷ 0 ∷ n ∷ 0 ∷ 0 ∷ 0 ∷ [])

abbrev timing_at : ℕ → IndexTiming
timing_at n = record { stream_position = n; sample_counter = 66; index_counter = n }

abbrev between : List Block
between = value1 0x20 ∷ value2 1 0 ∷ overflow16 ∷ value1 0x30 ∷ []

abbrev blocks : List Block
blocks = (index_at 16 ∷ []) ++ (between ++ (index_at 21 ∷ []))

index_at-IsBlock : (n : ℕ) → IsBlock (index_at n)
index_at-IsBlock n = (ground arith, refl)

between-IsBlock : All IsBlock between
between-IsBlock = (omega arith, (omega arith, (tt, (omega arith, tt))))

blocks-IsBlock : All IsBlock blocks
blocks-IsBlock = (
  index_at-IsBlock 16,
  (omega arith, (omega arith, (tt, (omega arith, (index_at-IsBlock 21, tt))))),
)

blocks-pulses : pulses blocks ≡ timing_at 16 ∷ timing_at 21 ∷ []
unfolding pulses dword
blocks-pulses = refl

find_end_of_stream_example :
    (find_end_of_stream (stream_bytes blocks) ≡ false)
    × (find_end_of_stream (stream_bytes blocks ++ (0x0d ∷ 0x0d ∷ 0x0d ∷ 0x0d ∷ [])) ≡ true)
find_end_of_stream_example = find_end_of_stream-blocks blocks 0x0d 0x0d [] blocks-IsBlock

-- 41 nanoseconds per tick.
abbrev ns : ℕ → ℕ
ns ticks = ticks * 41

decode_kryoflux_stream_example :
    decode_kryoflux_stream ns (stream_bytes blocks ++ (0x0d ∷ 0x0d ∷ 0x0d ∷ 0x0d ∷ []))
    ≡ decoded (record {
      flux_transitions = map ns (times 0 between);
      index_pulses = timing_at 16 ∷ timing_at 21 ∷ [];
    })
unfolding stream_bytes position oob_bytes
decode_kryoflux_stream_example =
    decode_kryoflux_stream-blocks ns (index_at 16 ∷ []) between (index_at 21 ∷ []) (timing_at 16)
      (timing_at 21) [] 0x0d 0x0d [] blocks-IsBlock between-IsBlock blocks-pulses refl refl

-- Index blocks with the stream positions 1 and 3, so that 0x30 and 0x40 lie between them. The first is
-- out of band and comes before them, and what is decoded are its own second and third byte.
decoded_too_early :
    decode_kryoflux_stream ns
      (stream_bytes (index_at 1 ∷ value1 0x20 ∷ value1 0x30 ∷ value1 0x40 ∷ index_at 3 ∷ []))
    ≡ decoded (record {
      flux_transitions = ns (2 * 256 + 12) ∷ [];
      index_pulses = timing_at 1 ∷ timing_at 3 ∷ [];
    })
unfolding stream_bytes decode_kryoflux_stream decode_between decode_flux flux_from flux_block flux2
    decode_pulses pulses_from read_oob index_pulse dword block_rest
decoded_too_early = refl

documented_times :
    (position (index_at 1 ∷ value1 0x20 ∷ []) ≡ 1)
    × (position (index_at 1 ∷ value1 0x20 ∷ value1 0x30 ∷ value1 0x40 ∷ []) ≡ 3)
    × (map ns (times 0 (value1 0x30 ∷ value1 0x40 ∷ [])) ≡ ns 0x30 ∷ ns 0x70 ∷ [])
unfolding position times
documented_times = (refl, refl, refl)

decode_flux_example : IsTimed 0 (decode_flux ns (0x20 ∷ 0x0b ∷ 0x30 ∷ []) 0 3)
decode_flux_example =
    decode_flux-IsTimed ns (λ a b h. omega (arith, h)) (0x20 ∷ 0x0b ∷ 0x30 ∷ []) 0 3 (omega arith)

rates_of_example :
    (rpm rate : ℕ) × (rates_of 50000 200000000 ≡ rates rpm rate)
    × IsSpeed 200000000 rpm
    × IsNearest (50000 * 1000000 / 200000000) rate
rates_of_example = rates_of-IsNearest 50000 200000000 (ground arith)
