-- ===== src/Kryoflux/Order.antt =====
-- decodeFlux of kryoflux/read.go on any bytes.
use fdx.Prelude.{ℕ, zero, suc, ◌+◌, ◌-◌, ◌≤◌, ◌≢◌, ◌≡◌, refl, arith}
use fdx.Prelude.{List, [], ◌∷◌, length, drop, length-drop}
use fdx.Kryoflux.Flux.{
  FluxBlock, flux, passed, overflow, eof, incomplete_flux2, incomplete_flux3, incomplete_header,
  incomplete_data, beyond, flux_block, flux_oob, flux2, flux3, Decoded, transitions, incomplete,
  out_of_range, with_transition, flux_from, decode_flux,
}

-- The times ascend from `low` on.
abbrev pub Ascends : ℕ → List ℕ → Type 0
Ascends low [] = Unit
Ascends low (t ∷ ts) = (low ≤ t) × Ascends t ts

-- Transitions in order, or an error, but no panic.
abbrev pub IsTimed : ℕ → Decoded → Type 0
IsTimed low (transitions ts) = Ascends low ts
IsTimed low (incomplete e) = Unit
IsTimed low out_of_range = ⊥

flux2-inside : (left val : ℕ) (behind : List ℕ) → 1 ≤ length behind → flux2 val behind ≢ beyond
unfolding flux2
flux2-inside left val [] h = omega (arith, h)
flux2-inside left val (low ∷ behind) h = cc

flux3-inside : (behind : List ℕ) → 2 ≤ length behind → flux3 behind ≢ beyond
unfolding flux3
flux3-inside [] h = omega (arith, h)
flux3-inside (high ∷ []) h = omega (arith, h)
flux3-inside (high ∷ low ∷ behind) h = cc

flux_oob-inside : (left : ℕ) (behind : List ℕ) → 3 ≤ length behind → flux_oob left behind ≢ beyond
unfolding flux_oob
flux_oob-inside left [] h = omega (arith, h)
flux_oob-inside left (kind ∷ []) h = omega (arith, h)
flux_oob-inside left (kind ∷ low ∷ []) h = omega (arith, h)
flux_oob-inside left (kind ∷ low ∷ high ∷ body) h = ground arith

-- With as many bytes as positions, no block reaches beyond the bytes.
flux_block-inside :
    (left val : ℕ) (behind : List ℕ) → left ≤ length behind → flux_block left val behind ≢ beyond
unfolding flux_block
flux_block-inside left val behind h =
    ground (arith, flux2-inside left val behind, flux3-inside behind, flux_oob-inside left behind)

Ascends-from : (low high : ℕ) (ts : List ℕ) → low ≤ high → Ascends high ts → Ascends low ts
Ascends-from low high [] h a = tt
Ascends-from low high (t ∷ ts) h a = (omega (arith, h, a.0), a.1)

IsTimed-from : (low high : ℕ) (d : Decoded) → low ≤ high → IsTimed high d → IsTimed low d
IsTimed-from low high (transitions ts) h a = Ascends-from low high ts h a
IsTimed-from low high (incomplete e) h a = tt
IsTimed-from low high out_of_range h a = a

IsTimed-with_transition :
    (low time : ℕ) (d : Decoded)
    → low ≤ time
    → IsTimed time d
    → IsTimed low (with_transition time d)
IsTimed-with_transition low time (transitions ts) h a = (h, a)
IsTimed-with_transition low time (incomplete e) h a = tt
IsTimed-with_transition low time out_of_range h a = a

module _ (to_ns : ℕ → ℕ) (mono : (a b : ℕ) → a ≤ b → to_ns a ≤ to_ns b) where
  flux_from-step :
      (fb : FluxBlock) (left val : ℕ) (behind : List ℕ) (t : ℕ)
      → flux_block left val behind ≡ fb
      → left ≤ length behind
      → ((skip u : ℕ) → IsTimed (to_ns u) (flux_from to_ns left skip behind u))
      → IsTimed (to_ns t) (flux_from to_ns (suc left) 0 (val ∷ behind) t)
  unfolding flux_from
  flux_from-step (flux value rest) left val behind t e h later =
      rw (e, flux_from)
        (IsTimed-with_transition (to_ns t) (to_ns (t + value)) _ (mono t (t + value) (omega arith))
          (later rest (t + value)))
  flux_from-step overflow left val behind t e h later =
      rw (e, flux_from)
        (IsTimed-from (to_ns t) (to_ns (t + 0x10000)) _ (mono t (t + 0x10000) (omega arith))
          (later 0 (t + 0x10000)))
  flux_from-step (passed rest) left val behind t e h later = rw (e, flux_from) (later rest t)
  flux_from-step eof left val behind t e h later = rw (e, flux_from) tt
  flux_from-step incomplete_flux2 left val behind t e h later = rw (e, flux_from) tt
  flux_from-step incomplete_flux3 left val behind t e h later = rw (e, flux_from) tt
  flux_from-step incomplete_header left val behind t e h later = rw (e, flux_from) tt
  flux_from-step incomplete_data left val behind t e h later = rw (e, flux_from) tt
  flux_from-step beyond left val behind t e h later =
      rw (e, flux_from) (flux_block-inside left val behind h e)

  flux_from-IsTimed :
      (left skip : ℕ) (bytes : List ℕ) (t : ℕ)
      → left ≤ length bytes
      → IsTimed (to_ns t) (flux_from to_ns left skip bytes t)
  unfolding flux_from
  flux_from-IsTimed zero skip bytes t h = tt
  flux_from-IsTimed (suc left) (suc skip) [] t h =
      flux_from-IsTimed left skip [] t (omega (arith, h))
  flux_from-IsTimed (suc left) (suc skip) (b ∷ bytes) t h =
      flux_from-IsTimed left skip bytes t (omega (arith, h))
  flux_from-IsTimed (suc left) zero [] t h = omega (arith, h)
  flux_from-IsTimed (suc left) zero (val ∷ behind) t h =
      flux_from-step (flux_block left val behind) left val behind t refl (omega (arith, h))
        (λ skip u. flux_from-IsTimed left skip behind u (omega (arith, h)))

  -- On any bytes, where the end position is not beyond them and the conversion to nanoseconds keeps
  -- the order, decodeFlux returns without an index out of range: with an error, or with transitions
  -- in ascending order.
  pub decode_flux-IsTimed :
      (bytes : List ℕ) (stream_start stream_end : ℕ)
      → stream_end ≤ length bytes
      → IsTimed 0 (decode_flux to_ns bytes stream_start stream_end)
  unfolding decode_flux
  decode_flux-IsTimed bytes stream_start stream_end h = IsTimed-from 0 (to_ns 0) _ (omega arith) (
      flux_from-IsTimed (stream_end - stream_start) 0 (drop stream_start bytes) 0
        (omega (arith, h, length-drop stream_start bytes)))
