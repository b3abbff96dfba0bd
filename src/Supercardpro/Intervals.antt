-- ===== src/Supercardpro/Intervals.antt =====
-- The intervals of supercardpro/write.go, read by the loop of supercardpro/read.go.
use fdx.Prelude.{
  ℕ, zero, suc, ◌+◌, ◌-◌, ◌*◌, ◌/◌, ◌%◌, ◌^◌, ◌≡◌, ◌≢◌, ◌<◌, ◌≤◌, refl, sym, ap, ◌∙◌, List, [], ◌∷◌,
  ◌++◌, append_assoc, append-nil, length, length-append, replicate, arith, u32, ltb_of_le, ==_of_ne,
}
use fdx.Supercardpro.Flux.{unit_bytes, units_bytes, units_from, encode_flux_to_scp, times_from}

-- Times that grow by whole units of 25 nanoseconds, no interval a multiple of 65536 units or of more
-- than 32 bits, and none beyond the limit.
unfoldable pub AreTimed : ℕ → ℕ → List ℕ → Type 0
AreTimed limit last [] = Unit {0}
AreTimed limit last (t ∷ ts) =
    (u : ℕ) × (t ≡ last + u * 25)
    × (u % 65536 ≢ 0)
    × (u < 2 ^ 32)
    × (t < 2 ^ 64)
    × (t ≤ limit)
    × AreTimed limit t ts

times-zero :
    (limit t : ℕ) (rest : List ℕ)
    → 0 < length rest
    → times_from limit t (0 ∷ 0 ∷ rest) ≡ times_from limit (t + 1638400) rest
unfolding times_from
times-zero limit t [] h = let absurd : ⊥ = omega arith in elim absurd [ ]
times-zero limit t (x ∷ rest) h = refl

times-zeros :
    (k limit t : ℕ) (rest : List ℕ)
    → 0 < length rest
    → times_from limit t (replicate (2 * k) 0 ++ rest) ≡ times_from limit (t + k * 1638400) rest
times-zeros zero limit t rest h = ap (λ n. times_from limit n rest) (omega arith)
times-zeros (suc k) limit t rest h =
    let e : 2 * suc k ≡ suc (suc (2 * k)) = omega arith in
    let n : t + 1638400 + k * 1638400 ≡ t + suc k * 1638400 = omega arith in
    rw e (
      times-zero limit t (replicate (2 * k) 0 ++ rest)
        (rw (length-append (replicate (2 * k) 0) rest) (omega arith))
      ∙ times-zeros k limit (t + 1638400) rest h
      ∙ ap (λ n. times_from limit n rest) n)

-- A sample of a whole interval.
times-sample :
    (limit t n : ℕ) (rest : List ℕ)
    → 0 < length rest
    → n ≢ 0
    → t + n * 25 ≤ limit
    → times_from limit t (n / 256 ∷ n % 256 ∷ rest)
      ≡ (t + n * 25) ∷ times_from limit (t + n * 25) rest
unfolding times_from
times-sample limit t n [] h nonzero within = let absurd : ⊥ = omega arith in elim absurd [ ]
times-sample limit t n (x ∷ rest) h nonzero within =
    let e : n / 256 * 256 + n % 256 ≡ n = omega arith in
    rw (e, ==_of_ne n 0 nonzero, ltb_of_le limit (t + n * 25) within) refl

times-unit :
    (limit t u : ℕ) (rest : List ℕ)
    → 0 < length rest
    → u % 65536 ≢ 0
    → t + u * 25 ≤ limit
    → times_from limit t (unit_bytes u ++ rest) ≡ (t + u * 25) ∷ times_from limit (t + u * 25) rest
unfolding unit_bytes
times-unit limit t u rest h partial within =
    let n : t + u / 65536 * 1638400 + u % 65536 * 25 ≡ t + u * 25 = omega arith in
    let later : times_from limit (t + u / 65536 * 1638400)
          (u % 65536 / 256 ∷ u % 65536 % 256 ∷ rest)
        ≡ (t + u * 25) ∷ times_from limit (t + u * 25) rest =
      times-sample limit (t + u / 65536 * 1638400) (u % 65536) rest h partial (omega arith)
      ∙ ap (λ n. n ∷ times_from limit n rest) n in
    rw (==_of_ne (u % 65536) 0 partial) (
      ap (times_from limit t) (append_assoc (replicate (2 * (u / 65536)) 0) _ rest)
      ∙ times-zeros (u / 65536) limit t (u % 65536 / 256 ∷ u % 65536 % 256 ∷ rest) (omega arith)
      ∙ later)

-- An interval that nothing follows gives no time.
times-unit_last : (limit t u : ℕ) → times_from limit t (unit_bytes u) ≡ []
unfolding unit_bytes times_from
times-unit_last limit t u = times-zeros (u / 65536) limit t _ (omega arith)

unit_of :
    (last u t : ℕ)
    → t ≡ last + u * 25
    → u < 2 ^ 32
    → t < 2 ^ 64
    → u32 ((t + 2 ^ 64 - last) % 2 ^ 64 / 25) ≡ u
unit_of last u t e hu ht = omega arith

times-encoded :
    (limit last : ℕ) (ts : List ℕ) (rest : List ℕ)
    → 0 < length rest
    → AreTimed limit last ts
    → ((t : ℕ) → times_from limit t rest ≡ [])
    → times_from limit last (units_bytes (units_from last ts) ++ rest) ≡ ts
unfolding AreTimed units_from units_bytes
times-encoded limit last [] rest h timed ends = ends last
times-encoded limit last (t ∷ ts) rest h (u, e, partial, small, bound, within, later) ends =
    rw (unit_of last u t e small bound) (
      ap (times_from limit last) (append_assoc (unit_bytes u) _ rest)
      ∙ times-unit limit last u (units_bytes (units_from t ts) ++ rest)
          (rw (length-append (units_bytes (units_from t ts)) rest) (omega arith)) partial
          (rw (sym e) within)
      ∙ ap (λ n. n ∷ times_from limit n (units_bytes (units_from t ts) ++ rest)) (sym e)
      ∙ ap (◌∷◌ t) (times-encoded limit t ts rest h later ends))

units_from-append :
    (last : ℕ) (ts : List ℕ) (t : ℕ)
    → (u : ℕ) × (units_bytes (units_from last (ts ++ (t ∷ [])))
        ≡ units_bytes (units_from last ts) ++ unit_bytes u)
unfolding units_from units_bytes
units_from-append last [] t = (_, append-nil _)
units_from-append last (x ∷ ts) t =
    let (u, e) = units_from-append x ts t in
    let here = unit_bytes (u32 ((x + 2 ^ 64 - last) % 2 ^ 64 / 25)) in
    (
      u,
      ap (λ bs. here ++ bs) e
          ∙ sym (append_assoc here (units_bytes (units_from x ts)) (unit_bytes u)),
    )

length-unit_bytes : (u : ℕ) → 0 < length (unit_bytes u)
unfolding unit_bytes
length-unit_bytes u = rw (length-append {A = ℕ} (replicate (2 * (u / 65536)) 0) _) (omega arith)

-- For times that grow from 0 by whole units of 25 ns, no interval a multiple of 65536 units, none
-- of 2^32 units, and none behind the index time: the loop of decodeFluxToMFM returns the times from
-- what encodeFluxToSCP makes of them where one more byte follows, and it returns them without the
-- last one, whatever that is, from what encodeFluxToSCP makes of all.
pub times_from-encode :
    (limit : ℕ) (ts : List ℕ)
    → AreTimed limit 0 ts
    → ((x : ℕ) → times_from limit 0 (encode_flux_to_scp ts ++ (x ∷ [])) ≡ ts)
      × ((t : ℕ) → times_from limit 0 (encode_flux_to_scp (ts ++ (t ∷ []))) ≡ ts)
unfolding encode_flux_to_scp times_from
times_from-encode limit ts timed = (
  λ x. times-encoded limit 0 ts (x ∷ []) (omega arith) timed (λ t. refl),
  λ t.
      let (u, e) = units_from-append 0 ts t in
      ap (times_from limit 0) e
      ∙ times-encoded limit 0 ts (unit_bytes u) (length-unit_bytes u) timed
          (λ n. times-unit_last limit n u),
)
