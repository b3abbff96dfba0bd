-- ===== src/Supercardpro/Actions.antt =====
-- The actions of the client of supercardpro/supercardpro.go on a device, which end in an answer or in
-- an error.
use fdx.Prelude.{ℕ}
use fdx.Supercardpro.Flux.{BitsDecoded}

-- The last four are of `Read` and `Write`; `out_of_range` is the panic of an index beyond the tracks.
pub data ScpError : Type 0 where
  data_too_long write_failed read_failed odd_length : ScpError
  echo_mismatch bad_status : ℕ → ScpError
  undecoded : BitsDecoded → ScpError
  no_transitions bad_track out_of_retries out_of_range : ScpError

pub data Answer {ℓ} (A : Type ℓ) : Type ℓ where
  ok : A → Answer A
  err : ScpError → Answer A

abbrev pub Action : Type 0 → Type 0 → Type 0
Action D A = D → Answer A × D

module _ {D : Type 0} where
  -- What comes behind an answer; an error passes.
  abbrev pub go_on : {A B : Type 0} → (A → Action D B) → Answer A × D → Answer B × D
  go_on f (ok a, s) = f a s
  go_on f (err e, s) = (err e, s)

  infixl 5 ◌>>=◌ ◌>>◌
  abbrev pub ◌>>=◌ : {A B : Type 0} → Action D A → (A → Action D B) → Action D B
  ◌>>=◌ m f s = go_on f (m s)

  abbrev pub ◌>>◌ : {A B : Type 0} → Action D A → Action D B → Action D B
  m >> k = m >>= λ _. k

  abbrev pub pure : {A : Type 0} → A → Action D A
  pure a s = (ok a, s)
