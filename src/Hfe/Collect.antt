-- ===== src/Hfe/Collect.antt =====
-- The loops that hfe/img.go, hfe/bkd.go, hfe/adf.go and hfe/verify.go share: the sectors of a track
-- are read into a map by number, and written from it in order.
pub mod Map
pub mod Track
pub mod Encoded
pub mod Counted
pub mod Ends
use fdx.Prelude.{ℕ, zero, suc, ◌+◌, ◌-◌, Bool, true, false, if◌then◌else◌, ltb, leb, ◌==◌}
use fdx.Prelude.{Option, some, none, List, [], ◌∷◌, ◌++◌, length}
use fdx.Prelude.Int.{ℤ, pos, negsuc}
use fdx.Mfm.Reader.{Reader, Read, M, got, failed, stuck, fuel_for}

-- `sectors[k] = d` on a map from sector numbers.
unfoldable pub store : ℕ → List ℕ → List (ℕ × List ℕ) → List (ℕ × List ℕ)
store k d [] = (k, d) ∷ []
store k d ((j, e) ∷ m) = if j == k then (k, d) ∷ m else (j, e) ∷ store k d m

unfoldable pub find : ℕ → List (ℕ × List ℕ) → Option (List ℕ)
find k [] = none
find k ((j, e) ∷ m) = if j == k then some e else find k m

-- A sector number outside the track is passed over.
unfoldable pub keep_sector : ℕ → ℤ × List ℕ → List (ℕ × List ℕ) → List (ℕ × List ℕ)
keep_sector n (pos i, d) m = if ltb i n then store i d m else m
keep_sector n (negsuc i, d) m = m

-- `for len(sectors) < n`: reads until the map is full or the track ends.
unfoldable pub collect_loop : ℕ → ℕ → M (ℤ × List ℕ) → List (ℕ × List ℕ) → M (List (ℕ × List ℕ))
collect_loop zero n read m r = stuck
collect_loop (suc fuel) n read m r = elim (leb n (length m)) [
  | true ↦ got m r
  | false ↦ elim (read r) [
    | got s r' ↦ collect_loop fuel n read (keep_sector n s m) r'
    | failed r' ↦ got m r'
    | stuck ↦ stuck
  ]
]

unfoldable pub collect : ℕ → M (ℤ × List ℕ) → M (List (ℕ × List ℕ))
collect n read r = collect_loop (fuel_for r) n read [] r

-- What is appended to the file: the sectors from `s` on, `n` of them; or the first that is missing,
-- with what was appended before it.
pub data InOrder : Type 0 where
  all_written : List ℕ → InOrder
  missing : ℕ → List ℕ → InOrder

unfoldable pub write_in_order : ℕ → ℕ → List (ℕ × List ℕ) → List ℕ → InOrder
write_in_order zero s m file = all_written file
write_in_order (suc n) s m file = elim (find s m) [
  | some d ↦ write_in_order n (s + 1) m (file ++ d)
  | none ↦ missing s file
]
