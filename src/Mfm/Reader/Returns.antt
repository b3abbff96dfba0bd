-- ===== src/Mfm/Reader/Returns.antt =====
-- `CountSectorsIBMPC` of mfm/reader.go returns, on any track.
use fdx.Prelude.{ℕ, zero, suc, ◌<◌, ◌≡◌, refl, arith}
use fdx.Prelude.{Bool, true, false, ◌==◌}
use fdx.Prelude.{List, [], length}
use fdx.Mfm.Reader.{Reader, Read, M, got, failed, stuck, attempt}
use fdx.Mfm.Reader.{fuel_for, scan_ibmpc, SectorHeader}
use fdx.Mfm.Reader.{read_header}
use fdx.Mfm.Reader.{count_header, count_sectors_loop, count_sectors_ibmpc}
use fdx.Mfm.Reader.Ends.{left, Ends, Costs, read_header-Ends, scan_ibmpc-Costs}

-- The outcome is a number.
abbrev pub Returns : Read ℕ → Type 0
Returns x = (n : ℕ) × (r' : Reader) × (x ≡ got n r')

-- A loop that returns wherever fewer than `n` half-bits are left.
abbrev ReturnsBelow : ℕ → (List ℕ → M ℕ) → Type 0
ReturnsBelow n loop = (set : List ℕ) (r : Reader) → left r < n → Returns (loop set r)

count_header-Returns :
    (n : ℕ) (loop : List ℕ → M ℕ) (set : List ℕ) (h : Read SectorHeader) (k : ℕ)
    → ReturnsBelow n loop
    → k < n
    → Ends k h
    → Returns (elim h [
      | got s r2 ↦ loop (count_header s set) r2
      | failed r2 ↦ loop set r2
      | stuck ↦ stuck
    ])
count_header-Returns n loop set (got s r2) k all lt e = all (count_header s set) r2 (omega arith)
count_header-Returns n loop set (failed r2) k all lt e = all set r2 (omega arith)
count_header-Returns n loop set stuck k all lt e = absurd e

count_tag-Returns :
    (n : ℕ) (loop : List ℕ → M ℕ) (set : List ℕ) (b : Bool) (r : Reader)
    → ReturnsBelow n loop
    → left r < n
    → Returns (elim b [
      | false ↦ loop set r
      | true ↦ attempt read_header (λ r2. loop set r2) (λ s r2. loop (count_header s set) r2) r
    ])
count_tag-Returns n loop set false r all lt = all set r lt
count_tag-Returns n loop set true r all lt =
    count_header-Returns n loop set (read_header r) (left r) all lt (read_header-Ends r)

count_scan-Returns :
    (n : ℕ) (loop : List ℕ → M ℕ) (set : List ℕ) (x : Read ℕ)
    → ReturnsBelow n loop
    → Costs n x
    → Returns (elim x [
      | got tag r1 ↦ elim (tag == 0xfe) [
        | false ↦ loop set r1
        | true ↦ attempt read_header (λ r2. loop set r2) (λ s r2. loop (count_header s set) r2) r1
      ]
      | failed r1 ↦ got (length set) r1
      | stuck ↦ stuck
    ])
count_scan-Returns n loop set (got tag r1) all e =
    count_tag-Returns n loop set (tag == 0xfe) r1 all e
count_scan-Returns n loop set (failed r1) all e = (length set, r1, refl)
count_scan-Returns n loop set stuck all e = absurd e

count_loop-Returns :
    (fuel : ℕ) (set : List ℕ) (r : Reader) → left r < fuel → Returns (count_sectors_loop fuel set r)
unfolding count_sectors_loop
count_loop-Returns zero set r f = absurd (omega arith)
count_loop-Returns (suc fuel) set r f =
    count_scan-Returns (left r) (count_sectors_loop fuel) set (scan_ibmpc r)
      (λ set' r' lt. count_loop-Returns fuel set' r' (omega arith)) (scan_ibmpc-Costs r)

-- On any track CountSectorsIBMPC returns a number.
pub count_sectors_ibmpc-Returns :
    (r : Reader) → (n : ℕ) × (r' : Reader) × (count_sectors_ibmpc r ≡ got n r')
unfolding count_sectors_ibmpc fuel_for
count_sectors_ibmpc-Returns r = count_loop-Returns (fuel_for r) [] r (omega arith)
