-- ===== src/Hfe/Collect/Track.antt =====
-- The sectors of a track that mfm/writer.go wrote are all collected, each under its number.
use fdx.Prelude.{ℕ, zero, suc, ◌+◌, ◌%◌, ◌≤◌, ◌<◌, ◌≡◌, ap, ◌∙◌, arith}
use fdx.Prelude.{leb_of_le, leb_of_lt, IsByte, IsBit, List, [], length, get_or}
use fdx.Prelude.Int.{ℤ, pos}
use fdx.Mfm.Symbols.{Symbol}
use fdx.Mfm.Symbols.Width.{HasSectors}
use fdx.Mfm.Writer.{data_sum}
use fdx.Mfm.Reader.{Reader, M, got, read_sector_loop, read_sector_ibmpc}
use fdx.Mfm.Reader.Bits.{rest}
use fdx.Mfm.Reader.Scan.{fuel_for-rest}
use fdx.Mfm.Reader.Sequence.{Ahead, next_sector}
use fdx.Hfe.Collect.{store, keep_sector, collect_loop}
use fdx.Hfe.Collect.Map.{Holds, Holds-store}

-- Where the map is full the loop ends; a sector that is read is stored.
pub collect_loop-full :
    (fuel n : ℕ) (read : M (ℤ × List ℕ)) (m : List (ℕ × List ℕ)) (r : Reader)
    → n ≤ length m
    → collect_loop (suc fuel) n read m r ≡ got m r
unfolding collect_loop
collect_loop-full fuel n read m r h = rw (leb_of_le n (length m) h, collect_loop)

pub collect_loop-got :
    (fuel n : ℕ) (read : M (ℤ × List ℕ)) (m : List (ℕ × List ℕ)) (r r' : Reader) (i : ℕ)
    (d : List ℕ)
    → length m < n
    → i < n
    → read r ≡ got (pos i, d) r'
    → collect_loop (suc fuel) n read m r ≡ collect_loop fuel n read (store i d m) r'
unfolding collect_loop keep_sector
collect_loop-got fuel n read m r r' i d h hi e = ground (arith, leb_of_lt n (length m) h)

module _ (sectors : List (List ℕ)) (c h hgap sgap : ℕ) (hc : IsByte c) (hh : IsByte h)
    (hg : 4 ≤ hgap) (sg : 4 ≤ sgap) (count : ℕ) (small : count < 256)
    (has : HasSectors count sectors) where
  pub read_next :
      (n s l g : ℕ) (tail : List Symbol) (r : Reader)
      → IsBit l
      → 4 ≤ g
      → s < count
      → Ahead sectors c h hgap sgap hc hh hg sg r l g (suc n) s tail
      → (r' : Reader) × (read_sector_ibmpc c h r ≡ got (pos s, get_or sectors s []) r')
        × Ahead sectors c h hgap sgap hc hh hg sg r'
            (data_sum (get_or sectors s []) % 2)
            sgap
            n
            (s + 1)
            tail
  unfolding read_sector_ibmpc
  read_next n s l g tail r hl gg hs e =
      let (r', found, ahead) =
        next_sector sectors c h hgap sgap hc hh hg sg (length (rest r)) n s l g tail r hl gg
          (omega arith) (has s hs) e in
      (r', ap (λ f. read_sector_loop f c h r) (fuel_for-rest r) ∙ found, ahead)

  -- The rest of a track whose first `s` sectors are in the map.
  pub collect_rest :
      (n s l g fuel : ℕ) (tail : List Symbol) (m : List (ℕ × List ℕ)) (r : Reader)
      → IsBit l
      → 4 ≤ g
      → s + n ≡ count
      → n < fuel
      → Holds sectors s m
      → Ahead sectors c h hgap sgap hc hh hg sg r l g n s tail
      → (m' : List (ℕ × List ℕ)) × (r' : Reader) × (collect_loop fuel count
            (read_sector_ibmpc c h)
            m
            r
          ≡ got m' r')
        × Holds sectors count m'
  collect_rest n s l g zero tail m r hl gg hs hf hm e = absurd (omega arith)
  collect_rest zero s l g (suc fuel) tail m r hl gg hs hf hm e =
      let done : s ≡ count = omega arith in
      (
        m,
        r,
        collect_loop-full fuel count (read_sector_ibmpc c h) m r (omega (arith, hm.count)),
        rw done at hm,
      )
  collect_rest (suc n) s l g (suc fuel) tail m r hl gg hs hf hm e =
      let d = get_or sectors s [] in
      let (r1, found, ahead) = read_next n s l g tail r hl gg (omega arith) e in
      let after : Holds sectors (s + 1) (store s d m) =
        let e1 : suc s ≡ s + 1 = omega arith in rw e1 at (Holds-store sectors s m hm) in
      let (m', r', ends, holds) =
        collect_rest n (s + 1) (data_sum d % 2) sgap fuel tail (store s d m) r1 (omega arith) sg
          (omega arith) (omega arith) after ahead in
      (
        m',
        r',
        collect_loop-got fuel count (read_sector_ibmpc c h) m r r1 s d (omega (arith, hm.count))
              (omega arith) found
            ∙ ends,
        holds,
      )
