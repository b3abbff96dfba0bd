-- ===== src/Mfm/Symbols/Track.antt =====
-- The IBM track layouts of mfm/writer.go as symbols.
use fdx.Prelude.{ℕ, zero, suc, ◌+◌, Bool, if◌then◌else◌, u8, ◌>>>◌}
use fdx.Prelude.{List, [], ◌∷◌, ◌++◌, get_or}
use fdx.Mfm.Symbols.{Symbol, byte_symbols, bytes_symbols, gap_symbols, a1_mark, c2_mark}
use fdx.Mfm.Writer.{header_sum, data_sum}

abbrev pub sum_bytes : ℕ → List ℕ
sum_bytes sum = u8 (sum >>> 8) ∷ u8 sum ∷ []

abbrev pub header_bytes : ℕ → ℕ → ℕ → List ℕ
header_bytes cylinder head s =
    u8 cylinder
    ∷ u8 head
    ∷ u8 (s + 1)
    ∷ 2
    ∷ sum_bytes (header_sum (u8 cylinder) (u8 head) (u8 (s + 1)) 2)

abbrev pub header_symbols : ℕ → ℕ → ℕ → List Symbol
header_symbols cylinder head s =
    (a1_mark ++ byte_symbols 0xfe) ++ bytes_symbols (header_bytes cylinder head s)

abbrev pub data_symbols : List ℕ → List Symbol
data_symbols sector_data =
    (a1_mark ++ byte_symbols 0xfb)
    ++ (bytes_symbols sector_data ++ bytes_symbols (sum_bytes (data_sum sector_data)))

abbrev pub sector_symbols : ℕ → ℕ → ℕ → ℕ → ℕ → List ℕ → List Symbol
sector_symbols cylinder head hgap sgap s sector_data =
    (header_symbols cylinder head s ++ gap_symbols hgap 0x4e)
    ++ (data_symbols sector_data ++ gap_symbols sgap 0x4e)

unfoldable pub sectors_symbols : ℕ → List (List ℕ) → ℕ → ℕ → ℕ → ℕ → ℕ → List Symbol
sectors_symbols zero sectors cylinder head hgap sgap s = []
sectors_symbols (suc n) sectors cylinder head hgap sgap s =
    sector_symbols cylinder head hgap sgap s (get_or sectors s [])
    ++ sectors_symbols n sectors cylinder head hgap sgap (s + 1)

abbrev pub preamble_symbols : Bool → List Symbol
preamble_symbols skip_index_mark =
    (if skip_index_mark then [] else gap_symbols 80 0x4e ++ (c2_mark ++ byte_symbols 0xfc))
    ++ gap_symbols 50 0x4e
