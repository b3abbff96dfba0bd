-- ===== src/Mfm/Reader.antt =====
-- mfm/reader.go: the bit reader and the IBM PC sector reader.
pub mod Bits
pub mod Scan
pub mod Gaps
pub mod Quiet
pub mod Wash
pub mod Parts
pub mod Sectors
pub mod Sequence
pub mod Count
pub mod Ends
pub mod Returns
use fdx.Prelude.{ℕ, zero, suc, ◌+◌, ◌-◌, ◌*◌, ◌/◌, ◌%◌, ◌^◌, bit_or, Bool, true, false, not, ◌||◌}
use fdx.Prelude.{if◌then◌else◌, ltb, leb, ◌==◌, u8, u16, ◌<<<◌, ◌>>>◌}
use fdx.Prelude.{List, [], ◌∷◌, ◌++◌, length, get_or}
use fdx.Prelude.Int.{ℤ, pos, negsuc, sub_ℕ}
use fdx.Mfm.Writer.{header_sum, data_sum}

pub record Reader : Type 0 where
  pub bytes : List ℕ
  pub bit_pos : ℕ

unfoldable pub new_reader : List ℕ → Reader
new_reader bytes = record { bytes = bytes; bit_pos = 0 }

-- A value, or the error "end of bitstream", with the reader as it is left. `stuck` is no Go
-- value: a loop ran out of fuel.
pub data Read {ℓ} (A : Type ℓ) : Type ℓ where
  got : A → Reader → Read A
  failed : Reader → Read A
  stuck : Read A

abbrev pub M {ℓ} : Type ℓ → Type ℓ
M A = Reader → Read A

-- `if err != nil { return err }`
infixl 5 ◌>>=◌
abbrev pub ◌>>=◌ {ℓ κ} : {A : Type ℓ} {B : Type κ} → M A → (A → M B) → M B
◌>>=◌ m f r = elim (m r) [ got a r' ↦ f a r' | failed r' ↦ failed r' | stuck ↦ stuck ]

-- `if err != nil { continue }`, where `again` is the next round of the loop.
abbrev pub attempt {ℓ κ} : {A : Type ℓ} {B : Type κ} → M A → M B → (A → M B) → M B
attempt m again f r = elim (m r) [ got a r' ↦ f a r' | failed r' ↦ again r' | stuck ↦ stuck ]

abbrev pub pure {ℓ} : {A : Type ℓ} → A → M A
pure a r = got a r

unfoldable pub read_half_bit : M ℕ
read_half_bit r =
    if leb (8 * length r.bytes) r.bit_pos
    then failed r
    else got ((get_or r.bytes (r.bit_pos / 8) 0 >>> (7 - r.bit_pos % 8)) % 2)
        (record r { bit_pos = r.bit_pos + 1 })

unfoldable pub read_bit : M ℕ
read_bit = do clock ← read_half_bit; read_half_bit

-- `n` more bits of the byte whose higher bits are `result`.
unfoldable pub read_bits : ℕ → ℕ → M ℕ
read_bits zero result = pure result
read_bits (suc n) result = do bit ← read_bit; read_bits n (bit_or (u8 (result <<< 1)) bit)

unfoldable pub read_byte : M ℕ
read_byte = read_bits 8 0

unfoldable pub read_bytes : ℕ → M (List ℕ)
read_bytes zero = pure []
read_bytes (suc n) = do b ← read_byte; bs ← read_bytes n; pure (b ∷ bs)

-- The half-bits that are left, and one more: enough rounds for every loop below.
unfoldable pub fuel_for : Reader → ℕ
fuel_for r = suc (8 * length r.bytes - r.bit_pos)

unfoldable pub shift_history : ℕ → ℕ → ℕ
shift_history history bit = bit_or (history * 2 % 2 ^ 64) bit % 2 ^ 48

unfoldable pub is_mark : ℕ → Bool
is_mark history = history == 0x4489_4489_4489 || history == 0x5284_5284_5284

unfoldable pub scan_loop : ℕ → ℕ → M ℕ
scan_loop zero history r = stuck
scan_loop (suc fuel) history r =
    (do
      bit ← read_half_bit
      let history' = shift_history history bit
      λ r'. elim (is_mark history') [ true ↦ read_byte r' | false ↦ scan_loop fuel history' r' ])
      r

unfoldable pub scan_ibmpc : M ℕ
scan_ibmpc r = scan_loop (fuel_for r) 0 r

pub record SectorHeader : Type 0 where
  pub cylinder : ℕ
  pub head : ℕ
  pub sector : ℕ
  pub size : ℕ
  pub sum : ℕ

-- `uint16(high)<<8 | uint16(low)`
unfoldable pub read_sum : M ℕ
read_sum = do high ← read_byte; low ← read_byte; pure (bit_or (u16 (high <<< 8)) low)

unfoldable pub read_header : M SectorHeader
read_header = do
  cylinder ← read_byte
  head ← read_byte
  sector ← read_byte
  size ← read_byte
  sum ← read_sum
  pure (record { cylinder = cylinder; head = head; sector = sector; size = size; sum = sum })

unfoldable pub is_good_sum : SectorHeader → Bool
is_good_sum h = header_sum h.cylinder h.head h.sector h.size == h.sum

-- `int(sector) - 1`
unfoldable pub sector_index : ℕ → ℤ
sector_index sector = sub_ℕ sector 1

-- What follows a good header: the data mark, 512 bytes and their checksum.
unfoldable pub read_sector_data : M (ℤ × List ℕ) → ℕ → M (ℤ × List ℕ)
read_sector_data again sector = do
  tag ← scan_ibmpc
  λ r.
      if not (tag == 0xfb)
      then again r
      else (do
        bytes ← read_bytes 512
        sum ← read_sum
        λ r'. if not (data_sum bytes == sum) then again r' else got (sector_index sector, bytes) r')
          r

-- One round of the loop of `ReadSectorIBMPC`.
unfoldable pub read_sector_round : M (ℤ × List ℕ) → ℕ → ℕ → M (ℤ × List ℕ)
read_sector_round again cylinder head = do
  tag ← scan_ibmpc
  λ r.
      if not (tag == 0xfe)
      then again r
      else attempt read_header again
          (λ h r'.
            if not (is_good_sum h)
            then again r'
            else if not (h.cylinder * 2 + h.head == cylinder * 2 + head)
            then again r'
            else if not (h.size == 2)
            then again r'
            else read_sector_data again h.sector r')
          r

unfoldable pub read_sector_loop : ℕ → ℕ → ℕ → M (ℤ × List ℕ)
read_sector_loop zero cylinder head r = stuck
read_sector_loop (suc fuel) cylinder head r =
    read_sector_round (λ r'. read_sector_loop fuel cylinder head r') cylinder head r

unfoldable pub read_sector_ibmpc : ℕ → ℕ → M (ℤ × List ℕ)
read_sector_ibmpc cylinder head r = read_sector_loop (fuel_for r) cylinder head r

-- `sectors[sectorNum] = true` on a map from numbers.
unfoldable pub insert : ℕ → List ℕ → List ℕ
insert k [] = k ∷ []
insert k (j ∷ js) = if j == k then j ∷ js else j ∷ insert k js

-- What one header adds to the set; `sector - 1` is negative for sector 0 alone.
unfoldable pub count_header : SectorHeader → List ℕ → List ℕ
count_header h sectors =
    if not (is_good_sum h)
    then sectors
    else if not (h.size == 2)
    then sectors
    else if h.sector == 0
    then sectors
    else insert (h.sector - 1) sectors

-- The loop ends where no mark is left.
unfoldable pub count_sectors_loop : ℕ → List ℕ → M ℕ
count_sectors_loop zero sectors r = stuck
count_sectors_loop (suc fuel) sectors r = elim (scan_ibmpc r) [
  | got tag r' ↦ elim (tag == 0xfe) [
    | false ↦ count_sectors_loop fuel sectors r'
    | true ↦
        attempt read_header (λ r''. count_sectors_loop fuel sectors r'')
          (λ h r''. count_sectors_loop fuel (count_header h sectors) r'') r'
  ]
  | failed r' ↦ got (length sectors) r'
  | stuck ↦ stuck
]

unfoldable pub count_sectors_ibmpc : M ℕ
count_sectors_ibmpc r = count_sectors_loop (fuel_for r) [] r
