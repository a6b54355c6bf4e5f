-- ===== src/Api/Required.antt =====
-- The check for required fields that ends every `Decode` of order_service/internal/api/oas_json_gen.go.
-- A `uint8` is the list of its bits, the lowest first.
pub mod Marks
pub mod Missed
use l0_wb_tech_school.Base.{
  ℕ, zero, suc, ◌+◌, ◌*◌, ◌/◌, ◌%◌, Bool, true, false, ◌&&◌, not, List, [], ◌∷◌, ◌++◌, Option, none,
  some, get_elem?, if◌then◌else◌, ◌==◌, nat_eq,
}
use l0_wb_tech_school.Base.Int.{pos}
use l0_wb_tech_school.Base.Text.{Text}
use l0_wb_tech_school.Storage.Items.{decimal}

abbrev pub Byte : Type 0
Byte = List Bool

abbrev pub bits_of : ℕ → ℕ → Byte
bits_of zero n = []
bits_of (suc k) n = (n % 2 == 1) ∷ bits_of k (n / 2)

-- A literal mask.
abbrev pub byte : ℕ → Byte
byte n = bits_of 8 n

-- `var requiredBitSet [n]uint8`
unfoldable pub no_bits : List Byte → List Byte
no_bits [] = []
no_bits (_ ∷ masks) = byte 0 ∷ no_bits masks

abbrev pub set_bit : ℕ → Byte → Byte
set_bit i [] = []
set_bit zero (b ∷ bits) = true ∷ bits
set_bit (suc i) (b ∷ bits) = b ∷ set_bit i bits

abbrev set_in : ℕ → ℕ → List Byte → List Byte
set_in i j [] = []
set_in zero j (b ∷ bytes) = set_bit j b ∷ bytes
set_in (suc i) j (b ∷ bytes) = b ∷ set_in i j bytes

-- `requiredBitSet[n / 8] |= 1 << (n % 8)`: the two indices are those of the generated line of the
-- `n`-th field.
unfoldable pub mark : ℕ → List Byte → List Byte
mark n seen = set_in (n / 8) (n % 8) seen

-- `(seen & mask) ^ mask`, which has the bits of the mask that were not seen.
unfoldable pub unseen : Byte → Byte → Byte
unseen [] _ = []
unseen (m ∷ mask) [] = m ∷ unseen mask []
unseen (m ∷ mask) (s ∷ seen) = (m && not s) ∷ unseen mask seen

-- `bits.OnesCount8`
unfoldable pub ones_count : Byte → ℕ
ones_count [] = 0
ones_count (b ∷ bits) = if b then suc (ones_count bits) else ones_count bits

-- `bits.TrailingZeros8`
unfoldable pub trailing_zeros : Byte → ℕ
trailing_zeros [] = 0
trailing_zeros (b ∷ bits) = if b then 0 else suc (trailing_zeros bits)

-- `result &^= 1 << i`
unfoldable pub reset_bit : ℕ → Byte → Byte
reset_bit i [] = []
reset_bit zero (b ∷ bits) = false ∷ bits
reset_bit (suc i) (b ∷ bits) = b ∷ reset_bit i bits

-- The name of a field, or its number where the table of names is too short.
unfoldable pub field_name : List Text → ℕ → Text
field_name names i = elim (get_elem? names i) [ some name ↦ name | none ↦ decimal (pos i) ]

-- `for bitN := 0; bitN < missed; bitN++`, with the field names of byte `i`.
unfoldable pub missed_bits : List Text → ℕ → ℕ → Byte → List Text
missed_bits names i zero result = []
missed_bits names i (suc missed) result =
    field_name names (i * 8 + trailing_zeros result)
    ∷ missed_bits names i missed (reset_bit (trailing_zeros result) result)

-- `for i, mask := range masks`, from byte `i` on. A result of zero has no bit to report.
unfoldable pub missed_fields : List Text → ℕ → List Byte → List Byte → List Text
unfolding unseen ones_count missed_bits
missed_fields names i [] seen = []
missed_fields names i (mask ∷ masks) [] = []
missed_fields names i (mask ∷ masks) (bits ∷ seen) =
    let result = unseen mask bits in
    missed_bits names i (ones_count result) result ++ missed_fields names (suc i) masks seen
