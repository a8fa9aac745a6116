-- ===== src/Core/Crc32.antt =====
-- src/core/Crc32.cpp: the checksum of a run of bytes, a table entry for each byte.
pub mod Xor
pub mod Bitwise
use Prim.Native.Nat.{bit_and, bit_xor}
use data_recovery.Prelude.{ℕ, zero, suc, ◌/◌, ◌%◌, ◌^◌, List, [], ◌∷◌, ◌==◌, if◌then◌else◌, get_or}

abbrev pub polynomial : ℕ
polynomial = 0xedb8_8320

abbrev pub initial : ℕ
initial = 0xffff_ffff

-- A round of `tableEntry`'s loop.
unfoldable pub shift_bit : ℕ → ℕ
shift_bit value = if value % 2 == 0 then value / 2 else bit_xor polynomial (value / 2)

-- Its loop.
unfoldable pub shift_bits : ℕ → ℕ → ℕ
shift_bits zero value = value
shift_bits (suc bits) value = shift_bits bits (shift_bit value)

-- `tableEntry`
unfoldable pub table_entry : ℕ → ℕ
table_entry index = shift_bits 8 index

-- The loop of `makeTable`: `left` entries from `index` on.
unfoldable pub table_from : ℕ → ℕ → List ℕ
table_from index zero = []
table_from index (suc left) = table_entry index ∷ table_from (suc index) left

-- `makeTable`
unfoldable pub make_table : List ℕ
make_table = table_from 0 256

-- A round of `crc32`'s loop.
unfoldable pub absorb_byte : ℕ → ℕ → ℕ
absorb_byte crc value =
    let index = bit_and (bit_xor crc value) 0xff in
    bit_xor (get_or make_table index 0) (crc / 2 ^ 8)

-- Its loop.
unfoldable pub absorb_bytes : ℕ → List ℕ → ℕ
absorb_bytes crc [] = crc
absorb_bytes crc (value ∷ rest) = absorb_bytes (absorb_byte crc value) rest

-- `crc32`
unfoldable pub crc32 : List ℕ → ℕ
crc32 span = bit_xor (absorb_bytes initial span) initial
