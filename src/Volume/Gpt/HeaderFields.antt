-- ===== src/Volume/Gpt/HeaderFields.antt =====
-- src/volume/GptHeaderFields.cpp: one rule for each field of the header.
use data_recovery.Prelude.{
  ℕ, ◌+◌, ◌*◌, ◌%◌, List, ◌∷◌, ◌++◌, Bool, true, not, ◌||◌, ltb, ◌==◌, if◌then◌else◌, length, take,
  drop, same_bytes,
}
use data_recovery.Core.Result.{Result, ok, ◌>>=◌, error_at, out_of_range, invalid_argument}
use data_recovery.Core.SafeArith.{u64_mod}
use data_recovery.Core.Bytes.{bytes, read_le}
use data_recovery.Core.Crc32.{crc32}
use data_recovery.Volume.Gpt.{
  GptHeader, blank_header, gpt_header_bytes, gpt_entry_bytes, gpt_signature, max_entry_array_bytes,
}

-- The bytes with their checksum field, if they reach that far, as zeros.
unfoldable pub without_checksum : List ℕ → List ℕ
without_checksum header =
    if ltb (length header) (0x10 + 4)
    then header
    else take 0x10 header ++ (0 ∷ 0 ∷ 0 ∷ 0 ∷ drop (0x10 + 4) header)

-- `withUsableRange`
unfoldable pub with_usable_range : List ℕ → GptHeader → Result GptHeader
with_usable_range span header = do
  first ← read_le 8 span 0x28
  last ← read_le 8 span 0x30
  if ltb last first
      then error_at invalid_argument 0x28
      else ok (record header { first_usable_lba = first; last_usable_lba = last })

-- `entrySizeIn`
unfoldable pub entry_size_in : List ℕ → Result ℕ
entry_size_in span = do
  size ← read_le 4 span 0x54
  if ltb size gpt_entry_bytes || not (size % 8 == 0)
      then error_at invalid_argument 0x54
      else ok size

-- `entryCountIn`
unfoldable pub entry_count_in : List ℕ → ℕ → Result ℕ
entry_count_in span entry_bytes = do
  count ← read_le 4 span 0x50
  if ltb max_entry_array_bytes (count * entry_bytes % u64_mod)
      then error_at out_of_range 0x50
      else ok count

-- `withEntryArray`
unfoldable pub with_entry_array : List ℕ → GptHeader → Result GptHeader
with_entry_array span header = do
  entry_bytes ← entry_size_in span
  count ← entry_count_in span entry_bytes
  ok (record header { entry_bytes = entry_bytes; entry_count = count })

-- `withPlacement`
unfoldable pub with_placement : List ℕ → GptHeader → Result GptHeader
with_placement span header = do
  mine ← read_le 8 span 0x18
  alternate ← read_le 8 span 0x20
  ok (record header { my_lba = mine; alternate_lba = alternate })

-- `withArrayLocation`
unfoldable pub with_array_location : List ℕ → GptHeader → Result GptHeader
with_array_location span header = do
  lba ← read_le 8 span 0x48
  crc ← read_le 4 span 0x58
  ok (record header { entry_array_lba = lba; entry_array_crc = crc })

-- `namesGpt`
unfoldable pub names_gpt : List ℕ → Result Bool
names_gpt span = do
  raw ← bytes span 0x00 8
  if same_bytes raw gpt_signature then ok true else error_at invalid_argument 0x00

-- `headerSizeIn`
unfoldable pub header_size_in : List ℕ → ℕ → Result ℕ
header_size_in span available = do
  size ← read_le 4 span 0x0c
  if ltb size gpt_header_bytes || ltb available size
      then error_at invalid_argument 0x0c
      else ok size

-- `checksumIsValid`
unfoldable pub checksum_is_valid : List ℕ → Result Bool
checksum_is_valid header = do
  stated ← read_le 4 header 0x10
  if crc32 (without_checksum header) == stated then ok true else error_at invalid_argument 0x10

-- `placedAt`
unfoldable pub placed_at : List ℕ → ℕ → Result Bool
placed_at span at_lba = do
  mine ← read_le 8 span 0x18
  if mine == at_lba then ok true else error_at invalid_argument 0x18

-- `headerBodyOf`
unfoldable pub header_body_of : List ℕ → Result GptHeader
header_body_of span = do
  placed ← with_placement span blank_header
  usable ← with_usable_range span placed
  located ← with_array_location span usable
  with_entry_array span located
