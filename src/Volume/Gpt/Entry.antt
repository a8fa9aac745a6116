-- ===== src/Volume/Gpt/Entry.antt =====
-- src/volume/GptEntry.cpp: one slot of the entry array.
pub mod Fields
use data_recovery.Prelude.{
  ℕ, List, [], ◌∷◌, Bool, true, ◌&&◌, ltb, ◌==◌, if◌then◌else◌, length, take,
}
use data_recovery.Core.Result.{Result, ok, ◌>>=◌, error_at, out_of_range, invalid_argument}
use data_recovery.Core.Bytes.{bytes, read_le}
use data_recovery.Core.Utf16Name.{decode_utf16_name}
use data_recovery.Volume.Gpt.{guid_bytes, gpt_entry_bytes}

pub record GptEntry : Type 0 where
  pub type_guid : List ℕ
  pub first_lba : ℕ
  pub last_lba : ℕ
  pub name : List ℕ
  pub name_is_exact : Bool

-- The sectors that a slot claims, both ends included.
pub record LbaRange : Type 0 where
  pub first_lba : ℕ
  pub last_lba : ℕ

-- `nameUnitsOf`: the code units before the first NUL.
unfoldable pub name_units_of : List ℕ → List ℕ
name_units_of [] = []
name_units_of (a ∷ []) = a ∷ []
name_units_of (a ∷ b ∷ field) =
    let rest = name_units_of field in if (a == 0) && (b == 0) then [] else a ∷ b ∷ rest

-- `rangeOf`
unfoldable pub range_of : List ℕ → Result LbaRange
range_of span = do
  first ← read_le 8 span 0x20
  last ← read_le 8 span 0x28
  if ltb last first
      then error_at invalid_argument 0x28
      else ok (record { first_lba = first; last_lba = last })

-- `entryWith`
unfoldable pub entry_with : List ℕ → LbaRange → Result GptEntry
entry_with span range = do
  guid ← bytes span 0x00 guid_bytes
  name_field ← bytes span 0x38 72
  let decoded = decode_utf16_name (name_units_of name_field)
  ok (record {
    type_guid = guid;
    first_lba = range.first_lba;
    last_lba = range.last_lba;
    name = decoded.utf8;
    name_is_exact = decoded.lossless;
  })

-- `parseGptEntry`
unfoldable pub parse_gpt_entry : List ℕ → Result GptEntry
parse_gpt_entry slot =
    if ltb (length slot) gpt_entry_bytes then error_at out_of_range (length slot) else (do
      range ← range_of (take gpt_entry_bytes slot)
      entry_with (take gpt_entry_bytes slot) range)

-- `isUnusedEntry`
unfoldable pub all_zero : List ℕ → Bool
all_zero [] = true
all_zero (value ∷ values) = (value == 0) && all_zero values

unfoldable pub is_unused_entry : GptEntry → Bool
is_unused_entry entry = all_zero entry.type_guid
