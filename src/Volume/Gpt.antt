-- ===== src/Volume/Gpt.antt =====
-- include/revenant/volume/Gpt.hpp, src/volume/GptLayout.hpp and Gpt.cpp: the header of a GUID
-- partition table.
pub mod HeaderFields
pub mod Header
pub mod Entry
pub mod EntryArray
pub mod Placement
pub mod Partitions
use data_recovery.Prelude.{ℕ, List, ◌^◌, codes}

abbrev pub primary_header_lba : ℕ
primary_header_lba = 1

abbrev pub gpt_header_bytes : ℕ
gpt_header_bytes = 92

abbrev pub guid_bytes : ℕ
guid_bytes = 16

abbrev pub gpt_entry_bytes : ℕ
gpt_entry_bytes = 128

abbrev pub max_entry_array_bytes : ℕ
max_entry_array_bytes = 0x40_0000

abbrev pub gpt_signature : List ℕ
gpt_signature = codes "EFI PART"

pub record GptHeader : Type 0 where
  pub my_lba : ℕ
  pub alternate_lba : ℕ
  pub first_usable_lba : ℕ
  pub last_usable_lba : ℕ
  pub entry_array_lba : ℕ
  pub entry_count : ℕ
  pub entry_bytes : ℕ
  pub entry_array_crc : ℕ

-- `GptHeader{}`
abbrev pub blank_header : GptHeader
blank_header = record {
  my_lba = 0;
  alternate_lba = 0;
  first_usable_lba = 0;
  last_usable_lba = 0;
  entry_array_lba = 0;
  entry_count = 0;
  entry_bytes = 0;
  entry_array_crc = 0;
}
