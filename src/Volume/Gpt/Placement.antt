-- ===== src/Volume/Gpt/Placement.antt =====
-- src/volume/GptPlacement.cpp: the used slots of an entry array, in bytes of the device.
pub mod Exact
use data_recovery.Prelude.{
  ℕ, zero, suc, ◌+◌, ◌-◌, ◌*◌, ◌%◌, List, [], ◌∷◌, ◌++◌, Bool, if◌then◌else◌, slice,
}
use data_recovery.Core.Result.{Result, ok, ◌>>=◌}
use data_recovery.Core.SafeArith.{u64_mod, safe_add64, safe_mul64}
use data_recovery.Volume.Gpt.{GptHeader}
use data_recovery.Volume.Gpt.Entry.{GptEntry, parse_gpt_entry, is_unused_entry}

-- One partition, in bytes of the device.
pub record GptPartition : Type 0 where
  pub start_bytes : ℕ
  pub length_bytes : ℕ
  pub type_guid : List ℕ
  pub name : List ℕ
  pub name_is_exact : Bool

-- `lengthBytesOf`; the difference is one of 64-bit words.
unfoldable pub length_bytes_of : GptEntry → ℕ → Result ℕ
length_bytes_of entry sector_size = do
  sectors ← safe_add64 ((entry.last_lba + u64_mod - entry.first_lba) % u64_mod) 1 0
  safe_mul64 sectors sector_size 0

-- `partitionOf`
unfoldable pub gpt_partition_of : GptEntry → ℕ → Result GptPartition
gpt_partition_of entry sector_size = do
  start_bytes ← safe_mul64 entry.first_lba sector_size 0
  length_bytes ← length_bytes_of entry sector_size
  ok (record {
    start_bytes = start_bytes;
    length_bytes = length_bytes;
    type_guid = entry.type_guid;
    name = entry.name;
    name_is_exact = entry.name_is_exact;
  })

-- What a slot adds to the list.
unfoldable pub append_parsed : GptEntry → List GptPartition → ℕ → Result (List GptPartition)
append_parsed entry found sector_size =
    if is_unused_entry entry
    then ok found
    else (do partition ← gpt_partition_of entry sector_size; ok (found ++ (partition ∷ [])))

-- `appendEntry`
unfoldable pub append_entry : List ℕ → List GptPartition → ℕ → Result (List GptPartition)
append_entry slot found sector_size = do
  entry ← parse_gpt_entry slot
  append_parsed entry found sector_size

-- `slotAt`; the window lies inside the array.
unfoldable pub slot_at : List ℕ → GptHeader → ℕ → List ℕ
slot_at array header index = slice array (index * header.entry_bytes % u64_mod) header.entry_bytes

-- The loop of `partitionsIn`: `left` slots from `index` on.
unfoldable pub entries_from :
    List ℕ → GptHeader → ℕ → List GptPartition → ℕ → ℕ → Result (List GptPartition)
entries_from array header sector_size found index zero = ok found
entries_from array header sector_size found index (suc left) = do
  longer ← append_entry (slot_at array header index) found sector_size
  entries_from array header sector_size longer (suc index) left

-- `partitionsIn`
unfoldable pub partitions_in : List ℕ → GptHeader → ℕ → Result (List GptPartition)
partitions_in array header sector_size =
    entries_from array header sector_size [] 0 header.entry_count
