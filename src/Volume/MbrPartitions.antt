-- ===== src/Volume/MbrPartitions.antt =====
-- src/volume/MbrPartitions.cpp: the partitions of a disk with a master boot record.
pub mod Bounded
use data_recovery.Prelude.{
  ℕ, zero, suc, ◌+◌, List, [], ◌∷◌, ◌++◌, false, ◌==◌, if◌then◌else◌, Option, some, none, get_or,
}
use data_recovery.Core.Result.{Result, ok, ◌>>=◌, transform, error_at, invalid_argument}
use data_recovery.Core.Io.{Device}
use data_recovery.Volume.SectorIo.{read_table_sector}
use data_recovery.Volume.Mbr.{
  MbrEntry, MbrTable, unused_entry, unused_partition_type, protective_partition_type, slot_offset,
  parse_mbr_sector,
}
use data_recovery.Volume.MbrPlacement.{MbrPartition, is_extended_type, partition_of}
use data_recovery.Volume.ExtendedChain.{logical_partitions}

-- A slot and where its type byte stands.
pub record PrimarySlot : Type 0 where
  pub entry : MbrEntry
  pub type_offset : ℕ

-- `primaryPartition`
unfoldable pub primary_partition : Device → MbrEntry → Result MbrPartition
primary_partition device entry =
    partition_of
      (record {
        start_lba = entry.start_lba;
        sector_count = entry.sector_count;
        type_code = entry.partition_type;
        logical = false;
      })
      device.sector_size

-- The partitions of a walk; the walk over a chain always answers some.
abbrev pub or_no_partitions : Option (List MbrPartition) → List MbrPartition
or_no_partitions none = []
or_no_partitions (some partitions) = partitions

abbrev pub only : MbrPartition → List MbrPartition
only partition = partition ∷ []

-- `oneOrChain`
unfoldable pub one_or_chain : Device → MbrEntry → Result (List MbrPartition)
one_or_chain device entry =
    if is_extended_type entry.partition_type
    then ok (or_no_partitions (logical_partitions device entry.start_lba))
    else transform only (primary_partition device entry)

-- `contributionOf`
unfoldable pub contribution_of : Device → PrimarySlot → Result (List MbrPartition)
contribution_of device slot =
    if slot.entry.partition_type == unused_partition_type
    then ok []
    else if slot.entry.partition_type == protective_partition_type
    then error_at invalid_argument slot.type_offset
    else one_or_chain device slot.entry

-- `slotOf`
unfoldable pub slot_of : MbrTable → ℕ → PrimarySlot
slot_of table index = record {
  entry = get_or table.entries index unused_entry;
  type_offset = slot_offset index + 0x04;
}

-- `appendSlot`
unfoldable pub append_slot : Device → MbrTable → List MbrPartition → ℕ → Result (List MbrPartition)
append_slot device table found index =
    transform (◌++◌ found) (contribution_of device (slot_of table index))

-- The loop of `partitionsOf`: `left` slots from `index` on.
unfoldable pub partitions_from :
    Device → MbrTable → List MbrPartition → ℕ → ℕ → Result (List MbrPartition)
partitions_from device table found index zero = ok found
partitions_from device table found index (suc left) = do
  longer ← append_slot device table found index
  partitions_from device table longer (suc index) left

-- `partitionsOf`
unfoldable pub partitions_of : Device → MbrTable → Result (List MbrPartition)
partitions_of device table = partitions_from device table [] 0 4

-- `readMbrPartitions`
unfoldable pub read_mbr_partitions : Device → Result (List MbrPartition)
read_mbr_partitions device = do
  sector ← read_table_sector device 0
  table ← parse_mbr_sector sector
  partitions_of device table
