-- ===== src/Volume/PartitionTable.antt =====
-- src/volume/PartitionTable.cpp: which scheme a disk follows, and its numbered partitions.
pub mod Choice
pub mod Numbers
use data_recovery.Prelude.{ℕ, zero, suc, ◌+◌, ◌%◌, ◌^◌, List, [], ◌∷◌, Bool, false, if◌then◌else◌}
use data_recovery.Core.Result.{Result, ok, err, ◌>>=◌, transform}
use data_recovery.Core.Io.{Device}
use data_recovery.Volume.SectorIo.{read_table_sector}
use data_recovery.Volume.Mbr.{MbrTable, parse_mbr_sector, defers_to_gpt}
use data_recovery.Volume.MbrPlacement.{MbrPartition}
use data_recovery.Volume.MbrPartitions.{read_mbr_partitions}
use data_recovery.Volume.Gpt.Placement.{GptPartition}
use data_recovery.Volume.Gpt.Partitions.{GptDisk, read_gpt_partitions}
use data_recovery.Volume.PartitionLabel.{label_of_mbr_type, label_of_gpt_partition}

pub data PartitionScheme : Type 0 where
  mbr gpt : PartitionScheme

pub record Partition : Type 0 where
  pub start_bytes : ℕ
  pub length_bytes : ℕ
  pub number : ℕ
  pub label : List ℕ

pub record PartitionTable : Type 0 where
  pub scheme : PartitionScheme
  pub partitions : List Partition
  pub from_backup_header : Bool

-- `partitionFrom`, of an entry of each scheme.
unfoldable pub partition_from_mbr : MbrPartition → ℕ → Partition
partition_from_mbr entry number = record {
  start_bytes = entry.start_bytes;
  length_bytes = entry.length_bytes;
  number = number;
  label = label_of_mbr_type entry.type_code;
}

unfoldable pub partition_from_gpt : GptPartition → ℕ → Partition
partition_from_gpt entry number = record {
  start_bytes = entry.start_bytes;
  length_bytes = entry.length_bytes;
  number = number;
  label = label_of_gpt_partition entry;
}

-- The loop of `numbered`, with the last number that was given.
unfoldable pub numbered_after {ℓ} :
    {Entry : Type ℓ} → (Entry → ℕ → Partition) → ℕ → List Entry → List Partition
numbered_after from number [] = []
numbered_after from number (entry ∷ entries) =
    from entry ((number + 1) % 2 ^ 32) ∷ numbered_after from ((number + 1) % 2 ^ 32) entries

-- `numbered`
unfoldable pub numbered {ℓ} :
    {Entry : Type ℓ} → (Entry → ℕ → Partition) → List Entry → List Partition
numbered from entries = numbered_after from 0 entries

abbrev pub table_of_disk : GptDisk → PartitionTable
table_of_disk disk = record {
  scheme = gpt;
  partitions = numbered partition_from_gpt disk.partitions;
  from_backup_header = disk.from_backup_header;
}

-- `gptTable`
unfoldable pub gpt_table : Device → Result PartitionTable
gpt_table device = transform table_of_disk (read_gpt_partitions device)

abbrev pub table_of_entries : List MbrPartition → PartitionTable
table_of_entries entries = record {
  scheme = mbr;
  partitions = numbered partition_from_mbr entries;
  from_backup_header = false;
}

-- `mbrTable`
unfoldable pub mbr_table : Device → Result PartitionTable
mbr_table device = transform table_of_entries (read_mbr_partitions device)

-- `gptOr`, on the answer of `gptTable`.
unfoldable pub answer_or : Result PartitionTable → Result PartitionTable → Result PartitionTable
answer_or (ok table) fallback = ok table
answer_or (err e) fallback = fallback

-- `gptOr`
unfoldable pub gpt_or : Device → Result PartitionTable → Result PartitionTable
gpt_or device fallback = answer_or (gpt_table device) fallback

-- `tableFor`, on the answer of `mbrTable` and its list of partitions.
unfoldable pub listed_or : Device → PartitionTable → List Partition → Result PartitionTable
listed_or device table [] = gpt_or device (ok table)
listed_or device table (partition ∷ partitions) = ok table

unfoldable pub mbr_or_gpt : Device → Result PartitionTable → Result PartitionTable
mbr_or_gpt device (err e) = gpt_or device (err e)
mbr_or_gpt device (ok table) = listed_or device table table.partitions

-- `tableFor`
unfoldable pub table_for : Device → MbrTable → Result PartitionTable
table_for device sector_zero =
    if defers_to_gpt sector_zero then gpt_table device else mbr_or_gpt device (mbr_table device)

-- `readSectorZero`
unfoldable pub read_sector_zero : Device → Result MbrTable
read_sector_zero device = do sector ← read_table_sector device 0; parse_mbr_sector sector

-- `readPartitionTable`, on the answer of `readSectorZero`.
unfoldable pub table_on : Device → Result MbrTable → Result PartitionTable
table_on device (err e) = gpt_or device (err e)
table_on device (ok sector_zero) = table_for device sector_zero

-- `readPartitionTable`
unfoldable pub read_partition_table : Device → Result PartitionTable
read_partition_table device = table_on device (read_sector_zero device)
