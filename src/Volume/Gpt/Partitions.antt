-- ===== src/Volume/Gpt/Partitions.antt =====
-- src/volume/GptPartitions.cpp: the partitions of a disk with a GUID partition table, out of the
-- copy of the table that verifies.
pub mod Bounded
use data_recovery.Prelude.{ℕ, ◌-◌, ◌/◌, List, Bool, true, false, ◌||◌, ltb, ◌==◌, if◌then◌else◌}
use data_recovery.Core.Result.{Result, ok, err, ◌>>=◌, error_at, invalid_argument}
use data_recovery.Core.Io.{Device}
use data_recovery.Volume.SectorIo.{read_table_sector}
use data_recovery.Volume.Gpt.{GptHeader, primary_header_lba}
use data_recovery.Volume.Gpt.Header.{parse_gpt_header}
use data_recovery.Volume.Gpt.EntryArray.{read_entry_array}
use data_recovery.Volume.Gpt.Placement.{GptPartition, partitions_in}

pub record GptDisk : Type 0 where
  pub partitions : List GptPartition
  pub from_backup_header : Bool

-- `lastLbaOf`
unfoldable pub last_lba_of : Device → Result ℕ
last_lba_of device =
    if (device.sector_size == 0) || ltb device.size_in_bytes device.sector_size
    then error_at invalid_argument 0
    else ok (device.size_in_bytes / device.sector_size - 1)

-- `partitionsFor`
unfoldable pub partitions_for : Device → GptHeader → Result (List GptPartition)
partitions_for device header = do
  array ← read_entry_array device header
  partitions_in array header device.sector_size

-- `tableAt`
unfoldable pub table_at : Device → ℕ → Result (List GptPartition)
table_at device lba = do
  sector ← read_table_sector device lba
  header ← parse_gpt_header sector lba
  partitions_for device header

-- `backupTable`
unfoldable pub backup_table : Device → Result (List GptPartition)
backup_table device = do lba ← last_lba_of device; table_at device lba

-- The choice of `readGptPartitions`: the first copy, then the second, and the first one's error.
unfoldable pub first_or_backup :
    Result (List GptPartition) → Result (List GptPartition) → Result GptDisk
first_or_backup (ok primary) backup =
    ok (record { partitions = primary; from_backup_header = false })
first_or_backup (err e) (ok backup) = ok (record { partitions = backup; from_backup_header = true })
first_or_backup (err e) (err e') = err e

-- `readGptPartitions`
unfoldable pub read_gpt_partitions : Device → Result GptDisk
read_gpt_partitions device =
    first_or_backup (table_at device primary_header_lba) (backup_table device)
