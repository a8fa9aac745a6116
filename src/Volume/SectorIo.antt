-- ===== src/Volume/SectorIo.antt =====
-- src/volume/SectorIo.cpp: where a sector begins, and the table sector there.
pub mod Inside
use data_recovery.Prelude.{ℕ, ◌*◌, ◌/◌, List, ltb, leb, ◌==◌, if◌then◌else◌, length}
use data_recovery.Core.Result.{Result, ok, ◌>>=◌, error_at, out_of_range, invalid_argument}
use data_recovery.Core.Io.{Device}

abbrev pub mbr_sector_bytes : ℕ
mbr_sector_bytes = 512

-- `byteOffsetOf`
unfoldable pub byte_offset_of : Device → ℕ → Result ℕ
byte_offset_of device lba =
    if device.sector_size == 0
    then error_at invalid_argument 0
    else (if leb (device.size_in_bytes / device.sector_size) lba
        then error_at out_of_range device.size_in_bytes
        else ok (lba * device.sector_size))

-- `readTableSector`
unfoldable pub read_table_sector : Device → ℕ → Result (List ℕ)
read_table_sector device lba = do
  offset ← byte_offset_of device lba
  sector ← device.read_at offset mbr_sector_bytes
  if ltb (length sector) mbr_sector_bytes then error_at out_of_range offset else ok sector
