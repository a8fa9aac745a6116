-- ===== src/Volume/Gpt/EntryArray.antt =====
-- src/volume/GptEntryArray.cpp: the entry array that a header vouches for.
use data_recovery.Prelude.{ℕ, ◌*◌, ◌%◌, List, ltb, ◌==◌, if◌then◌else◌, length}
use data_recovery.Core.Result.{Result, ok, ◌>>=◌, error_at, out_of_range, invalid_argument}
use data_recovery.Core.SafeArith.{u64_mod}
use data_recovery.Core.Crc32.{crc32}
use data_recovery.Core.Io.{Device}
use data_recovery.Volume.SectorIo.{byte_offset_of}
use data_recovery.Volume.Gpt.{GptHeader}

pub record ArrayExtent : Type 0 where
  pub offset : ℕ
  pub size : ℕ

-- `arrayBytesOf`
unfoldable pub array_bytes_of : GptHeader → ℕ
array_bytes_of header = header.entry_count * header.entry_bytes % u64_mod

-- `arrayAt`
unfoldable pub array_at : Device → ArrayExtent → Result (List ℕ)
array_at device extent = do
  array ← device.read_at extent.offset extent.size
  if ltb (length array) extent.size then error_at out_of_range extent.offset else ok array

-- `checksummed`
unfoldable pub checksummed : List ℕ → GptHeader → Result (List ℕ)
checksummed array header =
    if crc32 array == header.entry_array_crc then ok array else error_at invalid_argument 0x58

-- `readEntryArray`
unfoldable pub read_entry_array : Device → GptHeader → Result (List ℕ)
read_entry_array device header = do
  offset ← byte_offset_of device header.entry_array_lba
  array ← array_at device (record { offset = offset; size = array_bytes_of header })
  checksummed array header
