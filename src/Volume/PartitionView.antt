-- ===== src/Volume/PartitionView.antt =====
-- src/volume/PartitionView.cpp: a range of a device, as a device.
pub mod Inside
use data_recovery.Prelude.{ℕ, ◌+◌, ◌-◌, ltb, leb, if◌then◌else◌, min, List}
use data_recovery.Core.Result.{Result, ok, ◌>>=◌, error_at, overflow}
use data_recovery.Core.SafeArith.{u64_max}
use data_recovery.Core.Io.{Device}
use data_recovery.Core.Io.ReadRange.{clamp_read_range}

-- `clampLength`
unfoldable pub clamp_length : ℕ → ℕ → ℕ → ℕ
clamp_length start length parent_size =
    if leb parent_size start then 0 else min length (parent_size - start)

-- `PartitionView::readAt`
unfoldable pub view_read_at : Device → ℕ → ℕ → ℕ → ℕ → Result (List ℕ)
view_read_at parent start size_in_bytes offset count =
    if ltb (u64_max - start) offset then error_at overflow offset else (do
      want ← clamp_read_range offset count size_in_bytes
      parent.read_at (start + offset) want)

-- `PartitionView`
unfoldable pub partition_view : Device → ℕ → ℕ → Device
partition_view parent start length =
    let size = clamp_length start length parent.size_in_bytes in
    record {
      read_at = view_read_at parent start size;
      sector_size = parent.sector_size;
      size_in_bytes = size;
    }
