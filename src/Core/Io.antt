-- ===== src/Core/Io.antt =====
-- include/revenant/core/io/BlockDevice.hpp: what a reader sees of a device, and the layers that
-- stand between a device and its readers.
pub mod ReadRange
pub mod AlignedRead
pub mod CachingDevice
pub mod BadRange
pub mod RetryingDevice
use data_recovery.Prelude.{ℕ, ◌+◌, ◌≤◌, ◌<◌, ◌≡◌, List, length, slice}
use data_recovery.Core.Result.{Result, ok}
use data_recovery.Core.SafeArith.{u64_max}

-- `BlockDevice::readAt` of a device that only looks: an offset and a count give the bytes that were
-- read, at most `count` of them, or a fault.
abbrev pub ReadAt : Type 0
ReadAt = ℕ → ℕ → Result (List ℕ)

-- A `BlockDevice`.
pub record Device : Type 0 where
  pub read_at : ReadAt
  pub sector_size : ℕ
  pub size_in_bytes : ℕ

-- The device holds `contents`, and a read that begins on it and ends within 64 bits answers them,
-- up to the end of the device.
pub record IsDevice (device : Device) (contents : List ℕ) : Type 0 where
  pub sized : device.size_in_bytes ≡ length contents
  pub addressed : length contents ≤ u64_max
  pub answers :
      (offset count : ℕ)
      → offset ≤ length contents
      → offset + count ≤ u64_max
      → device.read_at offset count ≡ ok (slice contents offset count)
