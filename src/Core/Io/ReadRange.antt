-- ===== src/Core/Io/ReadRange.antt =====
-- include/revenant/core/io/ReadRange.hpp: how many bytes of a request a device has.
pub mod Exact
use data_recovery.Prelude.{ℕ, ◌-◌, Bool, ◌||◌, ltb, leb, ◌==◌, if◌then◌else◌, min}
use data_recovery.Core.Result.{Result, ok, error_at, overflow}
use data_recovery.Core.SafeArith.{u64_max}

-- `clampReadRange`
unfoldable pub clamp_read_range : ℕ → ℕ → ℕ → Result ℕ
clamp_read_range offset buffer_size device_size =
    if ltb (u64_max - offset) buffer_size
    then error_at overflow offset
    else (if leb device_size offset || (buffer_size == 0)
        then ok 0
        else ok (min buffer_size (device_size - offset)))
