-- ===== src/Volume/MbrPlacement.antt =====
-- src/volume/MbrPlacement.cpp: which types name a container, and a slot restated in bytes.
pub mod Exact
use data_recovery.Prelude.{ℕ, ◌*◌, ◌%◌, Bool, ◌||◌, ◌==◌}
use data_recovery.Core.Result.{Result, transform}
use data_recovery.Core.SafeArith.{safe_mul64, u64_mod}

-- A slot whose relative address is resolved.
pub record PlacedEntry : Type 0 where
  pub start_lba : ℕ
  pub sector_count : ℕ
  pub type_code : ℕ
  pub logical : Bool

-- One partition, in bytes of the device.
pub record MbrPartition : Type 0 where
  pub start_bytes : ℕ
  pub length_bytes : ℕ
  pub type_code : ℕ
  pub logical : Bool

-- `isExtendedType`
unfoldable pub is_extended_type : ℕ → Bool
is_extended_type type_code = (type_code == 0x05) || (type_code == 0x0f) || (type_code == 0x85)

-- `partitionOf`
unfoldable pub partition_of : PlacedEntry → ℕ → Result MbrPartition
partition_of placed sector_size =
    transform
      (λ start_bytes. record {
        start_bytes = start_bytes;
        length_bytes = (placed.sector_count * sector_size) % u64_mod;
        type_code = placed.type_code;
        logical = placed.logical;
      })
      (safe_mul64 placed.start_lba sector_size 0)
