-- ===== src/Recovery/ByteAccounting.antt =====
-- src/recovery/ByteAccounting.cpp: the regions that confidently recovered files account for, up to
-- a number of regions that on-disk metadata may not exceed.
pub mod Bounded
use data_recovery.Prelude.{ℕ, ◌+◌, ◌%◌, List, [], ◌∷◌, Bool, true, false, leb, if◌then◌else◌}
use data_recovery.Core.SafeArith.{u64_mod}
use data_recovery.Fs.Types.{
  Extent, ScanRegion, RecoveredEntry, Confidence, rejected, uncertain, valid,
}
use data_recovery.Recovery.RegionSet.{Regions, add, gaps, claimed_bytes, region_count}

abbrev pub max_accounted_regions : ℕ
max_accounted_regions = 65536

pub record ByteAccounting : Type 0 where
  pub claimed : Regions
  pub dropped : ℕ

-- `addRegion`
unfoldable pub add_region : ByteAccounting → Extent → ByteAccounting
add_region accounting extent =
    if leb max_accounted_regions (region_count accounting.claimed)
    then record accounting { dropped = (accounting.dropped + 1) % u64_mod }
    else record accounting { claimed = add extent accounting.claimed }

unfoldable pub add_regions : ByteAccounting → List Extent → ByteAccounting
add_regions accounting [] = accounting
add_regions accounting (extent ∷ extents) = add_regions (add_region accounting extent) extents

-- `account`
unfoldable pub is_trusted : Confidence → Bool
is_trusted rejected = false
is_trusted uncertain = false
is_trusted valid = true

unfoldable pub account : ByteAccounting → RecoveredEntry → ByteAccounting
account accounting entry =
    if is_trusted entry.recoverability then add_regions accounting entry.extents else accounting

-- `gaps`, `accountedBytes`
unfoldable pub unaccounted : ByteAccounting → ℕ → List ScanRegion
unaccounted accounting device_size = gaps accounting.claimed device_size

unfoldable pub accounted_bytes : ByteAccounting → ℕ
accounted_bytes accounting = claimed_bytes accounting.claimed
