-- ===== src/Volume/ExtendedChain.antt =====
-- src/volume/ExtendedChain.cpp: the walk over the chain of an extended partition.
pub mod Ends
pub mod Found
use data_recovery.Prelude.{
  ℕ, zero, suc, ◌+◌, ◌/◌, ◌%◌, List, [], ◌∷◌, ◌++◌, Bool, true, false, not, ◌&&◌, ◌||◌, ltb, ◌==◌,
  if◌then◌else◌, Option, some, none, length, get_or,
}
use data_recovery.Core.Result.{Result, ok, err, ◌>>=◌, transform}
use data_recovery.Core.SafeArith.{u64_mod}
use data_recovery.Core.Io.{Device}
use data_recovery.Volume.SectorIo.{read_table_sector}
use data_recovery.Volume.Mbr.{
  MbrEntry, MbrTable, unused_entry, unused_partition_type, parse_mbr_sector,
}
use data_recovery.Volume.MbrPlacement.{PlacedEntry, MbrPartition, is_extended_type, partition_of}

abbrev pub max_logical_partitions : ℕ
max_logical_partitions = 128

-- What one link contributed.
pub record ChainLink : Type 0 where
  pub partition : MbrPartition
  pub describes_partition : Bool
  pub next_ebr_lba : ℕ

-- Where the walk is and what it has found; `seen` lists the latest address first.
pub record ChainWalk : Type 0 where
  pub extended_start_lba : ℕ
  pub ebr_lba : ℕ
  pub found : List MbrPartition
  pub seen : List ℕ

-- `std::ranges::find` that finds something.
unfoldable pub is_seen : ℕ → List ℕ → Bool
is_seen lba [] = false
is_seen lba (s ∷ seen) = (s == lba) || is_seen lba seen

-- `canStep`
unfoldable pub can_step : ChainWalk → Bool
can_step walk =
    not (walk.ebr_lba == 0)
    && (ltb (length walk.found) max_logical_partitions && not (is_seen walk.ebr_lba walk.seen))

-- `ChainLink{}`
abbrev pub no_link : ChainLink
no_link = record {
  partition = record { start_bytes = 0; length_bytes = 0; type_code = 0; logical = false };
  describes_partition = false;
  next_ebr_lba = 0;
}

-- `logicalOf`: the start is relative to the sector that the walk stands on.
unfoldable pub logical_of : Device → ChainWalk → MbrEntry → Result ChainLink
logical_of device walk entry =
    if (entry.partition_type == unused_partition_type) || is_extended_type entry.partition_type
    then ok no_link
    else transform
        (λ partition. record {
          partition = partition;
          describes_partition = true;
          next_ebr_lba = 0;
        })
        (partition_of
          (record {
            start_lba = (walk.ebr_lba + entry.start_lba) % u64_mod;
            sector_count = entry.sector_count;
            type_code = entry.partition_type;
            logical = true;
          })
          device.sector_size)

-- `nextLbaOf`: the start is relative to the head of the extended partition.
unfoldable pub next_lba_of : ChainWalk → MbrEntry → ℕ
next_lba_of walk entry =
    if is_extended_type entry.partition_type
    then (walk.extended_start_lba + entry.start_lba) % u64_mod
    else 0

abbrev pub leading_to : ℕ → ChainLink → ChainLink
leading_to next held = record held { next_ebr_lba = next }

-- `linkOf`, of the first two slots.
unfoldable pub link_of : Device → ChainWalk → MbrTable → Result ChainLink
link_of device walk table =
    transform (leading_to (next_lba_of walk (get_or table.entries 1 unused_entry)))
      (logical_of device walk (get_or table.entries 0 unused_entry))

-- `readLink`
unfoldable pub read_link : Device → ChainWalk → Result ChainLink
read_link device walk = do
  sector ← read_table_sector device walk.ebr_lba
  table ← parse_mbr_sector sector
  link_of device walk table

-- `record`
unfoldable pub found_with : List MbrPartition → ChainLink → List MbrPartition
found_with found link = if link.describes_partition then found ++ (link.partition ∷ []) else found

-- `step`, on the answer of `readLink`: the walk after it, and whether it goes on.
unfoldable pub step_with : ChainWalk → Result ChainLink → ChainWalk × Bool
step_with walk (err e) = (record walk { seen = walk.ebr_lba ∷ walk.seen }, false)
step_with walk (ok link) = (
  record walk {
    ebr_lba = link.next_ebr_lba;
    found = found_with walk.found link;
    seen = walk.ebr_lba ∷ walk.seen;
  },
  true,
)

-- The loop of `collect`; `none` when the fuel runs out.
unfoldable pub collect : Device → ℕ → ChainWalk → Option (List MbrPartition)
collect device zero walk = none
collect device (suc fuel) walk =
    let next = step_with walk (read_link device walk) in
    let rest = collect device fuel next.0 in
    if can_step walk then (if next.1 then rest else some next.0.found) else some walk.found

-- `logicalPartitions`. A sector that the walk goes on from lies on the device, and none is visited
-- twice.
unfoldable pub logical_partitions : Device → ℕ → Option (List MbrPartition)
logical_partitions device start =
    collect device (device.size_in_bytes / device.sector_size + 2)
      (record { extended_start_lba = start; ebr_lba = start; found = []; seen = [] })
