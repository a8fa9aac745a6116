-- ===== src/Tests/Volume.antt =====
-- src/volume at concrete inputs.
use data_recovery.Prelude.{
  ℕ, zero, suc, ◌≤◌, ◌≡◌, refl, List, [], ◌∷◌, ◌++◌, false, arith, length, take,
}
use data_recovery.Core.Result.{ok}
use data_recovery.Core.Bytes.{read_le, bytes}
use data_recovery.Core.Io.{Device}
use data_recovery.Volume.SectorIo.{byte_offset_of, mbr_sector_bytes}
use data_recovery.Volume.MbrPlacement.{PlacedEntry, partition_of}
use data_recovery.Volume.Mbr.{
  MbrTable, unused_entry, signature_offset, table_signature, parse_mbr_sector, read_table,
  read_slots, table_with, slot_entry_at, entry_of, placed_extent, extent_at, header_at,
  status_is_valid, signature_is_valid, slot_offset,
}
use data_recovery.Volume.Mbr.Slots.{IsTable, parse_mbr_sector-IsTable}
use data_recovery.Prelude.{slice, some, All}
use data_recovery.Core.Io.{IsDevice}
use data_recovery.Core.SafeArith.{safe_mul64}
use data_recovery.Volume.SectorIo.{read_table_sector}
use data_recovery.Volume.MbrPlacement.{MbrPartition, is_extended_type}
use data_recovery.Volume.PartitionView.{partition_view}
use data_recovery.Volume.PartitionView.Inside.{IsBounded, IsConfined, partition_view-IsDevice}
use mathlib.Core.Path.{subst}
use data_recovery.Core.Result.{ok-inj}
use data_recovery.Prelude.{drop, length-take}
use data_recovery.Volume.ExtendedChain.{logical_partitions, max_logical_partitions}
use data_recovery.Volume.ExtendedChain.Found.{IsLogical, logical_partitions_bounded}
use data_recovery.Volume.MbrPartitions.{
  read_mbr_partitions, partitions_of, partitions_from, append_slot, slot_of, contribution_of,
  one_or_chain, primary_partition,
}

abbrev zeros : ℕ → List ℕ
zeros zero = []
zeros (suc n) = 0 ∷ zeros n

-- One bootable partition of type 7, of 0x1000 sectors from sector 0x800 on.
abbrev one_partition : List ℕ
one_partition =
    zeros 446
    ++ (0x80 ∷ 0 ∷ 0 ∷ 0 ∷ 7 ∷ 0 ∷ 0 ∷ 0 ∷ 0 ∷ 8 ∷ 0 ∷ 0 ∷ 0 ∷ 0x10 ∷ 0 ∷ 0 ∷ [])
    ++ zeros 48
    ++ (0x55 ∷ 0xaa ∷ [])

abbrev one_partition_table : MbrTable
one_partition_table = record {
  entries =
      record { partition_type = 7; start_lba = 0x800; sector_count = 0x1000 }
      ∷ unused_entry
      ∷ unused_entry
      ∷ unused_entry
      ∷ [];
}

parse_runs : parse_mbr_sector one_partition ≡ ok one_partition_table
unfolding parse_mbr_sector read_table read_slots table_with slot_entry_at entry_of placed_extent
    extent_at header_at status_is_valid signature_is_valid slot_offset read_le bytes
parse_runs = refl

parse_mbr_sector-IsTable_example :
    IsTable one_partition_table
    × (mbr_sector_bytes ≤ length one_partition)
    × (read_le 2 (take mbr_sector_bytes one_partition) signature_offset ≡ ok table_signature)
parse_mbr_sector-IsTable_example =
    parse_mbr_sector-IsTable one_partition one_partition_table parse_runs

abbrev small_device : Device
small_device = record {
  read_at = λ offset count. ok (zeros count);
  sector_size = 512;
  size_in_bytes = 2000;
}

abbrev placed_slot : PlacedEntry
placed_slot = record { start_lba = 0x800; sector_count = 0x1000; type_code = 7; logical = false }

logical_partitions_bounded_example :
    (found : List MbrPartition) × (logical_partitions small_device 1 ≡ some found)
    × (length found ≤ max_logical_partitions)
    × All IsLogical found
logical_partitions_bounded_example = logical_partitions_bounded small_device 1

-- A disk that holds the table with one partition.
abbrev partitioned_device : Device
partitioned_device = record {
  read_at = λ offset count. ok one_partition;
  sector_size = 512;
  size_in_bytes = 0x100_0000;
}

abbrev one_listed : List MbrPartition
one_listed =
    record { start_bytes = 0x10_0000; length_bytes = 0x20_0000; type_code = 7; logical = false }
    ∷ []

list_runs : read_mbr_partitions partitioned_device ≡ ok one_listed
unfolding read_mbr_partitions partitions_of partitions_from append_slot slot_of contribution_of
    one_or_chain primary_partition read_table_sector byte_offset_of parse_mbr_sector read_table
    read_slots table_with slot_entry_at entry_of placed_extent extent_at header_at status_is_valid
    signature_is_valid slot_offset read_le bytes partition_of safe_mul64 is_extended_type
list_runs = refl

abbrev five_bytes : List ℕ
five_bytes = 1 ∷ 2 ∷ 3 ∷ 4 ∷ 5 ∷ []

abbrev five_byte_device : Device
five_byte_device = record {
  read_at = λ offset count. ok (slice five_bytes offset count);
  sector_size = 1;
  size_in_bytes = 5;
}

five_byte_device-IsDevice : IsDevice five_byte_device five_bytes
five_byte_device-IsDevice = record {
  sized = refl;
  addressed = omega arith;
  answers = λ offset count inside fits. refl;
}

five_byte_device-IsBounded : IsBounded five_byte_device
five_byte_device-IsBounded offset count bytes e =
    subst (λ (bs : List ℕ). length bs ≤ count) (ok-inj (slice five_bytes offset count) bytes e)
      (omega (arith, length-take count (drop offset five_bytes)))

partition_view-IsDevice_example :
    IsDevice (partition_view five_byte_device 1 3) (slice five_bytes 1 3)
    × IsConfined (partition_view five_byte_device 1 3) (slice five_bytes 1 3)
partition_view-IsDevice_example =
    partition_view-IsDevice five_byte_device five_bytes 1 3 five_byte_device-IsDevice
      five_byte_device-IsBounded (omega arith)
