-- ===== src/Volume/MbrPartitions/Bounded.antt =====
-- `read_mbr_partitions`: how many partitions there are, and what is refused.
use data_recovery.Prelude.{
  ℕ, zero, suc, ◌+◌, ◌*◌, ◌≤◌, ◌≡◌, ◌≢◌, ap, List, [], ◌++◌, ◌==◌, length, length-append, arith,
  Bool-cases, inl, inr,
}
use mathlib.Core.Path.{subst}
use data_recovery.Core.Result.{ok, >>=-eq-ok, transform-eq-ok}
use data_recovery.Core.Io.{Device}
use data_recovery.Volume.SectorIo.{read_table_sector}
use data_recovery.Volume.Mbr.{
  MbrEntry, MbrTable, unused_partition_type, protective_partition_type, parse_mbr_sector,
}
use data_recovery.Volume.MbrPlacement.{MbrPartition, is_extended_type}
use data_recovery.Volume.ExtendedChain.{max_logical_partitions, logical_partitions}
use data_recovery.Volume.ExtendedChain.Found.{logical_partitions_bounded}
use data_recovery.Volume.MbrPartitions.{
  PrimarySlot, primary_partition, or_no_partitions, only, one_or_chain, contribution_of, slot_of,
  append_slot, partitions_from, partitions_of, read_mbr_partitions,
}

length-chain-le :
    (device : Device) (start : ℕ)
    → length (or_no_partitions (logical_partitions device start)) ≤ max_logical_partitions
length-chain-le device start =
    let (found, e, few, logical) = logical_partitions_bounded device start in rw e few

length-one_or_chain-le :
    (device : Device) (entry : MbrEntry) (found : List MbrPartition)
    → one_or_chain device entry ≡ ok found
    → length found ≤ max_logical_partitions
unfolding one_or_chain
length-one_or_chain-le device entry found e =
    elim (Bool-cases (is_extended_type entry.partition_type)) [
      | inl extended ↦
          let same : or_no_partitions (logical_partitions device entry.start_lba) ≡ found =
            cc (rw extended at e) in
          subst (λ (ps : List MbrPartition). length ps ≤ max_logical_partitions) same
            (length-chain-le device entry.start_lba)
      | inr primary ↦
          let (partition, x, same) =
            transform-eq-ok only (primary_partition device entry) found (rw primary at e) in
          rw same (omega arith)
    ]

-- What is allowed in a slot that the read accepts.
length-contribution_of-le :
    (device : Device) (slot : PrimarySlot) (found : List MbrPartition)
    → contribution_of device slot ≡ ok found
    → (length found ≤ max_logical_partitions)
      × (slot.entry.partition_type ≢ protective_partition_type)
unfolding contribution_of
length-contribution_of-le device slot found e =
    elim (Bool-cases (slot.entry.partition_type == unused_partition_type)) [
      | inl unused ↦
          let same : [] ≡ found = cc (rw unused at e) in
          (
            subst (λ (ps : List MbrPartition). length ps ≤ max_logical_partitions) same
                (omega arith),
            ground (arith, unused),
          )
      | inr used ↦ elim (Bool-cases (slot.entry.partition_type == protective_partition_type)) [
        | inl protective ↦ absurd (ground (arith, e, used, protective))
        | inr own ↦ (
          length-one_or_chain-le device slot.entry found (rw (used, own) at e),
          ground (arith, own),
        )
      ]
    ]

partitions_from-le :
    (device : Device) (table : MbrTable) (found partitions : List MbrPartition) (index left : ℕ)
    → partitions_from device table found index left ≡ ok partitions
    → length partitions ≤ length found + left * max_logical_partitions
unfolding partitions_from append_slot
partitions_from-le device table found partitions index zero e =
    let same : found ≡ partitions = cc e in omega (arith, ap length same)
partitions_from-le device table found partitions index (suc left) e =
    let (longer, x, e') = >>=-eq-ok (append_slot device table found index) _ {b = partitions} e in
    let (more, y, same) =
      transform-eq-ok (◌++◌ found) (contribution_of device (slot_of table index)) longer x in
    let few = length-contribution_of-le device (slot_of table index) more y in
    let rest = partitions_from-le device table longer partitions (suc index) left e' in
    omega (arith, rest, few.0, ap length same, length-append found more)

-- The list of partitions has at most 512 entries, four chains of at most 128, whatever the disk
-- holds.
pub read_mbr_partitions_bounded :
    (device : Device) (partitions : List MbrPartition)
    → read_mbr_partitions device ≡ ok partitions
    → length partitions ≤ 512
unfolding read_mbr_partitions partitions_of
read_mbr_partitions_bounded device partitions e =
    let (sector, x, e') = >>=-eq-ok (read_table_sector device 0) _ {b = partitions} e in
    let (table, y, e'') = >>=-eq-ok (parse_mbr_sector sector) _ {b = partitions} e' in
    omega (arith, partitions_from-le device table [] partitions 0 4 e'')
