-- ===== src/Volume/PartitionTable/Numbers.antt =====
-- `read_partition_table`: the numbers that the partitions are chosen by.
use data_recovery.Prelude.{
  ℕ, zero, suc, ◌+◌, ◌%◌, ◌^◌, ◌<◌, ◌≤◌, ◌≡◌, inl, inr, refl, sym, ap, ◌∙◌, List, [], ◌∷◌, length,
  map, arith, Bool-cases,
}
use mathlib.Core.Path.{subst}
use data_recovery.Core.Result.{Result, ok, err, transform-eq-ok, Result-cases, ok-inj}
use data_recovery.Core.SafeArith.{u64_max}
use data_recovery.Core.Io.{Device}
use data_recovery.Volume.Mbr.{MbrTable, defers_to_gpt}
use data_recovery.Volume.MbrPlacement.{MbrPartition}
use data_recovery.Volume.MbrPartitions.{read_mbr_partitions}
use data_recovery.Volume.MbrPartitions.Bounded.{read_mbr_partitions_bounded}
use data_recovery.Volume.Gpt.Partitions.{GptDisk, read_gpt_partitions}
use data_recovery.Volume.Gpt.Partitions.Bounded.{AnswersBytes, length-read_gpt_partitions-le}
use data_recovery.Volume.PartitionTable.{
  Partition, PartitionTable, numbered_after, numbered, partition_from_mbr, partition_from_gpt,
  table_of_disk, gpt_table, table_of_entries, mbr_table, answer_or, gpt_or, listed_or, mbr_or_gpt,
  table_for, read_sector_zero, table_on, read_partition_table,
}

-- `left` numbers, the first one after `number`.
abbrev pub numbers_after : ℕ → ℕ → List ℕ
numbers_after number zero = []
numbers_after number (suc left) = (number + 1) ∷ numbers_after (number + 1) left

-- The partitions bear the numbers from 1 on, in their order.
pub record IsNumbered (table : PartitionTable) : Type 0 where
  pub in_order : map (λ p. p.number) table.partitions ≡ numbers_after 0 (length table.partitions)
  pub few : length table.partitions ≤ 32768

module _ {ℓ} {Entry : Type ℓ} (from : Entry → ℕ → Partition)
    (keeps : (entry : Entry) (number : ℕ) → (from entry number).number ≡ number) where
  numbered_after-numbers :
      (entries : List Entry) (number : ℕ)
      → number + length entries < 2 ^ 32
      → (map (λ p. p.number) (numbered_after from number entries)
          ≡ numbers_after number (length entries))
        × (length (numbered_after from number entries) ≡ length entries)
  unfolding numbered_after
  numbered_after-numbers [] number h = (refl, refl)
  numbered_after-numbers (entry ∷ entries) number h =
      let next : (number + 1) % 2 ^ 32 ≡ number + 1 = omega arith in
      let (numbers, count) = numbered_after-numbers entries (number + 1) (omega arith) in
      rw next (
        rw (keeps entry (number + 1)) (ap (λ (ns : List ℕ). (number + 1) ∷ ns) numbers),
        ap suc count,
      )

  numbered-numbers :
      (entries : List Entry)
      → length entries ≤ 32768
      → (map (λ p. p.number) (numbered from entries)
          ≡ numbers_after 0 (length (numbered from entries)))
        × (length (numbered from entries) ≤ 32768)
  unfolding numbered
  numbered-numbers entries h =
      let (numbers, count) = numbered_after-numbers entries 0 (omega arith) in
      (numbers ∙ ap (numbers_after 0) (sym count), omega (arith, count))

table_of_disk-IsNumbered :
    (disk : GptDisk) → length disk.partitions ≤ 32768 → IsNumbered (table_of_disk disk)
table_of_disk-IsNumbered disk h =
    let (numbers, few) =
      numbered-numbers partition_from_gpt (λ entry number. unfold partition_from_gpt in refl)
        disk.partitions h in
    record { in_order = numbers; few = few }

table_of_entries-IsNumbered :
    (entries : List MbrPartition) → length entries ≤ 512 → IsNumbered (table_of_entries entries)
table_of_entries-IsNumbered entries h =
    let (numbers, few) =
      numbered-numbers partition_from_mbr (λ entry number. unfold partition_from_mbr in refl)
        entries (omega arith) in
    record { in_order = numbers; few = few }

module _ (device : Device) (real : AnswersBytes device) (words : device.sector_size ≤ u64_max) where
  gpt_table-IsNumbered : (table : PartitionTable) → gpt_table device ≡ ok table → IsNumbered table
  unfolding gpt_table
  gpt_table-IsNumbered table e =
      let (disk, x, same) = transform-eq-ok table_of_disk (read_gpt_partitions device) table e in
      let few = length-read_gpt_partitions-le device disk real words x in
      subst IsNumbered (sym same) (table_of_disk-IsNumbered disk few)

  mbr_table-IsNumbered : (table : PartitionTable) → mbr_table device ≡ ok table → IsNumbered table
  unfolding mbr_table
  mbr_table-IsNumbered table e =
      let (entries, x, same) =
        transform-eq-ok table_of_entries (read_mbr_partitions device) table e in
      subst IsNumbered (sym same)
        (table_of_entries-IsNumbered entries (read_mbr_partitions_bounded device entries x))

  gpt_or-IsNumbered :
      (fallback : Result PartitionTable) (table : PartitionTable)
      → ((t : PartitionTable) → fallback ≡ ok t → IsNumbered t)
      → gpt_or device fallback ≡ ok table
      → IsNumbered table
  unfolding gpt_or answer_or
  gpt_or-IsNumbered fallback table h e = elim (Result-cases (gpt_table device)) [
    | inl (gpt, x) ↦ gpt_table-IsNumbered table (x ∙ (rw x at e))
    | inr (fault, x) ↦ h table (rw x at e)
  ]

  listed_or-IsNumbered :
      (listed : PartitionTable) (partitions : List Partition) (table : PartitionTable)
      → IsNumbered listed
      → listed_or device listed partitions ≡ ok table
      → IsNumbered table
  unfolding listed_or
  listed_or-IsNumbered listed [] table h e =
      gpt_or-IsNumbered (ok listed) table (λ t x. subst IsNumbered (ok-inj listed t x) h) e
  listed_or-IsNumbered listed (p ∷ ps) table h e = subst IsNumbered (ok-inj listed table e) h

  mbr_or_gpt-IsNumbered :
      (table : PartitionTable) → mbr_or_gpt device (mbr_table device) ≡ ok table → IsNumbered table
  unfolding mbr_or_gpt
  mbr_or_gpt-IsNumbered table e = elim (Result-cases (mbr_table device)) [
    | inl (listed, x) ↦
        listed_or-IsNumbered listed listed.partitions table (mbr_table-IsNumbered listed x)
          (rw x at e)
    | inr (fault, x) ↦ gpt_or-IsNumbered (err fault) table (λ t y. cc y) (rw x at e)
  ]

  table_for-IsNumbered :
      (sector_zero : MbrTable) (table : PartitionTable)
      → table_for device sector_zero ≡ ok table
      → IsNumbered table
  unfolding table_for
  table_for-IsNumbered sector_zero table e = elim (Bool-cases (defers_to_gpt sector_zero)) [
    | inl defers ↦ gpt_table-IsNumbered table (rw defers at e)
    | inr stands ↦ mbr_or_gpt-IsNumbered table (rw stands at e)
  ]

  -- The partitions of any table that is read off a device of bytes are numbered from 1 on in their
  -- order, with no number twice and none left out, and there are at most 32768.
  pub read_partition_table-IsNumbered :
      (table : PartitionTable) → read_partition_table device ≡ ok table → IsNumbered table
  unfolding read_partition_table table_on
  read_partition_table-IsNumbered table e = elim (Result-cases (read_sector_zero device)) [
    | inl (sector_zero, x) ↦ table_for-IsNumbered sector_zero table (rw x at e)
    | inr (fault, x) ↦ gpt_or-IsNumbered (err fault) table (λ t y. cc y) (rw x at e)
  ]
