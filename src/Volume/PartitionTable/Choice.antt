-- ===== src/Volume/PartitionTable/Choice.antt =====
-- `read_partition_table`: which of the two tables is the answer.
use data_recovery.Prelude.{
  ◌<◌, ◌≡◌, sym, ◌∙◌, ◌⊎◌, inl, inr, refl, ap, false, List, [], ◌∷◌, length, arith, Bool-cases,
}
use data_recovery.Core.Result.{Result, ok, err, ok-inj, Result-cases}
use data_recovery.Core.Io.{Device}
use data_recovery.Volume.MbrPlacement.{MbrPartition}
use data_recovery.Volume.Mbr.{MbrTable, defers_to_gpt}
use data_recovery.Volume.Gpt.Partitions.{GptDisk, read_gpt_partitions}
use data_recovery.Volume.PartitionTable.{
  PartitionTable, table_of_disk, gpt_table, table_of_entries, mbr_table, answer_or, gpt_or,
  listed_or, mbr_or_gpt, numbered, numbered_after, table_for, read_sector_zero, table_on,
  read_partition_table,
}
use data_recovery.Volume.MbrPartitions.{read_mbr_partitions}

-- The master boot record is read, hands the disk over to no other table, and lists these partitions.
pub record MbrDecides (device : Device) (entries : List MbrPartition) : Type 0 where
  pub sector_zero : MbrTable
  pub parsed : read_sector_zero device ≡ ok sector_zero
  pub stands : defers_to_gpt sector_zero ≡ false
  pub entries_read : read_mbr_partitions device ≡ ok entries
  pub listed : 0 < length entries

-- The answer is the table of a master boot record that decides, or, when none does, the GUID
-- partition table.
abbrev pub IsChosen : Device → GptDisk → Result PartitionTable → Type 0
IsChosen device disk answer =
    ((entries : List MbrPartition) × MbrDecides device entries
      × (answer ≡ ok (table_of_entries entries)))
    ⊎ ((¬ ((entries : List MbrPartition) × MbrDecides device entries))
        × (answer ≡ ok (table_of_disk disk)))

gpt_or-chosen :
    (device : Device) (disk : GptDisk) (fallback : Result PartitionTable)
    → read_gpt_partitions device ≡ ok disk
    → gpt_or device fallback ≡ ok (table_of_disk disk)
unfolding gpt_or gpt_table answer_or
gpt_or-chosen device disk fallback e = rw e refl

read_entries-decide :
    (device : Device) (disk : GptDisk) (sector_zero : MbrTable) (entries : List MbrPartition)
    → read_gpt_partitions device ≡ ok disk
    → read_sector_zero device ≡ ok sector_zero
    → defers_to_gpt sector_zero ≡ false
    → read_mbr_partitions device ≡ ok entries
    → IsChosen device disk (mbr_or_gpt device (ok (table_of_entries entries)))
unfolding mbr_or_gpt listed_or numbered numbered_after
read_entries-decide device disk sector_zero [] e x stands y = inr (
  λ (entries, d). ground (arith, d.listed, ap length (ok-inj _ _ (sym y ∙ d.entries_read))),
  gpt_or-chosen device disk (ok (table_of_entries [])) e,
)
read_entries-decide device disk sector_zero (entry ∷ entries) e x stands y = inl (
  entry ∷ entries,
  record {
    sector_zero = sector_zero;
    parsed = x;
    stands = stands;
    entries_read = y;
    listed = omega arith;
  },
  refl,
)

mbr_or_gpt-IsChosen :
    (device : Device) (disk : GptDisk) (sector_zero : MbrTable)
    → read_gpt_partitions device ≡ ok disk
    → read_sector_zero device ≡ ok sector_zero
    → defers_to_gpt sector_zero ≡ false
    → IsChosen device disk (mbr_or_gpt device (mbr_table device))
unfolding mbr_table
mbr_or_gpt-IsChosen device disk sector_zero e x stands =
    elim (Result-cases (read_mbr_partitions device)) [
      | inl (entries, y) ↦ rw y (read_entries-decide device disk sector_zero entries e x stands y)
      | inr (fault, y) ↦
          unfold mbr_or_gpt in
          rw y
            (inr (λ (entries, d). cc (y, d.entries_read), gpt_or-chosen device disk (err fault) e))
    ]

table_for-IsChosen :
    (device : Device) (disk : GptDisk) (sector_zero : MbrTable)
    → read_gpt_partitions device ≡ ok disk
    → read_sector_zero device ≡ ok sector_zero
    → IsChosen device disk (table_for device sector_zero)
unfolding table_for gpt_table
table_for-IsChosen device disk sector_zero e x = elim (Bool-cases (defers_to_gpt sector_zero)) [
  | inl defers ↦
      rw (defers, e)
        (inr (
          λ (entries, d). cc (defers, d.stands, ap defers_to_gpt (ok-inj _ _ (sym x ∙ d.parsed))),
          refl,
        ))
  | inr stands ↦ rw stands (mbr_or_gpt-IsChosen device disk sector_zero e x stands)
]

-- On a disk whose GUID partition table can be read, from either copy, the read of the partition
-- table answers. When sector 0 parses, hands the disk over to no other table, and the partitions
-- that it and its extended partitions list can be read and are not none, the answer is the table of
-- these. In every other case, also behind a valid table that lists no partition, the answer is the
-- GUID partition table.
pub read_partition_table-IsChosen :
    (device : Device) (disk : GptDisk)
    → read_gpt_partitions device ≡ ok disk
    → IsChosen device disk (read_partition_table device)
unfolding read_partition_table table_on
read_partition_table-IsChosen device disk e = elim (Result-cases (read_sector_zero device)) [
  | inl (sector_zero, x) ↦ rw x (table_for-IsChosen device disk sector_zero e x)
  | inr (fault, x) ↦
      rw x (inr (λ (entries, d). cc (x, d.parsed), gpt_or-chosen device disk (err fault) e))
]
