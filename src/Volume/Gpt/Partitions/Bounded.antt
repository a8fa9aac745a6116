-- ===== src/Volume/Gpt/Partitions/Bounded.antt =====
-- `read_gpt_partitions`: how many partitions a disk can list, and where they come from.
use data_recovery.Prelude.{
  ℕ, ◌/◌, ◌-◌, ◌||◌, ◌⊎◌, sym, true, false, ◌≤◌, ◌≡◌, inl, inr, refl, List, ltb, ◌==◌, length,
  arith, All, Bool-cases,
}
use mathlib.Core.Path.{subst}
use data_recovery.Core.Result.{Result, ok, err, >>=-eq-ok, ok-inj}
use data_recovery.Core.SafeArith.{u64_max}
use data_recovery.Core.SafeArith.Exact.{mul_le}
use data_recovery.Core.Bytes.{IsByte}
use data_recovery.Core.Crc32.{crc32}
use data_recovery.Core.Io.{Device}
use data_recovery.Volume.SectorIo.{mbr_sector_bytes, byte_offset_of, read_table_sector}
use data_recovery.Volume.Gpt.{GptHeader, primary_header_lba}
use data_recovery.Volume.Gpt.Header.{parse_gpt_header}
use data_recovery.Volume.Gpt.Header.Believed.{parse_gpt_header-IsSound}
use data_recovery.Volume.Gpt.EntryArray.{
  ArrayExtent, array_bytes_of, array_at, checksummed, read_entry_array,
}
use data_recovery.Volume.Gpt.Placement.{GptPartition}
use data_recovery.Volume.Gpt.Placement.Exact.{
  IsListing, slots_from, partitions_in-IsListing, length-IsListing,
}
use data_recovery.Volume.Gpt.Partitions.{
  GptDisk, last_lba_of, partitions_for, table_at, backup_table, first_or_backup,
  read_gpt_partitions,
}

-- What the device answers are bytes.
abbrev pub AnswersBytes : Device → Type 0
AnswersBytes device =
    (offset count : ℕ) (answer : List ℕ)
    → device.read_at offset count ≡ ok answer
    → All IsByte answer

-- A header that is believed at the sector `lba`, the array of slots that it vouches for, and the
-- partitions that are listed for those slots.
pub record IsListed (device : Device) (lba : ℕ) (partitions : List GptPartition) : Type 0 where
  pub header : GptHeader
  pub array : List ℕ
  pub believed :
      (sector : List ℕ) × (read_table_sector device lba ≡ ok sector)
      × (parse_gpt_header sector lba ≡ ok header)
  pub vouched : read_entry_array device header ≡ ok array
  pub listing :
      IsListing device.sector_size
        (slots_from array header.entry_bytes 0 header.entry_count)
        partitions
  pub few : length partitions ≤ 32768

-- The partitions of a disk, out of the first sector behind sector 0, or out of the last one.
abbrev pub IsDisk : Device → GptDisk → Type 0
IsDisk device disk =
    ((disk.from_backup_header ≡ false) × IsListed device 1 disk.partitions)
    ⊎ ((disk.from_backup_header ≡ true)
        × IsListed device (device.size_in_bytes / device.sector_size - 1) disk.partitions)

read_table_sector-IsByte :
    (device : Device) (lba : ℕ) (sector : List ℕ)
    → AnswersBytes device
    → read_table_sector device lba ≡ ok sector
    → All IsByte sector
unfolding read_table_sector
read_table_sector-IsByte device lba sector real e =
    let (offset, x, e') = >>=-eq-ok (byte_offset_of device lba) _ {b = sector} e in
    let (answer, y, e'') = >>=-eq-ok (device.read_at offset mbr_sector_bytes) _ {b = sector} e' in
    elim (Bool-cases (ltb (length answer) mbr_sector_bytes)) [
      | inl short ↦ absurd (ground (arith, short, e''))
      | inr whole ↦
          subst (All IsByte) (ok-inj answer sector (rw whole at e''))
            (real offset mbr_sector_bytes answer y)
    ]

array_at-IsByte :
    (device : Device) (extent : ArrayExtent) (array : List ℕ)
    → AnswersBytes device
    → array_at device extent ≡ ok array
    → All IsByte array
unfolding array_at
array_at-IsByte device extent array real e =
    let (answer, y, e') = >>=-eq-ok (device.read_at extent.offset extent.size) _ {b = array} e in
    elim (Bool-cases (ltb (length answer) extent.size)) [
      | inl short ↦ absurd (ground (arith, short, e'))
      | inr whole ↦
          subst (All IsByte) (ok-inj answer array (rw whole at e'))
            (real extent.offset extent.size answer y)
    ]

read_entry_array-IsByte :
    (device : Device) (header : GptHeader) (array : List ℕ)
    → AnswersBytes device
    → read_entry_array device header ≡ ok array
    → All IsByte array
unfolding read_entry_array checksummed
read_entry_array-IsByte device header array real e =
    let (offset, x, e') =
      >>=-eq-ok (byte_offset_of device header.entry_array_lba) _ {b = array} e in
    let extent : ArrayExtent = record { offset = offset; size = array_bytes_of header } in
    let (answer, y, e'') = >>=-eq-ok (array_at device extent) _ {b = array} e' in
    elim (Bool-cases (crc32 answer == header.entry_array_crc)) [
      | inl signed ↦
          subst (All IsByte) (ok-inj answer array (rw signed at e''))
            (array_at-IsByte device extent answer real y)
      | inr unsigned ↦ absurd (ground (arith, unsigned, e''))
    ]

table_at-IsListed :
    (device : Device) (lba : ℕ) (partitions : List GptPartition)
    → AnswersBytes device
    → device.sector_size ≤ u64_max
    → table_at device lba ≡ ok partitions
    → IsListed device lba partitions
unfolding table_at partitions_for
table_at-IsListed device lba partitions real hs e =
    let (sector, x, e1) = >>=-eq-ok (read_table_sector device lba) _ {b = partitions} e in
    let (header, y, e2) = >>=-eq-ok (parse_gpt_header sector lba) _ {b = partitions} e1 in
    let (array, z, e3) = >>=-eq-ok (read_entry_array device header) _ {b = partitions} e2 in
    let (sound, mine, verified) =
      parse_gpt_header-IsSound sector lba header (read_table_sector-IsByte device lba sector real x)
        y in
    let bounded = sound.array_bounded in
    let listed =
      partitions_in-IsListing array header device.sector_size partitions
        (read_entry_array-IsByte device header array real z) hs (omega (arith, bounded)) e3 in
    let few =
      length-IsListing device.sector_size array header.entry_bytes header.entry_count partitions
        listed in
    let slots =
      mul_le header.entry_count 128 header.entry_count header.entry_bytes (omega arith)
        sound.entry_fits in
    record {
      header = header;
      array = array;
      believed = (sector, x, y);
      vouched = z;
      listing = listed;
      few = omega (arith, few, bounded, slots);
    }

last_lba_of_lem :
    (device : Device) (lba : ℕ)
    → last_lba_of device ≡ ok lba
    → device.size_in_bytes / device.sector_size - 1 ≡ lba
unfolding last_lba_of
last_lba_of_lem device lba e =
    elim (Bool-cases ((device.sector_size == 0) || ltb device.size_in_bytes device.sector_size)) [
      | inl empty ↦ absurd (ground (arith, empty, e))
      | inr sectors ↦ ok-inj _ lba (rw sectors at e)
    ]

backup_table-IsListed :
    (device : Device) (partitions : List GptPartition)
    → AnswersBytes device
    → device.sector_size ≤ u64_max
    → backup_table device ≡ ok partitions
    → IsListed device (device.size_in_bytes / device.sector_size - 1) partitions
unfolding backup_table
backup_table-IsListed device partitions real hs e =
    let (lba, x, e') = >>=-eq-ok (last_lba_of device) _ {b = partitions} e in
    subst (λ (n : ℕ). IsListed device n partitions) (sym (last_lba_of_lem device lba x))
      (table_at-IsListed device lba partitions real hs e')

first_or_backup-IsDisk :
    (device : Device) (primary backup : Result (List GptPartition)) (disk : GptDisk)
    → ((partitions : List GptPartition) → primary ≡ ok partitions → IsListed device 1 partitions)
    → ((partitions : List GptPartition)
        → backup ≡ ok partitions
        → IsListed device (device.size_in_bytes / device.sector_size - 1) partitions)
    → first_or_backup primary backup ≡ ok disk
    → IsDisk device disk
unfolding first_or_backup
first_or_backup-IsDisk device (ok primary) backup disk h k e =
    subst (IsDisk device) (ok-inj _ disk e) (inl (refl, h primary refl))
first_or_backup-IsDisk device (err x) (ok backup) disk h k e =
    subst (IsDisk device) (ok-inj _ disk e) (inr (refl, k backup refl))
first_or_backup-IsDisk device (err x) (err y) disk h k e = cc e

-- The partitions that are read off a device of bytes: a header is believed in sector 1, or in the
-- last sector where the disk says that the backup answered, and an array of slots is read that the
-- header vouches for; there is one partition for each slot whose type is not sixteen zeros, in the
-- order of the slots, and at most 32768 of them; it has the type of the slot, and it is the range
-- of the sectors that the slot's fields state, the first not after the last and both included, in
-- bytes that are exact 64-bit numbers.
pub read_gpt_partitions-IsListed :
    (device : Device) (disk : GptDisk)
    → AnswersBytes device
    → device.sector_size ≤ u64_max
    → read_gpt_partitions device ≡ ok disk
    → IsDisk device disk
unfolding read_gpt_partitions
read_gpt_partitions-IsListed device disk real hs e =
    first_or_backup-IsDisk device (table_at device primary_header_lba) (backup_table device) disk
      (λ partitions x. table_at-IsListed device primary_header_lba partitions real hs x)
      (λ partitions x. backup_table-IsListed device partitions real hs x) e

pub length-read_gpt_partitions-le :
    (device : Device) (disk : GptDisk)
    → AnswersBytes device
    → device.sector_size ≤ u64_max
    → read_gpt_partitions device ≡ ok disk
    → length disk.partitions ≤ 32768
length-read_gpt_partitions-le device disk real hs e =
    elim (read_gpt_partitions-IsListed device disk real hs e) [
      | inl (first, listed) ↦ listed.few
      | inr (last, listed) ↦ listed.few
    ]
