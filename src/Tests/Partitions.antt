-- ===== src/Tests/Partitions.antt =====
-- src/volume's GUID partition tables, and the choice of a table, at concrete inputs.
use data_recovery.Prelude.{
  ℕ, zero, suc, ◌≡◌, refl, List, [], ◌∷◌, ◌++◌, Bool, true, false, ◌&&◌, ltb, ◌==◌, if◌then◌else◌,
  arith, All, codes, same_bytes, slice, Bool-cases, inl, inr,
}
use mathlib.Core.Path.{subst}
use data_recovery.Core.Result.{ok, ok-inj}
use data_recovery.Core.SafeArith.{safe_add64, safe_mul64}
use data_recovery.Core.Bytes.{IsByte, bytes, read_le}
use data_recovery.Core.Crc32.{
  crc32, absorb_bytes, absorb_byte, make_table, table_from, table_entry, shift_bits, shift_bit,
}
use data_recovery.Core.Utf16Name.{
  decode_utf16_name, decode_full_units, decode_step, append_code_point, utf8_code_point,
  utf8_one_byte, unit_at, is_directly_escapable, is_low_surrogate, is_high_surrogate,
}
use data_recovery.Core.Io.{Device}
use data_recovery.Volume.SectorIo.{byte_offset_of, read_table_sector}
use data_recovery.Volume.Gpt.{GptHeader}
use data_recovery.Volume.Gpt.HeaderFields.{
  without_checksum, with_usable_range, entry_size_in, entry_count_in, with_entry_array,
  with_placement, with_array_location, names_gpt, header_size_in, checksum_is_valid, placed_at,
  header_body_of,
}
use data_recovery.Volume.Gpt.Header.{verified_header, parse_gpt_header}
use data_recovery.Volume.Gpt.Header.Believed.{IsSound, IsVerified, parse_gpt_header-IsSound}
use data_recovery.Volume.Gpt.Entry.{
  name_units_of, range_of, entry_with, parse_gpt_entry, all_zero, is_unused_entry,
}
use data_recovery.Volume.Gpt.EntryArray.{array_bytes_of, array_at, checksummed, read_entry_array}
use data_recovery.Volume.Gpt.Placement.{
  length_bytes_of, gpt_partition_of, append_parsed, append_entry, slot_at, entries_from,
  partitions_in,
}
use data_recovery.Volume.Gpt.Partitions.{
  GptDisk, partitions_for, table_at, first_or_backup, read_gpt_partitions,
}
use data_recovery.Volume.Gpt.Partitions.Bounded.{AnswersBytes, IsDisk, read_gpt_partitions-IsListed}
use data_recovery.Volume.PartitionTable.{
  table_of_disk, gpt_table, answer_or, gpt_or, read_sector_zero, table_on, read_partition_table,
}
use data_recovery.Volume.PartitionTable.Choice.{IsChosen, read_partition_table-IsChosen}
use data_recovery.Volume.PartitionTable.Numbers.{IsNumbered, read_partition_table-IsNumbered}

abbrev zeros : ℕ → List ℕ
zeros zero = []
zeros (suc n) = 0 ∷ zeros n

-- A slot for sectors 3 to 6, of type "Linux filesystem", named "ab".
abbrev entry_array : List ℕ
entry_array =
    (0xaf ∷ 0x3d ∷ 0xc6 ∷ 0xf ∷ 0x83 ∷ 0x84 ∷ 0x72 ∷ 0x47 ∷ 0x8e ∷ 0x79 ∷ 0x3d ∷ 0x69 ∷ 0xd8 ∷ 0x47
      ∷ 0x7d ∷ 0xe4 ∷ [])
    ++ zeros 16
    ++ (0x3 ∷ [])
    ++ zeros 7
    ++ (0x6 ∷ [])
    ++ zeros 15
    ++ (0x61 ∷ 0x0 ∷ 0x62 ∷ [])
    ++ zeros 69

-- The sector of the header, signed for, with the sum of the array.
abbrev header_sector : List ℕ
header_sector =
    (0x45 ∷ 0x46 ∷ 0x49 ∷ 0x20 ∷ 0x50 ∷ 0x41 ∷ 0x52 ∷ 0x54 ∷ 0x0 ∷ 0x0 ∷ 0x1 ∷ 0x0 ∷ 0x5c ∷ 0x0
      ∷ 0x0 ∷ 0x0 ∷ 0x33 ∷ 0x5b ∷ 0x78 ∷ 0xb4 ∷ 0x0 ∷ 0x0 ∷ 0x0 ∷ 0x0 ∷ 0x1 ∷ [])
    ++ zeros 7
    ++ (0x7 ∷ [])
    ++ zeros 7
    ++ (0x3 ∷ [])
    ++ zeros 7
    ++ (0x6 ∷ [])
    ++ zeros 23
    ++ (0x2 ∷ [])
    ++ zeros 7
    ++ (0x1 ∷ 0x0 ∷ 0x0 ∷ 0x0 ∷ 0x80 ∷ 0x0 ∷ 0x0 ∷ 0x0 ∷ 0xb1 ∷ 0x93 ∷ 0x5d ∷ 0x43 ∷ [])
    ++ zeros 420

abbrev small_header : GptHeader
small_header = record {
  my_lba = 1;
  alternate_lba = 7;
  first_usable_lba = 3;
  last_usable_lba = 6;
  entry_array_lba = 2;
  entry_count = 1;
  entry_bytes = 128;
  entry_array_crc = 0x435d93b1;
}

parse_runs : parse_gpt_header header_sector 1 ≡ ok small_header
unfolding parse_gpt_header verified_header without_checksum with_usable_range entry_size_in
    entry_count_in with_entry_array with_placement with_array_location names_gpt header_size_in
    checksum_is_valid placed_at header_body_of same_bytes bytes read_le crc32 absorb_bytes
    absorb_byte make_table table_from table_entry shift_bits shift_bit
parse_runs = refl

abbrev all_bytes : List ℕ → Bool
all_bytes [] = true
all_bytes (b ∷ bs) = ltb b 256 && all_bytes bs

all_bytes_sound : (bs : List ℕ) → all_bytes bs ≡ true → All IsByte bs
all_bytes_sound [] e = tt
all_bytes_sound (b ∷ bs) e = (ground (arith, e), all_bytes_sound bs (ground (arith, e)))

parse_gpt_header-IsSound_example :
    IsSound small_header
    × (small_header.my_lba ≡ 1)
    × ((size : ℕ) × IsVerified header_sector 1 size)
parse_gpt_header-IsSound_example =
    parse_gpt_header-IsSound header_sector 1 small_header (all_bytes_sound header_sector refl)
      parse_runs

-- A disk of eight sectors with nothing in its sector 0.
abbrev small_disk : Device
small_disk = record {
  read_at = λ offset count. ok (if offset == 512 then header_sector else entry_array);
  sector_size = 512;
  size_in_bytes = 4096;
}

small_disk-AnswersBytes : AnswersBytes small_disk
small_disk-AnswersBytes offset count answer e = elim (Bool-cases (offset == 512)) [
  | inl header ↦
      subst (All IsByte) (ok-inj header_sector answer (rw header at e))
        (all_bytes_sound header_sector refl)
  | inr array ↦
      subst (All IsByte) (ok-inj entry_array answer (rw array at e))
        (all_bytes_sound entry_array refl)
]

abbrev small_listing : GptDisk
small_listing = record {
  partitions =
      record {
        start_bytes = 1536;
        length_bytes = 2048;
        type_guid = slice entry_array 0 16;
        name = codes "ab";
        name_is_exact = true;
      }
      ∷ [];
  from_backup_header = false;
}

array_runs : read_entry_array small_disk small_header ≡ ok entry_array
unfolding read_entry_array array_at array_bytes_of checksummed byte_offset_of crc32 absorb_bytes
    absorb_byte make_table table_from table_entry shift_bits shift_bit
array_runs = refl

slots_run : partitions_in entry_array small_header 512 ≡ ok small_listing.partitions
unfolding partitions_in entries_from slot_at append_entry append_parsed gpt_partition_of
    length_bytes_of safe_add64 safe_mul64 parse_gpt_entry range_of entry_with name_units_of
    is_unused_entry all_zero bytes read_le decode_utf16_name decode_full_units decode_step
    append_code_point utf8_code_point utf8_one_byte unit_at is_directly_escapable is_low_surrogate
    is_high_surrogate
slots_run = refl

sector_runs : read_table_sector small_disk 1 ≡ ok header_sector
unfolding read_table_sector byte_offset_of
sector_runs = refl

list_runs : read_gpt_partitions small_disk ≡ ok small_listing
unfolding read_gpt_partitions table_at partitions_for first_or_backup
list_runs = rw (sector_runs, parse_runs, array_runs, slots_run) refl

read_gpt_partitions-IsListed_example : IsDisk small_disk small_listing
read_gpt_partitions-IsListed_example =
    read_gpt_partitions-IsListed small_disk small_listing small_disk-AnswersBytes (omega arith)
      list_runs

read_partition_table-IsChosen_example :
    IsChosen small_disk small_listing (read_partition_table small_disk)
read_partition_table-IsChosen_example =
    read_partition_table-IsChosen small_disk small_listing list_runs

table_runs : read_partition_table small_disk ≡ ok (table_of_disk small_listing)
unfolding read_partition_table table_on read_sector_zero read_table_sector byte_offset_of gpt_or
    gpt_table answer_or
table_runs = rw list_runs refl

read_partition_table-IsNumbered_example : IsNumbered (table_of_disk small_listing)
read_partition_table-IsNumbered_example =
    read_partition_table-IsNumbered small_disk small_disk-AnswersBytes (omega arith)
      (table_of_disk small_listing) table_runs
