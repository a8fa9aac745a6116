-- ===== src/Volume/Mbr.antt =====
-- src/volume/Mbr.cpp and MbrLayout.hpp: the partition table in a 512-byte sector.
pub mod Slots
use data_recovery.Prelude.{
  ℕ, zero, suc, ◌+◌, ◌*◌, List, [], ◌∷◌, Bool, true, false, ◌||◌, ltb, ◌==◌, if◌then◌else◌, length,
  take, set,
}
use data_recovery.Core.Result.{
  Result, ok, ◌>>=◌, transform, error_at, out_of_range, invalid_argument,
}
use data_recovery.Core.Bytes.{bytes, read_le}
use data_recovery.Volume.SectorIo.{mbr_sector_bytes}

abbrev pub table_offset : ℕ
table_offset = 0x1be

abbrev pub signature_offset : ℕ
signature_offset = 0x1fe

abbrev pub table_signature : ℕ
table_signature = 0xaa55

abbrev pub unused_partition_type : ℕ
unused_partition_type = 0

abbrev pub protective_partition_type : ℕ
protective_partition_type = 0xee

-- One slot.
pub record MbrEntry : Type 0 where
  pub partition_type : ℕ
  pub start_lba : ℕ
  pub sector_count : ℕ

-- The four slots.
pub record MbrTable : Type 0 where
  pub entries : List MbrEntry

pub record SlotHeader : Type 0 where
  pub at : ℕ
  pub slot_type : ℕ

pub record LbaExtent : Type 0 where
  pub start_lba : ℕ
  pub sector_count : ℕ

-- `slotOffset`
unfoldable pub slot_offset : ℕ → ℕ
slot_offset index = table_offset + index * 16

-- `raw.front()`; the list is never empty where it is used.
abbrev pub front : List ℕ → ℕ
front [] = 0
front (b ∷ bs) = b

-- `signatureIsValid`; what is answered on success is not used.
unfoldable pub signature_is_valid : List ℕ → Result Bool
signature_is_valid sector = do
  value ← read_le 2 sector signature_offset
  if value == table_signature then ok true else error_at invalid_argument signature_offset

-- `statusIsValid`
unfoldable pub status_is_valid : List ℕ → ℕ → Result Bool
status_is_valid sector at = do
  raw ← bytes sector at 1
  if (front raw == 0x00) || (front raw == 0x80) then ok true else error_at invalid_argument at

-- `headerAt`
unfoldable pub header_at : List ℕ → ℕ → Result SlotHeader
header_at sector at =
    transform (λ raw. record { at = at; slot_type = front raw }) (bytes sector (at + 0x04) 1)

-- `extentAt`
unfoldable pub extent_at : List ℕ → ℕ → Result LbaExtent
extent_at sector at = do
  start ← read_le 4 sector (at + 0x08)
  count ← read_le 4 sector (at + 0x0c)
  ok (record { start_lba = start; sector_count = count })

-- `placedExtent`: a used slot neither begins at sector 0 nor is empty.
unfoldable pub placed_extent : LbaExtent → SlotHeader → Result LbaExtent
placed_extent extent slot =
    if slot.slot_type == unused_partition_type
    then ok extent
    else if extent.start_lba == 0
    then error_at invalid_argument (slot.at + 0x08)
    else if extent.sector_count == 0
    then error_at invalid_argument (slot.at + 0x0c)
    else ok extent

-- `entryOf`
unfoldable pub entry_of : List ℕ → SlotHeader → Result MbrEntry
entry_of sector slot = do
  extent ← extent_at sector slot.at
  placed ← placed_extent extent slot
  ok (record {
    partition_type = slot.slot_type;
    start_lba = placed.start_lba;
    sector_count = placed.sector_count;
  })

-- `entryAt`, of a slot.
unfoldable pub slot_entry_at : List ℕ → ℕ → Result MbrEntry
slot_entry_at sector at = do
  valid ← status_is_valid sector at
  slot ← header_at sector at
  entry_of sector slot

-- `tableWith`
unfoldable pub table_with : List ℕ → MbrTable → ℕ → Result MbrTable
table_with sector table index =
    transform (λ entry. record { entries = set table.entries index entry })
      (slot_entry_at sector (slot_offset index))

abbrev pub unused_entry : MbrEntry
unused_entry = record { partition_type = unused_partition_type; start_lba = 0; sector_count = 0 }

-- The loop of `readTable`: `left` slots from `index` on.
unfoldable pub read_slots : List ℕ → MbrTable → ℕ → ℕ → Result MbrTable
read_slots sector table index zero = ok table
read_slots sector table index (suc left) = do
  built ← table_with sector table index
  read_slots sector built (suc index) left

-- `readTable`
unfoldable pub read_table : List ℕ → Result MbrTable
read_table sector =
    read_slots sector
      (record { entries = unused_entry ∷ unused_entry ∷ unused_entry ∷ unused_entry ∷ [] }) 0 4

-- `parseMbrSector`
unfoldable pub parse_mbr_sector : List ℕ → Result MbrTable
parse_mbr_sector sector =
    if ltb (length sector) mbr_sector_bytes then error_at out_of_range (length sector) else (do
      valid ← signature_is_valid (take mbr_sector_bytes sector)
      read_table (take mbr_sector_bytes sector))

-- `defersToGpt`
unfoldable pub any_protective : List MbrEntry → Bool
any_protective [] = false
any_protective (entry ∷ entries) =
    (entry.partition_type == protective_partition_type) || any_protective entries

unfoldable pub defers_to_gpt : MbrTable → Bool
defers_to_gpt table = any_protective table.entries
