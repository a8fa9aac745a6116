-- ===== src/Volume/Mbr/Slots.antt =====
-- `parse_mbr_sector`: what a table that is believed looks like.
use data_recovery.Prelude.{
  ℕ, zero, suc, ◌<◌, ◌≤◌, ◌≡◌, refl, sym, ap, ◌∙◌, ◌⊎◌, inl, inr, List, [], ◌∷◌, Bool, ◌==◌, ltb,
  arith, All, Bool-cases, length, take, set,
}
use mathlib.Core.Path.{subst}
use data_recovery.Core.Result.{ok, >>=-eq-ok, transform-eq-ok}
use data_recovery.Core.Bytes.{read_le}
use data_recovery.Volume.SectorIo.{mbr_sector_bytes}
use data_recovery.Volume.Mbr.{
  MbrEntry, MbrTable, SlotHeader, LbaExtent, unused_partition_type, slot_offset, signature_offset,
  table_signature, signature_is_valid, status_is_valid, header_at, extent_at, placed_extent,
  entry_of, slot_entry_at, table_with, read_slots, read_table, parse_mbr_sector,
}

-- The slot is unused, or it lies behind the table's own sector and holds a sector at least.
abbrev pub IsPlacedSlot : MbrEntry → Type 0
IsPlacedSlot entry =
    (entry.partition_type ≡ unused_partition_type)
    ⊎ ((0 < entry.start_lba) × (0 < entry.sector_count))

placed_extent_sound :
    (extent placed : LbaExtent) (slot : SlotHeader)
    → placed_extent extent slot ≡ ok placed
    → (slot.slot_type ≡ unused_partition_type)
      ⊎ ((0 < placed.start_lba) × (0 < placed.sector_count))
unfolding placed_extent
placed_extent_sound extent placed slot e =
    elim (Bool-cases (slot.slot_type == unused_partition_type)) [
      | inl unused ↦ inl (ground (arith, unused))
      | inr used ↦
          let start : 0 < extent.start_lba = ground (arith, e, used) in
          let count : 0 < extent.sector_count = ground (arith, e, used) in
          let same : extent ≡ placed = ground (arith, e, used, start, count) in
          inr (ground (arith, same, start), ground (arith, same, count))
    ]

entry_of-IsPlacedSlot :
    (sector : List ℕ) (slot : SlotHeader) (entry : MbrEntry)
    → entry_of sector slot ≡ ok entry
    → IsPlacedSlot entry
unfolding entry_of
entry_of-IsPlacedSlot sector slot entry e =
    let (extent, x, e') = >>=-eq-ok (extent_at sector slot.at) _ {b = entry} e in
    let (placed, y, e'') = >>=-eq-ok (placed_extent extent slot) _ {b = entry} e' in
    subst IsPlacedSlot (cc e'') (placed_extent_sound extent placed slot y)

slot_entry_at-IsPlacedSlot :
    (sector : List ℕ) (at : ℕ) (entry : MbrEntry)
    → slot_entry_at sector at ≡ ok entry
    → IsPlacedSlot entry
unfolding slot_entry_at
slot_entry_at-IsPlacedSlot sector at entry e =
    let (valid, x, e') = >>=-eq-ok (status_is_valid sector at) _ {b = entry} e in
    let (slot, y, e'') = >>=-eq-ok (header_at sector at) _ {b = entry} e' in
    entry_of-IsPlacedSlot sector slot entry e''

All-set :
    (es : List MbrEntry) (i : ℕ) (e : MbrEntry)
    → All IsPlacedSlot es
    → IsPlacedSlot e
    → All IsPlacedSlot (set es i e)
All-set [] i e h k = tt
All-set (x ∷ xs) zero e h k = (k, h.1)
All-set (x ∷ xs) (suc i) e h k = (h.0, All-set xs i e h.1 k)

length-set : (es : List MbrEntry) (i : ℕ) (e : MbrEntry) → length (set es i e) ≡ length es
length-set [] i e = refl
length-set (x ∷ xs) zero e = refl
length-set (x ∷ xs) (suc i) e = ap suc (length-set xs i e)

-- The table has four slots, each unused or placed.
pub record IsTable (table : MbrTable) : Type 0 where
  pub four : length table.entries ≡ 4
  pub placed : All IsPlacedSlot table.entries

table_with-IsTable :
    (sector : List ℕ) (table built : MbrTable) (index : ℕ)
    → IsTable table
    → table_with sector table index ≡ ok built
    → IsTable built
unfolding table_with
table_with-IsTable sector table built index t e =
    let (entry, x, same) = transform-eq-ok _ (slot_entry_at sector (slot_offset index)) built e in
    subst IsTable (sym same) (record {
      four = length-set table.entries index entry ∙ t.four;
      placed =
          All-set table.entries index entry t.placed
            (slot_entry_at-IsPlacedSlot sector (slot_offset index) entry x);
    })

read_slots-IsTable :
    (sector : List ℕ) (table built : MbrTable) (index left : ℕ)
    → IsTable table
    → read_slots sector table index left ≡ ok built
    → IsTable built
unfolding read_slots
read_slots-IsTable sector table built index zero t e = subst IsTable (cc e) t
read_slots-IsTable sector table built index (suc left) t e =
    let (next, x, e') = >>=-eq-ok (table_with sector table index) _ {b = built} e in
    read_slots-IsTable sector next built (suc index) left
      (table_with-IsTable sector table next index t x) e'

signature_is_valid-signed :
    (sector : List ℕ) (valid : Bool)
    → signature_is_valid sector ≡ ok valid
    → read_le 2 sector signature_offset ≡ ok table_signature
unfolding signature_is_valid
signature_is_valid-signed sector valid e =
    let (value, x, e') = >>=-eq-ok (read_le 2 sector signature_offset) _ {b = valid} e in
    let same : value ≡ table_signature = ground (arith, e') in x ∙ ap ok same

-- A table is believed only in a sector of at least 512 bytes whose bytes at 510 are the signature;
-- it has four slots, each unused or placed behind the table's own sector with a sector at least.
pub parse_mbr_sector-IsTable :
    (sector : List ℕ) (table : MbrTable)
    → parse_mbr_sector sector ≡ ok table
    → IsTable table
      × (mbr_sector_bytes ≤ length sector)
      × (read_le 2 (take mbr_sector_bytes sector) signature_offset ≡ ok table_signature)
unfolding parse_mbr_sector read_table
parse_mbr_sector-IsTable sector table e = elim (Bool-cases (ltb (length sector) mbr_sector_bytes)) [
  | inl short ↦ absurd (ground (arith, short, e))
  | inr whole ↦
      let (valid, x, e') =
        >>=-eq-ok (signature_is_valid (take mbr_sector_bytes sector))
          (λ valid. read_table (take mbr_sector_bytes sector)) {b = table} (rw whole at e) in
      (
        read_slots-IsTable (take mbr_sector_bytes sector) _ table 0 4
            (record { four = refl; placed = (inl refl, (inl refl, (inl refl, (inl refl, tt)))) })
            e',
        ground (arith, whole),
        signature_is_valid-signed _ valid x,
      )
]
