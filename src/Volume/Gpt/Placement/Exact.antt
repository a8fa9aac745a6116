-- ===== src/Volume/Gpt/Placement/Exact.antt =====
-- `partitions_in`: the byte ranges of the used slots.
use data_recovery.Prelude.{
  ℕ, zero, suc, ◌+◌, ◌-◌, ◌*◌, ◌%◌, ◌≤◌, ◌≡◌, ap, ◌∙◌, List, [], ◌∷◌, ◌++◌, ltb, inl, inr, length,
  take, All, arith, Bool-cases, refl, sym, slice, true,
}
use mathlib.Core.Path.{subst}
use mathlib.Core.List.{append-nil, append_assoc}
use data_recovery.Core.Result.{ok, >>=-eq-ok, ok-inj}
use data_recovery.Core.SafeArith.{u64_max, u64_mod, safe_add64, safe_mul64}
use data_recovery.Core.SafeArith.Exact.{safe_add64_exact, safe_mul64_exact, mul_le}
use data_recovery.Core.Bytes.{IsByte, bytes}
use data_recovery.Core.Bytes.Bound.{All-slice}
use data_recovery.Volume.Gpt.{GptHeader, gpt_entry_bytes}
use data_recovery.Volume.Gpt.Entry.{GptEntry, parse_gpt_entry, is_unused_entry, all_zero}
use data_recovery.Volume.Gpt.Placement.{
  GptPartition, length_bytes_of, gpt_partition_of, append_parsed, append_entry, slot_at,
  entries_from, partitions_in,
}
use data_recovery.Volume.Gpt.Entry.Fields.{IsStated, IsEntry, parse_gpt_entry-IsEntry}

safe_add64-eq-ok :
    (a b n : ℕ) → a ≤ u64_max → b ≤ u64_max → safe_add64 a b 0 ≡ ok n → (n ≡ a + b) × (n ≤ u64_max)
safe_add64-eq-ok a b n ha hb e =
    let exact = safe_add64_exact a b 0 ha hb in
    elim (Bool-cases (ltb u64_max (a + b))) [
      | inl over ↦ absurd (ground (arith, over, exact, e))
      | inr fits ↦
          let same : n ≡ a + b = ground (arith, fits, exact, e) in
          (same, ground (arith, fits, same))
    ]

safe_mul64-eq-ok :
    (a b n : ℕ) → a ≤ u64_max → b ≤ u64_max → safe_mul64 a b 0 ≡ ok n → (n ≡ a * b) × (n ≤ u64_max)
safe_mul64-eq-ok a b n ha hb e =
    let exact = safe_mul64_exact a b 0 ha hb in
    elim (Bool-cases (ltb u64_max (a * b))) [
      | inl over ↦ absurd (ground (arith, over, exact, e))
      | inr fits ↦
          let same : n ≡ a * b = ground (arith, fits, exact, e) in
          (same, ground (arith, fits, same))
    ]

-- The partition is the ordered range of sectors that the fields of the slot state, both ends
-- included, in bytes and not cut off, and has the type of the slot.
abbrev pub IsPlaced : ℕ → List ℕ → GptPartition → Type 0
IsPlaced sector_size span p =
    (first : ℕ) × (last : ℕ) × IsStated span first last
    × (first ≤ last)
    × (p.start_bytes ≡ first * sector_size)
    × (p.length_bytes ≡ (last - first + 1) * sector_size)
    × (p.start_bytes ≤ u64_max)
    × (p.length_bytes ≤ u64_max)
    × (bytes span 0x00 16 ≡ ok p.type_guid)

abbrev pub IsZero : ℕ → Type 0
IsZero b = b ≡ 0

-- The type of the slot is sixteen zeros.
abbrev pub IsUnused : List ℕ → Type 0
IsUnused span = (guid : List ℕ) × (bytes span 0x00 16 ≡ ok guid) × All IsZero guid

-- The partitions of slots, in their order: one for each slot whose type is not zeros.
pub data IsListing (sector_size : ℕ) : List (List ℕ) → List GptPartition → Type 0 where
  none_left : IsListing sector_size [] []
  unused :
      (slot : List ℕ) (slots : List (List ℕ)) (partitions : List GptPartition)
      → IsUnused (take gpt_entry_bytes slot)
      → IsListing sector_size slots partitions
      → IsListing sector_size (slot ∷ slots) partitions
  used :
      (slot : List ℕ) (slots : List (List ℕ)) (p : GptPartition) (partitions : List GptPartition)
      → ¬ (All IsZero p.type_guid)
      → IsPlaced sector_size (take gpt_entry_bytes slot) p
      → IsListing sector_size slots partitions
      → IsListing sector_size (slot ∷ slots) (p ∷ partitions)

-- `left` slots of an array, from `index` on.
abbrev pub slots_from : List ℕ → ℕ → ℕ → ℕ → List (List ℕ)
slots_from array entry_bytes index zero = []
slots_from array entry_bytes index (suc left) =
    slice array (index * entry_bytes) entry_bytes ∷ slots_from array entry_bytes (suc index) left

all_zero_sound : (xs : List ℕ) → all_zero xs ≡ true → All IsZero xs
unfolding all_zero
all_zero_sound [] e = tt
all_zero_sound (x ∷ xs) e = (ground (arith, e), all_zero_sound xs (ground (arith, e)))

all_zero_complete : (xs : List ℕ) → All IsZero xs → all_zero xs ≡ true
unfolding all_zero
all_zero_complete [] h = refl
all_zero_complete (x ∷ xs) h = ground (arith, h.0, all_zero_complete xs h.1)

gpt_partition_of-IsPlaced :
    (span : List ℕ) (entry : GptEntry) (sector_size : ℕ) (p : GptPartition)
    → sector_size ≤ u64_max
    → IsEntry span entry
    → gpt_partition_of entry sector_size ≡ ok p
    → IsPlaced sector_size span p × (entry.type_guid ≡ p.type_guid)
unfolding gpt_partition_of length_bytes_of
gpt_partition_of-IsPlaced span entry sector_size p hs parsed e =
    let ordered = parsed.range.ordered in
    let fits = parsed.range.fits in
    let difference = (entry.last_lba + u64_mod - entry.first_lba) % u64_mod in
    let exact : difference ≡ entry.last_lba - entry.first_lba = omega (arith, ordered, fits) in
    let (start_bytes, x, e1) = >>=-eq-ok (safe_mul64 entry.first_lba sector_size 0) _ {b = p} e in
    let (length_bytes, y, e2) = >>=-eq-ok (length_bytes_of entry sector_size) _ {b = p} e1 in
    let (sectors, z, e3) =
      >>=-eq-ok (safe_add64 difference 1 0) (λ (n : ℕ). safe_mul64 n sector_size 0)
        {b = length_bytes} y in
    let (start, start_fits) =
      safe_mul64-eq-ok entry.first_lba sector_size start_bytes (omega (arith, ordered, fits)) hs
        x in
    let (count, count_fits) =
      safe_add64-eq-ok difference 1 sectors (omega (arith, exact, fits)) (omega arith) z in
    let (size, size_fits) = safe_mul64-eq-ok sectors sector_size length_bytes count_fits hs e3 in
    subst (λ (q : GptPartition). IsPlaced sector_size span q × (entry.type_guid ≡ q.type_guid))
      (ok-inj _ p e2)
      (
        (
          entry.first_lba,
          entry.last_lba,
          parsed.stated,
          ordered,
          start,
          size ∙ ap (λ (n : ℕ). n * sector_size) (count ∙ ap (λ (n : ℕ). n + 1) exact),
          start_fits,
          size_fits,
          parsed.guid_field,
        ),
        refl,
      )

-- What a slot adds to a list, and that the slots behind it are listed after that.
append_parsed-IsListing :
    (slot : List ℕ) (slots : List (List ℕ)) (entry : GptEntry) (found longer : List GptPartition)
    (sector_size : ℕ)
    → sector_size ≤ u64_max
    → IsEntry (take gpt_entry_bytes slot) entry
    → append_parsed entry found sector_size ≡ ok longer
    → (more : List GptPartition) × (longer ≡ found ++ more)
      × ((rest : List GptPartition)
          → IsListing sector_size slots rest
          → IsListing sector_size (slot ∷ slots) (more ++ rest))
unfolding append_parsed is_unused_entry
append_parsed-IsListing slot slots entry found longer sector_size hs parsed e =
    elim (Bool-cases (all_zero entry.type_guid)) [
      | inl zeros ↦ (
        [],
        sym (ok-inj found longer (rw zeros at e)) ∙ sym (append-nil found),
        λ rest listed.
            IsListing.unused slot slots rest
              (entry.type_guid, parsed.guid_field, all_zero_sound entry.type_guid zeros) listed,
      )
      | inr typed ↦
          let (p, x, e') =
            >>=-eq-ok (gpt_partition_of entry sector_size) _ {b = longer} (rw typed at e) in
          let (placed, same) =
            gpt_partition_of-IsPlaced (take gpt_entry_bytes slot) entry sector_size p hs parsed x in
          (
            p ∷ [],
            sym (ok-inj _ longer e'),
            λ rest listed.
                IsListing.used slot slots p rest
                  (λ zeros. cc (
                    all_zero_complete entry.type_guid (subst (All IsZero) (sym same) zeros),
                    typed,
                  ))
                  placed listed,
          )
    ]

entries_from-IsListing :
    (array : List ℕ) (header : GptHeader) (sector_size : ℕ) (found partitions : List GptPartition)
    (index left : ℕ)
    → All IsByte array
    → sector_size ≤ u64_max
    → (index + left) * header.entry_bytes ≤ u64_max
    → entries_from array header sector_size found index left ≡ ok partitions
    → (more : List GptPartition) × (partitions ≡ found ++ more)
      × IsListing sector_size (slots_from array header.entry_bytes index left) more
unfolding entries_from append_entry slot_at
entries_from-IsListing array header sector_size found partitions index zero real hs fits e =
    ([], sym (ok-inj found partitions e) ∙ sym (append-nil found), IsListing.none_left)
entries_from-IsListing array header sector_size found partitions index (suc left) real hs fits e =
    let below =
      mul_le index header.entry_bytes (index + suc left) header.entry_bytes (omega arith)
        (omega arith) in
    let at : index * header.entry_bytes % u64_mod ≡ index * header.entry_bytes =
      omega (arith, below, fits) in
    let slot = slice array (index * header.entry_bytes) header.entry_bytes in
    let slots = slots_from array header.entry_bytes (suc index) left in
    let stands : slot_at array header index ≡ slot =
      ap (λ (offset : ℕ). slice array offset header.entry_bytes) at in
    let (longer, x, e') =
      >>=-eq-ok (append_entry (slot_at array header index) found sector_size) _ {b = partitions}
        e in
    let (entry, y, x') =
      >>=-eq-ok (parse_gpt_entry (slot_at array header index)) _ {b = longer} x in
    let parsed =
      parse_gpt_entry-IsEntry slot entry
        (All-slice array (index * header.entry_bytes) header.entry_bytes real)
        (ap parse_gpt_entry (sym stands) ∙ y) in
    let (more, same, extend) =
      append_parsed-IsListing slot slots entry found longer sector_size hs parsed x' in
    let next : (suc index + left) * header.entry_bytes ≤ u64_max =
      subst (λ (n : ℕ). n * header.entry_bytes ≤ u64_max) (omega arith) fits in
    let (rest, same', listed) =
      entries_from-IsListing array header sector_size longer partitions (suc index) left real hs
        next e' in
    (
      more ++ rest,
      same' ∙ ap (λ (ps : List GptPartition). ps ++ rest) same ∙ append_assoc found more rest,
      extend rest listed,
    )

-- Of an array of bytes whose slots end within 64 bits: the partitions are those of its slots, in
-- their order, one for each slot whose type is not zeros, over the sectors that the slot states.
pub partitions_in-IsListing :
    (array : List ℕ) (header : GptHeader) (sector_size : ℕ) (partitions : List GptPartition)
    → All IsByte array
    → sector_size ≤ u64_max
    → header.entry_count * header.entry_bytes ≤ u64_max
    → partitions_in array header sector_size ≡ ok partitions
    → IsListing sector_size (slots_from array header.entry_bytes 0 header.entry_count) partitions
unfolding partitions_in
partitions_in-IsListing array header sector_size partitions real hs fits e =
    let (more, same, listed) =
      entries_from-IsListing array header sector_size [] partitions 0 header.entry_count real hs
        (subst (λ (n : ℕ). n * header.entry_bytes ≤ u64_max) (omega arith) fits) e in
    subst (IsListing sector_size (slots_from array header.entry_bytes 0 header.entry_count))
      (sym same) listed

length-slots_from :
    (array : List ℕ) (entry_bytes index left : ℕ)
    → length (slots_from array entry_bytes index left) ≡ left
length-slots_from array entry_bytes index zero = refl
length-slots_from array entry_bytes index (suc left) =
    ap suc (length-slots_from array entry_bytes (suc index) left)

length-listing :
    {sector_size : ℕ} {slots : List (List ℕ)} {partitions : List GptPartition}
    → IsListing sector_size slots partitions
    → length partitions ≤ length slots
length-listing IsListing.none_left = omega arith
length-listing (IsListing.unused slot slots partitions u rest) = omega (arith, length-listing rest)
length-listing (IsListing.used slot slots p partitions t placed rest) =
    omega (arith, length-listing rest)

pub length-IsListing :
    (sector_size : ℕ) (array : List ℕ) (entry_bytes count : ℕ) (partitions : List GptPartition)
    → IsListing sector_size (slots_from array entry_bytes 0 count) partitions
    → length partitions ≤ count
length-IsListing sector_size array entry_bytes count partitions listed =
    omega (arith, length-listing listed, length-slots_from array entry_bytes 0 count)
