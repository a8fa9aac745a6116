-- ===== src/Volume/Gpt/Entry/Fields.antt =====
-- `parse_gpt_entry`: what a parsed slot holds, in terms of the fields of the slot.
use data_recovery.Prelude.{ℕ, ◌≤◌, ◌≡◌, List, ltb, inl, inr, length, take, All, arith, Bool-cases}
use mathlib.Core.Path.{subst}
use data_recovery.Core.Result.{ok, >>=-eq-ok, ok-inj}
use data_recovery.Core.SafeArith.{u64_max}
use data_recovery.Core.Bytes.{IsByte, bytes, read_le}
use data_recovery.Core.Bytes.Bound.{read_le-lt, All-take}
use data_recovery.Volume.Gpt.{gpt_entry_bytes}
use data_recovery.Volume.Gpt.Entry.{GptEntry, LbaRange, range_of, entry_with, parse_gpt_entry}

-- An ordered range of 64-bit sector numbers.
pub record IsRange (first last : ℕ) : Type 0 where
  pub ordered : first ≤ last
  pub fits : last ≤ u64_max

-- The numbers that the fields of a slot state.
pub record IsStated (span : List ℕ) (first last : ℕ) : Type 0 where
  pub first_field : read_le 8 span 0x20 ≡ ok first
  pub last_field : read_le 8 span 0x28 ≡ ok last

range_of-IsRange :
    (span : List ℕ) (range : LbaRange)
    → All IsByte span
    → range_of span ≡ ok range
    → IsRange range.first_lba range.last_lba × IsStated span range.first_lba range.last_lba
unfolding range_of
range_of-IsRange span range real e =
    let (first, x, e') = >>=-eq-ok (read_le 8 span 0x20) _ {b = range} e in
    let (last, y, e'') = >>=-eq-ok (read_le 8 span 0x28) _ {b = range} e' in
    let below = read_le-lt 8 span 0x28 last real y in
    elim (Bool-cases (ltb last first)) [
      | inl wrong ↦ absurd (ground (arith, wrong, e''))
      | inr right ↦
          subst
            (λ (r : LbaRange).
              IsRange r.first_lba r.last_lba × IsStated span r.first_lba r.last_lba)
            (ok-inj _ range (rw right at e''))
            (
              record { ordered = ground (arith, right); fits = omega (arith, below) },
              record { first_field = x; last_field = y },
            )
    ]

-- A slot was parsed: its range, where that is stated, and its type.
pub record IsEntry (span : List ℕ) (entry : GptEntry) : Type 0 where
  pub range : IsRange entry.first_lba entry.last_lba
  pub stated : IsStated span entry.first_lba entry.last_lba
  pub guid_field : bytes span 0x00 16 ≡ ok entry.type_guid

entry_with-IsEntry :
    (span : List ℕ) (range : LbaRange) (entry : GptEntry)
    → IsRange range.first_lba range.last_lba
    → IsStated span range.first_lba range.last_lba
    → entry_with span range ≡ ok entry
    → IsEntry span entry
unfolding entry_with
entry_with-IsEntry span range entry h stated e =
    let (guid, x, e') = >>=-eq-ok (bytes span 0x00 16) _ {b = entry} e in
    let (name_field, y, e'') = >>=-eq-ok (bytes span 0x38 72) _ {b = entry} e' in
    subst (IsEntry span) (ok-inj _ entry e'')
      (record { range = h; stated = stated; guid_field = x })

pub parse_gpt_entry-IsEntry :
    (slot : List ℕ) (entry : GptEntry)
    → All IsByte slot
    → parse_gpt_entry slot ≡ ok entry
    → IsEntry (take gpt_entry_bytes slot) entry
unfolding parse_gpt_entry
parse_gpt_entry-IsEntry slot entry real e = elim (Bool-cases (ltb (length slot) gpt_entry_bytes)) [
  | inl short ↦ absurd (ground (arith, short, e))
  | inr whole ↦
      let (range, x, e') =
        >>=-eq-ok (range_of (take gpt_entry_bytes slot)) _ {b = entry} (rw whole at e) in
      let (ordered, stated) =
        range_of-IsRange (take gpt_entry_bytes slot) range (All-take gpt_entry_bytes slot real) x in
      entry_with-IsEntry (take gpt_entry_bytes slot) range entry ordered stated e'
]
