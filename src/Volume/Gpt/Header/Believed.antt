-- ===== src/Volume/Gpt/Header/Believed.antt =====
-- `parse_gpt_header`: what a header that is believed looks like.
use data_recovery.Prelude.{
  ℕ, ◌*◌, ◌%◌, ◌^◌, ◌≤◌, ◌<◌, ◌≡◌, refl, sym, ap, ◌∙◌, List, [], ◌∷◌, Bool, true, not, ◌||◌, ltb,
  ◌==◌, inl, inr, length, take, All, arith, Bool-cases, same_bytes,
}
use mathlib.Core.Path.{subst}
use data_recovery.Core.Result.{ok, >>=-eq-ok, ok-inj}
use data_recovery.Core.SafeArith.{u64_mod}
use data_recovery.Core.SafeArith.Exact.{mul_le}
use data_recovery.Core.Bytes.{IsByte, bytes, read_le}
use data_recovery.Core.Bytes.Bound.{read_le-lt, All-take}
use data_recovery.Core.Crc32.{crc32}
use data_recovery.Volume.Gpt.{
  GptHeader, blank_header, gpt_header_bytes, gpt_entry_bytes, gpt_signature, max_entry_array_bytes,
}
use data_recovery.Volume.Gpt.HeaderFields.{
  without_checksum, with_usable_range, entry_size_in, entry_count_in, with_entry_array,
  with_placement, with_array_location, names_gpt, header_size_in, checksum_is_valid, placed_at,
  header_body_of,
}
use data_recovery.Volume.Gpt.Header.{verified_header, parse_gpt_header}

-- The fields that keep the reader inside bounds.
pub record IsSound (header : GptHeader) : Type 0 where
  pub usable : header.first_usable_lba ≤ header.last_usable_lba
  pub entry_fits : gpt_entry_bytes ≤ header.entry_bytes
  pub entry_aligned : header.entry_bytes % 8 ≡ 0
  pub array_bounded : header.entry_count * header.entry_bytes ≤ max_entry_array_bytes

with_placement_lem :
    (span : List ℕ) (header placed : GptHeader)
    → with_placement span header ≡ ok placed
    → read_le 8 span 0x18 ≡ ok placed.my_lba
unfolding with_placement
with_placement_lem span header placed e =
    let (mine, x, e') = >>=-eq-ok (read_le 8 span 0x18) _ {b = placed} e in
    let (alternate, y, e'') = >>=-eq-ok (read_le 8 span 0x20) _ {b = placed} e' in
    let same = ok-inj _ placed e'' in x ∙ ap (λ (h : GptHeader). ok h.my_lba) same

with_usable_range_lem :
    (span : List ℕ) (header placed : GptHeader)
    → with_usable_range span header ≡ ok placed
    → (placed.my_lba ≡ header.my_lba) × (placed.first_usable_lba ≤ placed.last_usable_lba)
unfolding with_usable_range
with_usable_range_lem span header placed e =
    let (first, x, e') = >>=-eq-ok (read_le 8 span 0x28) _ {b = placed} e in
    let (last, y, e'') = >>=-eq-ok (read_le 8 span 0x30) _ {b = placed} e' in
    elim (Bool-cases (ltb last first)) [
      | inl wrong ↦ absurd (ground (arith, wrong, e''))
      | inr right ↦
          let same = ok-inj _ placed (rw right at e'') in
          (
            ap (λ (h : GptHeader). h.my_lba) (sym same),
            subst (λ (h : GptHeader). h.first_usable_lba ≤ h.last_usable_lba) same
                (ground (arith, right)),
          )
    ]

with_array_location_lem :
    (span : List ℕ) (header placed : GptHeader)
    → with_array_location span header ≡ ok placed
    → (placed.my_lba ≡ header.my_lba)
      × (placed.first_usable_lba ≡ header.first_usable_lba)
      × (placed.last_usable_lba ≡ header.last_usable_lba)
unfolding with_array_location
with_array_location_lem span header placed e =
    let (lba, x, e') = >>=-eq-ok (read_le 8 span 0x48) _ {b = placed} e in
    let (crc, y, e'') = >>=-eq-ok (read_le 4 span 0x58) _ {b = placed} e' in
    let same = sym (ok-inj _ placed e'') in
    (
      ap (λ (h : GptHeader). h.my_lba) same,
      ap (λ (h : GptHeader). h.first_usable_lba) same,
      ap (λ (h : GptHeader). h.last_usable_lba) same,
    )

entry_size_in_lem :
    (span : List ℕ) (size : ℕ)
    → entry_size_in span ≡ ok size
    → (read_le 4 span 0x54 ≡ ok size) × (gpt_entry_bytes ≤ size) × (size % 8 ≡ 0)
unfolding entry_size_in
entry_size_in_lem span size e =
    let (read, x, e') = >>=-eq-ok (read_le 4 span 0x54) _ {b = size} e in
    elim (Bool-cases (ltb read gpt_entry_bytes || not (read % 8 == 0))) [
      | inl wrong ↦ absurd (ground (arith, wrong, e'))
      | inr right ↦
          let same = ok-inj read size (rw right at e') in
          (x ∙ ap ok same, ground (arith, right, same), ground (arith, right, same))
    ]

entry_count_in_lem :
    (span : List ℕ) (entry_bytes count : ℕ)
    → entry_count_in span entry_bytes ≡ ok count
    → (read_le 4 span 0x50 ≡ ok count) × (count * entry_bytes % u64_mod ≤ max_entry_array_bytes)
unfolding entry_count_in
entry_count_in_lem span entry_bytes count e =
    let (read, x, e') = >>=-eq-ok (read_le 4 span 0x50) _ {b = count} e in
    elim (Bool-cases (ltb max_entry_array_bytes (read * entry_bytes % u64_mod))) [
      | inl wrong ↦ absurd (ground (arith, wrong, e'))
      | inr right ↦
          let same = ok-inj read count (rw right at e') in
          (
            x ∙ ap ok same,
            subst (λ (c : ℕ). c * entry_bytes % u64_mod ≤ max_entry_array_bytes) same
                (ground (arith, right)),
          )
    ]

-- A product of two 32-bit numbers is not cut off.
product_fits : (a b : ℕ) → a < 2 ^ 32 → b < 2 ^ 32 → a * b % u64_mod ≡ a * b
product_fits a b ha hb =
    omega (arith, mul_le a b 0xffff_ffff 0xffff_ffff (omega arith) (omega arith))

with_entry_array_lem :
    (span : List ℕ) (header placed : GptHeader)
    → All IsByte span
    → header.first_usable_lba ≤ header.last_usable_lba
    → with_entry_array span header ≡ ok placed
    → (placed.my_lba ≡ header.my_lba) × IsSound placed
unfolding with_entry_array
with_entry_array_lem span header placed real usable e =
    let (size, x, e') = >>=-eq-ok (entry_size_in span) _ {b = placed} e in
    let (count, y, e'') = >>=-eq-ok (entry_count_in span size) _ {b = placed} e' in
    let (read_size, fits, aligned) = entry_size_in_lem span size x in
    let (read_count, few) = entry_count_in_lem span size count y in
    let whole =
      product_fits count size (read_le-lt 4 span 0x50 count real read_count)
        (read_le-lt 4 span 0x54 size real read_size) in
    let same = ok-inj _ placed e'' in
    (
      ap (λ (h : GptHeader). h.my_lba) (sym same),
      subst IsSound same (record {
        usable = usable;
        entry_fits = fits;
        entry_aligned = aligned;
        array_bounded = omega (arith, few, whole);
      }),
    )

header_body_of-IsSound :
    (span : List ℕ) (header : GptHeader)
    → All IsByte span
    → header_body_of span ≡ ok header
    → (read_le 8 span 0x18 ≡ ok header.my_lba) × IsSound header
unfolding header_body_of
header_body_of-IsSound span header real e =
    let (placed, x, e1) = >>=-eq-ok (with_placement span blank_header) _ {b = header} e in
    let (usable, y, e2) = >>=-eq-ok (with_usable_range span placed) _ {b = header} e1 in
    let (located, z, e3) = >>=-eq-ok (with_array_location span usable) _ {b = header} e2 in
    let mine = with_placement_lem span blank_header placed x in
    let (same_mine, ordered) = with_usable_range_lem span placed usable y in
    let (same_mine', first, last) = with_array_location_lem span usable located z in
    let (same_mine'', sound) =
      with_entry_array_lem span located header real (omega (arith, first, last, ordered)) e3 in
    (mine ∙ ap ok (sym (same_mine'' ∙ same_mine' ∙ same_mine)), sound)

-- The header's bytes are signed for, and it says where it stands.
pub record IsVerified (sector : List ℕ) (at_lba size : ℕ) : Type 0 where
  pub named : bytes sector 0x00 8 ≡ ok gpt_signature
  pub sized : read_le 4 sector 0x0c ≡ ok size
  pub size_fits : (gpt_header_bytes ≤ size) × (size ≤ length sector)
  pub signed : read_le 4 (take size sector) 0x10 ≡ ok (crc32 (without_checksum (take size sector)))
  pub stands : read_le 8 (take size sector) 0x18 ≡ ok at_lba

same_bytes_sound : (xs ys : List ℕ) → same_bytes xs ys ≡ true → xs ≡ ys
unfolding same_bytes
same_bytes_sound [] [] e = refl
same_bytes_sound [] (y ∷ ys) e = cc
same_bytes_sound (x ∷ xs) [] e = cc
same_bytes_sound (x ∷ xs) (y ∷ ys) e =
    let here : x ≡ y = ground (arith, e) in
    let there = same_bytes_sound xs ys (ground (arith, e)) in cc

names_gpt_lem :
    (sector : List ℕ) (named : Bool)
    → names_gpt sector ≡ ok named
    → bytes sector 0x00 8 ≡ ok gpt_signature
unfolding names_gpt
names_gpt_lem sector named e =
    let (raw, x, e') = >>=-eq-ok (bytes sector 0x00 8) _ {b = named} e in
    elim (Bool-cases (same_bytes raw gpt_signature)) [
      | inl same ↦ x ∙ ap ok (same_bytes_sound raw gpt_signature same)
      | inr other ↦ absurd (ground (arith, other, e'))
    ]

header_size_in_lem :
    (sector : List ℕ) (available size : ℕ)
    → header_size_in sector available ≡ ok size
    → (read_le 4 sector 0x0c ≡ ok size) × (gpt_header_bytes ≤ size) × (size ≤ available)
unfolding header_size_in
header_size_in_lem sector available size e =
    let (read, x, e') = >>=-eq-ok (read_le 4 sector 0x0c) _ {b = size} e in
    elim (Bool-cases (ltb read gpt_header_bytes || ltb available read)) [
      | inl wrong ↦ absurd (ground (arith, wrong, e'))
      | inr right ↦
          let same = ok-inj read size (rw right at e') in
          (x ∙ ap ok same, ground (arith, right, same), ground (arith, right, same))
    ]

checksum_is_valid_lem :
    (header : List ℕ) (valid : Bool)
    → checksum_is_valid header ≡ ok valid
    → read_le 4 header 0x10 ≡ ok (crc32 (without_checksum header))
unfolding checksum_is_valid
checksum_is_valid_lem header valid e =
    let (stated, x, e') = >>=-eq-ok (read_le 4 header 0x10) _ {b = valid} e in
    let same : crc32 (without_checksum header) ≡ stated = ground (arith, e') in x ∙ ap ok (sym same)

placed_at_lem :
    (span : List ℕ) (at_lba : ℕ) (placed : Bool)
    → placed_at span at_lba ≡ ok placed
    → read_le 8 span 0x18 ≡ ok at_lba
unfolding placed_at
placed_at_lem span at_lba placed e =
    let (mine, x, e') = >>=-eq-ok (read_le 8 span 0x18) _ {b = placed} e in
    let same : mine ≡ at_lba = ground (arith, e') in x ∙ ap ok same

-- A header is believed only in a sector of bytes that carries the format's name, states a size from
-- 92 bytes up to the sector's, whose bytes up to that size check to the sum stated in them, and that
-- says it stands where it was read; its usable range is ordered, its entries have 128 bytes at
-- least, by eights, and the array of them at most 4 MiB.
pub parse_gpt_header-IsSound :
    (sector : List ℕ) (at_lba : ℕ) (header : GptHeader)
    → All IsByte sector
    → parse_gpt_header sector at_lba ≡ ok header
    → IsSound header × (header.my_lba ≡ at_lba) × ((size : ℕ) × IsVerified sector at_lba size)
unfolding parse_gpt_header verified_header
parse_gpt_header-IsSound sector at_lba header real e =
    elim (Bool-cases (ltb (length sector) gpt_header_bytes)) [
      | inl short ↦ absurd (ground (arith, short, e))
      | inr whole ↦
          let (named, x, e1) = >>=-eq-ok (names_gpt sector) _ {b = header} (rw whole at e) in
          let (size, y, e2) = >>=-eq-ok (header_size_in sector (length sector)) _ {b = header} e1 in
          let (valid, z, e3) = >>=-eq-ok (checksum_is_valid (take size sector)) _ {b = header} e2 in
          let (placed, w, e4) = >>=-eq-ok (placed_at (take size sector) at_lba) _ {b = header} e3 in
          let (mine, sound) =
            header_body_of-IsSound (take size sector) header (All-take size sector real) e4 in
          let (read, least, most) = header_size_in_lem sector (length sector) size y in
          let stands = placed_at_lem (take size sector) at_lba placed w in
          (
            sound,
            ok-inj header.my_lba at_lba (sym mine ∙ stands),
            (
              size,
              record {
                named = names_gpt_lem sector named x;
                sized = read;
                size_fits = (least, most);
                signed = checksum_is_valid_lem (take size sector) valid z;
                stands = stands;
              },
            ),
          )
    ]
