-- ===== src/Volume/PartitionView/Inside.antt =====
-- A view of a device is a device that holds a range of its bytes.
use data_recovery.Prelude.{
  ℕ, ◌+◌, ◌-◌, ◌≤◌, ◌≡◌, sym, ap, ◌∙◌, List, false, ltb, length, slice, arith, Bool-cases, inl, inr,
  length-take, length-drop, ◌∷◌, drop, slice-slice, ◌<◌, ◌⊎◌, refl, true, leb, [],
}
use data_recovery.Core.Result.{Error, ok, err, overflow, Result-cases}
use data_recovery.Core.SafeArith.{u64_max}
use data_recovery.Core.Io.{Device, IsDevice}
use data_recovery.Core.Io.ReadRange.{clamp_read_range}
use data_recovery.Core.Io.ReadRange.Exact.{clamp_read_range-IsClamped, slice-empty}
use data_recovery.Volume.PartitionView.{clamp_length, view_read_at, partition_view}

length-none : (xs : List ℕ) → length xs ≤ 0 → xs ≡ []
length-none [] h = refl
length-none (x ∷ xs) h = absurd (omega arith)

clamp_length-length :
    (contents : List ℕ) (start length_bytes : ℕ)
    → clamp_length start length_bytes (length contents) ≡ length (slice contents start length_bytes)
unfolding clamp_length
clamp_length-length contents start length_bytes =
    ground (arith, length-take length_bytes (drop start contents), length-drop start contents)

view_read_at_lem :
    (parent : Device) (start size offset count want : ℕ)
    → start + offset ≤ u64_max
    → clamp_read_range offset count size ≡ ok want
    → view_read_at parent start size offset count ≡ parent.read_at (start + offset) want
unfolding view_read_at
view_read_at_lem parent start size offset count want h e =
    let addressed : ltb (u64_max - start) offset ≡ false = ground arith in rw (addressed, e)

view-IsDevice :
    (parent : Device) (contents : List ℕ) (start length_bytes : ℕ)
    → IsDevice parent contents
    → start ≤ length contents
    → IsDevice (partition_view parent start length_bytes) (slice contents start length_bytes)
unfolding partition_view
view-IsDevice parent contents start length_bytes real begins =
    let view = slice contents start length_bytes in
    let size : clamp_length start length_bytes parent.size_in_bytes ≡ length view =
      ap (clamp_length start length_bytes) real.sized
      ∙ clamp_length-length contents start length_bytes in
    let in_word = real.addressed in
    let shorter = length-take length_bytes (drop start contents) in
    let rest = length-drop start contents in
    record {
      sized = size;
      addressed = omega (arith, shorter, rest, in_word);
      answers = λ offset count inside fits.
          let (want, e, clamped) = clamp_read_range-IsClamped view offset count fits in
          let last : offset + want ≤ length view = elim (Bool-cases (ltb 0 want)) [
            | inl some_bytes ↦ clamped.inside (ground (arith, some_bytes))
            | inr no_bytes ↦ ground (arith, no_bytes, inside)
          ] in
          view_read_at_lem parent start (clamp_length start length_bytes parent.size_in_bytes)
            offset count want (omega (arith, last, shorter, rest, in_word, begins))
            (ap (clamp_read_range offset count) size ∙ e)
          ∙ real.answers (start + offset) want (omega (arith, last, shorter, rest, begins))
              (omega (arith, last, shorter, rest, in_word, begins))
          ∙ ap ok (
              sym
                (slice-slice contents start length_bytes offset want (omega (arith, last, shorter)))
              ∙ clamped.same);
    }

-- The device puts no more bytes into a buffer than the buffer has.
abbrev pub IsBounded : Device → Type 0
IsBounded device =
    (offset count : ℕ) (bytes : List ℕ)
    → device.read_at offset count ≡ ok bytes
    → length bytes ≤ count

-- Every read, wherever it begins and whatever its length, fails or answers what `contents` holds
-- there, which is nothing past their end.
abbrev pub IsConfined : Device → List ℕ → Type 0
IsConfined device contents =
    (offset count : ℕ)
    → ((e : Error) × (device.read_at offset count ≡ err e))
      ⊎ (device.read_at offset count ≡ ok (slice contents offset count))

abbrev overflow_at : ℕ → Error
overflow_at offset = record { code = overflow; offset = offset; os_code = 0 }

-- A read that begins at the end of the view or past it: the parent is asked for no bytes.
view_read_at-past :
    (parent : Device) (view : List ℕ) (start offset count : ℕ)
    → IsBounded parent
    → length view ≤ offset
    → ((e : Error) × (view_read_at parent start (length view) offset count ≡ err e))
      ⊎ (view_read_at parent start (length view) offset count ≡ ok (slice view offset count))
unfolding view_read_at clamp_read_range
view_read_at-past parent view start offset count bounded past =
    elim (Bool-cases (ltb (u64_max - start) offset)) [
      | inl unaddressed ↦ inl (overflow_at offset, rw unaddressed refl)
      | inr addressed ↦ elim (Bool-cases (ltb (u64_max - offset) count)) [
        | inl long ↦ inl (overflow_at offset, rw (addressed, long) refl)
        | inr fits ↦
            let outside : leb (length view) offset ≡ true = ground (arith, past) in
            elim (Result-cases (parent.read_at (start + offset) 0)) [
              | inr (e, failed) ↦ inl (e, rw (addressed, fits, outside) failed)
              | inl (bytes, answered) ↦ inr (
                  rw (addressed, fits, outside)
                    (answered
                      ∙ ap ok (
                          length-none bytes (bounded (start + offset) 0 bytes answered)
                          ∙ sym (slice-empty view offset count past))))
            ]
      ]
    ]

-- A read that begins in the view.
view_read_at-within :
    (device : Device) (view : List ℕ) (offset count : ℕ)
    → IsDevice device view
    → offset < length view
    → ((e : Error) × (clamp_read_range offset count (length view) ≡ err e))
      ⊎ (device.read_at offset count ≡ ok (slice view offset count))
unfolding clamp_read_range
view_read_at-within device view offset count real inside =
    elim (Bool-cases (ltb (u64_max - offset) count)) [
      | inl long ↦ inl (overflow_at offset, rw long refl)
      | inr fits ↦
          let word = real.addressed in
          inr (real.answers offset count (omega arith) (ground (arith, fits, inside, word)))
    ]

view_read_at-clamped_err :
    (parent : Device) (start size offset count : ℕ) (e : Error)
    → clamp_read_range offset count size ≡ err e
    → (fault : Error) × (view_read_at parent start size offset count ≡ err fault)
unfolding view_read_at
view_read_at-clamped_err parent start size offset count e h =
    elim (Bool-cases (ltb (u64_max - start) offset)) [
      | inl unaddressed ↦ (overflow_at offset, rw unaddressed refl)
      | inr addressed ↦ (e, rw (addressed, h) refl)
    ]

-- A view that begins on a device is a device of the bytes from its start on, as many as it was
-- given or as the parent has; and whatever a read of the view asks for, also one that begins past
-- its end, it fails or answers bytes of the view that stand there. The parent is one that puts no
-- more bytes into a buffer than the buffer has.
pub partition_view-IsDevice :
    (parent : Device) (contents : List ℕ) (start length_bytes : ℕ)
    → IsDevice parent contents
    → IsBounded parent
    → start ≤ length contents
    → IsDevice (partition_view parent start length_bytes) (slice contents start length_bytes)
      × IsConfined (partition_view parent start length_bytes) (slice contents start length_bytes)
unfolding partition_view
partition_view-IsDevice parent contents start length_bytes real bounded begins =
    let view = slice contents start length_bytes in
    let device = partition_view parent start length_bytes in
    let is_device = view-IsDevice parent contents start length_bytes real begins in
    let sized = is_device.sized in
    let at : (offset count : ℕ)
        → device.read_at offset count ≡ view_read_at parent start (length view) offset count =
      λ offset count. ap (λ (size : ℕ). view_read_at parent start size offset count) sized in
    (
      is_device,
      λ offset count. elim (Bool-cases (ltb offset (length view))) [
        | inr outside ↦
            rw (at offset count)
              (view_read_at-past parent view start offset count bounded (ground (arith, outside)))
        | inl inside ↦
            elim (view_read_at-within device view offset count is_device (ground (arith, inside))) [
              | inr answered ↦ inr answered
              | inl (e, failed) ↦
                  let (fault, x) =
                    view_read_at-clamped_err parent start (length view) offset count e failed in
                  inl (fault, at offset count ∙ x)
            ]
      ],
    )
