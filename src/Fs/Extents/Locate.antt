-- ===== src/Fs/Extents/Locate.antt =====
-- `locate_in_extents`: the answer is where the range lies on the device, as one piece.
use data_recovery.Prelude.{
  ℕ, ◌+◌, ◌-◌, ◌%◌, ◌≤◌, ◌<◌, ◌≡◌, refl, ◌∙◌, List, [], ◌∷◌, ◌++◌, some, ltb, inl, inr, arith,
  Bool-cases,
}
use data_recovery.Core.Result.{ok, error_at, invalid_argument, out_of_range}
use data_recovery.Core.SafeArith.{u64_max, u64_mod}
use data_recovery.Fs.Types.{Extent}
use data_recovery.Fs.Extents.{FileRange, within_extent, find_extent, locate_in_extents}
use data_recovery.Fs.Extents.Places.{place_of, total_of}

module _ (length place k : ℕ) (inside : k < length) where
  place_of-find_extent :
      (es : List Extent) (consumed offset : ℕ)
      → consumed ≤ offset
      → offset ≤ u64_max
      → consumed + total_of es ≤ u64_max
      → find_extent consumed es (record { offset = offset; length = length }) ≡ ok place
      → place_of es (offset - consumed + k) ≡ some (place + k)
  unfolding find_extent place_of total_of
  place_of-find_extent [] consumed offset h o t e = cc
  place_of-find_extent (x ∷ es) consumed offset h o t e =
      let here : (offset + u64_mod - consumed) % u64_mod ≡ offset - consumed = omega arith in
      let step : (consumed + x.length_bytes) % u64_mod ≡ consumed + x.length_bytes = omega arith in
      elim (Bool-cases (ltb (offset - consumed) x.length_bytes)) [
        | inl found ↦ ground (arith, here, found)
        | inr later ↦
            ground (arith, here, step, place_of-find_extent es (consumed + x.length_bytes) offset)
      ]

find_extent_past :
    (es : List Extent) (consumed offset length : ℕ)
    → consumed + total_of es ≤ offset
    → offset ≤ u64_max
    → find_extent consumed es (record { offset = offset; length = length })
      ≡ error_at out_of_range offset
unfolding find_extent total_of
find_extent_past [] consumed offset length h o = refl
find_extent_past (x ∷ es) consumed offset length h o =
    let here : (offset + u64_mod - consumed) % u64_mod ≡ offset - consumed = omega arith in
    let step : (consumed + x.length_bytes) % u64_mod ≡ consumed + x.length_bytes = omega arith in
    ground (arith, here, step, find_extent_past es (consumed + x.length_bytes) offset length)

-- The search hands the range to the extent that it starts in.
find_extent-within_extent :
    (before : List Extent) (x : Extent) (behind : List Extent) (consumed inner length : ℕ)
    → consumed + total_of before + inner ≤ u64_max
    → inner < x.length_bytes
    → find_extent consumed
        (before ++ (x ∷ behind))
        (record { offset = consumed + total_of before + inner; length = length })
      ≡ within_extent x (record { offset = inner; length = length })
unfolding find_extent total_of
find_extent-within_extent [] x behind consumed inner length h i =
    let here : (consumed + 0 + inner + u64_mod - consumed) % u64_mod ≡ inner = omega arith in
    ground (arith, here)
find_extent-within_extent (y ∷ before) x behind consumed inner length h i =
    let offset = consumed + (y.length_bytes + total_of before) + inner in
    let here : (offset + u64_mod - consumed) % u64_mod ≡ offset - consumed = omega arith in
    let step : (consumed + y.length_bytes) % u64_mod ≡ consumed + y.length_bytes = omega arith in
    let same : offset ≡ consumed + y.length_bytes + total_of before + inner = omega arith in
    ground (
      arith,
      here,
      step,
      same,
      find_extent-within_extent before x behind (consumed + y.length_bytes) inner length
          (omega arith) i,
    )

locate_in_extents_starting :
    (before : List Extent) (x : Extent) (behind : List Extent) (inner length : ℕ)
    → total_of before + inner + length ≤ u64_max
    → inner < x.length_bytes
    → locate_in_extents
        (before ++ (x ∷ behind))
        (record { offset = total_of before + inner; length = length })
      ≡ within_extent x (record { offset = inner; length = length })
unfolding locate_in_extents
locate_in_extents_starting before x behind inner length fits i =
    let zero_off : 0 + total_of before + inner ≡ total_of before + inner = omega arith in
    let found = find_extent-within_extent before x behind 0 inner length (omega arith) i in
    ground (arith, zero_off, found)

-- A place that is answered is where the range lies on the device: byte `k` of the range is at
-- `place + k`, for extents whose lengths add up within 64 bits.
pub place_of-locate_in_extents :
    (es : List Extent) (range : FileRange) (place k : ℕ)
    → k < range.length
    → total_of es ≤ u64_max
    → range.offset ≤ u64_max
    → locate_in_extents es range ≡ ok place
    → place_of es (range.offset + k) ≡ some (place + k)
unfolding locate_in_extents
place_of-locate_in_extents es range place k inside t o e =
    let searched : find_extent 0 es range ≡ ok place =
      elim (Bool-cases (ltb (u64_max - range.offset) range.length)) [
        | inl wraps ↦ ground arith
        | inr fits ↦ ground arith
      ] in
    let found =
      place_of-find_extent range.length place k inside es 0 range.offset (omega arith) o
        (omega arith) searched in
    ground (arith, found)

-- A range that begins at the file's end or past it is out of range.
pub locate_in_extents_past :
    (es : List Extent) (range : FileRange)
    → range.offset + range.length ≤ u64_max
    → total_of es ≤ range.offset
    → locate_in_extents es range ≡ error_at out_of_range range.offset
unfolding locate_in_extents
locate_in_extents_past es range fits h =
    ground (arith, find_extent_past es 0 range.offset range.length (omega arith) (omega arith))

-- A range that lies inside one extent is answered, by that extent's place for it.
pub locate_in_extents_within :
    (before : List Extent) (x : Extent) (behind : List Extent) (inner length : ℕ)
    → total_of before + inner + length ≤ u64_max
    → inner < x.length_bytes
    → inner + length ≤ x.length_bytes
    → x.device_offset + x.length_bytes ≤ u64_max
    → locate_in_extents
        (before ++ (x ∷ behind))
        (record { offset = total_of before + inner; length = length })
      ≡ ok (x.device_offset + inner)
locate_in_extents_within before x behind inner length fits i l w =
    locate_in_extents_starting before x behind inner length fits i
    ∙ (unfold within_extent in ground arith)

-- A range that starts inside an extent and ends past it is refused, also where the extent is the
-- last one and the range leaves the file, if the range ends within 64 bits.
pub locate_in_extents_spanning :
    (before : List Extent) (x : Extent) (behind : List Extent) (inner length : ℕ)
    → total_of before + inner + length ≤ u64_max
    → inner < x.length_bytes
    → x.length_bytes < inner + length
    → locate_in_extents
        (before ++ (x ∷ behind))
        (record { offset = total_of before + inner; length = length })
      ≡ error_at invalid_argument inner
locate_in_extents_spanning before x behind inner length fits i l =
    locate_in_extents_starting before x behind inner length fits i
    ∙ (unfold within_extent in ground arith)
