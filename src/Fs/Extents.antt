-- ===== src/Fs/Extents.antt =====
-- src/fs/ExtentSpan.cpp and src/fs/ExtentLocate.cpp: a file as the device ranges that hold it.
pub mod Places
pub mod Append
pub mod Trim
pub mod Locate
use data_recovery.Prelude.{
  ℕ, ◌+◌, ◌-◌, ◌%◌, min, List, [], ◌∷◌, ◌++◌, ltb, leb, ◌==◌, Bool, if◌then◌else◌,
}
use data_recovery.Core.Result.{Result, ok, err, error_at, out_of_range, invalid_argument, overflow}
use data_recovery.Core.SafeArith.{u64_max, u64_mod}
use data_recovery.Fs.Types.{Extent}

-- `continues`, by the wrapping sum.
abbrev pub continues : Extent → Extent → Bool
continues extent run = (extent.device_offset + extent.length_bytes) % u64_mod == run.device_offset

-- `appendExtent`: only the last extent is looked at.
unfoldable pub append_extent : List Extent → Extent → List Extent
append_extent [] run = run ∷ []
append_extent (e ∷ []) run =
    if continues e run
    then record e { length_bytes = (e.length_bytes + run.length_bytes) % u64_mod } ∷ []
    else e ∷ run ∷ []
append_extent (e ∷ d ∷ es) run = e ∷ append_extent (d ∷ es) run

-- `extentBytes`, a wrapping sum.
unfoldable pub extent_bytes_from : ℕ → List Extent → ℕ
extent_bytes_from total [] = total
extent_bytes_from total (e ∷ es) = extent_bytes_from ((total + e.length_bytes) % u64_mod) es

unfoldable pub extent_bytes : List Extent → ℕ
unfolding extent_bytes_from
extent_bytes extents = extent_bytes_from 0 extents

-- `takeExtent`: what was taken before, now with this extent's share, and what is still missing.
unfoldable pub take_extent : List Extent → Extent → ℕ → List Extent × ℕ
take_extent taken extent remaining =
    let share = min extent.length_bytes remaining in
    if share == 0
    then (taken, 0)
    else (taken ++ (record extent { length_bytes = share } ∷ []), remaining - share)

unfoldable pub trim_loop : List Extent → List Extent → ℕ → List Extent × ℕ
trim_loop taken [] remaining = (taken, remaining)
trim_loop taken (e ∷ es) remaining =
    let (taken', remaining') = take_extent taken e remaining in trim_loop taken' es remaining'

-- `trimToSize`
unfoldable pub trim_to_size : List Extent → ℕ → Result (List Extent)
unfolding trim_loop
trim_to_size extents size_bytes =
    let (taken, remaining) = trim_loop [] extents size_bytes in
    if remaining == 0 then ok taken else error_at invalid_argument size_bytes

-- A byte range within a file.
pub record FileRange : Type 0 where
  pub offset : ℕ
  pub length : ℕ

-- `withinExtent`
unfoldable pub within_extent : Extent → FileRange → Result ℕ
within_extent extent inner =
    if ltb (extent.length_bytes - inner.offset) inner.length
    then error_at invalid_argument inner.offset
    else (if ltb (u64_max - extent.device_offset) inner.offset
        then error_at overflow extent.device_offset
        else ok (extent.device_offset + inner.offset))

-- `findExtent`; `consumed` is 64 bits wide, and so is the difference to it.
unfoldable pub find_extent : ℕ → List Extent → FileRange → Result ℕ
unfolding within_extent
find_extent consumed [] range = error_at out_of_range range.offset
find_extent consumed (e ∷ es) range =
    let inner = (range.offset + u64_mod - consumed) % u64_mod in
    let rest = find_extent ((consumed + e.length_bytes) % u64_mod) es range in
    if ltb inner e.length_bytes
    then within_extent e (record { offset = inner; length = range.length })
    else rest

-- `locateInExtents`
unfoldable pub locate_in_extents : List Extent → FileRange → Result ℕ
unfolding find_extent
locate_in_extents extents range =
    if ltb (u64_max - range.offset) range.length
    then error_at overflow range.offset
    else find_extent 0 extents range
