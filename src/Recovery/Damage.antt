-- ===== src/Recovery/Damage.antt =====
-- src/recovery/Damage.cpp: which bytes of a file lie on the ranges of the device that could not be
-- read, and are therefore made up.
pub mod Sharing
use data_recovery.Prelude.{
  ℕ, ◌+◌, ◌-◌, max, min, List, [], ◌∷◌, ◌++◌, Option, some, none, leb, if◌then◌else◌,
}
use data_recovery.Core.SafeArith.{saturating_add64}
use data_recovery.Core.Io.BadRange.{BadRange}
use data_recovery.Fs.Types.{Extent}
use data_recovery.Recovery.RegionSet.{Span}

-- `placedOn`: an extent of a volume that begins at `start_bytes` of the device.
unfoldable pub placed_on : Extent → ℕ → Span
placed_on extent start_bytes =
    let begin = saturating_add64 start_bytes extent.device_offset in
    record { start = begin; finish = saturating_add64 begin extent.length_bytes }

-- `spanOf`
unfoldable pub span_of : BadRange → Span
span_of range = record {
  start = range.offset_bytes;
  finish = saturating_add64 range.offset_bytes range.length_bytes;
}

-- `overlap`
unfoldable pub overlap : Span → Span → Option BadRange
overlap extent damage =
    let begin = max extent.start damage.start in
    let finish = min extent.finish damage.finish in
    if leb finish begin
    then none
    else some (record { offset_bytes = begin; length_bytes = finish - begin })

-- `found.push_back(shared.value())`, where there is a value.
abbrev pub with_shared : Option BadRange → List BadRange → List BadRange
with_shared none found = found
with_shared (some range) found = range ∷ found

-- `overlapsIn`
unfoldable pub overlaps_in : Span → List BadRange → List BadRange
overlaps_in extent [] = []
overlaps_in extent (range ∷ damage) =
    with_shared (overlap extent (span_of range)) (overlaps_in extent damage)

-- `inventedIn`
unfoldable pub invented_in : List Extent → List BadRange → ℕ → List BadRange
invented_in [] damage start_bytes = []
invented_in (extent ∷ extents) damage start_bytes =
    overlaps_in (placed_on extent start_bytes) damage ++ invented_in extents damage start_bytes
