-- ===== src/Recovery/RegionSet.antt =====
-- src/recovery/RegionSet.cpp: the claimed ranges of a device, as an ordered map from a start to
-- one past the end. The map is its list of pairs in key order.
pub mod Fused
pub mod Add
pub mod Overlaps
pub mod Gaps
use data_recovery.Prelude.{
  ℕ, ◌+◌, ◌-◌, ◌%◌, ◌≤◌, ◌<◌, min, max, List, [], ◌∷◌, ◌++◌, Bool, true, false, ◌&&◌, ltb, leb,
  ◌==◌, if◌then◌else◌, length,
}
use data_recovery.Core.SafeArith.{u64_max, u64_mod}
use data_recovery.Fs.Types.{Extent, ScanRegion}

-- One pair of the map; also the half-open range that `add` widens.
pub record Span : Type 0 where
  pub start : ℕ
  pub finish : ℕ

abbrev pub Regions : Type 0
Regions = List Span

-- An iterator into the map: the pairs before it, the nearest first, and those from it on.
pub record Place : Type 0 where
  pub passed : Regions
  pub ahead : Regions

-- `endOf`: the end of a range, at most the largest 64-bit number.
unfoldable pub end_of : Extent → ℕ
end_of region =
    if ltb (u64_max - region.device_offset) region.length_bytes
    then u64_max
    else region.device_offset + region.length_bytes

-- `std::map::upper_bound`: the first pair whose key is greater than `key`.
unfoldable pub upper_bound : ℕ → Regions → Regions → Place
upper_bound key passed [] = record { passed = passed; ahead = [] }
upper_bound key passed (r ∷ rs) =
    let rest = upper_bound key (r ∷ passed) rs in
    if ltb key r.start then record { passed = passed; ahead = r ∷ rs } else rest

-- One step back, if the pair there reaches `start`.
unfoldable pub step_back : ℕ → Regions → Regions → Place
step_back start [] ahead = record { passed = []; ahead = ahead }
step_back start (p ∷ passed) ahead =
    if leb start p.finish
    then record { passed = passed; ahead = p ∷ ahead }
    else record { passed = p ∷ passed; ahead = ahead }

-- `firstTouching`
unfoldable pub first_touching : Regions → ℕ → Place
unfolding upper_bound step_back
first_touching regions start =
    let after = upper_bound start [] regions in step_back start after.passed after.ahead

abbrev pub widen : Span → Span → Span
widen span r = record { start = min span.start r.start; finish = max span.finish r.finish }

-- `absorbFrom`: the widened span, and the pairs that were not erased.
unfoldable pub absorb_from : Regions → Span → Span × Regions
absorb_from [] span = (span, [])
absorb_from (r ∷ rs) span =
    let rest = absorb_from rs (widen span r) in
    if leb r.start span.finish then rest else (span, r ∷ rs)

-- The map with the pairs before the iterator and those from it on.
unfoldable pub rezip : Regions → Regions → Regions
rezip [] ahead = ahead
rezip (p ∷ passed) ahead = rezip passed (p ∷ ahead)

-- `regions_[key] = finish`
unfoldable pub put : Span → Regions → Regions
put s [] = s ∷ []
put s (r ∷ rs) =
    if ltb r.start s.start
    then r ∷ put s rs
    else (if r.start == s.start then s ∷ rs else s ∷ r ∷ rs)

-- `RegionSet::add`
unfoldable pub add : Extent → Regions → Regions
unfolding end_of first_touching absorb_from rezip put
add region regions =
    if region.length_bytes == 0
    then regions
    else (let claimed : Span = record { start = region.device_offset; finish = end_of region } in
        let at = first_touching regions claimed.start in
        let fused = absorb_from at.ahead claimed in put fused.0 (rezip at.passed fused.1))

-- The predecessor reaches past `offset`; or the next pair begins before `finish`.
unfoldable pub reaches_past : ℕ → Regions → Bool
reaches_past offset [] = false
reaches_past offset (p ∷ passed) = ltb offset p.finish

unfoldable pub begins_before : ℕ → Regions → Bool
begins_before finish [] = false
begins_before finish (r ∷ rs) = ltb r.start finish

-- `RegionSet::overlaps`
unfoldable pub overlaps : Regions → Extent → Bool
unfolding end_of upper_bound reaches_past begins_before
overlaps regions region =
    if region.length_bytes == 0
    then false
    else (let after = upper_bound region.device_offset [] regions in
        if reaches_past region.device_offset after.passed
        then true
        else begins_before (end_of region) after.ahead)

-- The gaps emitted so far, in order, and how far along the device the walk is.
pub record Complement : Type 0 where
  pub gaps_found : List ScanRegion
  pub cursor : ℕ

-- `takeUpTo`
unfoldable pub take_up_to : Complement → ℕ → Complement
take_up_to c up_to = if leb up_to c.cursor then c else record {
  gaps_found = c.gaps_found ++ (record { offset = c.cursor; length_bytes = up_to - c.cursor } ∷ []);
  cursor = up_to;
}

unfoldable pub gaps_loop : ℕ → Regions → Complement → Complement
gaps_loop device_size [] c = c
gaps_loop device_size (r ∷ rs) c =
    let c' = take_up_to c (min r.start device_size) in
    gaps_loop device_size rs (record c' { cursor = max c'.cursor (min r.finish device_size) })

-- `RegionSet::gaps`
unfoldable pub gaps : Regions → ℕ → List ScanRegion
unfolding gaps_loop take_up_to
gaps regions device_size =
    (take_up_to (gaps_loop device_size regions (record { gaps_found = []; cursor = 0 }))
      device_size).gaps_found

-- `RegionSet::claimedBytes`, by the wrapping sum and difference of 64-bit numbers.
unfoldable pub claimed_bytes_from : ℕ → Regions → ℕ
claimed_bytes_from sum [] = sum
claimed_bytes_from sum (r ∷ rs) =
    claimed_bytes_from ((sum + (r.finish + u64_mod - r.start) % u64_mod) % u64_mod) rs

unfoldable pub claimed_bytes : Regions → ℕ
unfolding claimed_bytes_from
claimed_bytes regions = claimed_bytes_from 0 regions

-- `RegionSet::regionCount`
unfoldable pub region_count : Regions → ℕ
region_count regions = length regions
