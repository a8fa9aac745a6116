-- ===== src/Tests/Recovery.antt =====
-- src/recovery at concrete inputs.
use data_recovery.Prelude.{
  ◌+◌, ◌≤◌, ◌≡◌, ◌⊎◌, ◌↔◌, refl, List, [], ◌∷◌, ◌++◌, true, false, not, ◌&&◌, ◌||◌, ltb, arith, All,
  Ordered, length,
}
use mathlib.Core.List.{Memᴰ, Permᴰ}
use data_recovery.Prelude.Sorting.{by_insertion}
use data_recovery.Fs.Types.{Extent, within, Confidence, rejected, valid, uncertain}
use data_recovery.Recovery.RegionSet.{Regions, add, overlaps, gaps, claimed_bytes, end_of}
use data_recovery.Recovery.RegionSet.Fused.{claims, IsFused}
use data_recovery.Recovery.RegionSet.Add.{add-IsFused, claims-add}
use data_recovery.Recovery.RegionSet.Overlaps.{overlaps_iff, Shared}
use data_recovery.Recovery.RegionSet.Gaps.{covers, covers-gaps, total_length, total_length-gaps}
use data_recovery.Recovery.Candidate.{Candidate, CandidateSource, filesystem, carve}
use data_recovery.Recovery.Arbitration.{arbitrate, is_rejected, start_of}
use data_recovery.Recovery.Arbitration.Offers.{Apart, Verdict, Shares}
use data_recovery.Recovery.Arbitration.Invariant.{Loss}
use data_recovery.Recovery.Arbitration.Outcome.{
  winners_disjoint, candidates_judged, winners_accounted, filesystem_displaced,
}
use data_recovery.Fs.Types.{ScanRegion}
use data_recovery.Recovery.ScanRegions.{
  regions_from, chunked, chunk_all, append_chunks, chunk_loop, region_end,
}
use data_recovery.Recovery.ScanRegions.Coverage.{covers-regions_from, chunked-covers, IsChunk}
use data_recovery.Fs.Types.{RecoveredEntry, live}
use data_recovery.Recovery.ByteAccounting.{account}
use data_recovery.Recovery.ByteAccounting.Bounded.{IsBounded, account-IsBounded}
use data_recovery.Core.Io.BadRange.{BadRange}
use data_recovery.Recovery.Damage.{invented_in}
use data_recovery.Recovery.Damage.Sharing.{damaged, holds_at, damaged-invented_in}
use data_recovery.Prelude.{some, leb}
use data_recovery.Prelude.{get_elem?}
use data_recovery.Recovery.WriteOrder.{ordered_for_writing}
use data_recovery.Recovery.WriteOrder.Complete.{Earlier, ordered_for_writing_complete}

abbrev two_regions : Regions
two_regions = record { start = 10; finish = 20 } ∷ record { start = 30; finish = 40 } ∷ []

abbrev bridge : Extent
bridge = record { device_offset = 20; length_bytes = 5 }

-- A range that touches the first region is fused with it.
add_runs :
    add bridge two_regions
    ≡ record { start = 10; finish = 25 } ∷ record { start = 30; finish = 40 } ∷ []
unfolding add
add_runs = refl

add-IsFused_example : IsFused (add bridge two_regions)
add-IsFused_example = add-IsFused bridge two_regions (omega arith) (omega arith)

claims-add_example :
    claims (add bridge two_regions) 22
    ≡ (claims two_regions 22 || (ltb 0 5 && within 20 (end_of bridge) 22))
claims-add_example = claims-add bridge two_regions 22 (omega arith) (omega arith)

overlaps_iff_example : (overlaps two_regions bridge ≡ true) ↔ Shared two_regions 20 (end_of bridge)
overlaps_iff_example = overlaps_iff bridge two_regions (omega arith) (omega arith) (omega arith)

covers-gaps_example : covers (gaps two_regions 100) 25 ≡ (ltb 25 100 && not (claims two_regions 25))
covers-gaps_example = covers-gaps two_regions 100 25 (omega arith)

total_length-gaps_example : total_length (gaps two_regions 100) + claimed_bytes two_regions ≡ 100
total_length-gaps_example =
    total_length-gaps two_regions 100 (omega arith) (omega arith) (omega arith)

abbrev candidate : List Extent → Confidence → CandidateSource → Candidate
candidate extents confidence source = record {
  name = [];
  extents = extents;
  resident_content = [];
  timestamps = record { created = 0; modified = 0; accessed = 0 };
  confidence = confidence;
  source = source;
}

-- A named file, a carve over its second half, a carve elsewhere, and a file in its own record.
abbrev named : Candidate
named = candidate (record { device_offset = 100; length_bytes = 50 } ∷ []) uncertain filesystem

abbrev overlapping : Candidate
overlapping = candidate (record { device_offset = 125; length_bytes = 50 } ∷ []) valid carve

abbrev elsewhere : Candidate
elsewhere = candidate (record { device_offset = 10; length_bytes = 20 } ∷ []) valid carve

abbrev resident : Candidate
resident = candidate [] valid filesystem

abbrev found : List Candidate
found = overlapping ∷ named ∷ elsewhere ∷ resident ∷ []

winners_disjoint_example : Ordered Apart (arbitrate by_insertion found).winners
winners_disjoint_example = winners_disjoint by_insertion found (omega arith) (omega arith)

candidates_judged_example : All (Verdict (arbitrate by_insertion found).winners) found
candidates_judged_example = candidates_judged by_insertion found (omega arith) (omega arith)

-- One more, which its own validation rejected, although nothing else wants its bytes.
abbrev with_doubtful : List Candidate
with_doubtful =
    candidate (record { device_offset = 900; length_bytes = 5 } ∷ []) rejected carve ∷ found

winners_accounted_example :
    ((losers : List Candidate) × Permᴰ with_doubtful
        ((arbitrate by_insertion with_doubtful).winners ++ losers)
      × (length losers ≡ (arbitrate by_insertion with_doubtful).suppressed)
      × All (Loss (arbitrate by_insertion with_doubtful).winners) losers)
    × All
        (λ w. Memᴰ w with_doubtful × (is_rejected w.confidence ≡ false))
        (arbitrate by_insertion with_doubtful).winners
    × Ordered (λ a b. start_of a ≤ start_of b) (arbitrate by_insertion with_doubtful).winners
winners_accounted_example = winners_accounted by_insertion with_doubtful (omega arith) (omega arith)

filesystem_displaced_example :
    Memᴰ named (arbitrate by_insertion found).winners
    ⊎ ((w : Candidate) × Memᴰ w (arbitrate by_insertion found).winners
        × (w.source ≡ filesystem)
        × Shares w named)
unfolding is_rejected
filesystem_displaced_example =
    filesystem_displaced by_insertion found (omega arith) (omega arith) named
      (Memᴰ.tail (Memᴰ.head refl)) refl refl

abbrev scanned : List ScanRegion
scanned = record { offset = 10; length_bytes = 7 } ∷ record { offset = 30; length_bytes = 2 } ∷ []

chunked_runs :
    chunked scanned 3
    ≡ some (
        record { offset = 10; length_bytes = 3 }
        ∷ record { offset = 13; length_bytes = 3 }
        ∷ record { offset = 16; length_bytes = 1 }
        ∷ record { offset = 30; length_bytes = 2 }
        ∷ [])
unfolding chunked chunk_all append_chunks chunk_loop region_end
chunked_runs = refl

covers-regions_from_example : covers (regions_from scanned 12) 11 ≡ (covers scanned 11 && leb 12 11)
covers-regions_from_example = covers-regions_from scanned 12 11 (omega arith, (omega arith, tt))

chunked-covers_example :
    (chunks : List ScanRegion) × (chunked scanned 3 ≡ some chunks)
    × (covers chunks 14 ≡ covers scanned 14)
    × All (IsChunk 3) chunks
chunked-covers_example = chunked-covers scanned 3 14 (omega arith, (omega arith, tt)) (omega arith)

abbrev bad_ranges : List BadRange
bad_ranges = record { offset_bytes = 1022; length_bytes = 4 } ∷ []

damaged-invented_in_example :
    damaged (invented_in (bridge ∷ []) bad_ranges 1000) 1023
    ≡ (holds_at 1000 (bridge ∷ []) 1023 && damaged bad_ranges 1023)
damaged-invented_in_example =
    damaged-invented_in (bridge ∷ []) bad_ranges 1000 1023 (omega arith, tt)

abbrev found_entry : RecoveredEntry
found_entry = record {
  path = [];
  size_in_bytes = 5;
  extents = bridge ∷ [];
  resident_content = [];
  timestamps = record { created = 0; modified = 0; accessed = 0 };
  state = live;
  recoverability = valid;
}

account-IsBounded_example :
    IsBounded (account (record { claimed = two_regions; dropped = 0 }) found_entry)
account-IsBounded_example =
    account-IsBounded (record { claimed = two_regions; dropped = 0 }) found_entry
      ((omega arith, omega arith), tt) (record { fused = omega arith; few = omega arith })

ordered_for_writing_complete_example :
    (length (ordered_for_writing found) ≡ 4)
    × All (λ entry. get_elem? found entry.ordinal ≡ some entry.winner) (ordered_for_writing found)
    × Ordered Earlier (ordered_for_writing found)
ordered_for_writing_complete_example = ordered_for_writing_complete found (omega arith)
