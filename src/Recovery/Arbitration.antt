-- ===== src/Recovery/Arbitration.antt =====
-- src/recovery/Arbitration.cpp: competing explanations of the same bytes. `std::ranges::sort` is
-- the interface of Prelude/Sorting.antt.
pub mod Ranking
pub mod Offers
pub mod Invariant
pub mod Outcome
use data_recovery.Prelude.{
  ℕ, ◌+◌, ◌-◌, ◌%◌, ◌≡◌, List, [], ◌∷◌, ◌++◌, Bool, true, false, ◌||◌, ltb, ◌==◌, if◌then◌else◌,
  length,
}
use data_recovery.Prelude.Sorting.{Sorting}
use data_recovery.Core.SafeArith.{u64_max, u64_mod}
use data_recovery.Fs.Types.{Extent, Confidence, rejected, uncertain, valid}
use data_recovery.Recovery.RegionSet.{Regions, overlaps, add}
use data_recovery.Recovery.Candidate.{Candidate, CandidateSource, filesystem, carve}

-- What arbitration decided.
pub record Arbitration : Type 0 where
  pub winners : List Candidate
  pub suppressed : ℕ

-- `startOf`
unfoldable pub start_of_extents : List Extent → ℕ
start_of_extents [] = 0
start_of_extents (e ∷ es) = e.device_offset

unfoldable pub start_of : Candidate → ℕ
unfolding start_of_extents
start_of candidate = start_of_extents candidate.extents

-- `totalBytes`, a wrapping 64-bit sum.
unfoldable pub total_bytes_from : ℕ → List Extent → ℕ
total_bytes_from sum [] = sum
total_bytes_from sum (e ∷ es) = total_bytes_from ((sum + e.length_bytes) % u64_mod) es

unfoldable pub total_bytes : Candidate → ℕ
unfolding total_bytes_from
total_bytes candidate = total_bytes_from (length candidate.resident_content) candidate.extents

-- The four parts of the rank, compared in this order. `-static_cast<int>(confidence)` is written
-- two higher, which keeps the order and is no negative number.
pub record Rank : Type 0 where
  pub source_rank : ℕ
  pub distrust : ℕ
  pub start : ℕ
  pub smallness : ℕ

unfoldable pub source_number : CandidateSource → ℕ
source_number filesystem = 0
source_number carve = 1

unfoldable pub distrust_of : Confidence → ℕ
distrust_of rejected = 2
distrust_of uncertain = 1
distrust_of valid = 0

-- `rankOf`
unfoldable pub rank_of : Candidate → Rank
rank_of candidate = record {
  source_rank = source_number candidate.source;
  distrust = distrust_of candidate.confidence;
  start = start_of candidate;
  smallness = u64_max - total_bytes candidate;
}

-- `<` on the tuples.
unfoldable pub rank_less : Rank → Rank → Bool
rank_less a b =
    if ltb a.source_rank b.source_rank
    then true
    else if ltb b.source_rank a.source_rank
    then false
    else if ltb a.distrust b.distrust
    then true
    else if ltb b.distrust a.distrust
    then false
    else if ltb a.start b.start
    then true
    else if ltb b.start a.start
    then false
    else ltb a.smallness b.smallness

abbrev pub ranks_before : Candidate → Candidate → Bool
ranks_before a b = rank_less (rank_of a) (rank_of b)

abbrev pub starts_before : Candidate → Candidate → Bool
starts_before a b = ltb (start_of a) (start_of b)

-- `isBlocked` and `claimAll`
unfoldable pub is_blocked : Regions → List Extent → Bool
is_blocked claimed [] = false
is_blocked claimed (e ∷ es) = overlaps claimed e || is_blocked claimed es

unfoldable pub claim_all : Regions → List Extent → Regions
claim_all claimed [] = claimed
claim_all claimed (e ∷ es) = claim_all (add e claimed) es

unfoldable pub is_rejected : Confidence → Bool
is_rejected rejected = true
is_rejected uncertain = false
is_rejected valid = false

-- The result so far and the bytes that its winners claim.
pub record Offered : Type 0 where
  pub result : Arbitration
  pub claimed : Regions

-- `acceptOrSuppress`
unfoldable pub accept_or_suppress : Offered → Candidate → Offered
accept_or_suppress offered candidate =
    if is_rejected candidate.confidence || is_blocked offered.claimed candidate.extents
    then record offered {
      result = record {
        winners = offered.result.winners;
        suppressed = (offered.result.suppressed + 1) % u64_mod;
      };
    }
    else record {
      result = record {
        winners = offered.result.winners ++ (candidate ∷ []);
        suppressed = offered.result.suppressed;
      };
      claimed = claim_all offered.claimed candidate.extents;
    }

unfoldable pub offer_all : Offered → List Candidate → Offered
offer_all offered [] = offered
offer_all offered (c ∷ cs) = offer_all (accept_or_suppress offered c) cs

abbrev pub none_offered : Offered
none_offered = record { result = record { winners = []; suppressed = 0 }; claimed = [] }

-- `arbitrate`
unfoldable pub arbitrate : Sorting Candidate → List Candidate → Arbitration
unfolding offer_all
arbitrate sorting candidates =
    let result = (offer_all none_offered (sorting.sort ranks_before candidates)).result in
    record result { winners = sorting.sort starts_before result.winners }
