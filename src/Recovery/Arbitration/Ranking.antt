-- ===== src/Recovery/Arbitration/Ranking.antt =====
-- The orders that candidates are sorted by.
use data_recovery.Prelude.{◌≤◌, ◌≡◌, true, false, arith}
use data_recovery.Prelude.Sorting.{IsWeakOrder, NotAfter}
use data_recovery.Recovery.Candidate.{Candidate, CandidateSource, filesystem, carve}
use data_recovery.Recovery.Arbitration.{
  Rank, rank_less, rank_of, ranks_before, starts_before, source_number,
}

rank_less-asym : (a b : Rank) → rank_less a b ≡ true → rank_less b a ≡ false
unfolding rank_less
rank_less-asym a b h = ground arith

rank_less_trans :
    (a b c : Rank) → rank_less b a ≡ false → rank_less c b ≡ false → rank_less c a ≡ false
unfolding rank_less
rank_less_trans a b c h k = ground arith

pub ranks_before-IsWeakOrder : IsWeakOrder ranks_before
ranks_before-IsWeakOrder = record {
  asym = λ a b h. rank_less-asym (rank_of a) (rank_of b) h;
  trans = λ a b c h k. rank_less_trans (rank_of a) (rank_of b) (rank_of c) h k;
}

pub starts_before-IsWeakOrder : IsWeakOrder starts_before
starts_before-IsWeakOrder = record {
  asym = λ a b h. ground arith;
  trans = λ a b c h k. ground arith;
}

source_cases :
    (s t : CandidateSource) → (source_number s ≤ source_number t) → t ≡ filesystem → s ≡ filesystem
unfolding source_number
source_cases filesystem t h e = ground arith
source_cases carve filesystem h e = absurd (omega arith)
source_cases carve carve h e = cc

-- What is ranked no later than a filesystem entry is one too.
pub filesystem_first :
    (w c : Candidate) → NotAfter ranks_before w c → c.source ≡ filesystem → w.source ≡ filesystem
unfolding rank_less rank_of
filesystem_first w c h e = source_cases w.source c.source (ground arith) e
