-- ===== src/Recovery/WriteOrder.antt =====
-- src/recovery/WriteOrder.cpp: the order in which the winners are written.
pub mod Complete
use data_recovery.Prelude.{ℕ, ◌+◌, ◌%◌, List, [], ◌∷◌, ◌++◌, Bool, true, false, if◌then◌else◌}
use data_recovery.Core.SafeArith.{u64_mod}
use data_recovery.Recovery.Candidate.{Candidate, CandidateSource, filesystem, carve}

-- One winner and its place in device order.
pub record OrderedWinner : Type 0 where
  pub winner : Candidate
  pub ordinal : ℕ

-- `==` of two sources.
unfoldable pub same_source : CandidateSource → CandidateSource → Bool
same_source filesystem filesystem = true
same_source filesystem carve = false
same_source carve filesystem = false
same_source carve carve = true

-- The loop of `ofSource`.
unfoldable pub of_source_from : ℕ → List Candidate → CandidateSource → List OrderedWinner
of_source_from ordinal [] source = []
of_source_from ordinal (winner ∷ winners) source =
    let later = of_source_from ((ordinal + 1) % u64_mod) winners source in
    if same_source winner.source source
    then record { winner = winner; ordinal = ordinal } ∷ later
    else later

-- `ofSource`
unfoldable pub of_source : List Candidate → CandidateSource → List OrderedWinner
of_source winners source = of_source_from 0 winners source

-- `orderedForWriting`
unfoldable pub ordered_for_writing : List Candidate → List OrderedWinner
ordered_for_writing winners = of_source winners filesystem ++ of_source winners carve
