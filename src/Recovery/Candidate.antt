-- ===== src/Recovery/Candidate.antt =====
-- include/revenant/recovery/Candidate.hpp: one hypothesis about some bytes.
use data_recovery.Prelude.{ℕ, ◌<◌, List, Bool, false, ◌||◌, [], ◌∷◌, All}
use data_recovery.Core.SafeArith.{u64_max}
use data_recovery.Fs.Types.{Extent, Timestamps, Confidence, within}
use data_recovery.Recovery.RegionSet.{end_of}

pub data CandidateSource : Type 0 where
  filesystem carve : CandidateSource

-- `name` and `resident_content` are their bytes.
pub record Candidate : Type 0 where
  pub name : List ℕ
  pub extents : List Extent
  pub resident_content : List ℕ
  pub timestamps : Timestamps
  pub confidence : Confidence
  pub source : CandidateSource

-- Whether some extent of the list holds the byte `x`.
unfoldable pub holds : List Extent → ℕ → Bool
holds [] x = false
holds (e ∷ es) x = within e.device_offset (end_of e) x || holds es x

-- No extent begins at the last 64-bit address, and none is empty.
abbrev pub IsPlaced : List Extent → Type 0
IsPlaced es = All (λ e. (e.device_offset < u64_max) × (0 < e.length_bytes)) es
