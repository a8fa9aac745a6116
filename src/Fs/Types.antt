-- ===== src/Fs/Types.antt =====
-- include/revenant/fs/Types.hpp, include/revenant/fs/RecoveredEntry.hpp, include/revenant/carve/SignatureScanner.hpp (its region) and
-- include/revenant/core/Confidence.hpp: the vocabulary that the layers share.
use data_recovery.Prelude.{ℕ, List, Bool, ◌&&◌, leb, ltb}

-- A device byte range.
pub record Extent : Type 0 where
  pub device_offset : ℕ
  pub length_bytes : ℕ

-- The carve layer's range.
pub record ScanRegion : Type 0 where
  pub offset : ℕ
  pub length_bytes : ℕ

pub data Confidence : Type 0 where
  rejected uncertain valid : Confidence

pub record Timestamps : Type 0 where
  pub created : ℕ
  pub modified : ℕ
  pub accessed : ℕ

pub data EntryState : Type 0 where
  live deleted orphaned : EntryState

-- Whether `x` lies in the half-open range from `start` to `finish`.
abbrev pub within : ℕ → ℕ → ℕ → Bool
within start finish x = leb start x && ltb x finish

-- What a filesystem's enumeration reports of one file; the path is its bytes.
pub record RecoveredEntry : Type 0 where
  pub path : List ℕ
  pub size_in_bytes : ℕ
  pub extents : List Extent
  pub resident_content : List ℕ
  pub timestamps : Timestamps
  pub state : EntryState
  pub recoverability : Confidence
