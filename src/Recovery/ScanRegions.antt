-- ===== src/Recovery/ScanRegions.antt =====
-- src/recovery/ScanRegions.cpp: the regions that a resumed run still has to scan, and the regions
-- cut into chunks between which it can be interrupted.
pub mod Coverage
use data_recovery.Prelude.{
  ℕ, zero, suc, ◌+◌, ◌-◌, ◌%◌, max, min, List, [], ◌∷◌, ◌++◌, Option, some, none, ltb,
  if◌then◌else◌,
}
use data_recovery.Core.SafeArith.{u64_mod}
use data_recovery.Fs.Types.{ScanRegion}

-- `endOf`, a wrapping sum.
unfoldable pub region_end : ScanRegion → ℕ
region_end region = (region.offset + region.length_bytes) % u64_mod

-- `tailOf`
unfoldable pub tail_of : ScanRegion → ℕ → ScanRegion
unfolding region_end
tail_of region cursor =
    let start = max region.offset cursor in
    record { offset = start; length_bytes = (region_end region + u64_mod - start) % u64_mod }

-- `regionsFrom`
unfoldable pub regions_from : List ScanRegion → ℕ → List ScanRegion
unfolding region_end tail_of
regions_from [] cursor = []
regions_from (region ∷ regions) cursor =
    let remaining = regions_from regions cursor in
    if ltb cursor (region_end region) then tail_of region cursor ∷ remaining else remaining

-- The loop of `appendChunks`, from `at` to `finish`; `none` when the fuel runs out.
unfoldable pub chunk_loop : ℕ → List ScanRegion → ℕ → ℕ → ℕ → Option (List ScanRegion)
chunk_loop zero chunks at finish chunk_bytes = none
chunk_loop (suc fuel) chunks at finish chunk_bytes =
    let length = min chunk_bytes ((finish + u64_mod - at) % u64_mod) in
    let rest =
      chunk_loop fuel (chunks ++ (record { offset = at; length_bytes = length } ∷ []))
        ((at + length) % u64_mod) finish chunk_bytes in
    if ltb at finish then rest else some chunks

-- `appendChunks`: a round takes at least one byte, unless a chunk has none.
unfoldable pub append_chunks : List ScanRegion → ScanRegion → ℕ → Option (List ScanRegion)
append_chunks chunks region chunk_bytes =
    chunk_loop (suc region.length_bytes) chunks region.offset (region_end region) chunk_bytes

-- The loop of `chunked`.
unfoldable pub chunk_all : List ScanRegion → List ScanRegion → ℕ → Option (List ScanRegion)
chunk_all chunks [] chunk_bytes = some chunks
chunk_all chunks (region ∷ regions) chunk_bytes = elim (append_chunks chunks region chunk_bytes) [
  | none ↦ none
  | some longer ↦ chunk_all longer regions chunk_bytes
]

-- `chunked`
unfoldable pub chunked : List ScanRegion → ℕ → Option (List ScanRegion)
chunked regions chunk_bytes = chunk_all [] regions chunk_bytes
