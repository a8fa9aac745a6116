-- ===== src/Fs/ClusterChain.antt =====
-- src/fs/ClusterChain.cpp and src/fs/VolumeReader.cpp: following a FAT32 or exFAT cluster chain
-- and restating it as device extents.
pub mod Follow
pub mod Layout
use data_recovery.Prelude.{
  ℕ, zero, suc, ◌+◌, ◌-◌, ◌*◌, ◌/◌, ◌%◌, ◌^◌, List, [], ◌∷◌, ◌++◌, Bool, true, false, ◌&&◌, ltb,
  leb, ◌==◌, if◌then◌else◌, length,
}
use Prim.Native.Nat.{bit_and}
use data_recovery.Core.Result.{Result, ok, err, ◌>>=◌, error_at, out_of_range, invalid_argument}
use data_recovery.Core.SafeArith.{u64_mod}
use data_recovery.Core.Bytes.{le_value}
use data_recovery.Core.Io.{ReadAt}
use data_recovery.Fs.Types.{Extent}
use data_recovery.Fs.Extents.{append_extent, trim_to_size}

-- `VolumeReader::read`: a short read is refused.
unfoldable pub read_whole : ReadAt → ℕ → ℕ → Result (List ℕ)
read_whole read_at offset count = do
  got ← read_at offset count
  if length got == count then ok got else error_at out_of_range offset

abbrev pub first_cluster : ℕ
first_cluster = 2

abbrev pub cluster_mask : ℕ
cluster_mask = 0x0fff_ffff

abbrev pub end_of_chain : ℕ
end_of_chain = 0x0fff_fff8

pub record ClusterGeometry : Type 0 where
  pub bytes_per_cluster : ℕ
  pub table_offset_bytes : ℕ
  pub table_size_bytes : ℕ
  pub data_offset_bytes : ℕ
  pub total_clusters : ℕ

-- `isDataCluster`
unfoldable pub is_data_cluster : ClusterGeometry → ℕ → Bool
is_data_cluster g value =
    leb first_cluster value && ltb value ((first_cluster + g.total_clusters) % u64_mod)

-- `decodeEntry`
unfoldable pub decode_entry : List ℕ → ℕ
decode_entry raw = bit_and (le_value raw) cluster_mask

-- `entryAt`
unfoldable pub entry_at : ReadAt → ClusterGeometry → ℕ → Result ℕ
unfolding read_whole decode_entry
entry_at read_at g cluster =
    let offset = (g.table_offset_bytes + cluster * 4 % u64_mod) % u64_mod in
    if ltb ((g.table_offset_bytes + g.table_size_bytes) % u64_mod) ((offset + 4) % u64_mod)
    then error_at out_of_range offset
    else do raw ← read_whole read_at offset 4; ok (decode_entry raw)

-- `chainEnd`
unfoldable pub chain_end : Result ℕ → List ℕ → Result (List ℕ)
chain_end (err e) clusters = err e
chain_end (ok last) clusters =
    if ltb last end_of_chain then error_at invalid_argument last else ok clusters

-- Whether the loop of `chainFrom` goes on.
unfoldable pub follows : ClusterGeometry → Result ℕ → Bool
unfolding is_data_cluster
follows g (err e) = false
follows g (ok value) = is_data_cluster g value

-- The cluster that `follows` has found; the default is never used.
abbrev pub cluster_of : Result ℕ → ℕ
cluster_of (err e) = 0
cluster_of (ok value) = value

-- `err` of this type is the function's own answer; `stuck` is that the fuel ran out.
pub data Run : Type 0 where
  done : Result (List ℕ) → Run
  stuck : Run

-- The loop of `chainFrom`, over any table of entries: each round takes one cluster.
unfoldable pub chain_loop : (ℕ → Result ℕ) → ClusterGeometry → ℕ → List ℕ → Result ℕ → Run
unfolding follows chain_end
chain_loop entry g zero clusters cluster = stuck
chain_loop entry g (suc fuel) clusters cluster =
    let next =
      chain_loop entry g fuel (clusters ++ (cluster_of cluster ∷ []))
        (entry (cluster_of cluster)) in
    if follows g cluster
    then (if leb g.total_clusters (length clusters)
        then done (error_at out_of_range (length clusters))
        else next)
    else done (chain_end cluster clusters)

-- `chainFrom`. The volume has `total_clusters` clusters, and the loop takes at most as many and
-- one round more.
unfoldable pub chain_from : (ℕ → Result ℕ) → ClusterGeometry → ℕ → Run
unfolding chain_loop
chain_from entry g first = chain_loop entry g (g.total_clusters + 2) [] (ok first)

-- `clusterOffset`
unfoldable pub cluster_offset : ClusterGeometry → ℕ → ℕ
cluster_offset g cluster =
    (g.data_offset_bytes
      + ((cluster + u64_mod - first_cluster) % u64_mod) * g.bytes_per_cluster % u64_mod)
    % u64_mod

-- `appendCluster`, for each cluster in turn.
unfoldable pub append_clusters : ClusterGeometry → List Extent → List ℕ → List Extent
unfolding append_extent cluster_offset
append_clusters g extents [] = extents
append_clusters g extents (c ∷ cs) =
    append_clusters g
      (append_extent extents
        (record { device_offset = cluster_offset g c; length_bytes = g.bytes_per_cluster }))
      cs

-- `chainExtents`
unfoldable pub chain_extents : List ℕ → ClusterGeometry → ℕ → Result (List Extent)
unfolding append_clusters trim_to_size
chain_extents [] g size_bytes = ok []
chain_extents (c ∷ cs) g size_bytes =
    if size_bytes == 0 then ok [] else trim_to_size (append_clusters g [] (c ∷ cs)) size_bytes

abbrev pub or_empty : Result (List Extent) → List Extent
or_empty (ok extents) = extents
or_empty (err e) = []

-- `extentsFollowingChain`, on the answer of `chain_from`.
unfoldable pub extents_of_chain : Run → ClusterGeometry → ℕ → List Extent
unfolding chain_extents
extents_of_chain stuck g size_bytes = []
extents_of_chain (done (err e)) g size_bytes = []
extents_of_chain (done (ok clusters)) g size_bytes = or_empty (chain_extents clusters g size_bytes)

unfoldable pub extents_following_chain : (ℕ → Result ℕ) → ClusterGeometry → ℕ → ℕ → List Extent
unfolding chain_from extents_of_chain
extents_following_chain entry g first size_bytes =
    extents_of_chain (chain_from entry g first) g size_bytes

-- `extentsAssumingContiguous`
unfoldable pub extents_assuming_contiguous : ClusterGeometry → ℕ → ℕ → List Extent
unfolding cluster_offset
extents_assuming_contiguous g first size_bytes =
    if size_bytes == 0
    then []
    else (let clusters = ((size_bytes - 1) / g.bytes_per_cluster + 1) % u64_mod in
        if ltb ((first_cluster + g.total_clusters) % u64_mod) ((first + clusters) % u64_mod)
        then []
        else record { device_offset = cluster_offset g first; length_bytes = size_bytes } ∷ [])
