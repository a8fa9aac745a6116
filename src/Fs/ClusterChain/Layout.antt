-- ===== src/Fs/ClusterChain/Layout.antt =====
-- `chain_extents`: each byte of the file lies in the cluster that the chain gives for it.
use data_recovery.Prelude.{
  ℕ, zero, suc, ◌+◌, ◌*◌, ◌≤◌, ◌<◌, ◌≡◌, ap, ◌∙◌, List, [], ◌∷◌, ◌++◌, map, some, false, ◌==◌,
  arith, All, length, get_elem?,
}
use mathlib.Core.List.{append_assoc, append-nil}
use data_recovery.Core.Result.{error_at, invalid_argument, Returns, Returns-map}
use data_recovery.Core.SafeArith.{u64_max}
use data_recovery.Fs.Types.{Extent}
use data_recovery.Fs.Extents.{append_extent, trim_to_size}
use data_recovery.Fs.Extents.Places.{
  place_of, place_of-append, total_of, total_of-append_one, IsWithin, IsSolid,
}
use data_recovery.Fs.Extents.Append.{
  place_of-append_extent, append_extent-IsWithin, append_extent-IsSolid, total_of-append_extent,
}
use data_recovery.Fs.Extents.Trim.{trim_to_size-prefix, trim_to_size_short}
use data_recovery.Fs.ClusterChain.{ClusterGeometry, cluster_offset, append_clusters, chain_extents}

module _ (g : ClusterGeometry) where
  abbrev cluster_extent : ℕ → Extent
  cluster_extent c = record {
    device_offset = cluster_offset g c;
    length_bytes = g.bytes_per_cluster;
  }

  -- The clusters end within 64 bits.
  abbrev pub ClustersFit : List ℕ → Type 0
  ClustersFit cs = All (λ c. cluster_offset g c + g.bytes_per_cluster ≤ u64_max) cs

  append_clusters-IsWithin :
      (es : List Extent) (cs : List ℕ)
      → IsWithin es
      → ClustersFit cs
      → IsWithin (append_clusters g es cs)
  unfolding append_clusters
  append_clusters-IsWithin es [] w f = w
  append_clusters-IsWithin es (c ∷ cs) w f =
      append_clusters-IsWithin (append_extent es (cluster_extent c)) cs
        (append_extent-IsWithin es (cluster_extent c) w f.0) f.1

  append_clusters-IsSolid :
      (es : List Extent) (cs : List ℕ)
      → 0 < g.bytes_per_cluster
      → IsWithin es
      → ClustersFit cs
      → IsSolid es
      → IsSolid (append_clusters g es cs)
  unfolding append_clusters
  append_clusters-IsSolid es [] h w f s = s
  append_clusters-IsSolid es (c ∷ cs) h w f s =
      append_clusters-IsSolid (append_extent es (cluster_extent c)) cs h
        (append_extent-IsWithin es (cluster_extent c) w f.0) f.1
        (append_extent-IsSolid es (cluster_extent c) w f.0 h s)

  total_of-append_clusters :
      (es : List Extent) (cs : List ℕ)
      → IsWithin es
      → ClustersFit cs
      → total_of (append_clusters g es cs) ≡ total_of es + length cs * g.bytes_per_cluster
  unfolding append_clusters
  total_of-append_clusters es [] w f = omega arith
  total_of-append_clusters es (c ∷ cs) w f = omega (
    arith,
    total_of-append_extent es (cluster_extent c) w f.0,
    total_of-append_clusters (append_extent es (cluster_extent c)) cs
        (append_extent-IsWithin es (cluster_extent c) w f.0) f.1,
  )

  place_of-append_clusters :
      (es : List Extent) (cs : List ℕ) (i : ℕ)
      → IsWithin es
      → ClustersFit cs
      → place_of (append_clusters g es cs) i ≡ place_of (es ++ map cluster_extent cs) i
  unfolding append_clusters
  place_of-append_clusters es [] i w f = rw (append-nil es)
  place_of-append_clusters es (c ∷ cs) i w f =
      let x = cluster_extent c in
      let rest = map cluster_extent cs in
      ground (
        arith,
        place_of-append_clusters (append_extent es x) cs i (append_extent-IsWithin es x w f.0) f.1,
        place_of-append (append_extent es x) rest i,
        place_of-append (es ++ (x ∷ [])) rest i,
        place_of-append_extent es x i w f.0,
        total_of-append_extent es x w f.0,
        total_of-append_one es x,
        ap (λ (l : List Extent). place_of l i) (append_assoc es (x ∷ []) rest),
      )

  place_of-clusters :
      (cs : List ℕ) (k r c : ℕ)
      → get_elem? cs k ≡ some c
      → r < g.bytes_per_cluster
      → place_of (map cluster_extent cs) (k * g.bytes_per_cluster + r)
        ≡ some (cluster_offset g c + r)
  unfolding place_of
  place_of-clusters [] k r c e h = cc
  place_of-clusters (d ∷ cs) zero r c e h = ground arith
  place_of-clusters (d ∷ cs) (suc k) r c e h = ground (arith, place_of-clusters cs k r c e h)

  -- A size that the clusters hold, and that is not 0, gives extents of exactly that many bytes,
  -- where byte `r` of the file's cluster number `k` is byte `r` of the cluster `c` that the chain
  -- has there; that consecutive clusters are joined makes no difference.
  pub chain_extents_layout :
      (cs : List ℕ) (size k r c : ℕ)
      → ClustersFit cs
      → 0 < size
      → size ≤ length cs * g.bytes_per_cluster
      → get_elem? cs k ≡ some c
      → r < g.bytes_per_cluster
      → k * g.bytes_per_cluster + r < size
      → Returns (chain_extents cs g size) (λ es.
        (total_of es ≡ size)
        × (place_of es (k * g.bytes_per_cluster + r) ≡ some (cluster_offset g c + r)))
  unfolding chain_extents
  chain_extents_layout [] size k r c f h l e room inside = absurd (omega arith)
  chain_extents_layout (d ∷ cs) size k r c f h l e room inside =
      let some_bytes : (size == 0) ≡ false = ground arith in
      let solid = append_clusters-IsSolid [] (d ∷ cs) (omega arith) tt f tt in
      let total = total_of-append_clusters [] (d ∷ cs) tt f in
      let i = k * g.bytes_per_cluster + r in
      let chained =
        place_of-append_clusters [] (d ∷ cs) i tt f ∙ place_of-clusters (d ∷ cs) k r c e room in
      rw some_bytes (
        Returns-map _ _ (trim_to_size (append_clusters g [] (d ∷ cs)) size)
          (λ taken t. (t.0, t.1 ∙ ground (arith, chained)))
          (trim_to_size-prefix (append_clusters g [] (d ∷ cs)) size i solid
            (unfold total_of in omega (arith, total))))

  -- A size that the clusters, at least one, do not hold is refused.
  pub chain_extents_short :
      (cs : List ℕ) (size : ℕ)
      → ClustersFit cs
      → 0 < g.bytes_per_cluster
      → 0 < length cs
      → length cs * g.bytes_per_cluster < size
      → chain_extents cs g size ≡ error_at invalid_argument size
  unfolding chain_extents
  chain_extents_short [] size f room some_clusters l = absurd (omega arith)
  chain_extents_short (c ∷ cs) size f room some_clusters l =
      let some_bytes : (size == 0) ≡ false = ground arith in
      let total = total_of-append_clusters [] (c ∷ cs) tt f in
      rw some_bytes (
        trim_to_size_short (append_clusters g [] (c ∷ cs)) size
          (append_clusters-IsSolid [] (c ∷ cs) room tt f tt)
          (unfold total_of in omega (arith, total)))
