-- ===== src/Fs/ClusterChain/Follow.antt =====
-- `chain_from`: it ends, and its answer is the chain that the table spells.
use data_recovery.Prelude.{
  ℕ, zero, suc, ◌+◌, ◌≤◌, ◌<◌, ◌≡◌, ◌≢◌, ◌↔◌, All-of_mem, Ordered, refl, sym, ◌∙◌, ap, List, [],
  ◌∷◌, ◌++◌, true, false, inl, inr, arith, Bool-cases, length, length-append,
}
use mathlib.Core.List.{append_assoc, append-nil, Memᴰ}
use mathlib.Core.Path.{subst}
use data_recovery.Core.Result.{Result, Result-cases, Error, ok, err}
use data_recovery.Fs.ClusterChain.{
  ClusterGeometry, done, stuck, is_data_cluster, end_of_chain, cluster_of, chain_loop, chain_from,
}

-- `clusters` is the chain that begins at `first`: each is a cluster of the data region, the table
-- names the next one at it, and the last entry is an end-of-chain marker outside that region.
pub data Chain (entry : ℕ → Result ℕ) (g : ClusterGeometry) : ℕ → List ℕ → Type 0 where
  ends : {last : ℕ} → is_data_cluster g last ≡ false → end_of_chain ≤ last → Chain entry g last []
  link :
      {cluster next : ℕ} {clusters : List ℕ}
      → is_data_cluster g cluster ≡ true
      → entry cluster ≡ ok next
      → Chain entry g next clusters
      → Chain entry g cluster (cluster ∷ clusters)

module _ (entry : ℕ → Result ℕ) (g : ClusterGeometry) where
  chain_loop-ne-stuck :
      (fuel : ℕ) (clusters : List ℕ) (cluster : Result ℕ)
      → g.total_clusters + 1 < fuel + length clusters
      → length clusters ≤ g.total_clusters
      → chain_loop entry g fuel clusters cluster ≢ stuck
  unfolding chain_loop
  chain_loop-ne-stuck zero clusters cluster h l = absurd (omega arith)
  chain_loop-ne-stuck (suc fuel) clusters cluster h l = ground (
    arith,
    length-append clusters (cluster_of cluster ∷ []),
    chain_loop-ne-stuck fuel (clusters ++ (cluster_of cluster ∷ [])) (entry (cluster_of cluster)),
  )

  chain_loop_err :
      (fuel : ℕ) (clusters answer : List ℕ) (x : Error)
      → chain_loop entry g fuel clusters (err x) ≢ done (ok answer)
  unfolding chain_loop
  chain_loop_err zero clusters answer x = λ e. cc
  chain_loop_err (suc fuel) clusters answer x = λ e. cc

  -- What the loop answers is what it had, and the chain that begins where it stood.
  chain_loop_sound :
      (fuel : ℕ) (clusters answer : List ℕ) (value : ℕ)
      → length clusters ≤ g.total_clusters
      → chain_loop entry g fuel clusters (ok value) ≡ done (ok answer)
      → (rest : List ℕ) × (answer ≡ clusters ++ rest)
        × Chain entry g value rest
        × (length answer ≤ g.total_clusters)
  unfolding chain_loop
  chain_loop_sound zero clusters answer value l e = cc
  chain_loop_sound (suc fuel) clusters answer value l e =
      elim (Bool-cases (is_data_cluster g value)) [
        | inl inside ↦ elim (Result-cases (entry value)) [
          | inl (next, named) ↦
              let go : chain_loop entry g fuel (clusters ++ (value ∷ [])) (ok next)
                  ≡ done (ok answer) =
                ground arith in
              let room : length clusters < g.total_clusters = ground arith in
              let (rest, split, chain, bound) =
                chain_loop_sound fuel (clusters ++ (value ∷ [])) answer next
                  (omega (arith, length-append clusters (value ∷ []))) go in
              (
                value ∷ rest,
                split ∙ append_assoc clusters (value ∷ []) rest,
                link inside named chain,
                bound,
              )
          | inr (x, failed) ↦
              absurd (chain_loop_err fuel (clusters ++ (value ∷ [])) answer x (ground arith))
        ]
        | inr outside ↦
            let same : answer ≡ clusters = ground arith in
            ([], same ∙ sym (append-nil clusters), ends outside (ground arith), rw same l)
      ]

  chain_loop_complete :
      (fuel : ℕ) (clusters : List ℕ) {value : ℕ} {rest : List ℕ}
      → Chain entry g value rest
      → length rest < fuel
      → length clusters + length rest ≤ g.total_clusters
      → chain_loop entry g fuel clusters (ok value) ≡ done (ok (clusters ++ rest))
  unfolding chain_loop
  chain_loop_complete zero clusters c h l = absurd (omega arith)
  chain_loop_complete (suc fuel) clusters (ends outside last) h l =
      rw (outside, append-nil clusters) (ground arith)
  chain_loop_complete (suc fuel) clusters {value = value} (link {clusters = cs} inside named c) h
        l =
      let next =
        chain_loop_complete fuel (clusters ++ (value ∷ [])) c (omega arith)
          (omega (arith, length-append clusters (value ∷ []))) in
      ground (arith, inside, named, next, append_assoc clusters (value ∷ []) cs)

  -- The loop of `chain_from` ends on every table, a cyclic one too.
  pub chain_from-ne-stuck : (first : ℕ) → chain_from entry g first ≢ stuck
  unfolding chain_from
  chain_from-ne-stuck first =
      chain_loop-ne-stuck (g.total_clusters + 2) [] (ok first) (omega arith) (omega arith)

  -- The clusters that `chain_from` answers are exactly the chain that the table spells from
  -- `first`, provided it has no more clusters than the volume.
  pub chain_from_iff :
      (first : ℕ) (clusters : List ℕ)
      → (chain_from entry g first ≡ done (ok clusters))
        ↔ (Chain entry g first clusters × (length clusters ≤ g.total_clusters))
  unfolding chain_from
  chain_from_iff first clusters = (
    λ e.
        let (rest, split, chain, bound) =
          chain_loop_sound (g.total_clusters + 2) [] clusters first (omega arith) e in
        (subst (Chain entry g first) (sym split) chain, bound),
    λ h. chain_loop_complete (g.total_clusters + 2) [] h.0 (omega arith) (omega arith),
  )

  Chain-unique :
      {a b : ℕ} {cs ds : List ℕ} → Chain entry g a cs → Chain entry g b ds → a ≡ b → cs ≡ ds
  Chain-unique (ends o l) (ends o' l') e = refl
  Chain-unique (ends o l) (link i n c) e = cc
  Chain-unique (link i n c) (ends o l) e = cc
  Chain-unique (link i n c) (link i' n' c') e = cc (e, Chain-unique c c' (ground (arith, e, n, n')))

  Chain-suffix :
      {v d : ℕ} {cs : List ℕ}
      → Chain entry g v cs
      → Memᴰ d cs
      → (ds : List ℕ) × Chain entry g d ds × (length ds ≤ length cs)
  Chain-suffix (ends o l) m = elim m [ ]
  Chain-suffix {cs = cs} (link i n c) (Memᴰ.head e) =
      (cs, subst (λ v. Chain entry g v cs) (sym e) (link i n c), omega arith)
  Chain-suffix (link i n c) (Memᴰ.tail m) =
      let (ds, chain, l) = Chain-suffix c m in (ds, chain, omega (arith, l))

  -- A chain that ends holds no cluster twice.
  Chain-Nodup : {v : ℕ} {cs : List ℕ} → Chain entry g v cs → Ordered ◌≢◌ cs
  Chain-Nodup (ends o l) = tt
  Chain-Nodup (link {clusters = cs} i n c) = (
    All-of_mem _ cs λ d m e.
        let (ds, chain, l) = Chain-suffix c m in
        absurd (omega (arith, ap length (Chain-unique (link i n c) chain e), l)),
    Chain-Nodup c,
  )

  -- The clusters that `chain_from` answers are all different.
  pub chain_from-Nodup :
      (first : ℕ) (clusters : List ℕ)
      → chain_from entry g first ≡ done (ok clusters)
      → Ordered ◌≢◌ clusters
  chain_from-Nodup first clusters e = Chain-Nodup ((chain_from_iff first clusters).0 e).0
