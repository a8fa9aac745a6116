-- ===== src/Volume/ExtendedChain/Found.antt =====
-- `logical_partitions`: what the walk answers.
use data_recovery.Prelude.{
  ℕ, zero, suc, ◌+◌, ◌/◌, ◌≤◌, ◌<◌, ◌≡◌, sym, ap, ◌∙◌, List, [], ◌∷◌, true, ◌==◌, some, length,
  arith, Bool-cases, inl, inr, All, All-append, length-append, ◌||◌, get_or,
}
use mathlib.Core.Path.{subst}
use data_recovery.Core.Result.{ok, Result-cases, >>=-eq-ok, transform-eq-ok}
use data_recovery.Core.Io.{Device}
use data_recovery.Volume.SectorIo.{read_table_sector}
use data_recovery.Volume.Mbr.{
  MbrTable, MbrEntry, parse_mbr_sector, unused_entry, unused_partition_type,
}
use data_recovery.Volume.MbrPlacement.{MbrPartition, partition_of, is_extended_type}
use data_recovery.Volume.ExtendedChain.{
  ChainLink, ChainWalk, no_link, leading_to, next_lba_of, max_logical_partitions, can_step,
  logical_of, link_of, read_link, found_with, step_with, collect, logical_partitions,
}
use data_recovery.Volume.ExtendedChain.Ends.{
  collect_ends, collect_end, collect_err, collect_next, unseen-blank,
}

abbrev pub IsLogical : MbrPartition → Type 0
IsLogical partition = partition.logical ≡ true

-- What a link describes is logical.
abbrev IsLink : ChainLink → Type 0
IsLink link = link.describes_partition ≡ true → IsLogical link.partition

logical_of-IsLink :
    (device : Device) (walk : ChainWalk) (entry : MbrEntry) (link : ChainLink)
    → logical_of device walk entry ≡ ok link
    → IsLink link
unfolding logical_of partition_of
logical_of-IsLink device walk entry link e =
    elim (Bool-cases
      ((entry.partition_type == unused_partition_type) || is_extended_type entry.partition_type)) [
        | inl none_held ↦
            let same : no_link ≡ link = cc (rw none_held at e) in subst IsLink same (λ h. cc h)
        | inr held ↦
            let (partition, x, e') = transform-eq-ok _ _ link (rw held at e) in
            let (start, y, e'') = transform-eq-ok _ _ partition x in
            subst IsLink (sym e') (λ h. ap (λ (p : MbrPartition). p.logical) e'')
      ]

link_of-IsLink :
    (device : Device) (walk : ChainWalk) (table : MbrTable) (link : ChainLink)
    → link_of device walk table ≡ ok link
    → IsLink link
unfolding link_of
link_of-IsLink device walk table link e =
    let (held, x, e') =
      transform-eq-ok (leading_to (next_lba_of walk (get_or table.entries 1 unused_entry)))
        (logical_of device walk (get_or table.entries 0 unused_entry)) link e in
    subst IsLink (sym e') (logical_of-IsLink device walk _ held x)

read_link-IsLink :
    (device : Device) (walk : ChainWalk) (link : ChainLink)
    → read_link device walk ≡ ok link
    → IsLink link
unfolding read_link
read_link-IsLink device walk link e =
    let (sector, x, e') = >>=-eq-ok (read_table_sector device walk.ebr_lba) _ {b = link} e in
    let (table, y, e'') = >>=-eq-ok (parse_mbr_sector sector) _ {b = link} e' in
    link_of-IsLink device walk table link e''

-- What the walk holds at any time.
record IsFound (found : List MbrPartition) : Type 0 where
  few : length found ≤ max_logical_partitions
  logical : All IsLogical found

found_with-IsFound :
    (found : List MbrPartition) (link : ChainLink)
    → IsFound found
    → length found < max_logical_partitions
    → IsLink link
    → IsFound (found_with found link)
found_with-IsFound found link h room l = elim (Bool-cases link.describes_partition) [
  | inl described ↦
      unfold found_with in
      rw described (record {
        few = omega (arith, length-append found (link.partition ∷ []));
        logical = All-append IsLogical found (link.partition ∷ []) h.logical (l described, tt);
      })
  | inr empty ↦ unfold found_with in rw empty h
]

can_step-room :
    (walk : ChainWalk) → can_step walk ≡ true → length walk.found < max_logical_partitions
unfolding can_step
can_step-room walk h = ground (arith, h)

collect-IsFound :
    (device : Device) (fuel : ℕ) (walk : ChainWalk) (found : List MbrPartition)
    → IsFound walk.found
    → collect device fuel walk ≡ some found
    → IsFound found
collect-IsFound device zero walk found h e = unfold collect in cc
collect-IsFound device (suc fuel) walk found h e = elim (Bool-cases (can_step walk)) [
  | inr halted ↦ subst IsFound (cc (sym (collect_end device fuel walk halted) ∙ e)) h
  | inl goes ↦ elim (Result-cases (read_link device walk)) [
    | inr (x, r) ↦ subst IsFound (cc (sym (collect_err device fuel walk x goes r) ∙ e)) h
    | inl (link, r) ↦
        collect-IsFound device fuel (step_with walk (ok link)).0 found
          (unfold step_with in
            found_with-IsFound walk.found link h (can_step-room walk goes)
              (read_link-IsLink device walk link r))
          (sym (collect_next device fuel walk link goes r) ∙ e)
  ]
]

-- The walk over the chain ends on every device, a chain with a cycle included, with at most 128
-- partitions, each of them marked as logical.
pub logical_partitions_bounded :
    (device : Device) (start : ℕ)
    → (found : List MbrPartition) × (logical_partitions device start ≡ some found)
      × (length found ≤ max_logical_partitions)
      × All IsLogical found
unfolding logical_partitions
logical_partitions_bounded device start =
    let walk : ChainWalk = record {
      extended_start_lba = start;
      ebr_lba = start;
      found = [];
      seen = [];
    } in
    let sectors = device.size_in_bytes / device.sector_size in
    let (found, e) = collect_ends device (sectors + 2) walk (omega (arith, unseen-blank sectors)) in
    let bounded =
      collect-IsFound device (sectors + 2) walk found (record { few = omega arith; logical = tt })
        e in
    (found, e, bounded.few, bounded.logical)
