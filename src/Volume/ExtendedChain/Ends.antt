-- ===== src/Volume/ExtendedChain/Ends.antt =====
-- `collect` ends, since the sectors it goes on from are different sectors of the device.
use data_recovery.Prelude.{
  ℕ, zero, suc, ◌+◌, ◌/◌, ◌≤◌, ◌<◌, ◌≡◌, refl, ◌∙◌, List, [], ◌∷◌, true, false, ◌==◌, if◌then◌else◌,
  some, arith, Bool-cases, inl, inr,
}
use data_recovery.Core.Result.{Error, ok, err, Result-cases, >>=-eq-ok}
use data_recovery.Core.Io.{Device}
use data_recovery.Volume.SectorIo.{read_table_sector, byte_offset_of}
use data_recovery.Volume.MbrPlacement.{MbrPartition}
use data_recovery.Volume.ExtendedChain.{
  ChainLink, ChainWalk, is_seen, can_step, read_link, step_with, collect,
}

-- How many of the first `n` sectors the walk has not visited.
pub unseen : ℕ → List ℕ → ℕ
unseen zero seen = 0
unseen (suc n) seen = (if is_seen n seen then 0 else 1) + unseen n seen

pub unseen-blank : (n : ℕ) → unseen n [] ≡ n
unfolding unseen is_seen
unseen-blank zero = refl
unseen-blank (suc n) = omega (arith, unseen-blank n)

unseen-past : (n lba : ℕ) (seen : List ℕ) → n ≤ lba → unseen n (lba ∷ seen) ≡ unseen n seen
unfolding unseen is_seen
unseen-past zero lba seen h = refl
unseen-past (suc n) lba seen h = ground (arith, unseen-past n lba seen (omega arith))

unseen-visit :
    (n lba : ℕ) (seen : List ℕ)
    → lba < n
    → is_seen lba seen ≡ false
    → suc (unseen n (lba ∷ seen)) ≡ unseen n seen
unfolding unseen is_seen
unseen-visit zero lba seen h new = absurd (omega arith)
unseen-visit (suc n) lba seen h new = elim (Bool-cases (lba == n)) [
  | inl here ↦
      let same : lba ≡ n = ground (arith, here) in
      let past = unseen-past n lba seen (omega (arith, same)) in ground (arith, past, same, new)
  | inr there ↦
      let below : lba < n = ground (arith, there) in
      let rest = unseen-visit n lba seen below new in ground (arith, rest, there)
]

-- Nothing is read past the last sector.
read_link-ok-lt :
    (device : Device) (walk : ChainWalk) (link : ChainLink)
    → read_link device walk ≡ ok link
    → walk.ebr_lba < device.size_in_bytes / device.sector_size
unfolding read_link read_table_sector byte_offset_of
read_link-ok-lt device walk link e =
    let (sector, x, e') = >>=-eq-ok (read_table_sector device walk.ebr_lba) _ {b = link} e in
    let (place, y, e'') = >>=-eq-ok (byte_offset_of device walk.ebr_lba) _ {b = sector} x in
    ground (arith, y)

can_step-new : (walk : ChainWalk) → can_step walk ≡ true → is_seen walk.ebr_lba walk.seen ≡ false
unfolding can_step
can_step-new walk h = ground (arith, h)

pub collect_end :
    (device : Device) (fuel : ℕ) (walk : ChainWalk)
    → can_step walk ≡ false
    → collect device (suc fuel) walk ≡ some walk.found
unfolding collect
collect_end device fuel walk h = rw h

pub collect_err :
    (device : Device) (fuel : ℕ) (walk : ChainWalk) (e : Error)
    → can_step walk ≡ true
    → read_link device walk ≡ err e
    → collect device (suc fuel) walk ≡ some walk.found
unfolding collect step_with
collect_err device fuel walk e h r = rw (h, r)

pub collect_next :
    (device : Device) (fuel : ℕ) (walk : ChainWalk) (link : ChainLink)
    → can_step walk ≡ true
    → read_link device walk ≡ ok link
    → collect device (suc fuel) walk ≡ collect device fuel (step_with walk (ok link)).0
unfolding collect step_with
collect_next device fuel walk link h r = rw (h, r)

pub collect_ends :
    (device : Device) (fuel : ℕ) (walk : ChainWalk)
    → unseen (device.size_in_bytes / device.sector_size) walk.seen < fuel
    → (found : List MbrPartition) × (collect device fuel walk ≡ some found)
collect_ends device zero walk h = absurd (omega arith)
collect_ends device (suc fuel) walk h = elim (Bool-cases (can_step walk)) [
  | inr halted ↦ (walk.found, collect_end device fuel walk halted)
  | inl goes ↦ elim (Result-cases (read_link device walk)) [
    | inr (e, r) ↦ (walk.found, collect_err device fuel walk e goes r)
    | inl (link, r) ↦
        let fresh =
          unseen-visit _ walk.ebr_lba walk.seen (read_link-ok-lt device walk link r)
            (can_step-new walk goes) in
        let less : unseen (device.size_in_bytes / device.sector_size)
              (step_with walk (ok link)).0.seen
            < fuel =
          unfold step_with in omega (arith, fresh) in
        let (found, e) = collect_ends device fuel (step_with walk (ok link)).0 less in
        (found, collect_next device fuel walk link goes r ∙ e)
  ]
]
