-- ===== src/Recovery/ByteAccounting/Bounded.antt =====
-- `account`: the set stays fused and does not outgrow its bound.
use data_recovery.Prelude.{
  ℕ, suc, ◌+◌, ◌≤◌, ◌<◌, ◌≡◌, refl, List, [], ◌∷◌, leb, arith, Bool-cases, inl, inr, length,
}
use data_recovery.Core.SafeArith.{u64_max}
use data_recovery.Fs.Types.{Extent, RecoveredEntry}
use data_recovery.Recovery.Candidate.{IsPlaced}
use data_recovery.Recovery.RegionSet.{
  Regions, Place, Span, upper_bound, step_back, first_touching, absorb_from, widen, rezip, put, add,
  end_of, region_count,
}
use data_recovery.Recovery.RegionSet.Fused.{IsFused}
use data_recovery.Recovery.RegionSet.Add.{add-IsFused}
use data_recovery.Recovery.ByteAccounting.{
  ByteAccounting, max_accounted_regions, add_region, add_regions, is_trusted, account,
}

abbrev place_size : Place → ℕ
place_size p = length p.passed + length p.ahead

place_size-upper_bound :
    (start : ℕ) (ps rs : Regions) → place_size (upper_bound start ps rs) ≡ length ps + length rs
unfolding upper_bound
place_size-upper_bound start ps [] = refl
place_size-upper_bound start ps (r ∷ rs) = ground (arith, place_size-upper_bound start (r ∷ ps) rs)

place_size-step_back :
    (start : ℕ) (ps rs : Regions) → place_size (step_back start ps rs) ≡ length ps + length rs
unfolding step_back
place_size-step_back start [] rs = refl
place_size-step_back start (p ∷ ps) rs = ground arith

length-absorb_from-le : (rs : Regions) (span : Span) → length (absorb_from rs span).1 ≤ length rs
unfolding absorb_from
length-absorb_from-le [] span = omega arith
length-absorb_from-le (r ∷ rs) span = ground (arith, length-absorb_from-le rs (widen span r))

length-rezip : (ps rs : Regions) → length (rezip ps rs) ≡ length ps + length rs
unfolding rezip
length-rezip [] rs = omega arith
length-rezip (p ∷ ps) rs = omega (arith, length-rezip ps (p ∷ rs))

length-put-le : (s : Span) (rs : Regions) → length (put s rs) ≤ suc (length rs)
unfolding put
length-put-le s [] = omega arith
length-put-le s (r ∷ rs) = ground (arith, length-put-le s rs)

length-add-le : (e : Extent) (rs : Regions) → length (add e rs) ≤ suc (length rs)
unfolding add first_touching
length-add-le e rs =
    let after = upper_bound e.device_offset [] rs in
    let at = step_back e.device_offset after.passed after.ahead in
    let fused = absorb_from at.ahead (record { start = e.device_offset; finish = end_of e }) in
    ground (
      arith,
      place_size-upper_bound e.device_offset [] rs,
      place_size-step_back e.device_offset after.passed after.ahead,
      length-absorb_from-le at.ahead (record { start = e.device_offset; finish = end_of e }),
      length-rezip at.passed fused.1,
      length-put-le fused.0 (rezip at.passed fused.1),
    )

-- Fused, with no more regions than the bound.
pub record IsBounded (accounting : ByteAccounting) : Type 0 where
  pub fused : IsFused accounting.claimed
  pub few : length accounting.claimed ≤ max_accounted_regions

add_region-IsBounded :
    (accounting : ByteAccounting) (e : Extent)
    → e.device_offset < u64_max
    → IsBounded accounting
    → IsBounded (add_region accounting e)
unfolding add_region region_count
add_region-IsBounded accounting e fits b =
    elim (Bool-cases (leb max_accounted_regions (length accounting.claimed))) [
      | inl full ↦ rw full (record { fused = b.fused; few = b.few })
      | inr room ↦
          let grown = length-add-le e accounting.claimed in
          rw room (record {
            fused = add-IsFused e accounting.claimed fits b.fused;
            few = ground (arith, room, grown);
          })
    ]

add_regions-IsBounded :
    (accounting : ByteAccounting) (es : List Extent)
    → IsPlaced es
    → IsBounded accounting
    → IsBounded (add_regions accounting es)
unfolding add_regions
add_regions-IsBounded accounting [] h b = b
add_regions-IsBounded accounting (e ∷ es) (h, hs) b =
    add_regions-IsBounded (add_region accounting e) es hs (add_region-IsBounded accounting e h.0 b)

-- After `account` the set is still fused and has no more than 65536 regions, for an entry whose
-- extents are not empty and do not begin at the last 64-bit address.
pub account-IsBounded :
    (accounting : ByteAccounting) (entry : RecoveredEntry)
    → IsPlaced entry.extents
    → IsBounded accounting
    → IsBounded (account accounting entry)
unfolding account
account-IsBounded accounting entry h b = elim (Bool-cases (is_trusted entry.recoverability)) [
  | inl trusted ↦ rw trusted (add_regions-IsBounded accounting entry.extents h b)
  | inr doubted ↦ rw doubted b
]
