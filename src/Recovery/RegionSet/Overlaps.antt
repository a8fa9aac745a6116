-- ===== src/Recovery/RegionSet/Overlaps.antt =====
-- `overlaps`: whether the range and the claimed bytes have a byte in common.
use data_recovery.Prelude.{
  ℕ, suc, ◌≤◌, ◌<◌, ◌≡◌, refl, sym, ◌∙◌, ◌↔◌, ap, [], ◌∷◌, true, ◌||◌, ◌==◌, inl, inr, arith,
  Bool-cases, lt→ltb,
}
use data_recovery.Core.SafeArith.{u64_max}
use data_recovery.Fs.Types.{Extent, within}
use data_recovery.Recovery.RegionSet.{
  Span, Regions, Place, end_of, upper_bound, reaches_past, begins_before, overlaps, rezip,
}
use data_recovery.Recovery.RegionSet.Fused.{
  claims, FusedFrom, IsFused, FusedBack, claims-rezip, StartsBy, IsUpperBound,
  upper_bound-IsUpperBound, rezip-upper_bound,
}

-- A byte that some pair holds, in a range.
abbrev pub Shared : Regions → ℕ → ℕ → Type 0
Shared rs start finish = (x : ℕ) × (claims rs x ≡ true) × (within start finish x ≡ true)

-- Nothing from `lo` on is claimed below `lo`, and nothing before `hi` at `hi` or past it.
claims_from : (lo x : ℕ) (rs : Regions) → FusedFrom lo rs → claims rs x ≡ true → lo ≤ x
unfolding claims
claims_from lo x [] f h = cc
claims_from lo x (r ∷ rs) f h = ground (arith, claims_from (suc r.finish) x rs f.2)

claims_back :
    (p : Span) (hi x : ℕ) (ps : Regions)
    → FusedBack hi (p ∷ ps)
    → claims (p ∷ ps) x ≡ true
    → x < p.finish
unfolding claims
claims_back p hi x [] b h = ground arith
claims_back p hi x (q ∷ ps) b h = ground (arith, claims_back q p.start x ps b.2)

passed_shares :
    (start : ℕ) (ps : Regions)
    → StartsBy start ps
    → reaches_past start ps ≡ true
    → claims ps start ≡ true
unfolding reaches_past claims
passed_shares start [] n e = cc
passed_shares start (p ∷ ps) n e = ground arith

ahead_shares :
    (start finish : ℕ) (rs : Regions)
    → FusedFrom (suc start) rs
    → begins_before finish rs ≡ true
    → Shared rs start finish
unfolding begins_before claims
ahead_shares start finish [] f e = cc
ahead_shares start finish (r ∷ rs) f e = (r.start, ground arith, ground arith)

shared_passed :
    (start hi x : ℕ) (ps : Regions)
    → FusedBack hi ps
    → start ≤ x
    → claims ps x ≡ true
    → reaches_past start ps ≡ true
shared_passed start hi x [] b h e = unfold claims in cc
shared_passed start hi x (p ∷ ps) b h e =
    unfold reaches_past in lt→ltb _ _ (omega (arith, claims_back p hi x ps b e))

shared_ahead :
    (finish lo x : ℕ) (rs : Regions)
    → FusedFrom lo rs
    → x < finish
    → claims rs x ≡ true
    → begins_before finish rs ≡ true
shared_ahead finish lo x [] f h e = unfold claims in cc
shared_ahead finish lo x (r ∷ rs) f h e =
    unfold begins_before in
    lt→ltb _ _ (omega (arith, claims_from r.start x (r ∷ rs) (omega arith, f.1, f.2) e))

module _ (region : Extent) (rs : Regions) (f : IsFused rs) where
  abbrev after : Place
  after = upper_bound region.device_offset [] rs

  bound : IsUpperBound region.device_offset after
  bound = upper_bound-IsUpperBound region.device_offset 0 [] rs tt f tt

  claims_split : (x : ℕ) → claims rs x ≡ (claims after.passed x || claims after.ahead x)
  claims_split x =
      sym (
        ap (λ (m : Regions). claims m x)
          (rezip-upper_bound region.device_offset [] rs ∙ unfold rezip in refl))
      ∙ claims-rezip after.passed after.ahead x

  end_of-gt_offset :
      region.device_offset < u64_max
      → 0 < region.length_bytes
      → region.device_offset < end_of region
  end_of-gt_offset fits h = unfold end_of in ground arith

  overlaps_sound :
      region.device_offset < u64_max
      → overlaps rs region ≡ true
      → Shared rs region.device_offset (end_of region)
  overlaps_sound fits e = elim (Bool-cases (region.length_bytes == 0)) [
    | inl empty ↦ unfold overlaps in ground arith
    | inr bytes ↦ elim (Bool-cases (reaches_past region.device_offset after.passed)) [
      | inl back ↦ (
        region.device_offset,
        ground (
          arith,
          claims_split region.device_offset,
          passed_shares region.device_offset after.passed bound.below back,
        ),
        ground (arith, end_of-gt_offset fits (ground arith)),
      )
      | inr clear ↦
          let (x, claimed, inside) =
            ahead_shares region.device_offset (end_of region) after.ahead bound.above
              (unfold overlaps in ground arith) in
          (x, ground (arith, claims_split x), inside)
    ]
  ]

  overlaps_complete :
      Shared rs region.device_offset (end_of region)
      → 0 < region.length_bytes
      → overlaps rs region ≡ true
  overlaps_complete (x, claimed, inside) bytes = elim (Bool-cases (claims after.passed x)) [
    | inl back ↦
        let e =
          shared_passed region.device_offset bound.between x after.passed bound.back (ground arith)
            back in
        unfold overlaps in ground (arith, e)
    | inr none_back ↦
        let e =
          shared_ahead (end_of region) bound.between x after.ahead bound.forth (ground arith)
            (ground (arith, claims_split x)) in
        unfold overlaps in ground (arith, e)
  ]

-- For a range of at least one byte that does not begin at the last 64-bit address, `overlaps`
-- over a fused map answers true exactly if some byte of the range is claimed.
pub overlaps_iff :
    (region : Extent) (rs : Regions)
    → IsFused rs
    → region.device_offset < u64_max
    → 0 < region.length_bytes
    → (overlaps rs region ≡ true) ↔ Shared rs region.device_offset (end_of region)
overlaps_iff region rs f fits bytes =
    (overlaps_sound region rs f fits, λ s. overlaps_complete region rs f s bytes)
