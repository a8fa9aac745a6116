-- ===== src/Recovery/RegionSet/Add.antt =====
-- `add`: the map stays fused, and exactly the bytes of the new range join the claimed ones.
use data_recovery.Prelude.{
  ℕ, suc, ◌≤◌, ◌<◌, ◌≡◌, refl, ◌∙◌, ap, min, [], ◌∷◌, Bool, ◌&&◌, ◌||◌, ltb, leb, ◌==◌, inl, inr,
  arith, Bool-cases, leb→le,
}
use data_recovery.Fs.Types.{Extent, within}
use data_recovery.Core.SafeArith.{u64_max}
use data_recovery.Recovery.RegionSet.{
  Span, Regions, Place, widen, end_of, first_touching, absorb_from, rezip, put, add,
}
use data_recovery.Recovery.RegionSet.Fused.{
  claims, FusedFrom, IsFused, FusedBack, FusedFrom-mono, FusedBack-mono, FusedFrom-rezip,
  claims-rezip, ReachesFrom, IsTouching, first_touching-IsTouching, rezip-first_touching,
}

abbrev inside : Span → ℕ → Bool
inside s x = within s.start s.finish x

-- What `absorb_from` returns: a span that only grew, not below `low`, and pairs clear of it.
record IsAbsorbed (low : ℕ) (span : Span) (result : Span × Regions) : Type 0 where
  above : low ≤ (result.0).start
  starts : (result.0).start ≤ span.start
  ends : span.finish ≤ (result.0).finish
  clear : FusedFrom (suc (result.0).finish) result.1

absorb_from-IsAbsorbed :
    (low : ℕ) (rs : Regions) (span : Span)
    → FusedFrom low rs
    → low ≤ span.start
    → IsAbsorbed low span (absorb_from rs span)
unfolding absorb_from
absorb_from-IsAbsorbed low [] span f h = record {
  above = h;
  starts = omega arith;
  ends = omega arith;
  clear = tt;
}
absorb_from-IsAbsorbed low (r ∷ rs) span f h = elim (Bool-cases (leb r.start span.finish)) [
  | inl near ↦
      let a =
        absorb_from-IsAbsorbed low rs (widen span r)
          (FusedFrom-mono (suc r.finish) low rs (omega arith) f.2) (omega arith) in
      rw near (record {
        above = a.above;
        starts = omega (arith, a.starts);
        ends = omega (arith, a.ends);
        clear = a.clear;
      })
  | inr far ↦ rw far (record {
    above = h;
    starts = omega arith;
    ends = omega arith;
    clear = (ground arith, f.1, f.2);
  })
]

-- Two ranges that meet make one.
inside-widen :
    (s r : Span) (x : ℕ)
    → s.start < s.finish
    → r.start < r.finish
    → r.start ≤ s.finish
    → s.start ≤ r.finish
    → inside (widen s r) x ≡ (inside s x || inside r x)
inside-widen s r x hs hr a b = ground arith

ReachesFrom-widen :
    (s r : Span) (rs : Regions)
    → FusedFrom (suc r.finish) rs
    → s.start ≤ r.finish
    → ReachesFrom (min s.start r.start) rs
ReachesFrom-widen s r [] f h = tt
ReachesFrom-widen s r (q ∷ rs) f h = omega arith

or_swap : (a b c : Bool) → (c || (a || b)) ≡ ((b || c) || a)
or_swap a b c = ground arith

claims-absorb_from :
    (low : ℕ) (rs : Regions) (span : Span) (x : ℕ)
    → FusedFrom low rs
    → span.start < span.finish
    → ReachesFrom span.start rs
    → (claims (absorb_from rs span).1 x || inside (absorb_from rs span).0 x)
      ≡ (claims rs x || inside span x)
unfolding absorb_from claims
claims-absorb_from low [] span x f h n = refl
claims-absorb_from low (r ∷ rs) span x f h n = elim (Bool-cases (leb r.start span.finish)) [
  | inl near ↦ rw near (
      claims-absorb_from (suc r.finish) rs (widen span r) x f.2 (omega arith)
        (ReachesFrom-widen span r rs f.2 n)
      ∙ rw (inside-widen span r x h f.1 (leb→le _ _ near) n)
          (or_swap (inside span x) (inside r x) (claims rs x)))
  | inr far ↦ rw far
]

-- Writing a pair whose key lies past all that was passed does not touch those.
put-rezip :
    (s : Span) (ps rs : Regions) → FusedBack s.start ps → put s (rezip ps rs) ≡ rezip ps (put s rs)
unfolding rezip put
put-rezip s [] rs b = refl
put-rezip s (p ∷ ps) rs b =
    put-rezip s ps (p ∷ rs) (FusedBack-mono p.start s.start ps (omega arith) b.2)
    ∙ ap (rezip ps) (ground arith)

put-clear :
    (s : Span) (rs : Regions) → s.start < s.finish → FusedFrom (suc s.finish) rs → put s rs ≡ s ∷ rs
unfolding put
put-clear s [] h f = refl
put-clear s (r ∷ rs) h f = ground arith

module _ (region : Extent) (rs : Regions) (fits : region.device_offset < u64_max)
    (f : IsFused rs) where
  end_of-gt : 0 < region.length_bytes → region.device_offset < end_of region
  unfolding end_of
  end_of-gt h = ground arith

  abbrev claimed : Span
  claimed = record { start = region.device_offset; finish = end_of region }

  abbrev place : Place
  place = first_touching rs region.device_offset

  abbrev result : Span × Regions
  result = absorb_from place.ahead claimed

  touching : IsTouching region.device_offset place
  touching = first_touching-IsTouching rs region.device_offset f

  absorbed : IsAbsorbed touching.low claimed result
  absorbed = absorb_from-IsAbsorbed touching.low place.ahead claimed touching.forth touching.low-le

  add_step : 0 < region.length_bytes → add region rs ≡ rezip place.passed ((result.0) ∷ result.1)
  unfolding add
  add_step h =
      let grown : (result.0).start < (result.0).finish =
        omega (arith, end_of-gt h, absorbed.starts, absorbed.ends) in
      let back =
        FusedBack-mono touching.low (result.0).start place.passed absorbed.above touching.back in
      ground (
        arith,
        put-rezip (result.0) place.passed result.1 back,
        put-clear (result.0) result.1 grown absorbed.clear,
      )

  add_grown-IsFused : 0 < region.length_bytes → IsFused (add region rs)
  add_grown-IsFused h =
      let grown : (result.0).start < (result.0).finish =
        omega (arith, end_of-gt h, absorbed.starts, absorbed.ends) in
      rw (add_step h) (
        FusedFrom-rezip touching.low place.passed _ touching.back
          (absorbed.above, grown, absorbed.clear))

  claims-add_grown :
      (x : ℕ)
      → 0 < region.length_bytes
      → claims (add region rs) x ≡ (claims rs x || inside claimed x)
  claims-add_grown x h =
      let grew =
        claims-absorb_from touching.low place.ahead claimed x touching.forth (end_of-gt h)
          touching.reaches in
      let whole = claims-rezip place.passed place.ahead x in
      let parts = claims-rezip place.passed ((result.0) ∷ result.1) x in
      rw (add_step h) (
        unfold claims in
        ground (
          arith,
          grew,
          parts,
          whole,
          ap (λ (m : Regions). claims m x) (rezip-first_touching rs region.device_offset),
        ))

-- From a fused map `add` makes a fused map, for a range that does not begin at the last 64-bit
-- address: the pairs stay in order, none empty, none overlapping or touching the next.
pub add-IsFused :
    (region : Extent) (rs : Regions)
    → region.device_offset < u64_max
    → IsFused rs
    → IsFused (add region rs)
unfolding add
add-IsFused region rs fits f = elim (Bool-cases (region.length_bytes == 0)) [
  | inl empty ↦ rw empty f
  | inr some_bytes ↦ add_grown-IsFused region rs fits f (ground arith)
]

-- After `add` a byte is claimed exactly if it was claimed before or lies in the range, whose end
-- is cut off at the largest 64-bit number.
pub claims-add :
    (region : Extent) (rs : Regions) (x : ℕ)
    → region.device_offset < u64_max
    → IsFused rs
    → claims (add region rs) x ≡ (
        claims rs x || (ltb 0 region.length_bytes && within region.device_offset (end_of region) x))
claims-add region rs x fits f = elim (Bool-cases (region.length_bytes == 0)) [
  | inl empty ↦ unfold add in ground arith
  | inr some_bytes ↦ ground (arith, claims-add_grown region rs fits f x (ground arith))
]
