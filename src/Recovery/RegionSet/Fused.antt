-- ===== src/Recovery/RegionSet/Fused.antt =====
-- The invariant of the region map, and what its parts keep: the pairs are in order, none is
-- empty, and no two overlap or touch.
use data_recovery.Prelude.{
  ℕ, suc, ◌≤◌, ◌<◌, ◌≡◌, refl, ◌∙◌, [], ◌∷◌, Bool, false, ◌||◌, ltb, leb, inl, inr, arith,
  Bool-cases, ltb→lt, leb→le,
}
use data_recovery.Fs.Types.{within}
use data_recovery.Recovery.RegionSet.{Regions, Place, upper_bound, step_back, first_touching, rezip}

-- Whether some pair holds the byte `x`.
unfoldable pub claims : Regions → ℕ → Bool
claims [] x = false
claims (r ∷ rs) x = within r.start r.finish x || claims rs x

abbrev pub FusedFrom : ℕ → Regions → Type 0
FusedFrom lo [] = Unit
FusedFrom lo (r ∷ rs) = (lo ≤ r.start) × (r.start < r.finish) × FusedFrom (suc r.finish) rs

abbrev pub IsFused : Regions → Type 0
IsFused regions = FusedFrom 0 regions

-- The same of pairs listed from the nearest back, all of them ending before `hi`.
abbrev pub FusedBack : ℕ → Regions → Type 0
FusedBack hi [] = Unit
FusedBack hi (p ∷ ps) = (p.finish < hi) × (p.start < p.finish) × FusedBack p.start ps

pub FusedFrom-mono : (lo lo' : ℕ) (rs : Regions) → lo' ≤ lo → FusedFrom lo rs → FusedFrom lo' rs
FusedFrom-mono lo lo' [] h f = tt
FusedFrom-mono lo lo' (r ∷ rs) h f = (omega arith, f.1, f.2)

pub FusedBack-mono : (hi hi' : ℕ) (ps : Regions) → hi ≤ hi' → FusedBack hi ps → FusedBack hi' ps
FusedBack-mono hi hi' [] h f = tt
FusedBack-mono hi hi' (p ∷ ps) h f = (omega arith, f.1, f.2)

pub FusedFrom-rezip :
    (hi : ℕ) (ps rs : Regions) → FusedBack hi ps → FusedFrom hi rs → IsFused (rezip ps rs)
unfolding rezip
FusedFrom-rezip hi [] rs b f = FusedFrom-mono hi 0 rs (omega arith) f
FusedFrom-rezip hi (p ∷ ps) rs b f =
    FusedFrom-rezip p.start ps (p ∷ rs) b.2
      (omega arith, b.1, FusedFrom-mono hi (suc p.finish) rs (omega arith) f)

pub claims-rezip : (ps rs : Regions) (x : ℕ) → claims (rezip ps rs) x ≡ (claims ps x || claims rs x)
unfolding rezip claims
claims-rezip [] rs x = refl
claims-rezip (p ∷ ps) rs x = ground (arith, claims-rezip ps (p ∷ rs) x)

abbrev pub StartsBy : ℕ → Regions → Type 0
StartsBy key [] = Unit
StartsBy key (p ∷ ps) = p.start ≤ key

-- What `upper_bound` leaves on both sides of the iterator: `between` is where they part.
pub record IsUpperBound (key : ℕ) (at : Place) : Type 0 where
  pub between : ℕ
  pub back : FusedBack between at.passed
  pub forth : FusedFrom between at.ahead
  pub above : FusedFrom (suc key) at.ahead
  pub below : StartsBy key at.passed

pub upper_bound-IsUpperBound :
    (key hi : ℕ) (ps rs : Regions)
    → FusedBack hi ps
    → FusedFrom hi rs
    → StartsBy key ps
    → IsUpperBound key (upper_bound key ps rs)
unfolding upper_bound
upper_bound-IsUpperBound key hi ps [] b f n = record {
  between = hi;
  back = b;
  forth = tt;
  above = tt;
  below = n;
}
upper_bound-IsUpperBound key hi ps (r ∷ rs) b f n = elim (Bool-cases (ltb key r.start)) [
  | inl past ↦
      rw past (record {
        between = hi;
        back = b;
        forth = f;
        above = (ltb→lt _ _ past, f.1, f.2);
        below = n;
      })
  | inr before ↦ rw before (
      upper_bound-IsUpperBound key (suc r.finish) (r ∷ ps) rs
        (omega arith, f.1, FusedBack-mono hi r.start ps f.0 b) f.2 (ground arith))
]

pub rezip-upper_bound :
    (key : ℕ) (ps rs : Regions)
    → rezip (upper_bound key ps rs).passed (upper_bound key ps rs).ahead ≡ rezip ps rs
unfolding upper_bound rezip
rezip-upper_bound key ps [] = refl
rezip-upper_bound key ps (r ∷ rs) = ground (arith, rezip-upper_bound key (r ∷ ps) rs)

abbrev pub ReachesFrom : ℕ → Regions → Type 0
ReachesFrom start [] = Unit
ReachesFrom start (r ∷ rs) = start ≤ r.finish

-- What `first_touching` leaves: the pairs passed end before `low`, which is at most `start`, and
-- the pairs from the iterator on begin at `low` or later and end at `start` or later.
pub record IsTouching (start : ℕ) (at : Place) : Type 0 where
  pub low : ℕ
  pub low-le : low ≤ start
  pub back : FusedBack low at.passed
  pub forth : FusedFrom low at.ahead
  pub reaches : ReachesFrom start at.ahead

FusedFrom-ReachesFrom : (start : ℕ) (rs : Regions) → FusedFrom (suc start) rs → ReachesFrom start rs
FusedFrom-ReachesFrom start [] f = tt
FusedFrom-ReachesFrom start (r ∷ rs) f = omega arith

step_back-IsTouching :
    (start hi : ℕ) (ps rs : Regions)
    → FusedBack hi ps
    → FusedFrom hi rs
    → FusedFrom (suc start) rs
    → StartsBy start ps
    → IsTouching start (step_back start ps rs)
unfolding step_back
step_back-IsTouching start hi [] rs b f a n = record {
  low = start;
  low-le = omega arith;
  back = tt;
  forth = FusedFrom-mono (suc start) start rs (omega arith) a;
  reaches = FusedFrom-ReachesFrom start rs a;
}
step_back-IsTouching start hi (p ∷ ps) rs b f a n = elim (Bool-cases (leb start p.finish)) [
  | inl reached ↦ rw reached (record {
    low = p.start;
    low-le = n;
    back = b.2;
    forth = (omega arith, b.1, FusedFrom-mono hi (suc p.finish) rs b.0 f);
    reaches = leb→le _ _ reached;
  })
  | inr short ↦ rw short (record {
    low = start;
    low-le = omega arith;
    back = (ground arith, b.1, b.2);
    forth = FusedFrom-mono (suc start) start rs (omega arith) a;
    reaches = FusedFrom-ReachesFrom start rs a;
  })
]

pub first_touching-IsTouching :
    (rs : Regions) (start : ℕ) → IsFused rs → IsTouching start (first_touching rs start)
unfolding first_touching
first_touching-IsTouching rs start f =
    let u = upper_bound-IsUpperBound start 0 [] rs tt f tt in
    step_back-IsTouching start u.between _ _ u.back u.forth u.above u.below

rezip-step_back :
    (start : ℕ) (ps rs : Regions)
    → rezip (step_back start ps rs).passed (step_back start ps rs).ahead ≡ rezip ps rs
unfolding step_back rezip
rezip-step_back start [] rs = refl
rezip-step_back start (p ∷ ps) rs = ground arith

pub rezip-first_touching :
    (rs : Regions) (start : ℕ)
    → rezip (first_touching rs start).passed (first_touching rs start).ahead ≡ rs
unfolding first_touching
rezip-first_touching rs start =
    rezip-step_back start _ _ ∙ rezip-upper_bound start [] rs ∙ unfold rezip in refl
