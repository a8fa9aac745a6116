-- ===== src/Recovery/Damage/Sharing.antt =====
-- `invented_in`: the bytes it lists are those that the file and the damage share.
use data_recovery.Prelude.{
  ℕ, ◌≤◌, ◌≡◌, refl, ◌∙◌, max, min, List, [], ◌∷◌, ◌++◌, Bool, false, ◌&&◌, ◌||◌, leb, arith, All,
  Bool-cases, inl, inr,
}
use data_recovery.Core.SafeArith.{saturating_add64, u64_max}
use data_recovery.Fs.Types.{Extent, within}
use data_recovery.Recovery.RegionSet.{Span}
use data_recovery.Core.Io.BadRange.{BadRange}
use data_recovery.Recovery.Damage.{
  placed_on, span_of, overlap, with_shared, overlaps_in, invented_in,
}

-- Whether some range of the list holds the device's byte `x`.
unfoldable pub damaged : List BadRange → ℕ → Bool
damaged [] x = false
damaged (r ∷ rs) x =
    within r.offset_bytes (saturating_add64 r.offset_bytes r.length_bytes) x || damaged rs x

-- Whether some extent of a volume that begins at `start_bytes` holds the device's byte `x`.
unfoldable pub holds_at : ℕ → List Extent → ℕ → Bool
holds_at start_bytes [] x = false
holds_at start_bytes (e ∷ es) x =
    within (saturating_add64 start_bytes e.device_offset)
      (saturating_add64 (saturating_add64 start_bytes e.device_offset) e.length_bytes) x
    || holds_at start_bytes es x

damaged-append :
    (rs ss : List BadRange) (x : ℕ) → damaged (rs ++ ss) x ≡ (damaged rs x || damaged ss x)
unfolding damaged
damaged-append [] ss x = refl
damaged-append (r ∷ rs) ss x = ground (arith, damaged-append rs ss x)

damaged-overlap :
    (s d : Span) (x : ℕ) (found : List BadRange)
    → d.finish ≤ u64_max
    → damaged (with_shared (overlap s d) found) x
      ≡ ((within s.start s.finish x && within d.start d.finish x) || damaged found x)
unfolding damaged overlap saturating_add64
damaged-overlap s d x found fits =
    elim (Bool-cases (leb (min s.finish d.finish) (max s.start d.start))) [
      | inl apart ↦ rw apart (ground arith)
      | inr shared ↦ rw shared (ground arith)
    ]

saturating_add64-le : (a b : ℕ) → a ≤ u64_max → saturating_add64 a b ≤ u64_max
unfolding saturating_add64
saturating_add64-le a b h = ground arith

damaged-overlaps_in :
    (s : Span) (damage : List BadRange) (x : ℕ)
    → All (λ r. r.offset_bytes ≤ u64_max) damage
    → damaged (overlaps_in s damage) x ≡ (within s.start s.finish x && damaged damage x)
unfolding overlaps_in damaged span_of
damaged-overlaps_in s [] x fits = ground arith
damaged-overlaps_in s (r ∷ rs) x (f, fs) =
    damaged-overlap s (span_of r) x (overlaps_in s rs)
      (saturating_add64-le r.offset_bytes r.length_bytes f)
    ∙ ground (arith, damaged-overlaps_in s rs x fs)

-- A byte of the device is listed as made up exactly if the file holds it and it could not be read,
-- for damaged ranges whose offsets are 64-bit numbers.
pub damaged-invented_in :
    (extents : List Extent) (damage : List BadRange) (start_bytes x : ℕ)
    → All (λ r. r.offset_bytes ≤ u64_max) damage
    → damaged (invented_in extents damage start_bytes) x
      ≡ (holds_at start_bytes extents x && damaged damage x)
unfolding invented_in holds_at placed_on
damaged-invented_in [] damage start_bytes x fits = unfold damaged in refl
damaged-invented_in (e ∷ es) damage start_bytes x fits =
    damaged-append (overlaps_in (placed_on e start_bytes) damage)
      (invented_in es damage start_bytes) x
    ∙ ground (
      arith,
      damaged-overlaps_in (placed_on e start_bytes) damage x fits,
      damaged-invented_in es damage start_bytes x fits,
    )
