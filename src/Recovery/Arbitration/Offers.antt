-- ===== src/Recovery/Arbitration/Offers.antt =====
-- Offering candidates one by one: what the winners hold is claimed, and each candidate is judged.
use data_recovery.Prelude.{
  ℕ, ◌≡◌, inl, inr, refl, ◌∙◌, List, [], ◌∷◌, ◌++◌, Bool, true, false, ◌&&◌, ◌||◌, arith,
  Bool-cases, All,
}
use mathlib.Core.List.{Memᴰ}
use data_recovery.Prelude.Sorting.{NotAfter}
use data_recovery.Fs.Types.{Extent, rejected, within}
use data_recovery.Recovery.RegionSet.{Regions, end_of, overlaps, add}
use data_recovery.Recovery.RegionSet.Fused.{claims, IsFused}
use data_recovery.Recovery.RegionSet.Add.{add-IsFused, claims-add}
use data_recovery.Recovery.RegionSet.Overlaps.{overlaps_iff}
use data_recovery.Recovery.Candidate.{Candidate, holds, IsPlaced}
use data_recovery.Recovery.Arbitration.{is_blocked, claim_all, ranks_before}

pub claim_all-IsFused :
    (m : Regions) (es : List Extent) → IsFused m → IsPlaced es → IsFused (claim_all m es)
unfolding claim_all
claim_all-IsFused m [] f p = f
claim_all-IsFused m (e ∷ es) f p = claim_all-IsFused (add e m) es (add-IsFused e m (p.0).0 f) p.1

pub claims-claim_all :
    (m : Regions) (es : List Extent) (x : ℕ)
    → IsFused m
    → IsPlaced es
    → claims (claim_all m es) x ≡ (claims m x || holds es x)
unfolding claim_all holds
claims-claim_all m [] x f p = ground arith
claims-claim_all m (e ∷ es) x f p =
    claims-claim_all (add e m) es x (add-IsFused e m (p.0).0 f) p.1
    ∙ ground (arith, claims-add e m x (p.0).0 f)

-- A blocked candidate shares a byte with what is claimed; one that is not blocked shares none.
pub is_blocked_sound :
    (m : Regions) (es : List Extent)
    → IsFused m
    → IsPlaced es
    → is_blocked m es ≡ true
    → (x : ℕ) × (claims m x ≡ true) × (holds es x ≡ true)
unfolding is_blocked holds
is_blocked_sound m [] f p e = cc
is_blocked_sound m (x ∷ es) f p e = elim (Bool-cases (overlaps m x)) [
  | inl hit ↦
      let (b, held, inside) = (overlaps_iff x m f (p.0).0 (p.0).1).0 hit in (b, held, ground arith)
  | inr clear ↦
      let (b, held, inside) = is_blocked_sound m es f p.1 (ground arith) in (b, held, ground arith)
]

pub is_blocked_complete :
    (m : Regions) (es : List Extent) (b : ℕ)
    → IsFused m
    → IsPlaced es
    → holds es b ≡ true
    → claims m b ≡ true
    → is_blocked m es ≡ true
unfolding is_blocked holds
is_blocked_complete m [] b f p e h = cc
is_blocked_complete m (x ∷ es) b f p e h = elim (Bool-cases (within x.device_offset (end_of x) b)) [
  | inl here ↦ ground (arith, (overlaps_iff x m f (p.0).0 (p.0).1).1 (b, h, here))
  | inr there ↦ ground (arith, is_blocked_complete m es b f p.1 (ground arith) h)
]

-- Whether some candidate of the list holds the byte `x`.
unfoldable pub any_holds : List Candidate → ℕ → Bool
any_holds [] x = false
any_holds (c ∷ cs) x = holds c.extents x || any_holds cs x

pub any_holds-append :
    (cs : List Candidate) (c : Candidate) (x : ℕ)
    → any_holds (cs ++ (c ∷ [])) x ≡ (any_holds cs x || holds c.extents x)
unfolding any_holds
any_holds-append [] c x = ground arith
any_holds-append (d ∷ cs) c x = ground (arith, any_holds-append cs c x)

-- Two candidates that have a byte in common; and two that have none.
abbrev pub Shares : Candidate → Candidate → Type 0
Shares c d = (x : ℕ) × (holds c.extents x ≡ true) × (holds d.extents x ≡ true)

abbrev pub Apart : Candidate → Candidate → Type 0
Apart c d = (x : ℕ) → (holds c.extents x && holds d.extents x) ≡ false

-- Why a candidate is where it is: it won, it was rejected by its own validation, or a winner that
-- ranks no later holds one of its bytes.
pub data Verdict (winners : List Candidate) (c : Candidate) : Type 0 where
  won : Memᴰ c winners → Verdict winners c
  refused : c.confidence ≡ rejected → Verdict winners c
  displaced :
      (w : Candidate) → Memᴰ w winners → NotAfter ranks_before w c → Shares w c → Verdict winners c

pub Verdict-map :
    {ws vs : List Candidate} {c : Candidate}
    → ((w : Candidate) → Memᴰ w ws → Memᴰ w vs)
    → Verdict ws c
    → Verdict vs c
Verdict-map f (won m) = won (f _ m)
Verdict-map f (refused e) = refused e
Verdict-map f (displaced w m n s) = displaced w (f w m) n s

pub holder :
    (ws : List Candidate) (x : ℕ)
    → any_holds ws x ≡ true
    → (w : Candidate) × (Memᴰ w ws) × (holds w.extents x ≡ true)
unfolding any_holds
holder [] x e = cc
holder (c ∷ cs) x e = elim (Bool-cases (holds c.extents x)) [
  | inl here ↦ (c, Memᴰ.head refl, here)
  | inr there ↦ let (w, m, h) = holder cs x (ground arith) in (w, Memᴰ.tail m, h)
]

pub not_holder :
    (ws : List Candidate) (x : ℕ) → any_holds ws x ≡ false → All (λ w. holds w.extents x ≡ false) ws
unfolding any_holds
not_holder [] x e = tt
not_holder (c ∷ cs) x e = (ground arith, not_holder cs x (ground arith))
