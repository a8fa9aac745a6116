-- ===== src/Recovery/Arbitration/Invariant.antt =====
-- The loop of `arbitrate`: what holds after some candidates were offered, and that one more keeps it.
use data_recovery.Prelude.{
  ℕ, ◌+◌, ◌%◌, ◌<◌, ◌≤◌, ◌≡◌, inl, inr, refl, sym, ◌∙◌, List, [], ◌∷◌, ◌++◌, true, false, ◌||◌,
  arith, Bool-cases, All, All-map, All-append, All-mem, All-of_mem, Ordered, Ordered-append_last,
  length, length-append, length-perm, perm-symm, ◌⊎◌, mem-append_left, mem-append_right,
}
use mathlib.Core.List.{Memᴰ, Permᴰ, append_assoc}
use mathlib.Core.List.Permᴰ
use data_recovery.Prelude.Sorting.{NotAfter}
use data_recovery.Core.SafeArith.{u64_max, u64_mod}
use data_recovery.Fs.Types.{Confidence, rejected}
use data_recovery.Recovery.RegionSet.Fused.{claims, IsFused}
use data_recovery.Recovery.Candidate.{Candidate, holds, IsPlaced}
use data_recovery.Recovery.Arbitration.{
  is_blocked, is_rejected, Offered, accept_or_suppress, ranks_before,
}
use data_recovery.Recovery.Arbitration.Offers.{
  claim_all-IsFused, claims-claim_all, is_blocked_sound, is_blocked_complete, any_holds,
  any_holds-append, Apart, Shares, Verdict, won, refused, displaced, Verdict-map, holder,
  not_holder,
}

-- Why a candidate was passed over: its own validation rejected it, or a winner that ranks no later
-- holds one of its bytes.
abbrev pub Loss : List Candidate → Candidate → Type 0
Loss winners c =
    (c.confidence ≡ rejected)
    ⊎ ((w : Candidate) × Memᴰ w winners × NotAfter ranks_before w c × Shares w c)

pub Loss-map :
    {ws vs : List Candidate} (c : Candidate)
    → ((w : Candidate) → Memᴰ w ws → Memᴰ w vs)
    → Loss ws c
    → Loss vs c
Loss-map c f (inl e) = inl e
Loss-map c f (inr (w, m, n, s)) = inr (w, f w m, n, s)

Verdict-of : (ws : List Candidate) (c : Candidate) → Loss ws c → Verdict ws c
Verdict-of ws c (inl e) = refused e
Verdict-of ws c (inr (w, m, n, s)) = displaced w m n s

-- One more candidate, put between the two parts.
perm-append_between :
    {seen : List Candidate} (ws ps : List Candidate) (c : Candidate)
    → Permᴰ seen (ws ++ ps)
    → Permᴰ (seen ++ (c ∷ [])) (ws ++ (c ∷ ps))
perm-append_between {seen} ws ps c p =
    Permᴰ.trans (Permᴰ.append_comm seen (c ∷ []))
      (Permᴰ.trans (Permᴰ.cons refl p) (perm-symm (Permᴰ.middle c ws ps)))

-- The state after the candidates of `seen` were offered; `passed` are those that did not win.
pub record IsOffered (seen : List Candidate) (o : Offered) : Type 0 where
  pub fused : IsFused o.claimed
  pub exact : (x : ℕ) → claims o.claimed x ≡ any_holds o.result.winners x
  pub disjoint : Ordered Apart o.result.winners
  pub passed : List Candidate
  pub divided : Permᴰ seen (o.result.winners ++ passed)
  pub counted : length passed ≡ o.result.suppressed
  pub lost : All (Loss o.result.winners) passed
  pub judged : All (Verdict o.result.winners) seen
  pub drawn : All (λ w. Memᴰ w seen) o.result.winners
  pub trusted : All (λ w. is_rejected w.confidence ≡ false) o.result.winners

rejected_cases : (c : Confidence) → is_rejected c ≡ true → c ≡ rejected
unfolding is_rejected
rejected_cases c e = ground arith

module _ (seen : List Candidate) (o : Offered) (c : Candidate) (inv : IsOffered seen o)
    (placed : IsPlaced c.extents) (small : length seen < u64_max)
    (earlier : All (λ w. NotAfter ranks_before w c) o.result.winners) where
  drawn_later : All (λ w. Memᴰ w (seen ++ (c ∷ []))) o.result.winners
  drawn_later = All-map _ _ (λ w m. mem-append_left seen (c ∷ []) m) o.result.winners inv.drawn

  passed_length : (length inv.passed ≡ o.result.suppressed) × (o.result.suppressed ≤ length seen)
  passed_length =
      omega (arith, inv.counted, length-perm inv.divided, length-append o.result.winners inv.passed)

  suppress-IsOffered :
      Loss o.result.winners c
      → IsOffered (seen ++ (c ∷ [])) (record o {
        result = record {
          winners = o.result.winners;
          suppressed = (o.result.suppressed + 1) % u64_mod;
        };
      })
  suppress-IsOffered l = record {
    fused = inv.fused;
    exact = inv.exact;
    disjoint = inv.disjoint;
    passed = c ∷ inv.passed;
    divided = perm-append_between o.result.winners inv.passed c inv.divided;
    counted = omega (arith, passed_length);
    lost = (l, inv.lost);
    judged = All-append _ seen (c ∷ []) inv.judged (Verdict-of _ c l, tt);
    drawn = drawn_later;
    trusted = inv.trusted;
  }

  blocked-Loss : is_blocked o.claimed c.extents ≡ true → Loss o.result.winners c
  blocked-Loss e =
      let (x, held, mine) = is_blocked_sound o.claimed c.extents inv.fused placed e in
      let (w, m, theirs) = holder o.result.winners x (sym (inv.exact x) ∙ held) in
      inr (w, m, All-mem _ o.result.winners earlier m, (x, theirs, mine))

  unheld :
      is_blocked o.claimed c.extents ≡ false
      → (x : ℕ) → holds c.extents x ≡ true
      → any_holds o.result.winners x ≡ false
  unheld e x h = elim (Bool-cases (any_holds o.result.winners x)) [
    | inl held ↦
        cc (is_blocked_complete o.claimed c.extents x inv.fused placed h (inv.exact x ∙ held))
    | inr free ↦ free
  ]

  Apart-from_All : is_blocked o.claimed c.extents ≡ false → All (λ w. Apart w c) o.result.winners
  Apart-from_All e = All-of_mem _ o.result.winners λ w m x. elim (Bool-cases (holds c.extents x)) [
    | inl mine ↦
        let theirs =
          All-mem _ o.result.winners (not_holder o.result.winners x (unheld e x mine)) m in
        rw (mine, theirs)
    | inr free ↦ ground arith
  ]

  accept-IsOffered :
      is_blocked o.claimed c.extents ≡ false
      → is_rejected c.confidence ≡ false
      → IsOffered (seen ++ (c ∷ [])) (accept_or_suppress o c)
  unfolding accept_or_suppress
  accept-IsOffered e r =
      rw (e, r)
        (record {
          fused = claim_all-IsFused o.claimed c.extents inv.fused placed;
          exact = λ x.
              claims-claim_all o.claimed c.extents x inv.fused placed
              ∙ rw (inv.exact x) (sym (any_holds-append o.result.winners c x));
          disjoint = Ordered-append_last Apart o.result.winners c inv.disjoint (Apart-from_All e);
          passed = inv.passed;
          divided =
              rw (append_assoc o.result.winners (c ∷ []) inv.passed)
                (perm-append_between o.result.winners inv.passed c inv.divided);
          counted = inv.counted;
          lost =
              All-map _ _ (λ d l. Loss-map d (λ w m. mem-append_left o.result.winners (c ∷ []) m) l)
                inv.passed inv.lost;
          judged =
              All-append _ seen (c ∷ [])
                (All-map _ _
                  (λ d v. Verdict-map (λ w m. mem-append_left o.result.winners (c ∷ []) m) v) seen
                  inv.judged)
                (won (mem-append_right o.result.winners (Memᴰ.head refl)), tt);
          drawn =
              All-append _ o.result.winners (c ∷ []) drawn_later
                (mem-append_right seen (Memᴰ.head refl), tt);
          trusted = All-append _ o.result.winners (c ∷ []) inv.trusted (r, tt);
        })

  pub offer-IsOffered : IsOffered (seen ++ (c ∷ [])) (accept_or_suppress o c)
  offer-IsOffered = elim (Bool-cases (is_rejected c.confidence)) [
    | inl r ↦ unfold accept_or_suppress in rw r (suppress-IsOffered (inl (rejected_cases _ r)))
    | inr r ↦ elim (Bool-cases (is_blocked o.claimed c.extents)) [
      | inl e ↦ unfold accept_or_suppress in rw (r, e) (suppress-IsOffered (blocked-Loss e))
      | inr e ↦ accept-IsOffered e r
    ]
  ]

  -- Whoever has won by then ranks no later than the candidates that follow.
  pub earlier_next :
      (d : Candidate)
      → NotAfter ranks_before c d
      → All (λ w. NotAfter ranks_before w d) o.result.winners
      → All (λ w. NotAfter ranks_before w d) (accept_or_suppress o c).result.winners
  unfolding accept_or_suppress
  earlier_next d h k =
      elim (Bool-cases (is_rejected c.confidence || is_blocked o.claimed c.extents)) [
        | inl out ↦ rw out k
        | inr stays ↦ rw stays (All-append _ o.result.winners (c ∷ []) k (h, tt))
      ]
