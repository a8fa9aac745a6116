-- ===== src/Recovery/Arbitration/Outcome.antt =====
-- `arbitrate` as a whole: what a run decides, for candidates whose extents are not empty and do
-- not begin at the last 64-bit address.
use data_recovery.Prelude.{
  ℕ, ◌+◌, ◌≤◌, ◌≡◌, ◌⊎◌, inl, inr, refl, sym, ◌∙◌, ap, List, [], ◌∷◌, ◌++◌, true, false, arith, All,
  All-map, All-mem, All-of_mem, All-perm, All-both, Ordered, Ordered-perm, length, length-append,
  length-perm, mem-perm, perm-symm, Ordered-map,
}
use mathlib.Core.List.{Memᴰ, Permᴰ, append_assoc, append-nil}
use mathlib.Core.List.Permᴰ
use data_recovery.Prelude.Sorting.{Sorting, NotAfter}
use data_recovery.Core.SafeArith.{u64_max}
use data_recovery.Fs.Types.{Extent, Confidence, rejected}
use data_recovery.Recovery.RegionSet.Fused.{claims}
use data_recovery.Recovery.Candidate.{Candidate, filesystem, holds, IsPlaced}
use data_recovery.Recovery.Arbitration.{
  is_rejected, Offered, none_offered, accept_or_suppress, offer_all, ranks_before, starts_before,
  start_of, arbitrate,
}
use data_recovery.Recovery.Arbitration.Ranking.{
  ranks_before-IsWeakOrder, starts_before-IsWeakOrder, filesystem_first,
}
use data_recovery.Recovery.Arbitration.Offers.{
  any_holds, Shares, Apart, Verdict, won, refused, displaced, Verdict-map,
}
use data_recovery.Recovery.Arbitration.Invariant.{
  Loss, Loss-map, IsOffered, offer-IsOffered, earlier_next,
}

-- The candidates that follow come in rank order after those seen.
offer_all-IsOffered :
    (seen rest : List Candidate) (o : Offered)
    → IsOffered seen o
    → All (λ c. IsPlaced c.extents) rest
    → length seen + length rest ≤ u64_max
    → Ordered (NotAfter ranks_before) rest
    → All (λ c. All (λ w. NotAfter ranks_before w c) o.result.winners) rest
    → IsOffered (seen ++ rest) (offer_all o rest)
unfolding offer_all
offer_all-IsOffered seen [] o inv p small ord k = rw (append-nil seen) inv
offer_all-IsOffered seen (c ∷ rest) o inv p small ord k =
    let next = offer-IsOffered seen o c inv p.0 (omega arith) k.0 in
    rw (append_assoc seen (c ∷ []) rest) at (
      offer_all-IsOffered (seen ++ (c ∷ [])) rest (accept_or_suppress o c) next p.1
        (omega (arith, length-append seen (c ∷ []))) ord.1 (later rest ord.0 k.1))
  where
    later :
        (ds : List Candidate)
        → All (NotAfter ranks_before c) ds
        → All (λ d. All (λ w. NotAfter ranks_before w d) o.result.winners) ds
        → All (λ d. All (λ w. NotAfter ranks_before w d) (accept_or_suppress o c).result.winners) ds
    later [] h j = tt
    later (d ∷ ds) h j =
        (earlier_next seen o c inv p.0 (omega arith) k.0 d h.0 j.0, later ds h.1 j.1)

All-none : (ds : List Candidate) → All (λ d. All (λ w. NotAfter ranks_before w d) []) ds
All-none [] = tt
All-none (d ∷ ds) = (tt, All-none ds)

none_offered-IsOffered : IsOffered [] none_offered
unfolding claims any_holds
none_offered-IsOffered = record {
  fused = tt;
  exact = λ x. refl;
  disjoint = tt;
  passed = [];
  divided = Permᴰ.nil;
  counted = refl;
  lost = tt;
  judged = tt;
  drawn = tt;
  trusted = tt;
}

Apart-symmetric : (c d : Candidate) → Apart c d → Apart d c
Apart-symmetric c d apart x = ground (arith, apart x)

not_rejected : (c : Confidence) → is_rejected c ≡ false → ¬ (c ≡ rejected)
unfolding is_rejected
not_rejected c r e = ground arith

nothing_held : (x : ℕ) → ¬ (holds [] x ≡ true)
unfolding holds
nothing_held x h = cc

not_before : (a b : Candidate) → NotAfter starts_before a b → start_of a ≤ start_of b
not_before a b h = ground arith

module _ (sorting : Sorting Candidate) (candidates : List Candidate)
    (placed : All (λ c. IsPlaced c.extents) candidates) (small : length candidates ≤ u64_max) where
  abbrev ranked : List Candidate
  ranked = sorting.sort ranks_before candidates

  abbrev offered : Offered
  offered = offer_all none_offered ranked

  offered-IsOffered : IsOffered ranked offered
  offered-IsOffered =
      offer_all-IsOffered [] ranked none_offered none_offered-IsOffered
        (All-perm _ (sorting.sort-perm ranks_before candidates) placed)
        (omega (arith, length-perm (sorting.sort-perm ranks_before candidates)))
        (sorting.sort-Ordered ranks_before candidates ranks_before-IsWeakOrder) (All-none ranked)

  -- No byte of the device is held by two winners. As in all of this section, every candidate's
  -- extents are placed, and there are at most 2 ^ 64 - 1 candidates.
  pub winners_disjoint : Ordered Apart (arbitrate sorting candidates).winners
  unfolding arbitrate
  winners_disjoint =
      Ordered-perm Apart Apart-symmetric (sorting.sort-perm starts_before offered.result.winners)
        offered-IsOffered.disjoint

  -- The candidates are the winners and the losers, each once; `suppressed` is the number of losers;
  -- and there is a reason for each loss. This is for candidates whose extents are placed and at most
  -- 2 ^ 64 - 1 candidates.
  pub losers_counted :
      (losers : List Candidate) × Permᴰ candidates
        ((arbitrate sorting candidates).winners ++ losers)
      × (length losers ≡ (arbitrate sorting candidates).suppressed)
      × All (Loss (arbitrate sorting candidates).winners) losers
  unfolding arbitrate
  losers_counted =
      let in_order = sorting.sort-perm starts_before offered.result.winners in
      let inv = offered-IsOffered in
      (
        inv.passed,
        Permᴰ.trans (sorting.sort-perm ranks_before candidates)
            (Permᴰ.trans inv.divided (Permᴰ.append_right inv.passed in_order)),
        inv.counted,
        All-map _ _ (λ c l. Loss-map c (λ w m. mem-perm in_order m) l) inv.passed inv.lost,
      )

  -- Every candidate wins, or is rejected by its own validation, or shares a byte with a winner that
  -- it does not outrank, for candidates whose extents are placed and at
  -- most 2 ^ 64 - 1 candidates.
  pub candidates_judged : All (Verdict (arbitrate sorting candidates).winners) candidates
  unfolding arbitrate
  candidates_judged = All-of_mem _ candidates λ c m.
      Verdict-map (λ w n. mem-perm (sorting.sort-perm starts_before offered.result.winners) n)
        (All-mem _ ranked offered-IsOffered.judged
          (mem-perm (sorting.sort-perm ranks_before candidates) m))

  -- The winners are candidates that their own validation did not reject,
  -- for candidates whose extents are placed and at
  -- most 2 ^ 64 - 1 candidates.
  pub winners_drawn :
      All
        (λ w. Memᴰ w candidates × (is_rejected w.confidence ≡ false))
        (arbitrate sorting candidates).winners
  unfolding arbitrate
  winners_drawn = All-perm _ (sorting.sort-perm starts_before offered.result.winners) (
      All-both _ _ offered.result.winners
        (All-map _ _ (λ w m. mem-perm (perm-symm (sorting.sort-perm ranks_before candidates)) m)
          offered.result.winners offered-IsOffered.drawn)
        offered-IsOffered.trusted)

  -- The winners come in device order, for candidates whose extents are placed and at
  -- most 2 ^ 64 - 1 candidates.
  pub winners_in_order :
      Ordered (λ a b. start_of a ≤ start_of b) (arbitrate sorting candidates).winners
  unfolding arbitrate
  winners_in_order =
      Ordered-map _ _ (λ a b h. not_before a b h) _
        (sorting.sort-Ordered starts_before offered.result.winners starts_before-IsWeakOrder)

  -- A filesystem entry that is not rejected either wins, or a filesystem entry that holds one of
  -- its bytes does: a carved candidate never displaces it. This is
  -- for candidates whose extents are placed and at
  -- most 2 ^ 64 - 1 candidates.
  pub filesystem_displaced :
      (c : Candidate)
      → Memᴰ c candidates
      → c.source ≡ filesystem
      → is_rejected c.confidence ≡ false
      → Memᴰ c (arbitrate sorting candidates).winners
        ⊎ ((w : Candidate) × Memᴰ w (arbitrate sorting candidates).winners
            × (w.source ≡ filesystem)
            × Shares w c)
  filesystem_displaced c m s r = elim (All-mem _ candidates candidates_judged m) [
    | won n ↦ inl n
    | refused e ↦ absurd (not_rejected c.confidence r e)
    | displaced w n later shared ↦ inr (w, n, filesystem_first w c later s, shared)
  ]

  -- A candidate with no extent on the device, which is not rejected, always wins, among candidates
  -- whose extents are placed and which are at most 2 ^ 64 - 1.
  pub resident_wins :
      (c : Candidate)
      → Memᴰ c candidates
      → c.extents ≡ []
      → is_rejected c.confidence ≡ false
      → Memᴰ c (arbitrate sorting candidates).winners
  resident_wins c m e r = elim (All-mem _ candidates candidates_judged m) [
    | won n ↦ n
    | refused h ↦ absurd (not_rejected c.confidence r h)
    | displaced w n later (x, theirs, mine) ↦
        absurd (nothing_held x (ap (λ (es : List Extent). holds es x) (sym e) ∙ mine))
  ]

  -- The candidates, taken together, are the winners and the losers, each candidate as often as it
  -- was given. `suppressed` is the number of losers, and a loser was rejected by its own validation
  -- or shares a byte with a winner that it does not outrank. No winner was rejected by its own
  -- validation, and the winners come in device order. This is for candidates whose extents are
  -- placed and at most 2 ^ 64 - 1 candidates.
  pub winners_accounted :
      ((losers : List Candidate) × Permᴰ candidates
          ((arbitrate sorting candidates).winners ++ losers)
        × (length losers ≡ (arbitrate sorting candidates).suppressed)
        × All (Loss (arbitrate sorting candidates).winners) losers)
      × All
          (λ w. Memᴰ w candidates × (is_rejected w.confidence ≡ false))
          (arbitrate sorting candidates).winners
      × Ordered (λ a b. start_of a ≤ start_of b) (arbitrate sorting candidates).winners
  winners_accounted = (losers_counted, winners_drawn, winners_in_order)
