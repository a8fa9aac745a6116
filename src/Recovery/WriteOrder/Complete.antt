-- ===== src/Recovery/WriteOrder/Complete.antt =====
-- `ordered_for_writing`: every winner once, under its place in device order, named artifacts first.
use data_recovery.Prelude.{
  ℕ, suc, ◌+◌, ◌%◌, ◌<◌, ◌≤◌, ◌≡◌, ◌⊎◌, refl, sym, ap, ◌∙◌, inl, inr, List, [], ◌∷◌, ◌++◌, true,
  false, some, length, length-append, get_elem?, All, All-map, All-append, All-both, Ordered, arith,
  Bool-cases,
}
use data_recovery.Core.SafeArith.{u64_max, u64_mod}
use data_recovery.Recovery.Candidate.{Candidate, CandidateSource, filesystem, carve}
use data_recovery.Recovery.Arbitration.{source_number}
use data_recovery.Recovery.WriteOrder.{
  OrderedWinner, same_source, of_source_from, of_source, ordered_for_writing,
}

-- A named artifact comes before a carved one, and each kind keeps device order.
abbrev pub Earlier : OrderedWinner → OrderedWinner → Type 0
Earlier a b =
    (source_number a.winner.source < source_number b.winner.source)
    ⊎ ((a.winner.source ≡ b.winner.source) × (a.ordinal < b.ordinal))

same_source_lem : (a b : CandidateSource) → same_source a b ≡ true → a ≡ b
unfolding same_source
same_source_lem filesystem filesystem e = refl
same_source_lem filesystem carve e = cc
same_source_lem carve filesystem e = cc
same_source_lem carve carve e = refl

-- An entry of the part of a list from the place `first` on.
abbrev IsEntry : ℕ → List Candidate → CandidateSource → OrderedWinner → Type 0
IsEntry first winners source entry =
    (i : ℕ) × (entry.ordinal ≡ first + i)
    × (get_elem? winners i ≡ some entry.winner)
    × (entry.winner.source ≡ source)

of_source_from-IsEntry :
    (first : ℕ) (winners : List Candidate) (source : CandidateSource)
    → first + length winners ≤ u64_max
    → All (IsEntry first winners source) (of_source_from first winners source)
      × Ordered (λ a b. a.ordinal < b.ordinal) (of_source_from first winners source)
unfolding of_source_from
of_source_from-IsEntry first [] source h = (tt, tt)
of_source_from-IsEntry first (winner ∷ winners) source h =
    let next : (first + 1) % u64_mod ≡ first + 1 = omega arith in
    let (entries, ordered) = of_source_from-IsEntry (first + 1) winners source (omega arith) in
    let later = of_source_from (first + 1) winners source in
    let shifted : All (IsEntry first (winner ∷ winners) source) later =
      All-map (IsEntry (first + 1) winners source) (IsEntry first (winner ∷ winners) source)
        (λ entry k. (suc k.0, omega (arith, k.1), k.2, k.3)) later entries in
    elim (Bool-cases (same_source winner.source source)) [
      | inl mine ↦
          rw (next, mine)
            (
              ((0, omega arith, refl, same_source_lem winner.source source mine), shifted),
              (
                All-map (IsEntry (first + 1) winners source) (λ entry. first < entry.ordinal)
                    (λ entry k. omega (arith, k.1)) later entries,
                ordered,
              ),
            )
      | inr other ↦ rw (next, other) (shifted, ordered)
    ]

one_source :
    (s : CandidateSource)
    → ((same_source s filesystem ≡ true) × (same_source s carve ≡ false))
      ⊎ ((same_source s filesystem ≡ false) × (same_source s carve ≡ true))
unfolding same_source
one_source filesystem = inl (refl, refl)
one_source carve = inr (refl, refl)

length-of_source_from :
    (first : ℕ) (winners : List Candidate)
    → length (of_source_from first winners filesystem) + length (of_source_from first winners carve)
      ≡ length winners
unfolding of_source_from
length-of_source_from first [] = omega arith
length-of_source_from first (winner ∷ winners) =
    let rest = length-of_source_from ((first + 1) % u64_mod) winners in
    elim (one_source winner.source) [
      | inl (mine, other) ↦ rw (mine, other) (omega (arith, rest))
      | inr (other, mine) ↦ rw (other, mine) (omega (arith, rest))
    ]

Ordered-append :
    (R : OrderedWinner → OrderedWinner → Type 0) (xs ys : List OrderedWinner)
    → Ordered R xs
    → Ordered R ys
    → All (λ x. All (R x) ys) xs
    → Ordered R (xs ++ ys)
Ordered-append R [] ys h k between = k
Ordered-append R (x ∷ xs) ys h k between =
    (All-append (R x) xs ys h.0 between.0, Ordered-append R xs ys h.1 k between.1)

-- Of one source, the order of the ordinals is that of the entries.
Ordered-source :
    (winners : List Candidate) (source : CandidateSource) (entries : List OrderedWinner)
    → All (IsEntry 0 winners source) entries
    → Ordered (λ a b. a.ordinal < b.ordinal) entries
    → Ordered Earlier entries
Ordered-source winners source [] h k = tt
Ordered-source winners source (e ∷ entries) h k = (
  All-map _ (Earlier e)
      (λ d (both : IsEntry 0 winners source d × (e.ordinal < d.ordinal)).
        inr (h.0.3 ∙ sym both.0.3, both.1))
      entries (All-both (IsEntry 0 winners source) (λ d. e.ordinal < d.ordinal) entries h.1 k.0),
  Ordered-source winners source entries h.1 k.1,
)

stands :
    (winners : List Candidate) (source : CandidateSource) (entry : OrderedWinner)
    → IsEntry 0 winners source entry
    → get_elem? winners entry.ordinal ≡ some entry.winner
stands winners source entry k =
    ap (get_elem? winners) {x = entry.ordinal} {y = k.0} (omega (arith, k.1)) ∙ k.2

named_first :
    (winners : List Candidate) (a b : OrderedWinner)
    → IsEntry 0 winners filesystem a
    → IsEntry 0 winners carve b
    → Earlier a b
unfolding source_number
named_first winners a b k l = inl (rw (k.3, l.3) (omega arith))

-- For at most 2 ^ 64 - 1 winners: the entries are as many as the winners, each names the winner that
-- stands at its ordinal, and they come strictly in order, the artifacts of a filesystem before the
-- carved ones and each kind in device order. So every winner is written exactly once.
pub ordered_for_writing_complete :
    (winners : List Candidate)
    → length winners ≤ u64_max
    → (length (ordered_for_writing winners) ≡ length winners)
      × All
          (λ entry. get_elem? winners entry.ordinal ≡ some entry.winner)
          (ordered_for_writing winners)
      × Ordered Earlier (ordered_for_writing winners)
unfolding ordered_for_writing of_source
ordered_for_writing_complete winners h =
    let (named, named_order) = of_source_from-IsEntry 0 winners filesystem (omega arith) in
    let (carved, carved_order) = of_source_from-IsEntry 0 winners carve (omega arith) in
    let files = of_source_from 0 winners filesystem in
    let carves = of_source_from 0 winners carve in
    (
      omega (arith, length-append files carves, length-of_source_from 0 winners),
      All-append (λ entry. get_elem? winners entry.ordinal ≡ some entry.winner) files carves
          (All-map (IsEntry 0 winners filesystem) _ (λ entry k. stands winners filesystem entry k)
            files named)
          (All-map (IsEntry 0 winners carve) _ (λ entry k. stands winners carve entry k) carves
            carved),
      Ordered-append Earlier files carves
          (Ordered-source winners filesystem files named named_order)
          (Ordered-source winners carve carves carved carved_order)
          (All-map (IsEntry 0 winners filesystem) _
            (λ a k.
              All-map (IsEntry 0 winners carve) (Earlier a) (λ b l. named_first winners a b k l)
                carves carved)
            files named),
    )
