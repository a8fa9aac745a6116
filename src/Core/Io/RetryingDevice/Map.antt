-- ===== src/Core/Io/RetryingDevice/Map.antt =====
-- `record_bad`: the map is a set of damaged ranges in offset order, no two of them touching.
use data_recovery.Prelude.{
  ℕ, ◌+◌, ◌<◌, ◌≤◌, ◌≡◌, refl, ◌∙◌, inl, inr, List, [], ◌∷◌, Bool, false, ◌&&◌, ◌||◌, ltb, leb, All,
  All-map, All-both, Ordered, Ordered-map, arith, Bool-cases,
}
use data_recovery.Core.SafeArith.{u64_max}
use data_recovery.Core.Io.BadRange.{BadRange}
use data_recovery.Core.Io.RetryingDevice.{
  end_of, insert_bad, joined, merge_one, merge_all, coalesce, record_bad,
}

abbrev pub Fits : BadRange → Type 0
Fits range = range.offset_bytes + range.length_bytes ≤ u64_max

-- The second range begins past the end of the first, and does not touch it.
abbrev pub Before : BadRange → BadRange → Type 0
Before a c = a.offset_bytes + a.length_bytes < c.offset_bytes

abbrev pub IsMap : List BadRange → Type 0
IsMap bad = All Fits bad × Ordered Before bad

-- Whether the byte `x` lies in the range; whether it lies in one of them.
abbrev pub lost_in : BadRange → ℕ → Bool
lost_in range x = leb range.offset_bytes x && ltb x (range.offset_bytes + range.length_bytes)

abbrev pub lost : List BadRange → ℕ → Bool
lost [] x = false
lost (range ∷ bad) x = lost_in range x || lost bad x

end_of_lem :
    (range : BadRange) → Fits range → end_of range ≡ range.offset_bytes + range.length_bytes
unfolding end_of
end_of_lem range h = omega (arith, h)

-- Sorted ranges, each within 64 bits.
abbrev IsSorted : List BadRange → Type 0
IsSorted bad = All Fits bad × Ordered (λ a c. a.offset_bytes ≤ c.offset_bytes) bad

All-insert_bad :
    (P : BadRange → Type 0) (range : BadRange) (bad : List BadRange)
    → P range
    → All P bad
    → All P (insert_bad range bad)
unfolding insert_bad
All-insert_bad P range [] h k = (h, tt)
All-insert_bad P range (b ∷ bad) h k = elim (Bool-cases (ltb range.offset_bytes b.offset_bytes)) [
  | inl here ↦ rw here (h, k)
  | inr there ↦ rw there (k.0, All-insert_bad P range bad h k.1)
]

All-le :
    (a c : ℕ) (bad : List BadRange)
    → a ≤ c
    → All (λ b. c ≤ b.offset_bytes) bad
    → All (λ b. a ≤ b.offset_bytes) bad
All-le a c bad h =
    All-map (λ (b : BadRange). c ≤ b.offset_bytes) (λ (b : BadRange). a ≤ b.offset_bytes)
      (λ b k. omega arith) bad

Ordered-insert_bad :
    (range : BadRange) (bad : List BadRange)
    → Ordered (λ a c. a.offset_bytes ≤ c.offset_bytes) bad
    → Ordered (λ a c. a.offset_bytes ≤ c.offset_bytes) (insert_bad range bad)
unfolding insert_bad
Ordered-insert_bad range [] h = (tt, tt)
Ordered-insert_bad range (b ∷ bad) h = elim (Bool-cases (ltb range.offset_bytes b.offset_bytes)) [
  | inl here ↦
      let below : range.offset_bytes ≤ b.offset_bytes = ground (arith, here) in
      rw here ((below, All-le range.offset_bytes b.offset_bytes bad below h.0), h)
  | inr there ↦ rw there (
    All-insert_bad (λ c. b.offset_bytes ≤ c.offset_bytes) range bad (ground (arith, there)) h.0,
    Ordered-insert_bad range bad h.1,
  )
]

lost-insert_bad :
    (range : BadRange) (bad : List BadRange) (x : ℕ)
    → lost (insert_bad range bad) x ≡ (lost_in range x || lost bad x)
unfolding insert_bad
lost-insert_bad range [] x = refl
lost-insert_bad range (b ∷ bad) x = elim (Bool-cases (ltb range.offset_bytes b.offset_bytes)) [
  | inl here ↦ rw here refl
  | inr there ↦ rw (there, lost-insert_bad range bad x) (ground arith)
]

-- A property of offsets passes through a merge.
All-merge_one :
    (P : ℕ → Type 0) (merged : List BadRange) (one : BadRange)
    → All (λ b. P b.offset_bytes) merged
    → P one.offset_bytes
    → All (λ b. P b.offset_bytes) (merge_one merged one)
unfolding merge_one joined
All-merge_one P [] one h k = (k, tt)
All-merge_one P (last ∷ []) one h k = elim (Bool-cases (leb one.offset_bytes (end_of last))) [
  | inl touches ↦ rw touches (h.0, tt)
  | inr apart ↦ rw apart (h.0, (k, tt))
]
All-merge_one P (first ∷ second ∷ merged) one h k =
    (h.0, All-merge_one P (second ∷ merged) one h.1 k)

merge_one-IsMap :
    (merged : List BadRange) (one : BadRange)
    → IsMap merged
    → Fits one
    → All (λ b. b.offset_bytes ≤ one.offset_bytes) merged
    → IsMap (merge_one merged one)
unfolding merge_one joined
merge_one-IsMap [] one m h k = ((h, tt), (tt, tt))
merge_one-IsMap (last ∷ []) one m h k =
    let fits = (m.0).0 in
    let ends = end_of_lem last fits in
    let ends' = end_of_lem one h in
    elim (Bool-cases (leb one.offset_bytes (end_of last))) [
      | inl touches ↦ rw touches ((omega (arith, ends, ends', fits, h), tt), (tt, tt))
      | inr apart ↦ rw apart ((fits, (h, tt)), ((ground (arith, apart, ends), tt), (tt, tt)))
    ]
merge_one-IsMap (first ∷ second ∷ merged) one m h k =
    let (fits, apart) = merge_one-IsMap (second ∷ merged) one ((m.0).1, (m.1).1) h k.1 in
    let next = ((m.1).0).0 in
    let below = (k.1).0 in
    (
      ((m.0).0, fits),
      (
        All-merge_one (λ (o : ℕ). first.offset_bytes + first.length_bytes < o) (second ∷ merged) one
            (m.1).0 (omega (arith, next, below)),
        apart,
      ),
    )

lost-merge_one :
    (merged : List BadRange) (one : BadRange) (x : ℕ)
    → All Fits merged
    → Fits one
    → All (λ b. b.offset_bytes ≤ one.offset_bytes) merged
    → lost (merge_one merged one) x ≡ (lost merged x || lost_in one x)
unfolding merge_one joined
lost-merge_one [] one x m h k = ground arith
lost-merge_one (last ∷ []) one x m h k =
    let ends = end_of_lem last m.0 in
    let ends' = end_of_lem one h in
    let below = k.0 in
    elim (Bool-cases (leb one.offset_bytes (end_of last))) [
      | inl touches ↦ rw (touches, ends, ends') (ground (arith, below, rw ends at touches))
      | inr apart ↦ rw apart (ground arith)
    ]
lost-merge_one (first ∷ second ∷ merged) one x m h k =
    rw (lost-merge_one (second ∷ merged) one x m.1 h k.1) (ground arith)

merge_all-IsMap :
    (merged bad : List BadRange)
    → IsMap merged
    → IsSorted bad
    → All (λ b. All (λ c. c.offset_bytes ≤ b.offset_bytes) merged) bad
    → IsMap (merge_all merged bad)
unfolding merge_all
merge_all-IsMap merged [] m s k = m
merge_all-IsMap merged (one ∷ bad) m s k =
    merge_all-IsMap (merge_one merged one) bad (merge_one-IsMap merged one m (s.0).0 k.0)
      ((s.0).1, (s.1).1)
      (All-map _ _
        (λ b
            (r : (one.offset_bytes ≤ b.offset_bytes)
              × All (λ c. c.offset_bytes ≤ b.offset_bytes) merged).
          All-merge_one (λ (o : ℕ). o ≤ b.offset_bytes) merged one r.1 r.0)
        bad (All-both _ _ bad (s.1).0 k.1))

lost-merge_all :
    (merged bad : List BadRange) (x : ℕ)
    → IsMap merged
    → IsSorted bad
    → All (λ b. All (λ c. c.offset_bytes ≤ b.offset_bytes) merged) bad
    → lost (merge_all merged bad) x ≡ (lost merged x || lost bad x)
unfolding merge_all
lost-merge_all merged [] x m s k = ground arith
lost-merge_all merged (one ∷ bad) x m s k =
    let rest =
      lost-merge_all (merge_one merged one) bad x (merge_one-IsMap merged one m (s.0).0 k.0)
        ((s.0).1, (s.1).1)
        (All-map _ _
          (λ b
              (r : (one.offset_bytes ≤ b.offset_bytes)
                × All (λ c. c.offset_bytes ≤ b.offset_bytes) merged).
            All-merge_one (λ (o : ℕ). o ≤ b.offset_bytes) merged one r.1 r.0)
          bad (All-both _ _ bad (s.1).0 k.1)) in
    rw (rest, lost-merge_one merged one x m.0 (s.0).0 k.0) (ground arith)

All-nothing : (bad : List BadRange) → All {0, 0} (λ b. Unit) bad
All-nothing [] = tt
All-nothing (b ∷ bad) = (tt, All-nothing bad)

-- Recording a range that ends within 64 bits in a map keeps it a map, in offset order with a gap
-- behind each range, and exactly the bytes of the range are lost besides those that were.
pub record_bad-IsMap :
    (bad : List BadRange) (range : BadRange)
    → IsMap bad
    → Fits range
    → IsMap (record_bad bad range)
      × ((x : ℕ) → lost (record_bad bad range) x ≡ (lost_in range x || lost bad x))
unfolding record_bad coalesce
record_bad-IsMap bad range m h =
    let sorted : IsSorted (insert_bad range bad) = (
      All-insert_bad Fits range bad h m.0,
      Ordered-insert_bad range bad (
          Ordered-map Before (λ a c. a.offset_bytes ≤ c.offset_bytes) (λ a c k. omega arith) bad
            m.1),
    ) in
    let none_merged = All-nothing (insert_bad range bad) in
    (
      merge_all-IsMap [] (insert_bad range bad) (tt, tt) sorted none_merged,
      λ x.
          lost-merge_all [] (insert_bad range bad) x (tt, tt) sorted none_merged
          ∙ lost-insert_bad range bad x,
    )
