-- ===== src/Fs/Extents/Trim.antt =====
-- `trim_to_size`: the file cut back to its declared size.
use data_recovery.Prelude.{
  ℕ, ◌-◌, ◌≤◌, ◌<◌, ◌≡◌, refl, min, List, [], ◌∷◌, ◌++◌, none, true, false, ltb, ◌==◌, inl, inr,
  if◌then◌else◌, arith, Bool-cases,
}
use mathlib.Core.List.{append_assoc, append-nil}
use data_recovery.Core.Result.{ok, Returns, error_at, invalid_argument}
use data_recovery.Fs.Types.{Extent}
use data_recovery.Fs.Extents.{take_extent, trim_loop, trim_to_size}
use data_recovery.Fs.Extents.Places.{place_of, total_of, IsSolid}

-- The first `size` bytes of the file, as extents.
unfoldable pub prefix_of : List Extent → ℕ → List Extent
prefix_of [] size = []
prefix_of (e ∷ es) size =
    let rest = prefix_of es (size - e.length_bytes) in
    if size == 0 then [] else record e { length_bytes = min e.length_bytes size } ∷ rest

trim_loop-zero : (taken es : List Extent) → trim_loop taken es 0 ≡ (taken, 0)
unfolding trim_loop take_extent
trim_loop-zero taken [] = refl
trim_loop-zero taken (e ∷ es) = ground (arith, trim_loop-zero taken es)

trim_loop-prefix_of :
    (taken es : List Extent) (size : ℕ)
    → IsSolid es
    → trim_loop taken es size ≡ (taken ++ prefix_of es size, size - total_of es)
unfolding trim_loop take_extent prefix_of total_of
trim_loop-prefix_of taken [] size s = rw (append-nil taken) (ground arith)
trim_loop-prefix_of taken (e ∷ es) size s = elim (Bool-cases (size == 0)) [
  | inl done ↦ ground (arith, trim_loop-zero taken es, append-nil taken)
  | inr more ↦
      let share : Extent = record e { length_bytes = min e.length_bytes size } in
      ground (
        arith,
        trim_loop-prefix_of (taken ++ (share ∷ [])) es (size - min e.length_bytes size) s.1,
        trim_loop-prefix_of (taken ++ (share ∷ [])) es (size - e.length_bytes) s.1,
        append_assoc taken (share ∷ []) (prefix_of es (size - e.length_bytes)),
      )
]

pub place_of-prefix_of :
    (es : List Extent) (size i : ℕ)
    → place_of (prefix_of es size) i ≡ (if ltb i size then place_of es i else none)
unfolding place_of prefix_of
place_of-prefix_of [] size i = ground arith
place_of-prefix_of (e ∷ es) size i = elim (Bool-cases (size == 0)) [
  | inl done ↦ rw done (ground arith)
  | inr more ↦
      rw more (
        ground (arith, place_of-prefix_of es (size - e.length_bytes) (i - min e.length_bytes size)))
]

total_of-prefix_of :
    (es : List Extent) (size : ℕ) → total_of (prefix_of es size) ≡ min size (total_of es)
unfolding total_of prefix_of
total_of-prefix_of [] size = omega arith
total_of-prefix_of (e ∷ es) size = ground (arith, total_of-prefix_of es (size - e.length_bytes))

-- For extents none of which is empty: a file that reaches `size` is cut to exactly `size` bytes,
-- each where it lay before, and nothing beyond them.
pub trim_to_size-prefix :
    (es : List Extent) (size i : ℕ)
    → IsSolid es
    → size ≤ total_of es
    → Returns (trim_to_size es size) (λ taken.
      (total_of taken ≡ size) × (place_of taken i ≡ (if ltb i size then place_of es i else none)))
unfolding trim_to_size
trim_to_size-prefix es size i s h = rw (trim_loop-prefix_of [] es size s) (
    let e : (size - total_of es == 0) ≡ true = ground arith in
    rw e (omega (arith, total_of-prefix_of es size), place_of-prefix_of es size i))

-- For extents none of which is empty: a file that does not reach `size` is refused.
pub trim_to_size_short :
    (es : List Extent) (size : ℕ)
    → IsSolid es
    → total_of es < size
    → trim_to_size es size ≡ error_at invalid_argument size
unfolding trim_to_size
trim_to_size_short es size s h =
    rw (trim_loop-prefix_of [] es size s)
      (let e : (size - total_of es == 0) ≡ false = ground arith in rw e)

-- An empty first extent ends the file: whatever follows and whatever size is declared, the result
-- is a file with no bytes, and no error.
pub trim_to_size_empty_extent :
    (e : Extent) (es : List Extent) (size : ℕ)
    → e.length_bytes ≡ 0
    → trim_to_size (e ∷ es) size ≡ ok []
unfolding trim_to_size trim_loop take_extent
trim_to_size_empty_extent e es size h = ground (arith, trim_loop-zero [] es)
