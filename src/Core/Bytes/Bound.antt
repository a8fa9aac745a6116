-- ===== src/Core/Bytes/Bound.antt =====
-- How large a number is that bytes stand for.
use data_recovery.Prelude.{
  ℕ, zero, suc, ◌^◌, ◌<◌, ◌≡◌, ap, sym, ◌∙◌, List, [], ◌∷◌, ltb, ◌-◌, arith, All, Bool-cases, inl,
  inr, length, take, drop, slice,
}
use mathlib.Core.Path.{subst}
use native.Mathlib.Nat.{pow-suc, one-le-pow}
use data_recovery.Core.Result.{ok, transform-eq-ok}
use data_recovery.Core.Bytes.{IsByte, bytes, le_value, read_le}

pub All-take : (n : ℕ) (xs : List ℕ) → All IsByte xs → All IsByte (take n xs)
All-take zero xs h = tt
All-take (suc n) [] h = tt
All-take (suc n) (x ∷ xs) h = (h.0, All-take n xs h.1)

pub All-drop : (n : ℕ) (xs : List ℕ) → All IsByte xs → All IsByte (drop n xs)
All-drop zero xs h = h
All-drop (suc n) [] h = tt
All-drop (suc n) (x ∷ xs) h = All-drop n xs h.1

pub All-slice :
    (xs : List ℕ) (offset count : ℕ) → All IsByte xs → All IsByte (slice xs offset count)
All-slice xs offset count h = All-take count (drop offset xs) (All-drop offset xs h)

pub le_value-take-lt : (n : ℕ) (xs : List ℕ) → All IsByte xs → le_value (take n xs) < 256 ^ n
le_value-take-lt zero xs h = omega arith
le_value-take-lt (suc n) [] h = omega (arith, one-le-pow (suc n) 256)
le_value-take-lt (suc n) (x ∷ xs) h = omega (arith, pow-suc 256 n, le_value-take-lt n xs h.1, h.0)

-- The bytes that were read are those of the span.
pub bytes-slice :
    (span : List ℕ) (offset count : ℕ) (raw : List ℕ)
    → bytes span offset count ≡ ok raw
    → take count (drop offset span) ≡ raw
unfolding bytes
bytes-slice span offset count raw e = elim (Bool-cases (ltb (length span) offset)) [
  | inl outside ↦ absurd (ground (arith, e, outside))
  | inr inside ↦ elim (Bool-cases (ltb (length span - offset) count)) [
    | inl short ↦ absurd (ground (arith, e, inside, short))
    | inr whole ↦ ground (arith, e, inside, whole)
  ]
]

-- A number of `width` bytes that was read fits them.
pub read_le-lt :
    (width : ℕ) (span : List ℕ) (offset value : ℕ)
    → All IsByte span
    → read_le width span offset ≡ ok value
    → value < 256 ^ width
unfolding read_le
read_le-lt width span offset value h e =
    let (raw, x, same) = transform-eq-ok le_value (bytes span offset width) value e in
    let read : le_value (take width (drop offset span)) ≡ value =
      ap le_value (bytes-slice span offset width raw x) ∙ sym same in
    subst (λ (v : ℕ). v < 256 ^ width) read
      (le_value-take-lt width (drop offset span) (All-drop offset span h))
