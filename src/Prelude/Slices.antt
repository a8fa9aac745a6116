-- ===== src/Prelude/Slices.antt =====
-- Slices of a list: `count` elements from `offset` on.
use Prim.Native.Nat.{ℕ, zero, suc, ◌+◌, ◌-◌, ◌≤◌}
use mathlib.Core.Path.{◌≡◌, refl, sym, ap, ◌∙◌}
use mathlib.Core.List.{List, [], ◌∷◌, ◌++◌}
use native.Mathlib.Omega.{arith}
use data_recovery.Prelude.Lists.{length, take, drop, length-take, length-drop}

module _ {ℓ} {A : Type ℓ} where
  abbrev pub slice : List A → ℕ → ℕ → List A
  slice xs offset count = take count (drop offset xs)

  pub take-all : (n : ℕ) (xs : List A) → length xs ≤ n → take n xs ≡ xs
  take-all zero [] h = refl
  take-all zero (x ∷ xs) h = absurd (omega arith)
  take-all (suc n) [] h = refl
  take-all (suc n) (x ∷ xs) h = ap (◌∷◌ x) (take-all n xs (omega arith))

  pub drop-all : (n : ℕ) (xs : List A) → length xs ≤ n → drop n xs ≡ []
  drop-all zero [] h = refl
  drop-all zero (x ∷ xs) h = absurd (omega arith)
  drop-all (suc n) [] h = refl
  drop-all (suc n) (x ∷ xs) h = drop-all n xs (omega arith)

  pub take-nil : (n : ℕ) → take {A = A} n [] ≡ []
  take-nil zero = refl
  take-nil (suc n) = refl

  pub drop-nil : (n : ℕ) → drop {A = A} n [] ≡ []
  drop-nil zero = refl
  drop-nil (suc n) = refl

  pub take-take : (n m : ℕ) (xs : List A) → n ≤ m → take n (take m xs) ≡ take n xs
  take-take zero m xs h = refl
  take-take (suc n) zero xs h = absurd (omega arith)
  take-take (suc n) (suc m) [] h = refl
  take-take (suc n) (suc m) (x ∷ xs) h = ap (◌∷◌ x) (take-take n m xs (omega arith))

  pub drop-drop : (n m k : ℕ) (xs : List A) → m + n ≡ k → drop n (drop m xs) ≡ drop k xs
  drop-drop n zero k xs h = ap (λ i. drop i xs) (omega arith)
  drop-drop n (suc m) k [] h = drop-nil n ∙ sym (drop-nil k)
  drop-drop n (suc m) zero (x ∷ xs) h = absurd (omega arith)
  drop-drop n (suc m) (suc k) (x ∷ xs) h = drop-drop n m k xs (omega arith)

  pub drop-take : (n m : ℕ) (xs : List A) → drop n (take m xs) ≡ take (m - n) (drop n xs)
  drop-take zero m xs = ap (λ i. take i xs) (omega arith)
  drop-take (suc n) zero xs =
      let none_left : 0 ≡ 0 - suc n = omega arith in
      drop-nil (suc n) ∙ ap (λ i. take i (drop (suc n) xs)) none_left
  drop-take (suc n) (suc m) [] = sym (take-nil (suc m - suc n))
  drop-take (suc n) (suc m) (x ∷ xs) = drop-take n m xs ∙ ap (λ i. take i (drop n xs)) (omega arith)

  take-append_drop :
      (n m k : ℕ) (xs : List A) → n + m ≡ k → take n xs ++ take m (drop n xs) ≡ take k xs
  take-append_drop zero m k xs h = ap (λ i. take i xs) (omega arith)
  take-append_drop (suc n) m zero xs h = absurd (omega arith)
  take-append_drop (suc n) m (suc k) [] h = take-nil m
  take-append_drop (suc n) m (suc k) (x ∷ xs) h =
      ap (◌∷◌ x) (take-append_drop n m k xs (omega arith))

  -- Two slices, the second from the end of the first on, make one.
  pub slice-append :
      (xs : List A) (offset first second : ℕ)
      → slice xs offset first ++ slice xs (offset + first) second ≡ slice xs offset (first + second)
  slice-append xs offset first second =
      ap (λ ys. slice xs offset first ++ take second ys)
        (sym (drop-drop first offset (offset + first) xs refl))
      ∙ take-append_drop first second (first + second) (drop offset xs) refl

  pub length-slice :
      (xs : List A) (offset count : ℕ)
      → offset + count ≤ length xs
      → length (slice xs offset count) ≡ count
  length-slice xs offset count h =
      omega (arith, length-take count (drop offset xs), length-drop offset xs)

  -- A slice of a slice.
  pub slice-slice :
      (xs : List A) (offset count inner few : ℕ)
      → inner + few ≤ count
      → slice (slice xs offset count) inner few ≡ slice xs (offset + inner) few
  slice-slice xs offset count inner few h =
      ap (take few) (drop-take inner count (drop offset xs))
      ∙ take-take few (count - inner) (drop inner (drop offset xs)) (omega arith)
      ∙ ap (take few) (drop-drop inner offset (offset + inner) xs refl)

  -- A slice that leaves the list ends with it.
  pub slice-past :
      (xs : List A) (offset count : ℕ)
      → length xs ≤ offset + count
      → slice xs offset count ≡ drop offset xs
  slice-past xs offset count h =
      take-all count (drop offset xs) (omega (arith, length-drop offset xs))

  pub take-append_rest : (n : ℕ) (xs : List A) → take n xs ++ drop n xs ≡ xs
  take-append_rest zero xs = refl
  take-append_rest (suc n) [] = refl
  take-append_rest (suc n) (x ∷ xs) = ap (◌∷◌ x) (take-append_rest n xs)

  pub take-append_exact : (n : ℕ) (xs ys : List A) → length xs ≡ n → take n (xs ++ ys) ≡ xs
  take-append_exact zero [] ys h = refl
  take-append_exact zero (x ∷ xs) ys h = absurd (omega (arith, h))
  take-append_exact (suc n) [] ys h = absurd (omega (arith, h))
  take-append_exact (suc n) (x ∷ xs) ys h =
      ap (◌∷◌ x) (take-append_exact n xs ys (omega (arith, h)))

  pub drop-append_exact : (n : ℕ) (xs ys : List A) → length xs ≡ n → drop n (xs ++ ys) ≡ ys
  drop-append_exact zero [] ys h = refl
  drop-append_exact zero (x ∷ xs) ys h = absurd (omega (arith, h))
  drop-append_exact (suc n) [] ys h = absurd (omega (arith, h))
  drop-append_exact (suc n) (x ∷ xs) ys h = drop-append_exact n xs ys (omega (arith, h))
