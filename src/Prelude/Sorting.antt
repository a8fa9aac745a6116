-- ===== src/Prelude/Sorting.antt =====
-- What a client knows of `std::ranges::sort`: the result is a rearrangement in which nothing is
-- less than what stands before it. How equal elements are ordered is left open, as the standard
-- leaves it. Insertion sort fills the interface.
use mathlib.Core.Path.{◌≡◌, refl}
use mathlib.Core.Bool.{Bool, true, false}
use mathlib.Core.Logic.{inl, inr}
use mathlib.Core.List.{List, [], ◌∷◌, Permᴰ}
use data_recovery.Prelude.Tests.{if◌then◌else◌, Bool-cases}
use data_recovery.Prelude.Predicates.{All-map, All-perm, Ordered, perm-refl}

-- The comparator is a strict weak order.
pub record IsWeakOrder {ℓ} {A : Type ℓ} (less : A → A → Bool) : Type ℓ where
  pub asym : (a b : A) → less a b ≡ true → less b a ≡ false
  pub trans : (a b c : A) → less b a ≡ false → less c b ≡ false → less c a ≡ false

abbrev pub NotAfter {ℓ} : {A : Type ℓ} → (A → A → Bool) → A → A → Type 0
NotAfter less a b = less b a ≡ false

pub record Sorting {ℓ} (A : Type ℓ) : Type ℓ where
  pub sort : (A → A → Bool) → List A → List A
  pub sort-perm : (less : A → A → Bool) (xs : List A) → Permᴰ xs (sort less xs)
  pub sort-Ordered :
      (less : A → A → Bool) (xs : List A)
      → IsWeakOrder less
      → Ordered (NotAfter less) (sort less xs)

module _ {ℓ} {A : Type ℓ} (less : A → A → Bool) where
  unfoldable pub insert : A → List A → List A
  insert a [] = a ∷ []
  insert a (x ∷ xs) = if less a x then a ∷ x ∷ xs else x ∷ insert a xs

  unfoldable pub insertion_sort : List A → List A
  unfolding insert
  insertion_sort [] = []
  insertion_sort (x ∷ xs) = insert x (insertion_sort xs)

  insert-perm : (a : A) (xs : List A) → Permᴰ (a ∷ xs) (insert a xs)
  unfolding insert
  insert-perm a [] = perm-refl (a ∷ [])
  insert-perm a (x ∷ xs) = elim (Bool-cases (less a x)) [
    | inl first ↦ rw first (perm-refl (a ∷ x ∷ xs))
    | inr later ↦ rw later (Permᴰ.trans (Permᴰ.swap refl refl) (Permᴰ.cons refl (insert-perm a xs)))
  ]

  pub insertion_sort-perm : (xs : List A) → Permᴰ xs (insertion_sort xs)
  unfolding insertion_sort
  insertion_sort-perm [] = Permᴰ.nil
  insertion_sort-perm (x ∷ xs) =
      Permᴰ.trans (Permᴰ.cons refl (insertion_sort-perm xs)) (insert-perm x (insertion_sort xs))

  module _ (weak : IsWeakOrder less) where
    insert-Ordered :
        (a : A) (xs : List A) → Ordered (NotAfter less) xs → Ordered (NotAfter less) (insert a xs)
    unfolding insert
    insert-Ordered a [] h = (tt, tt)
    insert-Ordered a (x ∷ xs) h = elim (Bool-cases (less a x)) [
      | inl first ↦
          let below = weak.asym a x first in
          rw first (
            (
              below,
              All-map (NotAfter less x) (NotAfter less a) (λ y k. weak.trans a x y below k) xs h.0,
            ),
            h,
          )
      | inr later ↦
          rw later
            (All-perm (NotAfter less x) (insert-perm a xs) (later, h.0), insert-Ordered a xs h.1)
    ]

    pub insertion_sort-Ordered : (xs : List A) → Ordered (NotAfter less) (insertion_sort xs)
    unfolding insertion_sort
    insertion_sort-Ordered [] = tt
    insertion_sort-Ordered (x ∷ xs) =
        insert-Ordered x (insertion_sort xs) (insertion_sort-Ordered xs)

abbrev pub by_insertion {ℓ} : {A : Type ℓ} → Sorting A
by_insertion = record {
  sort = insertion_sort;
  sort-perm = insertion_sort-perm;
  sort-Ordered = λ less xs weak. insertion_sort-Ordered less weak xs;
}
