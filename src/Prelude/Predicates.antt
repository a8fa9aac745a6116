-- ===== src/Prelude/Predicates.antt =====
-- Predicates over lists by recursion, and how they follow a permutation.
use Prim.Native.Nat.{suc}
use mathlib.Core.Path.{◌≡◌, refl, ap, ◌∙◌, subst, subst₂, sym}
use mathlib.Core.List.{List, [], ◌∷◌, ◌++◌, Permᴰ, Memᴰ}
use data_recovery.Prelude.Lists.{length}

abbrev pub All {ℓ κ} : {A : Type ℓ} → (A → Type κ) → List A → Type κ
All P [] = Unit
All P (x ∷ xs) = P x × All P xs

-- `R` holds of each element and every later one.
abbrev pub Ordered {ℓ κ} : {A : Type ℓ} → (A → A → Type κ) → List A → Type κ
Ordered R [] = Unit
Ordered R (x ∷ xs) = All (R x) xs × Ordered R xs

module _ {ℓ κ μ} {A : Type ℓ} (P : A → Type κ) (Q : A → Type μ) (f : (x : A) → P x → Q x) where
  pub All-map : (xs : List A) → All P xs → All Q xs
  All-map [] h = tt
  All-map (x ∷ xs) h = (f x h.0, All-map xs h.1)

module _ {ℓ κ μ} {A : Type ℓ} (P : A → Type κ) (Q : A → Type μ) where
  pub All-both : (xs : List A) → All P xs → All Q xs → All (λ x. P x × Q x) xs
  All-both [] h k = tt
  All-both (x ∷ xs) h k = ((h.0, k.0), All-both xs h.1 k.1)

module _ {ℓ κ} {A : Type ℓ} (P : A → Type κ) where
  pub All-append : (xs ys : List A) → All P xs → All P ys → All P (xs ++ ys)
  All-append [] ys h k = k
  All-append (x ∷ xs) ys h k = (h.0, All-append xs ys h.1 k)

  pub All-mem : (xs : List A) {a : A} → All P xs → Memᴰ a xs → P a
  All-mem [] h m = elim m [ ]
  All-mem (x ∷ xs) h (Memᴰ.head e) = subst P (sym e) h.0
  All-mem (x ∷ xs) h (Memᴰ.tail m) = All-mem xs h.1 m

  pub All-of_mem : (xs : List A) → ((a : A) → Memᴰ a xs → P a) → All P xs
  All-of_mem [] h = tt
  All-of_mem (x ∷ xs) h = (h x (Memᴰ.head refl), All-of_mem xs (λ a m. h a (Memᴰ.tail m)))

  pub All-perm : {xs ys : List A} → Permᴰ xs ys → All P xs → All P ys
  All-perm Permᴰ.nil h = tt
  All-perm (Permᴰ.cons e p) h = (subst P e h.0, All-perm p h.1)
  All-perm (Permᴰ.swap e e') h = (subst P e' (h.1).0, (subst P e h.0, (h.1).1))
  All-perm (Permᴰ.trans p q) h = All-perm q (All-perm p h)

module _ {ℓ κ} {A : Type ℓ} (R : A → A → Type κ) (symmetric : (x y : A) → R x y → R y x) where
  pub Ordered-perm : {xs ys : List A} → Permᴰ xs ys → Ordered R xs → Ordered R ys
  Ordered-perm Permᴰ.nil h = tt
  Ordered-perm (Permᴰ.cons {b = b} {l₂ = l₂} e p) h =
      (subst (λ c. All (R c) l₂) e (All-perm (R _) p h.0), Ordered-perm p h.1)
  Ordered-perm (Permᴰ.swap {a' = a'} {b' = b'} {l = l} e e') h = (
    (subst₂ R e' e (symmetric _ _ (h.0).0), subst (λ c. All (R c) l) e' (h.1).0),
    (subst (λ c. All (R c) l) e (h.0).1, (h.1).1),
  )
  Ordered-perm (Permᴰ.trans p q) h = Ordered-perm q (Ordered-perm p h)

module _ {ℓ κ μ} {A : Type ℓ} (R : A → A → Type κ) (S : A → A → Type μ)
    (f : (x y : A) → R x y → S x y) where
  pub Ordered-map : (xs : List A) → Ordered R xs → Ordered S xs
  Ordered-map [] h = tt
  Ordered-map (x ∷ xs) h = (All-map (R x) (S x) (f x) xs h.0, Ordered-map xs h.1)

module _ {ℓ κ} {A : Type ℓ} (R : A → A → Type κ) where
  -- A last element that all the others relate to.
  pub Ordered-append_last :
      (xs : List A) (y : A) → Ordered R xs → All (λ x. R x y) xs → Ordered R (xs ++ (y ∷ []))
  Ordered-append_last [] y h k = (tt, tt)
  Ordered-append_last (x ∷ xs) y h k =
      (All-append (R x) xs (y ∷ []) h.0 (k.0, tt), Ordered-append_last xs y h.1 k.1)

module _ {ℓ} {A : Type ℓ} where
  pub length-perm : {xs ys : List A} → Permᴰ xs ys → length xs ≡ length ys
  length-perm Permᴰ.nil = refl
  length-perm (Permᴰ.cons e p) = ap suc (length-perm p)
  length-perm (Permᴰ.swap e e') = refl
  length-perm (Permᴰ.trans p q) = length-perm p ∙ length-perm q

  pub perm-refl : (xs : List A) → Permᴰ xs xs
  perm-refl [] = Permᴰ.nil
  perm-refl (x ∷ xs) = Permᴰ.cons refl (perm-refl xs)

  pub perm-symm : {xs ys : List A} → Permᴰ xs ys → Permᴰ ys xs
  perm-symm Permᴰ.nil = Permᴰ.nil
  perm-symm (Permᴰ.cons e p) = Permᴰ.cons (sym e) (perm-symm p)
  perm-symm (Permᴰ.swap e e') = Permᴰ.swap (sym e') (sym e)
  perm-symm (Permᴰ.trans p q) = Permᴰ.trans (perm-symm q) (perm-symm p)

  pub mem-append_left : (xs ys : List A) {a : A} → Memᴰ a xs → Memᴰ a (xs ++ ys)
  mem-append_left [] ys m = elim m [ ]
  mem-append_left (x ∷ xs) ys (Memᴰ.head e) = Memᴰ.head e
  mem-append_left (x ∷ xs) ys (Memᴰ.tail m) = Memᴰ.tail (mem-append_left xs ys m)

  pub mem-append_right : (xs : List A) {ys : List A} {a : A} → Memᴰ a ys → Memᴰ a (xs ++ ys)
  mem-append_right [] m = m
  mem-append_right (x ∷ xs) m = Memᴰ.tail (mem-append_right xs m)

  pub mem-perm : {xs ys : List A} {a : A} → Permᴰ xs ys → Memᴰ a xs → Memᴰ a ys
  mem-perm (Permᴰ.nil) m = m
  mem-perm (Permᴰ.cons e p) (Memᴰ.head h) = Memᴰ.head (h ∙ e)
  mem-perm (Permᴰ.cons e p) (Memᴰ.tail m) = Memᴰ.tail (mem-perm p m)
  mem-perm (Permᴰ.swap e e') (Memᴰ.head h) = Memᴰ.tail (Memᴰ.head (h ∙ e))
  mem-perm (Permᴰ.swap e e') (Memᴰ.tail (Memᴰ.head h)) = Memᴰ.head (h ∙ e')
  mem-perm (Permᴰ.swap e e') (Memᴰ.tail (Memᴰ.tail m)) = Memᴰ.tail (Memᴰ.tail m)
  mem-perm (Permᴰ.trans p q) m = mem-perm q (mem-perm p m)
