-- ===== src/Core/Result.antt =====
-- include/revenant/core/Error.hpp and Result.hpp: a value or a typed error.
use data_recovery.Prelude.{ℕ, ◌≡◌, refl, ◌⊎◌, inl, inr}

pub data ErrorCode : Type 0 where
  out_of_range overflow invalid_argument not_found io_failure permission_denied : ErrorCode
  not_block_addressable destination_on_source destination_identity_unresolved : ErrorCode
  source_lost storage_exhausted : ErrorCode

-- `os_code` is an int32 by its bit pattern; nothing modelled here sets it.
pub record Error : Type 0 where
  pub code : ErrorCode
  pub offset : ℕ
  pub os_code : ℕ

pub data Result {ℓ} (A : Type ℓ) : Type ℓ where
  ok : A → Result A
  err : Error → Result A

-- `Error{.code = c, .offset = o}`.
abbrev pub error_at {ℓ} : {A : Type ℓ} → ErrorCode → ℕ → Result A
error_at c o = err (record { code = c; offset = o; os_code = 0 })

-- `andThen`: the error is handed on, the value goes to the next step.
infixl 5 ◌>>=◌
abbrev pub ◌>>=◌ {ℓ κ} :
    {From : Type ℓ} {To : Type κ} → Result From → (From → Result To) → Result To
err fault >>= next = err fault
ok value >>= next = next value

-- `map`
abbrev pub transform {ℓ κ} : {A : Type ℓ} {B : Type κ} → (A → B) → Result A → Result B
transform f (ok a) = ok (f a)
transform f (err e) = err e

-- `r` is a value that satisfies `P`: never satisfied by an error.
abbrev pub Returns {ℓ} : {A : Type ℓ} → Result A → (A → Type 0) → Type 0
Returns (ok a) P = P a
Returns (err e) P = ⊥

-- Inversion of a successful bind.
pub >>=-eq-ok {ℓ κ} :
    {From : Type ℓ} {To : Type κ} (held : Result From) (next : From → Result To) {b : To}
    → (held >>= next) ≡ ok b
    → (value : From) × (held ≡ ok value) × (next value ≡ ok b)
>>=-eq-ok (err fault) next answered = cc
>>=-eq-ok (ok value) next answered = (value, refl, answered)

pub Result-cases {ℓ} :
    {A : Type ℓ} (r : Result A) → ((a : A) × (r ≡ ok a)) ⊎ ((e : Error) × (r ≡ err e))
Result-cases (ok a) = inl (a, refl)
Result-cases (err e) = inr (e, refl)

pub Returns-map {ℓ} :
    {A : Type ℓ} (P Q : A → Type 0) (r : Result A)
    → ((a : A) → P a → Q a)
    → Returns r P
    → Returns r Q
Returns-map P Q (ok a) f h = f a h
Returns-map P Q (err e) f h = h

pub transform-eq-ok {ℓ κ} :
    {A : Type ℓ} {B : Type κ} (f : A → B) (m : Result A) (b : B)
    → transform f m ≡ ok b
    → (a : A) × (m ≡ ok a) × (b ≡ f a)
transform-eq-ok f (ok a) b h = (a, refl, cc h)
transform-eq-ok f (err e) b h = cc

pub ok-inj {ℓ} : {A : Type ℓ} (a b : A) → ok a ≡ ok b → a ≡ b
ok-inj a b e = cc e
