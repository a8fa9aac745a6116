-- ===== src/Core/Io/RetryingDevice/Honest.antt =====
-- What the layer over a failing device may answer: the bytes of the source, and zeros that the map
-- records.
use data_recovery.Prelude.{
  ℕ, zero, suc, ◌+◌, ◌<◌, ◌≤◌, ◌≡◌, ◌⊎◌, refl, sym, ap, ◌∙◌, inl, inr, List, [], ◌∷◌, ◌++◌, true,
  length, length-append, arith,
}
use mathlib.Core.Path.{subst}
use mathlib.Core.List.{append_assoc}
use data_recovery.Core.Result.{ok}
use data_recovery.Core.Io.BadRange.{BadRange}
use data_recovery.Core.Io.RetryingDevice.{FailingDevice, zeros_of}
use data_recovery.Core.Io.RetryingDevice.Map.{IsMap, lost}

-- The map was kept and lost no range.
pub record IsGrown (bad bad' : List BadRange) : Type 0 where
  pub kept : IsMap bad'
  pub grown : (x : ℕ) → lost bad x ≡ true → lost bad' x ≡ true

pub length-zeros_of : (size : ℕ) → length (zeros_of size) ≡ size
length-zeros_of zero = refl
length-zeros_of (suc size) = ap suc (length-zeros_of size)

pub IsGrown-same : (bad bad' : List BadRange) → IsMap bad → bad' ≡ bad → IsGrown bad bad'
IsGrown-same bad bad' m e = subst (IsGrown bad) (sym e) (record { kept = m; grown = λ x h. h })

pub IsGrown-trans : (a b c : List BadRange) → IsGrown a b → IsGrown b c → IsGrown a c
IsGrown-trans a b c g h = record { kept = h.kept; grown = λ x l. h.grown x (g.grown x l) }

module _ (source : FailingDevice) where
  -- The source puts no more bytes into a buffer than the buffer has.
  abbrev pub IsBounded : Type 0
  IsBounded =
      (n offset count : ℕ) (bytes : List ℕ)
      → source.read_at n offset count ≡ ok bytes
      → length bytes ≤ count

  -- Some read of the source answered the byte `b` at the place `x`.
  abbrev pub Answered : ℕ → ℕ → Type 0
  Answered x b =
      (n : ℕ) × (offset : ℕ) × (count : ℕ) × (before : List ℕ) × (after : List ℕ) × (source.read_at
          n offset count
        ≡ ok (before ++ (b ∷ after)))
      × (offset + length before ≡ x)

  -- The bytes, the first one at the place `x`, are the source's or zeros that the map records.
  abbrev pub Honest : List BadRange → ℕ → List ℕ → Type 0
  Honest bad x [] = Unit
  Honest bad x (b ∷ bytes) =
      (((b ≡ 0) × (lost bad x ≡ true)) ⊎ Answered x b) × Honest bad (x + 1) bytes

  pub Honest-grown :
      (bad bad' : List BadRange) (x : ℕ) (bytes : List ℕ)
      → IsGrown bad bad'
      → Honest bad x bytes
      → Honest bad' x bytes
  Honest-grown bad bad' x [] g h = tt
  Honest-grown bad bad' x (b ∷ bytes) g (inl zeroed, rest) =
      (inl (zeroed.0, g.grown x zeroed.1), Honest-grown bad bad' (x + 1) bytes g rest)
  Honest-grown bad bad' x (b ∷ bytes) g (inr answered, rest) =
      (inr answered, Honest-grown bad bad' (x + 1) bytes g rest)

  pub Honest-append :
      (bad : List BadRange) (x : ℕ) (bytes more : List ℕ)
      → Honest bad x bytes
      → Honest bad (x + length bytes) more
      → Honest bad x (bytes ++ more)
  Honest-append bad x [] more h k = subst (λ (y : ℕ). Honest bad y more) (omega arith) k
  Honest-append bad x (b ∷ bytes) more h k = (
    h.0,
    Honest-append bad (x + 1) bytes more h.1 (subst (λ (y : ℕ). Honest bad y more) (omega arith) k),
  )

  pub Honest-answered :
      (bad : List BadRange) (n offset count : ℕ) (before bytes : List ℕ)
      → source.read_at n offset count ≡ ok (before ++ bytes)
      → Honest bad (offset + length before) bytes
  Honest-answered bad n offset count before [] e = tt
  Honest-answered bad n offset count before (b ∷ bytes) e = (
    inr (n, offset, count, before, bytes, e, refl),
    subst (λ (y : ℕ). Honest bad y bytes) (omega (arith, length-append before (b ∷ [])))
        (Honest-answered bad n offset count (before ++ (b ∷ [])) bytes
          (e ∙ ap ok (sym (append_assoc before (b ∷ []) bytes)))),
  )

  pub Honest-zeros_of :
      (bad : List BadRange) (size x : ℕ)
      → ((y : ℕ) → x ≤ y → y < x + size → lost bad y ≡ true)
      → Honest bad x (zeros_of size)
  Honest-zeros_of bad zero x h = tt
  Honest-zeros_of bad (suc size) x h = (
    inl (refl, h x (omega arith) (omega arith)),
    Honest-zeros_of bad size (x + 1) (λ y least most. h y (omega arith) (omega arith)),
  )
