-- ===== src/Core/Bytes/At.antt =====
-- Reading a known part of a span.
use data_recovery.Prelude.{
  ℕ, ◌≡◌, refl, List, [], ◌∷◌, ◌++◌, arith, length, take, drop, length-append,
}
use data_recovery.Core.Result.{ok}
use data_recovery.Core.Bytes.{bytes, read_le}

pub drop-length {ℓ} : {A : Type ℓ} (xs ys : List A) → drop (length xs) (xs ++ ys) ≡ ys
drop-length [] ys = refl
drop-length (x ∷ xs) ys = drop-length xs ys

pub take-length {ℓ} : {A : Type ℓ} (xs ys : List A) → take (length xs) (xs ++ ys) ≡ xs
take-length [] ys = refl
take-length (x ∷ xs) ys = rw (take-length xs ys)

-- The bytes `xs` that stand behind `pre` are read at its length.
pub bytes_at : (pre xs tail : List ℕ) → bytes (pre ++ (xs ++ tail)) (length pre) (length xs) ≡ ok xs
unfolding bytes
bytes_at pre xs tail =
    rw (drop-length pre (xs ++ tail), take-length xs tail)
      (ground (arith, length-append pre (xs ++ tail), length-append xs tail))

pub read_le_at : (pre tail : List ℕ) (b : ℕ) → read_le 1 (pre ++ (b ∷ tail)) (length pre) ≡ ok b
unfolding read_le
read_le_at pre tail b = rw (bytes_at pre (b ∷ []) tail) (ground arith)
