-- ===== src/Core/Bytes.antt =====
-- include/revenant/core/ByteReader.hpp, src/core/ByteReader.cpp and Endian.hpp: bounds-checked
-- reading. A span of bytes is a list of numbers below 256.
pub mod At
pub mod Bound
use data_recovery.Prelude.{
  ℕ, ◌+◌, ◌-◌, ◌*◌, ◌<◌, List, [], ◌∷◌, ltb, if◌then◌else◌, length, take, drop,
}
use data_recovery.Core.Result.{Result, ok, error_at, transform, out_of_range}

abbrev pub IsByte : ℕ → Type 0
IsByte b = b < 256

-- `ByteReader::bytes`
unfoldable pub bytes : List ℕ → ℕ → ℕ → Result (List ℕ)
bytes span offset count =
    if ltb (length span) offset
    then error_at out_of_range offset
    else (if ltb (length span - offset) count
        then error_at out_of_range offset
        else ok (take count (drop offset span)))

-- The number that bytes stand for, the least significant first; and the most significant first.
abbrev pub le_value : List ℕ → ℕ
le_value [] = 0
le_value (b ∷ bs) = b + 256 * le_value bs

abbrev pub be_value_from : ℕ → List ℕ → ℕ
be_value_from acc [] = acc
be_value_from acc (b ∷ bs) = be_value_from (acc * 256 + b) bs

abbrev pub be_value : List ℕ → ℕ
be_value bs = be_value_from 0 bs

-- `readLe<T>` and `readBe<T>` for a `T` of `width` bytes.
unfoldable pub read_le : ℕ → List ℕ → ℕ → Result ℕ
unfolding bytes
read_le width span offset = transform le_value (bytes span offset width)

unfoldable pub read_be : ℕ → List ℕ → ℕ → Result ℕ
unfolding bytes
read_be width span offset = transform be_value (bytes span offset width)
