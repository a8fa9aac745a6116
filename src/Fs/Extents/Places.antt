-- ===== src/Fs/Extents/Places.antt =====
-- What a list of extents says of a file: where on the device each of its bytes lies.
use data_recovery.Prelude.{
  ℕ, ◌+◌, ◌-◌, ◌≤◌, ◌<◌, ◌≡◌, List, [], ◌∷◌, ◌++◌, Option, none, some, ltb, if◌then◌else◌, arith,
  All,
}
use data_recovery.Core.SafeArith.{u64_max}
use data_recovery.Fs.Types.{Extent}

-- The device offset of the file's byte `i`.
unfoldable pub place_of : List Extent → ℕ → Option ℕ
place_of [] i = none
place_of (e ∷ es) i =
    if ltb i e.length_bytes then some (e.device_offset + i) else place_of es (i - e.length_bytes)

-- How many bytes the file has, in plain arithmetic.
unfoldable pub total_of : List Extent → ℕ
total_of [] = 0
total_of (e ∷ es) = e.length_bytes + total_of es

-- Each extent ends within 64 bits.
abbrev pub IsWithin : List Extent → Type 0
IsWithin es = All (λ e. e.device_offset + e.length_bytes ≤ u64_max) es

-- No extent is empty.
abbrev pub IsSolid : List Extent → Type 0
IsSolid es = All (λ e. 0 < e.length_bytes) es

pub place_of-append :
    (es fs : List Extent) (i : ℕ)
    → place_of (es ++ fs) i
      ≡ (if ltb i (total_of es) then place_of es i else place_of fs (i - total_of es))
unfolding place_of total_of
place_of-append [] fs i = ground arith
place_of-append (e ∷ es) fs i = ground (arith, place_of-append es fs (i - e.length_bytes))

pub total_of-append_one :
    (es : List Extent) (x : Extent) → total_of (es ++ (x ∷ [])) ≡ total_of es + x.length_bytes
unfolding total_of
total_of-append_one [] x = omega arith
total_of-append_one (e ∷ es) x = omega (arith, total_of-append_one es x)
