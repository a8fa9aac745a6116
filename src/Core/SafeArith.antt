-- ===== src/Core/SafeArith.antt =====
-- src/core/SafeArith.cpp and include/revenant/core/BoundedCount.hpp: arithmetic on numbers read
-- from a disk. A machine integer is a native number; what it can hold is a hypothesis.
pub mod Exact
use data_recovery.Prelude.{
  ℕ, ◌+◌, ◌-◌, ◌*◌, ◌/◌, ◌%◌, ◌^◌, ◌≤◌, ◌<◌, ◌≡◌, ◌⊎◌, not, ◌&&◌, ltb, ◌==◌, if◌then◌else◌, arith,
}
use data_recovery.Core.Result.{Result, ok, err, error_at, ErrorCode, overflow, out_of_range}

abbrev pub u32_max : ℕ
u32_max = 0xffff_ffff

abbrev pub u64_max : ℕ
u64_max = 0xffff_ffff_ffff_ffff

abbrev pub u64_mod : ℕ
u64_mod = 0x1_0000_0000_0000_0000

-- The product is taken in 64 bits, which two 32-bit factors cannot leave.
unfoldable pub safe_mul32 : ℕ → ℕ → ℕ → Result ℕ
safe_mul32 a b offset =
    let product = (a * b) % u64_mod in
    if ltb u32_max product then error_at overflow offset else ok (product % 2 ^ 32)

unfoldable pub safe_mul64 : ℕ → ℕ → ℕ → Result ℕ
safe_mul64 a b offset =
    if not (a == 0) && ltb (u64_max / a) b then error_at overflow offset else ok ((a * b) % u64_mod)

unfoldable pub safe_add64 : ℕ → ℕ → ℕ → Result ℕ
safe_add64 a b offset =
    if ltb (u64_max - a) b then error_at overflow offset else ok ((a + b) % u64_mod)

unfoldable pub saturating_add64 : ℕ → ℕ → ℕ
saturating_add64 a b = if ltb (u64_max - a) b then u64_max else (a + b) % u64_mod

unfoldable pub bounded_count : ℕ → ℕ → Result ℕ
bounded_count untrusted bound =
    if ltb bound untrusted then error_at out_of_range 0 else ok untrusted
