-- ===== src/Core/SafeArith/Exact.antt =====
-- The checked operations of SafeArith.cpp against plain arithmetic.
use data_recovery.Prelude.{ℕ, ◌+◌, ◌*◌, ◌/◌, ◌≤◌, ◌<◌, ◌≡◌, ltb, if◌then◌else◌, arith, min}
use native.Mathlib.Nat.{div-add-mod, mod-lt}
use data_recovery.Core.Result.{ok, error_at, overflow}
use data_recovery.Core.SafeArith.{
  u32_max, u64_max, safe_mul32, safe_mul64, safe_add64, saturating_add64,
}

-- A sum of two 64-bit numbers is returned exactly when it fits in 64 bits, and refused as an overflow otherwise.
pub safe_add64_exact :
    (a b offset : ℕ)
    → a ≤ u64_max
    → b ≤ u64_max
    → safe_add64 a b offset ≡ (if ltb u64_max (a + b) then error_at overflow offset else ok (a + b))
unfolding safe_add64
safe_add64_exact a b offset ha hb = ground arith

pub mul_le : (a b m n : ℕ) → a ≤ m → b ≤ n → a * b ≤ m * n
mul_le a b m n h k = grind arith

-- The division test of `safeMul64` decides whether the product is in range.
div_lt→lt_mul : (m a b : ℕ) → 0 < a → m / a < b → m < a * b
div_lt→lt_mul m a b pos h = grind (arith, div-add-mod m a, mod-lt m {m = a} pos)

le_div→mul_le : (m a b : ℕ) → b ≤ m / a → a * b ≤ m
le_div→mul_le m a b h = grind (arith, div-add-mod m a)

-- A product of two 32-bit numbers is returned exactly when it fits in 32 bits, and refused as an
-- overflow otherwise.
pub safe_mul32_exact :
    (a b offset : ℕ)
    → a ≤ u32_max
    → b ≤ u32_max
    → safe_mul32 a b offset ≡ (if ltb u32_max (a * b) then error_at overflow offset else ok (a * b))
unfolding safe_mul32
safe_mul32_exact a b offset ha hb = ground (arith, mul_le a b u32_max u32_max ha hb)

-- A product of two 64-bit numbers is returned exactly when it fits in 64 bits, and refused as an
-- overflow otherwise.
pub safe_mul64_exact :
    (a b offset : ℕ)
    → a ≤ u64_max
    → b ≤ u64_max
    → safe_mul64 a b offset ≡ (if ltb u64_max (a * b) then error_at overflow offset else ok (a * b))
unfolding safe_mul64
safe_mul64_exact a b offset ha hb =
    ground (arith, div_lt→lt_mul u64_max a b, le_div→mul_le u64_max a b)

-- The saturating sum of two 64-bit numbers is the exact one, cut off at the largest 64-bit number.
pub saturating_add64-min :
    (a b : ℕ) → a ≤ u64_max → b ≤ u64_max → saturating_add64 a b ≡ min u64_max (a + b)
unfolding saturating_add64
saturating_add64-min a b ha hb = ground arith

-- Of two 64-bit numbers, the sum and the product are returned exactly when they fit in 64 bits, and
-- refused as an overflow otherwise; the saturating sum is the exact one, cut off at the largest
-- 64-bit number.
pub checked_exact :
    (a b offset : ℕ)
    → a ≤ u64_max
    → b ≤ u64_max
    → (safe_add64 a b offset
        ≡ (if ltb u64_max (a + b) then error_at overflow offset else ok (a + b)))
      × (safe_mul64 a b offset
          ≡ (if ltb u64_max (a * b) then error_at overflow offset else ok (a * b)))
      × (saturating_add64 a b ≡ min u64_max (a + b))
checked_exact a b offset ha hb = (
  safe_add64_exact a b offset ha hb,
  safe_mul64_exact a b offset ha hb,
  saturating_add64-min a b ha hb,
)
