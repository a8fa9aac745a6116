-- ===== src/Volume/MbrPlacement/Exact.antt =====
-- `partition_of`: neither the start nor the length of a partition wraps around.
use data_recovery.Prelude.{ℕ, ◌*◌, ◌%◌, ◌≤◌, ◌≡◌, ltb, if◌then◌else◌, arith, Bool-cases, inl, inr}
use data_recovery.Core.Result.{ok, error_at, overflow}
use data_recovery.Core.SafeArith.{u32_max, u64_max, u64_mod}
use data_recovery.Core.SafeArith.Exact.{safe_mul64_exact, mul_le}
use data_recovery.Volume.MbrPlacement.{PlacedEntry, partition_of}

-- A placed slot whose start fits in 64 bits, and whose sectors and their size fit in 32, becomes
-- the partition of exactly its bytes, or an overflow if its start in bytes does not fit in 64 bits.
pub partition_of_exact :
    (placed : PlacedEntry) (sector_size : ℕ)
    → placed.start_lba ≤ u64_max
    → placed.sector_count ≤ u32_max
    → sector_size ≤ u32_max
    → partition_of placed sector_size ≡ (
        if ltb u64_max (placed.start_lba * sector_size)
        then error_at overflow 0
        else ok (record {
          start_bytes = placed.start_lba * sector_size;
          length_bytes = placed.sector_count * sector_size;
          type_code = placed.type_code;
          logical = placed.logical;
        }))
unfolding partition_of
partition_of_exact placed sector_size start count size =
    let product = mul_le placed.sector_count sector_size u32_max u32_max count size in
    let whole : (placed.sector_count * sector_size) % u64_mod ≡ placed.sector_count * sector_size =
      omega (arith, product) in
    elim (Bool-cases (ltb u64_max (placed.start_lba * sector_size))) [
      | inl wraps ↦
          rw (safe_mul64_exact placed.start_lba sector_size 0 start (omega (arith, size)), wraps)
      | inr fits ↦
          rw (
            safe_mul64_exact placed.start_lba sector_size 0 start (omega (arith, size)),
            fits,
            whole,
          )
    ]
