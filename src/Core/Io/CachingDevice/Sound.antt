-- ===== src/Core/Io/CachingDevice/Sound.antt =====
-- `cached_read_at` over a device answers what the device holds, and the cache stays a cache of it.
use data_recovery.Prelude.{
  ℕ, zero, suc, ◌+◌, ◌-◌, ◌*◌, ◌%◌, ◌≤◌, ◌<◌, ◌≡◌, refl, sym, ap, ◌∙◌, List, [], ◌∷◌, ltb, ◌==◌,
  some, max, length, slice, arith, All, Bool-cases, inl, inr, Option-cases,
}
use data_recovery.Core.Result.{Result, ok}
use data_recovery.Core.SafeArith.{u64_max, u64_mod}
use data_recovery.Core.Io.{Device, IsDevice}
use data_recovery.Core.Io.CachingDevice.{
  CacheShape, bit_ceil_from, block_bytes_for, new_cache, CachedBlock, Cache, find_block,
  without_block, without_last, evict_if_full, load_block, block_found, block_at,
}

find_block-index :
    (index : ℕ) (bs : List CachedBlock) (block : CachedBlock)
    → find_block index bs ≡ some block
    → block.index ≡ index
unfolding find_block
find_block-index index [] block e = cc
find_block-index index (b ∷ bs) block e = elim (Bool-cases (b.index == index)) [
  | inl here ↦
      let same : b ≡ block = cc (rw here at e) in
      ap (λ (c : CachedBlock). c.index) (sym same) ∙ ground (arith, here)
  | inr there ↦ find_block-index index bs block (rw there at e)
]

module _ (source : Device) (contents : List ℕ) (real : IsDevice source contents) where
  -- The block is what the device holds there.
  abbrev pub IsBlock : ℕ → CachedBlock → Type 0
  IsBlock size block = block.bytes ≡ slice contents (block.index * size) size

  -- Every block is what the device holds, the last one ends within 64 bits, and there are no more than the cache's shape has.
  pub record IsCache (cache : Cache) : Type 0 where
    pub sized : 0 < cache.block_bytes
    pub fits : length contents + cache.block_bytes ≤ u64_max
    pub roomy : 0 < cache.block_count
    pub few : length cache.blocks ≤ cache.block_count
    pub blocks_real : All (IsBlock cache.block_bytes) cache.blocks

  All-without_block :
      (size index : ℕ) (bs : List CachedBlock)
      → All (IsBlock size) bs
      → All (IsBlock size) (without_block index bs)
  unfolding without_block
  All-without_block size index [] h = tt
  All-without_block size index (b ∷ bs) h = elim (Bool-cases (b.index == index)) [
    | inl here ↦ rw here h.1
    | inr there ↦ rw there (h.0, All-without_block size index bs h.1)
  ]

  All-without_last :
      (size : ℕ) (bs : List CachedBlock)
      → All (IsBlock size) bs
      → All (IsBlock size) (without_last bs)
  unfolding without_last
  All-without_last size [] h = tt
  All-without_last size (b ∷ []) h = tt
  All-without_last size (b ∷ c ∷ bs) h = (h.0, All-without_last size (c ∷ bs) h.1)

  length-without_last : (bs : List CachedBlock) → length (without_last bs) ≡ length bs - 1
  unfolding without_last
  length-without_last [] = omega arith
  length-without_last (b ∷ []) = omega arith
  length-without_last (b ∷ c ∷ bs) = omega (arith, length-without_last (c ∷ bs))

  -- What was found is in the list, under its index, and the list without it is shorter.
  found_block :
      (size index : ℕ) (bs : List CachedBlock) (block : CachedBlock)
      → All (IsBlock size) bs
      → find_block index bs ≡ some block
      → (block.bytes ≡ slice contents (index * size) size)
        × (suc (length (without_block index bs)) ≡ length bs)
  unfolding find_block without_block
  found_block size index [] block h e = cc
  found_block size index (b ∷ bs) block h e = elim (Bool-cases (b.index == index)) [
    | inl here ↦
        let same : b ≡ block = cc (rw here at e) in
        let at : b.index ≡ index = ground (arith, here) in
        (
          ap (λ (c : CachedBlock). c.bytes) (sym same)
              ∙ h.0
              ∙ ap (λ i. slice contents (i * size) size) at,
          rw here refl,
        )
    | inr there ↦
        let (real', shorter) = found_block size index bs block h.1 (rw there at e) in
        (real', rw there (ap suc shorter))
  ]

  -- A block is answered, and it is the device's.
  pub record IsAnswered (cache : Cache) (index : ℕ) (answer : Cache × Result CachedBlock)
      : Type 0 where
    pub block : CachedBlock
    pub answered : answer.1 ≡ ok block
    pub real_bytes : block.bytes ≡ slice contents (index * cache.block_bytes) cache.block_bytes
    pub kept : IsCache answer.0
    pub same_size : answer.0.block_bytes ≡ cache.block_bytes

  evicted :
      (cache : Cache)
      → IsCache cache
      → (length (evict_if_full cache) < cache.block_count)
        × All (IsBlock cache.block_bytes) (evict_if_full cache)
  unfolding evict_if_full
  evicted cache h = elim (Bool-cases (ltb (length cache.blocks) cache.block_count)) [
    | inl room ↦ rw room (ground (arith, room), h.blocks_real)
    | inr full ↦
        let shorter = length-without_last cache.blocks in
        let count = h.few in
        let roomy = h.roomy in
        rw full (omega arith, All-without_last cache.block_bytes cache.blocks h.blocks_real)
  ]

  load_block-IsAnswered :
      (cache : Cache) (index : ℕ)
      → IsCache cache
      → index * cache.block_bytes ≤ length contents
      → IsAnswered cache index (
          load_block cache index
            (source.read_at (index * cache.block_bytes % u64_mod) cache.block_bytes))
  load_block-IsAnswered cache index h inside =
      let in_word = h.fits in
      let whole : index * cache.block_bytes % u64_mod ≡ index * cache.block_bytes = omega arith in
      let got : source.read_at (index * cache.block_bytes % u64_mod) cache.block_bytes
          ≡ ok (slice contents (index * cache.block_bytes) cache.block_bytes) =
        ap (λ o. source.read_at o cache.block_bytes) whole
        ∙ real.answers (index * cache.block_bytes) cache.block_bytes inside (omega arith) in
      let (short, kept_blocks) = evicted cache h in
      unfold load_block in
      rw got (record {
        block = record {
          index = index;
          bytes = slice contents (index * cache.block_bytes) cache.block_bytes;
        };
        answered = refl;
        real_bytes = refl;
        kept = record {
          sized = h.sized;
          fits = h.fits;
          roomy = h.roomy;
          few = omega arith;
          blocks_real = (refl, kept_blocks);
        };
        same_size = refl;
      })

  pub block_at-IsAnswered :
      (cache : Cache) (index : ℕ)
      → IsCache cache
      → index * cache.block_bytes ≤ length contents
      → IsAnswered cache index (block_at source cache index)
  block_at-IsAnswered cache index h inside = elim (Option-cases (find_block index cache.blocks)) [
    | inl missing ↦
        unfold block_at block_found in rw missing (load_block-IsAnswered cache index h inside)
    | inr (block, found) ↦
        let (held, shorter) =
          found_block cache.block_bytes index cache.blocks block h.blocks_real found in
        let at_index = find_block-index index cache.blocks block found in
        let count = h.few in
        unfold block_at block_found in
        rw found (record {
          block = block;
          answered = refl;
          real_bytes = held;
          kept = record {
            sized = h.sized;
            fits = h.fits;
            roomy = h.roomy;
            few = omega arith;
            blocks_real = (
              held
                  ∙ ap (λ i. slice contents (i * cache.block_bytes) cache.block_bytes)
                      (sym at_index),
              All-without_block cache.block_bytes index cache.blocks h.blocks_real,
            );
          };
          same_size = refl;
        })
  ]

bit_ceil_from-pos : (fuel power n : ℕ) → 0 < power → 0 < bit_ceil_from fuel power n
unfolding bit_ceil_from
bit_ceil_from-pos zero power n h = h
bit_ceil_from-pos (suc fuel) power n h =
    ground (arith, bit_ceil_from-pos fuel (power * 2) n (omega arith))

-- A new cache is a cache of the device, where a block past its end still ends within 64 bits.
pub new_cache-IsCache :
    (source : Device) (contents : List ℕ) (real : IsDevice source contents) (shape : CacheShape)
    → length contents + block_bytes_for shape source.sector_size ≤ u64_max
    → IsCache source contents real (new_cache source shape)
unfolding new_cache block_bytes_for
new_cache-IsCache source contents real shape h = record {
  sized = bit_ceil_from-pos 64 1 (max (max shape.block_bytes source.sector_size) 1) (omega arith);
  fits = h;
  roomy = omega arith;
  few = omega arith;
  blocks_real = tt;
}
