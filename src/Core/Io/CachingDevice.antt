-- ===== src/Core/Io/CachingDevice.antt =====
-- src/core/io/CachingDevice.cpp: a least-recently-used cache of aligned blocks.
pub mod Sound
pub mod Reads
use data_recovery.Prelude.{
  ℕ, zero, suc, ◌+◌, ◌-◌, ◌*◌, ◌/◌, ◌%◌, ◌≤◌, List, [], ◌∷◌, ◌++◌, Bool, true, false, not, ◌&&◌,
  ltb, leb, ◌==◌, if◌then◌else◌, Option, some, none, min, max, length, take, drop, slice,
}
use data_recovery.Core.Result.{Result, ok, err, transform}
use data_recovery.Core.SafeArith.{u64_mod}
use data_recovery.Core.Io.{Device}
use data_recovery.Core.Io.ReadRange.{clamp_read_range}

pub record CacheShape : Type 0 where
  pub block_bytes : ℕ
  pub block_count : ℕ

-- One block of the device, and the bytes that were there.
pub record CachedBlock : Type 0 where
  pub index : ℕ
  pub bytes : List ℕ

-- The blocks, the one used last first. `held_`, which maps an index to its place in the list, is
-- the search for that index.
pub record Cache : Type 0 where
  pub block_bytes : ℕ
  pub block_count : ℕ
  pub blocks : List CachedBlock

-- `std::bit_ceil`: the least power of two that is not less than `n`.
unfoldable pub bit_ceil_from : ℕ → ℕ → ℕ → ℕ
bit_ceil_from zero power n = power
bit_ceil_from (suc fuel) power n =
    let next = bit_ceil_from fuel (power * 2) n in if leb n power then power else next

-- `blockBytesFor`; a size is at most 2 ^ 64.
unfoldable pub block_bytes_for : CacheShape → ℕ → ℕ
block_bytes_for shape sector_size = bit_ceil_from 64 1 (max (max shape.block_bytes sector_size) 1)

-- The constructor.
unfoldable pub new_cache : Device → CacheShape → Cache
new_cache source shape = record {
  block_bytes = block_bytes_for shape source.sector_size;
  block_count = max shape.block_count 1;
  blocks = [];
}

-- `held_.find(index)`
unfoldable pub find_block : ℕ → List CachedBlock → Option CachedBlock
find_block index [] = none
find_block index (b ∷ blocks) = if b.index == index then some b else find_block index blocks

-- The list without the block that was found.
unfoldable pub without_block : ℕ → List CachedBlock → List CachedBlock
without_block index [] = []
without_block index (b ∷ blocks) =
    let rest = without_block index blocks in if b.index == index then blocks else b ∷ rest

-- `pop_back`
unfoldable pub without_last : List CachedBlock → List CachedBlock
without_last [] = []
without_last (b ∷ []) = []
without_last (b ∷ c ∷ blocks) = b ∷ without_last (c ∷ blocks)

-- `evictIfFull`
unfoldable pub evict_if_full : Cache → List CachedBlock
evict_if_full cache =
    if ltb (length cache.blocks) cache.block_count then cache.blocks else without_last cache.blocks

-- `loadBlock`, on the answer of the source.
unfoldable pub load_block : Cache → ℕ → Result (List ℕ) → Cache × Result CachedBlock
load_block cache index (err e) = (cache, err e)
load_block cache index (ok bytes) =
    let block : CachedBlock = record { index = index; bytes = bytes } in
    (record cache { blocks = block ∷ evict_if_full cache }, ok block)

-- `blockAt`, on what was found.
unfoldable pub block_found : Device → Cache → ℕ → Option CachedBlock → Cache × Result CachedBlock
block_found source cache index none =
    load_block cache index (source.read_at (index * cache.block_bytes % u64_mod) cache.block_bytes)
block_found source cache index (some block) =
    (record cache { blocks = block ∷ without_block index cache.blocks }, ok block)

-- `blockAt`
unfoldable pub block_at : Device → Cache → ℕ → Cache × Result CachedBlock
block_at source cache index = block_found source cache index (find_block index cache.blocks)

-- What a block supplies of `count` bytes from `within` on.
unfoldable pub supply : ℕ → ℕ → CachedBlock → List ℕ
supply within count block =
    if leb (length block.bytes) within
    then []
    else slice block.bytes within (min count (length block.bytes - within))

-- `copyOneBlock`
unfoldable pub copy_one_block : Device → Cache → ℕ → ℕ → Cache × Result (List ℕ)
copy_one_block source cache offset count =
    let at = block_at source cache (offset / cache.block_bytes) in
    (at.0, transform (supply (offset % cache.block_bytes) count) at.1)

-- What a copy comes to: the caller's bytes or a fault; `none` when the fuel runs out.
abbrev pub Copied : Type 0
Copied = Cache × Option (Result (List ℕ))

abbrev pub copied_bytes : Result (List ℕ) → List ℕ
copied_bytes (err e) = []
copied_bytes (ok step) = step

-- `advancedBy`, and what the loop makes of it: a block that supplies nothing ends the copy.
unfoldable pub advanced_by : Cache → List ℕ → Result (List ℕ) → Copied → Copied
advanced_by cache done (err e) rest = (cache, some (err e))
advanced_by cache done (ok []) rest = (cache, some (ok done))
advanced_by cache done (ok (b ∷ step)) rest = rest

-- The loop of `copyThroughCache`, with the bytes copied so far.
unfoldable pub copy_loop : Device → ℕ → Cache → ℕ → ℕ → List ℕ → Copied
copy_loop source zero cache offset count done = (cache, none)
copy_loop source (suc fuel) cache offset count done =
    let next =
      copy_one_block source cache ((offset + length done) % u64_mod) (count - length done) in
    let rest = copy_loop source fuel next.0 offset count (done ++ copied_bytes next.1) in
    if ltb (length done) count then advanced_by next.0 done next.1 rest else (cache, some (ok done))

-- `copyThroughCache`: each round but the last copies a byte at least.
unfoldable pub copy_through_cache : Device → Cache → ℕ → ℕ → Copied
copy_through_cache source cache offset count = copy_loop source (count + 1) cache offset count []

-- `CachingDevice::readAt`, on the clamped count.
unfoldable pub read_clamped : Device → Cache → ℕ → Result ℕ → Copied
read_clamped source cache offset (err e) = (cache, some (err e))
read_clamped source cache offset (ok want) = copy_through_cache source cache offset want

unfoldable pub cached_read_at : Device → Cache → ℕ → ℕ → Copied
cached_read_at source cache offset count =
    read_clamped source cache offset (clamp_read_range offset count source.size_in_bytes)
