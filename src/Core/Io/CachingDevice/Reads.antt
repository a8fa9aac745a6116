-- ===== src/Core/Io/CachingDevice/Reads.antt =====
-- `cached_read_at`: a read through the cache answers what a read of the device does.
use data_recovery.Prelude.{
  ℕ, zero, suc, ◌+◌, ◌-◌, ◌*◌, ◌/◌, ◌%◌, ◌≤◌, ◌<◌, ◌≡◌, refl, ap, ◌∙◌, List, [], ◌∷◌, ◌++◌, true,
  false, ltb, leb, some, min, length, slice, arith, Bool-cases, inl, inr, slice-append,
  length-slice, slice-slice, length-take, length-drop, drop,
}
use native.Mathlib.Nat.{div-add-mod, mod-lt}
use data_recovery.Core.Result.{Result, ok, transform}
use data_recovery.Core.SafeArith.{u64_max, u64_mod}
use data_recovery.Core.Io.{Device, IsDevice}
use data_recovery.Core.Io.ReadRange.{clamp_read_range}
use data_recovery.Core.Io.ReadRange.Exact.{clamp_read_range-IsClamped}
use data_recovery.Core.Io.CachingDevice.{
  CachedBlock, Cache, supply, copy_one_block, Copied, advanced_by, copy_loop, copy_through_cache,
  read_clamped, cached_read_at,
}
use data_recovery.Core.Io.CachingDevice.Sound.{IsCache, block_at-IsAnswered}

advanced_by_lem :
    (cache : Cache) (done step : List ℕ) (rest : Copied)
    → 0 < length step
    → advanced_by cache done (ok step) rest ≡ rest
unfolding advanced_by
advanced_by_lem cache done [] rest h = absurd (omega arith)
advanced_by_lem cache done (b ∷ step) rest h = refl

copy_loop_done :
    (source : Device) (fuel : ℕ) (cache : Cache) (offset count : ℕ) (done : List ℕ)
    → ltb (length done) count ≡ false
    → copy_loop source (suc fuel) cache offset count done ≡ (cache, some (ok done))
unfolding copy_loop
copy_loop_done source fuel cache offset count done h = rw h

copy_loop_next :
    (source : Device) (fuel : ℕ) (cache cache' : Cache) (offset count at left : ℕ)
    (done step : List ℕ)
    → ltb (length done) count ≡ true
    → (offset + length done) % u64_mod ≡ at
    → count - length done ≡ left
    → copy_one_block source cache at left ≡ (cache', ok step)
    → 0 < length step
    → copy_loop source (suc fuel) cache offset count done
      ≡ copy_loop source fuel cache' offset count (done ++ step)
unfolding copy_loop
copy_loop_next source fuel cache cache' offset count at left done step more a l one h =
    rw (more, a, l, one) (advanced_by_lem cache' done step _ h)

-- A position in a block.
in_block :
    (offset size : ℕ)
    → 0 < size
    → (offset / size * size + offset % size ≡ offset) × (offset % size < size)
in_block offset size pos = (grind (arith, div-add-mod offset size), mod-lt offset {m = size} pos)

supply-slice :
    (contents : List ℕ) (start size within count : ℕ) (block : CachedBlock)
    → block.bytes ≡ slice contents start size
    → within < size
    → start + within < length contents
    → 0 < count
    → (n : ℕ) × (supply within count block ≡ slice contents (start + within) n)
      × (0 < n)
      × (n ≤ count)
      × (start + within + n ≤ length contents)
supply-slice contents start size within count block e w h pos =
    let held : length block.bytes ≡ min size (length contents - start) =
      ap length e
      ∙ length-take size (drop start contents)
      ∙ ap (min size) (length-drop start contents) in
    let n = min count (length block.bytes - within) in
    (
      n,
      (let longer : leb (length block.bytes) within ≡ false = ground (arith, held) in
          unfold supply in
          rw longer (
            ap (λ (bs : List ℕ). slice bs within n) e
            ∙ slice-slice contents start size within n (omega (arith, held)))),
      omega (arith, held),
      omega (arith, held),
      omega (arith, held),
    )

module _ (source : Device) (contents : List ℕ) (real : IsDevice source contents) where
  record IsCopied (cache : Cache) (offset count : ℕ) (answer : Cache × Result (List ℕ))
      : Type 0 where
    taken : ℕ
    copied : answer.1 ≡ ok (slice contents offset taken)
    some_bytes : 0 < taken
    fewer : taken ≤ count
    inside : offset + taken ≤ length contents
    kept : IsCache source contents real answer.0

  copy_one_block-IsCopied :
      (cache : Cache) (offset count : ℕ)
      → IsCache source contents real cache
      → offset < length contents
      → 0 < count
      → IsCopied cache offset count (copy_one_block source cache offset count)
  unfolding copy_one_block
  copy_one_block-IsCopied cache offset count h inside pos =
      let (split, within) = in_block offset cache.block_bytes h.sized in
      let a =
        block_at-IsAnswered source contents real cache (offset / cache.block_bytes) h
          (omega (arith, split)) in
      let (n, supplied, some_bytes, fewer, ends) =
        supply-slice contents (offset / cache.block_bytes * cache.block_bytes) cache.block_bytes
          (offset % cache.block_bytes) count a.block a.real_bytes within (omega (arith, split))
          pos in
      record {
        taken = n;
        copied =
            ap (transform (supply (offset % cache.block_bytes) count)) a.answered
            ∙ ap ok (supplied ∙ ap (λ i. slice contents i n) split);
        some_bytes = some_bytes;
        fewer = fewer;
        inside = omega (arith, ends, split);
        kept = a.kept;
      }

  length-part :
      (offset count had : ℕ)
      → (0 < count → offset + count ≤ length contents)
      → had ≤ count
      → length (slice contents offset had) ≡ had
  length-part offset count zero inside part = refl
  length-part offset count (suc had) inside part =
      let ends = inside (omega arith) in
      length-slice contents offset (suc had) (omega (arith, ends))

  copy_loop-copies :
      (fuel : ℕ) (cache : Cache) (offset count had : ℕ)
      → IsCache source contents real cache
      → (0 < count → offset + count ≤ length contents)
      → had ≤ count
      → count < fuel + had
      → (cache' : Cache) × (copy_loop source fuel cache offset count (slice contents offset had)
          ≡ (cache', some (ok (slice contents offset count))))
        × IsCache source contents real cache'
  copy_loop-copies zero cache offset count had h inside part enough = absurd (omega arith)
  copy_loop-copies (suc fuel) cache offset count had h inside part enough =
      let size = length-part offset count had inside part in
      elim (Bool-cases (ltb had count)) [
        | inr all_had ↦
            let whole : had ≡ count = ground (arith, all_had) in
            (
              cache,
              copy_loop_done source fuel cache offset count (slice contents offset had)
                    (ap (λ n. ltb n count) size ∙ all_had)
                  ∙ ap (λ n. (cache, some (ok (slice contents offset n)))) whole,
              h,
            )
        | inl more ↦
            let ends : offset + count ≤ length contents = inside (ground (arith, more)) in
            let in_word = real.addressed in
            let left : had < count = ground (arith, more) in
            let c =
              copy_one_block-IsCopied cache (offset + had) (count - had) h
                (omega (arith, left, ends)) (omega (arith, left)) in
            let joined : slice contents offset had ++ slice contents (offset + had) c.taken
                ≡ slice contents offset (had + c.taken) =
              slice-append contents offset had c.taken in
            let few = c.fewer in
            let some_bytes = c.some_bytes in
            let last = c.inside in
            let (cache', e, kept) =
              copy_loop-copies fuel (copy_one_block source cache (offset + had) (count - had)).0
                offset count (had + c.taken) c.kept inside (omega (arith, few, left))
                (omega (arith, few, some_bytes, enough)) in
            (
              cache',
              copy_loop_next source fuel cache
                    (copy_one_block source cache (offset + had) (count - had)).0 offset count
                    (offset + had) (count - had) (slice contents offset had)
                    (slice contents (offset + had) c.taken) (ap (λ n. ltb n count) size ∙ more)
                    (omega (arith, size, ends, left, in_word)) (omega (arith, size))
                    (ap
                      (λ (r : Result (List ℕ)).
                        ((copy_one_block source cache (offset + had) (count - had)).0, r))
                      c.copied)
                    (omega (arith, length-slice contents (offset + had) c.taken last, some_bytes))
                  ∙ ap
                      (copy_loop source fuel
                        (copy_one_block source cache (offset + had) (count - had)).0 offset count)
                      joined
                  ∙ e,
              kept,
            )
      ]

-- A read through a cache of a device, within 64 bits: the bytes answered are those that the device
-- holds, and the cache is again a cache of the device, within its number of blocks.
pub cached_read_at-slice :
    (source : Device) (contents : List ℕ) (real : IsDevice source contents) (cache : Cache)
    (offset count : ℕ)
    → IsCache source contents real cache
    → offset + count ≤ u64_max
    → (cache' : Cache) × (cached_read_at source cache offset count
        ≡ (cache', some (ok (slice contents offset count))))
      × IsCache source contents real cache'
unfolding cached_read_at read_clamped copy_through_cache
cached_read_at-slice source contents real cache offset count h fits =
    let (want, e, clamped) = clamp_read_range-IsClamped contents offset count fits in
    let (cache', copied, kept) =
      copy_loop-copies source contents real (want + 1) cache offset want 0 h clamped.inside
        (omega arith) (omega arith) in
    (
      cache',
      ap (read_clamped source cache offset) (ap (clamp_read_range offset count) real.sized ∙ e)
          ∙ copied
          ∙ ap (λ (bs : List ℕ). (cache', some (ok bs))) clamped.same,
      kept,
    )
