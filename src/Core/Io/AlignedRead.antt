-- ===== src/Core/Io/AlignedRead.antt =====
-- include/revenant/core/io/AlignedRead.hpp: any read, out of a device that answers aligned ones.
pub mod Exact
use data_recovery.Prelude.{
  ℕ, ◌+◌, ◌-◌, ◌*◌, ◌/◌, ◌%◌, List, ◌&&◌, leb, ◌==◌, if◌then◌else◌, min, length, slice,
}
use data_recovery.Core.Result.{Result, transform}
use data_recovery.Core.SafeArith.{u64_mod}
use data_recovery.Core.Io.{ReadAt}

pub record ByteRange : Type 0 where
  pub offset : ℕ
  pub length : ℕ

pub record AlignedWindow : Type 0 where
  pub offset : ℕ
  pub length : ℕ
  pub skip : ℕ

-- `sectorsOf`
unfoldable pub sectors_of : ℕ → ℕ
sectors_of sector_size = if sector_size == 0 then 1 else sector_size

-- `alignedWindow`
unfoldable pub aligned_window : ByteRange → ℕ → AlignedWindow
aligned_window wanted sector_size =
    let sector = sectors_of sector_size in
    let start = wanted.offset / sector * sector in
    let skip = wanted.offset - start in
    let span = (skip + wanted.length) % u64_mod in
    record {
      offset = start;
      length = ((span + sector - 1) % u64_mod / sector * sector) % u64_mod;
      skip = skip;
    }

-- `usableBytes`
unfoldable pub usable_bytes : AlignedWindow → ℕ → ℕ → ℕ
usable_bytes window read wanted =
    if leb read window.skip then 0 else min wanted (read - window.skip)

-- The bytes that `copy_n` takes out of the bounce buffer.
unfoldable pub taken_from : AlignedWindow → ℕ → List ℕ → List ℕ
taken_from window wanted bounce =
    slice bounce window.skip (usable_bytes window (length bounce) wanted)

-- `readThroughAlignment`
unfoldable pub read_through_alignment : ℕ → ℕ → ℕ → ReadAt → Result (List ℕ)
read_through_alignment offset count sector_size read_aligned =
    let window = aligned_window (record { offset = offset; length = count }) sector_size in
    if (window.skip == 0) && (window.length == count)
    then read_aligned offset count
    else transform (taken_from window count) (read_aligned window.offset window.length)
