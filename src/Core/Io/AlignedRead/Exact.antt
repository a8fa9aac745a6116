-- ===== src/Core/Io/AlignedRead/Exact.antt =====
-- `read_through_alignment`: any read is answered out of aligned ones.
use data_recovery.Prelude.{
  ℕ, ◌+◌, ◌-◌, ◌*◌, ◌/◌, ◌%◌, ◌≤◌, ◌<◌, ◌≡◌, sym, ap, ◌∙◌, List, false, ◌&&◌, ◌==◌, min, length,
  slice, arith, Bool-cases, inl, inr, length-take, length-drop, drop, slice-slice,
}
use native.Mathlib.Nat.{div-add-mod, mod-lt, mul-mod_left}
use data_recovery.Core.Result.{ok, transform}
use data_recovery.Core.SafeArith.{u64_max, u64_mod}
use data_recovery.Core.Io.{ReadAt}
use data_recovery.Core.Io.AlignedRead.{
  AlignedWindow, sectors_of, aligned_window, usable_bytes, taken_from, read_through_alignment,
}
use data_recovery.Core.Io.ReadRange.Exact.{slice-min}

-- The device answers the reads whose offset and count are whole sectors.
pub record IsAlignedDevice (read_aligned : ReadAt) (sector : ℕ) (contents : List ℕ) : Type 0 where
  pub answers_aligned :
      (offset count : ℕ)
      → offset % sector ≡ 0
      → count % sector ≡ 0
      → offset ≤ length contents
      → read_aligned offset count ≡ ok (slice contents offset count)

-- What the aligned read covers.
record IsWindow (offset count sector : ℕ) (window : AlignedWindow) : Type 0 where
  starts : window.offset + window.skip ≡ offset
  start_aligned : window.offset % sector ≡ 0
  length_aligned : window.length % sector ≡ 0
  covers_all : window.skip + count ≤ window.length

round_down :
    (offset sector : ℕ)
    → 0 < sector
    → (offset / sector * sector ≤ offset) × (offset - offset / sector * sector < sector)
round_down offset sector pos =
    let e = div-add-mod offset sector in
    let l = mod-lt offset {m = sector} pos in
    let same : offset / sector * sector + offset % sector ≡ offset = grind (arith, e) in
    (omega (arith, same), omega (arith, same, l))

round_up :
    (span sector : ℕ)
    → 0 < sector
    → (span ≤ (span + sector - 1) / sector * sector)
      × ((span + sector - 1) / sector * sector ≤ span + sector)
round_up span sector pos =
    let (lo, hi) = round_down (span + sector - 1) sector pos in
    (omega (arith, lo, hi), omega (arith, lo, hi))

abbrev skip_of : ℕ → ℕ → ℕ
skip_of offset sector = offset - offset / sector * sector

-- The window without the wrap-arounds, which do not happen.
abbrev window_of : ℕ → ℕ → ℕ → AlignedWindow
window_of offset count sector = record {
  offset = offset / sector * sector;
  length = (skip_of offset sector + count + sector - 1) / sector * sector;
  skip = skip_of offset sector;
}

aligned_window_lem :
    (offset count sector_size : ℕ)
    → 0 < sector_size
    → offset + count + sector_size + sector_size ≤ u64_max
    → aligned_window (record { offset = offset; length = count }) sector_size
      ≡ window_of offset count sector_size
unfolding aligned_window sectors_of
aligned_window_lem offset count sector_size pos fits =
    let nonzero : (sector_size == 0) ≡ false = ground arith in
    let span : (skip_of offset sector_size + count) % u64_mod ≡ skip_of offset sector_size + count =
      omega (arith, fits) in
    let rounded : (skip_of offset sector_size + count + sector_size - 1) % u64_mod
        ≡ skip_of offset sector_size + count + sector_size - 1 =
      omega (arith, fits, pos) in
    let up = round_up (skip_of offset sector_size + count) sector_size pos in
    let whole : (skip_of offset sector_size + count + sector_size - 1)
          / sector_size
          * sector_size
          % u64_mod
        ≡ (skip_of offset sector_size + count + sector_size - 1) / sector_size * sector_size =
      omega (arith, fits, up.1) in
    rw (nonzero, span, rounded, whole)

window_of-IsWindow :
    (offset count sector : ℕ)
    → 0 < sector
    → IsWindow offset count sector (window_of offset count sector)
window_of-IsWindow offset count sector pos =
    let down = round_down offset sector pos in
    let up = round_up (skip_of offset sector + count) sector pos in
    record {
      starts = omega (arith, down.0);
      start_aligned = mul-mod_left (offset / sector) sector;
      length_aligned = mul-mod_left ((skip_of offset sector + count + sector - 1) / sector) sector;
      covers_all = up.0;
    }

taken_from-slice :
    (contents : List ℕ) (offset count sector : ℕ) (window : AlignedWindow)
    → IsWindow offset count sector window
    → offset ≤ length contents
    → taken_from window count (slice contents window.offset window.length)
      ≡ slice contents offset count
unfolding taken_from usable_bytes
taken_from-slice contents offset count sector window w inside =
    let bounce = slice contents window.offset window.length in
    let held : length bounce ≡ min window.length (length contents - window.offset) =
      length-take window.length (drop window.offset contents)
      ∙ ap (min window.length) (length-drop window.offset contents) in
    let starts = w.starts in
    let all = w.covers_all in
    let usable : usable_bytes window (length bounce) count ≡ min count (length contents - offset) =
      unfold usable_bytes in ground (arith, held, starts, all, inside) in
    ap (slice bounce window.skip) usable
    ∙ slice-slice contents window.offset window.length window.skip
        (min count (length contents - offset)) (omega (arith, all))
    ∙ ap (λ o. slice contents o (min count (length contents - offset))) starts
    ∙ slice-min contents offset count inside

-- Through the alignment, a device that answers only whole sectors answers every read that begins on
-- it with what it holds, for sectors of at least one byte and a request that, with two sectors
-- more, ends within 64 bits.
pub read_through_alignment-slice :
    (read_aligned : ReadAt) (sector_size : ℕ) (contents : List ℕ) (offset count : ℕ)
    → IsAlignedDevice read_aligned sector_size contents
    → 0 < sector_size
    → offset ≤ length contents
    → offset + count + sector_size + sector_size ≤ u64_max
    → read_through_alignment offset count sector_size read_aligned
      ≡ ok (slice contents offset count)
unfolding read_through_alignment
read_through_alignment-slice read_aligned sector_size contents offset count real pos inside fits =
    let e = aligned_window_lem offset count sector_size pos fits in
    let w = window_of-IsWindow offset count sector_size pos in
    let window = window_of offset count sector_size in
    let starts = w.starts in
    elim (Bool-cases ((window.skip == 0) && (window.length == count))) [
      | inl aligned ↦
          let at : window.offset ≡ offset = ground (arith, aligned, starts) in
          let size : window.length ≡ count = ground (arith, aligned) in
          rw (e, aligned)
            (real.answers_aligned offset count
              (ap (λ o. o % sector_size) (sym at) ∙ w.start_aligned)
              (ap (λ n. n % sector_size) (sym size) ∙ w.length_aligned) inside)
      | inr bounced ↦
          rw (e, bounced)
            (ap (transform (taken_from window count)) (
                real.answers_aligned window.offset window.length w.start_aligned w.length_aligned
                  (omega (arith, starts, inside)))
              ∙ ap ok (taken_from-slice contents offset count sector_size window w inside))
    ]
