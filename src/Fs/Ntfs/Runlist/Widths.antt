-- ===== src/Fs/Ntfs/Runlist/Widths.antt =====
-- The widths that the encoder chooses hold what is written in them.
use data_recovery.Prelude.{
  ℕ, zero, suc, ◌+◌, ◌-◌, ◌*◌, ◌/◌, ◌^◌, ◌≤◌, ◌<◌, ◌≡◌, true, arith, ◌==◌, inl, inr, Bool-cases,
}
use data_recovery.Core.SafeArith.{u64_mod}
use data_recovery.Fs.Ntfs.Runlist.{ℤ}
use data_recovery.Fs.Ntfs.Runlist.Encoder.{
  unsigned_width_from, unsigned_width, signed_width_from, signed_width, fits_below,
}
use data_recovery.Fs.Ntfs.Runlist.Bytes.{eight_widths}

abbrev pub IsWidth : ℕ → Type 0
IsWidth width = (1 ≤ width) × (width ≤ 8)

abbrev ShiftsOut : ℕ → Type 0
ShiftsOut width = (value : ℕ) → (value / 2 ^ (width * 8) == 0) ≡ true → value < 2 ^ (width * 8)

shifts_out : (width : ℕ) → 1 ≤ width → width ≤ 8 → ShiftsOut width
shifts_out =
    eight_widths ShiftsOut (λ v h. ground arith) (λ v h. ground arith) (λ v h. ground arith)
      (λ v h. ground arith) (λ v h. ground arith) (λ v h. ground arith) (λ v h. ground arith)
      (λ v h. ground arith)

unsigned_width_from_lem :
    (more width value : ℕ)
    → width + more ≡ 8
    → 1 ≤ width
    → value < u64_mod
    → IsWidth (unsigned_width_from more width value)
      × (value < 2 ^ (unsigned_width_from more width value * 8))
unfolding unsigned_width_from
unsigned_width_from_lem zero width value e h v =
    let full : width ≡ 8 = omega arith in rw full ((omega arith, omega arith), v)
unsigned_width_from_lem (suc more) width value e h v =
    elim (Bool-cases (value / 2 ^ (width * 8) == 0)) [
      | inl enough ↦ rw enough ((h, omega arith), shifts_out width h (omega arith) value enough)
      | inr wider ↦
          rw wider (unsigned_width_from_lem more (width + 1) value (omega arith) (omega arith) v)
    ]

pub unsigned_width_lem :
    (value : ℕ)
    → value < u64_mod
    → IsWidth (unsigned_width value) × (value < 2 ^ (unsigned_width value * 8))
unfolding unsigned_width
unsigned_width_lem value v = unsigned_width_from_lem 7 1 value (omega arith) (omega arith) v

signed_width_from_lem :
    (more width : ℕ) (value : ℤ)
    → width + more ≡ 8
    → 1 ≤ width
    → fits_below value (2 ^ 63) ≡ true
    → IsWidth (signed_width_from more width value)
      × (fits_below value (2 ^ (signed_width_from more width value * 8 - 1)) ≡ true)
unfolding signed_width_from
signed_width_from_lem zero width value e h v =
    let full : width ≡ 8 = omega arith in rw full ((omega arith, omega arith), v)
signed_width_from_lem (suc more) width value e h v =
    elim (Bool-cases (fits_below value (2 ^ (width * 8 - 1)))) [
      | inl enough ↦ rw enough ((h, omega arith), enough)
      | inr wider ↦
          rw wider (signed_width_from_lem more (width + 1) value (omega arith) (omega arith) v)
    ]

pub signed_width_lem :
    (value : ℤ)
    → fits_below value (2 ^ 63) ≡ true
    → IsWidth (signed_width value) × (fits_below value (2 ^ (signed_width value * 8 - 1)) ≡ true)
unfolding signed_width
signed_width_lem value v = signed_width_from_lem 7 1 value (omega arith) (omega arith) v
