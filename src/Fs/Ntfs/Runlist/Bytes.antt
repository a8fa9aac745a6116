-- ===== src/Fs/Ntfs/Runlist/Bytes.antt =====
-- The fields of a run as bytes: what the encoder writes in a given width, the decoder reads.
use data_recovery.Prelude.{
  ℕ, zero, suc, ◌+◌, ◌*◌, ◌/◌, ◌^◌, ◌≤◌, ◌<◌, ◌≡◌, refl, ap, ap₂, ◌∷◌, arith, length,
}
use native.Mathlib.Nat.{pow-suc}
use data_recovery.Core.SafeArith.{u64_mod}
use data_recovery.Fs.Ntfs.Runlist.{read_le_field}
use data_recovery.Fs.Ntfs.Runlist.Encoder.{le_bytes}

pub length-le_bytes : (value width : ℕ) → length (le_bytes value width) ≡ width
unfolding le_bytes
length-le_bytes value zero = refl
length-le_bytes value (suc width) = ap suc (length-le_bytes (value / 256) width)

read_le_field-le_bytes :
    (width value : ℕ)
    → value < u64_mod
    → value < 256 ^ width
    → read_le_field (le_bytes value width) ≡ value
unfolding le_bytes read_le_field
read_le_field-le_bytes zero value h k = omega arith
read_le_field-le_bytes (suc width) value h k =
    let p : 256 ^ suc width ≡ 256 ^ width * 256 = pow-suc 256 width in
    ground (arith, p, read_le_field-le_bytes width (value / 256))

-- Only the part below 256 ^ width is written.
le_bytes_low :
    (width q r value : ℕ)
    → value ≡ q * 256 ^ width + r
    → r < 256 ^ width
    → le_bytes value width ≡ le_bytes r width
unfolding le_bytes
le_bytes_low zero q r value e h = refl
le_bytes_low (suc width) q r value e h =
    let p : 256 ^ suc width ≡ 256 ^ width * 256 = pow-suc 256 width in
    let split : value ≡ q * 256 ^ width * 256 + r = omega (arith, ap (λ (t : ℕ). q * t) p) in
    ap₂ ◌∷◌ (omega (arith, split))
      (le_bytes_low width q (r / 256) (value / 256) (omega (arith, split)) (omega (arith, p)))

-- A property of every width that a field can have.
pub eight_widths :
    (P : ℕ → Type 0)
    → P 1
    → P 2
    → P 3
    → P 4
    → P 5
    → P 6
    → P 7
    → P 8
    → (width : ℕ) → 1 ≤ width
    → width ≤ 8
    → P width
eight_widths P a b c d e f g h zero lo hi = absurd (omega arith)
eight_widths P a b c d e f g h (suc zero) lo hi = a
eight_widths P a b c d e f g h (suc (suc zero)) lo hi = b
eight_widths P a b c d e f g h (suc (suc (suc zero))) lo hi = c
eight_widths P a b c d e f g h (suc (suc (suc (suc zero)))) lo hi = d
eight_widths P a b c d e f g h (suc (suc (suc (suc (suc zero))))) lo hi = e
eight_widths P a b c d e f g h (suc (suc (suc (suc (suc (suc zero)))))) lo hi = f
eight_widths P a b c d e f g h (suc (suc (suc (suc (suc (suc (suc zero))))))) lo hi = g
eight_widths P a b c d e f g h (suc (suc (suc (suc (suc (suc (suc (suc zero)))))))) lo hi = h
eight_widths P a b c d e f g h (suc (suc (suc (suc (suc (suc (suc (suc (suc w))))))))) lo hi =
    absurd (omega arith)

abbrev pub ReadsBack : ℕ → Type 0
ReadsBack width =
    (value : ℕ)
    → value < u64_mod
    → value < 2 ^ (width * 8)
    → read_le_field (le_bytes value width) ≡ value

pub reads_back : (width : ℕ) → 1 ≤ width → width ≤ 8 → ReadsBack width
reads_back =
    eight_widths ReadsBack (read_le_field-le_bytes 1) (read_le_field-le_bytes 2)
      (read_le_field-le_bytes 3) (read_le_field-le_bytes 4) (read_le_field-le_bytes 5)
      (read_le_field-le_bytes 6) (read_le_field-le_bytes 7) (read_le_field-le_bytes 8)

-- The low bytes of a pattern, widened again by sign.
pub widen :
    (width q r value : ℕ)
    → value ≡ q * 256 ^ width + r
    → r < 256 ^ width
    → r < u64_mod
    → read_le_field (le_bytes value width) ≡ r
widen width q r value e h k =
    rw (le_bytes_low width q r value e h) (read_le_field-le_bytes width r k h)
