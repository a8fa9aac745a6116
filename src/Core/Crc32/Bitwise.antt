-- ===== src/Core/Crc32/Bitwise.antt =====
-- `crc32` against the checksum bit by bit: each byte is added to the remainder and shifted out.
use Prim.Native.Nat.{bit_xor}
use data_recovery.Prelude.{
  ℕ, zero, suc, ◌+◌, ◌*◌, ◌/◌, ◌%◌, ◌^◌, ◌<◌, ◌≡◌, ◌⊎◌, refl, sym, ap, ◌∙◌, inl, inr, List, [], ◌∷◌,
  get_or, All, arith,
}
use native.Mathlib.Nat.{pow-suc}
use data_recovery.Core.Bytes.{IsByte}
use data_recovery.Core.Crc32.{
  polynomial, shift_bit, shift_bits, table_entry, table_from, make_table, absorb_byte, absorb_bytes,
  crc32,
}
use data_recovery.Core.Crc32.Xor.{
  xor_comm, xor-half, xor-parity, xor_assoc, xor-left, xor-both, xor-fields, and-byte,
  xor-above_byte,
}

shift_bit-even : (a : ℕ) → a % 2 ≡ 0 → shift_bit a ≡ a / 2
unfolding shift_bit
shift_bit-even a h = ground (arith, h)

shift_bit-odd : (a : ℕ) → a % 2 ≡ 1 → shift_bit a ≡ bit_xor polynomial (a / 2)
unfolding shift_bit
shift_bit-odd a h = ground (arith, h)

parity : (a : ℕ) → (a % 2 ≡ 0) ⊎ (a % 2 ≡ 1)
parity a = ground arith

shift_bit-xor : (a b : ℕ) → shift_bit (bit_xor a b) ≡ bit_xor (shift_bit a) (shift_bit b)
shift_bit-xor a b = elim (parity a) [
  | inl even_a ↦ elim (parity b) [
    | inl even_b ↦
        rw (shift_bit-even a even_a, shift_bit-even b even_b)
          (shift_bit-even (bit_xor a b) (omega (arith, xor-parity a b)) ∙ xor-half a b)
    | inr odd_b ↦
        rw (shift_bit-even a even_a, shift_bit-odd b odd_b)
          (shift_bit-odd (bit_xor a b) (omega (arith, xor-parity a b))
            ∙ ap (bit_xor polynomial) (xor-half a b)
            ∙ sym (xor-left polynomial (a / 2) (b / 2)))
  ]
  | inr odd_a ↦ elim (parity b) [
    | inl even_b ↦
        rw (shift_bit-odd a odd_a, shift_bit-even b even_b)
          (shift_bit-odd (bit_xor a b) (omega (arith, xor-parity a b))
            ∙ ap (bit_xor polynomial) (xor-half a b)
            ∙ sym (xor_assoc polynomial (a / 2) (b / 2)))
    | inr odd_b ↦
        rw (shift_bit-odd a odd_a, shift_bit-odd b odd_b)
          (shift_bit-even (bit_xor a b) (omega (arith, xor-parity a b))
            ∙ xor-half a b
            ∙ sym (xor-both polynomial (a / 2) (b / 2)))
  ]
]

shift_bits-xor :
    (n a b : ℕ) → shift_bits n (bit_xor a b) ≡ bit_xor (shift_bits n a) (shift_bits n b)
unfolding shift_bits
shift_bits-xor zero a b = refl
shift_bits-xor (suc n) a b =
    ap (shift_bits n) (shift_bit-xor a b) ∙ shift_bits-xor n (shift_bit a) (shift_bit b)

-- Zeros are shifted out.
shift_bits-mul : (n h : ℕ) → shift_bits n (h * 2 ^ n) ≡ h
unfolding shift_bits
shift_bits-mul zero h = omega arith
shift_bits-mul (suc n) h =
    let double : h * 2 ^ suc n ≡ 2 * (h * 2 ^ n) =
      omega (arith, ap (λ (t : ℕ). h * t) (pow-suc 2 n)) in
    ap (shift_bits n)
      (shift_bit-even (h * 2 ^ suc n) (omega (arith, double)) ∙ omega (arith, double))
    ∙ shift_bits-mul n h

get_or-table_from :
    (left index i : ℕ) → i < left → get_or (table_from index left) i 0 ≡ shift_bits 8 (index + i)
unfolding table_from table_entry
get_or-table_from zero index i h = absurd (omega arith)
get_or-table_from (suc left) index zero h = ap (shift_bits 8) (omega arith)
get_or-table_from (suc left) index (suc i) h =
    get_or-table_from left (suc index) i (omega arith) ∙ ap (shift_bits 8) (omega arith)

-- Eight rounds on a remainder: its low byte picks what is added to the others.
shift_byte : (x : ℕ) → shift_bits 8 x ≡ bit_xor (x / 256) (shift_bits 8 (x % 256))
shift_byte x =
    let parts : x ≡ bit_xor (x / 256 * 2 ^ 8) (x % 256) =
      sym (xor-fields 8 (x / 256) (x % 256) (omega arith) ∙ omega arith) in
    ap (shift_bits 8) parts
    ∙ shift_bits-xor 8 (x / 256 * 2 ^ 8) (x % 256)
    ∙ ap (λ (h : ℕ). bit_xor h (shift_bits 8 (x % 256))) (shift_bits-mul 8 (x / 256))

absorb_byte-shift_bits :
    (crc value : ℕ) → value < 256 → absorb_byte crc value ≡ shift_bits 8 (bit_xor crc value)
unfolding absorb_byte make_table
absorb_byte-shift_bits crc value h =
    let mixed = bit_xor crc value in
    let low = and-byte mixed in
    let entry =
      get_or-table_from 256 0 (mixed % 256) (omega arith) ∙ ap (shift_bits 8) (omega arith) in
    rw (low, entry)
      (xor_comm (shift_bits 8 (mixed % 256)) (crc / 256)
        ∙ ap (λ (y : ℕ). bit_xor y (shift_bits 8 (mixed % 256))) (sym (xor-above_byte crc value h))
        ∙ sym (shift_byte mixed))

-- The remainder after a message, bit by bit.
abbrev pub remainder : ℕ → List ℕ → ℕ
remainder crc [] = crc
remainder crc (value ∷ rest) = remainder (shift_bits 8 (bit_xor crc value)) rest

absorb_bytes-remainder :
    (crc : ℕ) (span : List ℕ) → All IsByte span → absorb_bytes crc span ≡ remainder crc span
unfolding absorb_bytes
absorb_bytes-remainder crc [] h = refl
absorb_bytes-remainder crc (value ∷ rest) h =
    ap (λ (c : ℕ). absorb_bytes c rest) (absorb_byte-shift_bits crc value h.0)
    ∙ absorb_bytes-remainder (shift_bits 8 (bit_xor crc value)) rest h.1

-- The checksum of bytes by the table is the one that adds each byte to the remainder and shifts it
-- out bit by bit, with the polynomial added for each 1 that falls out.
pub crc32-remainder :
    (span : List ℕ)
    → All IsByte span
    → crc32 span ≡ bit_xor (remainder 0xffff_ffff span) 0xffff_ffff
unfolding crc32
crc32-remainder span h =
    ap (λ (c : ℕ). bit_xor c 0xffff_ffff) (absorb_bytes-remainder 0xffff_ffff span h)
