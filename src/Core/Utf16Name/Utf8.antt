-- ===== src/Core/Utf16Name/Utf8.antt =====
-- `utf8_code_point` against a description of UTF-8: the bytes of one code point in the shortest form.
use Prim.Native.Nat.{bit_or}
use data_recovery.Prelude.{
  ℕ, ◌+◌, ◌-◌, ◌*◌, ◌/◌, ◌%◌, ◌^◌, ◌<◌, ◌≤◌, ◌≡◌, ◌⊎◌, refl, sym, inl, inr, List, [], ◌∷◌, ◌++◌,
  ltb, ◌==◌, arith, Bool-cases, holds_below_sound, ==_iff,
}
use mathlib.Core.Path.{subst}
use data_recovery.Core.Utf16Name.{
  continuation_byte, utf8_one_byte, utf8_two_byte, utf8_three_byte, utf8_four_byte, utf8_code_point,
}

abbrev pub IsContinuation : ℕ → Type 0
IsContinuation b = (0x80 ≤ b) × (b < 0xc0)

-- A code point that may be encoded: neither a NUL nor a surrogate, nor past the last one.
abbrev pub IsScalar : ℕ → Type 0
IsScalar v = (0 < v) × ((v < 0xd800) ⊎ ((0xdfff < v) × (v ≤ 0x10_ffff)))

-- The bytes of one code point in the shortest form.
pub data IsSequence : List ℕ → Type 0 where
  one : (a : ℕ) → 0 < a → a < 0x80 → IsSequence (a ∷ [])
  two :
      (a b : ℕ)
      → IsContinuation b
      → 0xc0 ≤ a
      → a < 0xe0
      → 0x80 ≤ (a - 0xc0) * 64 + (b - 0x80)
      → IsSequence (a ∷ b ∷ [])
  three :
      (a b c : ℕ)
      → IsContinuation b
      → IsContinuation c
      → 0xe0 ≤ a
      → a < 0xf0
      → 0x800 ≤ (a - 0xe0) * 4096 + (b - 0x80) * 64 + (c - 0x80)
      → IsScalar ((a - 0xe0) * 4096 + (b - 0x80) * 64 + (c - 0x80))
      → IsSequence (a ∷ b ∷ c ∷ [])
  four :
      (a b c d : ℕ)
      → IsContinuation b
      → IsContinuation c
      → IsContinuation d
      → 0xf0 ≤ a
      → a < 0xf8
      → 0x1_0000 ≤ (a - 0xf0) * 262144 + (b - 0x80) * 4096 + (c - 0x80) * 64 + (d - 0x80)
      → (a - 0xf0) * 262144 + (b - 0x80) * 4096 + (c - 0x80) * 64 + (d - 0x80) ≤ 0x10_ffff
      → IsSequence (a ∷ b ∷ c ∷ d ∷ [])

-- A text is sequences, one behind the other.
pub data IsText : List ℕ → Type 0 where
  empty : IsText []
  longer : (text seq : List ℕ) → IsText text → IsSequence seq → IsText (text ++ seq)

bit_or_continuation : (x : ℕ) → x < 64 → bit_or 0x80 x ≡ 0x80 + x
bit_or_continuation x h =
    (==_iff _ _).0 (holds_below_sound (λ x. bit_or 0x80 x == 0x80 + x) 64 x refl h)

bit_or_two : (x : ℕ) → x < 32 → bit_or 0xc0 x ≡ 0xc0 + x
bit_or_two x h = (==_iff _ _).0 (holds_below_sound (λ x. bit_or 0xc0 x == 0xc0 + x) 32 x refl h)

bit_or_three : (x : ℕ) → x < 16 → bit_or 0xe0 x ≡ 0xe0 + x
bit_or_three x h = (==_iff _ _).0 (holds_below_sound (λ x. bit_or 0xe0 x == 0xe0 + x) 16 x refl h)

bit_or_four : (x : ℕ) → x < 8 → bit_or 0xf0 x ≡ 0xf0 + x
bit_or_four x h = (==_iff _ _).0 (holds_below_sound (λ x. bit_or 0xf0 x == 0xf0 + x) 8 x refl h)

continuation_byte_lem : (v shift : ℕ) → continuation_byte v shift ≡ 0x80 + v / 2 ^ shift % 0x40
unfolding continuation_byte
continuation_byte_lem v shift = bit_or_continuation (v / 2 ^ shift % 0x40) (omega arith)

pub utf8_code_point-IsSequence : (v : ℕ) → IsScalar v → IsSequence (utf8_code_point v)
unfolding utf8_code_point utf8_one_byte utf8_two_byte utf8_three_byte utf8_four_byte
utf8_code_point-IsSequence v h = elim (Bool-cases (ltb v 0x80)) [
  | inl small ↦ rw small (IsSequence.one v h.0 (ground (arith, small)))
  | inr wide ↦ elim (Bool-cases (ltb v 0x800)) [
    | inl small ↦
        rw (wide, small, bit_or_two (v / 2 ^ 6) (ground (arith, small)), continuation_byte_lem v 0)
          (IsSequence.two _ _ (omega arith) (omega arith) (ground (arith, small))
            (ground (arith, wide)))
    | inr wider ↦ elim (Bool-cases (ltb v 0x1_0000)) [
      | inl small ↦
          let value : (0xe0 + v / 2 ^ 12 - 0xe0) * 4096
                + (0x80 + v / 2 ^ 6 % 0x40 - 0x80) * 64
                + (0x80 + v / 2 ^ 0 % 0x40 - 0x80)
              ≡ v =
            omega arith in
          rw
            (
              wide,
              wider,
              small,
              bit_or_three (v / 2 ^ 12) (ground (arith, small)),
              continuation_byte_lem v 6,
              continuation_byte_lem v 0,
            )
            (IsSequence.three _ _ _ (omega arith) (omega arith) (omega arith)
              (ground (arith, small)) (ground (arith, wider, value)) (subst IsScalar (sym value) h))
      | inr widest ↦
          let last : v ≤ 0x10_ffff = ground (arith, widest, h) in
          rw
            (
              wide,
              wider,
              widest,
              bit_or_four (v / 2 ^ 18) (omega arith),
              continuation_byte_lem v 12,
              continuation_byte_lem v 6,
              continuation_byte_lem v 0,
            )
            (IsSequence.four _ _ _ _ (omega arith) (omega arith) (omega arith) (omega arith)
              (omega arith) (ground (arith, widest)) (omega arith))
    ]
  ]
]
