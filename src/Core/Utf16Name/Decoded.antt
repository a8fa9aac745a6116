-- ===== src/Core/Utf16Name/Decoded.antt =====
-- `decode_utf16_name`: what comes out is UTF-8 without a NUL, whatever the units were.
use data_recovery.Prelude.{
  ℕ, zero, suc, ◌+◌, ◌*◌, ◌/◌, ◌%◌, ◌^◌, ◌<◌, ◌≤◌, ◌≡◌, refl, sym, ap, inl, inr, List, [], ◌∷◌,
  ◌++◌, true, false, ◌&&◌, ltb, ◌==◌, if◌then◌else◌, length, drop, get_or, All, arith, Bool-cases,
  holds_below_sound,
}
use mathlib.Core.Path.{subst}
use mathlib.Core.List.{append_assoc, append-nil}
use data_recovery.Core.Bytes.{IsByte}
use data_recovery.Core.Bytes.Bound.{All-drop, le_value-take-lt}
use data_recovery.Core.NameEscape.{
  hex_digits, hex_digit, append_escaped_byte, append_escaped_code_unit,
}
use data_recovery.Core.Utf16Name.{
  DecodedName, is_high_surrogate, is_low_surrogate, is_directly_escapable, unit_at,
  combine_surrogate_pair, utf8_code_point, append_code_point, append_escaped_unit,
  append_trailing_byte, decode_high_surrogate, decode_step, decode_full_units, decode_utf16_name,
}
use data_recovery.Core.Utf16Name.Utf8.{IsScalar, IsSequence, IsText, utf8_code_point-IsSequence}

abbrev pub IsAscii : ℕ → Type 0
IsAscii b = (0 < b) × (b < 0x80)

IsText-append_ascii : (text xs : List ℕ) → IsText text → All IsAscii xs → IsText (text ++ xs)
IsText-append_ascii text [] t h = rw (append-nil text) t
IsText-append_ascii text (x ∷ xs) t h = subst IsText (append_assoc text (x ∷ []) xs) (
    IsText-append_ascii (text ++ (x ∷ [])) xs
      (IsText.longer text (x ∷ []) t (IsSequence.one x (h.0).0 (h.0).1)) h.1)

hex_digit-IsAscii : (nibble : ℕ) → IsAscii (hex_digit nibble)
unfolding hex_digit
hex_digit-IsAscii nibble =
    let test =
      holds_below_sound (λ i. ltb 0 (get_or hex_digits i 0) && ltb (get_or hex_digits i 0) 0x80) 16
        (nibble % 2 ^ 4) refl (omega arith) in
    (ground (arith, test), ground (arith, test))

append_escaped_code_unit-IsText :
    (text : List ℕ) (unit : ℕ) → IsText text → IsText (append_escaped_code_unit text unit)
unfolding append_escaped_code_unit
append_escaped_code_unit-IsText text unit t = IsText-append_ascii text _ t (
  (omega arith, omega arith),
  (
    (omega arith, omega arith),
    (
      hex_digit-IsAscii (unit / 2 ^ 12),
      (
        hex_digit-IsAscii (unit / 2 ^ 8),
        (hex_digit-IsAscii (unit / 2 ^ 4), (hex_digit-IsAscii unit, tt)),
      ),
    ),
  ),
)

append_escaped_byte-IsText :
    (text : List ℕ) (raw : ℕ) → IsText text → IsText (append_escaped_byte text raw)
unfolding append_escaped_byte
append_escaped_byte-IsText text raw t =
    IsText-append_ascii text _ t
      ((omega arith, omega arith), (hex_digit-IsAscii (raw / 2 ^ 4), (hex_digit-IsAscii raw, tt)))

unit_at-lt : (utf16le : List ℕ) (index : ℕ) → All IsByte utf16le → unit_at utf16le index < 0x1_0000
unfolding unit_at
unit_at-lt utf16le index real =
    omega (arith, le_value-take-lt 2 (drop (index * 2) utf16le) (All-drop (index * 2) utf16le real))

append_code_point-IsText :
    (state : DecodedName) (v : ℕ)
    → IsText state.utf8
    → IsScalar v
    → IsText (append_code_point state v).utf8
unfolding append_code_point
append_code_point-IsText state v t h =
    IsText.longer state.utf8 (utf8_code_point v) t (utf8_code_point-IsSequence v h)

append_escaped_unit-IsText :
    (state : DecodedName) (unit : ℕ)
    → IsText state.utf8
    → IsText (append_escaped_unit state unit).utf8
unfolding append_escaped_unit
append_escaped_unit-IsText state unit t = append_escaped_code_unit-IsText state.utf8 unit t

pair-IsScalar :
    (high low : ℕ)
    → is_high_surrogate high ≡ true
    → is_low_surrogate low ≡ true
    → IsScalar (combine_surrogate_pair high low)
unfolding is_high_surrogate is_low_surrogate combine_surrogate_pair
pair-IsScalar high low h k =
    let least : 0xd800 ≤ high = ground (arith, h) in
    let most : high ≤ 0xdbff = ground (arith, h) in
    let most' : low ≤ 0xdfff = ground (arith, k) in
    (omega arith, inr (omega arith, omega (arith, least, most, most')))

decode_high_surrogate-IsText :
    (state : DecodedName) (utf16le : List ℕ) (unit_count index high : ℕ)
    → IsText state.utf8
    → is_high_surrogate high ≡ true
    → IsText ((decode_high_surrogate state utf16le unit_count index high).0).utf8
unfolding decode_high_surrogate
decode_high_surrogate-IsText state utf16le unit_count index high t h =
    elim (Bool-cases (ltb (index + 1) unit_count)) [
      | inr lone ↦ rw lone (append_escaped_unit-IsText state high t)
      | inl next ↦ elim (Bool-cases (is_low_surrogate (unit_at utf16le (index + 1)))) [
        | inl pair ↦
            rw (next, pair)
              (append_code_point-IsText state _ t
                (pair-IsScalar high (unit_at utf16le (index + 1)) h pair))
        | inr lone ↦ rw (next, lone) (append_escaped_unit-IsText state high t)
      ]
    ]

plain-IsScalar :
    (unit : ℕ)
    → unit < 0x1_0000
    → is_directly_escapable unit ≡ false
    → is_high_surrogate unit ≡ false
    → IsScalar unit
unfolding is_directly_escapable is_low_surrogate is_high_surrogate
plain-IsScalar unit fits plain low = elim (Bool-cases (ltb unit 0xd800)) [
  | inl below ↦ (ground (arith, plain), inl (ground (arith, below)))
  | inr above ↦ (ground (arith, plain), inr (ground (arith, above, plain, low), omega arith))
]

decode_step-IsText :
    (state : DecodedName) (utf16le : List ℕ) (unit_count index : ℕ)
    → All IsByte utf16le
    → IsText state.utf8
    → IsText ((decode_step state utf16le unit_count index).0).utf8
unfolding decode_step
decode_step-IsText state utf16le unit_count index real t =
    let unit = unit_at utf16le index in
    elim (Bool-cases (is_directly_escapable unit)) [
      | inl escaped ↦ rw escaped (append_escaped_unit-IsText state unit t)
      | inr plain ↦ elim (Bool-cases (is_high_surrogate unit)) [
        | inl high ↦
            rw (plain, high)
              (decode_high_surrogate-IsText state utf16le unit_count index unit t high)
        | inr low ↦
            rw (plain, low)
              (append_code_point-IsText state unit t
                (plain-IsScalar unit (unit_at-lt utf16le index real) plain low))
      ]
    ]

decode_full_units-IsText :
    (fuel : ℕ) (state : DecodedName) (utf16le : List ℕ) (unit_count index : ℕ)
    → All IsByte utf16le
    → IsText state.utf8
    → IsText (decode_full_units fuel state utf16le unit_count index).utf8
unfolding decode_full_units
decode_full_units-IsText zero state utf16le unit_count index real t = t
decode_full_units-IsText (suc fuel) state utf16le unit_count index real t =
    elim (Bool-cases (ltb index unit_count)) [
      | inl more ↦ rw more (
          decode_full_units-IsText fuel _ utf16le unit_count _ real
            (decode_step-IsText state utf16le unit_count index real t))
      | inr finished ↦ rw finished t
    ]

-- The decoded name is UTF-8 in the shortest form, with no NUL and no surrogate, whatever bytes the
-- units were.
pub decode_utf16_name-IsText :
    (utf16le : List ℕ) → All IsByte utf16le → IsText (decode_utf16_name utf16le).utf8
unfolding decode_utf16_name append_trailing_byte
decode_utf16_name-IsText utf16le real =
    let units =
      decode_full_units-IsText (length utf16le / 2) (record { utf8 = []; lossless = true }) utf16le
        (length utf16le / 2) 0 real IsText.empty in
    elim (Bool-cases (length utf16le % 2 == 0)) [
      | inl even ↦ rw even units
      | inr odd ↦ rw odd (append_escaped_byte-IsText _ _ units)
    ]

-- Each step consumes a unit at least.
decode_step-pos :
    (state : DecodedName) (utf16le : List ℕ) (unit_count index : ℕ)
    → 0 < (decode_step state utf16le unit_count index).1
unfolding decode_step decode_high_surrogate
decode_step-pos state utf16le unit_count index = ground arith

decode_full_units_past :
    (fuel : ℕ) (state : DecodedName) (utf16le : List ℕ) (unit_count index : ℕ)
    → unit_count ≤ index
    → decode_full_units fuel state utf16le unit_count index ≡ state
unfolding decode_full_units
decode_full_units_past zero state utf16le unit_count index h = refl
decode_full_units_past (suc fuel) state utf16le unit_count index h =
    let finished : ltb index unit_count ≡ false = ground (arith, h) in rw finished refl

-- The fuel of the decoder is enough: with any other that is, the answer is the same.
pub decode_full_units_enough :
    (fuel other : ℕ) (state : DecodedName) (utf16le : List ℕ) (unit_count index : ℕ)
    → unit_count ≤ index + fuel
    → unit_count ≤ index + other
    → decode_full_units fuel state utf16le unit_count index
      ≡ decode_full_units other state utf16le unit_count index
unfolding decode_full_units
decode_full_units_enough zero other state utf16le unit_count index h k =
    sym (decode_full_units_past other state utf16le unit_count index (omega arith))
decode_full_units_enough (suc fuel) zero state utf16le unit_count index h k =
    decode_full_units_past (suc fuel) state utf16le unit_count index (omega arith)
decode_full_units_enough (suc fuel) (suc other) state utf16le unit_count index h k =
    let pos = decode_step-pos state utf16le unit_count index in
    let rest =
      decode_full_units_enough fuel other (decode_step state utf16le unit_count index).0 utf16le
        unit_count (index + (decode_step state utf16le unit_count index).1) (omega (arith, pos))
        (omega (arith, pos)) in
    ap (λ (d : DecodedName). if ltb index unit_count then d else state) rest
