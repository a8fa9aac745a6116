-- ===== src/Core/Utf16Name.antt =====
-- src/core/Utf16Name.cpp: a name of UTF-16 code units as UTF-8 text, with escapes for what does not
-- decode.
pub mod Utf8
pub mod Decoded
use Prim.Native.Nat.{bit_or}
use data_recovery.Prelude.{
  ℕ, zero, suc, ◌+◌, ◌-◌, ◌*◌, ◌/◌, ◌%◌, ◌^◌, List, [], ◌∷◌, ◌++◌, Bool, true, false, ◌&&◌, ◌||◌,
  ltb, leb, ◌==◌, if◌then◌else◌, length, take, drop, get_or,
}
use data_recovery.Core.Bytes.{le_value}
use data_recovery.Core.NameEscape.{append_escaped_byte, append_escaped_code_unit}

-- The decoded text and whether it says exactly what the units did.
pub record DecodedName : Type 0 where
  pub utf8 : List ℕ
  pub lossless : Bool

-- `isHighSurrogate`
unfoldable pub is_high_surrogate : ℕ → Bool
is_high_surrogate unit = leb 0xd800 unit && leb unit 0xdbff

-- `isLowSurrogate`
unfoldable pub is_low_surrogate : ℕ → Bool
is_low_surrogate unit = leb 0xdc00 unit && leb unit 0xdfff

-- `isDirectlyEscapable`
unfoldable pub is_directly_escapable : ℕ → Bool
is_directly_escapable unit = (unit == 0) || is_low_surrogate unit

-- `unitAt`
unfoldable pub unit_at : List ℕ → ℕ → ℕ
unit_at utf16le index = le_value (take 2 (drop (index * 2) utf16le))

-- `combineSurrogatePair`
unfoldable pub combine_surrogate_pair : ℕ → ℕ → ℕ
combine_surrogate_pair high low = 0x1_0000 + (high - 0xd800) * 2 ^ 10 + (low - 0xdc00)

-- The byte of `appendContinuationByte`.
unfoldable pub continuation_byte : ℕ → ℕ → ℕ
continuation_byte code_point shift = bit_or 0x80 (code_point / 2 ^ shift % 0x40)

-- `appendUtf8OneByte` to `appendUtf8FourByte`: what each appends.
unfoldable pub utf8_one_byte : ℕ → List ℕ
utf8_one_byte code_point = code_point ∷ []

unfoldable pub utf8_two_byte : ℕ → List ℕ
utf8_two_byte code_point = bit_or 0xc0 (code_point / 2 ^ 6) ∷ continuation_byte code_point 0 ∷ []

unfoldable pub utf8_three_byte : ℕ → List ℕ
utf8_three_byte code_point =
    bit_or 0xe0 (code_point / 2 ^ 12)
    ∷ continuation_byte code_point 6
    ∷ continuation_byte code_point 0
    ∷ []

unfoldable pub utf8_four_byte : ℕ → List ℕ
utf8_four_byte code_point =
    bit_or 0xf0 (code_point / 2 ^ 18)
    ∷ continuation_byte code_point 12
    ∷ continuation_byte code_point 6
    ∷ continuation_byte code_point 0
    ∷ []

-- What `appendUtf8CodePoint` appends.
unfoldable pub utf8_code_point : ℕ → List ℕ
utf8_code_point code_point =
    if ltb code_point 0x80
    then utf8_one_byte code_point
    else if ltb code_point 0x800
    then utf8_two_byte code_point
    else if ltb code_point 0x1_0000
    then utf8_three_byte code_point
    else utf8_four_byte code_point

-- `appendCodePoint`
unfoldable pub append_code_point : DecodedName → ℕ → DecodedName
append_code_point state code_point = record state {
  utf8 = state.utf8 ++ utf8_code_point code_point;
}

-- `appendEscapedUnit`
unfoldable pub append_escaped_unit : DecodedName → ℕ → DecodedName
append_escaped_unit state unit = record {
  utf8 = append_escaped_code_unit state.utf8 unit;
  lossless = false;
}

-- `appendTrailingByte`
unfoldable pub append_trailing_byte : DecodedName → ℕ → DecodedName
append_trailing_byte state raw = record {
  utf8 = append_escaped_byte state.utf8 raw;
  lossless = false;
}

-- `decodeHighSurrogate`: the state, and how many units were consumed.
unfoldable pub decode_high_surrogate : DecodedName → List ℕ → ℕ → ℕ → ℕ → DecodedName × ℕ
decode_high_surrogate state utf16le unit_count index high =
    let has_next = ltb (index + 1) unit_count in
    let low = if has_next then unit_at utf16le (index + 1) else 0 in
    if has_next && is_low_surrogate low
    then (append_code_point state (combine_surrogate_pair high low), 2)
    else (append_escaped_unit state high, 1)

-- `decodeStep`
unfoldable pub decode_step : DecodedName → List ℕ → ℕ → ℕ → DecodedName × ℕ
decode_step state utf16le unit_count index =
    let unit = unit_at utf16le index in
    if is_directly_escapable unit
    then (append_escaped_unit state unit, 1)
    else if is_high_surrogate unit
    then decode_high_surrogate state utf16le unit_count index unit
    else (append_code_point state unit, 1)

-- The loop of `decodeFullUnits`, with a round for each unit at most.
unfoldable pub decode_full_units : ℕ → DecodedName → List ℕ → ℕ → ℕ → DecodedName
decode_full_units zero state utf16le unit_count index = state
decode_full_units (suc fuel) state utf16le unit_count index =
    let next = decode_step state utf16le unit_count index in
    let rest = decode_full_units fuel next.0 utf16le unit_count (index + next.1) in
    if ltb index unit_count then rest else state

-- `decodeUtf16Name`
unfoldable pub decode_utf16_name : List ℕ → DecodedName
decode_utf16_name utf16le =
    let unit_count = length utf16le / 2 in
    let state =
      decode_full_units unit_count (record { utf8 = []; lossless = true }) utf16le unit_count 0 in
    if length utf16le % 2 == 0
    then state
    else append_trailing_byte state (get_or utf16le (length utf16le - 1) 0)
