-- ===== src/Core/NameEscape.antt =====
-- src/core/NameEscape.cpp: what stands in a name for bytes that do not decode. A string is the list
-- of its bytes.
use data_recovery.Prelude.{ℕ, ◌/◌, ◌%◌, ◌^◌, List, [], ◌∷◌, ◌++◌, get_or, codes}

-- The digits of `hexDigit`.
abbrev pub hex_digits : List ℕ
hex_digits = codes "0123456789ABCDEF"

-- `hexDigit`
unfoldable pub hex_digit : ℕ → ℕ
hex_digit nibble = get_or hex_digits (nibble % 2 ^ 4) 0

abbrev pub escape_sigil : ℕ
escape_sigil = b'%'

-- `appendEscapedByte`
unfoldable pub append_escaped_byte : List ℕ → ℕ → List ℕ
append_escaped_byte out raw = out ++ (escape_sigil ∷ hex_digit (raw / 2 ^ 4) ∷ hex_digit raw ∷ [])

-- `appendEscapedCodeUnit`
unfoldable pub append_escaped_code_unit : List ℕ → ℕ → List ℕ
append_escaped_code_unit out unit =
    out
    ++ (escape_sigil
        ∷ b'u'
        ∷ hex_digit (unit / 2 ^ 12)
        ∷ hex_digit (unit / 2 ^ 8)
        ∷ hex_digit (unit / 2 ^ 4)
        ∷ hex_digit unit
        ∷ [])
