-- ===== src/Tests/Core.antt =====
-- src/core at concrete inputs.
use data_recovery.Prelude.{◌≡◌, arith}
use data_recovery.Core.Sha256.{
  sha256, finish, absorb_tail, pad_to_length_field, pad_zeros, append_pad_byte, append_pad_bytes,
  absorb_if_whole, update, update_loop, fill_pending, taken, be_bytes, digest_of,
}
use data_recovery.Core.Sha256Block.{
  compress_block, schedule_of, block_words, word_at, expand, small_sigma0, small_sigma1, big_sigma0,
  big_sigma1, rotr, round, working_from, compress, add_into,
}
use data_recovery.Prelude.{List, [], ◌∷◌, refl}
use data_recovery.Core.Result.{ok}
use data_recovery.Prelude.{◌/◌, ◌%◌, ℕ, length, slice, some}
use data_recovery.Core.Sha256.{fresh, block_bytes, initial_state}
use data_recovery.Core.Sha256.Streaming.{IsReady, update-update}
use data_recovery.Core.Sha256.Padding.{compress_blocks, padded, sha256-padded}
use data_recovery.Core.Io.{ReadAt, Device, IsDevice}
use data_recovery.Core.Io.AlignedRead.{read_through_alignment}
use data_recovery.Core.Io.AlignedRead.Exact.{read_through_alignment-slice}
use data_recovery.Core.Io.CachingDevice.{
  Cache, new_cache, cached_read_at, block_bytes_for, bit_ceil_from,
}
use data_recovery.Core.Io.CachingDevice.Sound.{IsCache, new_cache-IsCache}
use data_recovery.Core.Io.CachingDevice.Reads.{cached_read_at-slice}
use data_recovery.Prelude.{codes, false}
use data_recovery.Core.Crc32.{
  crc32, absorb_bytes, absorb_byte, make_table, table_from, table_entry, shift_bits, shift_bit,
}
use data_recovery.Core.NameEscape.{append_escaped_code_unit, append_escaped_byte, hex_digit}
use data_recovery.Core.Utf16Name.{
  decode_utf16_name, decode_full_units, decode_step, decode_high_surrogate, append_trailing_byte,
  append_escaped_unit, append_code_point, utf8_code_point, utf8_four_byte, utf8_three_byte,
  utf8_two_byte, utf8_one_byte, continuation_byte, combine_surrogate_pair, unit_at,
  is_directly_escapable, is_low_surrogate, is_high_surrogate,
}

-- The standard's test vector for "abc".
sha256_abc :
    sha256 (97 ∷ 98 ∷ 99 ∷ [])
    ≡ 0xba ∷ 0x78 ∷ 0x16 ∷ 0xbf ∷ 0x8f ∷ 0x01 ∷ 0xcf ∷ 0xea ∷ 0x41 ∷ 0x41 ∷ 0x40 ∷ 0xde ∷ 0x5d
      ∷ 0xae ∷ 0x22 ∷ 0x23 ∷ 0xb0 ∷ 0x03 ∷ 0x61 ∷ 0xa3 ∷ 0x96 ∷ 0x17 ∷ 0x7a ∷ 0x9c ∷ 0xb4 ∷ 0x10
      ∷ 0xff ∷ 0x61 ∷ 0xf2 ∷ 0x00 ∷ 0x15 ∷ 0xad ∷ []
unfolding sha256 finish absorb_tail pad_to_length_field pad_zeros append_pad_byte append_pad_bytes
    absorb_if_whole update update_loop fill_pending taken be_bytes digest_of compress_block
    schedule_of block_words word_at expand small_sigma0 small_sigma1 big_sigma0 big_sigma1 rotr
    round working_from compress add_into
sha256_abc = refl

sha256-padded_example :
    (sha256 (97 ∷ 98 ∷ 99 ∷ [])
      ≡ digest_of (
          compress_blocks
            (length (padded (97 ∷ 98 ∷ 99 ∷ [])) / block_bytes)
            initial_state
            (padded (97 ∷ 98 ∷ 99 ∷ []))))
    × (length (padded (97 ∷ 98 ∷ 99 ∷ [])) % block_bytes ≡ 0)
sha256-padded_example = sha256-padded (97 ∷ 98 ∷ 99 ∷ [])

update-update_example :
    (update (update fresh (97 ∷ [])) (98 ∷ 99 ∷ []) ≡ update fresh (97 ∷ 98 ∷ 99 ∷ []))
    × IsReady (update fresh (97 ∷ []))
update-update_example = update-update fresh (97 ∷ []) (98 ∷ 99 ∷ []) (omega arith)

-- A device of five bytes with sectors of two.
abbrev five_bytes : List ℕ
five_bytes = 1 ∷ 2 ∷ 3 ∷ 4 ∷ 5 ∷ []

abbrev read_five : ReadAt
read_five = λ offset count. ok (slice five_bytes offset count)

abbrev five_byte_device : Device
five_byte_device = record { read_at = read_five; sector_size = 2; size_in_bytes = 5 }

five_byte_device-IsDevice : IsDevice five_byte_device five_bytes
five_byte_device-IsDevice = record {
  sized = refl;
  addressed = omega arith;
  answers = λ offset count inside fits. refl;
}

abbrev empty_cache : Cache
empty_cache = new_cache five_byte_device (record { block_bytes = 4; block_count = 1 })

blocks_of_four : block_bytes_for (record { block_bytes = 4; block_count = 1 }) 2 ≡ 4
unfolding block_bytes_for bit_ceil_from
blocks_of_four = refl

empty_cache-IsCache : IsCache five_byte_device five_bytes five_byte_device-IsDevice empty_cache
empty_cache-IsCache =
    new_cache-IsCache five_byte_device five_bytes five_byte_device-IsDevice
      (record { block_bytes = 4; block_count = 1 }) (omega (arith, blocks_of_four))

cached_read_at-slice_example :
    (cache' : Cache) × (cached_read_at five_byte_device empty_cache 1 4
      ≡ (cache', some (ok (slice five_bytes 1 4))))
    × IsCache five_byte_device five_bytes five_byte_device-IsDevice cache'
cached_read_at-slice_example =
    cached_read_at-slice five_byte_device five_bytes five_byte_device-IsDevice empty_cache 1 4
      empty_cache-IsCache (omega arith)

read_through_alignment-slice_example :
    read_through_alignment 1 3 2 read_five ≡ ok (slice five_bytes 1 3)
read_through_alignment-slice_example =
    read_through_alignment-slice read_five 2 five_bytes 1 3
      (record { answers_aligned = λ offset count starts ends inside. refl }) (omega arith)
      (omega arith) (omega arith)

-- The check value of the checksum.
crc32_check : crc32 (codes "123456789") ≡ 0xcbf4_3926
unfolding crc32 absorb_bytes absorb_byte make_table table_from table_entry shift_bits shift_bit
crc32_check = refl

-- A letter, a pair of surrogates, and half a pair.
decode_runs :
    decode_utf16_name (b'a' ∷ 0 ∷ 0x3d ∷ 0xd8 ∷ 0x00 ∷ 0xde ∷ 0x00 ∷ 0xd8 ∷ [])
    ≡ record { utf8 = b'a' ∷ 0xf0 ∷ 0x9f ∷ 0x98 ∷ 0x80 ∷ codes "%uD800"; lossless = false }
unfolding decode_utf16_name decode_full_units decode_step decode_high_surrogate append_trailing_byte
    append_escaped_unit append_code_point utf8_code_point utf8_four_byte utf8_three_byte
    utf8_two_byte utf8_one_byte continuation_byte combine_surrogate_pair unit_at
    is_directly_escapable is_low_surrogate is_high_surrogate append_escaped_code_unit
    append_escaped_byte hex_digit
decode_runs = refl
