-- ===== src/Tests/Layers.antt =====
-- src/core's checksum, names and retrying device at concrete inputs.
use data_recovery.Prelude.{
  ℕ, ◌+◌, ◌≡◌, refl, List, [], ◌∷◌, ◌||◌, ◌&&◌, ltb, if◌then◌else◌, some, arith, codes, slice,
}
use Prim.Native.Nat.{bit_xor}
use data_recovery.Core.Result.{ok, error_at, io_failure}
use data_recovery.Core.Crc32.{crc32}
use data_recovery.Core.Crc32.Bitwise.{remainder, crc32-remainder}
use data_recovery.Core.Utf16Name.{decode_utf16_name}
use data_recovery.Core.Utf16Name.Utf8.{IsText}
use data_recovery.Core.Utf16Name.Decoded.{decode_utf16_name-IsText}
use data_recovery.Core.Io.BadRange.{BadRange}
use data_recovery.Core.Io.RetryingDevice.{
  FailingDevice, Retrying, retrying_read_at, record_bad, coalesce, insert_bad, merge_all, merge_one,
  joined, end_of, give_up_on, asked, attempt_again, attempt_read, answering, sector_read,
  read_one_sector, step_or_end, fill_from, fill_sectorwise, filled, read_sectorwise,
  whole_or_sectors,
}
use data_recovery.Core.Io.RetryingDevice.Map.{IsMap, lost, lost_in, record_bad-IsMap}

crc32-remainder_example :
    crc32 (codes "12") ≡ bit_xor (remainder 0xffff_ffff (codes "12")) 0xffff_ffff
crc32-remainder_example = crc32-remainder (codes "12") (omega arith, (omega arith, tt))

-- Half a pair of surrogates, and a byte left over.
decode_utf16_name-IsText_example : IsText (decode_utf16_name (0x00 ∷ 0xd8 ∷ 7 ∷ [])).utf8
decode_utf16_name-IsText_example =
    decode_utf16_name-IsText (0x00 ∷ 0xd8 ∷ 7 ∷ []) (omega arith, (omega arith, (omega arith, tt)))

abbrev two_ranges : List BadRange
two_ranges =
    record { offset_bytes = 0; length_bytes = 512 }
    ∷ record { offset_bytes = 1024; length_bytes = 512 }
    ∷ []

two_ranges-IsMap : IsMap two_ranges
two_ranges-IsMap = ((omega arith, (omega arith, tt)), ((omega arith, tt), (tt, tt)))

abbrev between : BadRange
between = record { offset_bytes = 512; length_bytes = 512 }

-- A range that touches both makes one of the three.
record_bad_runs :
    record_bad two_ranges between ≡ record { offset_bytes = 0; length_bytes = 1536 } ∷ []
unfolding record_bad coalesce insert_bad merge_all merge_one joined end_of
record_bad_runs = refl

record_bad-IsMap_example :
    IsMap (record_bad two_ranges between)
    × ((x : ℕ) → lost (record_bad two_ranges between) x ≡ (lost_in between x || lost two_ranges x))
record_bad-IsMap_example = record_bad-IsMap two_ranges between two_ranges-IsMap (omega arith)

-- Eight bytes in sectors of two, of which the second cannot be read.
abbrev eight_bytes : List ℕ
eight_bytes = 1 ∷ 2 ∷ 3 ∷ 4 ∷ 5 ∷ 6 ∷ 7 ∷ 8 ∷ []

abbrev failing : FailingDevice
failing = record {
  read_at = λ n offset count.
      if ltb offset 4 && ltb 2 (offset + count)
      then error_at io_failure offset
      else ok (slice eight_bytes offset count);
  sector_size = 2;
}

abbrev untried : Retrying
untried = record { reads = 0; bad = []; contiguous_lost = 0; lost_run_start = 0 }

retrying_runs : retrying_read_at failing (record { attempts = 3 }) untried 0 8 ≡ (
  record {
    reads = 9;
    bad = record { offset_bytes = 2; length_bytes = 2 } ∷ [];
    contiguous_lost = 0;
    lost_run_start = 2;
  },
  some (ok (1 ∷ 2 ∷ 0 ∷ 0 ∷ 5 ∷ 6 ∷ 7 ∷ 8 ∷ [])),
)
unfolding retrying_read_at record_bad coalesce insert_bad merge_all merge_one joined end_of
    give_up_on asked attempt_again attempt_read answering sector_read read_one_sector step_or_end
    fill_from fill_sectorwise filled read_sectorwise whole_or_sectors
retrying_runs = refl
