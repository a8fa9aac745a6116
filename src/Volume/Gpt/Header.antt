-- ===== src/Volume/Gpt/Header.antt =====
-- src/volume/Gpt.cpp: the header of a table in a sector.
pub mod Believed
use data_recovery.Prelude.{ℕ, List, ltb, if◌then◌else◌, length, take}
use data_recovery.Core.Result.{Result, ◌>>=◌, error_at, out_of_range}
use data_recovery.Volume.Gpt.{GptHeader, gpt_header_bytes}
use data_recovery.Volume.Gpt.HeaderFields.{
  names_gpt, header_size_in, checksum_is_valid, placed_at, header_body_of,
}

-- `verifiedHeader`
unfoldable pub verified_header : List ℕ → ℕ → Result GptHeader
verified_header header at_lba = do
  checksummed ← checksum_is_valid header
  placed ← placed_at header at_lba
  header_body_of header

-- `parseGptHeader`
unfoldable pub parse_gpt_header : List ℕ → ℕ → Result GptHeader
parse_gpt_header sector at_lba =
    if ltb (length sector) gpt_header_bytes then error_at out_of_range (length sector) else (do
      named ← names_gpt sector
      size ← header_size_in sector (length sector)
      verified_header (take size sector) at_lba)
