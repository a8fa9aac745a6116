-- ===== src/Fs/Ntfs/Runlist.antt =====
-- src/fs/ntfs/RunlistRun.cpp and src/fs/ntfs/Runlist.cpp: the data runs of a non-resident
-- attribute. A byte is a number, and `int64_t` a delta by its sign.
pub mod Encoder
pub mod Bytes
pub mod Deltas
pub mod Widths
pub mod Steps
pub mod RoundTrip
pub mod Sound
use data_recovery.Prelude.{
  ℕ, zero, suc, ◌+◌, ◌-◌, ◌*◌, ◌/◌, ◌%◌, ◌^◌, List, [], ◌∷◌, ◌++◌, Bool, true, false, ◌&&◌, ◌||◌,
  ltb, leb, ◌==◌, if◌then◌else◌, length, take, drop,
}
use data_recovery.Core.Result.{
  Result, ok, err, ◌>>=◌, transform, error_at, out_of_range, invalid_argument, overflow,
}
use data_recovery.Core.SafeArith.{u64_max, u64_mod, bounded_count}
use data_recovery.Core.Bytes.{bytes, read_le}

-- A signed number: `negsuc n` is -(n + 1).
pub data ℤ : Type 0 where
  pos : ℕ → ℤ
  negsuc : ℕ → ℤ

abbrev pub i64_max : ℕ
i64_max = 0x7fff_ffff_ffff_ffff

pub record DataRun : Type 0 where
  pub start_cluster : ℕ
  pub length_clusters : ℕ
  pub sparse : Bool

pub record Runlist : Type 0 where
  pub runs : List DataRun
  pub total_clusters : ℕ

abbrev pub max_data_runs : ℕ
max_data_runs = 1024

pub record RunHeader : Type 0 where
  pub length_width : ℕ
  pub offset_width : ℕ

pub record RawRun : Type 0 where
  pub length_clusters : ℕ
  pub raw_offset : ℕ
  pub offset_width : ℕ
  pub encoded_size : ℕ

-- The nibbles of the header byte.
unfoldable pub header_of : ℕ → ℕ → Result RunHeader
header_of cursor raw =
    let length_width = raw % 16 in
    let offset_width = raw / 16 % 16 in
    if length_width == 0 || (ltb 8 length_width || ltb 8 offset_width)
    then error_at invalid_argument cursor
    else ok (record { length_width = length_width; offset_width = offset_width })

-- `readRunHeader`
unfoldable pub read_run_header : List ℕ → ℕ → Result RunHeader
unfolding header_of
read_run_header span cursor = do raw ← read_le 1 span cursor; header_of cursor raw

-- `readLeField`: the last byte is shifted in first; `|` adds a byte to a number shifted by eight.
unfoldable pub read_le_field : List ℕ → ℕ
read_le_field [] = 0
read_le_field (part ∷ field) = read_le_field field * 256 % u64_mod + part

-- `makeRawRun`
unfoldable pub make_raw_run : List ℕ → RunHeader → ℕ → Result RawRun
unfolding read_le_field
make_raw_run fields widths offset =
    let length_clusters = read_le_field (take widths.length_width fields) in
    if length_clusters == 0
    then error_at invalid_argument offset
    else ok (record {
      length_clusters = length_clusters;
      raw_offset = read_le_field (drop widths.length_width fields);
      offset_width = widths.offset_width;
      encoded_size = 1 + widths.length_width + widths.offset_width;
    })

-- `readRunFields`, then `makeRawRun`
unfoldable pub raw_run_of : List ℕ → ℕ → RunHeader → Result RawRun
unfolding make_raw_run
raw_run_of span cursor header = do
  fields ← bytes span (cursor + 1) (header.length_width + header.offset_width)
  make_raw_run fields header cursor

-- `readRawRun`
unfoldable pub read_raw_run : List ℕ → ℕ → Result RawRun
unfolding read_run_header raw_run_of
read_raw_run span cursor = do header ← read_run_header span cursor; raw_run_of span cursor header

-- The number that a 64-bit pattern stands for, and its arithmetic shift to the right.
abbrev pub signed64 : ℕ → ℤ
signed64 w = if ltb w (2 ^ 63) then pos w else negsuc (u64_mod - w - 1)

abbrev pub shift_right : ℤ → ℕ → ℤ
shift_right (pos n) k = pos (n / 2 ^ k)
shift_right (negsuc n) k = negsuc (n / 2 ^ k)

-- `signedDelta`
unfoldable pub signed_delta : ℕ → ℕ → ℤ
signed_delta raw_offset offset_width =
    let shift = (8 - offset_width) * 8 in
    shift_right (signed64 (raw_offset * 2 ^ shift % u64_mod)) shift

-- `nextLcn`: no more than the largest `int64_t`, and no less than zero.
unfoldable pub next_lcn_by : ℕ → ℤ → ℕ → Result ℕ
next_lcn_by previous (pos d) offset =
    if ltb 0 d && ltb (i64_max - d) previous then error_at overflow offset else ok (previous + d)
next_lcn_by previous (negsuc n) offset =
    if leb previous n then error_at invalid_argument offset else ok (previous - suc n)

unfoldable pub next_lcn : ℕ → RawRun → ℕ → Result ℕ
unfolding next_lcn_by
next_lcn previous raw offset =
    next_lcn_by previous (signed_delta raw.raw_offset raw.offset_width) offset

-- `placeRun`
unfoldable pub place_run : RawRun → ℕ → ℕ → Result DataRun
unfolding next_lcn
place_run raw previous offset =
    if raw.offset_width == 0
    then ok (record { start_cluster = 0; length_clusters = raw.length_clusters; sparse = true })
    else transform
        (λ lcn. record {
          start_cluster = lcn;
          length_clusters = raw.length_clusters;
          sparse = false;
        })
        (next_lcn previous raw offset)

-- `lcnAfter`
unfoldable pub lcn_after : DataRun → ℕ → ℕ
lcn_after run previous = if run.sparse then previous else run.start_cluster

-- `checkedTotal`: the two guards on the growing list.
unfoldable pub checked_total : Runlist → DataRun → ℕ → Result ℕ
unfolding bounded_count
checked_total runlist run offset = elim (bounded_count (length runlist.runs + 1) max_data_runs) [
  | err e ↦ error_at out_of_range offset
  | ok n ↦
      if ltb (u64_max - runlist.total_clusters) run.length_clusters
      then error_at overflow offset
      else ok (runlist.total_clusters + run.length_clusters)
]

pub record DecodeState : Type 0 where
  pub cursor : ℕ
  pub previous_lcn : ℕ

-- One step: the end was reached, or a run was appended.
pub data Step : Type 0 where
  end_reached : Step
  run_appended : DecodeState → Runlist → Step

-- `storeRun`
unfoldable pub store_run : DataRun → ℕ → DecodeState → Runlist → Result Step
unfolding checked_total lcn_after
store_run run encoded_size state runlist = do
  total ← checked_total runlist run state.cursor
  ok (
      run_appended
        (record {
          cursor = state.cursor + encoded_size;
          previous_lcn = lcn_after run state.previous_lcn;
        })
        (record { runs = runlist.runs ++ (run ∷ []); total_clusters = total }))

-- `appendRun`
unfoldable pub append_run : RawRun → DecodeState → Runlist → Result Step
unfolding place_run store_run
append_run raw state runlist = do
  run ← place_run raw state.previous_lcn state.cursor
  store_run run raw.encoded_size state runlist

-- `stepOneRun`, on the byte under the cursor, which `classifyCursor` reads.
unfoldable pub step_at : List ℕ → ℕ → DecodeState → Runlist → Result Step
unfolding append_run
step_at span header state runlist =
    if header == 0
    then ok end_reached
    else (do raw ← read_raw_run span state.cursor; append_run raw state runlist)

unfoldable pub step_one_run : List ℕ → DecodeState → Runlist → Result Step
unfolding step_at
step_one_run span state runlist = do
  header ← read_le 1 span state.cursor
  step_at span header state runlist

-- The answer of the decoder, or that the fuel ran out.
pub data Decoded : Type 0 where
  done : Result Runlist → Decoded
  stuck : Decoded

-- The loop of `decodeRunlist`.
unfoldable pub decode_loop : List ℕ → ℕ → DecodeState → Runlist → Decoded
decode_loop span zero state runlist = stuck
decode_loop span (suc fuel) state runlist = elim (step_one_run span state runlist) [
  | err e ↦ done (err e)
  | ok end_reached ↦ done (ok runlist)
  | ok (run_appended state' runlist') ↦ decode_loop span fuel state' runlist'
]

abbrev pub empty_runlist : Runlist
empty_runlist = record { runs = []; total_clusters = 0 }

-- `decodeRunlist`. Each round takes two bytes at least.
unfoldable pub decode_runlist : List ℕ → Decoded
unfolding decode_loop
decode_runlist span =
    decode_loop span (length span + 1) (record { cursor = 0; previous_lcn = 0 }) empty_runlist
