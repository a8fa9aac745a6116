-- ===== src/Fs/Ntfs/Runlist/Encoder.antt =====
-- tools/imagegen/ntfs/RunlistEncoder.cpp: the writer of runlists, for the images that the
-- decoder is tried on.
use data_recovery.Prelude.{
  ℕ, zero, suc, ◌+◌, ◌-◌, ◌*◌, ◌/◌, ◌%◌, ◌^◌, List, [], ◌∷◌, ◌++◌, Bool, ltb, leb, ◌==◌,
  if◌then◌else◌,
}
use data_recovery.Core.SafeArith.{u64_mod}
use data_recovery.Fs.Ntfs.Runlist.{ℤ, pos, negsuc, DataRun}

-- `unsignedWidth`; `more` is how much wider the field may still become.
unfoldable pub unsigned_width_from : ℕ → ℕ → ℕ → ℕ
unsigned_width_from zero width value = width
unsigned_width_from (suc more) width value =
    let wider = unsigned_width_from more (width + 1) value in
    if value / 2 ^ (width * 8) == 0 then width else wider

unfoldable pub unsigned_width : ℕ → ℕ
unfolding unsigned_width_from
unsigned_width value = unsigned_width_from 7 1 value

-- `value >= -limit && value < limit`
abbrev pub fits_below : ℤ → ℕ → Bool
fits_below (pos n) limit = ltb n limit
fits_below (negsuc n) limit = ltb n limit

-- `signedWidth`
unfoldable pub signed_width_from : ℕ → ℕ → ℤ → ℕ
signed_width_from zero width value = width
signed_width_from (suc more) width value =
    let wider = signed_width_from more (width + 1) value in
    if fits_below value (2 ^ (width * 8 - 1)) then width else wider

unfoldable pub signed_width : ℤ → ℕ
unfolding signed_width_from
signed_width value = signed_width_from 7 1 value

-- The difference of two cluster numbers below 2^63.
unfoldable pub difference : ℕ → ℕ → ℤ
difference a b = if leb b a then pos (a - b) else negsuc (b - a - 1)

-- `static_cast<std::uint64_t>`
abbrev pub pattern64 : ℤ → ℕ
pattern64 (pos n) = n % u64_mod
pattern64 (negsuc n) = u64_mod - 1 - n % u64_mod

-- `appendLe`: the bytes of the field.
unfoldable pub le_bytes : ℕ → ℕ → List ℕ
le_bytes value zero = []
le_bytes value (suc width) = (value % 256) ∷ le_bytes (value / 256) width

pub record RunFields : Type 0 where
  pub length_clusters : ℕ
  pub delta : ℤ
  pub length_width : ℕ
  pub offset_width : ℕ

-- `fieldsFor`
unfoldable pub fields_for : DataRun → ℕ → RunFields
fields_for run previous =
    let delta = difference run.start_cluster previous in
    record {
      length_clusters = run.length_clusters;
      delta = delta;
      length_width = unsigned_width run.length_clusters;
      offset_width = if run.sparse then 0 else signed_width delta;
    }

-- `appendRun`: what it adds to the output.
unfoldable pub run_bytes : RunFields → List ℕ
run_bytes fields =
    (fields.offset_width * 16 + fields.length_width)
    ∷ (le_bytes fields.length_clusters fields.length_width
        ++ le_bytes (pattern64 fields.delta) fields.offset_width)

-- `lcnAfter` of the encoder.
unfoldable pub origin_after : DataRun → ℕ → ℕ
origin_after run previous = if run.sparse then previous else run.start_cluster

-- `encodeRunlist`
unfoldable pub encode_from : ℕ → List DataRun → List ℕ
encode_from previous [] = 0 ∷ []
encode_from previous (run ∷ runs) =
    run_bytes (fields_for run previous) ++ encode_from (origin_after run previous) runs

unfoldable pub encode_runlist : List DataRun → List ℕ
unfolding difference unsigned_width signed_width fields_for le_bytes run_bytes origin_after
    encode_from
encode_runlist runs = encode_from 0 runs
