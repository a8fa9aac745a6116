-- ===== src/Fs/Ntfs/Runlist/RoundTrip.antt =====
-- The decoder reads back what the encoder wrote.
use data_recovery.Prelude.{
  ℕ, zero, suc, ◌+◌, ◌*◌, ◌/◌, ◌%◌, ◌^◌, ◌≤◌, ◌<◌, ◌≡◌, refl, ◌∙◌, List, [], ◌∷◌, ◌++◌, true, false,
  leb, arith, ◌==◌, inl, inr, Bool-cases, length, length-append,
}
use mathlib.Core.List.{append_assoc, append-nil}
use data_recovery.Core.Result.{ok}
use data_recovery.Core.SafeArith.{u64_max}
use data_recovery.Core.Bytes.{read_le}
use data_recovery.Core.Bytes.At.{bytes_at, read_le_at, take-length, drop-length}
use data_recovery.Fs.Ntfs.Runlist.{
  DataRun, Runlist, RunHeader, DecodeState, done, run_appended, end_reached, i64_max, max_data_runs,
  header_of, read_run_header, read_le_field, raw_run_of, read_raw_run, next_lcn_by, place_run,
  lcn_after, step_at, step_one_run, decode_loop, decode_runlist, empty_runlist,
}
use data_recovery.Fs.Ntfs.Runlist.Encoder.{
  difference, pattern64, le_bytes, fits_below, unsigned_width, signed_width, RunFields, fields_for,
  run_bytes, origin_after, encode_from, encode_runlist,
}
use data_recovery.Fs.Ntfs.Runlist.Steps.{
  IsRun, total_length, step_one_run_lem, step_at_lem, append_run_lem, store_run_lem,
  decode_loop_end, decode_loop_next,
}
use data_recovery.Fs.Ntfs.Runlist.Bytes.{length-le_bytes, reads_back}
use data_recovery.Fs.Ntfs.Runlist.Deltas.{widens_back}
use data_recovery.Fs.Ntfs.Runlist.Widths.{IsWidth, unsigned_width_lem, signed_width_lem}

header_nibbles :
    (cursor lw ow : ℕ)
    → IsWidth lw
    → ow ≤ 8
    → header_of cursor (ow * 16 + lw) ≡ ok (record { length_width = lw; offset_width = ow })
unfolding header_of
header_nibbles cursor lw ow w h =
    let low : (ow * 16 + lw) % 16 ≡ lw = omega arith in
    let high : (ow * 16 + lw) / 16 % 16 ≡ ow = omega arith in rw (low, high) (ground arith)

-- The two fields, read back as one range of bytes.
raw_run_at :
    (pre tail : List ℕ) (h : ℕ) (header : RunHeader) (lengths offsets : List ℕ)
    → length lengths ≡ header.length_width
    → length offsets ≡ header.offset_width
    → 0 < read_le_field lengths
    → raw_run_of (pre ++ (h ∷ ((lengths ++ offsets) ++ tail))) (length pre) header
      ≡ ok (record {
        length_clusters = read_le_field lengths;
        raw_offset = read_le_field offsets;
        offset_width = header.offset_width;
        encoded_size = 1 + header.length_width + header.offset_width;
      })
unfolding raw_run_of
raw_run_at pre tail h header lengths offsets el eo pos_len =
    let fields = lengths ++ offsets in
    let at : length pre + 1 ≡ length (pre ++ (h ∷ [])) =
      omega (arith, length-append pre (h ∷ [])) in
    let count : header.length_width + header.offset_width ≡ length fields =
      omega (arith, length-append lengths offsets) in
    rw
      (
        at,
        count,
        ← append_assoc pre (h ∷ []) (fields ++ tail),
        bytes_at (pre ++ (h ∷ [])) fields tail,
      )
      (rw (← el, take-length lengths offsets, drop-length lengths offsets) (ground arith))

difference_fits :
    (a b : ℕ) → a ≤ i64_max → b ≤ i64_max → fits_below (difference a b) (2 ^ 63) ≡ true
unfolding difference
difference_fits a b h k = ground arith

next_lcn_by-difference :
    (previous start offset : ℕ)
    → start ≤ i64_max
    → previous ≤ i64_max
    → next_lcn_by previous (difference start previous) offset ≡ ok start
unfolding next_lcn_by difference
next_lcn_by-difference previous start offset h k = elim (Bool-cases (leb previous start)) [
  | inl up ↦ rw up (ground arith)
  | inr down ↦ rw down (ground arith)
]

-- What the encoder's fields become again, by the run's kind.
module _ (run : DataRun) (previous : ℕ) (valid : IsRun run) (origin : previous ≤ i64_max) where
  abbrev fields : RunFields
  fields = fields_for run previous

  abbrev offset_pattern : ℕ
  offset_pattern = pattern64 (difference run.start_cluster previous)

  abbrev lengths : List ℕ
  lengths = le_bytes run.length_clusters fields.length_width

  abbrev offsets : List ℕ
  offsets = le_bytes offset_pattern fields.offset_width

  length_width_lem : IsWidth fields.length_width × (read_le_field lengths ≡ run.length_clusters)
  unfolding fields_for
  length_width_lem =
      let (w, small) = unsigned_width_lem run.length_clusters valid.length_fits in
      (
        w,
        reads_back (unsigned_width run.length_clusters) w.0 w.1 run.length_clusters
            valid.length_fits small,
      )

  offset_width-le : fields.offset_width ≤ 8
  unfolding fields_for
  offset_width-le =
      let (w, small) =
        signed_width_lem (difference run.start_cluster previous)
          (difference_fits run.start_cluster previous valid.start_fits origin) in
      ground (arith, w)

  placed :
      (encoded_size offset : ℕ)
      → place_run
          (record {
            length_clusters = run.length_clusters;
            raw_offset = read_le_field offsets;
            offset_width = fields.offset_width;
            encoded_size = encoded_size;
          })
          previous
          offset
        ≡ ok run
  unfolding place_run fields_for
  placed encoded_size offset =
      let (w, small) =
        signed_width_lem (difference run.start_cluster previous)
          (difference_fits run.start_cluster previous valid.start_fits origin) in
      elim (Bool-cases run.sparse) [
        | inl hole ↦ ground (arith, valid.hole hole)
        | inr solid ↦
            let back =
              widens_back (signed_width (difference run.start_cluster previous)) w.0 w.1
                (difference run.start_cluster previous) small in
            let next =
              next_lcn_by-difference previous run.start_cluster offset valid.start_fits origin in
            let some_width : (signed_width (difference run.start_cluster previous) == 0) ≡ false =
              ground (arith, w) in
            rw (solid, some_width, back, next) (cc)
      ]

  -- One run of the encoding, wherever it stands.
  raw_run_read :
      (pre tail : List ℕ)
      → read_raw_run (pre ++ (run_bytes fields ++ tail)) (length pre)
        ≡ ok (record {
          length_clusters = run.length_clusters;
          raw_offset = read_le_field offsets;
          offset_width = fields.offset_width;
          encoded_size = 1 + fields.length_width + fields.offset_width;
        })
  unfolding read_raw_run read_run_header run_bytes read_le le_bytes fields_for
  raw_run_read pre tail =
      let (w, back) = length_width_lem in
      let header : RunHeader = record {
        length_width = fields.length_width;
        offset_width = fields.offset_width;
      } in
      let first =
        read_le_at pre ((lengths ++ offsets) ++ tail)
          (fields.offset_width * 16 + fields.length_width) in
      let nibbles =
        header_nibbles (length pre) fields.length_width fields.offset_width w offset_width-le in
      let read =
        raw_run_at pre tail (fields.offset_width * 16 + fields.length_width) header lengths offsets
          (length-le_bytes run.length_clusters fields.length_width)
          (length-le_bytes offset_pattern fields.offset_width)
          (omega (arith, back, valid.some_clusters)) in
      rw (first, nibbles) (read ∙ rw back)

  first_byte :
      (pre tail : List ℕ)
      → read_le 1 (pre ++ (run_bytes fields ++ tail)) (length pre)
        ≡ ok (fields.offset_width * 16 + fields.length_width)
  unfolding run_bytes fields_for difference
  first_byte pre tail =
      read_le_at pre ((lengths ++ offsets) ++ tail) (fields.offset_width * 16 + fields.length_width)

  length-run_bytes : length (run_bytes fields) ≡ 1 + fields.length_width + fields.offset_width
  unfolding run_bytes le_bytes fields_for
  length-run_bytes = omega (
    arith,
    length-append lengths offsets,
    length-le_bytes run.length_clusters fields.length_width,
    length-le_bytes offset_pattern fields.offset_width,
  )

  -- The step over that run.
  step_over :
      (pre tail : List ℕ) (runlist : Runlist)
      → length runlist.runs + 1 ≤ max_data_runs
      → runlist.total_clusters + run.length_clusters ≤ u64_max
      → step_one_run
          (pre ++ (run_bytes fields ++ tail))
          (record { cursor = length pre; previous_lcn = previous })
          runlist
        ≡ ok (
            run_appended
              (record {
                cursor = length (pre ++ run_bytes fields);
                previous_lcn = lcn_after run previous;
              })
              (record {
                runs = runlist.runs ++ (run ∷ []);
                total_clusters = runlist.total_clusters + run.length_clusters;
              }))
  step_over pre tail runlist room total =
      let state : DecodeState = record { cursor = length pre; previous_lcn = previous } in
      let span = pre ++ (run_bytes fields ++ tail) in
      let raw = raw_run_read pre tail in
      let run_placed = placed (1 + fields.length_width + fields.offset_width) (length pre) in
      let stored =
        store_run_lem run (1 + fields.length_width + fields.offset_width) state runlist room
          total in
      let size : length pre + (1 + fields.length_width + fields.offset_width)
          ≡ length (pre ++ run_bytes fields) =
        omega (arith, length-append pre (run_bytes fields), length-run_bytes) in
      step_one_run_lem span state runlist
      ∙ rw (first_byte pre tail) (
          step_at_lem span (fields.offset_width * 16 + fields.length_width) state runlist
            (omega (arith, length_width_lem))
          ∙ rw raw (append_run_lem _ state runlist ∙ rw run_placed (stored ∙ rw size)))

-- The runs can be stated, and together they stay within the decoder's two bounds.
abbrev pub IsEncodable : ℕ → List DataRun → Type 0
IsEncodable total [] = Unit
IsEncodable total (run ∷ runs) =
    IsRun run
    × (total + run.length_clusters ≤ u64_max)
    × IsEncodable (total + run.length_clusters) runs

-- Both sides move the origin of the deltas alike.
lcn_after-origin_after :
    (run : DataRun) (previous : ℕ) → lcn_after run previous ≡ origin_after run previous
unfolding lcn_after origin_after
lcn_after-origin_after run previous = refl

origin_after-le :
    (run : DataRun) (previous : ℕ)
    → IsRun run
    → previous ≤ i64_max
    → origin_after run previous ≤ i64_max
unfolding origin_after
origin_after-le run previous valid h = elim (Bool-cases run.sparse) [
  | inl hole ↦ rw hole h
  | inr solid ↦ rw solid valid.start_fits
]

end_step :
    (pre : List ℕ) (state : DecodeState) (runlist : Runlist)
    → state.cursor ≡ length pre
    → step_one_run (pre ++ (0 ∷ [])) state runlist ≡ ok end_reached
end_step pre state runlist e =
    step_one_run_lem (pre ++ (0 ∷ [])) state runlist
    ∙ rw (e, read_le_at pre [] 0) (unfold step_at in refl)

decode_loop-encode_from :
    (runs : List DataRun) (pre : List ℕ) (fuel previous : ℕ) (runlist : Runlist)
    → IsEncodable runlist.total_clusters runs
    → length runlist.runs + length runs ≤ max_data_runs
    → previous ≤ i64_max
    → length runs < fuel
    → decode_loop
        (pre ++ encode_from previous runs)
        fuel
        (record { cursor = length pre; previous_lcn = previous })
        runlist
      ≡ done (
          ok (record {
            runs = runlist.runs ++ runs;
            total_clusters = runlist.total_clusters + total_length runs;
          }))
unfolding encode_from total_length
decode_loop-encode_from runs pre zero previous runlist v room origin h = absurd (omega arith)
decode_loop-encode_from [] pre (suc fuel) previous runlist v room origin h =
    decode_loop_end (pre ++ (0 ∷ [])) fuel _ runlist
      (end_step pre (record { cursor = length pre; previous_lcn = previous }) runlist refl)
    ∙ ground (arith, append-nil runlist.runs)
decode_loop-encode_from (run ∷ runs) pre (suc fuel) previous runlist v room origin h =
    let written = run_bytes (fields_for run previous) in
    let next : Runlist = record {
      runs = runlist.runs ++ (run ∷ []);
      total_clusters = runlist.total_clusters + run.length_clusters;
    } in
    let after = encode_from (origin_after run previous) runs in
    let later =
      decode_loop-encode_from runs (pre ++ written) fuel (origin_after run previous) next v.2
        (omega (arith, length-append runlist.runs (run ∷ [])))
        (origin_after-le run previous v.0 origin) (omega arith) in
    decode_loop_next (pre ++ (written ++ after)) fuel _ _ runlist next (
      step_over run previous v.0 origin pre after runlist (omega arith) v.1
      ∙ rw (lcn_after-origin_after run previous))
    ∙ (rw (append_assoc pre written after) at later)
    ∙ ground (arith, append_assoc runlist.runs (run ∷ []) runs)

run_bytes-pos : (fields : RunFields) → 0 < length (run_bytes fields)
unfolding run_bytes
run_bytes-pos fields = omega arith

length-encode_from :
    (runs : List DataRun) (previous : ℕ) → length runs < length (encode_from previous runs)
unfolding encode_from
length-encode_from [] previous = omega arith
length-encode_from (run ∷ runs) previous = omega (
  arith,
  length-append (run_bytes (fields_for run previous))
      (encode_from (origin_after run previous) runs),
  run_bytes-pos (fields_for run previous),
  length-encode_from runs (origin_after run previous),
)

-- Decoding what was encoded gives the runs back, with the sum of their lengths, for at most 1024
-- runs that the format can state and whose lengths add up within 64 bits.
pub decode_runlist-encode_runlist :
    (runs : List DataRun)
    → IsEncodable 0 runs
    → length runs ≤ max_data_runs
    → decode_runlist (encode_runlist runs)
      ≡ done (ok (record { runs = runs; total_clusters = total_length runs }))
decode_runlist-encode_runlist runs v room =
    let read =
      decode_loop-encode_from runs [] (length (encode_from 0 runs) + 1) 0 empty_runlist v
        (omega arith) (omega arith) (omega (arith, length-encode_from runs 0)) in
    unfold decode_runlist encode_runlist in (read ∙ ground arith)
