-- ===== src/Fs/Ntfs/Runlist/Sound.antt =====
-- What the decoder answers on any bytes, well formed or not.
use data_recovery.Prelude.{
  ℕ, zero, suc, ◌+◌, ◌-◌, ◌*◌, ◌%◌, ◌^◌, ◌≤◌, ◌<◌, ◌≡◌, ◌≢◌, refl, sym, ◌∙◌, ◌⊎◌, List, [], ◌∷◌,
  ◌++◌, Bool, true, false, arith, ◌==◌, inl, inr, Bool-cases, All, All-append, length,
  length-append,
}
use mathlib.Core.Path.{subst}
use native.Mathlib.Nat.{div-le_self}
use data_recovery.Core.Result.{Result-cases, transform, transform-eq-ok, ok, >>=-eq-ok}
use data_recovery.Core.SafeArith.{u64_max, u64_mod}
use data_recovery.Core.Bytes.{bytes, read_le}
use data_recovery.Fs.Ntfs.Runlist.{
  ℤ, pos, negsuc, DataRun, Runlist, RunHeader, RawRun, DecodeState, done, stuck, run_appended,
  end_reached, i64_max, max_data_runs, make_raw_run, raw_run_of, read_run_header, read_raw_run,
  signed64, shift_right, next_lcn_by, next_lcn, place_run, append_run, store_run, signed_delta,
  step_at, step_one_run, decode_loop, decode_runlist, empty_runlist,
}
use data_recovery.Fs.Ntfs.Runlist.Steps.{
  total_length, step_one_run_lem, step_at_lem, append_run_lem, decode_loop_end, decode_loop_next,
  decode_loop_err,
}

-- A run that the decoder may answer.
abbrev pub IsSound : DataRun → Type 0
IsSound run = (0 < run.length_clusters) × (run.start_cluster ≤ i64_max)

read_le-inside :
    (span : List ℕ) (offset b : ℕ) → read_le 1 span offset ≡ ok b → offset < length span
unfolding read_le
read_le-inside span offset b e = ground arith

make_raw_run_lem :
    (fields : List ℕ) (widths : RunHeader) (offset : ℕ) (raw : RawRun)
    → make_raw_run fields widths offset ≡ ok raw
    → (0 < raw.length_clusters) × (0 < raw.encoded_size)
unfolding make_raw_run
make_raw_run_lem fields widths offset raw e = ground arith

-- `place_run` of a run that is no hole.
abbrev solid_run : RawRun → ℕ → DataRun
solid_run raw lcn = record {
  start_cluster = lcn;
  length_clusters = raw.length_clusters;
  sparse = false;
}

place_run_solid :
    (raw : RawRun) (previous offset : ℕ)
    → (raw.offset_width == 0) ≡ false
    → place_run raw previous offset ≡ transform (solid_run raw) (next_lcn previous raw offset)
unfolding place_run
place_run_solid raw previous offset solid = rw solid

raw_run_of_lem :
    (span : List ℕ) (cursor : ℕ) (header : RunHeader) (raw : RawRun)
    → raw_run_of span cursor header ≡ ok raw
    → (0 < raw.length_clusters) × (0 < raw.encoded_size)
raw_run_of_lem span cursor header raw e =
    let (fields, f, m) =
      >>=-eq-ok (bytes span (cursor + 1) (header.length_width + header.offset_width))
        (λ fields. make_raw_run fields header cursor) {b = raw} (unfold raw_run_of in e) in
    make_raw_run_lem fields header cursor raw m

read_raw_run_lem :
    (span : List ℕ) (cursor : ℕ) (raw : RawRun)
    → read_raw_run span cursor ≡ ok raw
    → (0 < raw.length_clusters) × (0 < raw.encoded_size)
read_raw_run_lem span cursor raw e =
    let (header, h, k) =
      >>=-eq-ok (read_run_header span cursor) (raw_run_of span cursor) {b = raw}
        (unfold read_raw_run in e) in
    raw_run_of_lem span cursor header raw k

signed64_lem : (w d : ℕ) → signed64 w ≡ pos d → d ≤ i64_max
signed64_lem w d e = ground arith

shift_right_lem : (z : ℤ) (k d n : ℕ) → z ≡ pos n → shift_right z k ≡ pos d → d ≤ n
shift_right_lem (pos m) k d n e h = ground (arith, div-le_self m (2 ^ k))
shift_right_lem (negsuc m) k d n e h = cc

-- A delta is at most the largest `int64_t`.
shifted-le :
    (z : ℤ) (k d : ℕ) → ((n : ℕ) → z ≡ pos n → n ≤ i64_max) → shift_right z k ≡ pos d → d ≤ i64_max
shifted-le (pos n) k d h e = omega (arith, h n refl, shift_right_lem (pos n) k d n refl e)
shifted-le (negsuc n) k d h e = cc

signed_delta-le : (raw width d : ℕ) → signed_delta raw width ≡ pos d → d ≤ i64_max
unfolding signed_delta
signed_delta-le raw width d e =
    let shift = (8 - width) * 8 in
    shifted-le (signed64 (raw * 2 ^ shift % u64_mod)) shift d
      (λ n h. signed64_lem (raw * 2 ^ shift % u64_mod) n h) e

next_lcn_by-le :
    (previous : ℕ) (delta : ℤ) (offset lcn : ℕ)
    → previous ≤ i64_max
    → ((d : ℕ) → delta ≡ pos d → d ≤ i64_max)
    → next_lcn_by previous delta offset ≡ ok lcn
    → lcn ≤ i64_max
unfolding next_lcn_by
next_lcn_by-le previous (pos d) offset lcn h k e = ground (arith, k d refl)
next_lcn_by-le previous (negsuc n) offset lcn h k e = ground arith

place_run-IsSound :
    (raw : RawRun) (previous offset : ℕ) (run : DataRun)
    → previous ≤ i64_max
    → 0 < raw.length_clusters
    → place_run raw previous offset ≡ ok run
    → IsSound run
place_run-IsSound raw previous offset run h pos_len e = elim (Bool-cases (raw.offset_width == 0)) [
  | inl hole ↦ unfold place_run in ground arith
  | inr solid ↦
      let (lcn, found, same) =
        transform-eq-ok (solid_run raw) (next_lcn previous raw offset) run
          (sym (place_run_solid raw previous offset solid) ∙ e) in
      let small =
        next_lcn_by-le previous (signed_delta raw.raw_offset raw.offset_width) offset lcn h
          (λ d q. signed_delta-le raw.raw_offset raw.offset_width d q) (unfold next_lcn in found) in
      rw same (pos_len, small)
]

store_run-eq-ok :
    (run : DataRun) (encoded_size : ℕ) (state state' : DecodeState) (runlist runlist' : Runlist)
    → runlist.total_clusters ≤ u64_max
    → store_run run encoded_size state runlist ≡ ok (run_appended state' runlist')
    → (length runlist'.runs ≤ max_data_runs)
      × (runlist'.total_clusters ≤ u64_max)
      × (runlist'.total_clusters ≡ runlist.total_clusters + run.length_clusters)
      × (runlist'.runs ≡ runlist.runs ++ (run ∷ []))
      × (state'.cursor ≡ state.cursor + encoded_size)
      × ((state'.previous_lcn ≡ state.previous_lcn) ⊎ (state'.previous_lcn ≡ run.start_cluster))
unfolding store_run
store_run-eq-ok run encoded_size state state' runlist runlist' h e = (
  ground (arith, length-append runlist.runs (run ∷ [])),
  ground arith,
  ground arith,
  ground arith,
  ground arith,
  origin run.sparse refl,
)
  where
    origin :
        (b : Bool)
        → run.sparse ≡ b
        → (state'.previous_lcn ≡ state.previous_lcn) ⊎ (state'.previous_lcn ≡ run.start_cluster)
    origin true s = inl (ground arith)
    origin false s = inr (ground arith)

total_length-append_one :
    (runs : List DataRun) (run : DataRun)
    → total_length (runs ++ (run ∷ [])) ≡ total_length runs + run.length_clusters
unfolding total_length
total_length-append_one [] run = omega arith
total_length-append_one (r ∷ runs) run = omega (arith, total_length-append_one runs run)

-- What holds of the list as it grows.
pub record IsDecoded (runlist : Runlist) : Type 0 where
  pub few : length runlist.runs ≤ max_data_runs
  pub total_fits : runlist.total_clusters ≤ u64_max
  pub total : runlist.total_clusters ≡ total_length runlist.runs
  pub sound : All IsSound runlist.runs

record IsProgress (span : List ℕ) (state state' : DecodeState) (runlist' : Runlist) : Type 0 where
  decoded : IsDecoded runlist'
  inside : state.cursor < length span
  forward : state.cursor < state'.cursor
  origin : state'.previous_lcn ≤ i64_max

append_run-IsProgress :
    (span : List ℕ) (raw : RawRun) (state state' : DecodeState) (runlist runlist' : Runlist)
    → (0 < raw.length_clusters) × (0 < raw.encoded_size)
    → state.cursor < length span
    → state.previous_lcn ≤ i64_max
    → IsDecoded runlist
    → append_run raw state runlist ≡ ok (run_appended state' runlist')
    → IsProgress span state state' runlist'
append_run-IsProgress span raw state state' runlist runlist' sizes inside h d e =
    let (run, put, stored) =
      >>=-eq-ok (place_run raw state.previous_lcn state.cursor)
        (λ run. store_run run raw.encoded_size state runlist) {b = run_appended state' runlist'}
        (sym (append_run_lem raw state runlist) ∙ e) in
    let s = place_run-IsSound raw state.previous_lcn state.cursor run h sizes.0 put in
    let (few, fits, total, grown, cursor, origin) =
      store_run-eq-ok run raw.encoded_size state state' runlist runlist' d.total_fits stored in
    record {
      decoded = record {
        few = few;
        total_fits = fits;
        total = ground (arith, total, grown, d.total, total_length-append_one runlist.runs run);
        sound = rw grown (All-append IsSound runlist.runs (run ∷ []) d.sound (s, tt));
      };
      inside = inside;
      forward = omega (arith, cursor, sizes);
      origin = elim origin [ inl same ↦ rw same h | inr moved ↦ rw moved (s.1) ];
    }

step_one_run-IsProgress :
    (span : List ℕ) (state state' : DecodeState) (runlist runlist' : Runlist)
    → state.previous_lcn ≤ i64_max
    → IsDecoded runlist
    → step_one_run span state runlist ≡ ok (run_appended state' runlist')
    → IsProgress span state state' runlist'
step_one_run-IsProgress span state state' runlist runlist' h d e =
    let (header, first, rest) =
      >>=-eq-ok (read_le 1 span state.cursor) (λ header. step_at span header state runlist)
        {b = run_appended state' runlist'} (sym (step_one_run_lem span state runlist) ∙ e) in
    elim (Bool-cases (header == 0)) [
      | inl ended ↦ absurd (no_run header ended rest)
      | inr more ↦
          let (raw, read, appended) =
            >>=-eq-ok (read_raw_run span state.cursor) (λ raw. append_run raw state runlist)
              {b = run_appended state' runlist'}
              (sym (step_at_lem span header state runlist (ground arith)) ∙ rest) in
          append_run-IsProgress span raw state state' runlist runlist'
            (read_raw_run_lem span state.cursor raw read)
            (read_le-inside span state.cursor header first) h d appended
    ]
  where
    no_run :
        (header : ℕ)
        → (header == 0) ≡ true
        → ¬ (step_at span header state runlist ≡ ok (run_appended state' runlist'))
    no_run header z q = unfold step_at in ground arith

decode_loop-IsDecoded :
    (span : List ℕ) (fuel : ℕ) (state : DecodeState) (runlist answer : Runlist)
    → state.previous_lcn ≤ i64_max
    → IsDecoded runlist
    → decode_loop span fuel state runlist ≡ done (ok answer)
    → IsDecoded answer
decode_loop-IsDecoded span zero state runlist answer h d e = unfold decode_loop in cc
decode_loop-IsDecoded span (suc fuel) state runlist answer h d e =
    elim (Result-cases (step_one_run span state runlist)) [
      | inl (end_reached, s) ↦
          let same : runlist ≡ answer = cc (sym (decode_loop_end span fuel state runlist s) ∙ e) in
          subst IsDecoded same d
      | inl (run_appended state' runlist', s) ↦
          let p = step_one_run-IsProgress span state state' runlist runlist' h d s in
          decode_loop-IsDecoded span fuel state' runlist' answer p.origin p.decoded
            (sym (decode_loop_next span fuel state state' runlist runlist' s) ∙ e)
      | inr (x, s) ↦ cc (sym (decode_loop_err span fuel state runlist x s) ∙ e)
    ]

decode_loop-ne-stuck :
    (span : List ℕ) (fuel : ℕ) (state : DecodeState) (runlist : Runlist)
    → state.previous_lcn ≤ i64_max
    → IsDecoded runlist
    → length span < fuel + state.cursor
    → 0 < fuel
    → decode_loop span fuel state runlist ≢ stuck
decode_loop-ne-stuck span zero state runlist h d l k = absurd (omega arith)
decode_loop-ne-stuck span (suc fuel) state runlist h d l k =
    elim (Result-cases (step_one_run span state runlist)) [
      | inl (end_reached, s) ↦ rw (decode_loop_end span fuel state runlist s) (λ e. cc)
      | inl (run_appended state' runlist', s) ↦
          let p = step_one_run-IsProgress span state state' runlist runlist' h d s in
          rw (decode_loop_next span fuel state state' runlist runlist' s) (
            decode_loop-ne-stuck span fuel state' runlist' p.origin p.decoded
              (omega (arith, p.forward)) (omega (arith, p.inside)))
      | inr (x, s) ↦ rw (decode_loop_err span fuel state runlist x s) (λ e. cc)
    ]

nothing-IsDecoded : IsDecoded empty_runlist
unfolding total_length
nothing-IsDecoded = record { few = omega arith; total_fits = omega arith; total = refl; sound = tt }

-- The decoder ends on every sequence of bytes.
pub decode_runlist-ne-stuck : (span : List ℕ) → decode_runlist span ≢ stuck
decode_runlist-ne-stuck span =
    unfold decode_runlist in
    decode_loop-ne-stuck span (length span + 1) (record { cursor = 0; previous_lcn = 0 })
      empty_runlist (omega arith) nothing-IsDecoded (omega arith) (omega arith)

-- Whatever list is decoded has at most 1024 runs, none of them empty and none placed past the
-- largest signed 64-bit number, and its total is the sum of their lengths, which fits in 64 bits.
pub decode_runlist-IsDecoded :
    (span : List ℕ) (runlist : Runlist)
    → decode_runlist span ≡ done (ok runlist)
    → IsDecoded runlist
decode_runlist-IsDecoded span runlist e =
    decode_loop-IsDecoded span (length span + 1) (record { cursor = 0; previous_lcn = 0 })
      empty_runlist runlist (omega arith) nothing-IsDecoded (unfold decode_runlist in e)
