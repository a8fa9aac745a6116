-- ===== src/Fs/Ntfs/Runlist/Steps.antt =====
-- The runs that the format can state, and the parts of one step of the decoder.
use data_recovery.Prelude.{
  ℕ, suc, ◌+◌, ◌≤◌, ◌<◌, ◌≡◌, refl, List, [], ◌∷◌, ◌++◌, true, false, arith, ◌==◌, length,
}
use data_recovery.Core.Result.{Error, ok, err, ◌>>=◌}
use data_recovery.Core.SafeArith.{u64_max, u64_mod}
use data_recovery.Core.Bytes.{read_le}
use data_recovery.Fs.Ntfs.Runlist.{
  DataRun, Runlist, RawRun, DecodeState, done, run_appended, end_reached, i64_max, max_data_runs,
  read_raw_run, place_run, append_run, store_run, lcn_after, step_at, step_one_run, decode_loop,
}

-- A run that the format can state: not empty, placed within the signed 64-bit numbers, and placed
-- at 0 if it is a hole.
pub record IsRun (run : DataRun) : Type 0 where
  pub some_clusters : 0 < run.length_clusters
  pub length_fits : run.length_clusters < u64_mod
  pub start_fits : run.start_cluster ≤ i64_max
  pub hole : run.sparse ≡ true → run.start_cluster ≡ 0

unfoldable pub total_length : List DataRun → ℕ
total_length [] = 0
total_length (run ∷ runs) = run.length_clusters + total_length runs

-- The parts of a step, one at a time.
pub step_one_run_lem :
    (span : List ℕ) (state : DecodeState) (runlist : Runlist)
    → step_one_run span state runlist
      ≡ (read_le 1 span state.cursor >>= λ header. step_at span header state runlist)
unfolding step_one_run
step_one_run_lem span state runlist = refl

pub step_at_lem :
    (span : List ℕ) (header : ℕ) (state : DecodeState) (runlist : Runlist)
    → 0 < header
    → step_at span header state runlist
      ≡ (read_raw_run span state.cursor >>= λ raw. append_run raw state runlist)
unfolding step_at
step_at_lem span header state runlist h = let more : (header == 0) ≡ false = ground arith in rw more

pub append_run_lem :
    (raw : RawRun) (state : DecodeState) (runlist : Runlist)
    → append_run raw state runlist ≡ (
        place_run raw state.previous_lcn state.cursor >>= λ run.
        store_run run raw.encoded_size state runlist)
unfolding append_run
append_run_lem raw state runlist = refl

pub store_run_lem :
    (run : DataRun) (encoded_size : ℕ) (state : DecodeState) (runlist : Runlist)
    → length runlist.runs + 1 ≤ max_data_runs
    → runlist.total_clusters + run.length_clusters ≤ u64_max
    → store_run run encoded_size state runlist
      ≡ ok (
          run_appended
            (record {
              cursor = state.cursor + encoded_size;
              previous_lcn = lcn_after run state.previous_lcn;
            })
            (record {
              runs = runlist.runs ++ (run ∷ []);
              total_clusters = runlist.total_clusters + run.length_clusters;
            }))
unfolding store_run
store_run_lem run encoded_size state runlist room total = ground arith

pub decode_loop_end :
    (span : List ℕ) (fuel : ℕ) (state : DecodeState) (runlist : Runlist)
    → step_one_run span state runlist ≡ ok end_reached
    → decode_loop span (suc fuel) state runlist ≡ done (ok runlist)
unfolding decode_loop
decode_loop_end span fuel state runlist e = rw (e, decode_loop)

pub decode_loop_next :
    (span : List ℕ) (fuel : ℕ) (state state' : DecodeState) (runlist runlist' : Runlist)
    → step_one_run span state runlist ≡ ok (run_appended state' runlist')
    → decode_loop span (suc fuel) state runlist ≡ decode_loop span fuel state' runlist'
unfolding decode_loop
decode_loop_next span fuel state state' runlist runlist' e = rw (e, decode_loop)

pub decode_loop_err :
    (span : List ℕ) (fuel : ℕ) (state : DecodeState) (runlist : Runlist) (x : Error)
    → step_one_run span state runlist ≡ err x
    → decode_loop span (suc fuel) state runlist ≡ done (err x)
unfolding decode_loop
decode_loop_err span fuel state runlist x e = rw (e, decode_loop)
