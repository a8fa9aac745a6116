-- ===== src/Core/Io/RetryingDevice/Attempts.antt =====
-- `attempt_read`: what the attempts at a read add to the log, and where their bytes come from.
use data_recovery.Prelude.{
  ℕ, zero, suc, ◌-◌, ◌<◌, ◌≤◌, ◌≡◌, refl, sym, ap, ◌∙◌, List, [], ◌∷◌, length, arith,
}
use data_recovery.Core.Result.{Error, Result, ok, err}
use data_recovery.Core.SafeArith.{u32_max}
use data_recovery.Core.Io.RetryingDevice.{
  FailingDevice, RetryPolicy, Retrying, asked, attempt_again, attempt_read, answering, give_up_on,
  lost_source_run_bytes,
}
use data_recovery.Core.Io.RetryingDevice.Log.{
  Call, answered, failed, gave_up, run_of, run_start_of, IsLog, IsLogged, Extends,
}

module _ (source : FailingDevice) (log : List Call) where
  -- All attempts but the last one, which are in the log and failed; the last one's answer is `read`.
  pub record IsLast (tried : Retrying) (offset count : ℕ) (read : Result (List ℕ)) : Type 0 where
    pub before : List Call
    pub calls : IsLog source before
    pub all_calls : tried.reads ≡ suc (length before)
    pub extends : Extends source log before
    pub same_run : run_of before ≡ run_of log
    pub same_start : run_start_of before ≡ run_start_of log
    pub last : source.read_at (length before) offset count ≡ read

  -- The attempts change neither the map nor the run of damage.
  pub record IsAttempt (state : Retrying) (offset count : ℕ) (tried : Retrying × Result (List ℕ))
      : Type 0 where
    pub same_map : tried.0.bad ≡ state.bad
    pub same_lost : tried.0.contiguous_lost ≡ state.contiguous_lost
    pub same_lost_start : tried.0.lost_run_start ≡ state.lost_run_start
    pub attempts : IsLast tried.0 offset count tried.1

  next-IsLast :
      (state : Retrying) (offset count : ℕ) (e : Error)
      → IsLast state offset count (err e)
      → IsLast (asked state) offset count (source.read_at state.reads offset count)
  unfolding asked
  next-IsLast state offset count e l =
      let (more, same) = l.extends in
      let reads = l.all_calls in
      record {
        before = failed offset count ∷ l.before;
        calls = ((e, l.last), l.calls);
        all_calls = omega (arith, reads);
        extends = (
          failed offset count ∷ more,
          ap (λ (calls : List Call). failed offset count ∷ calls) same,
        );
        same_run = l.same_run;
        same_start = l.same_start;
        last = ap (λ (n : ℕ). source.read_at n offset count) (sym reads);
      }

  first-IsLast :
      (state : Retrying) (offset count : ℕ)
      → IsLogged source log state
      → IsLast (asked state) offset count (source.read_at state.reads offset count)
  unfolding asked
  first-IsLast state offset count logged =
      let reads = logged.all_calls in
      record {
        before = log;
        calls = logged.calls;
        all_calls = omega (arith, reads);
        extends = ([], refl);
        same_run = refl;
        same_start = refl;
        last = ap (λ (n : ℕ). source.read_at n offset count) reads;
      }

  IsAttempt-asked :
      (state : Retrying) (offset count : ℕ) (tried : Retrying × Result (List ℕ))
      → IsAttempt (asked state) offset count tried
      → IsAttempt state offset count tried
  unfolding asked
  IsAttempt-asked state offset count tried a = record {
    same_map = a.same_map;
    same_lost = a.same_lost;
    same_lost_start = a.same_lost_start;
    attempts = a.attempts;
  }

  attempt_again-IsAttempt :
      (left offset count : ℕ) (state : Retrying) (read : Result (List ℕ))
      → IsLast state offset count read
      → IsAttempt state offset count (attempt_again source left offset count state read)
  unfolding attempt_again
  attempt_again-IsAttempt zero offset count state read l = record {
    same_map = refl;
    same_lost = refl;
    same_lost_start = refl;
    attempts = l;
  }
  attempt_again-IsAttempt (suc left) offset count state (ok bytes) l = record {
    same_map = refl;
    same_lost = refl;
    same_lost_start = refl;
    attempts = l;
  }
  attempt_again-IsAttempt (suc left) offset count state (err e) l =
      IsAttempt-asked state offset count _ (
        attempt_again-IsAttempt left offset count (asked state)
          (source.read_at state.reads offset count) (next-IsLast state offset count e l))

  pub attempt_read-IsAttempt :
      (policy : RetryPolicy) (state : Retrying) (offset count : ℕ)
      → IsLogged source log state
      → IsAttempt state offset count (attempt_read source policy state offset count)
  unfolding attempt_read
  attempt_read-IsAttempt policy state offset count logged = IsAttempt-asked state offset count _ (
      attempt_again-IsAttempt (policy.attempts - 1) offset count (asked state)
        (source.read_at state.reads offset count) (first-IsLast state offset count logged))

  pub Extends-call :
      (call : Call) (before : List Call)
      → Extends source log before
      → Extends source log (call ∷ before)
  Extends-call call before (more, same) =
      (call ∷ more, ap (λ (calls : List Call). call ∷ calls) same)

  module _ (state tried : Retrying) (offset count : ℕ) (logged : IsLogged source log state) where
    pub answered-IsLogged :
        (bytes : List ℕ) (attempt : IsAttempt state offset count (tried, ok bytes))
        → IsLogged source (answered offset count ∷ attempt.attempts.before) (answering tried)
    unfolding answering
    answered-IsLogged bytes attempt =
        let l = attempt.attempts in
        record {
          calls = ((bytes, l.last), l.calls);
          all_calls = sym l.all_calls;
          run = refl;
          start = attempt.same_lost_start ∙ logged.start ∙ sym l.same_start;
        }

    pub failed-IsLogged :
        (e : Error) (attempt : IsAttempt state offset count (tried, err e))
        → IsLogged source (failed offset count ∷ attempt.attempts.before) tried
    failed-IsLogged e attempt =
        let l = attempt.attempts in
        record {
          calls = ((e, l.last), l.calls);
          all_calls = sym l.all_calls;
          run = attempt.same_lost ∙ logged.run ∙ sym l.same_run;
          start = attempt.same_lost_start ∙ logged.start ∙ sym l.same_start;
        }

    pub gave_up-IsLogged :
        (e : Error) (attempt : IsAttempt state offset count (tried, err e))
        → state.contiguous_lost < lost_source_run_bytes
        → count ≤ u32_max
        → IsLogged source
            (gave_up offset count ∷ attempt.attempts.before)
            (give_up_on tried offset count)
    unfolding give_up_on
    gave_up-IsLogged e attempt below small =
        let l = attempt.attempts in
        let run : tried.contiguous_lost ≡ run_of l.before =
          attempt.same_lost ∙ logged.run ∙ sym l.same_run in
        let start : tried.lost_run_start ≡ run_start_of l.before =
          attempt.same_lost_start ∙ logged.start ∙ sym l.same_start in
        let same = attempt.same_lost in
        record {
          calls = ((e, l.last), l.calls);
          all_calls = sym l.all_calls;
          run = omega (arith, run, same, below, small);
          start = rw (run, start) refl;
        }
