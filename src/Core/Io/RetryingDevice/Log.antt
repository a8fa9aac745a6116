-- ===== src/Core/Io/RetryingDevice/Log.antt =====
-- The reads that a failing source was asked for, and what they say about damage.
use data_recovery.Prelude.{ℕ, ◌+◌, ◌≡◌, List, [], ◌∷◌, ◌++◌, ◌==◌, if◌then◌else◌, length}
use data_recovery.Core.Result.{Error, ok, err}
use data_recovery.Core.Io.RetryingDevice.{FailingDevice, Retrying}

-- One read of the source, at an offset and of a size: it was answered; it failed; or it failed and
-- was the last attempt at a sector that was then given up on.
pub data Call : Type 0 where
  answered failed gave_up : ℕ → ℕ → Call

-- The bytes that were given up on since the source answered last; the latest call comes first.
abbrev pub run_of : List Call → ℕ
run_of [] = 0
run_of (answered offset size ∷ log) = 0
run_of (failed offset size ∷ log) = run_of log
run_of (gave_up offset size ∷ log) = run_of log + size

-- Where the first of these sectors stands, if there is one.
abbrev pub run_start_of : List Call → ℕ
run_start_of [] = 0
run_start_of (answered offset size ∷ log) = run_start_of log
run_start_of (failed offset size ∷ log) = run_start_of log
run_start_of (gave_up offset size ∷ log) = if run_of log == 0 then offset else run_start_of log

module _ (source : FailingDevice) where
  -- The call, as the `n`-th one, is what the source did.
  abbrev pub IsCall : ℕ → Call → Type 0
  IsCall n (answered offset size) = (bytes : List ℕ) × (source.read_at n offset size ≡ ok bytes)
  IsCall n (failed offset size) = (e : Error) × (source.read_at n offset size ≡ err e)
  IsCall n (gave_up offset size) = (e : Error) × (source.read_at n offset size ≡ err e)

  -- Every call of the log is what the source did, each under its own number.
  abbrev pub IsLog : List Call → Type 0
  IsLog [] = Unit
  IsLog (call ∷ log) = IsCall (length log) call × IsLog log

  -- The log has all reads that were asked for, and the run of damage that is kept is the log's.
  pub record IsLogged (log : List Call) (state : Retrying) : Type 0 where
    pub calls : IsLog log
    pub all_calls : length log ≡ state.reads
    pub run : state.contiguous_lost ≡ run_of log
    pub start : state.lost_run_start ≡ run_start_of log

  -- The log goes on.
  abbrev pub Extends : List Call → List Call → Type 0
  Extends log log' = (more : List Call) × (log' ≡ more ++ log)
