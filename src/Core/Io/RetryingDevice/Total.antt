-- ===== src/Core/Io/RetryingDevice/Total.antt =====
-- `retrying_read_at`: what a read of a failing source answers.
use data_recovery.Prelude.{ℕ, ◌<◌, ◌≤◌, ◌≡◌, ◌⊎◌, List, Option, some, length}
use data_recovery.Core.Result.{Result, ok, error_at, source_lost}
use data_recovery.Core.Io.RetryingDevice.{FailingDevice, lost_source_run_bytes, Retrying}
use data_recovery.Core.Io.RetryingDevice.Log.{Call, run_of, run_start_of, IsLogged, Extends}
use data_recovery.Core.Io.RetryingDevice.Honest.{Honest, IsGrown}
use data_recovery.Core.Io.RetryingDevice.Sectors.{IsShort}

module _ (source : FailingDevice) where
  -- What a read answers, with the log of all calls after it: bytes, or that the source is lost.
  pub data IsAnswer (log : List Call) (state' : Retrying) (x count : ℕ)
      : Result (List ℕ) → Type 0 where
    read :
        (bytes : List ℕ)
        → Honest source state'.bad x bytes
        → length bytes ≤ count
        → (length bytes ≡ count) ⊎ IsShort source
        → run_of log < lost_source_run_bytes
        → IsAnswer log state' x count (ok bytes)
    lost_source :
        lost_source_run_bytes ≤ run_of log
        → IsAnswer log state' x count (error_at source_lost (run_start_of log))

  abbrev pub IsServed : List Call → Retrying → ℕ → ℕ → Retrying × Option (Result (List ℕ)) → Type 0
  IsServed log state offset count served =
      (state' : Retrying) × (answer : Result (List ℕ)) × (log' : List Call) × (served
        ≡ (state', some answer))
      × Extends source log log'
      × IsLogged source log' state'
      × IsGrown state.bad state'.bad
      × IsAnswer log' state' offset count answer
