-- ===== src/Core/Io/RetryingDevice.antt =====
-- src/core/io/RetryingDevice.cpp: a failing device, read again and then sector by sector, with a map
-- of what was given up on.
pub mod Map
pub mod Honest
pub mod Log
pub mod Attempts
pub mod Sectors
pub mod Total
use data_recovery.Prelude.{
  ℕ, zero, suc, ◌+◌, ◌-◌, ◌%◌, List, [], ◌∷◌, ◌++◌, Bool, ◌&&◌, ltb, leb, ◌==◌, if◌then◌else◌,
  Option, some, none, min, max, length,
}
use data_recovery.Core.Result.{Result, ok, err, error_at, source_lost}
use data_recovery.Core.SafeArith.{u64_mod}
use data_recovery.Core.Io.{ReadAt}
use data_recovery.Core.Io.BadRange.{BadRange}

-- A device that may answer the same read differently: the function is given how many reads it was
-- asked for before.
pub record FailingDevice : Type 0 where
  pub read_at : ℕ → ReadAt
  pub sector_size : ℕ

-- `RetryPolicy` but for the pause between attempts.
pub record RetryPolicy : Type 0 where
  pub attempts : ℕ

abbrev pub lost_source_run_bytes : ℕ
lost_source_run_bytes = 0x10_0000

-- What the device keeps between reads, and how many reads the source was asked for.
pub record Retrying : Type 0 where
  pub reads : ℕ
  pub bad : List BadRange
  pub contiguous_lost : ℕ
  pub lost_run_start : ℕ

-- `endOf`
unfoldable pub end_of : BadRange → ℕ
end_of range = (range.offset_bytes + range.length_bytes) % u64_mod

-- `bad_.insert` at `upper_bound` of a list in offset order.
unfoldable pub insert_bad : BadRange → List BadRange → List BadRange
insert_bad range [] = range ∷ []
insert_bad range (b ∷ bad) =
    let later = insert_bad range bad in
    if ltb range.offset_bytes b.offset_bytes then range ∷ b ∷ bad else b ∷ later

-- What `coalesce` makes of the last range and one that touches it.
unfoldable pub joined : BadRange → BadRange → BadRange
joined last one = record last { length_bytes = max (end_of last) (end_of one) - last.offset_bytes }

-- A round of `coalesce`'s loop.
unfoldable pub merge_one : List BadRange → BadRange → List BadRange
merge_one [] one = one ∷ []
merge_one (last ∷ []) one =
    if leb one.offset_bytes (end_of last) then joined last one ∷ [] else last ∷ one ∷ []
merge_one (first ∷ second ∷ merged) one = first ∷ merge_one (second ∷ merged) one

-- Its loop.
unfoldable pub merge_all : List BadRange → List BadRange → List BadRange
merge_all merged [] = merged
merge_all merged (one ∷ bad) = merge_all (merge_one merged one) bad

-- `coalesce`
unfoldable pub coalesce : List BadRange → List BadRange
coalesce bad = merge_all [] bad

-- `recordBad`
unfoldable pub record_bad : List BadRange → BadRange → List BadRange
record_bad bad range = coalesce (insert_bad range bad)

-- `giveUpOn`
unfoldable pub give_up_on : Retrying → ℕ → ℕ → Retrying
give_up_on state offset size = record state {
  bad = record_bad state.bad (record { offset_bytes = offset; length_bytes = size });
  lost_run_start = if state.contiguous_lost == 0 then offset else state.lost_run_start;
  contiguous_lost = (state.contiguous_lost + size) % u64_mod;
}

-- A read of the source, and that it was asked for.
unfoldable pub asked : Retrying → Retrying
asked state = record state { reads = state.reads + 1 }

-- The loop of `attemptRead`: `left` attempts more at most.
unfoldable pub attempt_again :
    FailingDevice → ℕ → ℕ → ℕ → Retrying → Result (List ℕ) → Retrying × Result (List ℕ)
attempt_again source zero offset count state read = (state, read)
attempt_again source (suc left) offset count state (ok bytes) = (state, ok bytes)
attempt_again source (suc left) offset count state (err e) =
    attempt_again source left offset count (asked state) (source.read_at state.reads offset count)

-- `attemptRead`; one attempt is made however few the policy has.
unfoldable pub attempt_read :
    FailingDevice → RetryPolicy → Retrying → ℕ → ℕ → Retrying × Result (List ℕ)
attempt_read source policy state offset count =
    attempt_again source (policy.attempts - 1) offset count (asked state)
      (source.read_at state.reads offset count)

abbrev pub zeros_of : ℕ → List ℕ
zeros_of zero = []
zeros_of (suc size) = 0 ∷ zeros_of size

-- `contiguousLost_ = 0`
unfoldable pub answering : Retrying → Retrying
answering state = record state { contiguous_lost = 0 }

-- `readOneSector`, on the answer of the attempts: the bytes that are put into the buffer.
unfoldable pub sector_read : ℕ → ℕ → Retrying → Result (List ℕ) → Retrying × List ℕ
sector_read offset size state (ok bytes) = (answering state, bytes)
sector_read offset size state (err e) = (give_up_on state offset size, zeros_of size)

-- `readOneSector`
unfoldable pub read_one_sector : FailingDevice → RetryPolicy → Retrying → ℕ → ℕ → Retrying × List ℕ
read_one_sector source policy state offset count =
    let size = min count source.sector_size in
    let tried = attempt_read source policy state offset size in
    sector_read offset size tried.0 tried.1

-- A round of `fillSectorwise`, with what the rounds after it make of its bytes: a step of no bytes
-- is the end of the device.
unfoldable pub step_or_end :
    Retrying → List ℕ → List ℕ → Retrying × Option (List ℕ) → Retrying × Option (List ℕ)
step_or_end state done [] rest = (state, some done)
step_or_end state done (b ∷ step) rest = rest

-- The loop of `fillSectorwise`, with the bytes so far; `none` when the fuel runs out.
unfoldable pub fill_from :
    ℕ → FailingDevice → RetryPolicy → Retrying → ℕ → ℕ → List ℕ → Retrying × Option (List ℕ)
fill_from zero source policy state offset count done = (state, none)
fill_from (suc fuel) source policy state offset count done =
    let next =
      read_one_sector source policy state ((offset + length done) % u64_mod)
        (count - length done) in
    let rest = fill_from fuel source policy next.0 offset count (done ++ next.1) in
    if ltb (length done) count && ltb state.contiguous_lost lost_source_run_bytes
    then step_or_end next.0 done next.1 rest
    else (state, some done)

-- `fillSectorwise`: each round but the last puts a byte at least.
unfoldable pub fill_sectorwise :
    FailingDevice → RetryPolicy → Retrying → ℕ → ℕ → Retrying × Option (List ℕ)
fill_sectorwise source policy state offset count =
    fill_from (count + 1) source policy state offset count []

-- `readSectorwise`, on what was filled.
unfoldable pub filled : Retrying → Option (List ℕ) → Retrying × Option (Result (List ℕ))
filled state none = (state, none)
filled state (some done) = (
  state,
  some (
      if leb lost_source_run_bytes state.contiguous_lost
      then error_at source_lost state.lost_run_start
      else ok done),
)

-- `readSectorwise`
unfoldable pub read_sectorwise :
    FailingDevice → RetryPolicy → Retrying → ℕ → ℕ → Retrying × Option (Result (List ℕ))
read_sectorwise source policy state offset count =
    let fill = fill_sectorwise source policy state offset count in filled fill.0 fill.1

-- `readAt`, on the answer of the attempts at the whole read.
unfoldable pub whole_or_sectors :
    FailingDevice
    → RetryPolicy
    → Retrying
    → ℕ
    → ℕ
    → Result (List ℕ)
    → Retrying × Option (Result (List ℕ))
whole_or_sectors source policy state offset count (ok bytes) = (answering state, some (ok bytes))
whole_or_sectors source policy state offset count (err e) =
    read_sectorwise source policy state offset count

-- `RetryingDevice::readAt`
unfoldable pub retrying_read_at :
    FailingDevice → RetryPolicy → Retrying → ℕ → ℕ → Retrying × Option (Result (List ℕ))
retrying_read_at source policy state offset count =
    let tried = attempt_read source policy state offset count in
    whole_or_sectors source policy tried.0 offset count tried.1
