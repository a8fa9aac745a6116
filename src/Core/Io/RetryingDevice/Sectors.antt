-- ===== src/Core/Io/RetryingDevice/Sectors.antt =====
-- `fillFrom`: the sectors of a buffer are read one by one, each answered or given up on.
use data_recovery.Prelude.{
  ℕ, zero, suc, ◌+◌, ◌-◌, ◌%◌, ◌<◌, ◌≤◌, ◌≡◌, refl, sym, ap, ◌∙◌, inl, inr, ◌⊎◌, List, [], ◌∷◌,
  ◌++◌, ◌&&◌, ltb, Option, some, min, length, length-append, arith, Bool-cases,
}
use mathlib.Core.Path.{subst}
use data_recovery.Core.Result.{Result, ok, err}
use data_recovery.Core.SafeArith.{u32_max, u64_max, u64_mod}
use data_recovery.Core.Io.BadRange.{BadRange}
use data_recovery.Core.Io.RetryingDevice.{
  FailingDevice, RetryPolicy, lost_source_run_bytes, Retrying, record_bad, give_up_on, attempt_read,
  answering, sector_read, read_one_sector, step_or_end, fill_from,
}
use data_recovery.Core.Io.RetryingDevice.Log.{Call, answered, gave_up, IsLogged, Extends}
use data_recovery.Core.Io.RetryingDevice.Attempts.{
  IsAttempt, attempt_read-IsAttempt, Extends-call, answered-IsLogged, gave_up-IsLogged,
}
use mathlib.Core.List.{append_assoc}
use data_recovery.Core.Io.RetryingDevice.Map.{IsMap, lost, record_bad-IsMap}
use data_recovery.Core.Io.RetryingDevice.Honest.{
  IsBounded, Honest, IsGrown, IsGrown-same, IsGrown-trans, Honest-grown, Honest-append,
  Honest-answered, Honest-zeros_of, length-zeros_of,
}

module _ (source : FailingDevice) where
  -- What a read leaves and the bytes that it puts into a buffer of `count`; the log goes on.
  pub record IsRead (log : List Call) (state state' : Retrying) (x count : ℕ) (bytes : List ℕ)
      : Type 0 where
    pub log' : List Call
    pub extends : Extends source log log'
    pub logged : IsLogged source log' state'
    pub map_kept : IsGrown state.bad state'.bad
    pub honest : Honest source state'.bad x bytes
    pub short : length bytes ≤ count

  sector_read-IsRead :
      (log : List Call) (offset size : ℕ) (state tried : Retrying) (read : Result (List ℕ))
      → IsBounded source
      → IsMap state.bad
      → IsLogged source log state
      → state.contiguous_lost < lost_source_run_bytes
      → size ≤ u32_max
      → offset + size ≤ u64_max
      → IsAttempt source log state offset size (tried, read)
      → IsRead log state
          (sector_read offset size tried read).0
          offset
          size
          (sector_read offset size tried read).1
  unfolding sector_read
  sector_read-IsRead log offset size state tried (ok bytes) bounded m logged below small fits
        attempt =
      let l = attempt.attempts in
      record {
        log' = answered offset size ∷ l.before;
        extends = Extends-call source log (answered offset size) l.before l.extends;
        logged = answered-IsLogged source log state tried offset size logged bytes attempt;
        map_kept =
            IsGrown-same state.bad (answering tried).bad m (unfold answering in attempt.same_map);
        honest =
            unfold answering in
            subst (λ (y : ℕ). Honest source tried.bad y bytes) (omega arith)
              (Honest-answered source tried.bad (length l.before) offset size [] bytes l.last);
        short = bounded (length l.before) offset size bytes l.last;
      }
  sector_read-IsRead log offset size state tried (err e) bounded m logged below small fits attempt =
      let l = attempt.attempts in
      let same = attempt.same_map in
      let range : BadRange = record { offset_bytes = offset; length_bytes = size } in
      let (kept, covers) = record_bad-IsMap tried.bad range (subst IsMap (sym same) m) fits in
      record {
        log' = gave_up offset size ∷ l.before;
        extends = Extends-call source log (gave_up offset size) l.before l.extends;
        logged = gave_up-IsLogged source log state tried offset size logged e attempt below small;
        map_kept =
            unfold give_up_on in
            record {
              kept = kept;
              grown = λ x l.
                  covers x ∙ ground (arith, ap (λ (bad : List BadRange). lost bad x) same, l);
            };
        honest =
            unfold give_up_on in
            Honest-zeros_of source (record_bad tried.bad range) size offset
              (λ y least most. covers y ∙ ground (arith, least, most));
        short = omega (arith, length-zeros_of size);
      }

  read_one_sector-IsRead :
      (log : List Call) (policy : RetryPolicy) (state : Retrying) (offset count : ℕ)
      → IsBounded source
      → source.sector_size ≤ u32_max
      → IsMap state.bad
      → IsLogged source log state
      → state.contiguous_lost < lost_source_run_bytes
      → offset + count ≤ u64_max
      → IsRead log state
          (read_one_sector source policy state offset count).0
          offset
          count
          (read_one_sector source policy state offset count).1
  unfolding read_one_sector
  read_one_sector-IsRead log policy state offset count bounded sectors m logged below fits =
      let size = min count source.sector_size in
      let tried = attempt_read source policy state offset size in
      let attempt = attempt_read-IsAttempt source log policy state offset size logged in
      let read =
        sector_read-IsRead log offset size state tried.0 tried.1 bounded m logged below
          (omega arith) (omega arith) attempt in
      record {
        log' = read.log';
        extends = read.extends;
        logged = read.logged;
        map_kept = read.map_kept;
        honest = read.honest;
        short = omega (arith, read.short);
      }

  -- The source answered a read with fewer bytes than it was asked for.
  abbrev pub IsShort : Type 0
  IsShort =
      (n : ℕ) × (offset : ℕ) × (size : ℕ) × (bytes : List ℕ) × (source.read_at n offset size
        ≡ ok bytes)
      × (length bytes < size)

  sector_read-empty :
      (log : List Call) (offset size : ℕ) (state tried : Retrying) (read : Result (List ℕ))
      → 0 < size
      → IsAttempt source log state offset size (tried, read)
      → length (sector_read offset size tried read).1 ≡ 0
      → IsShort
  unfolding sector_read
  sector_read-empty log offset size state tried (ok bytes) some_bytes attempt e =
      let l = attempt.attempts in
      (length l.before, offset, size, bytes, l.last, omega (arith, e, some_bytes))
  sector_read-empty log offset size state tried (err x) some_bytes attempt e =
      absurd (omega (arith, e, some_bytes, length-zeros_of size))

  read_one_sector-empty :
      (log : List Call) (policy : RetryPolicy) (state : Retrying) (offset count : ℕ)
      → 0 < source.sector_size
      → 0 < count
      → IsLogged source log state
      → length (read_one_sector source policy state offset count).1 ≡ 0
      → IsShort
  unfolding read_one_sector
  read_one_sector-empty log policy state offset count sectors wanted logged e =
      let size = min count source.sector_size in
      let tried = attempt_read source policy state offset size in
      sector_read-empty log offset size state tried.0 tried.1 (omega arith)
        (attempt_read-IsAttempt source log policy state offset size logged) e

  -- A buffer that was filled: wholly, or up to where the source is lost, or up to where it answered
  -- short.
  abbrev pub IsFilled : List Call → Retrying → ℕ → ℕ → Retrying × Option (List ℕ) → Type 0
  IsFilled log state offset count answer =
      (state' : Retrying) × (bytes : List ℕ) × (answer ≡ (state', some bytes))
      × IsRead log state state' offset count bytes
      × ((lost_source_run_bytes ≤ state'.contiguous_lost) ⊎ ((length bytes ≡ count) ⊎ IsShort))

  pub Extends-trans :
      (a b c : List Call) → Extends source a b → Extends source b c → Extends source a c
  Extends-trans a b c (more, same) (more', same') = (
    more' ++ more,
    same' ∙ ap (λ (calls : List Call). more' ++ calls) same ∙ sym (append_assoc more' more a),
  )

  IsRead-step :
      (log middle : List Call) (state next state' : Retrying) (offset count : ℕ) (bytes : List ℕ)
      → IsGrown state.bad next.bad
      → Extends source log middle
      → IsRead middle next state' offset count bytes
      → IsRead log state state' offset count bytes
  IsRead-step log middle state next state' offset count bytes g extends r = record {
    log' = r.log';
    extends = Extends-trans log middle r.log' extends r.extends;
    logged = r.logged;
    map_kept = IsGrown-trans state.bad next.bad state'.bad g r.map_kept;
    honest = r.honest;
    short = r.short;
  }

  step_or_end-IsFilled :
      (log : List Call) (state next : Retrying) (offset count : ℕ) (done step : List ℕ)
      (rest : Retrying × Option (List ℕ))
      → IsRead log state next offset count done
      → (length step ≡ 0 → IsShort)
      → (0 < length step → IsFilled log state offset count rest)
      → IsFilled log state offset count (step_or_end next done step rest)
  unfolding step_or_end
  step_or_end-IsFilled log state next offset count done [] rest r empty h =
      (next, done, refl, r, inr (inr (empty refl)))
  step_or_end-IsFilled log state next offset count done (b ∷ step) rest r empty h = h (omega arith)

  pub fill_from-IsFilled :
      (fuel : ℕ) (log : List Call) (policy : RetryPolicy) (state : Retrying) (offset count : ℕ)
      (done : List ℕ)
      → IsBounded source
      → 0 < source.sector_size
      → source.sector_size ≤ u32_max
      → IsMap state.bad
      → IsLogged source log state
      → offset + count ≤ u64_max
      → Honest source state.bad offset done
      → length done ≤ count
      → count < length done + fuel
      → IsFilled log state offset count (fill_from fuel source policy state offset count done)
  unfolding fill_from
  fill_from-IsFilled zero log policy state offset count done bounded some_bytes sectors m logged
        fits h short enough =
      absurd (omega arith)
  fill_from-IsFilled (suc fuel) log policy state offset count done bounded some_bytes sectors m
        logged fits h short enough =
      elim (Bool-cases
        (ltb (length done) count && ltb state.contiguous_lost lost_source_run_bytes)) [
          | inr stop ↦ rw stop (
              (
                state,
                done,
                refl,
                record {
                  log' = log;
                  extends = ([], refl);
                  logged = logged;
                  map_kept = IsGrown-same state.bad state.bad m refl;
                  honest = h;
                  short = short;
                },
                elim (Bool-cases (ltb (length done) count)) [
                  | inl room ↦ inl (ground (arith, room, stop))
                  | inr full ↦ inr (inl (ground (arith, full, short)))
                ],
              ))
          | inl more ↦
              let at : (offset + length done) % u64_mod ≡ offset + length done = omega arith in
              let next =
                read_one_sector source policy state (offset + length done) (count - length done) in
              let read =
                read_one_sector-IsRead log policy state (offset + length done) (count - length done)
                  bounded sectors m logged (ground (arith, more)) (omega arith) in
              let grown = read.map_kept in
              let extends = read.extends in
              let step_short = read.short in
              let whole = length-append done next.1 in
              let kept_honest = Honest-grown source state.bad next.0.bad offset done grown h in
              let all_honest =
                Honest-append source next.0.bad offset done next.1 kept_honest read.honest in
              rw (more, at)
                (step_or_end-IsFilled log state next.0 offset count done next.1 _
                  (record {
                    log' = read.log';
                    extends = extends;
                    logged = read.logged;
                    map_kept = grown;
                    honest = kept_honest;
                    short = short;
                  })
                  (λ empty.
                    read_one_sector-empty log policy state (offset + length done)
                      (count - length done) some_bytes (ground (arith, more)) logged empty)
                  (λ pos.
                    let (state', bytes, e, r, ended) =
                      fill_from-IsFilled fuel read.log' policy next.0 offset count (done ++ next.1)
                        bounded some_bytes sectors grown.kept read.logged fits all_honest
                        (omega (arith, whole, step_short, short))
                        (omega (arith, whole, pos, enough)) in
                    (
                      state',
                      bytes,
                      e,
                      IsRead-step log read.log' state next.0 state' offset count bytes grown extends
                          r,
                      ended,
                    )))
        ]
