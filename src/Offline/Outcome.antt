-- ===== src/Offline/Outcome.antt =====
-- The end of the polling loop (src/file_recognizer.cc).
use trtc_asr_sdk_cpp.Common.{
  arith, ==ℤ_iff, ==ℤ-false, ltb-true, ltb-false, ◌≡◌, refl, ◌⊎◌, inl, inr, ℕ, suc, ◌+◌, ◌≤◌, ◌<◌,
  Option, some, Bytes, ltb, ◌==ℤ◌, Result, Exception, ok, throw, Bool-cases,
}
use trtc_asr_sdk_cpp.Loops.{Runs, loop_ends, ticks}
use trtc_asr_sdk_cpp.Offline.Task.{TaskStatus, task_status_success, task_status_failed}
use trtc_asr_sdk_cpp.Offline.Polling.{
  failure, late, poll_once, poll_from, wait_for_result_with_interval,
}

module _ {Double : Type 0} (rec_task_id : Bytes) (timeout deadline : ℕ)
    (answer : ℕ → Result (TaskStatus Double)) (clock : ℕ → ℕ) where
  -- The status says neither success nor failure.
  abbrev pub IsPending : TaskStatus Double → Type 0
  IsPending status =
      (¬ (status.status ≡ task_status_success)) × (¬ (status.status ≡ task_status_failed))

  abbrev pub IsSuccess : TaskStatus Double → Type 0
  IsSuccess status = status.status ≡ task_status_success

  abbrev pub IsFailure : TaskStatus Double → Type 0
  IsFailure status = status.status ≡ task_status_failed

  -- Round n leaves the loop running.
  abbrev pub Goes : ℕ → Type 0
  Goes n =
      (status : TaskStatus Double) × (answer n ≡ ok status)
      × IsPending status
      × (clock n ≤ deadline)

  -- Round n ends the loop with this outcome.
  pub data Ends (n : ℕ) : Result (TaskStatus Double) → Type 0 where
    threw : (e : Exception) → answer n ≡ throw e → Ends n (throw e)
    succeeded :
        (status : TaskStatus Double) → answer n ≡ ok status → IsSuccess status → Ends n (ok status)
    failed :
        (status : TaskStatus Double)
        → answer n ≡ ok status
        → IsFailure status
        → Ends n (throw (failure rec_task_id timeout deadline status))
    expired :
        (status : TaskStatus Double)
        → answer n ≡ ok status
        → IsPending status
        → deadline < clock n
        → Ends n (throw (late rec_task_id timeout deadline status))

  round_of :
      (n : ℕ) (reply : Result (TaskStatus Double))
      → answer n ≡ reply
      → (rest : Option (Result (TaskStatus Double)))
      → (Goes n × (poll_once rec_task_id timeout deadline reply (clock n) rest ≡ rest))
        ⊎ ((r : Result (TaskStatus Double)) × Ends n r
            × (poll_once rec_task_id timeout deadline reply (clock n) rest ≡ some r))
  unfolding poll_once
  round_of n (throw e) got rest = inr (throw e, threw e got, refl)
  round_of n (ok status) got rest = elim (Bool-cases (status.status ==ℤ task_status_success)) [
    | inl success ↦ inr (
      ok status,
      succeeded status got ((==ℤ_iff status.status task_status_success).0 success),
      rw success refl,
    )
    | inr not_yet ↦ elim (Bool-cases (status.status ==ℤ task_status_failed)) [
      | inl failure' ↦ inr (
        throw (failure rec_task_id timeout deadline status),
        failed status got ((==ℤ_iff status.status task_status_failed).0 failure'),
        rw (not_yet, failure') refl,
      )
      | inr pending ↦ elim (Bool-cases (ltb deadline (clock n))) [
        | inl over ↦ inr (
          throw (late rec_task_id timeout deadline status),
          expired status got
              (
                ==ℤ-false status.status task_status_success not_yet,
                ==ℤ-false status.status task_status_failed pending,
              )
              (ltb-true deadline (clock n) over),
          rw (not_yet, pending, over) refl,
        )
        | inr in_time ↦ inl (
          (
            status,
            got,
            (
              ==ℤ-false status.status task_status_success not_yet,
              ==ℤ-false status.status task_status_failed pending,
            ),
            ltb-false deadline (clock n) in_time,
          ),
          rw (not_yet, pending, in_time) refl,
        )
      ]
    ]
  ]

  -- After so many rounds the clock is past the deadline.
  poll_from_ends :
      (last : ℕ)
      → deadline < clock last
      → (m : ℕ) × (r : Result (TaskStatus Double)) × (m ≤ last)
        × Runs Goes 0 m
        × Ends m r
        × (poll_from rec_task_id timeout deadline answer clock (suc last) 0 ≡ some r)
  unfolding poll_from
  poll_from_ends last over =
      loop_ends Goes Ends
        (λ n rest. poll_once rec_task_id timeout deadline (answer n) (clock n) rest)
        (poll_from rec_task_id timeout deadline answer clock)
        (λ n rest. round_of n (answer n) refl rest) (λ fuel n. refl) last 0 last (omega arith)
        (λ (status, got, pending, in_time). omega (arith, in_time, over))

-- When the interval is one millisecond or more and a sleep lasts at least the interval, the loop ends:
-- in round m, at most one more than the milliseconds of the timeout. The rounds before it answered a
-- task that is neither done nor failed, and none was past the deadline. The outcome is round m's: the
-- exception of the call, the status of a task that is done, the failure of one that has failed, or a
-- timeout, and that only of a pending task after the deadline.
pub wait_for_result_with_interval-Ends :
    {Double : Type 0} (rec_task_id : Bytes) (timeout start interval : ℕ)
    (answer : ℕ → Result (TaskStatus Double)) (clock : ℕ → ℕ)
    → 1 ≤ interval
    → start ≤ clock 0
    → ((i : ℕ) → clock i + interval ≤ clock (suc i))
    → (m : ℕ) × (r : Result (TaskStatus Double)) × (m ≤ suc timeout)
      × Runs (Goes rec_task_id timeout (start + timeout) answer clock) 0 m
      × Ends rec_task_id timeout (start + timeout) answer clock m r
      × (wait_for_result_with_interval rec_task_id timeout start answer clock (suc (suc timeout))
          ≡ some r)
unfolding wait_for_result_with_interval
wait_for_result_with_interval-Ends rec_task_id timeout start interval answer clock one first step =
    poll_from_ends rec_task_id timeout (start + timeout) answer clock (suc timeout)
      (let later = ticks start interval clock one first step (suc timeout) in omega (arith, later))
