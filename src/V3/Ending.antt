-- ===== src/V3/Ending.antt =====
-- The end of the loop that waits for a task of version 3 (src/v3.cc).
use trtc_asr_sdk_cpp.Common.{
  arith, ==ℤ_iff, ==ℤ-false, ltb-true, ltb-false, ◌≡◌, refl, ◌⊎◌, inl, inr, ℕ, suc, ◌+◌, ◌≤◌, ◌<◌,
  Option, some, Bytes, ltb, ◌==ℤ◌, Exception, Bool-cases,
}
use trtc_asr_sdk_cpp.Loops.{Runs, loop_ends, ticks}
use trtc_asr_sdk_cpp.Offline.Task.{task_status_success, task_status_failed}
use trtc_asr_sdk_cpp.Run.{Run, gives, raises, crashes}
use trtc_asr_sdk_cpp.V3.Status.{
  TranscriptionStatus, task_failure, not_completed, wait_once, wait_from,
  wait_for_result_with_interval,
}

module _ {Double : Type 0} (transcription_id : Bytes) (timeout deadline : ℕ)
    (answer : ℕ → Run (TranscriptionStatus Double)) (clock : ℕ → ℕ) where
  -- The task of round n is neither done nor failed.
  abbrev IsOpen : TranscriptionStatus Double → Type 0
  IsOpen status =
      (¬ (status.status ≡ task_status_success)) × (¬ (status.status ≡ task_status_failed))

  -- Round n leaves the loop running.
  abbrev pub Continues : ℕ → Type 0
  Continues n =
      (status : TranscriptionStatus Double) × (answer n ≡ gives status)
      × IsOpen status
      × (clock n ≤ deadline)

  -- Round n ends the loop with this outcome.
  pub data Ends (n : ℕ) : Run (TranscriptionStatus Double) → Type 0 where
    crashed : answer n ≡ crashes → Ends n crashes
    raised : (e : Exception) → answer n ≡ raises e → Ends n (raises e)
    succeeded :
        (status : TranscriptionStatus Double)
        → answer n ≡ gives status
        → status.status ≡ task_status_success
        → Ends n (gives status)
    failed :
        (status : TranscriptionStatus Double)
        → answer n ≡ gives status
        → status.status ≡ task_status_failed
        → Ends n (raises (task_failure transcription_id timeout deadline status))
    expired :
        (status : TranscriptionStatus Double)
        → answer n ≡ gives status
        → IsOpen status
        → deadline < clock n
        → Ends n (raises (not_completed transcription_id timeout deadline status))

  wait_once-cases :
      (n : ℕ) (reply : Run (TranscriptionStatus Double))
      → answer n ≡ reply
      → (rest : Option (Run (TranscriptionStatus Double)))
      → (Continues n × (wait_once transcription_id timeout deadline reply (clock n) rest ≡ rest))
        ⊎ ((r : Run (TranscriptionStatus Double)) × Ends n r
            × (wait_once transcription_id timeout deadline reply (clock n) rest ≡ some r))
  unfolding wait_once
  wait_once-cases n crashes got rest = inr (crashes, crashed got, refl)
  wait_once-cases n (raises e) got rest = inr (raises e, raised e got, refl)
  wait_once-cases n (gives status) got rest =
      elim (Bool-cases (status.status ==ℤ task_status_success)) [
        | inl done ↦ inr (
          gives status,
          succeeded status got ((==ℤ_iff status.status task_status_success).0 done),
          rw done refl,
        )
        | inr not_done ↦ elim (Bool-cases (status.status ==ℤ task_status_failed)) [
          | inl lost ↦ inr (
            raises (task_failure transcription_id timeout deadline status),
            failed status got ((==ℤ_iff status.status task_status_failed).0 lost),
            rw (not_done, lost) refl,
          )
          | inr not_lost ↦
              let open' : IsOpen status = (
                ==ℤ-false status.status task_status_success not_done,
                ==ℤ-false status.status task_status_failed not_lost,
              ) in
              elim (Bool-cases (ltb deadline (clock n))) [
                | inl over ↦ inr (
                  raises (not_completed transcription_id timeout deadline status),
                  expired status got open' (ltb-true deadline (clock n) over),
                  rw (not_done, not_lost, over) refl,
                )
                | inr in_time ↦ inl (
                  (status, got, open', ltb-false deadline (clock n) in_time),
                  rw (not_done, not_lost, in_time) refl,
                )
              ]
        ]
      ]

-- The loop of the version 3 client that waits for a task ends, when the interval is one millisecond or
-- more and a sleep lasts at least the interval: in round m, at most one more than the milliseconds of
-- the timeout. The rounds before it answered a task that is neither done nor failed, and none was past
-- the deadline. The outcome is round m's: the exception or the crash of the call, the status of a task
-- that is done, the failure of one that has failed, or a timeout, and that only of an open task after
-- the deadline.
pub v3_wait-Ends :
    {Double : Type 0} (transcription_id : Bytes) (timeout start interval : ℕ)
    (answer : ℕ → Run (TranscriptionStatus Double)) (clock : ℕ → ℕ)
    → 1 ≤ interval
    → start ≤ clock 0
    → ((i : ℕ) → clock i + interval ≤ clock (suc i))
    → (m : ℕ) × (r : Run (TranscriptionStatus Double)) × (m ≤ suc timeout)
      × Runs (Continues transcription_id timeout (start + timeout) answer clock) 0 m
      × Ends transcription_id timeout (start + timeout) answer clock m r
      × (wait_for_result_with_interval transcription_id timeout start answer clock
            (suc (suc timeout))
          ≡ some r)
unfolding wait_for_result_with_interval wait_from
v3_wait-Ends transcription_id timeout start interval answer clock one first step =
    let deadline = start + timeout in
    let later = ticks start interval clock one first step (suc timeout) in
    loop_ends (Continues transcription_id timeout deadline answer clock)
      (Ends transcription_id timeout deadline answer clock)
      (λ n rest. wait_once transcription_id timeout deadline (answer n) (clock n) rest)
      (wait_from transcription_id timeout deadline answer clock)
      (λ n rest.
        wait_once-cases transcription_id timeout deadline answer clock n (answer n) refl rest)
      (λ fuel n. refl) (suc timeout) 0 (suc timeout) (omega arith)
      (λ (status, got, pending, in_time). omega (arith, in_time, later))
