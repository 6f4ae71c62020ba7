-- ===== src/Offline/Polling.antt =====
-- The polling loop of FileRecognizer::WaitForResultWithInterval (src/file_recognizer.cc).
-- The clock is read once before the loop and once in each round, in milliseconds.
use trtc_asr_sdk_cpp.Common.{
  ℕ, zero, suc, ◌+◌, Option, none, some, ◌++◌, pos, Bytes, codes, to_string, ltb, ◌==ℤ◌,
  if◌then◌else◌, Result, Exception, ok, throw, asr_error, err_server_error, err_timeout,
}
use trtc_asr_sdk_cpp.Offline.Task.{TaskStatus, task_status_success, task_status_failed}

module _ {Double : Type 0} (rec_task_id : Bytes) (timeout deadline : ℕ) where
  abbrev pub failure : TaskStatus Double → Exception
  failure status = asr_error err_server_error (
      codes "task failed: "
      ++ (status.error_msg ++ (codes " (RecTaskId: " ++ (status.rec_task_id ++ codes ")"))))

  abbrev pub late : TaskStatus Double → Exception
  late status = asr_error err_timeout (
      codes "task not completed within "
      ++ (to_string (pos timeout)
          ++ (codes "ms (RecTaskId: "
              ++ (rec_task_id ++ (codes ", Status: " ++ (status.status_str ++ codes ")"))))))

  -- One round: the answer to DescribeTaskStatus, the clock after it, and the rounds that follow.
  unfoldable pub poll_once :
      Result (TaskStatus Double)
      → ℕ
      → Option (Result (TaskStatus Double))
      → Option (Result (TaskStatus Double))
  poll_once (throw e) time rest = some (throw e)
  poll_once (ok status) time rest =
      if status.status ==ℤ task_status_success
      then some (ok status)
      else if status.status ==ℤ task_status_failed
      then some (throw (failure status))
      else if ltb deadline time
      then some (throw (late status))
      else rest

  module _ (answer : ℕ → Result (TaskStatus Double)) (clock : ℕ → ℕ) where
    -- `none` is a loop that has run out of fuel. The number counts the rounds.
    unfoldable pub poll_from : ℕ → ℕ → Option (Result (TaskStatus Double))
    unfolding poll_once
    poll_from zero n = none
    poll_from (suc fuel) n =
        let rest = poll_from fuel (suc n) in poll_once (answer n) (clock n) rest

-- The clock is read once before the loop, as `start`.
unfoldable pub wait_for_result_with_interval :
    {Double : Type 0}
    → Bytes
    → ℕ
    → ℕ
    → (ℕ → Result (TaskStatus Double))
    → (ℕ → ℕ)
    → ℕ
    → Option (Result (TaskStatus Double))
unfolding poll_from
wait_for_result_with_interval rec_task_id timeout start answer clock fuel =
    poll_from rec_task_id timeout (start + timeout) answer clock fuel 0

-- A second between two calls, and ten minutes in all.
unfoldable pub wait_for_result :
    {Double : Type 0}
    → Bytes
    → ℕ
    → (ℕ → Result (TaskStatus Double))
    → (ℕ → ℕ)
    → ℕ
    → Option (Result (TaskStatus Double))
unfolding wait_for_result_with_interval
wait_for_result rec_task_id start answer clock fuel =
    wait_for_result_with_interval rec_task_id 600000 start answer clock fuel
