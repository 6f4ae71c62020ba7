-- ===== src/V3/Status.antt =====
-- The status of a transcription, and the loop that waits for it (src/v3.cc). The clock is in milliseconds.
use trtc_asr_sdk_cpp.Common.{
  ℕ, zero, suc, ◌+◌, Option, none, some, List, [], ◌++◌, ℤ, pos, Bytes, codes, is_empty, to_string,
  ltb, ◌==ℤ◌, if◌then◌else◌, Result, ok, throw_if, Exception, asr_error, err_invalid_param,
  err_server_error, err_timeout, ◌>>=◌,
}
use trtc_asr_sdk_cpp.Credential.{Credential}
use trtc_asr_sdk_cpp.Offline.{World}
use trtc_asr_sdk_cpp.Offline.Task.{task_status_success, task_status_failed}
use trtc_asr_sdk_cpp.Run.{Run, gives, raises, crashes, lift, ◌>>=◌ as bind}
use trtc_asr_sdk_cpp.Json.Fields.{put_text}
use trtc_asr_sdk_cpp.V3.Sentence.{Word, word_from_json, each_of, call_service}

module _ (Double : Type 0) where
  pub record SentenceDetail : Type 0 where
    pub final_sentence : Bytes
    pub slice_sentence : Bytes
    pub written_text : Bytes
    pub start_ms : ℤ
    pub end_ms : ℤ
    pub words_num : ℤ
    pub words : List Word
    pub speech_speed : Double
    pub speaker_id : ℤ
    pub channel_id : ℤ
    pub speaker_role_name : Bytes
    pub silence_time : ℤ
    pub language : Bytes
    pub language_b47 : Bytes

  pub record TranscriptionStatus : Type 0 where
    pub code : ℤ
    pub message : Bytes
    pub request_id : Bytes
    pub transcription_id : Bytes
    pub status : ℤ
    pub status_str : Bytes
    pub progress : ℤ
    pub audio_duration : Double
    pub result : Bytes
    pub result_detail : List SentenceDetail
    pub error_msg : Bytes

module _ (world : World) where
  unfoldable pub sentence_detail_from_json :
      world.json.Json → Result (SentenceDetail world.json.Double)
  unfolding word_from_json
  sentence_detail_from_json j = do
    final_sentence ← world.json.value_string j (codes "final_sentence") []
    slice_sentence ← world.json.value_string j (codes "slice_sentence") []
    written_text ← world.json.value_string j (codes "written_text") []
    start_ms ← world.json.value_int j (codes "start_ms") (pos 0)
    end_ms ← world.json.value_int j (codes "end_ms") (pos 0)
    words_num ← world.json.value_int j (codes "words_num") (pos 0)
    words ← each_of world (word_from_json world) j (codes "words")
    speech_speed ← world.json.value_double j (codes "speech_speed")
    speaker_id ← world.json.value_int j (codes "speaker_id") (pos 0)
    channel_id ← world.json.value_int j (codes "channel_id") (pos 0)
    speaker_role_name ← world.json.value_string j (codes "speaker_role_name") []
    silence_time ← world.json.value_int j (codes "silence_time") (pos 0)
    language ← world.json.value_string j (codes "language") []
    language_b47 ← world.json.value_string j (codes "language_b47") []
    ok (record {
      final_sentence = final_sentence;
      slice_sentence = slice_sentence;
      written_text = written_text;
      start_ms = start_ms;
      end_ms = end_ms;
      words_num = words_num;
      words = words;
      speech_speed = speech_speed;
      speaker_id = speaker_id;
      channel_id = channel_id;
      speaker_role_name = speaker_role_name;
      silence_time = silence_time;
      language = language;
      language_b47 = language_b47;
    })

  unfoldable pub transcription_status_from_json :
      world.json.Json → Result (TranscriptionStatus world.json.Double)
  unfolding sentence_detail_from_json
  transcription_status_from_json j = do
    code ← world.json.value_int j (codes "code") (pos 0)
    message ← world.json.value_string j (codes "message") []
    request_id ← world.json.value_string j (codes "request_id") []
    transcription_id ← world.json.value_string j (codes "transcription_id") []
    status ← world.json.value_int j (codes "status") (pos 0)
    status_str ← world.json.value_string j (codes "status_str") []
    progress ← world.json.value_int j (codes "progress") (pos 0)
    audio_duration ← world.json.value_double j (codes "audio_duration")
    result ← world.json.value_string j (codes "result") []
    result_detail ← each_of world sentence_detail_from_json j (codes "result_detail")
    error_msg ← world.json.value_string j (codes "error_msg") []
    ok (record {
      code = code;
      message = message;
      request_id = request_id;
      transcription_id = transcription_id;
      status = status;
      status_str = status_str;
      progress = progress;
      audio_duration = audio_duration;
      result = result;
      result_detail = result_detail;
      error_msg = error_msg;
    })

  unfoldable pub describe_task :
      Credential → Bytes → Bytes → Run (TranscriptionStatus world.json.Double)
  unfolding call_service transcription_status_from_json
  describe_task c endpoint transcription_id =
      bind
        (lift (
          throw_if (is_empty transcription_id) err_invalid_param
            (codes "transcription_id is empty")))
        (λ u.
          bind
            (call_service world c endpoint (codes "/v3/describe_transcription")
              (put_text world.json (codes "transcription_id") transcription_id world.json.null))
            (λ response. lift (transcription_status_from_json response)))

module _ {Double : Type 0} (transcription_id : Bytes) (timeout deadline : ℕ) where
  abbrev pub task_failure : TranscriptionStatus Double → Exception
  task_failure status = asr_error err_server_error (
      codes "task failed: "
      ++ (status.error_msg
          ++ (codes " (transcription_id: " ++ (status.transcription_id ++ codes ")"))))

  abbrev pub not_completed : TranscriptionStatus Double → Exception
  not_completed status = asr_error err_timeout (
      codes "task not completed within "
      ++ (to_string (pos timeout)
          ++ (codes "ms (transcription_id: "
              ++ (transcription_id ++ (codes ", Status: " ++ (status.status_str ++ codes ")"))))))

  -- One round: the answer to DescribeTask, the clock after it, and the rounds that follow.
  unfoldable pub wait_once :
      Run (TranscriptionStatus Double)
      → ℕ
      → Option (Run (TranscriptionStatus Double))
      → Option (Run (TranscriptionStatus Double))
  wait_once crashes time rest = some crashes
  wait_once (raises e) time rest = some (raises e)
  wait_once (gives status) time rest =
      if status.status ==ℤ task_status_success
      then some (gives status)
      else if status.status ==ℤ task_status_failed
      then some (raises (task_failure status))
      else if ltb deadline time
      then some (raises (not_completed status))
      else rest

  module _ (answer : ℕ → Run (TranscriptionStatus Double)) (clock : ℕ → ℕ) where
    -- `none` is a loop that has run out of fuel. The number counts the rounds.
    unfoldable pub wait_from : ℕ → ℕ → Option (Run (TranscriptionStatus Double))
    unfolding wait_once
    wait_from zero n = none
    wait_from (suc fuel) n =
        let rest = wait_from fuel (suc n) in wait_once (answer n) (clock n) rest

-- The clock is read once before the loop, as `start`.
unfoldable pub wait_for_result_with_interval :
    {Double : Type 0}
    → Bytes
    → ℕ
    → ℕ
    → (ℕ → Run (TranscriptionStatus Double))
    → (ℕ → ℕ)
    → ℕ
    → Option (Run (TranscriptionStatus Double))
unfolding wait_from
wait_for_result_with_interval transcription_id timeout start answer clock fuel =
    wait_from transcription_id timeout (start + timeout) answer clock fuel 0

-- A second between two calls, and ten minutes in all.
unfoldable pub wait_for_result :
    {Double : Type 0}
    → Bytes
    → ℕ
    → (ℕ → Run (TranscriptionStatus Double))
    → (ℕ → ℕ)
    → ℕ
    → Option (Run (TranscriptionStatus Double))
unfolding wait_for_result_with_interval
wait_for_result transcription_id start answer clock fuel =
    wait_for_result_with_interval transcription_id 600000 start answer clock fuel
