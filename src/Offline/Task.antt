-- ===== src/Offline/Task.antt =====
-- The status of a task (TaskStatus, ParseTaskStatus and DescribeTaskStatus in src/file_recognizer.cc).
use trtc_asr_sdk_cpp.Common.{
  not, ◌&&◌, List, [], ℤ, pos, Bytes, codes, is_empty, if◌then◌else◌, Result, ok, throw_if,
  err_invalid_param, err_server_error, ◌>>=◌, ◌>>◌,
}
use trtc_asr_sdk_cpp.Credential.{Credential}
use trtc_asr_sdk_cpp.Response.{converge, collect}
use trtc_asr_sdk_cpp.Offline.{World, do_request, parse_api_envelope, has_object}

pub record SentenceWords : Type 0 where
  pub word : Bytes
  pub offset_start_ms : ℤ
  pub offset_end_ms : ℤ

module _ (Double : Type 0) where
  pub record SentenceDetail : Type 0 where
    pub final_sentence : Bytes
    pub slice_sentence : Bytes
    pub written_text : Bytes
    pub start_ms : ℤ
    pub end_ms : ℤ
    pub words_num : ℤ
    pub words : List SentenceWords
    pub speech_speed : Double
    pub silence_time : ℤ
    pub speaker_id : ℤ
    pub speaker_role_name : Bytes
    pub channel_id : ℤ
    pub language : Bytes

  pub record TaskStatus : Type 0 where
    pub rec_task_id : Bytes
    pub status : ℤ
    pub status_str : Bytes
    pub progress : ℤ
    pub result : Bytes
    pub error_msg : Bytes
    pub result_detail : List SentenceDetail
    pub audio_duration : Double

abbrev pub task_status_success : ℤ
task_status_success = pos 2

abbrev pub task_status_failed : ℤ
task_status_failed = pos 3

module _ (world : World) where
  pub pick_int : world.json.Json → Bytes → Bytes → Result ℤ
  pick_int j primary fallback =
      if world.json.contains j primary && not (world.json.is_null (world.json.at j primary))
      then world.json.get_int64 (world.json.at j primary)
      else if world.json.contains j fallback && not (world.json.is_null (world.json.at j fallback))
      then world.json.get_int64 (world.json.at j fallback)
      else ok (pos 0)

  pub parse_sentence_words : world.json.Json → Result SentenceWords
  unfolding pick_int
  parse_sentence_words w = do
    word ← world.json.value_string w (codes "Word") []
    start ← pick_int w (codes "StartTime") (codes "OffsetStartMs")
    stop ← pick_int w (codes "EndTime") (codes "OffsetEndMs")
    ok (record { word = word; offset_start_ms = start; offset_end_ms = stop })

  -- The elements of an array under a key, if there is one.
  abbrev elements_at {ℓ} :
      {A : Type ℓ} → (world.json.Json → Result A) → world.json.Json → Bytes → Result (List A)
  elements_at parse j key =
      if world.json.contains j key && world.json.is_array (world.json.at j key)
      then collect parse (world.json.elements (world.json.at j key))
      else ok []

  pub parse_sentence_detail : world.json.Json → Result (SentenceDetail world.json.Double)
  unfolding parse_sentence_words
  parse_sentence_detail j = do
    final_sentence ← world.json.value_string j (codes "FinalSentence") []
    slice_sentence ← world.json.value_string j (codes "SliceSentence") []
    written_text ← world.json.value_string j (codes "WrittenText") []
    start_ms ← world.json.value_int64 j (codes "StartMs") (pos 0)
    end_ms ← world.json.value_int64 j (codes "EndMs") (pos 0)
    words_num ← world.json.value_int j (codes "WordsNum") (pos 0)
    speech_speed ← world.json.value_double j (codes "SpeechSpeed")
    silence_time ← world.json.value_int64 j (codes "SilenceTime") (pos 0)
    speaker_id ← world.json.value_int j (codes "SpeakerId") (pos 0)
    speaker_role_name ← world.json.value_string j (codes "SpeakerRoleName") []
    channel_id ← world.json.value_int j (codes "ChannelId") (pos 0)
    language ← world.json.value_string j (codes "Language") []
    words ← elements_at parse_sentence_words j (codes "Words")
    ok (record {
      final_sentence = final_sentence;
      slice_sentence = slice_sentence;
      written_text = written_text;
      start_ms = start_ms;
      end_ms = end_ms;
      words_num = words_num;
      words = words;
      speech_speed = speech_speed;
      silence_time = silence_time;
      speaker_id = speaker_id;
      speaker_role_name = speaker_role_name;
      channel_id = channel_id;
      language = language;
    })

  pub parse_task_status : world.json.Json → Result (TaskStatus world.json.Double)
  unfolding parse_sentence_detail
  parse_task_status j = do
    rec_task_id ← world.json.value_string j (codes "RecTaskId") []
    status ← world.json.value_int j (codes "Status") (pos 0)
    status_str ← world.json.value_string j (codes "StatusStr") []
    progress ← world.json.value_int j (codes "Progress") (pos 0)
    result ← world.json.value_string j (codes "Result") []
    error_msg ← world.json.value_string j (codes "ErrorMsg") []
    audio_duration ← world.json.value_double j (codes "AudioDuration")
    result_detail ← elements_at parse_sentence_detail j (codes "ResultDetail")
    ok (record {
      rec_task_id = rec_task_id;
      status = status;
      status_str = status_str;
      progress = progress;
      result = result;
      error_msg = error_msg;
      result_detail = result_detail;
      audio_duration = audio_duration;
    })

  -- The body of a call that asks for the status of a task.
  abbrev pub task_body : Bytes → Result Bytes
  task_body rec_task_id =
      world.json.dump
        (world.json.set world.json.null (codes "RecTaskId") (world.json.string rec_task_id))

  abbrev pub check_task_status : world.json.Json → Result (TaskStatus world.json.Double)
  check_task_status response =
      throw_if (not (has_object world response (codes "Data"))) err_server_error
        (codes "empty response from server")
      >> converge (parse_task_status (world.json.at response (codes "Data")))

  unfoldable pub describe_task_status :
      Credential → Bytes → Bytes → Result (TaskStatus world.json.Double)
  unfolding parse_task_status
  describe_task_status c endpoint rec_task_id =
      throw_if (is_empty rec_task_id) err_invalid_param (codes "RecTaskId is empty") >> (do
        text ← task_body rec_task_id
        body ← do_request world c endpoint (codes "/v1/DescribeTaskStatus") (ok text)
        response ← parse_api_envelope world body
        check_task_status response)
