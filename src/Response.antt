-- ===== src/Response.antt =====
-- Responses of the realtime protocol and their parser (include/trtc_asr/types.h, src/types.cc).
pub mod Errors
pub mod Tests
use trtc_asr_sdk_cpp.Common.{
  Bool, true, false, ◌&&◌, Option, none, some, List, [], ◌∷◌, ◌++◌, ℤ, pos, Bytes, codes,
  if◌then◌else◌, Result, ok, throw, asr_error, what, err_read_failed, ◌>>=◌,
}
use trtc_asr_sdk_cpp.Json.{JsonLibrary}

pub record WordInfo : Type 0 where
  pub word : Bytes
  pub start_time : ℤ
  pub end_time : ℤ
  pub stable_flag : ℤ
  pub speaker_id : ℤ
  pub speaker_name : Bytes

pub record SpeakerSegment : Type 0 where
  pub speaker_id : ℤ
  pub speaker_name : Bytes
  pub start_time : ℤ
  pub end_time : ℤ
  pub text : Bytes
  pub word_start : Option ℤ
  pub word_end : Option ℤ
  pub stable_flag : ℤ

pub record RecognitionResult : Type 0 where
  pub slice_type : ℤ
  pub index : ℤ
  pub start_time : ℤ
  pub end_time : ℤ
  pub voice_text_str : Bytes
  pub word_size : ℤ
  pub word_list : List WordInfo
  pub language : Bytes
  pub speaker_segments : List SpeakerSegment
  pub speaker_id : Option ℤ
  pub finish_silence_ms : ℤ
  pub last_token_runtime_ms : ℤ

pub record SpeakerContinue : Type 0 where
  pub continue_status : Bytes
  pub speaker_context_id : Bytes

pub record SpeechRecognitionResponse : Type 0 where
  pub code : ℤ
  pub message : Bytes
  pub voice_id : Bytes
  pub message_id : Bytes
  pub final_flag : ℤ
  pub result : RecognitionResult
  pub has_result : Bool
  pub speaker_continue : Option SpeakerContinue

abbrev pub empty_result : RecognitionResult
empty_result = record {
  slice_type = pos 0;
  index = pos 0;
  start_time = pos 0;
  end_time = pos 0;
  voice_text_str = [];
  word_size = pos 0;
  word_list = [];
  language = [];
  speaker_segments = [];
  speaker_id = none;
  finish_silence_ms = pos 0;
  last_token_runtime_ms = pos 0;
}

-- for (const auto& e : array) out.push_back(f(e))
abbrev pub collect {ℓ κ} : {A : Type ℓ} {B : Type κ} → (A → Result B) → List A → Result (List B)
collect f [] = ok []
collect f (a ∷ rest) = do b ← f a; others ← collect f rest; ok (b ∷ others)

-- catch (const std::exception& e) { throw ASRError(kErrReadFailed, ...) }
abbrev pub converge {ℓ} : {A : Type ℓ} → Result A → Result A
converge (ok a) = ok a
converge (throw e) =
    throw (asr_error err_read_failed (codes "unmarshal response failed: " ++ what e))

module _ (J : JsonLibrary) where
  abbrev int : J.Json → Bytes → Result ℤ
  int j key = J.value_int j key (pos 0)

  abbrev int64 : J.Json → Bytes → Result ℤ
  int64 j key = J.value_int64 j key (pos 0)

  abbrev text : J.Json → Bytes → Result Bytes
  text j key = J.value_string j key []

  -- if (j.contains(key) && j[key].is_number()) out = j[key].get<int>()
  abbrev optional_int : J.Json → Bytes → Result (Option ℤ)
  optional_int j key =
      if J.contains j key && J.is_number (J.at j key)
      then (do n ← J.get_int (J.at j key); ok (some n))
      else ok none

  -- The loop over an array that may be absent.
  abbrev optional_list {ℓ} : {A : Type ℓ} → (J.Json → Result A) → J.Json → Bytes → Result (List A)
  optional_list f j key =
      if J.contains j key && J.is_array (J.at j key)
      then collect f (J.elements (J.at j key))
      else ok []

  pub parse_word_info : J.Json → Result WordInfo
  parse_word_info j = do
    word ← text j (codes "word")
    start_time ← int64 j (codes "start_time")
    end_time ← int64 j (codes "end_time")
    stable_flag ← int j (codes "stable_flag")
    speaker_id ← int j (codes "speaker_id")
    speaker_name ← text j (codes "speaker_name")
    ok (record {
      word = word;
      start_time = start_time;
      end_time = end_time;
      stable_flag = stable_flag;
      speaker_id = speaker_id;
      speaker_name = speaker_name;
    })

  pub parse_speaker_segment : J.Json → Result SpeakerSegment
  parse_speaker_segment j = do
    speaker_id ← int j (codes "speaker_id")
    speaker_name ← text j (codes "speaker_name")
    start_time ← int64 j (codes "start_time")
    end_time ← int64 j (codes "end_time")
    text ← text j (codes "text")
    word_start ← optional_int j (codes "word_start")
    word_end ← optional_int j (codes "word_end")
    stable_flag ← int j (codes "stable_flag")
    ok (record {
      speaker_id = speaker_id;
      speaker_name = speaker_name;
      start_time = start_time;
      end_time = end_time;
      text = text;
      word_start = word_start;
      word_end = word_end;
      stable_flag = stable_flag;
    })

  pub parse_result : J.Json → Result RecognitionResult
  unfolding parse_word_info parse_speaker_segment
  parse_result r = do
    slice_type ← int r (codes "slice_type")
    index ← int r (codes "index")
    start_time ← int64 r (codes "start_time")
    end_time ← int64 r (codes "end_time")
    voice_text_str ← text r (codes "voice_text_str")
    word_size ← int r (codes "word_size")
    language ← text r (codes "language")
    finish_silence_ms ← int64 r (codes "finish_silence_ms")
    last_token_runtime_ms ← int64 r (codes "last_token_runtime_ms")
    speaker_id ← optional_int r (codes "speaker_id")
    word_list ← optional_list parse_word_info r (codes "word_list")
    speaker_segments ← optional_list parse_speaker_segment r (codes "speaker_segments")
    ok (record {
      slice_type = slice_type;
      index = index;
      start_time = start_time;
      end_time = end_time;
      voice_text_str = voice_text_str;
      word_size = word_size;
      word_list = word_list;
      language = language;
      speaker_segments = speaker_segments;
      speaker_id = speaker_id;
      finish_silence_ms = finish_silence_ms;
      last_token_runtime_ms = last_token_runtime_ms;
    })

  -- Whether the frame carries an object under the key.
  abbrev pub has_object : J.Json → Bytes → Bool
  has_object j key = J.contains j key && J.is_object (J.at j key)

  pub parse_continue : J.Json → Result (Option SpeakerContinue)
  parse_continue j =
      if has_object j (codes "speaker_continue")
      then (do
        continue_status ← text (J.at j (codes "speaker_continue")) (codes "continue_status")
        speaker_context_id ← text (J.at j (codes "speaker_continue")) (codes "speaker_context_id")
        ok (
            some (record {
              continue_status = continue_status;
              speaker_context_id = speaker_context_id;
            })))
      else ok none

  pub parse_speech_response_inner : J.Json → Result SpeechRecognitionResponse
  unfolding parse_continue parse_result
  parse_speech_response_inner j = do
    code ← int j (codes "code")
    message ← text j (codes "message")
    voice_id ← text j (codes "voice_id")
    message_id ← text j (codes "message_id")
    final_flag ← int j (codes "final")
    speaker_continue ← parse_continue j
    result ←
        if has_object j (codes "result")
        then parse_result (J.at j (codes "result"))
        else ok empty_result
    ok (record {
      code = code;
      message = message;
      voice_id = voice_id;
      message_id = message_id;
      final_flag = final_flag;
      result = result;
      has_result = has_object j (codes "result");
      speaker_continue = speaker_continue;
    })

  unfoldable pub parse_speech_response : Bytes → Result SpeechRecognitionResponse
  unfolding parse_speech_response_inner
  parse_speech_response text = do
    j ← converge (J.parse text)
    converge (parse_speech_response_inner j)
