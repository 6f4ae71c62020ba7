-- ===== src/Offline/Sentence.antt =====
-- SentenceRecognizer (src/sentence_recognizer.cc, include/trtc_asr/sentence_recognizer.h).
use trtc_asr_sdk_cpp.Common.{
  ℕ, true, ◌&&◌, Option, none, some, List, [], ℤ, pos, Bytes, codes, is_empty, length, ltb, ◌==ℤ◌,
  if◌then◌else◌, Result, ok, throw_if, err_invalid_param, ◌>>=◌, ◌>>◌,
}
use trtc_asr_sdk_cpp.Encoding.Base64.{base64_encode}
use trtc_asr_sdk_cpp.Credential.{Credential}
use trtc_asr_sdk_cpp.Response.{converge, collect}
use trtc_asr_sdk_cpp.Offline.{World, do_request, parse_api_envelope}

pub record SentenceRecognitionRequest : Type 0 where
  pub eng_service_type : Bytes
  pub source_type : ℤ
  pub voice_format : Bytes
  pub url : Bytes
  pub data_text : Bytes
  pub data_len : ℤ
  pub word_info : ℤ
  pub filter_dirty : ℤ
  pub filter_modal : ℤ
  pub filter_punc : ℤ
  pub convert_num_mode : ℤ
  pub hotword_id : Bytes
  pub hotword_list : Bytes
  pub customization_id : Bytes
  pub input_sample_rate : ℤ
  pub language : Bytes

pub record SentenceWord : Type 0 where
  pub word : Bytes
  pub start_time : ℤ
  pub end_time : ℤ

pub record SentenceRecognitionResult : Type 0 where
  pub result : Bytes
  pub audio_duration : ℤ
  pub word_size : ℤ
  pub word_list : List SentenceWord
  pub request_id : Bytes

abbrev pub source_type_url : ℤ
source_type_url = pos 0

abbrev pub source_type_data : ℤ
source_type_data = pos 1

-- 3 * 1024 * 1024
abbrev pub max_audio_size : ℕ
max_audio_size = 3145728

abbrev pub new_request : SentenceRecognitionRequest
new_request = record {
  eng_service_type = [];
  source_type = pos 0;
  voice_format = [];
  url = [];
  data_text = [];
  data_len = pos 0;
  word_info = pos 0;
  filter_dirty = pos 0;
  filter_modal = pos 0;
  filter_punc = pos 0;
  convert_num_mode = pos 0;
  hotword_id = [];
  hotword_list = [];
  customization_id = [];
  input_sample_rate = pos 0;
  language = [];
}

unfoldable pub validate_request : SentenceRecognitionRequest → Result (Unit {0})
validate_request req =
    throw_if (is_empty req.eng_service_type) err_invalid_param (codes "EngServiceType is required")
    >> (throw_if (is_empty req.voice_format) err_invalid_param (codes "VoiceFormat is required")
        >> (throw_if ((req.source_type ==ℤ source_type_url) && is_empty req.url) err_invalid_param
              (codes "Url is required when SourceType=0")
            >> throw_if ((req.source_type ==ℤ source_type_data) && is_empty req.data_text)
                err_invalid_param (codes "Data is required when SourceType=1")))

module _ (world : World) where
  -- j[key] = value, under `if (!value.empty())` and `if (value != 0)`.
  abbrev set_text : Bytes → Bytes → world.json.Json → world.json.Json
  set_text key v j = if is_empty v then j else world.json.set j key (world.json.string v)

  abbrev set_number : Bytes → ℤ → world.json.Json → world.json.Json
  set_number key n j = if n ==ℤ pos 0 then j else world.json.set j key (world.json.integer n)

  unfoldable pub serialize_request : SentenceRecognitionRequest → Result Bytes
  serialize_request req =
      let j0 =
        world.json.set world.json.null (codes "EngSerViceType")
          (world.json.string req.eng_service_type) in
      let j1 = world.json.set j0 (codes "SourceType") (world.json.integer req.source_type) in
      let j2 = world.json.set j1 (codes "VoiceFormat") (world.json.string req.voice_format) in
      let j3 =
        set_number (codes "DataLen") req.data_len
          (set_text (codes "Data") req.data_text (set_text (codes "Url") req.url j2)) in
      let j4 =
        set_number (codes "FilterDirty") req.filter_dirty
          (set_number (codes "WordInfo") req.word_info j3) in
      let j5 =
        set_number (codes "FilterPunc") req.filter_punc
          (set_number (codes "FilterModal") req.filter_modal j4) in
      let j6 =
        set_text (codes "HotwordId") req.hotword_id
          (set_number (codes "ConvertNumMode") req.convert_num_mode j5) in
      let j7 =
        set_text (codes "CustomizationId") req.customization_id
          (set_text (codes "HotwordList") req.hotword_list j6) in
      world.json.dump (
        set_text (codes "Language") req.language
          (set_number (codes "InputSampleRate") req.input_sample_rate j7))

  unfoldable pub parse_sentence_word : world.json.Json → Result SentenceWord
  parse_sentence_word w = do
    word ← world.json.value_string w (codes "Word") []
    start_time ← world.json.value_int64 w (codes "StartTime") (pos 0)
    end_time ← world.json.value_int64 w (codes "EndTime") (pos 0)
    ok (record { word = word; start_time = start_time; end_time = end_time })

  unfoldable pub parse_sentence_result : world.json.Json → Result SentenceRecognitionResult
  unfolding parse_sentence_word
  parse_sentence_result response = do
    result ← world.json.value_string response (codes "Result") []
    audio_duration ← world.json.value_int64 response (codes "AudioDuration") (pos 0)
    word_size ← world.json.value_int response (codes "WordSize") (pos 0)
    request_id ← world.json.value_string response (codes "RequestId") []
    word_list ←
        if world.json.contains response (codes "WordList")
          && world.json.is_array (world.json.at response (codes "WordList"))
        then collect parse_sentence_word
            (world.json.elements (world.json.at response (codes "WordList")))
        else ok []
    ok (record {
      result = result;
      audio_duration = audio_duration;
      word_size = word_size;
      word_list = word_list;
      request_id = request_id;
    })

  unfoldable pub recognize :
      Credential → Bytes → SentenceRecognitionRequest → Result SentenceRecognitionResult
  unfolding validate_request serialize_request parse_sentence_result
  recognize c endpoint req = do
    validate_request req
    body ← do_request world c endpoint (codes "/v1/SentenceRecognition") (serialize_request req)
    response ← parse_api_envelope world body
    converge (parse_sentence_result response)

  -- The checks of the audio that RecognizeData and RecognizeDataWithOptions share.
  abbrev pub check_audio : Bytes → Result (Unit {0})
  check_audio audio =
      throw_if (is_empty audio) err_invalid_param (codes "audio data is empty")
      >> throw_if (ltb max_audio_size (length audio)) err_invalid_param
          (codes "audio data exceeds 3MB limit")

  abbrev pub with_audio : Bytes → SentenceRecognitionRequest → SentenceRecognitionRequest
  with_audio audio req = record req {
    source_type = source_type_data;
    data_text = base64_encode audio;
    data_len = pos (length audio);
  }

  unfoldable pub recognize_data :
      Credential → Bytes → Bytes → Bytes → Bytes → Result SentenceRecognitionResult
  recognize_data c endpoint audio voice_format engine_model_type =
      check_audio audio
      >> recognize c endpoint (
          with_audio audio (record new_request {
            eng_service_type = engine_model_type;
            voice_format = voice_format;
          }))

  unfoldable pub recognize_url :
      Credential → Bytes → Bytes → Bytes → Bytes → Result SentenceRecognitionResult
  recognize_url c endpoint audio_url voice_format engine_model_type =
      throw_if (is_empty audio_url) err_invalid_param (codes "audio URL is empty")
      >> recognize c endpoint (record new_request {
        eng_service_type = engine_model_type;
        source_type = source_type_url;
        voice_format = voice_format;
        url = audio_url;
      })

  -- A null request is `none`.
  unfoldable pub recognize_data_with_options :
      Credential
      → Bytes
      → Bytes
      → Option SentenceRecognitionRequest
      → Result SentenceRecognitionResult
  recognize_data_with_options c endpoint audio none =
      throw_if true err_invalid_param (codes "request is null") >> recognize c endpoint new_request
  recognize_data_with_options c endpoint audio (some req) =
      check_audio audio >> recognize c endpoint (with_audio audio req)
