-- ===== src/V3/Sentence.antt =====
-- v3::SentenceRecognizer (src/v3.cc).
use trtc_asr_sdk_cpp.Common.{
  ℕ, true, not, ◌&&◌, ◌||◌, Option, none, some, List, [], ◌∷◌, ℤ, pos, Bytes, codes, is_empty,
  length, ltb, ◌==ℤ◌, if◌then◌else◌, Result, ok, throw_if, err_invalid_param, ◌>>=◌, ◌>>◌,
}
use trtc_asr_sdk_cpp.Encoding.Base64.{base64_encode}
use trtc_asr_sdk_cpp.Credential.{Credential}
use trtc_asr_sdk_cpp.Response.{collect}
use trtc_asr_sdk_cpp.Offline.{World}
use trtc_asr_sdk_cpp.V3.{source_type_url, source_type_data}
use trtc_asr_sdk_cpp.V3.Checks.{validate_speaker_diarization, validate_enum_option}
use trtc_asr_sdk_cpp.Run.{Run, gives, lift, ◌>>=◌ as bind}
use trtc_asr_sdk_cpp.V3.Api.{offline_envelope, post_flat, check_code}
use trtc_asr_sdk_cpp.Json.Fields.{put_text, put_number, put_text_if, put_number_if, put_given}
use trtc_asr_sdk_cpp.V3.Api.Wire.{put_diarization}

pub record TranscribeRequest : Type 0 where
  pub engine_model_type : Bytes
  pub source_type : ℤ
  pub voice_format : Bytes
  pub url : Bytes
  pub data_text : Bytes
  pub data_len : ℤ
  pub word_info : ℤ
  pub filter_dirty : ℤ
  pub filter_modal : ℤ
  pub filter_punc : ℤ
  pub convert_num_mode : ℤ
  pub hotword_id : Bytes
  pub customization_id : Bytes
  pub hotword_list : Bytes
  pub input_sample_rate : ℤ
  pub needvad : Option ℤ
  pub vad_silence_time : Option ℤ
  pub language : Bytes
  pub speaker_diarization : ℤ
  pub speaker_number : ℤ

abbrev pub new_request : TranscribeRequest
new_request = record {
  engine_model_type = [];
  source_type = source_type_data;
  voice_format = codes "pcm";
  url = [];
  data_text = [];
  data_len = pos 0;
  word_info = pos 0;
  filter_dirty = pos 0;
  filter_modal = pos 0;
  filter_punc = pos 0;
  convert_num_mode = pos 0;
  hotword_id = [];
  customization_id = [];
  hotword_list = [];
  input_sample_rate = pos 0;
  needvad = none;
  vad_silence_time = none;
  language = [];
  speaker_diarization = pos 0;
  speaker_number = pos 0;
}

pub record Word : Type 0 where
  pub word : Bytes
  pub start_time : ℤ
  pub end_time : ℤ

pub record TranscribeResponse : Type 0 where
  pub code : ℤ
  pub message : Bytes
  pub request_id : Bytes
  pub result : Bytes
  pub audio_duration : ℤ
  pub language : Bytes
  pub language_b47 : Bytes
  pub word_size : ℤ
  pub word_list : List Word

unfoldable pub check_needvad : Option ℤ → Result (Unit {0})
check_needvad none = ok tt
check_needvad (some n) = validate_enum_option (codes "needvad") n (pos 0 ∷ pos 1 ∷ [])

-- TranscribeRequest::Validate
unfoldable pub validate_transcribe : TranscribeRequest → Result (Unit {0})
unfolding check_needvad
validate_transcribe req =
    throw_if (is_empty req.engine_model_type) err_invalid_param
      (codes "engine_model_type is required")
    >> (throw_if (is_empty req.voice_format) err_invalid_param (codes "voice_format is required")
        >> (throw_if ((req.source_type ==ℤ source_type_url) && is_empty req.url) err_invalid_param
              (codes "url is required when source_type=0")
            >> (throw_if ((req.source_type ==ℤ source_type_data) && is_empty req.data_text)
                  err_invalid_param (codes "data is required when source_type=1")
                >> ((if not (req.speaker_diarization ==ℤ pos 0)
                        || not (req.speaker_number ==ℤ pos 0)
                      then validate_speaker_diarization req.speaker_diarization req.speaker_number
                          [] []
                      else ok tt)
                    >> (check_needvad req.needvad
                        >> validate_enum_option (codes "input_sample_rate") req.input_sample_rate
                            (pos 0 ∷ pos 8000 ∷ []))))))

module _ (world : World) where
  abbrev audio_source : TranscribeRequest → world.json.Json → world.json.Json
  audio_source req j =
      if req.source_type ==ℤ source_type_url
      then put_text world.json (codes "url") req.url j
      else put_number world.json (codes "data_len") req.data_len
          (put_text world.json (codes "data") req.data_text j)

  unfoldable pub transcribe_to_wire : TranscribeRequest → world.json.Json
  unfolding put_diarization
  transcribe_to_wire req =
      let d0 =
        put_text world.json (codes "engine_model_type") req.engine_model_type world.json.null in
      let d1 = put_number world.json (codes "source_type") req.source_type d0 in
      let d2 = audio_source req (put_text world.json (codes "voice_format") req.voice_format d1) in
      let d3 =
        put_number_if world.json (codes "filter_dirty") req.filter_dirty
          (put_number_if world.json (codes "word_info") req.word_info d2) in
      let d4 =
        put_number_if world.json (codes "filter_punc") req.filter_punc
          (put_number_if world.json (codes "filter_modal") req.filter_modal d3) in
      let d5 =
        put_text_if world.json (codes "hotword_id") req.hotword_id
          (put_number_if world.json (codes "convert_num_mode") req.convert_num_mode d4) in
      let d6 =
        put_text_if world.json (codes "hotword_list") req.hotword_list
          (put_text_if world.json (codes "customization_id") req.customization_id d5) in
      let d7 =
        put_given world.json (codes "needvad") req.needvad
          (put_number_if world.json (codes "input_sample_rate") req.input_sample_rate d6) in
      let d8 =
        put_text_if world.json (codes "language") req.language
          (put_given world.json (codes "vad_silence_time") req.vad_silence_time d7) in
      put_diarization world.json req.speaker_diarization req.speaker_number d8

  unfoldable pub word_from_json : world.json.Json → Result Word
  word_from_json j = do
    word ← world.json.value_string j (codes "word") []
    start_time ← world.json.value_int j (codes "start_time") (pos 0)
    end_time ← world.json.value_int j (codes "end_time") (pos 0)
    ok (record { word = word; start_time = start_time; end_time = end_time })

  -- The elements of an array under a key, if there is one.
  abbrev pub each_of {ℓ} :
      {A : Type ℓ} → (world.json.Json → Result A) → world.json.Json → Bytes → Result (List A)
  each_of parse j key =
      if world.json.contains j key && world.json.is_array (world.json.at j key)
      then collect parse (world.json.elements (world.json.at j key))
      else ok []

  unfoldable pub transcribe_response_from_json : world.json.Json → Result TranscribeResponse
  unfolding word_from_json
  transcribe_response_from_json j = do
    code ← world.json.value_int j (codes "code") (pos 0)
    message ← world.json.value_string j (codes "message") []
    request_id ← world.json.value_string j (codes "request_id") []
    result ← world.json.value_string j (codes "result") []
    audio_duration ← world.json.value_int j (codes "audio_duration") (pos 0)
    language ← world.json.value_string j (codes "language") []
    language_b47 ← world.json.value_string j (codes "language_b47") []
    word_size ← world.json.value_int j (codes "word_size") (pos 0)
    word_list ← each_of word_from_json j (codes "word_list")
    ok (record {
      code = code;
      message = message;
      request_id = request_id;
      result = result;
      audio_duration = audio_duration;
      language = language;
      language_b47 = language_b47;
      word_size = word_size;
      word_list = word_list;
    })

  -- OfflineEnvelope, PostFlat and CheckCode, as the three calls of the service make them.
  unfoldable pub call_service : Credential → Bytes → Bytes → world.json.Json → Run world.json.Json
  unfolding offline_envelope post_flat check_code
  call_service c endpoint path params = bind (lift (offline_envelope world c params)) (λ body.
      bind (post_flat world c endpoint path body)
        (λ response. bind (lift (check_code world response)) (λ checked. gives response)))

  unfoldable pub transcribe : Credential → Bytes → TranscribeRequest → Run TranscribeResponse
  unfolding validate_transcribe transcribe_to_wire call_service transcribe_response_from_json
  transcribe c endpoint req = bind (lift (validate_transcribe req)) (λ valid.
      bind (call_service c endpoint (codes "/v3/transcribe") (transcribe_to_wire req))
        (λ response. lift (transcribe_response_from_json response)))

  abbrev pub check_size : ℕ → Bytes → Bytes → Result (Unit {0})
  check_size most text audio =
      throw_if (is_empty audio) err_invalid_param (codes "audio data is empty")
      >> throw_if (ltb most (length audio)) err_invalid_param text

  abbrev pub with_audio : Bytes → TranscribeRequest → TranscribeRequest
  with_audio audio req = record req {
    source_type = source_type_data;
    data_text = base64_encode audio;
    data_len = pos (length audio);
  }

  -- 3 * 1024 * 1024 bytes
  abbrev pub check_short_audio : Bytes → Result (Unit {0})
  check_short_audio audio = check_size 3145728 (codes "audio data exceeds 3MB limit") audio

  unfoldable pub recognize_data :
      Credential → Bytes → Bytes → Bytes → Bytes → Run TranscribeResponse
  recognize_data c endpoint audio voice_format engine_model_type =
      bind (lift (check_short_audio audio)) (λ sized. transcribe c endpoint (
        with_audio audio (record new_request {
          engine_model_type = engine_model_type;
          voice_format = voice_format;
        })))

  -- A null request is `none`.
  unfoldable pub recognize_data_with_options :
      Credential → Bytes → Bytes → Option TranscribeRequest → Run TranscribeResponse
  recognize_data_with_options c endpoint audio none =
      bind (lift (throw_if true err_invalid_param (codes "request is null")))
        (λ u. transcribe c endpoint new_request)
  recognize_data_with_options c endpoint audio (some req) =
      bind (lift (check_short_audio audio)) (λ sized. transcribe c endpoint (with_audio audio req))

  unfoldable pub recognize_url : Credential → Bytes → Bytes → Bytes → Bytes → Run TranscribeResponse
  recognize_url c endpoint audio_url voice_format engine_model_type =
      bind (lift (throw_if (is_empty audio_url) err_invalid_param (codes "audio URL is empty")))
        (λ u. transcribe c endpoint (record new_request {
          engine_model_type = engine_model_type;
          source_type = source_type_url;
          voice_format = voice_format;
          url = audio_url;
        }))
