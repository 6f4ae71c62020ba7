-- ===== src/V3/Task.antt =====
-- v3::FileRecognizer (src/v3.cc).
use mathlib.Core.List.{map}
use trtc_asr_sdk_cpp.Common.{
  true, not, ◌&&◌, ◌||◌, Option, none, some, List, [], ◌++◌, ℤ, pos, Bytes, codes, is_empty,
  to_string, length, ltb_ℤ, ◌==ℤ◌, if◌then◌else◌, Result, ok, throw_if, err_invalid_param,
  err_server_error, ◌>>=◌, ◌>>◌,
}
use trtc_asr_sdk_cpp.Params.Doubles.{Double}
use trtc_asr_sdk_cpp.Encoding.Base64.{base64_encode}
use trtc_asr_sdk_cpp.Credential.{Credential}
use trtc_asr_sdk_cpp.Offline.{World}
use trtc_asr_sdk_cpp.V3.{SpeakerRole, AudioUrlItem, source_type_url, source_type_data}
use trtc_asr_sdk_cpp.V3.Checks.{
  validate_speaker_diarization, validate_vad_tuning, validate_audio_urls,
}
use trtc_asr_sdk_cpp.Run.{Run, lift, ◌>>=◌ as bind}
use trtc_asr_sdk_cpp.Json.Fields.{
  put_text, put_number, put_text_if, put_number_if, put_given, put_given_double, put_texts_if,
}
use trtc_asr_sdk_cpp.V3.Api.Wire.{put_diarization, put_enrollment}
use trtc_asr_sdk_cpp.V3.Sentence.{call_service, check_size}

pub record CreateTranscriptionRequest : Type 0 where
  pub engine_model_type : Bytes
  pub channel_num : ℤ
  pub res_text_format : ℤ
  pub source_type : ℤ
  pub url : Bytes
  pub data_text : Bytes
  pub data_len : ℤ
  pub audio_urls : List AudioUrlItem
  pub callback_url : Bytes
  pub speaker_diarization : ℤ
  pub speaker_number : ℤ
  pub voiceprint_ids : List Bytes
  pub speaker_roles : List SpeakerRole
  pub hotword_id : Bytes
  pub customization_id : Bytes
  pub hotword_list : Bytes
  pub keyword_lib_id_list : List Bytes
  pub replace_text_id : Bytes
  pub convert_num_mode : ℤ
  pub filter_dirty : ℤ
  pub filter_punc : ℤ
  pub filter_modal : ℤ
  pub sentence_max_length : ℤ
  pub extra : Bytes
  pub vad_silence_ms : ℤ
  pub vad_level : Option ℤ
  pub noise_threshold : Option Double
  pub language : Bytes

abbrev pub new_request : CreateTranscriptionRequest
new_request = record {
  engine_model_type = [];
  channel_num = pos 1;
  res_text_format = pos 1;
  source_type = source_type_data;
  url = [];
  data_text = [];
  data_len = pos 0;
  audio_urls = [];
  callback_url = [];
  speaker_diarization = pos 0;
  speaker_number = pos 0;
  voiceprint_ids = [];
  speaker_roles = [];
  hotword_id = [];
  customization_id = [];
  hotword_list = [];
  keyword_lib_id_list = [];
  replace_text_id = [];
  convert_num_mode = pos 0;
  filter_dirty = pos 0;
  filter_punc = pos 0;
  filter_modal = pos 0;
  sentence_max_length = pos 0;
  extra = [];
  vad_silence_ms = pos 0;
  vad_level = none;
  noise_threshold = none;
  language = [];
}

-- The check of the source, with pieces or without.
unfoldable pub check_source : CreateTranscriptionRequest → Result (Unit {0})
check_source req =
    if not (is_empty req.audio_urls)
    then validate_audio_urls req.source_type req.url req.data_text req.audio_urls
    else (throw_if ((req.source_type ==ℤ source_type_url) && is_empty req.url) err_invalid_param
          (codes "url is required when source_type=0")
        >> throw_if ((req.source_type ==ℤ source_type_data) && is_empty req.data_text)
            err_invalid_param (codes "data is required when source_type=1"))

-- CreateTranscriptionRequest::Validate
unfoldable pub validate_create : (Double → Bytes) → CreateTranscriptionRequest → Result (Unit {0})
unfolding check_source
validate_create format_f req =
    throw_if (is_empty req.engine_model_type) err_invalid_param
      (codes "engine_model_type is required")
    >> (throw_if (not (req.channel_num ==ℤ pos 1) && not (req.channel_num ==ℤ pos 2))
          err_invalid_param (codes "channel_num must be 1 or 2")
        >> (throw_if (ltb_ℤ req.res_text_format (pos 0) || ltb_ℤ (pos 3) req.res_text_format)
              err_invalid_param
              (codes "res_text_format must be one of [0, 1, 2, 3], got "
                ++ to_string req.res_text_format)
            >> (throw_if ((req.channel_num ==ℤ pos 2) && not (req.speaker_diarization ==ℤ pos 0))
                  err_invalid_param
                  (codes "speaker_diarization is not supported for stereo (channel_num=2); "
                    ++ codes "sentences carry channel_id instead")
                >> (check_source req
                    >> (validate_speaker_diarization req.speaker_diarization req.speaker_number
                          req.speaker_roles req.voiceprint_ids
                        >> validate_vad_tuning format_f req.vad_level req.noise_threshold)))))

module _ (world : World) where
  -- An item of audio_urls; its URL stands under the key that the code writes.
  unfoldable pub item_to_wire : AudioUrlItem → world.json.Json
  item_to_wire item = put_text_if world.json (codes "label") item.label (
      put_text world.json (codes "req.url") item.url
        (put_number world.json (codes "index") item.index world.json.null))

  abbrev single_source : CreateTranscriptionRequest → world.json.Json → world.json.Json
  single_source req j =
      if (req.source_type ==ℤ source_type_url) && not (is_empty req.url)
      then put_text world.json (codes "url") req.url j
      else if (req.source_type ==ℤ source_type_data) && not (is_empty req.data_text)
      then put_number world.json (codes "data_len") req.data_len
          (put_text world.json (codes "data") req.data_text j)
      else j

  abbrev put_pieces : List AudioUrlItem → world.json.Json → world.json.Json
  put_pieces items j =
      if is_empty items
      then j
      else world.json.set j (codes "audio_urls") (world.json.array (map item_to_wire items))

  unfoldable pub create_to_wire : CreateTranscriptionRequest → world.json.Json
  unfolding item_to_wire put_diarization put_enrollment
  create_to_wire req =
      let d0 =
        put_number world.json (codes "channel_num") req.channel_num
          (put_text world.json (codes "engine_model_type") req.engine_model_type world.json.null) in
      let d1 =
        put_number world.json (codes "source_type") req.source_type
          (put_number world.json (codes "res_text_format") req.res_text_format d0) in
      let d2 =
        put_text_if world.json (codes "callback_url") req.callback_url
          (put_pieces req.audio_urls (single_source req d1)) in
      let d3 =
        put_enrollment world.json req.speaker_diarization req.voiceprint_ids req.speaker_roles
          (put_diarization world.json req.speaker_diarization req.speaker_number d2) in
      let d4 =
        put_text_if world.json (codes "customization_id") req.customization_id
          (put_text_if world.json (codes "hotword_id") req.hotword_id d3) in
      let d5 =
        put_texts_if world.json (codes "keyword_lib_id_list") req.keyword_lib_id_list
          (put_text_if world.json (codes "hotword_list") req.hotword_list d4) in
      let d6 =
        put_number_if world.json (codes "convert_num_mode") req.convert_num_mode
          (put_text_if world.json (codes "replace_text_id") req.replace_text_id d5) in
      let d7 =
        put_number_if world.json (codes "filter_punc") req.filter_punc
          (put_number_if world.json (codes "filter_dirty") req.filter_dirty d6) in
      let d8 =
        put_number_if world.json (codes "sentence_max_length") req.sentence_max_length
          (put_number_if world.json (codes "filter_modal") req.filter_modal d7) in
      let d9 =
        put_number_if world.json (codes "vad_silence_ms") req.vad_silence_ms
          (put_text_if world.json (codes "extra") req.extra d8) in
      put_text_if world.json (codes "language") req.language (
        put_given_double world.json (codes "noise_threshold") req.noise_threshold
          (put_given world.json (codes "vad_level") req.vad_level d9))

  abbrev id_or_error : Bytes → Result Bytes
  id_or_error id =
      throw_if (is_empty id) err_server_error (codes "empty transcription_id in response") >> ok id

  unfoldable pub task_id_of : world.json.Json → Result Bytes
  task_id_of response = do
    id ← world.json.value_string response (codes "transcription_id") []
    id_or_error id

  unfoldable pub create_task :
      (Double → Bytes) → Credential → Bytes → CreateTranscriptionRequest → Run Bytes
  unfolding validate_create create_to_wire task_id_of
  create_task format_f c endpoint req = bind (lift (validate_create format_f req)) (λ valid.
      bind (call_service world c endpoint (codes "/v3/create_transcription") (create_to_wire req))
        (λ response. lift (task_id_of response)))

  -- 5 * 1024 * 1024 bytes
  abbrev pub check_recording : Bytes → Result (Unit {0})
  check_recording audio = check_size world 5242880 (codes "audio data exceeds 5MB limit") audio

  abbrev pub with_recording : Bytes → CreateTranscriptionRequest → CreateTranscriptionRequest
  with_recording audio req = record req {
    source_type = source_type_data;
    data_text = base64_encode audio;
    data_len = pos (length audio);
  }

  unfoldable pub create_task_from_data :
      (Double → Bytes) → Credential → Bytes → Bytes → Bytes → Run Bytes
  create_task_from_data format_f c endpoint audio engine_model_type =
      bind (lift (check_recording audio)) (λ sized.
        create_task format_f c endpoint
          (with_recording audio (record new_request { engine_model_type = engine_model_type })))

  -- A null request is `none`.
  unfoldable pub create_task_from_data_with_options :
      (Double → Bytes) → Credential → Bytes → Bytes → Option CreateTranscriptionRequest → Run Bytes
  create_task_from_data_with_options format_f c endpoint audio none =
      bind (lift (throw_if true err_invalid_param (codes "request is null")))
        (λ u. create_task format_f c endpoint new_request)
  create_task_from_data_with_options format_f c endpoint audio (some req) =
      bind (lift (check_recording audio))
        (λ sized. create_task format_f c endpoint (with_recording audio req))

  unfoldable pub create_task_from_url :
      (Double → Bytes) → Credential → Bytes → Bytes → Bytes → Run Bytes
  create_task_from_url format_f c endpoint audio_url engine_model_type =
      bind (lift (throw_if (is_empty audio_url) err_invalid_param (codes "audio URL is empty")))
        (λ u. create_task format_f c endpoint (record new_request {
          engine_model_type = engine_model_type;
          source_type = source_type_url;
          url = audio_url;
        }))
