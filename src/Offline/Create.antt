-- ===== src/Offline/Create.antt =====
-- The creation of a task (CreateRecTaskRequest and FileRecognizer::CreateTask in src/file_recognizer.cc).
use mathlib.Core.List.{map}
use trtc_asr_sdk_cpp.Common.{
  ℕ, ◌&&◌, Option, none, some, List, [], ℤ, pos, Bytes, codes, is_empty, length, ltb, leb_ℤ, ◌==ℤ◌,
  if◌then◌else◌, Result, ok, throw, asr_error, throw_if, err_invalid_param, err_server_error, ◌>>=◌,
  ◌>>◌,
}
use trtc_asr_sdk_cpp.Encoding.Base64.{base64_encode}
use trtc_asr_sdk_cpp.Credential.{Credential}
use trtc_asr_sdk_cpp.Params.Doubles.{Double}
use trtc_asr_sdk_cpp.Params.{SpeakerRole, validate_speaker_diarization, validate_vad_tuning}
use trtc_asr_sdk_cpp.Json.Fields.{
  put_text, put_number, put_text_if, put_number_if, put_given, put_given_double, put_texts_if,
}
use trtc_asr_sdk_cpp.Response.{converge}
use trtc_asr_sdk_cpp.Offline.{World, do_request, parse_api_envelope, has_object}

pub record CreateRecTaskRequest : Type 0 where
  pub engine_model_type : Bytes
  pub channel_num : ℤ
  pub res_text_format : ℤ
  pub source_type : ℤ
  pub url : Bytes
  pub data_text : Bytes
  pub data_len : ℤ
  pub callback_url : Bytes
  pub filter_dirty : ℤ
  pub filter_modal : ℤ
  pub filter_punc : ℤ
  pub convert_num_mode : ℤ
  pub hotword_id : Bytes
  pub hotword_list : Bytes
  pub customization_id : Bytes
  pub replace_text_id : Bytes
  pub language : Bytes
  pub speaker_diarization : ℤ
  pub speaker_number : ℤ
  pub speaker_roles : List SpeakerRole
  pub voiceprint_ids : List Bytes
  pub vad_silence_ms : ℤ
  pub vad_level : Option ℤ
  pub noise_threshold : Option Double

abbrev pub new_request : CreateRecTaskRequest
new_request = record {
  engine_model_type = [];
  channel_num = pos 0;
  res_text_format = pos 0;
  source_type = pos 0;
  url = [];
  data_text = [];
  data_len = pos 0;
  callback_url = [];
  filter_dirty = pos 0;
  filter_modal = pos 0;
  filter_punc = pos 0;
  convert_num_mode = pos 0;
  hotword_id = [];
  hotword_list = [];
  customization_id = [];
  replace_text_id = [];
  language = [];
  speaker_diarization = pos 0;
  speaker_number = pos 0;
  speaker_roles = [];
  voiceprint_ids = [];
  vad_silence_ms = pos 0;
  vad_level = none;
  noise_threshold = none;
}

-- 5 * 1024 * 1024
abbrev pub max_audio_size : ℕ
max_audio_size = 5242880

module _ (format_g : Double → Bytes) where
  unfoldable pub validate_create_request : CreateRecTaskRequest → Result (Unit {0})
  validate_create_request req =
      throw_if (is_empty req.engine_model_type) err_invalid_param
        (codes "EngineModelType is required")
      >> (throw_if (leb_ℤ req.channel_num (pos 0)) err_invalid_param
            (codes "ChannelNum must be positive")
          >> (throw_if ((req.source_type ==ℤ pos 0) && is_empty req.url) err_invalid_param
                (codes "Url is required when SourceType=0")
              >> (throw_if ((req.source_type ==ℤ pos 1) && is_empty req.data_text) err_invalid_param
                    (codes "Data is required when SourceType=1")
                  >> (validate_speaker_diarization req.speaker_diarization req.speaker_number
                        req.speaker_roles req.voiceprint_ids
                      >> validate_vad_tuning format_g req.vad_level req.noise_threshold))))

module _ (world : World) where
  abbrev role_entry : SpeakerRole → world.json.Json
  role_entry role =
      put_text world.json (codes "AudioUrl") role.audio_url
        (put_text world.json (codes "RoleName") role.role_name world.json.null)

  -- The text of SerializeSpeakerRoles, read back.
  unfoldable pub put_roles : List SpeakerRole → world.json.Json → Result world.json.Json
  put_roles roles j =
      if is_empty roles
      then ok j
      else (world.json.dump (world.json.array (map role_entry roles)) >>= (λ text.
          world.json.parse text
          >>= (λ parsed. ok (world.json.set j (codes "SpeakerRoles") parsed))))

  -- The fields in front of the speakers, and those behind.
  abbrev front_fields : CreateRecTaskRequest → world.json.Json
  front_fields req =
      let J = world.json in
      let j0 =
        put_number J (codes "ChannelNum") req.channel_num
          (put_text J (codes "EngineModelType") req.engine_model_type J.null) in
      let j1 =
        put_number J (codes "SourceType") req.source_type
          (put_number J (codes "ResTextFormat") req.res_text_format j0) in
      let j2 =
        put_text_if J (codes "Data") req.data_text (put_text_if J (codes "Url") req.url j1) in
      let j3 =
        put_text_if J (codes "CallbackUrl") req.callback_url
          (put_number_if J (codes "DataLen") req.data_len j2) in
      let j4 =
        put_number_if J (codes "FilterModal") req.filter_modal
          (put_number_if J (codes "FilterDirty") req.filter_dirty j3) in
      let j5 =
        put_number_if J (codes "ConvertNumMode") req.convert_num_mode
          (put_number_if J (codes "FilterPunc") req.filter_punc j4) in
      let j6 =
        put_text_if J (codes "HotwordList") req.hotword_list
          (put_text_if J (codes "HotwordId") req.hotword_id j5) in
      let j7 =
        put_text_if J (codes "ReplaceTextId") req.replace_text_id
          (put_text_if J (codes "CustomizationId") req.customization_id j6) in
      let j8 =
        put_number_if J (codes "SpeakerDiarization") req.speaker_diarization
          (put_text_if J (codes "Language") req.language j7) in
      put_number_if J (codes "SpeakerNumber") req.speaker_number j8

  abbrev back_fields : CreateRecTaskRequest → world.json.Json → world.json.Json
  back_fields req j =
      let J = world.json in
      let j1 =
        put_number_if J (codes "VadSilenceMs") req.vad_silence_ms
          (put_texts_if J (codes "VoiceprintIds") req.voiceprint_ids j) in
      put_given_double J (codes "NoiseThreshold") req.noise_threshold
        (put_given J (codes "VadLevel") req.vad_level j1)

  unfoldable pub serialize_create : CreateRecTaskRequest → Result Bytes
  unfolding put_roles
  serialize_create req =
      put_roles req.speaker_roles (front_fields req) >>= (λ j. world.json.dump (back_fields req j))

  -- The text under "RecTaskId" of the object "Data", empty where one is missing.
  abbrev pub read_task_id : world.json.Json → Result Bytes
  read_task_id response =
      if has_object world response (codes "Data")
      then world.json.value_string (world.json.at response (codes "Data")) (codes "RecTaskId") []
      else ok []

  unfoldable pub task_id_of : world.json.Json → Result Bytes
  task_id_of response = converge (read_task_id response) >>= (λ id.
      throw_if (is_empty id) err_server_error (codes "empty RecTaskId in response") >> ok id)

  module _ (format_g : Double → Bytes) (c : Credential) (endpoint : Bytes) where
    -- The body is made in front of the signature.
    unfoldable pub create_task : CreateRecTaskRequest → Result Bytes
    unfolding validate_create_request serialize_create task_id_of
    create_task req = do
      validate_create_request format_g req
      text ← serialize_create req
      body ← do_request world c endpoint (codes "/v1/CreateRecTask") (ok text)
      response ← parse_api_envelope world body
      task_id_of response

    abbrev pub check_recording : Bytes → Result (Unit {0})
    check_recording audio =
        throw_if (is_empty audio) err_invalid_param (codes "audio data is empty")
        >> throw_if (ltb max_audio_size (length audio)) err_invalid_param
            (codes "audio data exceeds 5MB limit")

    abbrev pub with_recording : Bytes → CreateRecTaskRequest → CreateRecTaskRequest
    with_recording audio req = record req {
      source_type = pos 1;
      data_text = base64_encode audio;
      data_len = pos (length audio);
    }

    -- The voice format is not used.
    unfoldable pub create_task_from_data : Bytes → Bytes → Bytes → Result Bytes
    create_task_from_data audio voice_format engine_model_type =
        check_recording audio
        >> create_task (
            with_recording audio (record new_request {
              engine_model_type = engine_model_type;
              channel_num = pos 1;
              res_text_format = pos 1;
            }))

    unfoldable pub create_task_from_url : Bytes → Bytes → Result Bytes
    create_task_from_url audio_url engine_model_type =
        throw_if (is_empty audio_url) err_invalid_param (codes "audio URL is empty")
        >> create_task (record new_request {
          engine_model_type = engine_model_type;
          channel_num = pos 1;
          res_text_format = pos 1;
          source_type = pos 0;
          url = audio_url;
        })

    -- A null request is `none`.
    unfoldable pub create_task_from_data_with_options :
        Bytes → Option CreateRecTaskRequest → Result Bytes
    create_task_from_data_with_options audio none =
        throw (asr_error err_invalid_param (codes "request is null"))
    create_task_from_data_with_options audio (some req) =
        check_recording audio >> create_task (with_recording audio req)
