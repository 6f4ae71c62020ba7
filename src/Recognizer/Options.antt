-- ===== src/Recognizer/Options.antt =====
-- Options of the realtime recognizer, their validation and the dial (src/speech_recognizer.cc,
-- include/trtc_asr/speech_recognizer.h). Times are in milliseconds.
pub mod Bounds
pub mod Setters
use trtc_asr_sdk_cpp.Common.{
  ℕ, ◌≡◌, refl, Bool, true, false, not, ◌&&◌, Option, none, some, List, [], ◌∷◌, ◌++◌, ℤ, pos,
  Bytes, codes, is_empty, to_string, ltb_ℤ, leb_ℤ, ◌==ℤ◌, if◌then◌else◌, Result, ok, throw,
  Exception, asr_error, std_exception, throw_if, err_invalid_param, err_auth_failed,
  err_connect_failed, ◌>>=◌, ◌>>◌,
}
use trtc_asr_sdk_cpp.Json.{JsonLibrary}
use trtc_asr_sdk_cpp.Params.Doubles.{Double}
use trtc_asr_sdk_cpp.Params.{
  SpeakerRole, validate_speaker_diarization, validate_vad_tuning, validate_enum_option,
}
use trtc_asr_sdk_cpp.Credential.{Credential, trim, resolve_ws_endpoint}
use trtc_asr_sdk_cpp.Encoding.UserSig.{Compressed, gen_user_sig}
use trtc_asr_sdk_cpp.Query.{
  SignatureParams, Target, new_signature_params, build_query_string_with_signature,
}

pub record Options : Type 0 where
  pub endpoint : Bytes
  pub engine_model_type : Bytes
  pub voice_format : ℤ
  pub need_vad : ℤ
  pub convert_num_mode : ℤ
  pub hotword_id : Bytes
  pub hotword_list : Bytes
  pub customization_id : Bytes
  pub replace_text_id : Bytes
  pub filter_dirty : ℤ
  pub filter_modal : ℤ
  pub filter_punc : ℤ
  pub filter_empty_result : Option ℤ
  pub word_info : ℤ
  pub vad_silence_time : ℤ
  pub vad_level : Option ℤ
  pub noise_threshold : Option Double
  pub max_speak_time : ℤ
  pub input_sample_rate : ℤ
  pub speaker_diarization : ℤ
  pub enable_speaker_context : ℤ
  pub speaker_context_id : Bytes
  pub speaker_number : ℤ
  pub speaker_roles : List SpeakerRole
  pub voiceprint_ids : List Bytes
  pub voice_id : Bytes
  pub language : Bytes
  pub write_timeout : ℤ
  pub stop_timeout : ℤ

abbrev pub new_options : Bytes → Options
new_options engine_model_type = record {
  endpoint = [];
  engine_model_type = engine_model_type;
  voice_format = pos 1;
  need_vad = pos 1;
  convert_num_mode = pos 1;
  hotword_id = [];
  hotword_list = [];
  customization_id = [];
  replace_text_id = [];
  filter_dirty = pos 0;
  filter_modal = pos 0;
  filter_punc = pos 0;
  filter_empty_result = none;
  word_info = pos 0;
  vad_silence_time = pos 0;
  vad_level = none;
  noise_threshold = none;
  max_speak_time = pos 0;
  input_sample_rate = pos 0;
  speaker_diarization = pos 0;
  enable_speaker_context = pos 0;
  speaker_context_id = [];
  speaker_number = pos 0;
  speaker_roles = [];
  voiceprint_ids = [];
  voice_id = [];
  language = [];
  write_timeout = pos 5000;
  stop_timeout = pos 10000;
}

-- The setters that do more than to store their argument.
unfoldable pub set_speaker_context_id : Bytes → Options → Options
set_speaker_context_id id o = record o { speaker_context_id = trim id }

-- A value that is not positive resets, any other is clamped.
abbrev pub clamp : ℕ → ℕ → ℕ → ℤ → ℤ
clamp initial low high timeout =
    if leb_ℤ timeout (pos 0)
    then pos initial
    else if ltb_ℤ timeout (pos low)
    then pos low
    else if ltb_ℤ (pos high) timeout
    then pos high
    else timeout

unfoldable pub set_write_timeout : ℤ → Options → Options
set_write_timeout timeout o = record o { write_timeout = clamp 5000 50 30000 timeout }

unfoldable pub set_stop_timeout : ℤ → Options → Options
set_stop_timeout timeout o = record o { stop_timeout = clamp 10000 1000 60000 timeout }

abbrev is_context_mode : ℤ → Bool
is_context_mode n = not (not (n ==ℤ pos 0) && (not (n ==ℤ pos 1) && not (n ==ℤ pos 2)))

abbrev validate_filter_empty_result : Option ℤ → Result (Unit {0})
validate_filter_empty_result none = ok tt
validate_filter_empty_result (some mode) =
    validate_enum_option (codes "FilterEmptyResult") mode (pos 0 ∷ pos 1 ∷ [])

unfoldable pub validate_options : (Double → Bytes) → Options → Result (Unit {0})
validate_options format_g o =
    validate_speaker_diarization o.speaker_diarization o.speaker_number o.speaker_roles
      o.voiceprint_ids
    >> (throw_if (not (is_context_mode o.enable_speaker_context)) err_invalid_param (
          codes "EnableSpeakerContext must be 0 (off), 1 (sync) or 2 (async), got "
          ++ to_string o.enable_speaker_context)
        >> (throw_if (not (o.enable_speaker_context ==ℤ pos 0) && (o.speaker_diarization ==ℤ pos 0))
              err_invalid_param
              (codes "EnableSpeakerContext requires SetSpeakerDiarization(1) or (3)")
            >> (validate_vad_tuning format_g o.vad_level o.noise_threshold
                >> (validate_filter_empty_result o.filter_empty_result
                    >> validate_enum_option (codes "InputSampleRate") o.input_sample_rate
                        (pos 0 ∷ pos 8000 ∷ [])))))

-- What the world gives a Start: the clock, a random draw, a UUID, zlib, and the answer of the dial.
pub record Surroundings : Type 1 where
  pub json : JsonLibrary
  pub target : Target
  pub compress2 : Bytes → Compressed
  pub now : ℕ
  pub draw : ℕ
  pub uuid : Bytes
  -- WsClient::Connect: the text of a failure, if it fails.
  pub dial : Bytes → Option Bytes

module _ (world : Surroundings) where
  abbrev pub assign_voice_id : Options → Options
  assign_voice_id o = if is_empty o.voice_id then record o { voice_id = world.uuid } else o

  -- catch (const ASRError& e)
  abbrev as_auth_failure : Result Bytes → Result Bytes
  as_auth_failure (ok sig) = ok sig
  as_auth_failure (throw (asr_error code message)) =
      throw (asr_error err_auth_failed (codes "generate user sig failed: " ++ message))
  as_auth_failure (throw (std_exception text)) = throw (std_exception text)

  pub resolve_user_sig : Credential → Options → Result Bytes
  resolve_user_sig c o =
      if is_empty c.user_sig
      then as_auth_failure (
          gen_user_sig world.compress2 (pos world.now) c.sdk_app_id c.secret_key o.voice_id
            (pos 86400))
      else ok c.user_sig

  pub query_params : Credential → Options → SignatureParams
  query_params c o =
      let p = new_signature_params world.now world.draw c.app_id o.engine_model_type o.voice_id in
      let continues = not (o.enable_speaker_context ==ℤ pos 0) in
      record p {
        sdk_app_id = c.sdk_app_id;
        voice_format = o.voice_format;
        need_vad = o.need_vad;
        convert_num_mode = o.convert_num_mode;
        hotword_id = o.hotword_id;
        hotword_list = o.hotword_list;
        customization_id = o.customization_id;
        replace_text_id = o.replace_text_id;
        filter_dirty = o.filter_dirty;
        filter_modal = o.filter_modal;
        filter_punc = o.filter_punc;
        filter_empty_result = o.filter_empty_result;
        word_info = o.word_info;
        vad_silence_time = o.vad_silence_time;
        vad_level = o.vad_level;
        noise_threshold = o.noise_threshold;
        max_speak_time = o.max_speak_time;
        input_sample_rate = o.input_sample_rate;
        speaker_diarization = o.speaker_diarization;
        enable_speaker_context = if continues then o.enable_speaker_context else pos 0;
        speaker_context_id = if continues then o.speaker_context_id else [];
        speaker_number = o.speaker_number;
        speaker_roles = o.speaker_roles;
        voiceprint_ids = o.voiceprint_ids;
        language = o.language;
      }

  pub ws_url : Credential → Options → Bytes → Result Bytes
  unfolding query_params
  ws_url c o user_sig = do
    query ← build_query_string_with_signature world.json world.target (query_params c o) user_sig
    base ← resolve_ws_endpoint o.endpoint c.site
    ok (base ++ (codes "/asr/v2/" ++ (to_string c.app_id ++ (codes "?" ++ query))))

  abbrev dialled : Option Bytes → Result (Unit {0})
  dialled none = ok tt
  dialled (some err) = throw (asr_error err_connect_failed (codes "websocket dial failed: " ++ err))

  unfoldable pub connect : Credential → Options → Result (Unit {0})
  unfolding resolve_user_sig ws_url
  connect c options = do
    let o = assign_voice_id options
    user_sig ← resolve_user_sig c o
    url ← ws_url c o user_sig
    dialled (world.dial url)

  -- The try block of Start.
  unfoldable pub prepare : (Double → Bytes) → Credential → Options → Result (Unit {0})
  unfolding validate_options connect
  prepare format_g c o = validate_options format_g o >> connect c o
