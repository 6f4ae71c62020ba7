-- ===== src/V3/Realtime.antt =====
-- v3::SpeechRecognizer (src/v3.cc, include/trtc_asr/v3.h): options, their validation and the start frame.
-- Times are in milliseconds.
pub mod Accepts
pub mod Setters
use mathlib.Core.List.{map}
use trtc_asr_sdk_cpp.Common.{
  ℕ, Bool, true, false, not, ◌&&◌, ◌||◌, Option, none, some, List, [], ◌∷◌, ◌++◌, ℤ, pos, Bytes,
  codes, is_empty, to_string, length, ltb, ltb_ℤ, ◌==ℤ◌, if◌then◌else◌, Result, ok, throw, throw_if,
  Exception, asr_error, std_exception, err_invalid_param, err_auth_failed, ◌>>=◌, ◌>>◌,
}
use trtc_asr_sdk_cpp.Params.Doubles.{Double}
use trtc_asr_sdk_cpp.Credential.{Credential, trim, resolve_ws_endpoint}
use trtc_asr_sdk_cpp.Encoding.UserSig.{gen_user_sig}
use trtc_asr_sdk_cpp.Offline.{World, as_auth_failure}
use trtc_asr_sdk_cpp.Recognizer.Options.{clamp}
use trtc_asr_sdk_cpp.V3.{SpeakerRole, speaker_context_sync}
use trtc_asr_sdk_cpp.V3.Checks.{
  validate_speaker_diarization, validate_speaker_context, validate_vad_tuning, validate_enum_option,
}
use trtc_asr_sdk_cpp.V3.Api.{sdk_info}
use trtc_asr_sdk_cpp.Json.Fields.{
  put_text, put_number, put_text_if, put_number_if, put_given, put_given_double,
}
use trtc_asr_sdk_cpp.V3.Api.Wire.{put_diarization, put_enrollment}

pub record Options : Type 0 where
  pub endpoint : Bytes
  pub engine_model_type : Bytes
  pub voice_format : ℤ
  pub need_vad : ℤ
  pub convert_num_mode : ℤ
  pub hotword_id : Bytes
  pub hotword_list : Bytes
  pub filter_dirty : ℤ
  pub filter_modal : ℤ
  pub filter_punc : ℤ
  pub filter_empty_result : Option ℤ
  pub word_info : ℤ
  pub word_with_space : ℤ
  pub vad_silence_time : ℤ
  pub vad_level : Option ℤ
  pub noise_threshold : Option Double
  pub max_speak_time : ℤ
  pub input_sample_rate : ℤ
  pub speaker_diarization : ℤ
  pub speaker_number : ℤ
  pub speaker_roles : List SpeakerRole
  pub voiceprint_ids : List Bytes
  pub voice_id : Bytes
  pub language : Bytes
  pub enable_speaker_context : ℤ
  pub speaker_context_id : Bytes
  pub write_timeout : ℤ
  pub stop_timeout : ℤ

abbrev pub new_options : Bytes → Options
new_options engine_model_type = record {
  endpoint = [];
  engine_model_type = engine_model_type;
  voice_format = pos 1;
  need_vad = pos 1;
  convert_num_mode = pos 1;
  hotword_id = [];
  hotword_list = [];
  filter_dirty = pos 0;
  filter_modal = pos 0;
  filter_punc = pos 0;
  filter_empty_result = none;
  word_info = pos 0;
  word_with_space = pos 0;
  vad_silence_time = pos 0;
  vad_level = none;
  noise_threshold = none;
  max_speak_time = pos 0;
  input_sample_rate = pos 0;
  speaker_diarization = pos 0;
  speaker_number = pos 0;
  speaker_roles = [];
  voiceprint_ids = [];
  voice_id = [];
  language = [];
  enable_speaker_context = pos 0;
  speaker_context_id = [];
  write_timeout = pos 5000;
  stop_timeout = pos 10000;
}

unfoldable pub set_speaker_context_id : Bytes → Options → Options
set_speaker_context_id id o = record o { speaker_context_id = trim id }

unfoldable pub set_write_timeout : ℤ → Options → Options
set_write_timeout timeout o = record o { write_timeout = clamp 5000 50 30000 timeout }

unfoldable pub set_stop_timeout : ℤ → Options → Options
set_stop_timeout timeout o = record o { stop_timeout = clamp 10000 1000 60000 timeout }

abbrev is_outside : ℕ → ℕ → ℤ → Bool
is_outside low high n = ltb_ℤ n (pos low) || ltb_ℤ (pos high) n

-- The limits of the length of the id, of a speech and of a silence.
pub check_limits : Options → Result (Unit {0})
check_limits o =
    throw_if (not (o.max_speak_time ==ℤ pos 0) && is_outside 5000 90000 o.max_speak_time)
      err_invalid_param
      (codes "MaxSpeakTime must be between 5000 and 90000 ms, got " ++ to_string o.max_speak_time)
    >> throw_if
        (not (o.vad_silence_time ==ℤ pos 0)
          && ((o.need_vad ==ℤ pos 1) && is_outside 240 2000 o.vad_silence_time))
        err_invalid_param
        (codes "VadSilenceTime must be between 240 and 2000 ms (needvad=1), got "
          ++ to_string o.vad_silence_time)

pub check_filter_empty_result : Option ℤ → Result (Unit {0})
check_filter_empty_result none = ok tt
check_filter_empty_result (some mode) =
    validate_enum_option (codes "FilterEmptyResult") mode (pos 0 ∷ pos 1 ∷ [])

abbrev pub voice_formats : List ℤ
voice_formats = pos 1 ∷ pos 4 ∷ pos 6 ∷ pos 8 ∷ pos 10 ∷ pos 11 ∷ pos 12 ∷ pos 14 ∷ pos 16 ∷ []

pub check_modes : Options → Result (Unit {0})
unfolding check_filter_empty_result
check_modes o =
    validate_enum_option (codes "NeedVad") o.need_vad (pos 0 ∷ pos 1 ∷ [])
    >> (validate_enum_option (codes "ConvertNumMode") o.convert_num_mode
          (pos 0 ∷ pos 1 ∷ pos 3 ∷ [])
        >> (validate_enum_option (codes "FilterDirty") o.filter_dirty (pos 0 ∷ pos 1 ∷ pos 2 ∷ [])
            >> (validate_enum_option (codes "FilterModal") o.filter_modal
                  (pos 0 ∷ pos 1 ∷ pos 2 ∷ [])
                >> (validate_enum_option (codes "FilterPunc") o.filter_punc (pos 0 ∷ pos 1 ∷ [])
                    >> (validate_enum_option (codes "WordInfo") o.word_info
                          (pos 0 ∷ pos 1 ∷ pos 2 ∷ pos 100 ∷ [])
                        >> (validate_enum_option (codes "WordWithSpace") o.word_with_space
                              (pos 0 ∷ pos 1 ∷ [])
                            >> (validate_enum_option (codes "VoiceFormat") o.voice_format
                                  voice_formats
                                >> (check_filter_empty_result o.filter_empty_result
                                    >> validate_enum_option (codes "InputSampleRate")
                                        o.input_sample_rate (pos 0 ∷ pos 8000 ∷ [])))))))))

unfoldable pub validate_options : (Double → Bytes) → Options → Result (Unit {0})
unfolding check_limits check_modes
validate_options format_f o =
    throw_if (ltb 128 (length o.voice_id)) err_invalid_param
      (codes "VoiceID length must not exceed 128")
    >> (validate_speaker_diarization o.speaker_diarization o.speaker_number o.speaker_roles
          o.voiceprint_ids
        >> (validate_speaker_context o.enable_speaker_context o.speaker_diarization
            >> (validate_vad_tuning format_f o.vad_level o.noise_threshold
                >> (check_limits o >> check_modes o))))

-- The start frame and the URL, as Connect makes them in front of the dial.
pub record Opening : Type 0 where
  pub start_text : Bytes
  pub ws_url : Bytes

-- The world is that of the requests over HTTP; its UUID is the one that GenerateUuid gives.
module _ (world : World) where
  abbrev pub assign_voice_id : Options → Options
  assign_voice_id o = if is_empty o.voice_id then record o { voice_id = world.uuid } else o

  unfoldable pub resolve_user_sig : Credential → Options → Result Bytes
  resolve_user_sig c o =
      if is_empty c.user_sig
      then as_auth_failure world (
          gen_user_sig world.compress2 (pos world.now) c.sdk_app_id c.secret_key o.voice_id
            (pos 86400))
      else ok c.user_sig

  abbrev put_context : Options → world.json.Json → world.json.Json
  put_context o j =
      if o.enable_speaker_context ==ℤ pos 0
      then j
      else put_text_if world.json (codes "speaker_context_id") o.speaker_context_id
          (put_number world.json (codes "enable_speaker_context") o.enable_speaker_context j)

  unfoldable pub start_params : Options → world.json.Json
  unfolding put_diarization put_enrollment
  start_params o =
      let p0 =
        put_text world.json (codes "engine_model_type") o.engine_model_type
          (put_text world.json (codes "voice_id") o.voice_id world.json.null) in
      let p1 =
        put_number world.json (codes "voice_format") o.voice_format
          (put_text_if world.json (codes "language") o.language p0) in
      let p2 =
        put_number world.json (codes "convert_num_mode") o.convert_num_mode
          (put_number world.json (codes "needvad") o.need_vad p1) in
      let p3 =
        put_text_if world.json (codes "hotword_id") o.hotword_id
          (world.json.set p2 (codes "sdk_info") (sdk_info world)) in
      let p4 =
        put_number_if world.json (codes "filter_dirty") o.filter_dirty
          (put_text_if world.json (codes "hotword_list") o.hotword_list p3) in
      let p5 =
        put_number_if world.json (codes "filter_punc") o.filter_punc
          (put_number_if world.json (codes "filter_modal") o.filter_modal p4) in
      let p6 =
        put_number_if world.json (codes "word_info") o.word_info
          (put_given world.json (codes "filter_empty_result") o.filter_empty_result p5) in
      let p7 =
        put_number_if world.json (codes "vad_silence_time") o.vad_silence_time
          (put_number_if world.json (codes "word_with_space") o.word_with_space p6) in
      let p8 =
        put_given_double world.json (codes "noise_threshold") o.noise_threshold
          (put_given world.json (codes "vad_level") o.vad_level p7) in
      let p9 =
        put_number_if world.json (codes "input_sample_rate") o.input_sample_rate
          (put_number_if world.json (codes "max_speak_time") o.max_speak_time p8) in
      put_context o (
        put_enrollment world.json o.speaker_diarization o.voiceprint_ids o.speaker_roles
          (put_diarization world.json o.speaker_diarization o.speaker_number p9))

  unfoldable pub start_frame : Credential → Options → Bytes → world.json.Json
  unfolding start_params
  start_frame c o user_sig =
      let named = put_text world.json (codes "sdkappid") (to_string c.sdk_app_id) world.json.null in
      let auth = put_text world.json (codes "usersig") user_sig named in
      let frame =
        world.json.set (put_text world.json (codes "type") (codes "start") world.json.null)
          (codes "auth") auth in
      world.json.set frame (codes "params") (start_params o)

  abbrev fits : Bytes → Result Bytes
  fits text =
      throw_if (ltb 65536 (length text)) err_invalid_param (codes "start frame exceeds 65536 bytes")
      >> ok text

  unfoldable pub open_with : Credential → Options → Result Opening
  unfolding resolve_user_sig start_frame
  open_with c options = do
    let o = assign_voice_id options
    user_sig ← resolve_user_sig c o
    text ← world.json.dump (start_frame c o user_sig)
    start_text ← fits text
    base ← resolve_ws_endpoint o.endpoint c.site
    ok (record {
      start_text = start_text;
      ws_url = base ++ (codes "/asr/v3?voice_id=" ++ o.voice_id);
    })

-- AckTimeout
unfoldable pub ack_timeout : Options → ℕ
ack_timeout o =
    if (o.enable_speaker_context ==ℤ speaker_context_sync) && not (is_empty o.speaker_context_id)
    then 15000
    else 5000
