-- ===== src/Query.antt =====
-- The query string of a connection (src/signature_params.cc, src/sdkinfo.cc, src/json_helper.h).
pub mod SortedMap
pub mod Escape
pub mod Order
pub mod Unescape
pub mod Split
pub mod Entries
mod Tests
use mathlib.Core.List.{map}
use trtc_asr_sdk_cpp.Common.{
  ℕ, ◌+◌, ◌%◌, ◌≡◌, refl, Bool, true, false, not, ◌&&◌, ◌||◌, Option, none, some, List, [], ◌∷◌,
  ◌++◌, ℤ, pos, Bytes, codes, is_empty, to_string, ltb_ℤ, ◌==ℤ◌, if◌then◌else◌, Result, ok, ◌>>=◌,
}
use trtc_asr_sdk_cpp.Json.{JsonLibrary}
use trtc_asr_sdk_cpp.Params.Doubles.{Double, format_f3}
use trtc_asr_sdk_cpp.Params.{SpeakerRole, speaker_diarization_voiceprint}
use trtc_asr_sdk_cpp.Query.Escape.{query_escape}
use trtc_asr_sdk_cpp.Query.SortedMap.{StringMap, Assignment, when, assign, put}

pub record SignatureParams : Type 0 where
  pub app_id : ℤ
  pub timestamp : ℤ
  pub expired : ℤ
  pub nonce : ℤ
  pub engine_model_type : Bytes
  pub voice_id : Bytes
  pub voice_format : ℤ
  pub need_vad : ℤ
  pub sdk_app_id : ℤ
  pub hotword_id : Bytes
  pub hotword_list : Bytes
  pub customization_id : Bytes
  pub replace_text_id : Bytes
  pub filter_dirty : ℤ
  pub filter_modal : ℤ
  pub filter_punc : ℤ
  pub convert_num_mode : ℤ
  pub word_info : ℤ
  pub vad_silence_time : ℤ
  pub max_speak_time : ℤ
  pub input_sample_rate : ℤ
  pub language : Bytes
  pub filter_empty_result : Option ℤ
  pub vad_level : Option ℤ
  pub noise_threshold : Option Double
  pub speaker_diarization : ℤ
  pub enable_speaker_context : ℤ
  pub speaker_context_id : Bytes
  pub speaker_number : ℤ
  pub speaker_roles : List SpeakerRole
  pub voiceprint_ids : List Bytes

-- The constructor, with the seconds of the clock and a draw of the random source.
unfoldable pub new_signature_params : ℕ → ℕ → ℤ → Bytes → Bytes → SignatureParams
new_signature_params now draw app_id engine_model_type voice_id = record {
  app_id = app_id;
  timestamp = pos now;
  expired = pos (now + 86400);
  nonce = pos (draw % 9999999 + 1);
  engine_model_type = engine_model_type;
  voice_id = voice_id;
  voice_format = pos 1;
  need_vad = pos 1;
  sdk_app_id = pos 0;
  hotword_id = [];
  hotword_list = [];
  customization_id = [];
  replace_text_id = [];
  filter_dirty = pos 0;
  filter_modal = pos 0;
  filter_punc = pos 0;
  convert_num_mode = pos 1;
  word_info = pos 0;
  vad_silence_time = pos 0;
  max_speak_time = pos 0;
  input_sample_rate = pos 0;
  language = [];
  filter_empty_result = none;
  vad_level = none;
  noise_threshold = none;
  speaker_diarization = pos 0;
  enable_speaker_context = pos 0;
  speaker_context_id = [];
  speaker_number = pos 0;
  speaker_roles = [];
  voiceprint_ids = [];
}

-- The preprocessor symbols that tell the target.
pub record Target : Type 0 where
  pub win32 : Bool
  pub android : Bool
  pub apple : Bool
  pub iphone : Bool
  pub linux : Bool

unfoldable pub sdk_platform : Target → Bytes
sdk_platform target =
    if target.win32
    then codes "windows"
    else if target.android
    then codes "android"
    else if target.apple
    then (if target.iphone then codes "ios" else codes "mac")
    else if target.linux
    then codes "linux"
    else codes "unknown"

-- The items of SdkReportParams, in the order of its map.
unfoldable pub sdk_report_params : Target → StringMap
unfolding sdk_platform
sdk_report_params target =
    (codes "platform", sdk_platform target)
    ∷ (codes "sdk_lang", codes "cpp")
    ∷ (codes "sdk_type", codes "server")
    ∷ (codes "version", codes "2.0.0")
    ∷ []

-- The loop that joins the items: `out` is what stands already.
pub join_items : Bytes → StringMap → Bytes
unfolding query_escape
join_items out [] = out
join_items out ((k, v) ∷ m) =
    join_items
      ((if is_empty out then out else out ++ codes "&") ++ (k ++ (codes "=" ++ query_escape v))) m

unfoldable pub sdk_report_query : Target → Bytes
unfolding sdk_report_params join_items
sdk_report_query target = join_items [] (sdk_report_params target)

abbrev is_set : ℤ → Bool
is_set n = not (n ==ℤ pos 0)

abbrev when_text : Bytes → Option Bytes
when_text s = when (not (is_empty s)) s

abbrev when_set : ℤ → Option Bytes
when_set n = when (is_set n) (to_string n)

abbrev when_given {ℓ} : {A : Type ℓ} → (A → Bytes) → Option A → Option Bytes
when_given f none = none
when_given f (some a) = some (f a)

module _ (J : JsonLibrary) (target : Target) where
  unfoldable pub serialize_speaker_roles : List SpeakerRole → Result Bytes
  serialize_speaker_roles roles = J.dump (
      J.array (
        map
          (λ (role : SpeakerRole).
            J.set (J.set J.null (codes "RoleName") (J.string role.role_name)) (codes "AudioUrl")
              (J.string role.audio_url))
          roles))

  unfoldable pub serialize_string_array : List Bytes → Result Bytes
  serialize_string_array values = J.dump (J.array (map J.string values))

  abbrev diarizes : SignatureParams → Bool
  diarizes p = is_set p.speaker_diarization

  abbrev continues : SignatureParams → Bool
  continues p = is_set p.enable_speaker_context

  abbrev uses_voiceprint : SignatureParams → Bool
  uses_voiceprint p = p.speaker_diarization ==ℤ speaker_diarization_voiceprint

  abbrev pub sends_roles : SignatureParams → Bool
  sends_roles p = uses_voiceprint p && not (is_empty p.speaker_roles)

  abbrev pub sends_ids : SignatureParams → Bool
  sends_ids p = uses_voiceprint p && not (is_empty p.voiceprint_ids)

  -- The two serializations of ToMap, each of which may throw; the text is not used where nothing is sent.
  unfoldable pub speaker_roles_text : SignatureParams → Result Bytes
  speaker_roles_text p = if sends_roles p then serialize_speaker_roles p.speaker_roles else ok []

  unfoldable pub voiceprint_ids_text : SignatureParams → Result Bytes
  voiceprint_ids_text p = if sends_ids p then serialize_string_array p.voiceprint_ids else ok []

  -- The statements of ToMap behind those of SdkReportParams, given the two serialized texts.
  abbrev pub optional_assignments : SignatureParams → Bytes → Bytes → List Assignment
  optional_assignments p roles ids =
      (codes "sdkappid", when (ltb_ℤ (pos 0) p.sdk_app_id) (to_string p.sdk_app_id))
      ∷ (codes "hotword_id", when_text p.hotword_id)
      ∷ (codes "hotword_list", when_text p.hotword_list)
      ∷ (codes "customization_id", when_text p.customization_id)
      ∷ (codes "replace_text_id", when_text p.replace_text_id)
      ∷ (codes "filter_dirty", when_set p.filter_dirty)
      ∷ (codes "filter_modal", when_set p.filter_modal)
      ∷ (codes "filter_punc", when_set p.filter_punc)
      ∷ (codes "filter_empty_result", when_given to_string p.filter_empty_result)
      ∷ (codes "convert_num_mode", when_set p.convert_num_mode)
      ∷ (codes "word_info", when_set p.word_info)
      ∷ (codes "vad_silence_time", when_set p.vad_silence_time)
      ∷ (codes "max_speak_time", when_set p.max_speak_time)
      ∷ (codes "input_sample_rate", when_set p.input_sample_rate)
      ∷ (codes "vad_level", when_given to_string p.vad_level)
      ∷ (codes "noise_threshold", when_given format_f3 p.noise_threshold)
      ∷ (codes "enable_speaker_context", when (continues p) (to_string p.enable_speaker_context))
      ∷ (
        codes "speaker_context_id",
        when (continues p && not (is_empty p.speaker_context_id)) p.speaker_context_id,
      )
      ∷ (codes "speaker_diarization", when (diarizes p) (to_string p.speaker_diarization))
      ∷ (
        codes "speaker_number",
        when (diarizes p && is_set p.speaker_number) (to_string p.speaker_number),
      )
      ∷ (codes "speaker_roles", when (sends_roles p) roles)
      ∷ (codes "voiceprintids", when (sends_ids p) ids)
      ∷ (codes "language", when_text p.language)
      ∷ []

  abbrev pub always : Bytes × Bytes → Assignment
  always (k, v) = (k, some v)

  unfoldable pub assignments : SignatureParams → Bytes → Bytes → List Assignment
  unfolding sdk_report_params
  assignments p roles ids =
      (codes "secretid", some (to_string p.app_id))
      ∷ (codes "timestamp", some (to_string p.timestamp))
      ∷ (codes "expired", some (to_string p.expired))
      ∷ (codes "nonce", some (to_string p.nonce))
      ∷ (codes "engine_model_type", some p.engine_model_type)
      ∷ (codes "voice_id", some p.voice_id)
      ∷ (codes "voice_format", some (to_string p.voice_format))
      ∷ (codes "needvad", some (to_string p.need_vad))
      ∷ (map always (sdk_report_params target) ++ optional_assignments p roles ids)

  unfoldable pub to_map : SignatureParams → Result StringMap
  unfolding speaker_roles_text voiceprint_ids_text assignments assign
  to_map p = do
    roles ← speaker_roles_text p
    ids ← voiceprint_ids_text p
    ok (assign (assignments p roles ids) [])

  unfoldable pub build_query_string : SignatureParams → Result Bytes
  unfolding to_map join_items
  build_query_string p = do m ← to_map p; ok (join_items [] m)

  abbrev pub put_signature : Bytes → StringMap → StringMap
  put_signature user_sig m = put (codes "usersig") user_sig (put (codes "signature") user_sig m)

  unfoldable pub with_signature : Bytes → SignatureParams → Result StringMap
  unfolding to_map put
  with_signature user_sig p = do m ← to_map p; ok (put_signature user_sig m)

  unfoldable pub build_query_string_with_signature : SignatureParams → Bytes → Result Bytes
  unfolding with_signature join_items
  build_query_string_with_signature p user_sig = do
    m ← with_signature user_sig p
    ok (join_items [] m)
