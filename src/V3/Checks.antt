-- ===== src/V3/Checks.antt =====
-- The validators of trtc_asr::v3::internal (src/v3.cc).
pub mod Accepts
pub mod Pieces
use trtc_asr_sdk_cpp.Common.{
  ℕ, suc, Bool, true, false, not, ◌&&◌, ◌||◌, Option, none, some, List, [], ◌∷◌, ◌++◌, ℤ, pos,
  Bytes, codes, is_empty, to_string, ltb_ℤ, ◌==ℤ◌, ◌==◌, any, Result, ok, throw_if,
  err_invalid_param, ◌>>=◌, ◌>>◌,
}
use trtc_asr_sdk_cpp.Params.Doubles.{Double, finite, infinite, nan, in_range}
use trtc_asr_sdk_cpp.Params.{find, list_text}
use trtc_asr_sdk_cpp.V3.{
  SpeakerRole, AudioUrlItem, source_type_url, speaker_diarization_off,
  speaker_diarization_voiceprint, speaker_context_off, speaker_context_sync, speaker_context_async,
}

unfoldable pub validate_enum_option : Bytes → ℤ → List ℤ → Result (Unit {0})
validate_enum_option name value allowed =
    throw_if (not (any (λ candidate. value ==ℤ candidate) allowed)) err_invalid_param (
      name
      ++ (codes " must be one of [" ++ (list_text allowed ++ (codes "], got " ++ to_string value))))

abbrev is_finite : Double → Bool
is_finite (finite negative n k) = true
is_finite (infinite negative) = false
is_finite nan = false

-- The text of `std::to_string` of a double is a parameter.
module _ (format_f : Double → Bytes) where
  pub check_vad_level : Option ℤ → Result (Unit {0})
  check_vad_level none = ok tt
  check_vad_level (some level) =
      throw_if (not (level ==ℤ pos 0) && not (level ==ℤ pos 1)) err_invalid_param (
        codes "VadLevel must be 0 (high recall) or 1 (far-field filtering), got "
        ++ to_string level)

  pub check_noise_threshold : Option Double → Result (Unit {0})
  unfolding in_range
  check_noise_threshold none = ok tt
  check_noise_threshold (some v) =
      throw_if (not (is_finite v && in_range 4 v)) err_invalid_param
        (codes "NoiseThreshold must be between 0.0 and 4.0, got " ++ format_f v)

  unfoldable pub validate_vad_tuning : Option ℤ → Option Double → Result (Unit {0})
  unfolding check_vad_level check_noise_threshold
  validate_vad_tuning vad_level noise_threshold =
      check_vad_level vad_level >> check_noise_threshold noise_threshold

unfoldable pub validate_speaker_context : ℤ → ℤ → Result (Unit {0})
validate_speaker_context mode diarization =
    throw_if
      (not (mode ==ℤ speaker_context_off)
        && (not (mode ==ℤ speaker_context_sync) && not (mode ==ℤ speaker_context_async)))
      err_invalid_param
      (codes "EnableSpeakerContext must be 0 (off), 1 (sync) or 2 (async), got " ++ to_string mode)
    >> throw_if (not (mode ==ℤ speaker_context_off) && (diarization ==ℤ speaker_diarization_off))
        err_invalid_param (codes "EnableSpeakerContext requires SpeakerDiarization=1 or 3")

-- url.find(scheme) == 0
abbrev is_at_front : Option ℕ → Bool
is_at_front none = false
is_at_front (some n) = n == 0

pub is_http : Bytes → Bool
unfolding find
is_http url = is_at_front (find (codes "http://") url) || is_at_front (find (codes "https://") url)

abbrev pub indexed : Bytes → ℕ → Bytes → Bytes
indexed name i what = name ++ (codes "[" ++ (to_string (pos i) ++ (codes "]" ++ what)))

-- The loops of ValidateSpeakerDiarization, from the index `i` on.
pub check_roles : ℕ → List SpeakerRole → Result (Unit {0})
unfolding is_http
check_roles i [] = ok tt
check_roles i (role ∷ roles) =
    throw_if (is_empty role.role_name) err_invalid_param
      (indexed (codes "SpeakerRoles") i (codes ".RoleName is empty"))
    >> (throw_if (not (is_http role.audio_url)) err_invalid_param
          (indexed (codes "SpeakerRoles") i (codes ".AudioURL must be a valid http/https URL"))
        >> check_roles (suc i) roles)

pub check_voiceprint_ids : ℕ → List Bytes → Result (Unit {0})
check_voiceprint_ids i [] = ok tt
check_voiceprint_ids i (id ∷ ids) =
    throw_if (is_empty id) err_invalid_param (indexed (codes "VoiceprintIds") i (codes " is empty"))
    >> check_voiceprint_ids (suc i) ids

unfoldable pub validate_speaker_diarization :
    ℤ → ℤ → List SpeakerRole → List Bytes → Result (Unit {0})
unfolding check_roles check_voiceprint_ids
validate_speaker_diarization mode speaker_number roles voiceprint_ids =
    throw_if
      (not (mode ==ℤ speaker_diarization_off)
        && (not (mode ==ℤ pos 1) && not (mode ==ℤ speaker_diarization_voiceprint)))
      err_invalid_param
      (codes "SpeakerDiarization must be 0 (off), 1 (cluster) or 3 (voiceprint), got "
        ++ to_string mode)
    >> (throw_if (ltb_ℤ speaker_number (pos 0)) err_invalid_param (
          codes "SpeakerNumber must be >= 0 (0 = auto detection), got " ++ to_string speaker_number)
        >> (throw_if
              (not (mode ==ℤ speaker_diarization_voiceprint)
                && (not (is_empty roles) || not (is_empty voiceprint_ids)))
              err_invalid_param (codes "SpeakerRoles/VoiceprintIds require SpeakerDiarization=3")
            >> (check_roles 0 roles >> check_voiceprint_ids 0 voiceprint_ids)))

-- The loop of ValidateAudioURLs: `seen` holds the indexes so far.
pub check_audio_urls : ℕ → List ℤ → List AudioUrlItem → Result (Unit {0})
unfolding is_http
check_audio_urls i seen [] = ok tt
check_audio_urls i seen (item ∷ items) =
    throw_if (ltb_ℤ item.index (pos 0)) err_invalid_param
      (indexed (codes "AudioURLs") i (codes ".Index must be non-negative"))
    >> (throw_if (any (λ prev. prev ==ℤ item.index) seen) err_invalid_param
          (codes "AudioURLs index duplicated: " ++ to_string item.index)
        >> (throw_if (not (is_http item.url)) err_invalid_param
              (indexed (codes "AudioURLs") i (codes ".URL must be a valid http/https URL"))
            >> check_audio_urls (suc i) (seen ++ (item.index ∷ [])) items))

unfoldable pub validate_audio_urls : ℤ → Bytes → Bytes → List AudioUrlItem → Result (Unit {0})
unfolding check_audio_urls
validate_audio_urls source_type url data' audio_urls =
    throw_if (not (source_type ==ℤ source_type_url) || (not (is_empty url) || not (is_empty data')))
      err_invalid_param
      (codes "AudioURLs cannot be used together with non-zero sourceType, url or data")
    >> check_audio_urls 0 [] audio_urls
