-- ===== src/Params.antt =====
-- Local validation of options (src/params.cc).
pub mod Doubles
pub mod Url
pub mod Diarization
mod Tests
use trtc_asr_sdk_cpp.Common.{
  ℕ, zero, suc, ◌+◌, ◌≡◌, refl, Bool, true, false, not, ◌&&◌, ◌||◌, Option, none, some, List, [],
  ◌∷◌, ◌++◌, ℤ, pos, Bytes, codes, is_empty, to_string, bytes_eq, ltb, ltb_ℤ, ◌==ℤ◌, ◌==◌,
  if◌then◌else◌, take, drop, any, Result, ok, throw, asr_error, throw_if, err_invalid_param, ◌>>=◌,
  ◌>>◌,
}
use trtc_asr_sdk_cpp.Params.Doubles.{Double, in_range}

pub record SpeakerRole : Type 0 where
  pub role_name : Bytes
  pub audio_url : Bytes

abbrev pub speaker_diarization_off : ℤ
speaker_diarization_off = pos 0

abbrev pub speaker_diarization_cluster : ℤ
speaker_diarization_cluster = pos 1

abbrev pub speaker_diarization_voiceprint : ℤ
speaker_diarization_voiceprint = pos 3

-- One of " \t\r\n".
abbrev pub is_blank : ℕ → Bool
is_blank c = c == 0x20 || (c == 0x9 || (c == 0xd || c == 0xa))

abbrev pub is_control : ℕ → Bool
is_control c = ltb c 0x20 || c == 0x7f

-- One of "/?#".
abbrev pub ends_authority : ℕ → Bool
ends_authority c = c == b'/' || (c == b'?' || c == b'#')

abbrev pub starts_with : Bytes → Bytes → Bool
starts_with [] s = true
starts_with (p ∷ pattern) [] = false
starts_with (p ∷ pattern) (c ∷ s) = p == c && starts_with pattern s

-- `std::string::find`, with npos as `none`.
unfoldable pub find : Bytes → Bytes → Option ℕ
find pattern [] = if is_empty pattern then some 0 else none
find pattern (c ∷ s) =
    let later : Option ℕ = elim (find pattern s) [ none ↦ none | some n ↦ some (suc n) ] in
    if starts_with pattern (c ∷ s) then some 0 else later

-- rest.substr(0, rest.find_first_of("/?#"))
abbrev pub authority_of : Bytes → Bytes
authority_of [] = []
authority_of (c ∷ rest) = let more = c ∷ authority_of rest in if ends_authority c then [] else more

abbrev pub role_error : ℕ → Bytes → Bytes
role_error index what =
    codes "SpeakerRoles[" ++ (to_string (pos index) ++ (codes "].AudioUrl " ++ what))

-- `fail` under a condition.
abbrev pub fail_if : Bool → ℕ → Bytes → Result (Unit {0})
fail_if c index what = throw_if c err_invalid_param (role_error index what)

-- The rest of the check, with the scheme and what stands behind "://".
pub check_scheme : ℕ → Bytes → Bytes → Result (Unit {0})
check_scheme index scheme rest =
    fail_if (not (bytes_eq scheme (codes "http")) && not (bytes_eq scheme (codes "https"))) index
      (codes "must use http or https, got \"" ++ (scheme ++ codes "\""))
    >> fail_if (is_empty (authority_of rest)) index (codes "has no host")

pub check_found : ℕ → Bytes → Option ℕ → Result (Unit {0})
unfolding check_scheme
check_found index raw_url none = fail_if true index (codes "is not a valid URL: missing scheme")
check_found index raw_url (some scheme_end) =
    fail_if (scheme_end == 0) index (codes "is not a valid URL: missing scheme")
    >> check_scheme index (take scheme_end raw_url) (drop (scheme_end + 3) raw_url)

unfoldable pub validate_enrollment_url : ℕ → Bytes → Result (Unit {0})
unfolding check_found find
validate_enrollment_url index raw_url =
    fail_if (not (any (λ c. not (is_blank c)) raw_url)) index (codes "is empty")
    >> (fail_if (any is_control raw_url) index
          (codes "is not a valid URL: contains control character")
        >> (fail_if (any (λ c. c == 0x20) raw_url) index
              (codes "is not a valid URL: contains space")
            >> check_found index raw_url (find (codes "://") raw_url)))

-- The two loops, from the index `i` on.
pub validate_roles : ℕ → List SpeakerRole → Result (Unit {0})
unfolding validate_enrollment_url
validate_roles i [] = ok tt
validate_roles i (role ∷ roles) =
    throw_if (is_empty role.role_name) err_invalid_param
      (codes "SpeakerRoles[" ++ (to_string (pos i) ++ codes "].RoleName is empty"))
    >> (validate_enrollment_url i role.audio_url >> validate_roles (suc i) roles)

pub validate_voiceprint_ids : ℕ → List Bytes → Result (Unit {0})
validate_voiceprint_ids i [] = ok tt
validate_voiceprint_ids i (id ∷ ids) =
    throw_if (is_empty id) err_invalid_param
      (codes "VoiceprintIds[" ++ (to_string (pos i) ++ codes "] is empty"))
    >> validate_voiceprint_ids (suc i) ids

unfoldable pub validate_speaker_diarization :
    ℤ → ℤ → List SpeakerRole → List Bytes → Result (Unit {0})
unfolding validate_roles validate_voiceprint_ids
validate_speaker_diarization mode speaker_number roles voiceprint_ids =
    throw_if
      (not (mode ==ℤ speaker_diarization_off)
        && (not (mode ==ℤ speaker_diarization_cluster)
            && not (mode ==ℤ speaker_diarization_voiceprint)))
      err_invalid_param
      (codes "SpeakerDiarization must be 0 (off), 1 (cluster) or 3 (voiceprint), got "
        ++ to_string mode)
    >> (throw_if (ltb_ℤ speaker_number (pos 0)) err_invalid_param (
          codes "SpeakerNumber must be >= 0 (0 = auto detection), got " ++ to_string speaker_number)
        >> (throw_if
              (not (mode ==ℤ speaker_diarization_voiceprint)
                && (not (is_empty roles) || not (is_empty voiceprint_ids)))
              err_invalid_param (codes "SpeakerRoles/VoiceprintIds require SpeakerDiarization=3")
            >> (validate_roles 0 roles >> validate_voiceprint_ids 0 voiceprint_ids)))

module _ (format_g : Double → Bytes) where
  unfoldable pub validate_vad_tuning : Option ℤ → Option Double → Result (Unit {0})
  unfolding in_range
  validate_vad_tuning vad_level noise_threshold =
      elim vad_level [
        | none ↦ ok tt
        | some level ↦ throw_if (not (level ==ℤ pos 0) && not (level ==ℤ pos 1)) err_invalid_param (
            codes "VadLevel must be 0 (high recall) or 1 (far-field filtering), got "
            ++ to_string level)
      ]
      >> elim noise_threshold [
        | none ↦ ok tt
        | some v ↦
            throw_if (not (in_range 4 v)) err_invalid_param
              (codes "NoiseThreshold must be between 0.0 and 4.0, got " ++ format_g v)
      ]

-- The allowed values, separated by ", ".
abbrev pub list_text : List ℤ → Bytes
list_text [] = []
list_text (v ∷ []) = to_string v
list_text (v ∷ w ∷ rest) = to_string v ++ (codes ", " ++ list_text (w ∷ rest))

unfoldable pub validate_enum_option : Bytes → ℤ → List ℤ → Result (Unit {0})
validate_enum_option name value allowed =
    throw_if (not (any (λ candidate. value ==ℤ candidate) allowed)) err_invalid_param (
      name
      ++ (codes " must be one of [" ++ (list_text allowed ++ (codes "], got " ++ to_string value))))
