-- ===== src/Params/Tests.antt =====
-- Runs of the validators at concrete inputs (src/params.cc).
use trtc_asr_sdk_cpp.Common.{◌≡◌, ◌↔◌, [], ◌∷◌, pos, codes, ok}
use trtc_asr_sdk_cpp.Params.Url.{IsHttpUrl, validate_enrollment_url-IsHttpUrl}
use trtc_asr_sdk_cpp.Params.Diarization.{IsDiarization, validate_speaker_diarization-IsDiarization}
use trtc_asr_sdk_cpp.Params.{SpeakerRole, validate_enrollment_url, validate_speaker_diarization}

validate_enrollment_url-IsHttpUrl_example :
    (validate_enrollment_url 0 (codes "https://a/b.wav") ≡ ok tt)
    ↔ IsHttpUrl (codes "https://a/b.wav")
validate_enrollment_url-IsHttpUrl_example =
    validate_enrollment_url-IsHttpUrl 0 (codes "https://a/b.wav")

abbrev host : SpeakerRole
host = record { role_name = codes "host"; audio_url = codes "http://a" }

validate_speaker_diarization-IsDiarization_example :
    (validate_speaker_diarization (pos 3) (pos 0) (host ∷ []) [] ≡ ok tt)
    ↔ IsDiarization (pos 3) (pos 0) (host ∷ []) []
validate_speaker_diarization-IsDiarization_example =
    validate_speaker_diarization-IsDiarization (pos 3) (pos 0) (host ∷ []) []
