-- ===== src/V3/Api/Wire.antt =====
-- Speakers in a JSON body (src/v3.cc).
use mathlib.Core.List.{map}
use trtc_asr_sdk_cpp.Common.{List, ℤ, pos, Bytes, codes, is_empty, ◌==ℤ◌, if◌then◌else◌}
use trtc_asr_sdk_cpp.Json.{JsonLibrary}
use trtc_asr_sdk_cpp.Json.Fields.{put_text, put_number, put_number_if, put_texts_if}
use trtc_asr_sdk_cpp.V3.{SpeakerRole, speaker_diarization_voiceprint}

module _ (J : JsonLibrary) where
  unfoldable pub role_to_wire : SpeakerRole → J.Json
  role_to_wire role =
      put_text J (codes "audio_url") role.audio_url
        (put_text J (codes "role_name") role.role_name J.null)

  abbrev pub put_roles_if : List SpeakerRole → J.Json → J.Json
  put_roles_if roles j =
      if is_empty roles
      then j
      else J.set j (codes "speaker_roles") (J.array (map role_to_wire roles))

  -- speaker_number is sent with diarization alone.
  unfoldable pub put_diarization : ℤ → ℤ → J.Json → J.Json
  put_diarization mode speaker_number j =
      if mode ==ℤ pos 0
      then j
      else put_number_if J (codes "speaker_number") speaker_number
          (put_number J (codes "speaker_diarization") mode j)

  -- Enrollment is sent in voiceprint mode alone.
  unfoldable pub put_enrollment : ℤ → List Bytes → List SpeakerRole → J.Json → J.Json
  unfolding role_to_wire
  put_enrollment mode ids roles j =
      if mode ==ℤ speaker_diarization_voiceprint
      then put_roles_if roles (put_texts_if J (codes "voiceprint_ids") ids j)
      else j
