-- ===== src/V3/Requests.antt =====
-- What the requests of the version 3 interfaces must be to be sent (src/v3.cc).
use trtc_asr_sdk_cpp.Common.{
  ◌≡◌, ◌↔◌, refl, arith, true, false, not, ◌&&◌, ◌||◌, Bool-cases, inl, inr, Option, none, some, [],
  ◌∷◌, ℤ, pos, Bytes, codes, is_empty, ltb_ℤ, ◌==ℤ◌, ==ℤ_iff, ◌≤ℤ◌, if◌then◌else◌, ok, throw_if-ok,
  then_checks, then_both, iff_trans, iff_same,
}
use trtc_asr_sdk_cpp.Params.Doubles.{Double}
use trtc_asr_sdk_cpp.Params.Diarization.{IsOneOf, IsNonEmpty}
use trtc_asr_sdk_cpp.V3.Checks.{validate_speaker_diarization}
use trtc_asr_sdk_cpp.V3.Checks.Accepts.{
  IsDiarization, validate_speaker_diarization_lem, enum_option-IsOneOf, IfGiven, IsTuning,
  validate_vad_tuning-IsTuning,
}
use trtc_asr_sdk_cpp.V3.Checks.Pieces.{IsDistributed, validate_audio_urls-IsDistributed}
use trtc_asr_sdk_cpp.V3.Sentence.{TranscribeRequest, check_needvad, validate_transcribe}
use trtc_asr_sdk_cpp.V3.Task.{CreateTranscriptionRequest, check_source, validate_create}

-- Source 0 has a URL, and source 1 has audio data.
abbrev pub HasSource : ℤ → Bytes → Bytes → Type 0
HasSource source_type url data' =
    (source_type ≡ pos 0 → IsNonEmpty url) × (source_type ≡ pos 1 → IsNonEmpty data')

required_with :
    (source_type n : ℤ) (s : Bytes)
    → (((source_type ==ℤ n) && is_empty s) ≡ false) ↔ (source_type ≡ n → IsNonEmpty s)
required_with source_type n s = ground (arith, ==ℤ_iff source_type n)

-- The options of a plain request with the diarization off are consistent.
off_IsDiarization : IsDiarization (pos 0) (pos 0) [] []
off_IsDiarization = record {
  is_mode = inl refl;
  is_count = omega arith;
  needs_voiceprint = λ h. (refl, refl);
  are_roles = tt;
  are_ids = tt;
}

checked_if_set :
    (mode number : ℤ)
    → ((if not (mode ==ℤ pos 0) || not (number ==ℤ pos 0)
          then validate_speaker_diarization mode number [] []
          else ok tt)
        ≡ ok tt)
      ↔ IsDiarization mode number [] []
checked_if_set mode number = elim (Bool-cases (not (mode ==ℤ pos 0) || not (number ==ℤ pos 0))) [
  | inl set ↦ rw set (validate_speaker_diarization_lem mode number [] [])
  | inr unset ↦
      let off : mode ≡ pos 0 = ground (arith, ==ℤ_iff mode (pos 0), unset) in
      let auto : number ≡ pos 0 = ground (arith, ==ℤ_iff number (pos 0), unset) in
      rw unset (λ h. rw (off, auto) off_IsDiarization, λ h. refl)
]

needvad-IfGiven :
    (v : Option ℤ) → (check_needvad v ≡ ok tt) ↔ IfGiven (λ n. IsOneOf n (pos 0 ∷ pos 1 ∷ [])) v
unfolding check_needvad
needvad-IfGiven none = (λ h. tt, λ h. refl)
needvad-IfGiven (some n) = enum_option-IsOneOf (codes "needvad") n (pos 0 ∷ pos 1 ∷ [])

pub record IsTranscribable (req : TranscribeRequest) : Type 0 where
  pub has_engine : IsNonEmpty req.engine_model_type
  pub has_format : IsNonEmpty req.voice_format
  pub has_source : HasSource req.source_type req.url req.data_text
  pub is_diarization : IsDiarization req.speaker_diarization req.speaker_number [] []
  pub is_needvad : IfGiven (λ n. IsOneOf n (pos 0 ∷ pos 1 ∷ [])) req.needvad
  pub is_rate : IsOneOf req.input_sample_rate (pos 0 ∷ pos 8000 ∷ [])

-- TranscribeRequest::Validate passes exactly the requests that have an engine, a format and the audio
-- of their source, whose diarization options are consistent (also where both are 0, which it does not
-- check), and whose needvad and sample rate are among the values of the protocol.
pub validate_transcribe-IsTranscribable :
    (req : TranscribeRequest) → (validate_transcribe req ≡ ok tt) ↔ IsTranscribable req
unfolding validate_transcribe
validate_transcribe-IsTranscribable req =
    iff_trans
      (then_checks (is_empty req.engine_model_type) _ _ _ iff_same (
        then_checks (is_empty req.voice_format) _ _ _ iff_same (
          then_checks ((req.source_type ==ℤ pos 0) && is_empty req.url) _ _ _
            (required_with req.source_type (pos 0) req.url)
            (then_checks ((req.source_type ==ℤ pos 1) && is_empty req.data_text) _ _ _
              (required_with req.source_type (pos 1) req.data_text)
              (then_both _ _ (checked_if_set req.speaker_diarization req.speaker_number) (
                then_both (check_needvad req.needvad) _ (needvad-IfGiven req.needvad) (
                  enum_option-IsOneOf (codes "input_sample_rate") req.input_sample_rate
                    (pos 0 ∷ pos 8000 ∷ []))))))))
      (
        λ (a, (b, (c, (d, (e, (f, g)))))). record {
          has_engine = a;
          has_format = b;
          has_source = (c, d);
          is_diarization = e;
          is_needvad = f;
          is_rate = g;
        },
        λ r. (
          r.has_engine,
          (
            r.has_format,
            (r.has_source.0, (r.has_source.1, (r.is_diarization, (r.is_needvad, r.is_rate)))),
          ),
        ),
      )

-- A recording: in pieces that are distinct and have no other source, or with its source.
abbrev pub HasRecording : CreateTranscriptionRequest → Type 0
HasRecording req =
    (is_empty req.audio_urls ≡ false
      → IsDistributed req.source_type req.url req.data_text req.audio_urls)
    × (is_empty req.audio_urls ≡ true → HasSource req.source_type req.url req.data_text)

check_source-HasRecording :
    (req : CreateTranscriptionRequest) → (check_source req ≡ ok tt) ↔ HasRecording req
unfolding check_source
check_source-HasRecording req = elim (Bool-cases (is_empty req.audio_urls)) [
  | inl whole ↦ rw whole (
      iff_trans
        (then_checks ((req.source_type ==ℤ pos 0) && is_empty req.url) _ _ _
          (required_with req.source_type (pos 0) req.url)
          (iff_trans (throw_if-ok ((req.source_type ==ℤ pos 1) && is_empty req.data_text) _ _)
            (required_with req.source_type (pos 1) req.data_text)))
        (λ h. (λ e. cc, λ e. h), λ h. h.1 refl))
  | inr pieces ↦ rw pieces (
      iff_trans
        (validate_audio_urls-IsDistributed req.source_type req.url req.data_text req.audio_urls)
        (λ h. (λ e. h, λ e. cc), λ h. h.0 refl))
]

pub record IsCreatable (format_f : Double → Bytes) (req : CreateTranscriptionRequest) : Type 0 where
  pub has_engine : IsNonEmpty req.engine_model_type
  pub is_channels : IsOneOf req.channel_num (pos 1 ∷ pos 2 ∷ [])
  pub is_format : (pos 0 ≤ℤ req.res_text_format) × (req.res_text_format ≤ℤ pos 3)
  pub is_mono : req.channel_num ≡ pos 2 → req.speaker_diarization ≡ pos 0
  pub has_recording : HasRecording req
  pub is_diarization :
      IsDiarization req.speaker_diarization req.speaker_number req.speaker_roles req.voiceprint_ids
  pub is_tuning : IsTuning format_f req.vad_level req.noise_threshold

-- CreateTranscriptionRequest::Validate passes exactly the requests with an engine, one or two
-- channels, a text format from 0 to 3, no diarization of two channels, and consistent diarization and
-- VAD options, whose recording is given: either pieces with URLs and distinct indexes that are not
-- negative, and no other source; or, without pieces, a URL for source 0 and audio for source 1.
pub validate_create-IsCreatable :
    (format_f : Double → Bytes) (req : CreateTranscriptionRequest)
    → (validate_create format_f req ≡ ok tt) ↔ IsCreatable format_f req
unfolding validate_create
validate_create-IsCreatable format_f req =
    iff_trans
      (then_checks (is_empty req.engine_model_type) _ _ _ iff_same (
        then_checks (not (req.channel_num ==ℤ pos 1) && not (req.channel_num ==ℤ pos 2)) _ _ _
          (ground (arith, ==ℤ_iff req.channel_num (pos 1), ==ℤ_iff req.channel_num (pos 2)))
          (then_checks (ltb_ℤ req.res_text_format (pos 0) || ltb_ℤ (pos 3) req.res_text_format) _ _
            _ (ground arith)
            (then_checks ((req.channel_num ==ℤ pos 2) && not (req.speaker_diarization ==ℤ pos 0)) _
              _ _
              (ground
                (arith, ==ℤ_iff req.channel_num (pos 2), ==ℤ_iff req.speaker_diarization (pos 0)))
              (then_both (check_source req) _ (check_source-HasRecording req) (
                then_both
                  (validate_speaker_diarization req.speaker_diarization req.speaker_number
                    req.speaker_roles req.voiceprint_ids)
                  _
                  (validate_speaker_diarization_lem req.speaker_diarization req.speaker_number
                    req.speaker_roles req.voiceprint_ids)
                  (validate_vad_tuning-IsTuning format_f req.vad_level req.noise_threshold)))))))
      (
        λ (a, (b, (c, (d, (e, (f, g)))))). record {
          has_engine = a;
          is_channels = b;
          is_format = c;
          is_mono = d;
          has_recording = e;
          is_diarization = f;
          is_tuning = g;
        },
        λ r. (
          r.has_engine,
          (
            r.is_channels,
            (r.is_format, (r.is_mono, (r.has_recording, (r.is_diarization, r.is_tuning)))),
          ),
        ),
      )
