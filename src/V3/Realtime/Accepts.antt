-- ===== src/V3/Realtime/Accepts.antt =====
-- What ValidateOptions of the version 3 client accepts (src/v3.cc).
use trtc_asr_sdk_cpp.Common.{
  ◌≤◌, ◌≡◌, ◌≢◌, ◌↔◌, refl, arith, not, ◌&&◌, ◌||◌, Option, none, some, [], ◌∷◌, ℤ, pos, Bytes,
  codes, length, ltb, ltb_ℤ, ◌==ℤ◌, ==ℤ_iff, ◌≤ℤ◌, ok, throw_if-ok, then_checks, then_both,
  iff_trans,
}
use trtc_asr_sdk_cpp.Params.Doubles.{Double}
use trtc_asr_sdk_cpp.Params.Diarization.{IsOneOf}
use trtc_asr_sdk_cpp.V3.Checks.Accepts.{
  IsDiarization, validate_speaker_diarization_lem, enum_option-IsOneOf, IfGiven, IsTuning,
  validate_vad_tuning-IsTuning, IsContext, validate_speaker_context-IsContext,
}
use trtc_asr_sdk_cpp.V3.Realtime.{
  Options, check_limits, check_filter_empty_result, voice_formats, check_modes, validate_options,
}

abbrev pub IsWithin : ℤ → ℤ → ℤ → Type 0
IsWithin low high n = (low ≤ℤ n) × (n ≤ℤ high)

-- A limit that is set is in its range; the range of a silence counts with the VAD on alone.
abbrev pub HasLimits : Options → Type 0
HasLimits o =
    (o.max_speak_time ≢ pos 0 → IsWithin (pos 5000) (pos 90000) o.max_speak_time)
    × (o.vad_silence_time ≢ pos 0
        → o.need_vad ≡ pos 1
        → IsWithin (pos 240) (pos 2000) o.vad_silence_time)

check_limits-HasLimits : (o : Options) → (check_limits o ≡ ok tt) ↔ HasLimits o
unfolding check_limits
check_limits-HasLimits o =
    then_checks
      (not (o.max_speak_time ==ℤ pos 0)
        && (ltb_ℤ o.max_speak_time (pos 5000) || ltb_ℤ (pos 90000) o.max_speak_time))
      _ _ _ (ground (arith, ==ℤ_iff o.max_speak_time (pos 0)))
      (iff_trans
        (throw_if-ok
          (not (o.vad_silence_time ==ℤ pos 0)
            && ((o.need_vad ==ℤ pos 1)
                && (ltb_ℤ o.vad_silence_time (pos 240) || ltb_ℤ (pos 2000) o.vad_silence_time)))
          _ _)
        (ground (arith, ==ℤ_iff o.vad_silence_time (pos 0), ==ℤ_iff o.need_vad (pos 1))))

pub record HasModes (o : Options) : Type 0 where
  pub need_vad : IsOneOf o.need_vad (pos 0 ∷ pos 1 ∷ [])
  pub convert_num_mode : IsOneOf o.convert_num_mode (pos 0 ∷ pos 1 ∷ pos 3 ∷ [])
  pub filter_dirty : IsOneOf o.filter_dirty (pos 0 ∷ pos 1 ∷ pos 2 ∷ [])
  pub filter_modal : IsOneOf o.filter_modal (pos 0 ∷ pos 1 ∷ pos 2 ∷ [])
  pub filter_punc : IsOneOf o.filter_punc (pos 0 ∷ pos 1 ∷ [])
  pub word_info : IsOneOf o.word_info (pos 0 ∷ pos 1 ∷ pos 2 ∷ pos 100 ∷ [])
  pub word_with_space : IsOneOf o.word_with_space (pos 0 ∷ pos 1 ∷ [])
  pub voice_format : IsOneOf o.voice_format voice_formats
  pub filter_empty_result : IfGiven (λ n. IsOneOf n (pos 0 ∷ pos 1 ∷ [])) o.filter_empty_result
  pub input_sample_rate : IsOneOf o.input_sample_rate (pos 0 ∷ pos 8000 ∷ [])

filter_empty_result-IfGiven :
    (v : Option ℤ)
    → (check_filter_empty_result v ≡ ok tt) ↔ IfGiven (λ n. IsOneOf n (pos 0 ∷ pos 1 ∷ [])) v
unfolding check_filter_empty_result
filter_empty_result-IfGiven none = (λ h. tt, λ h. refl)
filter_empty_result-IfGiven (some n) =
    enum_option-IsOneOf (codes "FilterEmptyResult") n (pos 0 ∷ pos 1 ∷ [])

check_modes-HasModes : (o : Options) → (check_modes o ≡ ok tt) ↔ HasModes o
unfolding check_modes
check_modes-HasModes o =
    iff_trans
      (then_both _ _ (enum_option-IsOneOf (codes "NeedVad") o.need_vad (pos 0 ∷ pos 1 ∷ [])) (
        then_both _ _
          (enum_option-IsOneOf (codes "ConvertNumMode") o.convert_num_mode
            (pos 0 ∷ pos 1 ∷ pos 3 ∷ []))
          (then_both _ _
            (enum_option-IsOneOf (codes "FilterDirty") o.filter_dirty (pos 0 ∷ pos 1 ∷ pos 2 ∷ []))
            (then_both _ _
              (enum_option-IsOneOf (codes "FilterModal") o.filter_modal
                (pos 0 ∷ pos 1 ∷ pos 2 ∷ []))
              (then_both _ _
                (enum_option-IsOneOf (codes "FilterPunc") o.filter_punc (pos 0 ∷ pos 1 ∷ []))
                (then_both _ _
                  (enum_option-IsOneOf (codes "WordInfo") o.word_info
                    (pos 0 ∷ pos 1 ∷ pos 2 ∷ pos 100 ∷ []))
                  (then_both _ _
                    (enum_option-IsOneOf (codes "WordWithSpace") o.word_with_space
                      (pos 0 ∷ pos 1 ∷ []))
                    (then_both _ _
                      (enum_option-IsOneOf (codes "VoiceFormat") o.voice_format voice_formats)
                      (then_both _ _ (filter_empty_result-IfGiven o.filter_empty_result) (
                        enum_option-IsOneOf (codes "InputSampleRate") o.input_sample_rate
                          (pos 0 ∷ pos 8000 ∷ [])))))))))))
      (
        λ (a, (b, (c, (d, (e, (f, (g, (h, (i, j))))))))). record {
          need_vad = a;
          convert_num_mode = b;
          filter_dirty = c;
          filter_modal = d;
          filter_punc = e;
          word_info = f;
          word_with_space = g;
          voice_format = h;
          filter_empty_result = i;
          input_sample_rate = j;
        },
        λ m. (
          m.need_vad,
          (
            m.convert_num_mode,
            (
              m.filter_dirty,
              (
                m.filter_modal,
                (
                  m.filter_punc,
                  (
                    m.word_info,
                    (
                      m.word_with_space,
                      (m.voice_format, (m.filter_empty_result, m.input_sample_rate)),
                    ),
                  ),
                ),
              ),
            ),
          ),
        ),
      )

pub record IsAcceptable (format_f : Double → Bytes) (o : Options) : Type 0 where
  pub is_short_id : length o.voice_id ≤ 128
  pub is_diarization :
      IsDiarization o.speaker_diarization o.speaker_number o.speaker_roles o.voiceprint_ids
  pub is_context : IsContext o.enable_speaker_context o.speaker_diarization
  pub is_tuning : IsTuning format_f o.vad_level o.noise_threshold
  pub has_limits : HasLimits o
  pub has_modes : HasModes o

-- ValidateOptions of the version 3 client passes exactly the options with an id of at most 128 bytes,
-- consistent diarization options, a speaker context that is off or is used with diarization, VAD
-- tuning in range, limits in range where they are set, and modes among the values of the protocol.
pub validate_options-IsAcceptable :
    (format_f : Double → Bytes) (o : Options)
    → (validate_options format_f o ≡ ok tt) ↔ IsAcceptable format_f o
unfolding validate_options
validate_options-IsAcceptable format_f o =
    iff_trans
      (then_checks (ltb 128 (length o.voice_id)) _ _ _ (ground arith) (
        then_both _ _
          (validate_speaker_diarization_lem o.speaker_diarization o.speaker_number o.speaker_roles
            o.voiceprint_ids)
          (then_both _ _
            (validate_speaker_context-IsContext o.enable_speaker_context o.speaker_diarization)
            (then_both _ _ (validate_vad_tuning-IsTuning format_f o.vad_level o.noise_threshold)
              (then_both _ _ (check_limits-HasLimits o) (check_modes-HasModes o))))))
      (
        λ (a, (b, (c, (d, (e, f))))). record {
          is_short_id = a;
          is_diarization = b;
          is_context = c;
          is_tuning = d;
          has_limits = e;
          has_modes = f;
        },
        λ r. (
          r.is_short_id,
          (r.is_diarization, (r.is_context, (r.is_tuning, (r.has_limits, r.has_modes)))),
        ),
      )
