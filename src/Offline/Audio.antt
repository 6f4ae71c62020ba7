-- ===== src/Offline/Audio.antt =====
-- The audio in a request (RecognizeData and RecognizeDataWithOptions in src/sentence_recognizer.cc).
use trtc_asr_sdk_cpp.Common.{
  ◌≡◌, refl, ◌⊎◌, inl, inr, arith, ltb-true, ltb-false, ℕ, ◌≤◌, true, some, [], ◌∷◌, All, IsByte,
  pos, Bytes, codes, length, ltb, Result, ok, throw, asr_error, err_invalid_param, ◌>>◌, Bool-cases,
}
use trtc_asr_sdk_cpp.Encoding.Base64.{base64_decode}
use trtc_asr_sdk_cpp.Encoding.Base64.RoundTrip.{base64_decode-base64_encode}
use trtc_asr_sdk_cpp.Credential.{Credential}
use trtc_asr_sdk_cpp.Offline.{World}
use trtc_asr_sdk_cpp.Offline.Sentence.{
  source_type_data, max_audio_size, SentenceRecognitionRequest, new_request, check_audio,
  with_audio, recognize, recognize_data, recognize_data_with_options,
}

abbrev pub HasSize : Bytes → Type 0
HasSize audio = (1 ≤ length audio) × (length audio ≤ max_audio_size)

abbrev pub IsRefused {ℓ} : {A : Type ℓ} → Result A → Type ℓ
IsRefused m = (text : Bytes) × (m ≡ throw (asr_error err_invalid_param text))

-- A request of this audio.
abbrev pub Carries : SentenceRecognitionRequest → Bytes → Type 0
Carries req audio =
    (base64_decode req.data_text ≡ ok audio)
    × (req.data_len ≡ pos (length audio))
    × (req.source_type ≡ source_type_data)

no_size : ¬ HasSize []
no_size (one, most) = omega arith

long_size : (n : ℕ) → ltb max_audio_size n ≡ true → ¬ ((1 ≤ n) × (n ≤ max_audio_size))
long_size n h (one, most) = let more = ltb-true max_audio_size n h in omega arith

check_audio-cases {ℓ} :
    (world : World) {A : Type ℓ} (audio : Bytes) (rest : Result A)
    → ((¬ HasSize audio) × IsRefused (check_audio world audio >> rest))
      ⊎ (HasSize audio × ((check_audio world audio >> rest) ≡ rest))
check_audio-cases world [] rest = inl (no_size, (codes "audio data is empty", refl))
check_audio-cases world (b ∷ bs) rest = elim (Bool-cases (ltb max_audio_size (length (b ∷ bs)))) [
  | inl long ↦
      inl (long_size (length (b ∷ bs)) long, rw long (codes "audio data exceeds 3MB limit", refl))
  | inr short ↦ inr ((omega arith, ltb-false max_audio_size (length (b ∷ bs)) short), rw short refl)
]

with_audio-Carries :
    (world : World) (audio : Bytes) (req : SentenceRecognitionRequest)
    → All IsByte audio
    → Carries (with_audio world audio req) audio
with_audio-Carries world audio req h = (base64_decode-base64_encode audio h, refl, refl)

-- RecognizeData throws an invalid-parameter error for audio that is empty or longer than 3 MB. Any other
-- audio it recognizes with a request that has the format and the engine it was given,
-- whose text decodes to the audio and whose length is the audio's.
pub recognize_data-cases :
    (world : World) (c : Credential) (endpoint audio format engine : Bytes)
    → All IsByte audio
    → ((¬ HasSize audio) × IsRefused (recognize_data world c endpoint audio format engine))
      ⊎ (HasSize audio
          × ((req : SentenceRecognitionRequest) × Carries req audio
              × (req.voice_format ≡ format)
              × (req.eng_service_type ≡ engine)
              × (recognize_data world c endpoint audio format engine
                  ≡ recognize world c endpoint req)))
unfolding recognize_data
recognize_data-cases world c endpoint audio format engine h =
    let base = record new_request { eng_service_type = engine; voice_format = format } in
    let req = with_audio world audio base in
    elim (check_audio-cases world audio (recognize world c endpoint req)) [
      | inl bad ↦ inl bad
      | inr (size, same) ↦
          inr (size, (req, with_audio-Carries world audio base h, refl, refl, same))
    ]

-- RecognizeDataWithOptions refuses audio of a bad size as RecognizeData does. Any other audio it
-- recognizes with a request that carries the audio and keeps the caller's other fields: setting the
-- audio's three fields back gives the caller's request.
pub recognize_data_with_options-cases :
    (world : World) (c : Credential) (endpoint audio : Bytes) (given : SentenceRecognitionRequest)
    → All IsByte audio
    → ((¬ HasSize audio)
        × IsRefused (recognize_data_with_options world c endpoint audio (some given)))
      ⊎ (HasSize audio
          × ((req : SentenceRecognitionRequest) × Carries req audio
              × (record req {
                source_type = given.source_type;
                data_text = given.data_text;
                data_len = given.data_len;
              }
                  ≡ given)
              × (recognize_data_with_options world c endpoint audio (some given)
                  ≡ recognize world c endpoint req)))
unfolding recognize_data_with_options
recognize_data_with_options-cases world c endpoint audio given h =
    let req = with_audio world audio given in
    elim (check_audio-cases world audio (recognize world c endpoint req)) [
      | inl bad ↦ inl bad
      | inr (size, same) ↦ inr (size, (req, with_audio-Carries world audio given h, refl, same))
    ]
