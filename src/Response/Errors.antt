-- ===== src/Response/Errors.antt =====
-- What ParseSpeechResponse (src/types.cc) returns and throws.
use trtc_asr_sdk_cpp.Common.{
  ◌≡◌, refl, subst, ◌⊎◌, inl, inr, Bytes, codes, ◌++◌, Result, Result-cases, ok, throw, asr_error,
  what, err_read_failed, Exception, pos, [], ◌>>=◌, if◌then◌else◌,
}
use trtc_asr_sdk_cpp.Json.{JsonLibrary}
use trtc_asr_sdk_cpp.Response.{
  SpeechRecognitionResponse, parse_speech_response, parse_speech_response_inner, has_object,
  parse_continue, parse_result, empty_result,
}

-- A property of the value, if there is one.
abbrev Gives {ℓ κ} : {A : Type ℓ} → (A → Type κ) → Result A → Type κ
Gives P (ok a) = P a
Gives P (throw e) = Unit

>>=-Gives {ℓ κ} :
    {A : Type 0} {B : Type ℓ} (P : B → Type κ) (m : Result A) (k : A → Result B)
    → ((a : A) → Gives P (k a))
    → Gives P (m >>= k)
>>=-Gives P (ok a) k h = h a
>>=-Gives P (throw e) k h = tt

abbrev pub failure : Bytes → Exception
failure m = asr_error err_read_failed (codes "unmarshal response failed: " ++ m)

module _ (J : JsonLibrary) where
  abbrev FlagsResult : J.Json → SpeechRecognitionResponse → Type 0
  FlagsResult j resp = resp.has_result ≡ has_object J j (codes "result")

  inner-FlagsResult : (j : J.Json) → Gives (FlagsResult j) (parse_speech_response_inner J j)
  unfolding parse_speech_response_inner
  inner-FlagsResult j =
      let P = FlagsResult j in
      >>=-Gives P (J.value_int j (codes "code") (pos 0)) _ λ code.
        >>=-Gives P (J.value_string j (codes "message") []) _ λ message.
          >>=-Gives P (J.value_string j (codes "voice_id") []) _ λ voice_id.
            >>=-Gives P (J.value_string j (codes "message_id") []) _ λ message_id.
              >>=-Gives P (J.value_int j (codes "final") (pos 0)) _ λ final_flag.
                >>=-Gives P (parse_continue J j) _ λ speaker_continue.
                  >>=-Gives P
                    (if has_object J j (codes "result")
                      then parse_result J (J.at j (codes "result"))
                      else ok empty_result)
                    _ λ r. refl

  -- ParseSpeechResponse gives a response whose flag tells whether the frame carries an object under
  -- "result", or throws an ASRError with the read error's code: no exception of the JSON library gets out.
  pub parse_speech_response-cases :
      (text : Bytes)
      → ((j : J.Json) × (resp : SpeechRecognitionResponse) × (J.parse text ≡ ok j)
          × (parse_speech_response J text ≡ ok resp)
          × (resp.has_result ≡ has_object J j (codes "result")))
        ⊎ ((m : Bytes) × (parse_speech_response J text ≡ throw (failure m)))
  unfolding parse_speech_response
  parse_speech_response-cases text = elim (Result-cases (J.parse text)) [
    | inr (e, bad) ↦ inr (what e, rw (bad, parse_speech_response))
    | inl (j, parsed) ↦ elim (Result-cases (parse_speech_response_inner J j)) [
      | inr (e, bad) ↦ inr (what e, rw (parsed, parse_speech_response) (rw bad))
      | inl (resp, good) ↦ inl (
        j,
        resp,
        parsed,
        rw (parsed, parse_speech_response) (rw good),
        subst (Gives (FlagsResult j)) good (inner-FlagsResult j),
      )
    ]
  ]
