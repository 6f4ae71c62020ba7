-- ===== src/Offline/Answers.antt =====
-- What a result of a sentence recognition rests on (src/sentence_recognizer.cc).
use trtc_asr_sdk_cpp.Common.{
  ==ℤ_iff, ◌≡◌, refl, ap, ◌∙◌, Bool, true, false, not, [], ◌∷◌, ℤ, pos, Bytes, codes, is_empty,
  ◌==ℤ◌, Result, ok, throw, throw_if, err_connect_failed, err_server_error, ◌>>=◌, ◌>>◌,
}
use trtc_asr_sdk_cpp.Response.{converge}
use trtc_asr_sdk_cpp.Credential.{Credential, resolve_http_endpoint}
use trtc_asr_sdk_cpp.Offline.{
  World, HttpAnswer, has_object, request_url, request_headers, request_user_sig, check_answer,
  do_request, check_envelope, parse_api_envelope,
}
use trtc_asr_sdk_cpp.Offline.Sentence.{
  SentenceRecognitionRequest, SentenceRecognitionResult, validate_request, serialize_request,
  parse_sentence_result, recognize,
}

pub >>=-eq-ok {ℓ κ} :
    {A : Type ℓ} {B : Type κ} (m : Result A) (k : A → Result B) (b : B)
    → (m >>= k) ≡ ok b
    → (a : A) × (m ≡ ok a) × (k a ≡ ok b)
>>=-eq-ok (ok a) k b h = (a, refl, h)
>>=-eq-ok (throw e) k b h = cc

pub throw_if-eq-ok {ℓ} :
    {A : Type ℓ} (c : Bool) (code : ℤ) (message : Bytes) (rest : Result A) (a : A)
    → (throw_if c code message >> rest) ≡ ok a
    → (c ≡ false) × (rest ≡ ok a)
throw_if-eq-ok true code message rest a h = cc
throw_if-eq-ok false code message rest a h = (refl, h)

pub converge-eq-ok {ℓ} : {A : Type ℓ} (m : Result A) (a : A) → converge m ≡ ok a → m ≡ ok a
converge-eq-ok (ok a) b h = h
converge-eq-ok (throw e) b h = cc

-- An answer that a request takes.
abbrev pub IsSuccess : HttpAnswer → Type 0
IsSuccess answer = (answer.err ≡ []) × (answer.status ≡ pos 200)

not-is_empty : (s : Bytes) → not (is_empty s) ≡ false → s ≡ []
not-is_empty [] h = refl
not-is_empty (c ∷ s) h = cc

not-false : (b : Bool) → not b ≡ false → b ≡ true
not-false true h = refl
not-false false h = cc

check_answer-eq-ok :
    (world : World) (answer : HttpAnswer) (body : Bytes)
    → check_answer world answer ≡ ok body
    → IsSuccess answer × (answer.body ≡ body)
unfolding check_answer
check_answer-eq-ok world answer body h =
    let (no_err, rest) =
      throw_if-eq-ok (not (is_empty answer.err)) err_connect_failed answer.err _ body h in
    let (status, same) =
      throw_if-eq-ok (not (answer.status ==ℤ pos 200)) err_server_error _ (ok answer.body) body
        rest in
    (
      (
        not-is_empty answer.err no_err,
        (==ℤ_iff answer.status (pos 200)).0 (not-false (answer.status ==ℤ pos 200) status),
      ),
      cc,
    )

-- A root of an answer that has a response without an error.
abbrev pub IsAnswer : (world : World) → world.json.Json → Type 0
IsAnswer world root =
    (has_object world root (codes "Response") ≡ true)
    × (has_object world (world.json.at root (codes "Response")) (codes "Error") ≡ false)

check_envelope-eq-ok :
    (world : World) (root response : world.json.Json)
    → check_envelope world root ≡ ok response
    → IsAnswer world root × (world.json.at root (codes "Response") ≡ response)
unfolding check_envelope
check_envelope-eq-ok world root response h =
    let inner = world.json.at root (codes "Response") in
    let (there, rest) =
      throw_if-eq-ok (not (has_object world root (codes "Response"))) err_server_error _ _ response
        h in
    let (fine, same) =
      throw_if-eq-ok (has_object world inner (codes "Error")) err_server_error _ (ok inner) response
        rest in
    ((not-false (has_object world root (codes "Response")) there, fine), cc)

-- The answer to a request to a path, with this signature, host and body.
abbrev pub answer_at : World → Credential → Bytes → Bytes → Bytes → Bytes → HttpAnswer
answer_at world c path user_sig base body =
    world.http_post (request_url world c base path) body (request_headers world c user_sig)

-- The answer to the request that Recognize sends.
abbrev pub answer_to : World → Credential → Bytes → Bytes → Bytes → HttpAnswer
answer_to world c user_sig base body =
    answer_at world c (codes "/v1/SentenceRecognition") user_sig base body

do_request-eq-ok :
    (world : World) (c : Credential) (endpoint path : Bytes) (json_body : Result Bytes)
    (text : Bytes)
    → do_request world c endpoint path json_body ≡ ok text
    → (user_sig base body : Bytes) × (request_user_sig world c ≡ ok user_sig)
      × (resolve_http_endpoint endpoint c.site ≡ ok base)
      × (json_body ≡ ok body)
      × (check_answer world (
            world.http_post (request_url world c base path) body (request_headers world c user_sig))
          ≡ ok text)
unfolding do_request
do_request-eq-ok world c endpoint path json_body text h =
    let (user_sig, signed, rest) = >>=-eq-ok (request_user_sig world c) _ text h in
    let (base, found, rest') = >>=-eq-ok (resolve_http_endpoint endpoint c.site) _ text rest in
    let (body, written, answered) = >>=-eq-ok json_body _ text rest' in
    (user_sig, base, body, signed, found, written, answered)

-- What the response to a request rests on.
pub response-answered :
    (world : World) (c : Credential) (endpoint path : Bytes) (json_body : Result Bytes)
    (text : Bytes) (response : world.json.Json)
    → do_request world c endpoint path json_body ≡ ok text
    → parse_api_envelope world text ≡ ok response
    → (user_sig base body : Bytes) × (root : world.json.Json) × (request_user_sig world c
        ≡ ok user_sig)
      × (resolve_http_endpoint endpoint c.site ≡ ok base)
      × (json_body ≡ ok body)
      × IsSuccess (answer_at world c path user_sig base body)
      × (world.json.parse (answer_at world c path user_sig base body).body ≡ ok root)
      × IsAnswer world root
      × (world.json.at root (codes "Response") ≡ response)
unfolding parse_api_envelope
response-answered world c endpoint path json_body text response sent opened =
    let (user_sig, base, body, signed, found, written, answered) =
      do_request-eq-ok world c endpoint path json_body text sent in
    let (success, same_text) =
      check_answer-eq-ok world (answer_at world c path user_sig base body) text answered in
    let (root, parsed, enveloped) =
      >>=-eq-ok (converge (world.json.parse text)) (check_envelope world) response opened in
    let (fine, same_response) = check_envelope-eq-ok world root response enveloped in
    (
      user_sig,
      base,
      body,
      root,
      signed,
      found,
      written,
      success,
      ap world.json.parse same_text ∙ converge-eq-ok (world.json.parse text) root parsed,
      fine,
      same_response,
    )

-- A result of Recognize is read from the response in an answer of the service: there is a signature,
-- the credential's own or a new one, a host and a body for the request, and the answer to it has no
-- transport error and status 200, is JSON with an object "Response" that has no object "Error", and
-- that object reads as the result.
pub recognize-answered :
    (world : World) (c : Credential) (endpoint : Bytes) (req : SentenceRecognitionRequest)
    (result : SentenceRecognitionResult)
    → recognize world c endpoint req ≡ ok result
    → (user_sig base body : Bytes) × (root : world.json.Json) × (request_user_sig world c
        ≡ ok user_sig)
      × (resolve_http_endpoint endpoint c.site ≡ ok base)
      × (serialize_request world req ≡ ok body)
      × IsSuccess (answer_to world c user_sig base body)
      × (world.json.parse (answer_to world c user_sig base body).body ≡ ok root)
      × IsAnswer world root
      × (parse_sentence_result world (world.json.at root (codes "Response")) ≡ ok result)
unfolding recognize
recognize-answered world c endpoint req result h =
    let (u, valid, h1) = >>=-eq-ok (validate_request req) _ result h in
    let (text, sent, h2) =
      >>=-eq-ok
        (do_request world c endpoint (codes "/v1/SentenceRecognition")
          (serialize_request world req))
        _ result h1 in
    let (response, opened, h3) = >>=-eq-ok (parse_api_envelope world text) _ result h2 in
    let (user_sig, base, body, root, signed, found, written, success, parsed, fine, same) =
      response-answered world c endpoint (codes "/v1/SentenceRecognition")
        (serialize_request world req) text response sent opened in
    (
      user_sig,
      base,
      body,
      root,
      signed,
      found,
      written,
      success,
      parsed,
      fine,
      ap (parse_sentence_result world) same
          ∙ converge-eq-ok (parse_sentence_result world response) result h3,
    )
