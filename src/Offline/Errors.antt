-- ===== src/Offline/Errors.antt =====
-- The exceptions of a sentence recognition (src/sentence_recognizer.cc).
use mathlib.Core.List.{map}
use trtc_asr_sdk_cpp.Common.{
  inl, inr, Bool, true, false, ◌&&◌, ◌++◌, ℤ, pos, Bytes, codes, is_empty, Result, ok, throw,
  asr_error, std_exception, throw_if, ◌>>=◌, ◌>>◌, err_invalid_param, err_connect_failed,
  err_server_error, ◌==ℤ◌, ◌||◌, not, Bool-cases, bytes_eq, to_string,
}
use trtc_asr_sdk_cpp.Credential.{
  Credential, trim, to_lower, host_of_name, host_for_site, resolve_http_endpoint,
}
use trtc_asr_sdk_cpp.Encoding.UserSig.{
  gen_user_sig, gen_user_sig_at, zlib_compress, Compressed, compressed, return_code, document,
  content, hmac_sha256,
}
use trtc_asr_sdk_cpp.Encoding.Base64.{base64_url_encode}
use trtc_asr_sdk_cpp.Response.{converge}
use trtc_asr_sdk_cpp.Offline.{
  World, HttpAnswer, has_object, api_error, request_url, request_headers, do_request,
  request_user_sig, check_answer, check_envelope, parse_api_envelope, as_auth_failure,
}
use trtc_asr_sdk_cpp.Offline.Task.{task_body, describe_task_status, parse_task_status}
use trtc_asr_sdk_cpp.Offline.Sentence.{
  source_type_url, source_type_data, SentenceRecognitionRequest, validate_request,
  parse_sentence_result, serialize_request, recognize,
}

-- A value, or an ASRError.
abbrev pub IsSdkResult {ℓ} : {A : Type ℓ} → Result A → Type 0
IsSdkResult (ok a) = Unit
IsSdkResult (throw (asr_error code message)) = Unit
IsSdkResult (throw (std_exception text)) = ⊥

>>=-IsSdkResult {ℓ κ} :
    {A : Type ℓ} {B : Type κ} (m : Result A) (k : A → Result B)
    → IsSdkResult m
    → ((a : A) → IsSdkResult (k a))
    → IsSdkResult (m >>= k)
>>=-IsSdkResult (ok a) k h h' = h' a
>>=-IsSdkResult (throw (asr_error code message)) k h h' = tt
>>=-IsSdkResult (throw (std_exception text)) k h h' = h

throw_if-IsSdkResult :
    (c : Bool) (code : ℤ) (message : Bytes) → IsSdkResult (throw_if c code message)
throw_if-IsSdkResult true code message = tt
throw_if-IsSdkResult false code message = tt

converge-IsSdkResult {ℓ} : {A : Type ℓ} (m : Result A) → IsSdkResult (converge m)
converge-IsSdkResult (ok a) = tt
converge-IsSdkResult (throw e) = tt

-- A check in front of a result.
checked {ℓ} :
    {A : Type ℓ} (c : Bool) (code : ℤ) (message : Bytes) (rest : Result A)
    → IsSdkResult rest
    → IsSdkResult (throw_if c code message >> rest)
checked true code message rest h = tt
checked false code message rest h = h

validate_request-IsSdkResult :
    (req : SentenceRecognitionRequest) → IsSdkResult (validate_request req)
unfolding validate_request
validate_request-IsSdkResult req =
    let last =
      throw_if ((req.source_type ==ℤ source_type_data) && is_empty req.data_text) err_invalid_param
        (codes "Data is required when SourceType=1") in
    let third =
      throw_if ((req.source_type ==ℤ source_type_url) && is_empty req.url) err_invalid_param
        (codes "Url is required when SourceType=0")
      >> last in
    let second =
      throw_if (is_empty req.voice_format) err_invalid_param (codes "VoiceFormat is required")
      >> third in
    checked (is_empty req.eng_service_type) err_invalid_param (codes "EngServiceType is required")
      second
      (checked (is_empty req.voice_format) err_invalid_param (codes "VoiceFormat is required") third
        (checked ((req.source_type ==ℤ source_type_url) && is_empty req.url) err_invalid_param
          (codes "Url is required when SourceType=0") last
          (throw_if-IsSdkResult ((req.source_type ==ℤ source_type_data) && is_empty req.data_text)
            err_invalid_param (codes "Data is required when SourceType=1"))))

host_of_name-IsSdkResult : (original site : Bytes) → IsSdkResult (host_of_name original site)
unfolding host_of_name
host_of_name-IsSdkResult original site =
    elim (Bool-cases (is_empty site || bytes_eq site (codes "cn"))) [
      | inl cn ↦ rw cn tt
      | inr other ↦ elim (Bool-cases (bytes_eq site (codes "intl"))) [
        | inl intl ↦ rw (other, intl) tt
        | inr unknown ↦ rw (other, unknown) tt
      ]
    ]

endpoint-IsSdkResult : (endpoint site : Bytes) → IsSdkResult (resolve_http_endpoint endpoint site)
unfolding host_for_site
endpoint-IsSdkResult endpoint site = elim (Bool-cases (is_empty endpoint)) [
  | inr given ↦ rw given tt
  | inl default ↦ rw default (
      >>=-IsSdkResult (host_for_site site) (λ host. ok (codes "https://" ++ host))
        (host_of_name-IsSdkResult site (map to_lower (trim site))) (λ host. tt))
]

as_auth_failure-IsSdkResult :
    (world : World) (m : Result Bytes) → IsSdkResult m → IsSdkResult (as_auth_failure world m)
as_auth_failure-IsSdkResult world (ok sig) h = tt
as_auth_failure-IsSdkResult world (throw (asr_error code message)) h = tt
as_auth_failure-IsSdkResult world (throw (std_exception text)) h = h

zlib_compress-IsSdkResult :
    (compress2 : Bytes → Compressed) (data' : Bytes) → IsSdkResult (zlib_compress compress2 data')
unfolding zlib_compress
zlib_compress-IsSdkResult compress2 data' = at_code (compress2 data')
  where
    at_code :
        (c : Compressed)
        → IsSdkResult (elim c [
          | compressed out ↦ ok out
          | return_code rc ↦
              throw (asr_error err_invalid_param (codes "zlib compress failed: " ++ to_string rc))
        ])
    at_code (compressed out) = tt
    at_code (return_code rc) = tt

gen_user_sig-IsSdkResult :
    (compress2 : Bytes → Compressed) (sdk_app_id : ℤ) (key user_id : Bytes) (expire now : ℤ)
    → IsSdkResult (gen_user_sig_at compress2 sdk_app_id key user_id expire now)
unfolding gen_user_sig_at
gen_user_sig-IsSdkResult compress2 sdk_app_id key user_id expire now =
    let text =
      document sdk_app_id user_id expire now
        (hmac_sha256 key (content sdk_app_id user_id expire now)) in
    let rest = zlib_compress compress2 text >>= (λ out. ok (base64_url_encode out)) in
    let named = throw_if (is_empty user_id) err_invalid_param (codes "user id is empty") >> rest in
    checked (is_empty key) err_invalid_param (codes "secret key is empty") named (
      checked (is_empty user_id) err_invalid_param (codes "user id is empty") rest (
        >>=-IsSdkResult (zlib_compress compress2 text) (λ out. ok (base64_url_encode out))
          (zlib_compress-IsSdkResult compress2 text) (λ out. tt)))

request_user_sig-IsSdkResult :
    (world : World) (c : Credential) → IsSdkResult (request_user_sig world c)
unfolding request_user_sig gen_user_sig
request_user_sig-IsSdkResult world c = elim (Bool-cases (is_empty c.user_sig)) [
  | inr given ↦ rw given tt
  | inl empty ↦ rw empty (
      as_auth_failure-IsSdkResult world
        (gen_user_sig world.compress2 (pos world.now) c.sdk_app_id c.secret_key world.uuid
          (pos 86400))
        (gen_user_sig-IsSdkResult world.compress2 c.sdk_app_id c.secret_key world.uuid (pos 86400)
          (pos world.now)))
]

check_answer-IsSdkResult :
    (world : World) (answer : HttpAnswer) → IsSdkResult (check_answer world answer)
unfolding check_answer
check_answer-IsSdkResult world answer =
    let message =
      codes "http status " ++ (to_string answer.status ++ (codes ": " ++ answer.body)) in
    let status =
      throw_if (not (answer.status ==ℤ pos 200)) err_server_error message >> ok answer.body in
    checked (not (is_empty answer.err)) err_connect_failed answer.err status
      (checked (not (answer.status ==ℤ pos 200)) err_server_error message (ok answer.body) tt)

do_request-IsSdkResult :
    (world : World) (c : Credential) (endpoint path : Bytes) (json_body : Result Bytes)
    → IsSdkResult json_body
    → IsSdkResult (do_request world c endpoint path json_body)
unfolding do_request
do_request-IsSdkResult world c endpoint path json_body h =
    >>=-IsSdkResult (request_user_sig world c) _ (request_user_sig-IsSdkResult world c) (λ user_sig.
      >>=-IsSdkResult (resolve_http_endpoint endpoint c.site) _
        (endpoint-IsSdkResult endpoint c.site)
        (λ base. >>=-IsSdkResult json_body _ h (λ body. check_answer-IsSdkResult world (
          world.http_post (request_url world c base path) body
            (request_headers world c user_sig)))))

check_envelope-IsSdkResult :
    (world : World) (root : world.json.Json) → IsSdkResult (check_envelope world root)
unfolding check_envelope
check_envelope-IsSdkResult world root =
    let response = world.json.at root (codes "Response") in
    let last =
      throw_if (has_object world response (codes "Error")) err_server_error
        (api_error world response)
      >> ok response in
    checked (not (has_object world root (codes "Response"))) err_server_error
      (codes "empty response from server") last
      (checked (has_object world response (codes "Error")) err_server_error
        (api_error world response) (ok response) tt)

parse_api_envelope-IsSdkResult :
    (world : World) (body : Bytes) → IsSdkResult (parse_api_envelope world body)
unfolding parse_api_envelope
parse_api_envelope-IsSdkResult world body =
    >>=-IsSdkResult (converge (world.json.parse body)) (check_envelope world)
      (converge-IsSdkResult (world.json.parse body)) (check_envelope-IsSdkResult world)

-- When the body of the request can be written, Recognize gives a result or throws an ASRError.
-- No exception of the JSON library gets out of it, whatever the answer.
pub recognize-IsSdkResult :
    (world : World) (c : Credential) (endpoint : Bytes) (req : SentenceRecognitionRequest)
    → IsSdkResult (serialize_request world req)
    → IsSdkResult (recognize world c endpoint req)
unfolding recognize
recognize-IsSdkResult world c endpoint req h =
    let path = codes "/v1/SentenceRecognition" in
    >>=-IsSdkResult (validate_request req) _ (validate_request-IsSdkResult req) (λ u.
      >>=-IsSdkResult (do_request world c endpoint path (serialize_request world req)) _
        (do_request-IsSdkResult world c endpoint path (serialize_request world req) h)
        (λ body.
          >>=-IsSdkResult (parse_api_envelope world body) _
            (parse_api_envelope-IsSdkResult world body)
            (λ response. converge-IsSdkResult (parse_sentence_result world response))))

-- When the body of the request can be written, DescribeTaskStatus gives a status or throws an
-- ASRError. No exception of the JSON library gets out of it, whatever the answer.
pub describe_task_status-IsSdkResult :
    (world : World) (c : Credential) (endpoint rec_task_id : Bytes)
    → IsSdkResult (task_body world rec_task_id)
    → IsSdkResult (describe_task_status world c endpoint rec_task_id)
unfolding describe_task_status
describe_task_status-IsSdkResult world c endpoint rec_task_id h =
    let path = codes "/v1/DescribeTaskStatus" in
    checked (is_empty rec_task_id) err_invalid_param (codes "RecTaskId is empty") _ (
      >>=-IsSdkResult (task_body world rec_task_id) _ h (λ text.
        >>=-IsSdkResult (do_request world c endpoint path (ok text)) _
          (do_request-IsSdkResult world c endpoint path (ok text) tt)
          (λ body.
            >>=-IsSdkResult (parse_api_envelope world body) _
              (parse_api_envelope-IsSdkResult world body)
              (λ response.
                checked (not (has_object world response (codes "Data"))) err_server_error
                  (codes "empty response from server") _
                  (converge-IsSdkResult
                    (parse_task_status world (world.json.at response (codes "Data"))))))))
