-- ===== src/Offline.antt =====
-- Requests over HTTP (src/file_recognizer.cc, src/sentence_recognizer.cc, src/json_helper.h).
pub mod Sentence
pub mod Task
pub mod Create
pub mod Created
pub mod Polling
pub mod Outcome
pub mod Errors
pub mod Audio
pub mod Answers
mod Tests
use trtc_asr_sdk_cpp.Common.{
  ℕ, Bool, true, false, not, ◌&&◌, List, [], ◌∷◌, ◌++◌, ℤ, pos, Bytes, codes, is_empty, to_string,
  ◌==ℤ◌, if◌then◌else◌, Result, ok, throw, asr_error, std_exception, throw_if, err_connect_failed,
  err_server_error, err_auth_failed, err_read_failed, ◌>>=◌, ◌>>◌,
}
use trtc_asr_sdk_cpp.Json.{JsonLibrary}
use trtc_asr_sdk_cpp.Credential.{Credential, resolve_http_endpoint}
use trtc_asr_sdk_cpp.Encoding.UserSig.{Compressed, gen_user_sig}
use trtc_asr_sdk_cpp.Query.{Target, sdk_report_query}
use trtc_asr_sdk_cpp.Response.{converge}

-- What HttpPost gives: the text of a transport failure (empty if there is none), the status, the body.
pub record HttpAnswer : Type 0 where
  pub err : Bytes
  pub status : ℤ
  pub body : Bytes

-- What the world gives a request: the clock, a UUID, zlib, and the answer to a URL, headers and a body.
pub record World : Type 1 where
  pub json : JsonLibrary
  pub target : Target
  pub compress2 : Bytes → Compressed
  pub now : ℕ
  pub uuid : Bytes
  pub http_post : Bytes → Bytes → List Bytes → HttpAnswer

pub string_field_or_empty : (J : JsonLibrary) → J.Json → Bytes → Bytes
string_field_or_empty J obj key =
    if J.contains obj key && J.is_string (J.at obj key) then J.get_string (J.at obj key) else []

module _ (world : World) where
  -- catch (const ASRError& e)
  abbrev pub as_auth_failure : Result Bytes → Result Bytes
  as_auth_failure (ok sig) = ok sig
  as_auth_failure (throw (asr_error code message)) =
      throw (asr_error err_auth_failed (codes "generate user sig failed: " ++ message))
  as_auth_failure (throw (std_exception text)) = throw (std_exception text)

  unfoldable pub request_user_sig : Credential → Result Bytes
  request_user_sig c =
      if is_empty c.user_sig
      then as_auth_failure (
          gen_user_sig world.compress2 (pos world.now) c.sdk_app_id c.secret_key world.uuid
            (pos 86400))
      else ok c.user_sig

  pub request_url : Credential → Bytes → Bytes → Bytes
  request_url c base path =
      base
      ++ (path
          ++ (codes "?AppId="
              ++ (to_string c.app_id
                  ++ (codes "&Secretid="
                      ++ (to_string c.app_id
                          ++ (codes "&RequestId="
                              ++ (world.uuid
                                  ++ (codes "&Timestamp="
                                      ++ (to_string (pos world.now)
                                          ++ (codes "&" ++ sdk_report_query world.target))))))))))

  abbrev pub request_headers : Credential → Bytes → List Bytes
  request_headers c user_sig =
      codes "Content-Type: application/json; charset=utf-8"
      ∷ (codes "X-TRTC-SdkAppId: " ++ to_string c.sdk_app_id)
      ∷ (codes "X-TRTC-UserSig: " ++ user_sig)
      ∷ []

  unfoldable pub check_answer : HttpAnswer → Result Bytes
  check_answer answer =
      throw_if (not (is_empty answer.err)) err_connect_failed answer.err
      >> (throw_if (not (answer.status ==ℤ pos 200)) err_server_error
            (codes "http status " ++ (to_string answer.status ++ (codes ": " ++ answer.body)))
          >> ok answer.body)

  -- The body is made after the signature and the URL, as SentenceRecognizer::Recognize does.
  -- FileRecognizer::DoRequest is given a text, which is an `ok`.
  unfoldable pub do_request : Credential → Bytes → Bytes → Result Bytes → Result Bytes
  unfolding request_user_sig request_url check_answer
  do_request c endpoint path json_body = do
    user_sig ← request_user_sig c
    base ← resolve_http_endpoint endpoint c.site
    body ← json_body
    check_answer (world.http_post (request_url c base path) body (request_headers c user_sig))

  abbrev pub has_object : world.json.Json → Bytes → Bool
  has_object j key = world.json.contains j key && world.json.is_object (world.json.at j key)

  -- The text of an error that the service reports.
  abbrev pub api_error : world.json.Json → Bytes
  api_error response =
      let api_err = world.json.at response (codes "Error") in
      codes "server error ["
      ++ (string_field_or_empty world.json api_err (codes "Code")
          ++ (codes "]: "
              ++ (string_field_or_empty world.json api_err (codes "Message")
                  ++ (codes " (RequestId: "
                      ++ (string_field_or_empty world.json response (codes "RequestId")
                          ++ codes ")")))))

  unfoldable pub check_envelope : world.json.Json → Result world.json.Json
  unfolding string_field_or_empty
  check_envelope root =
      let response = world.json.at root (codes "Response") in
      throw_if (not (has_object root (codes "Response"))) err_server_error
        (codes "empty response from server")
      >> (throw_if (has_object response (codes "Error")) err_server_error (api_error response)
          >> ok response)

  unfoldable pub parse_api_envelope : Bytes → Result world.json.Json
  unfolding check_envelope
  parse_api_envelope body = do root ← converge (world.json.parse body); check_envelope root
