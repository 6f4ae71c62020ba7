-- ===== src/V3/Api.antt =====
-- The requests of the version 3 interfaces over HTTP (src/v3.cc).
pub mod Wire
use trtc_asr_sdk_cpp.Common.{
  ℕ, Bool, true, false, not, ◌&&◌, ◌||◌, List, [], ◌∷◌, ◌++◌, ℤ, pos, Bytes, codes, is_empty,
  to_string, length, take, ltb, ltb_ℤ, ◌==ℤ◌, if◌then◌else◌, Result, ok, throw, Exception,
  asr_error, what, throw_if, err_server_error, ◌>>=◌, ◌>>◌,
}
use trtc_asr_sdk_cpp.Json.{JsonLibrary}
use trtc_asr_sdk_cpp.Credential.{Credential, resolve_http_endpoint}
use trtc_asr_sdk_cpp.Query.{sdk_report_params}
use trtc_asr_sdk_cpp.Query.SortedMap.{StringMap}
use trtc_asr_sdk_cpp.Offline.{World, HttpAnswer, request_user_sig}
use trtc_asr_sdk_cpp.Run.{Run, crashes, lift, ◌>>=◌ as bind}

abbrev pub headers : List Bytes
headers = codes "Content-Type: application/json; charset=utf-8" ∷ []

module _ (world : World) where
  -- A map as a JSON object.
  unfoldable pub object_of : StringMap → world.json.Json → world.json.Json
  object_of [] j = j
  object_of ((k, v) ∷ m) j = object_of m (world.json.set j k (world.json.string v))

  abbrev pub sdk_info : world.json.Json
  sdk_info = object_of (sdk_report_params world.target) world.json.null

  abbrev auth_block : Credential → Bytes → world.json.Json
  auth_block c user_sig =
      let named =
        world.json.set world.json.null (codes "sdkappid")
          (world.json.string (to_string c.sdk_app_id)) in
      world.json.set (world.json.set named (codes "usersig") (world.json.string user_sig))
        (codes "request_id") (world.json.string world.uuid)

  unfoldable pub offline_envelope : Credential → world.json.Json → Result world.json.Json
  unfolding object_of
  offline_envelope c params = do
    user_sig ← request_user_sig world c
    let full = world.json.set params (codes "sdk_info") sdk_info
    let body = world.json.set world.json.null (codes "auth") (auth_block c user_sig)
    ok (world.json.set body (codes "params") full)

  abbrev status_text : HttpAnswer → Bytes
  status_text answer = codes "invalid response (http " ++ to_string answer.status

  abbrev preview : Bytes → Bytes
  preview body = take 256 body ++ (if ltb 256 (length body) then codes "..." else [])

  unfoldable pub parsed_or_server_error :
      HttpAnswer → Result world.json.Json → Result world.json.Json
  parsed_or_server_error answer (ok j) = ok j
  parsed_or_server_error answer (throw e) =
      throw (asr_error err_server_error (status_text answer ++ (codes "): " ++ what e)))

  -- What PostFlat does with an answer.
  unfoldable pub read_flat : HttpAnswer → Result world.json.Json
  unfolding parsed_or_server_error
  read_flat answer = do
    response ← parsed_or_server_error answer (world.json.parse answer.body)
    throw_if (not (world.json.is_object response)) err_server_error
        (status_text answer ++ codes "): not a JSON object")
    code ← world.json.value_int response (codes "code") (pos 0)
    throw_if ((ltb_ℤ answer.status (pos 200) || ltb_ℤ (pos 299) answer.status) && (code ==ℤ pos 0))
        err_server_error
        (codes "http "
          ++ (to_string answer.status
              ++ (codes " with non-v3 response body: " ++ preview answer.body)))
    ok response

  -- The error text of HttpPost is a null pointer here, so a transport failure writes through it.
  unfoldable pub after_post : HttpAnswer → Run world.json.Json
  unfolding read_flat
  after_post answer = if is_empty answer.err then lift (read_flat answer) else crashes

  unfoldable pub post_flat : Credential → Bytes → Bytes → world.json.Json → Run world.json.Json
  unfolding after_post
  post_flat c endpoint path body = bind (lift (resolve_http_endpoint endpoint c.site)) (λ base.
      bind (lift (world.json.dump body))
        (λ text. after_post (world.http_post (base ++ path) text headers)))

  unfoldable pub with_request_id : Bytes → Bytes → Bytes
  with_request_id message request_id =
      if is_empty request_id
      then message
      else message ++ (codes " (request_id: " ++ (request_id ++ codes ")"))

  -- What `throw ServerError(data)` throws.
  unfoldable pub server_error : world.json.Json → Result (Unit {0})
  unfolding with_request_id
  server_error response = do
    code ← world.json.value_int response (codes "code") (pos 0)
    message ← world.json.value_string response (codes "message") []
    request_id ← world.json.value_string response (codes "request_id") []
    throw (asr_error code (with_request_id message request_id))

  unfoldable pub check_code : world.json.Json → Result (Unit {0})
  unfolding server_error
  check_code response = do
    code ← world.json.value_int response (codes "code") (pos 0)
    if not (code ==ℤ pos 0) then server_error response else ok tt
