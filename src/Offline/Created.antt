-- ===== src/Offline/Created.antt =====
-- What the id of a new task rests on (src/file_recognizer.cc).
use trtc_asr_sdk_cpp.Common.{
  ◌≡◌, ◌≢◌, refl, sym, subst, ◌∙◌, Bool, true, false, [], ◌∷◌, Bytes, codes, is_empty, Result, ok,
  err_server_error, if◌then◌else◌,
}
use trtc_asr_sdk_cpp.Params.Doubles.{Double}
use trtc_asr_sdk_cpp.Response.{converge}
use trtc_asr_sdk_cpp.Credential.{Credential, resolve_http_endpoint}
use trtc_asr_sdk_cpp.Offline.{World, has_object, request_user_sig, do_request, parse_api_envelope}
use trtc_asr_sdk_cpp.Offline.Answers.{
  >>=-eq-ok, throw_if-eq-ok, converge-eq-ok, answer_at, IsSuccess, IsAnswer, response-answered,
}
use trtc_asr_sdk_cpp.Offline.Create.{
  CreateRecTaskRequest, validate_create_request, serialize_create, read_task_id, task_id_of,
  create_task,
}

ne_empty : (s : Bytes) → is_empty s ≡ false → s ≢ []
ne_empty s h e = cc

-- A response that names a task.
abbrev pub Names : (world : World) → world.json.Json → Bytes → Type 0
Names world response id =
    (has_object world response (codes "Data") ≡ true)
    × (world.json.value_string (world.json.at response (codes "Data")) (codes "RecTaskId") []
        ≡ ok id)
    × (id ≢ [])

read_if_there :
    (there : Bool) (m : Result Bytes) (id : Bytes)
    → (if there then m else ok []) ≡ ok id
    → is_empty id ≡ false
    → (there ≡ true) × (m ≡ ok id)
read_if_there true m id h full = (refl, h)
read_if_there false m [] h full = cc
read_if_there false m (c ∷ s) h full = cc

task_id_of-Names :
    (world : World) (response : world.json.Json) (id : Bytes)
    → task_id_of world response ≡ ok id
    → Names world response id
unfolding task_id_of
task_id_of-Names world response id h =
    let (found, read, rest) = >>=-eq-ok (converge (read_task_id world response)) _ id h in
    let (full, same) = throw_if-eq-ok (is_empty found) err_server_error _ (ok found) id rest in
    let read' : read_task_id world response ≡ ok id =
      converge-eq-ok (read_task_id world response) found read ∙ same in
    let full' : is_empty id ≡ false = cc in
    let (there, value) =
      read_if_there (has_object world response (codes "Data")) _ id read' full' in
    (there, value, ne_empty id full')

-- CreateTask gives the id of a task only for a valid request, and reads it from the response in an
-- answer of the service: the request has a body, a signature and a host, and the answer to it has no
-- transport error and status 200, is JSON with an object "Response" that has no object "Error", and
-- the object "Data" there holds the id, which is not empty.
pub create_task-answered :
    (world : World) (format_g : Double → Bytes) (c : Credential) (endpoint : Bytes)
    (req : CreateRecTaskRequest) (id : Bytes)
    → create_task world format_g c endpoint req ≡ ok id
    → (validate_create_request format_g req ≡ ok tt)
      × ((user_sig base body : Bytes) × (root : world.json.Json) × (serialize_create world req
            ≡ ok body)
          × (request_user_sig world c ≡ ok user_sig)
          × (resolve_http_endpoint endpoint c.site ≡ ok base)
          × IsSuccess (answer_at world c (codes "/v1/CreateRecTask") user_sig base body)
          × (world.json.parse
                (answer_at world c (codes "/v1/CreateRecTask") user_sig base body).body
              ≡ ok root)
          × IsAnswer world root
          × Names world (world.json.at root (codes "Response")) id)
unfolding create_task
create_task-answered world format_g c endpoint req id h =
    let (u, valid, h1) = >>=-eq-ok (validate_create_request format_g req) _ id h in
    let (text, made, h2) = >>=-eq-ok (serialize_create world req) _ id h1 in
    let (answer, sent, h3) =
      >>=-eq-ok (do_request world c endpoint (codes "/v1/CreateRecTask") (ok text)) _ id h2 in
    let (response, opened, h4) = >>=-eq-ok (parse_api_envelope world answer) _ id h3 in
    let (user_sig, base, body, root, signed, found, written, success, parsed, fine, same) =
      response-answered world c endpoint (codes "/v1/CreateRecTask") (ok text) answer response sent
        opened in
    let named = task_id_of-Names world response id h4 in
    (
      valid,
      (
        user_sig,
        base,
        body,
        root,
        made ∙ written,
        signed,
        found,
        success,
        parsed,
        fine,
        subst (λ r. Names world r id) (sym same) named,
      ),
    )
