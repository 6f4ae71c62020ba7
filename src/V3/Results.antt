-- ===== src/V3/Results.antt =====
-- What the calls of the version 3 interfaces come to (src/v3.cc).
use trtc_asr_sdk_cpp.Common.{
  ◌≡◌, ◌≢◌, inl, inr, refl, sym, ap, ◌∙◌, subst, arith, Bool, true, false, not, ◌&&◌, ◌||◌,
  Bool-cases, [], ◌++◌, ℤ, pos, Bytes, codes, is_empty, ltb_ℤ, ◌==ℤ◌, ==ℤ_iff, ◌≤ℤ◌, Result, ok,
  throw,
}
use trtc_asr_sdk_cpp.Credential.{Credential, resolve_http_endpoint}
use trtc_asr_sdk_cpp.Offline.{World, HttpAnswer}
use trtc_asr_sdk_cpp.Offline.Answers.{>>=-eq-ok, throw_if-eq-ok}
use trtc_asr_sdk_cpp.Run.{Run, gives, raises, crashes, lift, ◌>>=◌ as bind}
use trtc_asr_sdk_cpp.V3.Api.{
  offline_envelope, parsed_or_server_error, read_flat, headers, after_post, post_flat, server_error,
  check_code,
}
use trtc_asr_sdk_cpp.V3.Sentence.{call_service}

bind-eq-gives {ℓ κ} :
    {A : Type ℓ} {B : Type κ} (m : Run A) (k : A → Run B) (b : B)
    → bind m k ≡ gives b
    → (a : A) × (m ≡ gives a) × (k a ≡ gives b)
bind-eq-gives (gives a) k b h = (a, refl, h)
bind-eq-gives (raises e) k b h = cc
bind-eq-gives crashes k b h = cc

lift-eq-gives {ℓ} : {A : Type ℓ} (m : Result A) (a : A) → lift m ≡ gives a → m ≡ ok a
lift-eq-gives (ok b) a h = cc
lift-eq-gives (throw e) a h = cc

-- An answer of the service that is a success: no transport failure, a status from 200 to 299, and a
-- body that is a JSON object whose code is 0.
pub record IsSuccess (world : World) (answer : HttpAnswer) (response : world.json.Json)
    : Type 0 where
  pub no_error : is_empty answer.err ≡ true
  pub is_status : (pos 200 ≤ℤ answer.status) × (answer.status ≤ℤ pos 299)
  pub is_parsed : world.json.parse answer.body ≡ ok response
  pub is_object : world.json.is_object response ≡ true
  pub is_code : world.json.value_int response (codes "code") (pos 0) ≡ ok (pos 0)

-- A body that is read, and the code in it.
pub record IsFlat (world : World) (answer : HttpAnswer) (response : world.json.Json) (code : ℤ)
    : Type 0 where
  pub is_parsed : world.json.parse answer.body ≡ ok response
  pub is_object : world.json.is_object response ≡ true
  pub is_code : world.json.value_int response (codes "code") (pos 0) ≡ ok code
  pub is_usual :
      ((ltb_ℤ answer.status (pos 200) || ltb_ℤ (pos 299) answer.status) && (code ==ℤ pos 0)) ≡ false

parsed-eq-ok :
    (world : World) (answer : HttpAnswer) (m : Result world.json.Json) (j : world.json.Json)
    → parsed_or_server_error world answer m ≡ ok j
    → m ≡ ok j
unfolding parsed_or_server_error
parsed-eq-ok world answer (ok i) j h = h
parsed-eq-ok world answer (throw e) j h = cc

not-false : (b : Bool) → not b ≡ false → b ≡ true
not-false true h = refl
not-false false h = cc

read_flat-IsFlat :
    (world : World) (answer : HttpAnswer) (response : world.json.Json)
    → read_flat world answer ≡ ok response
    → (code : ℤ) × IsFlat world answer response code
unfolding read_flat
read_flat-IsFlat world answer response h =
    let (j, parsed, h1) =
      >>=-eq-ok (parsed_or_server_error world answer (world.json.parse answer.body)) _ response h in
    let (object, h2) = throw_if-eq-ok (not (world.json.is_object j)) _ _ _ response h1 in
    let (code, read, h3) =
      >>=-eq-ok (world.json.value_int j (codes "code") (pos 0)) _ response h2 in
    let (usual, same) =
      throw_if-eq-ok
        ((ltb_ℤ answer.status (pos 200) || ltb_ℤ (pos 299) answer.status) && (code ==ℤ pos 0)) _ _
        (ok j) response h3 in
    let e : j ≡ response = cc in
    (
      code,
      subst (λ (r : world.json.Json). IsFlat world answer r code) e
          (record {
            is_parsed = parsed-eq-ok world answer (world.json.parse answer.body) j parsed;
            is_object = not-false (world.json.is_object j) object;
            is_code = read;
            is_usual = usual;
          }),
    )

after_post-IsFlat :
    (world : World) (answer : HttpAnswer) (response : world.json.Json)
    → after_post world answer ≡ gives response
    → (is_empty answer.err ≡ true) × ((code : ℤ) × IsFlat world answer response code)
unfolding after_post
after_post-IsFlat world answer response h = elim (Bool-cases (is_empty answer.err)) [
  | inl fine ↦ (
    fine,
    read_flat-IsFlat world answer response
        (lift-eq-gives (read_flat world answer) response (rw fine at h)),
  )
  | inr broken ↦ cc (rw broken at h)
]

server_error-ne-ok :
    (world : World) (j : world.json.Json) (u : Unit {0}) → server_error world j ≢ ok u
unfolding server_error
server_error-ne-ok world j u h =
    let (code, e, h1) = >>=-eq-ok (world.json.value_int j (codes "code") (pos 0)) _ u h in
    let (message, e1, h2) = >>=-eq-ok (world.json.value_string j (codes "message") []) _ u h1 in
    let (id, e2, h3) = >>=-eq-ok (world.json.value_string j (codes "request_id") []) _ u h2 in cc

check_code-eq-ok :
    (world : World) (response : world.json.Json) (u : Unit {0})
    → check_code world response ≡ ok u
    → world.json.value_int response (codes "code") (pos 0) ≡ ok (pos 0)
unfolding check_code
check_code-eq-ok world response u h =
    let (code, read, h1) = >>=-eq-ok (world.json.value_int response (codes "code") (pos 0)) _ u h in
    elim (Bool-cases (code ==ℤ pos 0)) [
      | inl zero_code ↦ read ∙ ap ok ((==ℤ_iff code (pos 0)).0 zero_code)
      | inr other ↦ absurd (server_error-ne-ok world response u (rw other at h1))
    ]

-- The answer to a request with this host and text.
abbrev pub answer_to : World → Bytes → Bytes → Bytes → HttpAnswer
answer_to world base path text = world.http_post (base ++ path) text headers

flat-IsSuccess :
    (world : World) (answer : HttpAnswer) (response : world.json.Json) (code : ℤ)
    → is_empty answer.err ≡ true
    → IsFlat world answer response code
    → world.json.value_int response (codes "code") (pos 0) ≡ ok (pos 0)
    → IsSuccess world answer response
flat-IsSuccess world answer response code fine flat read =
    let same : ◌≡◌ {A = Result ℤ} (ok code) (ok (pos 0)) = sym flat.is_code ∙ read in
    let e : code ≡ pos 0 = cc in
    let usual : ((ltb_ℤ answer.status (pos 200) || ltb_ℤ (pos 299) answer.status)
          && (pos 0 ==ℤ pos 0))
        ≡ false =
      subst
        (λ (n : ℤ).
          ((ltb_ℤ answer.status (pos 200) || ltb_ℤ (pos 299) answer.status) && (n ==ℤ pos 0))
          ≡ false)
        e flat.is_usual in
    record {
      no_error = fine;
      is_status = ground (arith, usual);
      is_parsed = flat.is_parsed;
      is_object = flat.is_object;
      is_code = read;
    }

-- A call of the service gives a response only from a success: the answer to a request with the
-- envelope of the parameters, without a transport failure, with a status from 200 to 299, whose body
-- is a JSON object with code 0, and that object is the response.
pub call_service-IsSuccess :
    (world : World) (c : Credential) (endpoint path : Bytes) (params response : world.json.Json)
    → call_service world c endpoint path params ≡ gives response
    → (body : world.json.Json) × (base text : Bytes) × (offline_envelope world c params ≡ ok body)
      × (resolve_http_endpoint endpoint c.site ≡ ok base)
      × (world.json.dump body ≡ ok text)
      × IsSuccess world (answer_to world base path text) response
unfolding call_service post_flat
call_service-IsSuccess world c endpoint path params response h =
    let (body, made, h1) = bind-eq-gives (lift (offline_envelope world c params)) _ response h in
    let (r, posted, h2) = bind-eq-gives (post_flat world c endpoint path body) _ response h1 in
    let (u, checked, h3) = bind-eq-gives (lift (check_code world r)) _ response h2 in
    let (base, found, p1) =
      bind-eq-gives (lift (resolve_http_endpoint endpoint c.site)) _ r posted in
    let (text, dumped, p2) = bind-eq-gives (lift (world.json.dump body)) _ r p1 in
    let (fine, (code, flat)) = after_post-IsFlat world (answer_to world base path text) r p2 in
    let e : r ≡ response = cc in
    let read = check_code-eq-ok world r u (lift-eq-gives (check_code world r) u checked) in
    (
      body,
      base,
      text,
      lift-eq-gives (offline_envelope world c params) body made,
      lift-eq-gives (resolve_http_endpoint endpoint c.site) base found,
      lift-eq-gives (world.json.dump body) text dumped,
      subst (λ (j : world.json.Json). IsSuccess world (answer_to world base path text) j) e
          (flat-IsSuccess world (answer_to world base path text) r code fine flat read),
    )
