-- ===== src/Offline/Tests.antt =====
-- A service that answers with the text of the request, and runs of the recognizer with it.
use trtc_asr_sdk_cpp.Common.{
  ◌≡◌, refl, ◌⊎◌, some, ℕ, suc, ◌+◌, ◌≤◌, arith, Result, true, false, [], ◌∷◌, pos, Bytes, codes,
  bytes_eq, ◌||◌, all_bytes-All, ok,
}
use trtc_asr_sdk_cpp.Json.{JsonLibrary}
use trtc_asr_sdk_cpp.Credential.{Credential, host_for_site, resolve_http_endpoint}
use trtc_asr_sdk_cpp.Encoding.UserSig.{compressed}
use trtc_asr_sdk_cpp.Offline.{World, do_request, parse_api_envelope, request_user_sig}
use trtc_asr_sdk_cpp.Offline.Sentence.{
  SentenceRecognitionRequest, SentenceRecognitionResult, new_request, serialize_request,
  parse_sentence_result, recognize, recognize_data,
}
use trtc_asr_sdk_cpp.Offline.Task.{TaskStatus, describe_task_status}
use trtc_asr_sdk_cpp.Offline.Polling.{wait_for_result_with_interval}
use trtc_asr_sdk_cpp.Loops.{Runs}
use trtc_asr_sdk_cpp.Offline.Outcome.{Goes, Ends, wait_for_result_with_interval-Ends}
use trtc_asr_sdk_cpp.Offline.Errors.{IsSdkResult, recognize-IsSdkResult}
use trtc_asr_sdk_cpp.Offline.Audio.{HasSize, IsRefused, Carries, recognize_data-cases}
use trtc_asr_sdk_cpp.Offline.Answers.{IsSuccess, IsAnswer, answer_at, answer_to, recognize-answered}
use trtc_asr_sdk_cpp.Params.Doubles.{Double}
use trtc_asr_sdk_cpp.Params.{validate_speaker_diarization, validate_vad_tuning}
use trtc_asr_sdk_cpp.Offline.Create.{
  CreateRecTaskRequest, validate_create_request, serialize_create, create_task,
}
use trtc_asr_sdk_cpp.Offline.Create as Create
use trtc_asr_sdk_cpp.Offline.Created.{Names, create_task-answered}

-- A value is a text, and the object under a key is the text itself.
abbrev one_text : JsonLibrary
one_text = record {
  Json = Bytes;
  null = [];
  set = λ j key v. v;
  string = λ s. s;
  integer = λ n. [];
  number = λ n. [];
  array = λ js. [];
  dump = λ j. ok j;
  parse = ok;
  contains = λ j key. bytes_eq key (codes "Response") || bytes_eq key (codes "Data");
  at = λ j key. j;
  elements = λ j. [];
  is_object = λ j. true;
  is_array = λ j. false;
  is_number = λ j. false;
  is_string = λ j. true;
  value_int = λ j key d. ok d;
  value_int64 = λ j key d. ok d;
  value_string = λ j key d. ok j;
  get_int = λ j. ok (pos 0);
  is_null = λ j. false;
  get_int64 = λ j. ok (pos 0);
  Double = Unit;
  value_double = λ j key. ok tt;
  get_string = λ j. j;
}

abbrev echo : World
echo = record {
  json = one_text;
  target = record { win32 = false; android = false; apple = false; iphone = false; linux = true };
  compress2 = compressed;
  now = 1700000000;
  uuid = codes "7f3c";
  http_post = λ url body headers. record { err = []; status = pos 200; body = body };
}

abbrev signed : Credential
signed = record {
  app_id = pos 1300403317;
  sdk_app_id = pos 1400000000;
  secret_key = [];
  user_sig = codes "eJw";
  site = codes "cn";
}

abbrev by_url : SentenceRecognitionRequest
by_url = record new_request {
  eng_service_type = codes "16k_zh";
  voice_format = codes "pcm";
  url = codes "http://a/b";
}

abbrev heard : SentenceRecognitionResult
heard = record {
  result = codes "http://a/b";
  audio_duration = pos 0;
  word_size = pos 0;
  word_list = [];
  request_id = codes "http://a/b";
}

recognize-IsSdkResult_example : IsSdkResult (recognize echo signed [] by_url)
unfolding serialize_request
recognize-IsSdkResult_example = recognize-IsSdkResult echo signed [] by_url tt

recognize_run : recognize echo signed [] by_url ≡ ok heard
unfolding recognize do_request host_for_site parse_api_envelope
recognize_run = refl

recognize_data-cases_example :
    ((¬ HasSize (1 ∷ []))
      × IsRefused (recognize_data echo signed [] (1 ∷ []) (codes "pcm") (codes "16k_zh")))
    ⊎ (HasSize (1 ∷ [])
        × ((req : SentenceRecognitionRequest) × Carries req (1 ∷ [])
            × (req.voice_format ≡ codes "pcm")
            × (req.eng_service_type ≡ codes "16k_zh")
            × (recognize_data echo signed [] (1 ∷ []) (codes "pcm") (codes "16k_zh")
                ≡ recognize echo signed [] req)))
recognize_data-cases_example =
    recognize_data-cases echo signed [] (1 ∷ []) (codes "pcm") (codes "16k_zh")
      (all_bytes-All (1 ∷ []) refl)

recognize-answered_example :
    (user_sig base body : Bytes) × (root : Bytes) × (request_user_sig echo signed ≡ ok user_sig)
    × (resolve_http_endpoint [] (codes "cn") ≡ ok base)
    × (serialize_request echo by_url ≡ ok body)
    × IsSuccess (answer_to echo signed user_sig base body)
    × (ok (answer_to echo signed user_sig base body).body ≡ ok root)
    × IsAnswer echo root
    × (parse_sentence_result echo root ≡ ok heard)
recognize-answered_example = recognize-answered echo signed [] by_url heard recognize_run

-- The echo says nothing of the task's status, which is pending throughout.
abbrev task_answer : ℕ → Result (TaskStatus Unit)
task_answer n = describe_task_status echo signed [] (codes "42")

advances : (i : ℕ) → i + 1 ≤ suc i
advances i = omega arith

wait_for_result_with_interval-Ends_example :
    (m : ℕ) × (r : Result (TaskStatus Unit)) × (m ≤ suc 5)
    × Runs (Goes (codes "42") 5 (0 + 5) task_answer (λ i. i)) 0 m
    × Ends (codes "42") 5 (0 + 5) task_answer (λ i. i) m r
    × (wait_for_result_with_interval (codes "42") 5 0 task_answer (λ i. i) (suc (suc 5)) ≡ some r)
wait_for_result_with_interval-Ends_example =
    wait_for_result_with_interval-Ends (codes "42") 5 0 1 task_answer (λ i. i) (omega arith)
      (omega arith) advances

abbrev format_g : Double → Bytes
format_g v = codes "0.5"

abbrev recording : CreateRecTaskRequest
recording = record Create.new_request {
  engine_model_type = codes "16k_zh";
  channel_num = pos 1;
  url = codes "http://a/b";
}

create_task_run : create_task echo format_g signed [] recording ≡ ok (codes "http://a/b")
unfolding create_task do_request host_for_site parse_api_envelope validate_speaker_diarization
    validate_vad_tuning
create_task_run = refl

create_task-answered_example :
    (validate_create_request format_g recording ≡ ok tt)
    × ((user_sig base body : Bytes) × (root : Bytes) × (serialize_create echo recording ≡ ok body)
        × (request_user_sig echo signed ≡ ok user_sig)
        × (resolve_http_endpoint [] (codes "cn") ≡ ok base)
        × IsSuccess (answer_at echo signed (codes "/v1/CreateRecTask") user_sig base body)
        × (ok (answer_at echo signed (codes "/v1/CreateRecTask") user_sig base body).body ≡ ok root)
        × IsAnswer echo root
        × Names echo root (codes "http://a/b"))
create_task-answered_example =
    create_task-answered echo format_g signed [] recording (codes "http://a/b") create_task_run
