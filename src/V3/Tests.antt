-- ===== src/V3/Tests.antt =====
-- The version 3 clients at concrete requests and sessions (src/v3.cc).
use trtc_asr_sdk_cpp.Common.{
  ℕ, suc, ◌+◌, ◌≤◌, ◌≡◌, ◌↔◌, ◌⊎◌, refl, true, false, Option, none, some, List, [], ◌∷◌, pos, Bytes,
  codes, ok, throw, Exception, arith, to_string,
}
use trtc_asr_sdk_cpp.Query.{sdk_report_params}
use trtc_asr_sdk_cpp.Params.Doubles.{Double}
use trtc_asr_sdk_cpp.Response.{SpeakerContinue}
use trtc_asr_sdk_cpp.Response.Tests.{flags}
use trtc_asr_sdk_cpp.Credential.{Credential, host_for_site, resolve_http_endpoint}
use trtc_asr_sdk_cpp.Encoding.UserSig.{compressed}
use trtc_asr_sdk_cpp.Offline.{World, request_user_sig}
use trtc_asr_sdk_cpp.Recognizer.{RecognizerSharedState, state_running, state_idle, state_stopped}
use trtc_asr_sdk_cpp.Recognizer.Reader.{
  Callback, Thrown, Reader, Received, no_frame, read_failed, a_frame, Interference, nothing,
  stop_begins, ended,
}
use trtc_asr_sdk_cpp.Recognizer.Reader as V2
use trtc_asr_sdk_cpp.Recognizer.Reader.Finishing.{IsSessionLog}
use trtc_asr_sdk_cpp.Recognizer.Lifecycle.{Client, new_client, set_state, returned, raised}
use trtc_asr_sdk_cpp.Recognizer.{state_starting}
use trtc_asr_sdk_cpp.Run.{Run, gives}
use trtc_asr_sdk_cpp.V3.Api.{offline_envelope, post_flat}
use trtc_asr_sdk_cpp.V3.Sentence.{TranscribeRequest, new_request, call_service}
use trtc_asr_sdk_cpp.V3.Task as Task
use trtc_asr_sdk_cpp.V3.Requests.{IsCreatable, validate_create-IsCreatable}
use trtc_asr_sdk_cpp.V3.Results.{IsSuccess, answer_to, call_service-IsSuccess}
use trtc_asr_sdk_cpp.V3.Status.{TranscriptionStatus, describe_task, wait_for_result_with_interval}
use trtc_asr_sdk_cpp.Http.{http_post}
use trtc_asr_sdk_cpp.V3.Ending.{Continues, Ends, v3_wait-Ends}
use trtc_asr_sdk_cpp.V3.Realtime.{Options, new_options, validate_options, open_with}
use trtc_asr_sdk_cpp.V3.Realtime.Accepts.{IsAcceptable, validate_options-IsAcceptable}
use trtc_asr_sdk_cpp.V3.Handshake.{Ack, accepted, ack_from, prepare}
use trtc_asr_sdk_cpp.Loops.{Runs}
use trtc_asr_sdk_cpp.V3.Handshake.Waiting.{round_at, Waits, ack_from-ends_by, ack_from-never_ends}
use trtc_asr_sdk_cpp.V3.Client.{leave_conn, start}
use trtc_asr_sdk_cpp.Recognizer.Lifecycle as Lifecycle
use trtc_asr_sdk_cpp.V3.Client.Starting.{IsOpened, v3_start-cases}
use trtc_asr_sdk_cpp.V3.Reader.{rounds, read_loop, start_response}
use trtc_asr_sdk_cpp.V3.Reader.Same.{keep_next, rounds-same}
use trtc_asr_sdk_cpp.V3.Reader.Over.{v3_read_loop-IsOver}

abbrev format_f : Double → Bytes
format_f v = codes "0.5"

-- A service that answers with the text of the request.
abbrev echo : World
echo = record {
  json = flags;
  target = record { win32 = false; android = false; apple = false; iphone = false; linux = true };
  compress2 = compressed;
  now = 1700000000;
  uuid = codes "7f3c";
  http_post = λ url body headers. record { err = []; status = pos 200; body = body };
}

-- The same without a network.
abbrev offline : World
offline = record echo {
  http_post =
      λ url body headers. record { err = codes "http request failed"; status = pos 0; body = [] };
}

abbrev signed : Credential
signed = record {
  app_id = pos 0;
  sdk_app_id = pos 1400000000;
  secret_key = [];
  user_sig = codes "eJw";
  site = codes "cn";
}

abbrev spoken : TranscribeRequest
spoken = record new_request { engine_model_type = codes "16k_zh"; data_text = codes "QUJD" }

abbrev pieces : Task.CreateTranscriptionRequest
pieces = record Task.new_request {
  engine_model_type = codes "16k_zh";
  source_type = pos 0;
  audio_urls =
      record { index = pos 0; url = codes "http://a/0"; label = [] }
      ∷ record { index = pos 1; url = codes "https://a/1"; label = [] }
      ∷ [];
}

validate_create-IsCreatable_example :
    (Task.validate_create format_f pieces ≡ ok tt) ↔ IsCreatable format_f pieces
validate_create-IsCreatable_example = validate_create-IsCreatable format_f pieces

abbrev echoed : Bytes
echoed = codes "1400000000eJw7f3clinuxcppserver2.0.0"

echoes : call_service echo signed [] (codes "/v3/transcribe") [] ≡ gives echoed
unfolding call_service offline_envelope post_flat request_user_sig host_for_site to_string
    sdk_report_params
echoes = refl

call_service-IsSuccess_example :
    (body base text : Bytes) × (offline_envelope echo signed [] ≡ ok body)
    × (resolve_http_endpoint [] (codes "cn") ≡ ok base)
    × (ok body ≡ ok text)
    × IsSuccess echo (answer_to echo base (codes "/v3/transcribe") text) echoed
call_service-IsSuccess_example =
    call_service-IsSuccess echo signed [] (codes "/v3/transcribe") [] echoed echoes

abbrev options : Options
options = new_options (codes "16k_zh")

validate_options-IsAcceptable_example :
    (validate_options format_f options ≡ ok tt) ↔ IsAcceptable format_f options
validate_options-IsAcceptable_example = validate_options-IsAcceptable format_f options

-- Polls without a frame, on a clock that is past the deadline.
ack_from-ends_by_example :
    (m : ℕ) × (a : Ack) × (m ≤ 2)
    × Runs (Waits flags 5000 (λ n. no_frame) (λ n. 6000)) 0 m
    × (round_at flags 5000 (λ n. no_frame) (λ n. 6000) m ≡ some a)
    × (ack_from flags 5000 (λ n. no_frame) (λ n. 6000) 3 0 ≡ some a)
ack_from-ends_by_example =
    ack_from-ends_by flags 5000 2 (λ n. no_frame) (λ n. 6000) refl (omega arith)

abbrev binary : Received
binary = a_frame (record { opcode = 0x2; payload = []; fin = true })

ack_from-never_ends_example : ack_from flags 5000 (λ n. binary) (λ n. 60000) 9 0 ≡ none
ack_from-never_ends_example =
    ack_from-never_ends flags 5000 9 (λ n. binary) (λ n. 60000)
      (λ n. (λ e. absurd (omega (arith, e)), λ e. absurd (omega (arith, e))))

abbrev ready : Bytes → Option Bytes
ready text = none

v3_start-cases_example :
    ((start (prepare format_f echo signed options ready ready (accepted none)) new_client
        ≡ returned (set_state state_running (leave_conn true new_client)))
      × IsAcceptable format_f options
      × ((sc : Option SpeakerContinue) × IsOpened ready ready
            (accepted none)
            false
            (open_with echo signed options)
            sc
          × ((prepare format_f echo signed options ready ready
                (accepted none)
                false).speaker_continue
              ≡ sc)))
    ⊎ ((e : Exception) × ((prepare format_f echo signed options ready ready
            (accepted none)
            false).outcome
          ≡ throw e)
        × (start (prepare format_f echo signed options ready ready (accepted none)) new_client
            ≡ raised e (
                set_state state_idle (
                  leave_conn
                    (prepare format_f echo signed options ready ready (accepted none) false).conn
                    new_client))))
v3_start-cases_example =
    v3_start-cases format_f echo signed options ready ready (accepted none) new_client refl

abbrev silent : Callback → Option Thrown
silent callback = none

abbrev running : RecognizerSharedState
running = record {
  state = 2;
  conn = true;
  done = false;
  terminal_received = false;
  finished = false;
}

abbrev new_reader : Reader
new_reader = record { shared = running; voice_id = codes "v"; speaker_continue = none; log = [] }

abbrev two_frames : List (Interference × Received)
two_frames =
    (nothing, a_frame (record { opcode = 0x1; payload = 0 ∷ 0 ∷ []; fin = true }))
    ∷ (nothing, a_frame (record { opcode = 0x1; payload = 2 ∷ 1 ∷ []; fin = true }))
    ∷ []

rounds-same_example :
    rounds flags silent two_frames new_reader
    ≡ keep_next none (V2.rounds flags silent two_frames new_reader)
rounds-same_example = rounds-same flags silent two_frames new_reader

abbrev old_reader : Reader
old_reader = record new_reader {
  shared = record {
    state = 4;
    conn = false;
    done = true;
    terminal_received = false;
    finished = true;
  };
  log =
      record {
        callback = V2.on_recognition_start (start_response flags silent (codes "v") none);
        observed = 2;
      }
      ∷ [];
}

v3_read_loop-IsOver_example :
    (old_reader.shared.state ≡ state_stopped)
    × (old_reader.shared.conn ≡ false)
    × (old_reader.shared.done ≡ true)
    × IsSessionLog old_reader.log
unfolding read_loop
v3_read_loop-IsOver_example =
    v3_read_loop-IsOver flags silent ((stop_begins, read_failed (codes "closed")) ∷ []) new_reader
      old_reader (λ h. cc) refl refl

-- The echo says nothing of the task's status, which is open throughout.
abbrev task_answer : ℕ → Run (TranscriptionStatus Unit)
task_answer n = describe_task echo signed [] (codes "42")

advances : (i : ℕ) → i + 1 ≤ suc i
advances i = omega arith

v3_wait-Ends_example :
    (m : ℕ) × (r : Run (TranscriptionStatus Unit)) × (m ≤ suc 5)
    × Runs (Continues (codes "42") 5 (0 + 5) task_answer (λ i. i)) 0 m
    × Ends (codes "42") 5 (0 + 5) task_answer (λ i. i) m r
    × (wait_for_result_with_interval (codes "42") 5 0 task_answer (λ i. i) (suc (suc 5)) ≡ some r)
v3_wait-Ends_example =
    v3_wait-Ends (codes "42") 5 0 1 task_answer (λ i. i) (omega arith) (omega arith) advances

abbrev started : Client
started = set_state state_running (leave_conn true (set_state state_starting new_client))
