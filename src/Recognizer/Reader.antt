-- ===== src/Recognizer/Reader.antt =====
-- ReadLoop, ReadLoopInner and DispatchEvent (src/speech_recognizer.cc), with the listener's callbacks.
pub mod Finishing
pub mod Session
pub mod Callbacks
pub mod Delivery
use trtc_asr_sdk_cpp.Common.{
  ℕ, ◌≡◌, Bool, true, false, not, ◌&&◌, Option, none, some, List, [], ◌∷◌, ◌++◌, ℤ, pos, Bytes,
  codes, is_empty, leb, ◌==◌, ◌==ℤ◌, if◌then◌else◌, Result, ok, throw, Exception, asr_error,
  std_exception, what, err_read_failed,
}
use trtc_asr_sdk_cpp.Json.{JsonLibrary}
use trtc_asr_sdk_cpp.Response.{
  SpeechRecognitionResponse, SpeakerContinue, parse_speech_response, empty_result,
}
use trtc_asr_sdk_cpp.Ws.Reader.{WsFrame}
use trtc_asr_sdk_cpp.Recognizer.{
  RecognizerSharedState, finish, mark_terminal_received, signal_done, state_running, state_stopping,
  state_stopped,
}

pub data Callback : Type 0 where
  on_recognition_start : SpeechRecognitionResponse → Callback
  on_sentence_begin : SpeechRecognitionResponse → Callback
  on_recognition_result_change : SpeechRecognitionResponse → Callback
  on_sentence_end : SpeechRecognitionResponse → Callback
  on_recognition_complete : SpeechRecognitionResponse → Callback
  on_fail : Option SpeechRecognitionResponse → Exception → Callback

-- What a callback throws: a `std::exception`, or anything else.
pub data Thrown : Type 0 where
  standard : Exception → Thrown
  foreign : Thrown

-- A callback, and the state that a Stop or Write inside it observes.
pub record Entry : Type 0 where
  pub callback : Callback
  pub observed : ℕ

pub record Reader : Type 0 where
  pub shared : RecognizerSharedState
  pub voice_id : Bytes
  pub speaker_continue : Option SpeakerContinue
  pub log : List Entry

-- What Read returns: 0, -1 with a text, 1 with a frame.
pub data Received : Type 0 where
  no_frame : Received
  read_failed : Bytes → Received
  a_frame : WsFrame → Received

-- What Stop does to the state in another thread, or inside a callback, between two rounds.
pub data Interference : Type 0 where
  nothing stop_begins stop_ends : Interference

unfoldable pub interfere : Interference → RecognizerSharedState → RecognizerSharedState
interfere nothing s = s
interfere stop_begins s =
    if s.state == state_running then record s { state = state_stopping } else s
interfere stop_ends s = record s { state = state_stopped }

abbrev pub on_shared : (RecognizerSharedState → RecognizerSharedState) → Reader → Reader
on_shared f r = record r { shared = f r.shared }

abbrev pub record_call : Callback → Reader → Reader
record_call callback r = record r {
  log = r.log ++ (record { callback = callback; observed = r.shared.state } ∷ []);
}

-- SafeOnFail and SafeComplete swallow what the callback throws.
abbrev pub safe_on_fail : Option SpeechRecognitionResponse → Exception → Reader → Reader
safe_on_fail resp err r = record_call (on_fail resp err) r

abbrev pub safe_complete : SpeechRecognitionResponse → Reader → Reader
safe_complete resp r = record_call (on_recognition_complete resp) r

-- How a step of the loop goes on.
pub data Next : Type 0 where
  goes_on : Reader → Next
  returns : Reader → Next
  throws : Thrown → Reader → Next

abbrev pub read_error : Bytes → Exception
read_error text = asr_error err_read_failed text

abbrev pub colon_and : Bytes → Bytes
colon_and text = if is_empty text then [] else codes ": " ++ text

abbrev pub panic : Thrown → Exception
panic (standard e) = read_error (codes "recovered from panic in read loop: " ++ what e)
panic foreign = read_error (codes "recovered from panic in read loop: unknown exception")

-- The loop has not returned yet, or the reader thread has ended.
pub data Ending : Type 0 where
  waits : Reader → Ending
  ended : Reader → Ending

abbrev pub thread_ends : Reader → Ending
thread_ends r = ended (on_shared (λ s. signal_done (finish s)) r)

unfoldable pub wind_up : Next → Ending
wind_up (goes_on r) = waits r
wind_up (returns r) = thread_ends r
wind_up (throws thrown r) = thread_ends (safe_on_fail none (panic thrown) (on_shared finish r))

-- SafeComplete, and the return, behind the dispatch of the final response.
unfoldable pub complete_after : SpeechRecognitionResponse → Next → Next
complete_after resp (goes_on r) = returns (safe_complete resp r)
complete_after resp (returns r) = returns r
complete_after resp (throws thrown r) = throws thrown r

abbrev pub store_continue : SpeechRecognitionResponse → Reader → Reader
store_continue resp r = elim resp.speaker_continue [
  | none ↦ r
  | some continue ↦ record r { speaker_continue = some continue }
]

abbrev pub end_session : Reader → Reader
end_session r = on_shared (λ s. mark_terminal_received (finish s)) r

module _ (J : JsonLibrary) (listener : Callback → Option Thrown) where
  -- An unshielded callback.
  abbrev pub call : Callback → Reader → Next
  call callback r = elim (listener callback) [
    | none ↦ goes_on (record_call callback r)
    | some thrown ↦ throws thrown (record_call callback r)
  ]

  unfoldable pub dispatch_event : SpeechRecognitionResponse → Reader → Next
  dispatch_event resp r =
      let slice_type = resp.result.slice_type in
      if (resp.final_flag ==ℤ pos 1) && not (slice_type ==ℤ pos 2)
      then goes_on r
      else if slice_type ==ℤ pos 0
      then call (on_sentence_begin resp) r
      else if slice_type ==ℤ pos 1
      then call (on_recognition_result_change resp) r
      else if slice_type ==ℤ pos 2
      then call (on_sentence_end resp) r
      else goes_on r

  unfoldable pub on_response : SpeechRecognitionResponse → Reader → Next
  unfolding dispatch_event complete_after
  on_response resp r =
      let r' = store_continue resp r in
      if not (resp.code ==ℤ pos 0)
      then returns (safe_on_fail (some resp) (asr_error resp.code resp.message) (end_session r'))
      else if resp.final_flag ==ℤ pos 1
      then complete_after resp (dispatch_event resp (end_session r'))
      else if not resp.has_result
      then goes_on r'
      else dispatch_event resp r'

  unfoldable pub on_text : Result SpeechRecognitionResponse → Reader → Next
  unfolding on_response
  on_text (ok resp) r = on_response resp r
  on_text (throw (asr_error code message)) r =
      goes_on (safe_on_fail none (asr_error code message) r)
  on_text (throw (std_exception text)) r = throws (standard (std_exception text)) r

  unfoldable pub on_frame : WsFrame → Reader → Next
  unfolding on_text
  on_frame frame r =
      if frame.opcode == 0x2
      then goes_on (
          safe_on_fail none
            (read_error (codes "unmarshal response failed: unexpected binary frame")) r)
      else if frame.opcode == 0x8
      then (if leb state_stopping r.shared.state
          then returns r
          else returns (
              safe_on_fail none (read_error (codes "connection closed by server"))
                (on_shared finish r)))
      else if not (frame.opcode == 0x1)
      then goes_on r
      else on_text (parse_speech_response J frame.payload) r

  unfoldable pub round : Received → Reader → Next
  unfolding on_frame
  round no_frame r = if r.shared.state == state_stopped then returns r else goes_on r
  round (read_failed text) r =
      if leb state_stopping r.shared.state
      then returns r
      else returns (
          safe_on_fail none (read_error (codes "read message failed" ++ colon_and text))
            (on_shared finish r))
  round (a_frame frame) r = on_frame frame r

  -- The loop on the frames that Read returns, and on what Stop does meanwhile. `goes_on` at the end: the
  -- loop waits for the next frame still.
  unfoldable pub rounds : List (Interference × Received) → Reader → Next
  unfolding round interfere
  rounds [] r = goes_on r
  rounds ((other, received) ∷ later) r = elim (round received (on_shared (interfere other) r)) [
    | goes_on r' ↦ rounds later r'
    | returns r' ↦ returns r'
    | throws thrown r' ↦ throws thrown r'
  ]

  abbrev pub start_response : Bytes → SpeechRecognitionResponse
  start_response voice_id = record {
    code = pos 0;
    message = codes "success";
    voice_id = voice_id;
    message_id = [];
    final_flag = pos 0;
    result = empty_result;
    has_result = false;
    speaker_continue = none;
  }

  -- Behind OnRecognitionStart.
  unfoldable pub after_start : List (Interference × Received) → Next → Next
  unfolding rounds
  after_start events (goes_on r) = if not r.shared.conn then returns r else rounds events r
  after_start events (returns r) = returns r
  after_start events (throws thrown r) = throws thrown r

  unfoldable pub read_loop_inner : List (Interference × Received) → Reader → Next
  unfolding after_start
  read_loop_inner events r =
      after_start events (call (on_recognition_start (start_response r.voice_id)) r)

  unfoldable pub read_loop : List (Interference × Received) → Reader → Ending
  unfolding wind_up read_loop_inner
  read_loop events r = wind_up (read_loop_inner events r)
