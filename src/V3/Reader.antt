-- ===== src/V3/Reader.antt =====
-- ReadLoop, ReadLoopInner and DispatchEvent of v3::SpeechRecognizer (src/v3.cc). Callbacks, the reader's
-- state and what Stop does meanwhile are those of the version 2 reader.
pub mod Same
pub mod Over
use trtc_asr_sdk_cpp.Common.{
  ℕ, Bool, true, false, not, ◌&&◌, Option, none, some, List, [], ◌∷◌, ◌++◌, ℤ, pos, codes, leb,
  ◌==◌, ◌==ℤ◌, if◌then◌else◌, Result, ok, throw, asr_error, std_exception, Bytes,
}
use trtc_asr_sdk_cpp.Json.{JsonLibrary}
use trtc_asr_sdk_cpp.Response.{
  SpeechRecognitionResponse, SpeakerContinue, parse_speech_response, empty_result,
}
use trtc_asr_sdk_cpp.Ws.Reader.{WsFrame}
use trtc_asr_sdk_cpp.Recognizer.{finish, state_stopping, state_stopped}
use trtc_asr_sdk_cpp.Recognizer.Reader.{
  Callback, on_recognition_start, on_sentence_begin, on_recognition_result_change, on_sentence_end,
  Thrown, standard, Reader, Received, no_frame, read_failed, a_frame, Interference, interfere,
  on_shared, safe_on_fail, Next, goes_on, returns, throws, read_error, colon_and, call,
  complete_after, end_session, Ending, wind_up,
}

module _ (J : JsonLibrary) (listener : Callback → Option Thrown) where
  unfoldable pub dispatch_event : SpeechRecognitionResponse → Reader → Next
  dispatch_event resp r =
      let slice_type = resp.result.slice_type in
      if (resp.final_flag ==ℤ pos 1) && not (slice_type ==ℤ pos 2)
      then goes_on r
      else if slice_type ==ℤ pos 0
      then call J listener (on_sentence_begin resp) r
      else if slice_type ==ℤ pos 1
      then call J listener (on_recognition_result_change resp) r
      else if slice_type ==ℤ pos 2
      then call J listener (on_sentence_end resp) r
      else goes_on r

  unfoldable pub on_response : SpeechRecognitionResponse → Reader → Next
  unfolding dispatch_event
  on_response resp r =
      if not (resp.code ==ℤ pos 0)
      then returns (safe_on_fail (some resp) (asr_error resp.code resp.message) (end_session r))
      else if resp.final_flag ==ℤ pos 1
      then complete_after resp (dispatch_event resp (end_session r))
      else if not resp.has_result
      then goes_on r
      else dispatch_event resp r

  unfoldable pub on_text : Result SpeechRecognitionResponse → Reader → Next
  unfolding on_response
  on_text (ok resp) r = on_response resp r
  on_text (throw (asr_error code message)) r =
      goes_on (safe_on_fail none (asr_error code message) r)
  on_text (throw (std_exception text)) r = throws (standard (std_exception text)) r

  unfoldable pub on_frame : WsFrame → Reader → Next
  unfolding on_text
  on_frame frame r =
      if frame.opcode == 0x2
      then goes_on (
          safe_on_fail none
            (read_error (codes "unmarshal response failed: unexpected binary frame")) r)
      else if frame.opcode == 0x8
      then (if leb state_stopping r.shared.state
          then returns r
          else returns (
              safe_on_fail none (read_error (codes "connection closed by server"))
                (on_shared finish r)))
      else if not (frame.opcode == 0x1)
      then goes_on r
      else on_text (parse_speech_response J frame.payload) r

  unfoldable pub round : Received → Reader → Next
  unfolding on_frame
  round no_frame r = if r.shared.state == state_stopped then returns r else goes_on r
  round (read_failed text) r =
      if leb state_stopping r.shared.state
      then returns r
      else returns (
          safe_on_fail none (read_error (codes "read message failed" ++ colon_and text))
            (on_shared finish r))
  round (a_frame frame) r = on_frame frame r

  -- The loop on the frames that Read returns, and on what Stop does meanwhile.
  unfoldable pub rounds : List (Interference × Received) → Reader → Next
  unfolding round interfere
  rounds [] r = goes_on r
  rounds ((other, received) ∷ later) r = elim (round received (on_shared (interfere other) r)) [
    | goes_on r' ↦ rounds later r'
    | returns r' ↦ returns r'
    | throws thrown r' ↦ throws thrown r'
  ]

  -- The start response carries the speaker context of the acknowledgement.
  abbrev pub start_response : Bytes → Option SpeakerContinue → SpeechRecognitionResponse
  start_response voice_id speaker_continue = record {
    code = pos 0;
    message = codes "success";
    voice_id = voice_id;
    message_id = [];
    final_flag = pos 0;
    result = empty_result;
    has_result = false;
    speaker_continue = speaker_continue;
  }

  unfoldable pub after_start : List (Interference × Received) → Next → Next
  unfolding rounds
  after_start events (goes_on r) = if not r.shared.conn then returns r else rounds events r
  after_start events (returns r) = returns r
  after_start events (throws thrown r) = throws thrown r

  unfoldable pub read_loop_inner : List (Interference × Received) → Reader → Next
  unfolding after_start
  read_loop_inner events r =
      after_start events
        (call J listener (on_recognition_start (start_response r.voice_id r.speaker_continue)) r)

  unfoldable pub read_loop : List (Interference × Received) → Reader → Ending
  unfolding wind_up read_loop_inner
  read_loop events r = wind_up (read_loop_inner events r)
