-- ===== src/Recognizer/Tests.antt =====
-- Sessions at concrete events (src/speech_recognizer.cc).
use mathlib.Core.List.{map}
use trtc_asr_sdk_cpp.Common.{
  ◌≡◌, refl, true, false, Option, none, some, List, [], ◌∷◌, ◌++◌, ℤ, pos, negsuc, Bytes, codes,
  bytes_eq, ok, ◌≤ℤ◌, arith,
}
use trtc_asr_sdk_cpp.Response.Tests.{flags}
use trtc_asr_sdk_cpp.Response.{SpeechRecognitionResponse, empty_result, parse_speech_response}
use trtc_asr_sdk_cpp.Ws.Reader.{WsFrame}
use trtc_asr_sdk_cpp.Recognizer.{RecognizerSharedState, state_running, state_stopped}
use trtc_asr_sdk_cpp.Recognizer.Reader.{
  Callback, on_recognition_start, Thrown, Reader, a_frame, read_failed, nothing, stop_begins,
  read_loop, ended, start_response,
}
use trtc_asr_sdk_cpp.Recognizer.Reader.Finishing.{IsSessionLog}
use trtc_asr_sdk_cpp.Recognizer.Reader.Session.{read_loop-IsOver}
use trtc_asr_sdk_cpp.Recognizer.Reader.Callbacks.{entry, all_callbacks, frames_of, final_callbacks}
use trtc_asr_sdk_cpp.Recognizer.Reader.Delivery.{received, read_loop-delivers}
use trtc_asr_sdk_cpp.Recognizer.Lifecycle.Order.{IsStream, Reachable-IsStream}
use trtc_asr_sdk_cpp.Recognizer.Lifecycle.Calls.{stop-is_final}
use trtc_asr_sdk_cpp.Recognizer.Options.Bounds.{set_timeouts-bounds}
use trtc_asr_sdk_cpp.Recognizer.Options.{new_options, set_write_timeout, set_stop_timeout}
use trtc_asr_sdk_cpp.Recognizer.Lifecycle.{
  Client, new_client, set_state, set_conn, lock_for_audio, send_audio, begin_stop, lock_for_end,
  send_end, end_signal, Step, Reachable, at_first, then_step, start_begins, start_ends,
  audio_begins, audio_ends, end_begins, end_ends, start, write, stop, bytes, raised,
  already_started, not_running,
}

abbrev silent : Callback → Option Thrown
silent callback = none

abbrev running : RecognizerSharedState
running = record {
  state = 2;
  conn = true;
  done = false;
  terminal_received = false;
  finished = false;
}

abbrev stopped : RecognizerSharedState
stopped = record {
  state = 4;
  conn = false;
  done = true;
  terminal_received = false;
  finished = true;
}

abbrev new_reader : Reader
new_reader = record { shared = running; voice_id = codes "v"; speaker_continue = none; log = [] }

abbrev first_call : Callback
first_call = on_recognition_start (start_response flags silent (codes "v"))

abbrev old_reader : Reader
old_reader = record new_reader { shared = stopped; log = entry 2 first_call ∷ [] }

read_loop-IsOver_example :
    (old_reader.shared.state ≡ state_stopped)
    × (old_reader.shared.conn ≡ false)
    × (old_reader.shared.done ≡ true)
    × IsSessionLog old_reader.log
unfolding read_loop
read_loop-IsOver_example =
    read_loop-IsOver flags silent ((stop_begins, read_failed (codes "closed")) ∷ []) new_reader
      old_reader (λ h. cc) refl refl

abbrev response : ℤ → ℤ → SpeechRecognitionResponse
response slice_type final_flag = record {
  code = pos 0;
  message = [];
  voice_id = [];
  message_id = [];
  final_flag = final_flag;
  result = record empty_result { slice_type = slice_type };
  has_result = true;
  speaker_continue = none;
}

abbrev text_frame : Bytes → WsFrame
text_frame payload = record { opcode = 0x1; payload = payload; fin = true }

abbrev begin_polls : List (Option (WsFrame × SpeechRecognitionResponse))
begin_polls = none ∷ some (text_frame (0 ∷ 0 ∷ []), response (pos 0) (pos 0)) ∷ none ∷ []

read_loop-delivers_example :
    (r' : Reader) × (read_loop flags silent
        (map (received flags silent (λ c. refl)) begin_polls
          ++ ((nothing, a_frame (text_frame (2 ∷ 1 ∷ []))) ∷ []))
        new_reader
      ≡ ended r')
    × (r'.log
        ≡ map (entry state_running) (first_call ∷ all_callbacks (frames_of begin_polls))
          ++ map (entry state_stopped) (final_callbacks (response (pos 2) (pos 1))))
unfolding parse_speech_response bytes_eq
read_loop-delivers_example =
    read_loop-delivers flags silent (λ c. refl) begin_polls (text_frame (2 ∷ 1 ∷ []))
      (response (pos 2) (pos 1)) [] new_reader refl refl refl refl
      (((refl, refl), (refl, refl)), tt) (refl, refl) (refl, refl)

abbrev started : Client
started = set_state state_running (set_conn (set_state 1 new_client))

started-Reachable : Reachable started
started-Reachable =
    then_step _ _ (then_step _ _ at_first (start_begins new_client refl))
      (start_ends (set_state 1 new_client) refl)

abbrev spoken : Client
spoken = send_audio (codes "pcm") (lock_for_audio (codes "pcm") started)

spoken-Reachable : Reachable spoken
spoken-Reachable =
    then_step _ _ (then_step _ _ started-Reachable (audio_begins started (codes "pcm") refl refl))
      (audio_ends (lock_for_audio (codes "pcm") started) (codes "pcm") refl)

abbrev closing : Client
closing = send_end (lock_for_end (begin_stop spoken))

closing-Reachable : Reachable closing
closing-Reachable =
    then_step _ _
      (then_step _ _ (then_step _ _ spoken-Reachable (Step.stop_begins spoken refl))
        (end_begins (begin_stop spoken) refl refl (λ h. absurd (omega (arith, h)))))
      (end_ends (lock_for_end (begin_stop spoken)) refl refl)

Reachable-IsStream_example : IsStream closing.frames
Reachable-IsStream_example = Reachable-IsStream closing closing-Reachable

stop-is_final_example :
    ((stop none false true started).outcome ≡ ok tt)
    × ((stop none false true started).client.shared.state ≡ state_stopped)
    × ((stop none false true started).client.frames ≡ started.frames ++ (end_signal ∷ []))
    × ((start (ok tt) (stop none false true started).client
          ≡ raised already_started (stop none false true started).client)
        × (write none (bytes (codes "pcm")) (stop none false true started).client
            ≡ raised not_running (stop none false true started).client)
        × (stop none true false (stop none false true started).client
            ≡ raised not_running (stop none false true started).client))
stop-is_final_example = stop-is_final started true (ok tt) none (codes "pcm") true false refl refl

set_timeouts-bounds_example :
    (pos 50 ≤ℤ (set_write_timeout (negsuc 0) (new_options (codes "16k_zh"))).write_timeout)
    × ((set_write_timeout (negsuc 0) (new_options (codes "16k_zh"))).write_timeout ≤ℤ pos 30000)
    × (pos 1000 ≤ℤ (set_stop_timeout (negsuc 0) (new_options (codes "16k_zh"))).stop_timeout)
    × ((set_stop_timeout (negsuc 0) (new_options (codes "16k_zh"))).stop_timeout ≤ℤ pos 60000)
set_timeouts-bounds_example = set_timeouts-bounds (negsuc 0) (new_options (codes "16k_zh"))
