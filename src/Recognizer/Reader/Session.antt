-- ===== src/Recognizer/Reader/Session.antt =====
-- The life of a session as the reader thread drives it (src/speech_recognizer.cc).
use trtc_asr_sdk_cpp.Common.{
  ℕ, ◌≡◌, refl, subst, inl, inr, Bool, true, false, not, Option-cases, ◌&&◌, Option, none, some,
  List, [], ◌∷◌, ◌++◌, pos, codes, leb, ◌==◌, ◌==ℤ◌, if◌then◌else◌, if-both, Result, ok, throw,
  asr_error, std_exception,
}
use trtc_asr_sdk_cpp.Json.{JsonLibrary}
use trtc_asr_sdk_cpp.Response.{SpeechRecognitionResponse, parse_speech_response}
use trtc_asr_sdk_cpp.Ws.Reader.{WsFrame}
use trtc_asr_sdk_cpp.Recognizer.{IsFinishedOnce, finish, state_stopping, state_stopped}
use trtc_asr_sdk_cpp.Recognizer.Reader.{
  Callback, on_recognition_start, on_sentence_begin, on_recognition_result_change, on_sentence_end,
  on_fail, Thrown, Reader, Received, no_frame, read_failed, a_frame, Interference, interfere,
  on_shared, safe_on_fail, Next, goes_on, returns, throws, call, dispatch_event, complete_after,
  store_continue, end_session, on_response, on_text, on_frame, round, rounds, after_start,
  read_loop_inner, ended, read_loop, start_response, read_error, colon_and,
}
use trtc_asr_sdk_cpp.Recognizer.Reader.Finishing.{
  completes, IsOpen, IsSessionLog, IsGoing, Holds, interfere-IsFinishedOnce, Keeps, Unreturned,
  Unreturned-Holds, IsGoing-Keeps, IsGoingStopped, IsGoingStopped-Keeps, end_session-IsGoingStopped,
  complete_after-Holds, going-IsReturned, store_continue-IsGoing, failed_session, next-Holds,
  IsOverAt, wind_up-IsOverAt,
}

module _ (J : JsonLibrary) (listener : Callback → Option Thrown) where
  pub call-Unreturned :
      (Q : Reader → Type 0)
      → Keeps Q
      → (callback : Callback) (r : Reader) → completes callback ≡ false
      → Q r
      → Unreturned Q (call J listener callback r)
  call-Unreturned Q keeps callback r h q = elim (Option-cases (listener callback)) [
    | inl quiet ↦ rw (quiet, Unreturned) (keeps callback r h q)
    | inr (thrown, e) ↦ rw (e, Unreturned) (keeps callback r h q)
  ]

  dispatch_event-Unreturned :
      (Q : Reader → Type 0)
      → Keeps Q
      → (resp : SpeechRecognitionResponse) (r : Reader) → Q r
      → Unreturned Q (dispatch_event J listener resp r)
  unfolding dispatch_event
  dispatch_event-Unreturned Q keeps resp r q =
      let P = Unreturned Q in
      let slice_is : ℕ → Bool = λ n. resp.result.slice_type ==ℤ pos n in
      let end_next : Next = call J listener (on_sentence_end resp) r in
      let change_next : Next = call J listener (on_recognition_result_change resp) r in
      let begin_next : Next = call J listener (on_sentence_begin resp) r in
      let from_2 : Next = if slice_is 2 then end_next else goes_on r in
      let from_1 : Next = if slice_is 1 then change_next else from_2 in
      let from_0 : Next = if slice_is 0 then begin_next else from_1 in
      let h_2 : P from_2 =
        if-both P (slice_is 2) end_next (goes_on r)
          (call-Unreturned Q keeps (on_sentence_end resp) r refl q) q in
      let h_1 : P from_1 =
        if-both P (slice_is 1) change_next from_2
          (call-Unreturned Q keeps (on_recognition_result_change resp) r refl q) h_2 in
      let h_0 : P from_0 =
        if-both P (slice_is 0) begin_next from_1
          (call-Unreturned Q keeps (on_sentence_begin resp) r refl q) h_1 in
      if-both P ((resp.final_flag ==ℤ pos 1) && not (slice_is 2)) (goes_on r) from_0 q h_0

  on_response-Holds :
      (resp : SpeechRecognitionResponse) (r : Reader)
      → IsGoing r
      → Holds (on_response J listener resp r)
  unfolding on_response
  on_response-Holds resp r g =
      let r' = store_continue resp r in
      let g' = store_continue-IsGoing resp r g in
      let over : Reader = end_session r' in
      let stopped = end_session-IsGoingStopped r' g' in
      let err = asr_error resp.code resp.message in
      let failed : Next = returns (safe_on_fail (some resp) err over) in
      let completed : Next = complete_after resp (dispatch_event J listener resp over) in
      let dispatched : Next = dispatch_event J listener resp r' in
      let inner : Next = if not resp.has_result then goes_on r' else dispatched in
      let h_inner : Holds inner = if-both Holds (not resp.has_result) (goes_on r') dispatched g' (
        Unreturned-Holds dispatched (dispatch_event-Unreturned IsGoing IsGoing-Keeps resp r' g')) in
      let h_completed : Holds completed =
        complete_after-Holds resp (dispatch_event J listener resp over)
          (dispatch_event-Unreturned IsGoingStopped IsGoingStopped-Keeps resp over stopped) in
      if-both Holds (not (resp.code ==ℤ pos 0)) failed
        (if resp.final_flag ==ℤ pos 1 then completed else inner)
        (going-IsReturned (safe_on_fail (some resp) err over)
          (IsGoing-Keeps (on_fail (some resp) err) over refl stopped.0))
        (if-both Holds (resp.final_flag ==ℤ pos 1) completed inner h_completed h_inner)

  on_text-Holds :
      (m : Result SpeechRecognitionResponse) (r : Reader)
      → IsGoing r
      → Holds (on_text J listener m r)
  unfolding on_text
  on_text-Holds (ok resp) r g = on_response-Holds resp r g
  on_text-Holds (throw (asr_error code message)) r g =
      IsGoing-Keeps (on_fail none (asr_error code message)) r refl g
  on_text-Holds (throw (std_exception text)) r g = g

  on_frame-Holds : (frame : WsFrame) (r : Reader) → IsGoing r → Holds (on_frame J listener frame r)
  unfolding on_frame
  on_frame-Holds frame r g =
      let binary : Next = goes_on (
        safe_on_fail none (read_error (codes "unmarshal response failed: unexpected binary frame"))
          r) in
      let gone : Next = returns (
        safe_on_fail none (read_error (codes "connection closed by server"))
          (on_shared finish r)) in
      let closed : Next = if leb state_stopping r.shared.state then returns r else gone in
      let parsed : Next = on_text J listener (parse_speech_response J frame.payload) r in
      let other : Next = if not (frame.opcode == 0x1) then goes_on r else parsed in
      let h_other : Holds other =
        if-both Holds (not (frame.opcode == 0x1)) (goes_on r) parsed g
          (on_text-Holds (parse_speech_response J frame.payload) r g) in
      let h_closed : Holds closed =
        if-both Holds (leb state_stopping r.shared.state) (returns r) gone (going-IsReturned r g)
          (failed_session none (read_error (codes "connection closed by server")) r g) in
      if-both Holds (frame.opcode == 0x2) binary (if frame.opcode == 0x8 then closed else other)
        (IsGoing-Keeps
          (on_fail none (read_error (codes "unmarshal response failed: unexpected binary frame"))) r
          refl g)
        (if-both Holds (frame.opcode == 0x8) closed other h_closed h_other)

  round-Holds : (received : Received) (r : Reader) → IsGoing r → Holds (round J listener received r)
  unfolding round
  round-Holds no_frame r g =
      if-both Holds (r.shared.state == state_stopped) (returns r) (goes_on r) (going-IsReturned r g)
        g
  round-Holds (read_failed text) r g =
      let err = read_error (codes "read message failed" ++ colon_and text) in
      if-both Holds (leb state_stopping r.shared.state) (returns r)
        (returns (safe_on_fail none err (on_shared finish r))) (going-IsReturned r g)
        (failed_session none err r g)
  round-Holds (a_frame frame) r g = on_frame-Holds frame r g

  pub rounds-Holds :
      (events : List (Interference × Received)) (r : Reader)
      → IsGoing r
      → Holds (rounds J listener events r)
  unfolding rounds
  rounds-Holds [] r g = g
  rounds-Holds ((other, received) ∷ later) r (f, open_log) =
      let r' = on_shared (interfere other) r in
      let h = round-Holds received r' (interfere-IsFinishedOnce other r.shared f, open_log) in
      next-Holds (λ r''. rounds J listener later r'') (λ r'' g. rounds-Holds later r'' g)
        (round J listener received r') h

  after_start-Holds :
      (events : List (Interference × Received)) (n : Next)
      → Holds n
      → Holds (after_start J listener events n)
  unfolding after_start
  after_start-Holds events (goes_on r) g =
      if-both Holds (not r.shared.conn) (returns r) (rounds J listener events r)
        (going-IsReturned r g) (rounds-Holds events r g)
  after_start-Holds events (returns r) g = g
  after_start-Holds events (throws thrown r) g = g

  read_loop_inner-Holds :
      (events : List (Interference × Received)) (r : Reader)
      → IsGoing r
      → Holds (read_loop_inner J listener events r)
  unfolding read_loop_inner
  read_loop_inner-Holds events r g =
      let first = on_recognition_start (start_response J listener r.voice_id) in
      after_start-Holds events (call J listener first r) (
        Unreturned-Holds (call J listener first r)
          (call-Unreturned IsGoing IsGoing-Keeps first r refl g))

  -- When ReadLoop has ended, however the listener behaved and whatever Stop did meanwhile, the state is
  -- stopped, the connection is gone, waiters are released, and OnRecognitionComplete was called at most
  -- once: as the last callback, in the stopped state.
  pub read_loop-IsOver :
      (events : List (Interference × Received)) (r r' : Reader)
      → IsFinishedOnce r.shared
      → r.log ≡ []
      → read_loop J listener events r ≡ ended r'
      → (r'.shared.state ≡ state_stopped)
        × (r'.shared.conn ≡ false)
        × (r'.shared.done ≡ true)
        × IsSessionLog r'.log
  unfolding read_loop
  read_loop-IsOver events r r' f e h =
      let inner = read_loop_inner J listener events r in
      let open_log : IsOpen r.log = rw e tt in
      subst IsOverAt h (wind_up-IsOverAt inner (read_loop_inner-Holds events r (f, open_log)))
