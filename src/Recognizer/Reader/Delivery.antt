-- ===== src/Recognizer/Reader/Delivery.antt =====
-- What reaches a listener in a session without failures (src/speech_recognizer.cc).
use mathlib.Core.List.{map}
use trtc_asr_sdk_cpp.Common.{
  ℕ, ◌≡◌, refl, sym, ap, ◌∙◌, inl, inr, true, false, not, Bool-cases, Option, none, some, List, [],
  ◌∷◌, ◌++◌, pos, ◌==ℤ◌, ==ℤ_iff, ◌==◌, if◌then◌else◌, if-true, if-false, asr_error, ok, All,
}
use trtc_asr_sdk_cpp.Json.{JsonLibrary}
use trtc_asr_sdk_cpp.Response.{SpeechRecognitionResponse, parse_speech_response}
use trtc_asr_sdk_cpp.Ws.Reader.{WsFrame}
use trtc_asr_sdk_cpp.Recognizer.{
  RecognizerSharedState, finish, signal_done, state_running, state_stopped,
}
use trtc_asr_sdk_cpp.Recognizer.Reader.{
  Callback, on_recognition_start, on_sentence_begin, on_recognition_result_change, on_sentence_end,
  on_recognition_complete, Thrown, Entry, Reader, Received, no_frame, a_frame, Interference,
  nothing, interfere, on_shared, record_call, safe_on_fail, Next, goes_on, returns, call,
  dispatch_event, complete_after, store_continue, end_session, on_response, on_text, on_frame,
  round, rounds, after_start, read_loop_inner, ended, wind_up, read_loop, start_response,
}
use trtc_asr_sdk_cpp.Recognizer.Reader.Callbacks.{
  entry, slice_callbacks, callbacks_of, final_callbacks, record_all, record_all-log,
  store_continue-shared, finish_fresh, all_callbacks, frames_of, after_frames, after_frames-shared,
  after_frames-log,
}

module _ (J : JsonLibrary) (listener : Callback → Option Thrown)
    (quiet : (c : Callback) → listener c ≡ none) where
  call-quiet : (c : Callback) (r : Reader) → call J listener c r ≡ goes_on (record_call c r)
  call-quiet c r = rw (quiet c, call)

  -- A response in the course of the session.
  abbrev pub IsOrdinary : SpeechRecognitionResponse → Type 0
  IsOrdinary resp = (resp.code ≡ pos 0) × ((resp.final_flag ==ℤ pos 1) ≡ false)

  abbrev pub IsFinal : SpeechRecognitionResponse → Type 0
  IsFinal resp = (resp.code ≡ pos 0) × (resp.final_flag ≡ pos 1)

  dispatch-ordinary :
      (resp : SpeechRecognitionResponse) (r : Reader)
      → (resp.final_flag ==ℤ pos 1) ≡ false
      → dispatch_event J listener resp r ≡ goes_on (record_all (slice_callbacks resp) r)
  unfolding dispatch_event
  dispatch-ordinary resp r h = elim (Bool-cases (resp.result.slice_type ==ℤ pos 0)) [
    | inl e0 ↦ rw (h, e0) (call-quiet (on_sentence_begin resp) r)
    | inr n0 ↦ elim (Bool-cases (resp.result.slice_type ==ℤ pos 1)) [
      | inl e1 ↦ rw (h, n0, e1) (call-quiet (on_recognition_result_change resp) r)
      | inr n1 ↦ elim (Bool-cases (resp.result.slice_type ==ℤ pos 2)) [
        | inl e2 ↦ rw (h, n0, n1, e2) (call-quiet (on_sentence_end resp) r)
        | inr n2 ↦ rw (h, n0, n1, n2)
      ]
    ]
  ]

  on_response-ordinary :
      (resp : SpeechRecognitionResponse) (r : Reader)
      → IsOrdinary resp
      → on_response J listener resp r
        ≡ goes_on (record_all (callbacks_of resp) (store_continue resp r))
  unfolding on_response
  on_response-ordinary resp r (c, f) =
      let r' = store_continue resp r in
      let z : (resp.code ==ℤ pos 0) ≡ true = (==ℤ_iff resp.code (pos 0)).1 c in
      let err = asr_error resp.code resp.message in
      let failed : Next = returns (safe_on_fail (some resp) err (end_session r')) in
      let completed : Next =
        complete_after resp (dispatch_event J listener resp (end_session r')) in
      let dispatched : Next = dispatch_event J listener resp r' in
      let inner : Next = if not resp.has_result then goes_on r' else dispatched in
      if-false (not (resp.code ==ℤ pos 0)) failed
        (if resp.final_flag ==ℤ pos 1 then completed else inner) (ap not z)
      ∙ if-false (resp.final_flag ==ℤ pos 1) completed inner f
      ∙ elim (Bool-cases resp.has_result) [
        | inl shown ↦
            if-false (not resp.has_result) (goes_on r') dispatched (ap not shown)
            ∙ dispatch-ordinary resp r' f
            ∙ ap (λ (cs : List Callback). goes_on (record_all cs r'))
                (sym (if-true resp.has_result (slice_callbacks resp) [] shown))
        | inr gone ↦
            if-true (not resp.has_result) (goes_on r') dispatched (ap not gone)
            ∙ ap (λ (cs : List Callback). goes_on (record_all cs r'))
                (sym (if-false resp.has_result (slice_callbacks resp) [] gone))
      ]

  final-end :
      (resp : SpeechRecognitionResponse) (r : Reader)
      → (resp.final_flag ==ℤ pos 1) ≡ true
      → (resp.result.slice_type ==ℤ pos 2) ≡ true
      → dispatch_event J listener resp r ≡ goes_on (record_call (on_sentence_end resp) r)
  unfolding dispatch_event
  final-end resp r f e =
      let two : resp.result.slice_type ≡ pos 2 = (==ℤ_iff resp.result.slice_type (pos 2)).0 e in
      let not_0 : (resp.result.slice_type ==ℤ pos 0) ≡ false = rw two refl in
      let not_1 : (resp.result.slice_type ==ℤ pos 1) ≡ false = rw two refl in
      rw (f, e, not_0, not_1) (call-quiet (on_sentence_end resp) r)

  final-quiet :
      (resp : SpeechRecognitionResponse) (r : Reader)
      → (resp.final_flag ==ℤ pos 1) ≡ true
      → (resp.result.slice_type ==ℤ pos 2) ≡ false
      → dispatch_event J listener resp r ≡ goes_on r
  unfolding dispatch_event
  final-quiet resp r f n = rw (f, n)

  on_response-final :
      (resp : SpeechRecognitionResponse) (r : Reader)
      → IsFinal resp
      → on_response J listener resp r
        ≡ returns (record_all (final_callbacks resp) (end_session (store_continue resp r)))
  unfolding on_response complete_after
  on_response-final resp r (c, f) =
      let r' = store_continue resp r in
      let over = end_session r' in
      let z : (resp.code ==ℤ pos 0) ≡ true = (==ℤ_iff resp.code (pos 0)).1 c in
      let o : (resp.final_flag ==ℤ pos 1) ≡ true = (==ℤ_iff resp.final_flag (pos 1)).1 f in
      let err = asr_error resp.code resp.message in
      let failed : Next = returns (safe_on_fail (some resp) err over) in
      let completed : Next = complete_after resp (dispatch_event J listener resp over) in
      let inner : Next =
        if not resp.has_result then goes_on r' else dispatch_event J listener resp r' in
      let ends_sentence = resp.result.slice_type ==ℤ pos 2 in
      let behind : List Callback → Next =
        λ cs. returns (record_all (cs ++ (on_recognition_complete resp ∷ [])) over) in
      if-false (not (resp.code ==ℤ pos 0)) failed
        (if resp.final_flag ==ℤ pos 1 then completed else inner) (ap not z)
      ∙ if-true (resp.final_flag ==ℤ pos 1) completed inner o
      ∙ elim (Bool-cases ends_sentence) [
        | inl two ↦
            ap (complete_after resp) (final-end resp over o two)
            ∙ ap behind (sym (if-true ends_sentence (on_sentence_end resp ∷ []) [] two))
        | inr other ↦
            ap (complete_after resp) (final-quiet resp over o other)
            ∙ ap behind (sym (if-false ends_sentence (on_sentence_end resp ∷ []) [] other))
      ]

  -- A text frame that carries the response.
  abbrev pub Carries : WsFrame → SpeechRecognitionResponse → Type 0
  Carries frame resp = (frame.opcode ≡ 0x1) × (parse_speech_response J frame.payload ≡ ok resp)

  round-text :
      (frame : WsFrame) (resp : SpeechRecognitionResponse) (r : Reader)
      → Carries frame resp
      → round J listener (a_frame frame) r ≡ on_response J listener resp r
  unfolding round on_frame on_text
  round-text frame resp r (text, parsed) = rw text (rw parsed)

  abbrev pub IsOrdinaryFrame : WsFrame × SpeechRecognitionResponse → Type 0
  IsOrdinaryFrame (frame, resp) = Carries frame resp × IsOrdinary resp

  -- What Read returns while the server sends: a frame, or 0 on an idle poll, with no Stop between.
  abbrev pub received : Option (WsFrame × SpeechRecognitionResponse) → Interference × Received
  received none = (nothing, no_frame)
  received (some (frame, resp)) = (nothing, a_frame frame)

  rounds-ordinary :
      (polls : List (Option (WsFrame × SpeechRecognitionResponse)))
      (later : List (Interference × Received)) (r : Reader)
      → r.shared.state ≡ state_running
      → All IsOrdinaryFrame (frames_of polls)
      → rounds J listener (map received polls ++ later) r
        ≡ rounds J listener later (after_frames (frames_of polls) r)
  unfolding rounds interfere round
  rounds-ordinary [] later r running h = refl
  rounds-ordinary (none ∷ polls) later r running h =
      let going : (r.shared.state == state_stopped) ≡ false = rw running refl in
      rw (going, rounds) (rounds-ordinary polls later r running h)
  rounds-ordinary (some (frame, resp) ∷ polls) later r running ((carries, ordinary), hs) =
      let next = record_all (callbacks_of resp) (store_continue resp r) in
      let same : next.shared ≡ r.shared = after_frames-shared ((frame, resp) ∷ []) r in
      rw (round-text frame resp r carries ∙ on_response-ordinary resp r ordinary, rounds)
        (rounds-ordinary polls later next
          (ap (λ (s : RecognizerSharedState). s.state) same ∙ running) hs)

  rounds-final :
      (frame : WsFrame) (resp : SpeechRecognitionResponse) (later : List (Interference × Received))
      (r : Reader)
      → Carries frame resp
      → IsFinal resp
      → rounds J listener ((nothing, a_frame frame) ∷ later) r
        ≡ returns (record_all (final_callbacks resp) (end_session (store_continue resp r)))
  unfolding rounds interfere
  rounds-final frame resp later r carries is_final =
      rw (round-text frame resp r carries ∙ on_response-final resp r is_final, rounds) refl

  -- A running, unfinished session with its connection and no callback yet, a listener that never throws, no
  -- Stop meanwhile, and a server that sends text responses without an error code, the last of them final, with
  -- idle polls of Read anywhere between, and no failure of reading or parsing: the reader thread ends, and the
  -- listener got the start, the callback of each response in the order of arrival, and the completion last,
  -- behind a sentence end that the final response carries. All callbacks but those of the final response
  -- observe the running state, those observe the stopped state; what comes later is not read.
  pub read_loop-delivers :
      (polls : List (Option (WsFrame × SpeechRecognitionResponse))) (frame : WsFrame)
      (resp : SpeechRecognitionResponse) (later : List (Interference × Received)) (r : Reader)
      → r.shared.state ≡ state_running
      → r.shared.conn ≡ true
      → r.shared.finished ≡ false
      → r.log ≡ []
      → All IsOrdinaryFrame (frames_of polls)
      → Carries frame resp
      → IsFinal resp
      → (r' : Reader) × (read_loop J listener
            (map received polls ++ ((nothing, a_frame frame) ∷ later))
            r
          ≡ ended r')
        × (r'.log
            ≡ map (entry state_running) (
                on_recognition_start (start_response J listener r.voice_id)
                ∷ all_callbacks (frames_of polls))
              ++ map (entry state_stopped) (final_callbacks resp))
  unfolding read_loop read_loop_inner after_start wind_up
  read_loop-delivers polls frame resp later r running conn fresh empty hs carries is_final =
      let first = on_recognition_start (start_response J listener r.voice_id) in
      let r0 = record_call first r in
      let r1 = after_frames (frames_of polls) r0 in
      let r2 = store_continue resp r1 in
      let r3 = end_session r2 in
      let r4 = record_all (final_callbacks resp) r3 in
      let last = (nothing, a_frame frame) ∷ later in
      let events = map received polls ++ last in
      let loop : read_loop_inner J listener events r ≡ returns r4 =
        ap (after_start J listener events) (call-quiet first r)
        ∙ if-false (not r.shared.conn) (returns r0) (rounds J listener events r0) (ap not conn)
        ∙ rounds-ordinary polls last r0 running hs
        ∙ rounds-final frame resp later r1 carries is_final in
      let (shared_2, log_2) = store_continue-shared resp r1 in
      let shared : r2.shared ≡ r.shared = shared_2 ∙ after_frames-shared (frames_of polls) r0 in
      let stopped : r3.shared.state ≡ state_stopped =
        finish_fresh r2.shared (ap (λ (s : RecognizerSharedState). s.finished) shared ∙ fresh) in
      let front : r3.log ≡ map (entry state_running) (first ∷ all_callbacks (frames_of polls)) =
        log_2
        ∙ after_frames-log (frames_of polls) r0
        ∙ ap
            (λ (l : List Entry).
              (l ++ (entry r.shared.state first ∷ []))
              ++ map (entry r.shared.state) (all_callbacks (frames_of polls)))
            empty
        ∙ ap (λ (n : ℕ). map (entry n) (first ∷ all_callbacks (frames_of polls))) running in
      (
        on_shared (λ s. signal_done (finish s)) r4,
        ap wind_up loop,
        record_all-log (final_callbacks resp) r3
            ∙ ap (λ (l : List Entry). l ++ map (entry r3.shared.state) (final_callbacks resp)) front
            ∙ ap
                (λ (n : ℕ).
                  map (entry state_running) (first ∷ all_callbacks (frames_of polls))
                  ++ map (entry n) (final_callbacks resp))
                stopped,
      )
