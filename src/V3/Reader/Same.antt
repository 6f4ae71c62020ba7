-- ===== src/V3/Reader/Same.antt =====
-- The version 3 reader does what the version 2 reader does (src/v3.cc, src/speech_recognizer.cc).
use trtc_asr_sdk_cpp.Common.{
  ◌≡◌, refl, subst, ap, ◌∙◌, Bool, true, false, not, Option-cases, inl, inr, Option, none, some,
  List, [], ◌∷◌, ◌++◌, pos, codes, leb, ◌==◌, ◌==ℤ◌, if◌then◌else◌, Result, ok, throw, asr_error,
  std_exception,
}
use trtc_asr_sdk_cpp.Json.{JsonLibrary}
use trtc_asr_sdk_cpp.Response.{SpeechRecognitionResponse, SpeakerContinue, parse_speech_response}
use trtc_asr_sdk_cpp.Ws.Reader.{WsFrame}
use trtc_asr_sdk_cpp.Recognizer.{finish, state_stopping, state_stopped}
use trtc_asr_sdk_cpp.Recognizer.Reader.{
  Callback, Thrown, Reader, Received, no_frame, read_failed, a_frame, Interference, interfere,
  on_shared, Next, goes_on, returns, throws, call, complete_after, end_session, safe_on_fail,
  read_error, colon_and, store_continue, on_sentence_begin, on_recognition_result_change,
  on_sentence_end,
}
use trtc_asr_sdk_cpp.Recognizer.Reader as V2
use trtc_asr_sdk_cpp.V3.Reader.{dispatch_event, on_response, on_text, on_frame, round, rounds}

-- The reader with this speaker context.
abbrev pub keep : Option SpeakerContinue → Reader → Reader
keep sc r = record r { speaker_continue = sc }

abbrev pub keep_next : Option SpeakerContinue → Next → Next
keep_next sc (goes_on r) = goes_on (keep sc r)
keep_next sc (returns r) = returns (keep sc r)
keep_next sc (throws thrown r) = throws thrown (keep sc r)

kept :
    (sc : Option SpeakerContinue) (resp : SpeechRecognitionResponse) (r : Reader)
    → keep sc (store_continue resp r) ≡ keep sc r
kept sc resp r = elim (Option-cases resp.speaker_continue) [
  | inl gone ↦ rw (gone, store_continue) refl
  | inr (continue, e) ↦ rw (e, store_continue) refl
]

if-keep :
    (sc : Option SpeakerContinue) (b : Bool) (x y x' y' : Next)
    → x' ≡ keep_next sc x
    → y' ≡ keep_next sc y
    → (if b then x' else y') ≡ keep_next sc (if b then x else y)
if-keep sc true x y x' y' p q = p
if-keep sc false x y x' y' p q = q

complete-keep :
    (sc : Option SpeakerContinue) (resp : SpeechRecognitionResponse) (n : Next)
    → complete_after resp (keep_next sc n) ≡ keep_next sc (complete_after resp n)
unfolding complete_after
complete-keep sc resp (goes_on r) = refl
complete-keep sc resp (returns r) = refl
complete-keep sc resp (throws thrown r) = refl

module _ (J : JsonLibrary) (listener : Callback → Option Thrown) (sc : Option SpeakerContinue) where
  call-keep :
      (callback : Callback) (r : Reader)
      → call J listener callback (keep sc r) ≡ keep_next sc (call J listener callback r)
  call-keep callback r = elim (Option-cases (listener callback)) [
    | inl quiet ↦ rw (quiet, call) refl
    | inr (thrown, e) ↦ rw (e, call) refl
  ]

  dispatch-keep :
      (resp : SpeechRecognitionResponse) (r : Reader)
      → dispatch_event J listener resp (keep sc r)
        ≡ keep_next sc (V2.dispatch_event J listener resp r)
  unfolding dispatch_event V2.dispatch_event
  dispatch-keep resp r = if-keep sc _ _ _ _ _ refl (
      if-keep sc _ _ _ _ _ (call-keep (on_sentence_begin resp) r) (
        if-keep sc _ _ _ _ _ (call-keep (on_recognition_result_change resp) r)
          (if-keep sc _ _ _ _ _ (call-keep (on_sentence_end resp) r) refl)))

  -- What the version 2 reader does behind the storing of the speaker context.
  abbrev behind_store : SpeechRecognitionResponse → Reader → Next
  behind_store resp r =
      if not (resp.code ==ℤ pos 0)
      then returns (safe_on_fail (some resp) (asr_error resp.code resp.message) (end_session r))
      else if resp.final_flag ==ℤ pos 1
      then complete_after resp (V2.dispatch_event J listener resp (end_session r))
      else if not resp.has_result
      then goes_on r
      else V2.dispatch_event J listener resp r

  behind_store-keep :
      (resp : SpeechRecognitionResponse) (r : Reader)
      → on_response J listener resp (keep sc r) ≡ keep_next sc (behind_store resp r)
  unfolding on_response
  behind_store-keep resp r =
      let over = end_session r in
      let dispatched = V2.dispatch_event J listener resp r in
      let completed = complete_after resp (V2.dispatch_event J listener resp over) in
      let inner : Next = if not resp.has_result then goes_on r else dispatched in
      if-keep sc (not (resp.code ==ℤ pos 0))
        (returns (safe_on_fail (some resp) (asr_error resp.code resp.message) over))
        (if resp.final_flag ==ℤ pos 1 then completed else inner) _ _ refl
        (if-keep sc (resp.final_flag ==ℤ pos 1) completed inner _ _
          (ap (complete_after resp) (dispatch-keep resp over)
            ∙ complete-keep sc resp (V2.dispatch_event J listener resp over))
          (if-keep sc (not resp.has_result) (goes_on r) dispatched _ _ refl (dispatch-keep resp r)))

  response-keep :
      (resp : SpeechRecognitionResponse) (r : Reader)
      → on_response J listener resp (keep sc r) ≡ keep_next sc (V2.on_response J listener resp r)
  unfolding V2.on_response
  response-keep resp r =
      subst
        (λ q.
          on_response J listener resp q ≡ keep_next sc (behind_store resp (store_continue resp r)))
        (kept sc resp r) (behind_store-keep resp (store_continue resp r))

  text-keep :
      (m : Result SpeechRecognitionResponse) (r : Reader)
      → on_text J listener m (keep sc r) ≡ keep_next sc (V2.on_text J listener m r)
  unfolding on_text V2.on_text
  text-keep (ok resp) r = response-keep resp r
  text-keep (throw (asr_error code message)) r = refl
  text-keep (throw (std_exception text)) r = refl

  frame-keep :
      (frame : WsFrame) (r : Reader)
      → on_frame J listener frame (keep sc r) ≡ keep_next sc (V2.on_frame J listener frame r)
  unfolding on_frame V2.on_frame
  frame-keep frame r =
      let binary : Next = goes_on (
        safe_on_fail none (read_error (codes "unmarshal response failed: unexpected binary frame"))
          r) in
      let gone : Next = returns (
        safe_on_fail none (read_error (codes "connection closed by server"))
          (on_shared finish r)) in
      let closed : Next = if leb state_stopping r.shared.state then returns r else gone in
      let parsed = V2.on_text J listener (parse_speech_response J frame.payload) r in
      let other : Next = if not (frame.opcode == 0x1) then goes_on r else parsed in
      if-keep sc (frame.opcode == 0x2) binary (if frame.opcode == 0x8 then closed else other) _ _
        refl
        (if-keep sc (frame.opcode == 0x8) closed other _ _
          (if-keep sc (leb state_stopping r.shared.state) (returns r) gone _ _ refl refl)
          (if-keep sc (not (frame.opcode == 0x1)) (goes_on r) parsed _ _ refl
            (text-keep (parse_speech_response J frame.payload) r)))

  round-keep :
      (received : Received) (r : Reader)
      → round J listener received (keep sc r) ≡ keep_next sc (V2.round J listener received r)
  unfolding round V2.round
  round-keep no_frame r =
      if-keep sc (r.shared.state == state_stopped) (returns r) (goes_on r) _ _ refl refl
  round-keep (read_failed text) r =
      if-keep sc (leb state_stopping r.shared.state) (returns r)
        (returns (
          safe_on_fail none (read_error (codes "read message failed" ++ colon_and text))
            (on_shared finish r)))
        _ _ refl refl
  round-keep (a_frame frame) r = frame-keep frame r

  goes_on-keep :
      (k k' : Reader → Next)
      → ((r : Reader) → k' (keep sc r) ≡ keep_next sc (k r))
      → (n n' : Next) → n' ≡ keep_next sc n
      → elim n' [ goes_on r ↦ k' r | returns r ↦ returns r | throws thrown r ↦ throws thrown r ]
        ≡ keep_next sc
            (elim n [ goes_on r ↦ k r | returns r ↦ returns r | throws thrown r ↦ throws thrown r ])
  goes_on-keep k k' h (goes_on r) n' e = rw e (h r)
  goes_on-keep k k' h (returns r) n' e = rw e refl
  goes_on-keep k k' h (throws thrown r) n' e = rw e refl

  rounds-keep :
      (events : List (Interference × Received)) (r : Reader)
      → rounds J listener events (keep sc r) ≡ keep_next sc (V2.rounds J listener events r)
  unfolding rounds V2.rounds
  rounds-keep [] r = refl
  rounds-keep ((other, received) ∷ later) r =
      let r' = on_shared (interfere other) r in
      goes_on-keep (V2.rounds J listener later) (rounds J listener later) (rounds-keep later)
        (V2.round J listener received r')
        (round J listener received (on_shared (interfere other) (keep sc r)))
        (round-keep received r')

-- Behind OnRecognitionStart, the loop of the version 3 client does what that of the version 2 client
-- does from the same reader: the same callbacks in the same states, the same shared state, and the same
-- way to go on, return or throw, on every sequence of frames, polls and failures, whatever Stop does
-- meanwhile and whatever the listener throws. It keeps the speaker context of the acknowledgement,
-- where the version 2 loop may store another.
pub rounds-same :
    (J : JsonLibrary) (listener : Callback → Option Thrown)
    (events : List (Interference × Received)) (r : Reader)
    → rounds J listener events r ≡ keep_next r.speaker_continue (V2.rounds J listener events r)
rounds-same J listener events r = rounds-keep J listener r.speaker_continue events r
