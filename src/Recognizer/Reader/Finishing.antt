-- ===== src/Recognizer/Reader/Finishing.antt =====
-- What the callbacks of a session leave of its state and log (src/speech_recognizer.cc).
use trtc_asr_sdk_cpp.Common.{
  ℕ, ◌≡◌, refl, ap, arith, ◌⊎◌, inl, inr, Bool, true, false, Bool-cases, Option-cases, Option, none,
  List, [], ◌∷◌, ◌++◌, ◌==◌, Exception, All, All-append,
}
use trtc_asr_sdk_cpp.Response.{SpeechRecognitionResponse}
use trtc_asr_sdk_cpp.Recognizer.{
  RecognizerSharedState, IsFinishedOnce, finish, state_running, state_stopped,
}
use trtc_asr_sdk_cpp.Recognizer.Reader.{
  Callback, on_recognition_start, on_sentence_begin, on_recognition_result_change, on_sentence_end,
  on_recognition_complete, on_fail, Entry, Reader, Interference, nothing, stop_begins, stop_ends,
  interfere, on_shared, record_call, safe_on_fail, Next, goes_on, returns, throws, complete_after,
  store_continue, end_session, Ending, waits, ended, thread_ends, wind_up, panic,
}

abbrev pub completes : Callback → Bool
completes (on_recognition_complete resp) = true
completes (on_recognition_start resp) = false
completes (on_sentence_begin resp) = false
completes (on_recognition_result_change resp) = false
completes (on_sentence_end resp) = false
completes (on_fail resp err) = false

abbrev pub IsOpen : List Entry → Type 0
IsOpen log = All (λ e. completes e.callback ≡ false) log

-- OnRecognitionComplete is called once at most, as the last callback, in the stopped state.
abbrev pub IsSessionLog : List Entry → Type 0
IsSessionLog log =
    IsOpen log
    ⊎ ((before : List Entry) × (resp : SpeechRecognitionResponse) × IsOpen before
        × (log
            ≡ before
              ++ (record { callback = on_recognition_complete resp; observed = state_stopped }
                  ∷ [])))

abbrev pub IsGoing : Reader → Type 0
IsGoing r = IsFinishedOnce r.shared × IsOpen r.log

abbrev pub IsReturned : Reader → Type 0
IsReturned r = IsFinishedOnce r.shared × IsSessionLog r.log

abbrev pub Holds : Next → Type 0
Holds (goes_on r) = IsGoing r
Holds (returns r) = IsReturned r
Holds (throws thrown r) = IsGoing r

finish-IsFinishedOnce : (s : RecognizerSharedState) → IsFinishedOnce s → IsFinishedOnce (finish s)
finish-IsFinishedOnce s f h = elim (Bool-cases s.finished) [
  | inl done ↦ rw done (f done)
  | inr fresh ↦ rw fresh (refl, refl)
]

finish-state :
    (s : RecognizerSharedState)
    → IsFinishedOnce s
    → ((finish s).state ≡ state_stopped) × ((finish s).conn ≡ false)
finish-state s f = elim (Bool-cases s.finished) [
  | inl done ↦ rw done (f done)
  | inr fresh ↦ rw fresh (refl, refl)
]

pub interfere-IsFinishedOnce :
    (i : Interference) (s : RecognizerSharedState)
    → IsFinishedOnce s
    → IsFinishedOnce (interfere i s)
unfolding interfere
interfere-IsFinishedOnce nothing s f = f
interfere-IsFinishedOnce stop_ends s f = λ h. (refl, (f h).1)
interfere-IsFinishedOnce stop_begins s f = elim (Bool-cases (s.state == state_running)) [
  | inr other ↦ rw other f
  | inl running ↦
      rw running (λ h. let stopped = (f h).0 in absurd (ground (arith, running, stopped)))
]

record_call-IsOpen :
    (callback : Callback) (r : Reader)
    → completes callback ≡ false
    → IsOpen r.log
    → IsOpen (record_call callback r).log
record_call-IsOpen callback r h open_log =
    All-append (λ e. completes e.callback ≡ false) r.log _ open_log (h, tt)

-- A predicate of the reader that callbacks other than the completion keep.
abbrev pub Keeps : (Reader → Type 0) → Type 0
Keeps Q =
    (callback : Callback) (r : Reader)
    → completes callback ≡ false
    → Q r
    → Q (record_call callback r)

abbrev pub Unreturned : (Reader → Type 0) → Next → Type 0
Unreturned Q (goes_on r) = Q r
Unreturned Q (returns r) = ⊥
Unreturned Q (throws thrown r) = Q r

pub Unreturned-Holds : (n : Next) → Unreturned IsGoing n → Holds n
Unreturned-Holds (goes_on r) h = h
Unreturned-Holds (returns r) h = absurd h
Unreturned-Holds (throws thrown r) h = h

pub IsGoing-Keeps : Keeps IsGoing
IsGoing-Keeps callback r h (f, open_log) = (f, record_call-IsOpen callback r h open_log)

abbrev pub IsGoingStopped : Reader → Type 0
IsGoingStopped r = IsGoing r × (r.shared.state ≡ state_stopped)

pub IsGoingStopped-Keeps : Keeps IsGoingStopped
IsGoingStopped-Keeps callback r h (g, s) = (IsGoing-Keeps callback r h g, s)

pub end_session-IsGoingStopped : (r : Reader) → IsGoing r → IsGoingStopped (end_session r)
end_session-IsGoingStopped r (f, open_log) =
    ((finish-IsFinishedOnce r.shared f, open_log), (finish-state r.shared f).0)

pub complete_after-Holds :
    (resp : SpeechRecognitionResponse) (n : Next)
    → Unreturned IsGoingStopped n
    → Holds (complete_after resp n)
unfolding complete_after
complete_after-Holds resp (goes_on r) ((f, open_log), s) = (
  f,
  inr (
    r.log,
    resp,
    open_log,
    ap (λ (o : ℕ). r.log ++ (record { callback = on_recognition_complete resp; observed = o } ∷ []))
        s,
  ),
)
complete_after-Holds resp (returns r) h = absurd h
complete_after-Holds resp (throws thrown r) (g, s) = g

pub going-IsReturned : (r : Reader) → IsGoing r → IsReturned r
going-IsReturned r (f, open_log) = (f, inl open_log)

pub store_continue-IsGoing :
    (resp : SpeechRecognitionResponse) (r : Reader) → IsGoing r → IsGoing (store_continue resp r)
store_continue-IsGoing resp r g = elim (Option-cases resp.speaker_continue) [
  | inl gone ↦ rw (gone, store_continue) g
  | inr (continue, e) ↦ rw (e, store_continue) g
]

pub failed_session :
    (resp : Option SpeechRecognitionResponse) (err : Exception) (r : Reader)
    → IsGoing r
    → Holds (returns (safe_on_fail resp err (on_shared finish r)))
failed_session resp err r (f, open_log) = (
  finish-IsFinishedOnce r.shared f,
  inl (record_call-IsOpen (on_fail resp err) (on_shared finish r) refl open_log),
)

pub next-Holds :
    (k : Reader → Next)
    → ((r : Reader) → IsGoing r → Holds (k r))
    → (n : Next) → Holds n
    → Holds (elim n [ goes_on r ↦ k r | returns r ↦ returns r | throws thrown r ↦ throws thrown r ])
next-Holds k h (goes_on r) g = h r g
next-Holds k h (returns r) g = g
next-Holds k h (throws thrown r) g = g

abbrev pub IsOverAt : Ending → Type 0
IsOverAt (waits r) = Unit
IsOverAt (ended r) =
    (r.shared.state ≡ state_stopped)
    × (r.shared.conn ≡ false)
    × (r.shared.done ≡ true)
    × IsSessionLog r.log

thread_ends-IsOverAt : (r : Reader) → IsReturned r → IsOverAt (thread_ends r)
thread_ends-IsOverAt r (f, l) = let (s, c) = finish-state r.shared f in (s, c, refl, l)

pub wind_up-IsOverAt : (n : Next) → Holds n → IsOverAt (wind_up n)
unfolding wind_up
wind_up-IsOverAt (goes_on r) h = tt
wind_up-IsOverAt (returns r) h = thread_ends-IsOverAt r h
wind_up-IsOverAt (throws thrown r) g =
    thread_ends-IsOverAt (safe_on_fail none (panic thrown) (on_shared finish r))
      (failed_session none (panic thrown) r g)
