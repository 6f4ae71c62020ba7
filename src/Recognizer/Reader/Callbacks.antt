-- ===== src/Recognizer/Reader/Callbacks.antt =====
-- The callbacks that responses call for, and the reader behind them (src/speech_recognizer.cc).
use mathlib.Core.List.{map}
use trtc_asr_sdk_cpp.Common.{
  ℕ, ◌≡◌, refl, sym, ap, ◌∙◌, inl, inr, false, Option, none, some, Option-cases, List, [], ◌∷◌,
  ◌++◌, append-nil, append_assoc, pos, ◌==ℤ◌, if◌then◌else◌,
}
use trtc_asr_sdk_cpp.Response.{SpeechRecognitionResponse}
use trtc_asr_sdk_cpp.Ws.Reader.{WsFrame}
use trtc_asr_sdk_cpp.Recognizer.{
  RecognizerSharedState, finish, mark_terminal_received, state_stopped,
}
use trtc_asr_sdk_cpp.Recognizer.Reader.{
  Callback, on_sentence_begin, on_recognition_result_change, on_sentence_end,
  on_recognition_complete, Entry, Reader, record_call, store_continue,
}

abbrev pub entry : ℕ → Callback → Entry
entry observed callback = record { callback = callback; observed = observed }

-- The callback that a response calls for, by its slice type.
abbrev pub slice_callbacks : SpeechRecognitionResponse → List Callback
slice_callbacks resp =
    if resp.result.slice_type ==ℤ pos 0
    then on_sentence_begin resp ∷ []
    else if resp.result.slice_type ==ℤ pos 1
    then on_recognition_result_change resp ∷ []
    else if resp.result.slice_type ==ℤ pos 2
    then on_sentence_end resp ∷ []
    else []

abbrev pub callbacks_of : SpeechRecognitionResponse → List Callback
callbacks_of resp = if resp.has_result then slice_callbacks resp else []

-- The final response ends a sentence at most.
abbrev pub final_callbacks : SpeechRecognitionResponse → List Callback
final_callbacks resp =
    (if resp.result.slice_type ==ℤ pos 2 then on_sentence_end resp ∷ [] else [])
    ++ (on_recognition_complete resp ∷ [])

abbrev pub record_all : List Callback → Reader → Reader
record_all [] r = r
record_all (c ∷ cs) r = record_all cs (record_call c r)

record_all-shared : (cs : List Callback) (r : Reader) → (record_all cs r).shared ≡ r.shared
record_all-shared [] r = refl
record_all-shared (c ∷ cs) r = record_all-shared cs (record_call c r)

pub record_all-log :
    (cs : List Callback) (r : Reader)
    → (record_all cs r).log ≡ r.log ++ map (entry r.shared.state) cs
record_all-log [] r = sym (append-nil r.log)
record_all-log (c ∷ cs) r =
    record_all-log cs (record_call c r)
    ∙ append_assoc r.log (entry r.shared.state c ∷ []) (map (entry r.shared.state) cs)

pub store_continue-shared :
    (resp : SpeechRecognitionResponse) (r : Reader)
    → ((store_continue resp r).shared ≡ r.shared) × ((store_continue resp r).log ≡ r.log)
store_continue-shared resp r = elim (Option-cases resp.speaker_continue) [
  | inl gone ↦ rw (gone, store_continue) (refl, refl)
  | inr (continue, e) ↦ rw (e, store_continue) (refl, refl)
]

pub finish_fresh :
    (s : RecognizerSharedState)
    → s.finished ≡ false
    → (mark_terminal_received (finish s)).state ≡ state_stopped
finish_fresh s fresh = rw fresh

map-append {ℓ κ} :
    {A : Type ℓ} {B : Type κ} (f : A → B) (xs ys : List A) → map f (xs ++ ys) ≡ map f xs ++ map f ys
map-append f [] ys = refl
map-append f (x ∷ xs) ys = ap (◌∷◌ (f x)) (map-append f xs ys)

-- The callbacks of some ordinary frames, in the order of arrival.
abbrev pub all_callbacks : List (WsFrame × SpeechRecognitionResponse) → List Callback
all_callbacks [] = []
all_callbacks ((frame, resp) ∷ frames) = callbacks_of resp ++ all_callbacks frames

-- The frames among the polls of Read: `none` is an idle poll.
abbrev pub frames_of :
    List (Option (WsFrame × SpeechRecognitionResponse)) → List (WsFrame × SpeechRecognitionResponse)
frames_of [] = []
frames_of (none ∷ polls) = frames_of polls
frames_of (some x ∷ polls) = x ∷ frames_of polls

-- The reader behind some ordinary frames.
abbrev pub after_frames : List (WsFrame × SpeechRecognitionResponse) → Reader → Reader
after_frames [] r = r
after_frames ((frame, resp) ∷ frames) r =
    after_frames frames (record_all (callbacks_of resp) (store_continue resp r))

pub after_frames-shared :
    (frames : List (WsFrame × SpeechRecognitionResponse)) (r : Reader)
    → (after_frames frames r).shared ≡ r.shared
after_frames-shared [] r = refl
after_frames-shared ((frame, resp) ∷ frames) r =
    let r' = store_continue resp r in
    after_frames-shared frames (record_all (callbacks_of resp) r')
    ∙ record_all-shared (callbacks_of resp) r'
    ∙ (store_continue-shared resp r).0

pub after_frames-log :
    (frames : List (WsFrame × SpeechRecognitionResponse)) (r : Reader)
    → (after_frames frames r).log ≡ r.log ++ map (entry r.shared.state) (all_callbacks frames)
after_frames-log [] r = sym (append-nil r.log)
after_frames-log ((frame, resp) ∷ frames) r =
    let r' = store_continue resp r in
    let cs = callbacks_of resp in
    let (shared, log) = store_continue-shared resp r in
    let state : ℕ → List Entry = λ n. map (entry n) (all_callbacks frames) in
    let first : (record_all cs r').log ≡ r.log ++ map (entry r.shared.state) cs =
      record_all-log cs r'
      ∙ ap (λ (l : List Entry). l ++ map (entry r'.shared.state) cs) log
      ∙ ap (λ (s : RecognizerSharedState). r.log ++ map (entry s.state) cs) shared in
    after_frames-log frames (record_all cs r')
    ∙ ap (λ (l : List Entry). l ++ state (record_all cs r').shared.state) first
    ∙ ap (λ (s : RecognizerSharedState). (r.log ++ map (entry r.shared.state) cs) ++ state s.state)
        (record_all-shared cs r' ∙ shared)
    ∙ append_assoc r.log (map (entry r.shared.state) cs) (state r.shared.state)
    ∙ ap (λ (l : List Entry). r.log ++ l)
        (sym (map-append (entry r.shared.state) cs (all_callbacks frames)))
