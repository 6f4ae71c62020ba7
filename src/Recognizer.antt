-- ===== src/Recognizer.antt =====
-- The realtime recognizer (src/speech_recognizer.cc): the state that its threads share.
pub mod Reader
pub mod Lifecycle
pub mod Options
mod Tests
use trtc_asr_sdk_cpp.Common.{ℕ, ◌≡◌, refl, Bool, true, false, ◌==◌, if◌then◌else◌}

-- kStateIdle_ and so on.
abbrev pub state_idle : ℕ
state_idle = 0

abbrev pub state_starting : ℕ
state_starting = 1

abbrev pub state_running : ℕ
state_running = 2

abbrev pub state_stopping : ℕ
state_stopping = 3

abbrev pub state_stopped : ℕ
state_stopped = 4

-- `conn` tells whether there is a connection, `finished` whether `finish_once` has run.
pub record RecognizerSharedState : Type 0 where
  pub state : ℕ
  pub conn : Bool
  pub done : Bool
  pub terminal_received : Bool
  pub finished : Bool

abbrev pub new_shared_state : RecognizerSharedState
new_shared_state = record {
  state = state_idle;
  conn = false;
  done = false;
  terminal_received = false;
  finished = false;
}

abbrev pub close : RecognizerSharedState → RecognizerSharedState
close s = record s { conn = false }

abbrev pub finish : RecognizerSharedState → RecognizerSharedState
finish s = if s.finished then s else close (record s { state = state_stopped; finished = true })

abbrev pub mark_terminal_received : RecognizerSharedState → RecognizerSharedState
mark_terminal_received s = record s { terminal_received = true }

abbrev pub signal_done : RecognizerSharedState → RecognizerSharedState
signal_done s = record s { done = true }

-- What a finished session looks like.
abbrev pub IsFinishedOnce : RecognizerSharedState → Type 0
IsFinishedOnce s = s.finished ≡ true → (s.state ≡ state_stopped) × (s.conn ≡ false)
