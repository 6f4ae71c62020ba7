-- ===== src/Recognizer/Lifecycle.antt =====
-- Start, Write and Stop (src/speech_recognizer.cc), cut where another thread can come between.
pub mod Order
pub mod Calls
pub mod Destructor
use trtc_asr_sdk_cpp.Common.{
  ℕ, ◌≡◌, ◌≢◌, ◌≤◌, Bool, true, false, not, ◌&&◌, ◌||◌, Option, none, some, List, [], ◌∷◌, ◌++◌,
  Bytes, codes, ltb, leb, ◌==◌, if◌then◌else◌, Result, ok, throw, Exception, asr_error, throw_if,
  err_invalid_param, err_not_started, err_already_started, err_write_failed, ◌>>=◌, ◌>>◌, length,
}
use trtc_asr_sdk_cpp.Recognizer.{
  RecognizerSharedState, new_shared_state, close, finish, signal_done, state_idle, state_starting,
  state_running, state_stopping, state_stopped,
}

-- A frame whose writing has begun, whether it succeeds or not.
pub data Outgoing : Type 0 where
  audio : Bytes → Outgoing
  end_signal : Outgoing

-- Who holds write_mu: a Write that has found the state running, or the Stop that sends the end signal.
pub data Holder : Type 0 where
  nobody : Holder
  writer : Bytes → Holder
  stopper : Holder

-- How far the Stop is whose exchange of the state succeeded.
pub data StopPhase : Type 0 where
  not_called called sending sent : StopPhase

pub record Client : Type 0 where
  pub shared : RecognizerSharedState
  pub holder : Holder
  pub phase : StopPhase
  pub frames : List Outgoing

abbrev pub new_client : Client
new_client = record { shared = new_shared_state; holder = nobody; phase = not_called; frames = [] }

abbrev pub set_state : ℕ → Client → Client
set_state n c = record c { shared = record c.shared { state = n } }

abbrev pub set_conn : Client → Client
set_conn c = record c { shared = record c.shared { conn = true } }

-- What a call gives, and the client behind it.
pub record Call : Type 0 where
  pub outcome : Result (Unit {0})
  pub client : Client

abbrev pub returned : Client → Call
returned c = record { outcome = ok tt; client = c }

abbrev pub raised : Exception → Client → Call
raised e c = record { outcome = throw e; client = c }

abbrev pub not_running : Exception
not_running = asr_error err_not_started (codes "recognizer not running")

abbrev pub no_connection : Exception
no_connection = asr_error err_not_started (codes "connection not established")

abbrev pub already_started : Exception
already_started = asr_error err_already_started (codes "recognizer already started")

-- ValidateOptions and Connect give `prepared`.
pub start_prepared : Result (Unit {0}) → Client → Call
start_prepared (ok unit) c = returned (set_state state_running (set_conn c))
start_prepared (throw e) c = raised e (set_state state_idle c)

unfoldable pub start : Result (Unit {0}) → Client → Call
unfolding start_prepared
start prepared c =
    if c.shared.state == state_idle
    then start_prepared prepared (set_state state_starting c)
    else raised already_started c

-- The audio argument of Write: a null pointer with a length, or bytes.
pub data Audio : Type 0 where
  null_pointer : ℕ → Audio
  bytes : Bytes → Audio

abbrev pub is_bad_pointer : Audio → Bool
is_bad_pointer (null_pointer len) = ltb 0 len
is_bad_pointer (bytes bs) = false

abbrev pub payload_of : Audio → Bytes
payload_of (null_pointer len) = []
payload_of (bytes bs) = bs

-- The checks in front of the lock, and the one behind it.
pub write_entry : Audio → Client → Result (Unit {0})
write_entry data' c =
    throw_if (is_bad_pointer data') err_invalid_param (codes "audio data pointer is null")
    >> (throw_if (not (c.shared.state == state_running)) err_not_started
          (codes "recognizer not running")
        >> throw_if (not c.shared.conn) err_not_started (codes "connection not established"))

abbrev pub can_write : Client → Bool
can_write c = c.shared.state == state_running

abbrev pub lock_for_audio : Bytes → Client → Client
lock_for_audio bs c = record c { holder = writer bs }

-- SendBinary, and the release of the lock.
abbrev pub send_audio : Bytes → Client → Client
send_audio bs c = record c { holder = nobody; frames = c.frames ++ (audio bs ∷ []) }

-- `failure` is the text of a failed send.
pub write_locked : Option Bytes → Bytes → Client → Call
write_locked failure bs c =
    if can_write c
    then elim failure [
      | none ↦ returned (send_audio bs (lock_for_audio bs c))
      | some text ↦
          raised (asr_error err_write_failed (codes "write audio data failed: " ++ text))
            (send_audio bs (lock_for_audio bs c))
    ]
    else raised not_running c

unfoldable pub write : Option Bytes → Audio → Client → Call
unfolding write_entry write_locked
write failure data' c = elim (write_entry data' c) [
  | throw e ↦ raised e c
  | ok unit ↦ write_locked failure (payload_of data') c
]

-- compare_exchange_strong(running, stopping)
abbrev pub begin_stop : Client → Client
begin_stop c = set_state state_stopping (record c { phase = called })

abbrev pub lock_for_end : Client → Client
lock_for_end c = record c { holder = stopper; phase = sending }

-- SendText of the end signal, and the release of the lock.
abbrev pub send_end : Client → Client
send_end c = record c { holder = nobody; phase = sent; frames = c.frames ++ (end_signal ∷ []) }

-- WaitForReadLoopOrClose: the reader thread signals in time, or the deadline passes and the connection is closed.
abbrev pub wait_for_read_loop_or_close : Bool → Client → Client
wait_for_read_loop_or_close in_time c = if in_time then c else record c { shared = close c.shared }

-- Behind the lock: `failure` as above; `in_callback` tells a Stop inside a listener's callback, whose
-- wait goes on in a thread of its own.
pub stop_sent : Option Bytes → Bool → Bool → Client → Call
stop_sent (some text) in_callback in_time c =
    if c.shared.state == state_stopped
    then returned (wait_for_read_loop_or_close in_time c)
    else raised (asr_error err_write_failed (codes "send end signal failed: " ++ text))
        (set_state state_stopped (record c { shared = close c.shared }))
stop_sent none in_callback in_time c =
    if in_callback
    then returned (wait_for_read_loop_or_close in_time c)
    else returned (set_state state_stopped (wait_for_read_loop_or_close in_time c))

pub stop_begun : Option Bytes → Bool → Bool → Client → Call
unfolding stop_sent
stop_begun failure in_callback in_time c =
    if not c.shared.conn
    then raised no_connection (set_state state_stopped c)
    else if c.shared.state == state_stopped
    then returned (wait_for_read_loop_or_close in_time c)
    else stop_sent failure in_callback in_time (send_end (lock_for_end c))

unfoldable pub stop : Option Bytes → Bool → Bool → Client → Call
unfolding stop_begun
stop failure in_callback in_time c =
    if c.shared.state == state_running
    then stop_begun failure in_callback in_time (begin_stop c)
    else raised not_running c

-- The end of the reader thread: ReadLoop finishes the session and signals on every path.
abbrev pub joined : Client → Client
joined c = record c { shared = signal_done (finish c.shared) }

-- Whether the reader thread comes to its end: the session ends by itself (the server ends it, or reading
-- fails), the connection is closed, or an idle poll finds the stopped state.
abbrev pub reader_ends : Bool → Client → Bool
reader_ends by_itself c = by_itself || not c.shared.conn || (c.shared.state == state_stopped)

-- join: `none` where it waits for ever.
abbrev pub join : Bool → Client → Option Client
join by_itself c = if reader_ends by_itself c then some (joined c) else none

-- ~SpeechRecognizer, outside the callbacks. What Stop throws is dropped; the thread is joinable once Start has ended. `by_itself`
-- tells whether the session ends without Stop.
unfoldable pub destroy : Option Bytes → Bool → Bool → Client → Option Client
destroy failure in_time by_itself c =
    if c.shared.state == state_running
    then join by_itself (stop failure false in_time c).client
    else if leb state_running c.shared.state
    then join by_itself c
    else some c

-- One step of any thread. A thread that waits for the lock, or that a check turns away, changes nothing.
pub data Step : Client → Client → Type 0 where
  start_begins : (c : Client) → c.shared.state ≡ state_idle → Step c (set_state state_starting c)
  start_fails : (c : Client) → c.shared.state ≡ state_starting → Step c (set_state state_idle c)
  start_ends :
      (c : Client) → c.shared.state ≡ state_starting → Step c (set_state state_running (set_conn c))
  -- Connect puts the connection in place before Start ends.
  connection_opens : (c : Client) → c.shared.state ≡ state_starting → Step c (set_conn c)
  audio_begins :
      (c : Client) (bs : Bytes)
      → c.holder ≡ nobody
      → can_write c ≡ true
      → Step c (lock_for_audio bs c)
  audio_ends : (c : Client) (bs : Bytes) → c.holder ≡ writer bs → Step c (send_audio bs c)
  stop_begins : (c : Client) → c.shared.state ≡ state_running → Step c (begin_stop c)
  end_begins :
      (c : Client)
      → c.phase ≡ called
      → c.holder ≡ nobody
      → c.shared.state ≢ state_stopped
      → Step c (lock_for_end c)
  end_ends : (c : Client) → c.phase ≡ sending → c.holder ≡ stopper → Step c (send_end c)
  stop_ends : (c : Client) → c.phase ≢ not_called → Step c (set_state state_stopped c)
  session_finishes :
      (c : Client) → state_running ≤ c.shared.state → Step c (record c { shared = finish c.shared })
  connection_closes : (c : Client) → Step c (record c { shared = close c.shared })
  reader_signals : (c : Client) → Step c (record c { shared = signal_done c.shared })

pub data Reachable : Client → Type 0 where
  at_first : Reachable new_client
  then_step : (c c' : Client) → Reachable c → Step c c' → Reachable c'
