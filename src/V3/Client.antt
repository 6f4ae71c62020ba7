-- ===== src/V3/Client.antt =====
-- Start, Write and Stop of v3::SpeechRecognizer (src/v3.cc). The state that its threads share, the
-- frames behind the start frame and the lock are those of the version 2 client.
pub mod Calls
pub mod Starting
pub mod Destructor
use trtc_asr_sdk_cpp.Common.{
  ℕ, Bool, true, false, not, Option, none, some, Bytes, codes, to_string, length, ltb, leb, ◌==◌,
  pos, if◌then◌else◌, Result, ok, throw, throw_if, err_invalid_param, err_not_started, ◌>>=◌, ◌>>◌,
}
use trtc_asr_sdk_cpp.Recognizer.{close, state_idle, state_starting, state_running, state_stopped}
use trtc_asr_sdk_cpp.Recognizer.Lifecycle.{
  Client, Call, returned, raised, set_state, already_started, not_running, no_connection, Audio,
  null_pointer, bytes, is_bad_pointer, payload_of, write_locked, begin_stop, lock_for_end, send_end,
  wait_for_read_loop_or_close, stop_sent, join,
}
use trtc_asr_sdk_cpp.V3.Handshake.{Handshake}

abbrev pub leave_conn : Bool → Client → Client
leave_conn conn c = record c { shared = record c.shared { conn = conn } }

unfoldable pub start_opened : Result (Unit {0}) → Client → Call
start_opened (ok u) c = returned (set_state state_running c)
start_opened (throw e) c = raised e (set_state state_idle c)

-- The handshake is given the connection that is there.
unfoldable pub start : (Bool → Handshake) → Client → Call
unfolding start_opened
start prepared c =
    if c.shared.state == state_idle
    then start_opened (prepared c.shared.conn).outcome
        (leave_conn (prepared c.shared.conn).conn (set_state state_starting c))
    else raised already_started c

abbrev pub size_of : Audio → ℕ
size_of (null_pointer len) = len
size_of (bytes bs) = length bs

-- The checks in front of the lock.
unfoldable pub write_entry : Audio → Client → Result (Unit {0})
write_entry data' c =
    throw_if (is_bad_pointer data') err_invalid_param (codes "audio data pointer is null")
    >> (throw_if (ltb 262144 (size_of data')) err_invalid_param
          (codes "audio frame exceeds 262144 bytes")
        >> (throw_if (not (c.shared.state == state_running)) err_not_started
              (codes "recognizer not running")
            >> throw_if (not c.shared.conn) err_not_started (codes "connection not established")))

-- `failure` is the text of a failed send.
unfoldable pub write : Option Bytes → Audio → Client → Call
unfolding write_entry
write failure data' c = elim (write_entry data' c) [
  | throw e ↦ raised e c
  | ok u ↦ write_locked failure (payload_of data') c
]

unfoldable pub stop_begun : Option Bytes → Bool → Bool → Client → Call
stop_begun failure in_callback in_time c =
    if not c.shared.conn
    then raised no_connection (set_state state_stopped c)
    else if c.shared.state == state_stopped
    then returned (wait_for_read_loop_or_close in_time c)
    else stop_sent failure in_callback in_time (send_end (lock_for_end c))

-- `in_callback` tells a Stop inside a listener's callback, `in_time` whether the reader thread ends in time.
unfoldable pub stop : Option Bytes → Bool → Bool → Client → Call
unfolding stop_begun
stop failure in_callback in_time c =
    if c.shared.state == state_running
    then stop_begun failure in_callback in_time (begin_stop c)
    else raised not_running c

-- ~SpeechRecognizer, outside the callbacks. What Stop throws is dropped; the thread is joinable once Start has ended. `none`: the
-- join waits for ever; `by_itself` tells whether the session ends without Stop.
unfoldable pub destroy : Option Bytes → Bool → Bool → Client → Option Client
destroy failure in_time by_itself c =
    if c.shared.state == state_running
    then join by_itself (stop failure false in_time c).client
    else if leb state_running c.shared.state
    then join by_itself c
    else some c
