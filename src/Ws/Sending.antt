-- ===== src/Ws/Sending.antt =====
-- WsClient::WriteAll, SendText and SendBinary (src/ws_client.cc). What the operating system reports to
-- each round of the loop of WriteAll is a list of events, which the environment chooses.
pub mod Written
use trtc_asr_sdk_cpp.Common.{
  ℕ, true, Option, none, some, List, [], ◌∷◌, ◌++◌, Bytes, codes, take, drop,
}
use trtc_asr_sdk_cpp.Ws.Frame.{encode_ws_frame}

-- One round: the deadline has passed, PollFd does not give 1, the write has to be tried again (EINTR,
-- EAGAIN, SSL_ERROR_WANT_WRITE), it fails for good with a text, or it takes at most so many bytes.
pub data SendEvent : Type 0 where
  overdue unready again : SendEvent
  broken : Bytes → SendEvent
  took : ℕ → SendEvent

-- The text of a failure, the bytes that the peer gets, those that are left, and the events that are left.
pub record Sending : Type 0 where
  pub failure : Option Bytes
  pub sent : Bytes
  pub unsent : Bytes
  pub events : List SendEvent

abbrev stopped_with : Bytes → Bytes → Bytes → List SendEvent → Sending
stopped_with text out data' events = record {
  failure = some text;
  sent = out;
  unsent = data';
  events = events;
}

-- `out` holds what is written. With no event left nothing happens any more, and the deadline ends the wait.
pub write_from : Bytes → Bytes → List SendEvent → Sending
write_from out [] events = record { failure = none; sent = out; unsent = []; events = events }
write_from out (b ∷ bs) [] = stopped_with (codes "write timeout") out (b ∷ bs) []
write_from out (b ∷ bs) (overdue ∷ events) =
    stopped_with (codes "write timeout") out (b ∷ bs) events
write_from out (b ∷ bs) (unready ∷ events) =
    stopped_with (codes "write poll failed or timed out") out (b ∷ bs) events
write_from out (b ∷ bs) (again ∷ events) = write_from out (b ∷ bs) events
write_from out (b ∷ bs) (broken text ∷ events) = stopped_with text out (b ∷ bs) events
write_from out (b ∷ bs) (took n ∷ events) =
    write_from (out ++ take n (b ∷ bs)) (drop n (b ∷ bs)) events

unfoldable pub write_all : Bytes → List SendEvent → Sending
unfolding write_from
write_all data' events = write_from [] data' events

unfoldable pub send_text : (ℕ → ℕ) → Bytes → List SendEvent → Sending
unfolding write_all
send_text rng text events = write_all (encode_ws_frame rng 0x1 text true) events

unfoldable pub send_binary : (ℕ → ℕ) → Bytes → List SendEvent → Sending
unfolding write_all
send_binary rng data' events = write_all (encode_ws_frame rng 0x2 data' true) events
