-- ===== src/Ws/Transport.antt =====
-- WsClient::ReadExact (src/ws_client.cc). What the operating system reports to each round of its loop
-- is a list of events, which the environment chooses.
pub mod Chunks
pub mod Progress
pub mod Waits
use trtc_asr_sdk_cpp.Common.{
  ℕ, zero, suc, ◌+◌, ◌-◌, ◌≡◌, refl, List, [], ◌∷◌, ◌++◌, Bytes, length, take, drop,
}

-- One round: the deadline in force has passed, PollFd gives 0 or -1, the read gives 0 bytes (an orderly
-- shutdown), fails for good, or has to be tried again (EINTR, EAGAIN, SSL_ERROR_WANT_READ), or bytes
-- are there to be read.
pub data Event : Type 0 where
  expired idle poll_error closed failed retry : Event
  arrived : ℕ → Bytes → Event

pub record Transport : Type 0 where
  pub read_buf : Bytes
  pub events : List Event

-- The return codes 1, 0 and -1.
pub data Status : Type 0 where
  complete timed_out error : Status

pub record Reading : Type 0 where
  pub status : Status
  pub bytes : Bytes
  pub rest : Transport

abbrev pub reading : Status → Bytes → List Event → Reading
reading status bytes events = record {
  status = status;
  bytes = bytes;
  rest = record { read_buf = []; events = events };
}

-- A read takes at most what is asked for; what is left stays in the socket.
pub put_back : Bytes → List Event → List Event
put_back [] events = events
put_back (b ∷ rest) events = arrived b rest ∷ events

-- `n` bytes are wanted still, and `out` holds those read. With no event left nothing arrives any more,
-- and the deadline ends the wait.
pub read_socket : List Event → ℕ → Bytes → Reading
unfolding put_back
read_socket events zero out = reading complete out events
read_socket [] (suc n) out = reading timed_out out []
read_socket (expired ∷ events) (suc n) out = reading timed_out out events
read_socket (idle ∷ events) (suc n) out = reading timed_out out events
read_socket (poll_error ∷ events) (suc n) out = reading error out events
read_socket (closed ∷ events) (suc n) out = reading error out events
read_socket (failed ∷ events) (suc n) out = reading error out events
read_socket (retry ∷ events) (suc n) out = read_socket events (suc n) out
read_socket (arrived b chunk ∷ events) (suc n) out =
    let more = read_socket events (n - length chunk) (out ++ (b ∷ chunk)) in
    elim (drop n chunk) [
      | [] ↦ more
      | c ∷ left ↦ reading complete (out ++ (b ∷ take n chunk)) (put_back (c ∷ left) events)
    ]

-- The buffered leftovers go first. Nothing ever refills `read_buf`.
unfoldable pub read_exact : Transport → ℕ → Reading
unfolding read_socket
read_exact t n =
    let short = read_socket t.events (n - length t.read_buf) (take n t.read_buf) in
    elim (drop n t.read_buf) [
      | [] ↦ short
      | b ∷ left ↦ record {
        status = complete;
        bytes = take n t.read_buf;
        rest = record t { read_buf = b ∷ left };
      }
    ]
