-- ===== src/Ws/Transport/Waits.antt =====
-- WsClient::ReadExact where only one byte comes before the time is up (src/ws_client.cc).
use trtc_asr_sdk_cpp.Common.{ℕ, zero, suc, ◌≡◌, refl, ◌∙◌, inl, inr, ◌⊎◌, List, [], ◌∷◌, Bytes}
use trtc_asr_sdk_cpp.Ws.Transport.{
  Event, idle, expired, retry, arrived, timed_out, reading, read_socket, read_exact,
}

-- A number of rounds in which nothing is read yet.
abbrev pub retries : ℕ → List Event → List Event
retries zero events = events
retries (suc n) events = retry ∷ retries n events

-- The end of the time of Read.
abbrev pub IsTimeUp : Event → Type 0
IsTimeUp event = (event ≡ idle) ⊎ (event ≡ expired)

read_socket-retries :
    (k n : ℕ) (events : List Event) (out : Bytes)
    → read_socket (retries k events) (suc n) out ≡ read_socket events (suc n) out
unfolding read_socket
read_socket-retries zero n events out = refl
read_socket-retries (suc k) n events out = read_socket-retries k n events out

read_socket-IsTimeUp :
    (event : Event) (later : List Event) (n : ℕ) (out : Bytes)
    → IsTimeUp event
    → read_socket (event ∷ later) (suc n) out ≡ reading timed_out out later
unfolding read_socket
read_socket-IsTimeUp event later n out (inl e) = rw e refl
read_socket-IsTimeUp event later n out (inr e) = rw e refl

module _ (b : ℕ) (event : Event) (later : List Event) (up : IsTimeUp event)
    (before behind : ℕ) where
  -- One byte, then nothing until the time is up.
  abbrev pub split_stream : List Event
  split_stream = retries before (arrived b [] ∷ retries behind (event ∷ later))

  read_socket-split : read_socket split_stream 2 [] ≡ reading timed_out (b ∷ []) later
  unfolding read_socket
  read_socket-split =
      read_socket-retries before 1 (arrived b [] ∷ retries behind (event ∷ later)) []
      ∙ read_socket-retries behind 0 (event ∷ later) (b ∷ [])
      ∙ read_socket-IsTimeUp event later 0 (b ∷ []) up

  pub read_exact-split :
      read_exact (record { read_buf = []; events = split_stream }) 2
      ≡ reading timed_out (b ∷ []) later
  unfolding read_exact
  read_exact-split = read_socket-split
