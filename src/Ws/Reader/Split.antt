-- ===== src/Ws/Reader/Split.antt =====
-- WsClient::Read where the two header bytes of a frame come apart (src/ws_client.cc).
use trtc_asr_sdk_cpp.Common.{ℕ, suc, ◌≡◌, refl, List, []}
use trtc_asr_sdk_cpp.Ws.Transport.{Event, Transport}
use trtc_asr_sdk_cpp.Ws.Transport.Progress.{pending}
use trtc_asr_sdk_cpp.Ws.Transport.Waits.{IsTimeUp, split_stream, read_exact-split}
use trtc_asr_sdk_cpp.Ws.Reader.{
  Outcome, no_message, read, read_loop, next_frame, ended, round_after, result,
}

read_loop-ended :
    (rng : ℕ → ℕ → ℕ) (fuel : ℕ) (t t' : Transport) (outcome : Outcome)
    → next_frame t ≡ ended outcome t'
    → read_loop rng (suc fuel) t [] ≡ result outcome t' []
unfolding read_loop
read_loop-ended rng fuel t t' outcome h = rw (read_loop, h) refl

module _ (b : ℕ) (event : Event) (later : List Event) (up : IsTimeUp event)
    (before behind : ℕ) where
  next_frame-split :
      next_frame (record { read_buf = []; events = split_stream b event later up before behind })
      ≡ ended no_message (record { read_buf = []; events = later })
  unfolding next_frame round_after
  next_frame-split = rw (read_exact-split b event later up before behind) refl

  -- When the first header byte of a frame arrives on an empty buffer, and the time of Read is up before the
  -- second one, after any number of rounds without a byte before and behind the first: Read says that there
  -- is no message, and the first byte is gone from the stream that it leaves to the next Read.
  pub read_splits_header :
      (rng : ℕ → ℕ → ℕ)
      → read rng (record { read_buf = []; events = split_stream b event later up before behind })
        ≡ result no_message (record { read_buf = []; events = later }) []
  unfolding read
  read_splits_header rng =
      let t : Transport = record {
        read_buf = [];
        events = split_stream b event later up before behind;
      } in
      read_loop-ended rng (pending t) t (record { read_buf = []; events = later }) no_message
        next_frame-split
