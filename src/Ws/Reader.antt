-- ===== src/Ws/Reader.antt =====
-- WsClient::Read (src/ws_client.cc): one frame off the socket, and the loop over control frames.
mod Length
pub mod RoundTrip
pub mod Loop
pub mod Termination
pub mod Split
pub mod Messages
use trtc_asr_sdk_cpp.Common.{
  ℕ, zero, suc, ◌+◌, ◌*◌, ◌%◌, ◌^◌, ◌≡◌, refl, Bool, true, false, not, List, [], ◌∷◌, ◌++◌, bit_and,
  bit_or, bit_xor, Bytes, codes, ltb, leb, ◌==◌, if◌then◌else◌, length, get_or,
}
use trtc_asr_sdk_cpp.Common.Bits.{◌<<<◌, u64}
use trtc_asr_sdk_cpp.Ws.Frame.{xor_mask, encode_ws_frame}
use trtc_asr_sdk_cpp.Ws.Transport.Progress.{pending}
use trtc_asr_sdk_cpp.Ws.Transport.{
  Transport, Status, complete, timed_out, error, Reading, read_exact,
}

pub record WsFrame : Type 0 where
  pub opcode : ℕ
  pub payload : Bytes
  pub fin : Bool

-- Part of a frame that has started: a failed read ends the call with -1 and the text of `fill_err`.
pub data Attempt {ℓ} (A : Type ℓ) : Type ℓ where
  have : A → Transport → Attempt A
  broken : Bytes → Transport → Attempt A

infixl 5 ◌>>=◌ ◌>>◌
abbrev pub ◌>>=◌ {ℓ κ} :
    {A : Type ℓ} {B : Type κ}
    → (Transport → Attempt A)
    → (A → Transport → Attempt B)
    → Transport
    → Attempt B
◌>>=◌ m f t = elim (m t) [ have a t' ↦ f a t' | broken what t' ↦ broken what t' ]

abbrev pub ◌>>◌ {ℓ κ} :
    {A : Type ℓ} {B : Type κ}
    → (Transport → Attempt A)
    → (Transport → Attempt B)
    → Transport
    → Attempt B
m >> k = m >>= λ _. k

abbrev pub give {ℓ} : {A : Type ℓ} → A → Transport → Attempt A
give a t = have a t

abbrev attempt : Bytes → Reading → Attempt Bytes
attempt what r = elim r.status [ complete ↦ have r.bytes r.rest | _ ↦ broken what r.rest ]

-- ReadExact(buf, n, frame_deadline), or -1
pub want : ℕ → Bytes → Transport → Attempt Bytes
want n what t = attempt what (read_exact t n)

-- for (i = 0; i < 8; i++) len = (len << 8) | ext[i], in 64 bits
pub shift_bytes : ℕ → Bytes → ℕ
shift_bytes len [] = len
shift_bytes len (b ∷ ext) = shift_bytes (bit_or (u64 (len <<< 8)) b) ext

abbrev no_length : Bytes
no_length = codes "read extended length failed"

pub read_length : ℕ → Transport → Attempt ℕ
unfolding want shift_bytes
read_length len =
    if len == 126
    then (do ext ← want 2 no_length; give (bit_or (get_or ext 0 0 <<< 8) (get_or ext 1 0)))
    else if len == 127
    then (do ext ← want 8 no_length; give (shift_bytes 0 ext))
    else give len

-- 64 * 1024 * 1024
abbrev pub max_payload : ℕ
max_payload = 67108864

pub check_length : ℕ → Transport → Attempt (Unit {0})
check_length len t =
    if ltb max_payload len then broken (codes "frame length exceeds sanity bound") t else have tt t

pub read_key : Bool → Transport → Attempt Bytes
unfolding want
read_key true = want 4 (codes "read mask key failed")
read_key false = give (0 ∷ 0 ∷ 0 ∷ 0 ∷ [])

pub read_payload : ℕ → Transport → Attempt Bytes
unfolding want
read_payload len = if len == 0 then give [] else want len (codes "read payload failed")

unmask : Bool → Bytes → Bytes → Bytes
unfolding xor_mask
unmask true key payload = xor_mask (λ i. get_or key i 0) 0 payload
unmask false key payload = payload

-- (head[k] & 0x80) != 0
abbrev top_bit_set : ℕ → Bool
top_bit_set b = not (bit_and b 0x80 == 0)

-- The frame behind its two header bytes.
pub read_body : ℕ → ℕ → Transport → Attempt WsFrame
unfolding read_length check_length read_key read_payload unmask
read_body head0 head1 = do
  let masked = top_bit_set head1
  len ← read_length (bit_and head1 0x7f)
  check_length len
  key ← read_key masked
  payload ← read_payload len
  give (record {
    opcode = bit_and head0 0x0f;
    payload = unmask masked key payload;
    fin = top_bit_set head0;
  })

-- What Read returns: 1 with a frame, 0, or -1. `stuck` is no result of the code: the fuel ran out.
pub data Outcome : Type 0 where
  message : WsFrame → Outcome
  no_message : Outcome
  read_error : Bytes → Outcome
  stuck : Outcome

-- The outcome, the transport, and the pongs that Read hands to WriteAll on the way. Read does not look at
-- what WriteAll returns: a pong stands here whether its writing succeeds or not.
pub record ReadResult : Type 0 where
  pub outcome : Outcome
  pub transport : Transport
  pub pongs : List Bytes

abbrev pub result : Outcome → Transport → List Bytes → ReadResult
result outcome t pongs = record { outcome = outcome; transport = t; pongs = pongs }

-- One round of the loop: a frame, or the end of the call.
pub data Round : Type 0 where
  got : WsFrame → Transport → Round
  ended : Outcome → Transport → Round

abbrev round_of : Attempt WsFrame → Round
round_of (have frame t) = got frame t
round_of (broken what t) = ended (read_error what) t

round_after : Status → Transport → Round → Round
round_after complete t body = body
round_after timed_out t body = ended no_message t
round_after error t body = ended (read_error (codes "read frame header failed")) t

pub next_frame : Transport → Round
unfolding read_body round_after
next_frame t =
    let head = read_exact t 2 in
    round_after head.status head.rest
      (round_of (read_body (get_or head.bytes 0 0) (get_or head.bytes 1 0) head.rest))

module _ (rng : ℕ → ℕ → ℕ) where
  abbrev pong : Bytes → List Bytes → List Bytes
  pong payload pongs = pongs ++ (encode_ws_frame (rng (length pongs)) 0xa payload true ∷ [])

  pub read_loop : ℕ → Transport → List Bytes → ReadResult
  unfolding next_frame
  read_loop zero t pongs = result stuck t pongs
  read_loop (suc fuel) t pongs = elim (next_frame t) [
    | ended outcome t' ↦ result outcome t' pongs
    | got frame t' ↦ elim (frame.opcode == 0x9) [
      | true ↦ read_loop fuel t' (pong frame.payload pongs)
      | false ↦ elim (frame.opcode == 0xa) [
        | true ↦ read_loop fuel t' pongs
        | false ↦ result (message frame) t' pongs
      ]
    ]
  ]

  -- A frame takes two bytes at least, so this fuel is never used up.
  unfoldable pub read : Transport → ReadResult
  unfolding read_loop
  read t = read_loop (suc (pending t)) t []
