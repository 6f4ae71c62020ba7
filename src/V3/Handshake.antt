-- ===== src/V3/Handshake.antt =====
-- Connect of v3::SpeechRecognizer, from the dial to the acknowledgement (src/v3.cc).
pub mod Waiting
use trtc_asr_sdk_cpp.Common.{
  ℕ, zero, suc, Bool, true, false, not, ◌&&◌, Option, none, some, List, [], ◌++◌, ℤ, pos, Bytes,
  codes, is_empty, leb, ◌==◌, ◌==ℤ◌, if◌then◌else◌, Result, ok, throw, Exception, asr_error, what,
  err_connect_failed, err_write_failed, err_read_failed, err_server_error, ◌>>=◌,
}
use trtc_asr_sdk_cpp.Json.{JsonLibrary}
use trtc_asr_sdk_cpp.Params.Doubles.{Double}
use trtc_asr_sdk_cpp.Credential.{Credential}
use trtc_asr_sdk_cpp.Response.{SpeakerContinue}
use trtc_asr_sdk_cpp.Offline.{World}
use trtc_asr_sdk_cpp.Ws.Reader.{WsFrame}
use trtc_asr_sdk_cpp.Recognizer.Reader.{Received, no_frame, read_failed, a_frame, colon_and}
use trtc_asr_sdk_cpp.V3.Realtime.{Options, Opening, validate_options, open_with}

-- How the wait for the acknowledgement ends: accepted, with an exception behind Close, or with one that
-- leaves the connection open.
pub data Ack : Type 0 where
  accepted : Option SpeakerContinue → Ack
  closed : Exception → Ack
  leaked : Exception → Ack

abbrev ack_error : Bytes → Ack
ack_error text = closed (asr_error err_read_failed (codes "read start ack failed" ++ text))

module _ (J : JsonLibrary) where
  pub parse_continue : J.Json → Result SpeakerContinue
  parse_continue sc = do
    continue_status ← J.value_string sc (codes "continue_status") []
    speaker_context_id ← J.value_string sc (codes "speaker_context_id") []
    ok (record { continue_status = continue_status; speaker_context_id = speaker_context_id })

  pub refusal : ℤ → Result Bytes → Ack
  refusal code (ok message) = closed (asr_error code message)
  refusal code (throw e) = closed e

  pub acceptance : Result SpeakerContinue → Ack
  acceptance (ok sc) = accepted (some sc)
  acceptance (throw e) = leaked e

  pub read_code : J.Json → Result ℤ → Ack
  unfolding refusal acceptance parse_continue
  read_code ack (throw e) = leaked e
  read_code ack (ok code) =
      if not (code ==ℤ pos 0)
      then refusal code (J.value_string ack (codes "message") [])
      else if J.contains ack (codes "speaker_continue")
          && J.is_object (J.at ack (codes "speaker_continue"))
      then acceptance (parse_continue (J.at ack (codes "speaker_continue")))
      else accepted none

  pub read_ack : Result J.Json → Ack
  unfolding read_code
  read_ack (throw e) = closed (asr_error err_server_error (codes "invalid start ack: " ++ what e))
  read_ack (ok ack) = read_code ack (J.value_int ack (codes "code") (pos 0))

  -- One round of the loop, at a time; `none` goes on.
  unfoldable pub ack_round : ℕ → ℕ → Received → Option Ack
  unfolding read_ack
  ack_round deadline time no_frame =
      if leb deadline time then some (ack_error (codes ": ack timeout")) else none
  ack_round deadline time (read_failed text) = some (ack_error (colon_and text))
  ack_round deadline time (a_frame f) =
      if f.opcode == 0x8
      then some (ack_error (codes ": connection closed by server"))
      else if not (f.opcode == 0x1)
      then none
      else some (read_ack (J.parse f.payload))

  pub next_round : Option Ack → Option Ack → Option Ack
  next_round (some a) later = some a
  next_round none later = later

  -- The loop on what Read returns in each round, and on the clock there. `none` still waits.
  unfoldable pub ack_from : ℕ → (ℕ → Received) → (ℕ → ℕ) → ℕ → ℕ → Option Ack
  unfolding ack_round next_round
  ack_from deadline received clock zero n = none
  ack_from deadline received clock (suc fuel) n =
      let later = ack_from deadline received clock fuel (suc n) in
      next_round (ack_round deadline (clock n) (received n)) later

-- What ValidateOptions and Connect come to: the outcome, whether a connection is left in the shared
-- state, and the speaker context of the acknowledgement.
pub record Handshake : Type 0 where
  pub outcome : Result (Unit {0})
  pub conn : Bool
  pub speaker_continue : Option SpeakerContinue

abbrev pub failed_with : Exception → Bool → Handshake
failed_with e conn = record { outcome = throw e; conn = conn; speaker_continue = none }

unfoldable pub acknowledged : Ack → Handshake
acknowledged (accepted sc) = record { outcome = ok tt; conn = true; speaker_continue = sc }
acknowledged (closed e) = failed_with e false
acknowledged (leaked e) = failed_with e true

-- Behind the dial: `failure` is the text of a failed send of the start frame.
unfoldable pub after_dial : Bool → Option Bytes → Ack → Handshake
unfolding acknowledged
after_dial conn (some err) ack =
    failed_with (asr_error err_write_failed (codes "send start frame failed: " ++ err)) conn
after_dial conn none ack = acknowledged ack

unfoldable pub dialled : Bool → Option Bytes → Option Bytes → Ack → Handshake
unfolding after_dial
dialled conn (some err) failure ack =
    failed_with (asr_error err_connect_failed (codes "websocket dial failed: " ++ err)) conn
dialled conn none failure ack = after_dial conn failure ack

-- `conn` tells whether a connection is there already.
unfoldable pub connect :
    (Bytes → Option Bytes) → (Bytes → Option Bytes) → Ack → Bool → Result Opening → Handshake
unfolding dialled
connect dial send ack conn (throw e) = failed_with e conn
connect dial send ack conn (ok opening) =
    dialled conn (dial opening.ws_url) (send opening.start_text) ack

unfoldable pub checked : Result (Unit {0}) → Bool → Handshake → Handshake
checked (ok u) conn handshake = handshake
checked (throw e) conn handshake = failed_with e conn

-- The try block of Start.
unfoldable pub prepare :
    (Double → Bytes)
    → World
    → Credential
    → Options
    → (Bytes → Option Bytes)
    → (Bytes → Option Bytes)
    → Ack
    → Bool
    → Handshake
unfolding connect checked
prepare format_f world c o dial send ack conn =
    checked (validate_options format_f o) conn (connect dial send ack conn (open_with world c o))
