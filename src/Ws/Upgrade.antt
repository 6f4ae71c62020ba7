-- ===== src/Ws/Upgrade.antt =====
-- WsClient::Connect: the upgrade of a connection to a WebSocket (src/ws_client.cc). The random source,
-- the TCP connection, the TLS handshake and OpenSSL's SHA1 are parameters.
pub mod Heads
pub mod Answered
use trtc_asr_sdk_cpp.Common.{
  ℕ, zero, suc, ◌+◌, Bool, true, false, not, Option, none, some, List, [], ◌∷◌, ◌++◌, ℤ, Bytes,
  codes, to_string, length, take, ltb, get_or, if◌then◌else◌,
}
use trtc_asr_sdk_cpp.Common.Bits.{u8}
use trtc_asr_sdk_cpp.Encoding.Base64.{base64_encode}
use trtc_asr_sdk_cpp.Params.{find}
use trtc_asr_sdk_cpp.Ws.Transport.{
  Transport, Reading, Status, complete, timed_out, error, read_exact,
}
use trtc_asr_sdk_cpp.Ws.Sending.{SendEvent, write_all}
use trtc_asr_sdk_cpp.Ws.Url.{UrlParts, Parsed, parts, refused, parse_ws_url}

abbrev is_some : Option ℕ → Bool
is_some none = false
is_some (some n) = true

-- resp.find(pattern) != npos
unfoldable pub has : Bytes → Bytes → Bool
unfolding find
has pattern s = is_some (find pattern s)

abbrev pub head_end : Bytes
head_end = codes "\r\n\r\n"

-- The key of sixteen random bytes.
abbrev pub handshake_key : (ℕ → ℕ) → Bytes
handshake_key rng =
    let b : ℕ → ℕ = λ i. u8 (rng i) in
    base64_encode (
      b 0
      ∷ b 1
      ∷ b 2
      ∷ b 3
      ∷ b 4
      ∷ b 5
      ∷ b 6
      ∷ b 7
      ∷ b 8
      ∷ b 9
      ∷ b 10
      ∷ b 11
      ∷ b 12
      ∷ b 13
      ∷ b 14
      ∷ b 15
      ∷ [])

unfoldable pub upgrade_request : UrlParts → Bytes → Bytes
upgrade_request url key =
    codes "GET "
    ++ (url.target
        ++ (codes " HTTP/1.1\r\nHost: "
            ++ (url.host
                ++ (codes ":"
                    ++ (to_string url.port
                        ++ (codes
                              "\r\nUpgrade: websocket\r\nConnection: Upgrade\r\nSec-WebSocket-Key: "
                            ++ (key ++ codes "\r\nSec-WebSocket-Version: 13\r\n\r\n")))))))

-- The head of the response, or the text of a failure. `unfinished` is a loop that has run out of fuel.
pub data Head : Type 0 where
  headed : Bytes → Transport → Head
  head_failed : Bytes → Head
  unfinished : Head

-- `late i` tells whether the deadline has passed in front of round i.
module _ (late : ℕ → Bool) where
  unfoldable pub read_head : ℕ → ℕ → Transport → Bytes → Head
  unfolding has
  read_head zero i t resp = unfinished
  read_head (suc fuel) i t resp = elim (has head_end resp) [
    | true ↦ headed resp t
    | false ↦ elim (late i) [
      | true ↦ head_failed (codes "websocket handshake timeout")
      | false ↦ elim (read_exact t 1).status [
        | timed_out ↦ head_failed (codes "websocket handshake read failed")
        | error ↦ head_failed (codes "websocket handshake read failed")
        | complete ↦
            let longer = resp ++ (get_or (read_exact t 1).bytes 0 0 ∷ []) in
            elim (ltb 65536 (length longer)) [
              | true ↦ head_failed (codes "websocket handshake response too large")
              | false ↦ read_head fuel (suc i) (read_exact t 1).rest longer
            ]
      ]
    ]
  ]

abbrev up_to : Bytes → Option ℕ → Bytes
up_to s none = s
up_to s (some n) = take n s

module _ (sha1 : Bytes → Bytes) (key : Bytes) where
  abbrev pub accept_line : Bytes
  accept_line =
      codes "Sec-WebSocket-Accept: "
      ++ base64_encode (sha1 (key ++ codes "258EAFA5-E914-47DA-95CA-C5AB0DC85B11"))

  -- The text of a failure.
  unfoldable pub check_response : Bytes → Option Bytes
  unfolding has
  check_response resp =
      if not (has (codes " 101") resp)
      then some (codes "websocket handshake rejected: " ++ up_to resp (find (codes "\r\n") resp))
      else if not (has accept_line resp)
      then some (codes "websocket handshake accept key mismatch")
      else none

-- A client with its transport, the text of a failure, or a loop that has run out of fuel.
pub data Connected : Type 0 where
  connected : Transport → Connected
  rejected : Bytes → Connected
  stuck : Connected

abbrev pub accepted_by : Option Bytes → Transport → Connected
accepted_by (some text) t = rejected text
accepted_by none t = connected t

unfoldable pub after_head : (Bytes → Bytes) → Bytes → Head → Connected
unfolding check_response
after_head sha1 key (headed resp t) = accepted_by (check_response sha1 key resp) t
after_head sha1 key (head_failed text) = rejected text
after_head sha1 key unfinished = stuck

unfoldable pub after_request :
    (Bytes → Bytes) → Bytes → (ℕ → Bool) → Transport → Option Bytes → Connected
unfolding after_head read_head
after_request sha1 key late t (some text) = rejected text
after_request sha1 key late t none = after_head sha1 key (read_head late 65538 0 t [])

abbrev pub refused_by : Option Bytes → Connected → Connected
refused_by (some text) later = rejected text
refused_by none later = later

-- `tcp` and `tls` give the text of a failure, `events` what happens to the writing of the request, and
-- `t` what arrives behind it.
module _ (tcp : Bytes → ℤ → Option Bytes) (tls : Bytes → Option Bytes) (sha1 : Bytes → Bytes)
    (rng : ℕ → ℕ) (events : List SendEvent) (late : ℕ → Bool) (t : Transport) where
  unfoldable pub upgrade : UrlParts → Connected
  unfolding after_request upgrade_request
  upgrade url =
      let key = handshake_key rng in
      let secured = if url.secure then tls url.host else none in
      refused_by (tcp url.host url.port) (
        refused_by secured
          (after_request sha1 key late t (write_all (upgrade_request url key) events).failure))

  unfoldable pub connect_parsed : Parsed → Connected
  unfolding upgrade
  connect_parsed (refused text) = rejected (codes "invalid endpoint url: " ++ text)
  connect_parsed (parts url) = upgrade url

  unfoldable pub connect : Bytes → Connected
  unfolding connect_parsed
  connect url = connect_parsed (parse_ws_url url)
