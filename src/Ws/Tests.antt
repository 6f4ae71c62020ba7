-- ===== src/Ws/Tests.antt =====
-- Runs of the frame reader at concrete streams (src/ws_client.cc).
use trtc_asr_sdk_cpp.Common.{
  none, Option, ◌≤◌, ℤ, take, to_string, ◌*◌, get_or, any, ◌==◌, ℕ, ◌≡◌, ◌≢◌, refl, arith, inl, inr,
  true, false, List, [], ◌∷◌, ◌++◌, pos, Bytes, codes, length,
}
use trtc_asr_sdk_cpp.Ws.Frame.{encode_ws_frame}
use trtc_asr_sdk_cpp.Ws.Transport.{Transport, Event, arrived, expired, retry}
use trtc_asr_sdk_cpp.Ws.Transport.Chunks.{Brings}
use trtc_asr_sdk_cpp.Ws.Reader.{read, result, message, no_message, stuck}
use trtc_asr_sdk_cpp.Ws.Reader.RoundTrip.{text_or_binary}
use trtc_asr_sdk_cpp.Ws.Reader.Loop.{Sent, wire, wires, answers}
use trtc_asr_sdk_cpp.Ws.Reader.Messages.{read-wires}
use trtc_asr_sdk_cpp.Ws.Reader.Termination.{read-ne-stuck}
use trtc_asr_sdk_cpp.Ws.Reader.Split.{read_splits_header}
use trtc_asr_sdk_cpp.Ws.Sending.{SendEvent, overdue, again, took, write_all, send_text, send_binary}
use trtc_asr_sdk_cpp.Ws.Sending.Written.{Splits, write_all-Splits, read-send}
use trtc_asr_sdk_cpp.Ws.Uuid.{generate_uuid, generate_uuid-cases}
use trtc_asr_sdk_cpp.Query.Escape.{query_escape}
use trtc_asr_sdk_cpp.Encoding.Base64.{base64_encode}
use trtc_asr_sdk_cpp.Ws.Upgrade.{
  has, handshake_key, upgrade_request, accept_line, connected, connect,
}
use trtc_asr_sdk_cpp.Ws.Upgrade.Heads.{ends_once}
use trtc_asr_sdk_cpp.Ws.Upgrade.Answered.{connect-Brings}
use trtc_asr_sdk_cpp.Ws.Url.{UrlParts, parts, parse_ws_url, stoi}
use trtc_asr_sdk_cpp.Ws.Url.Parts.{parse_ws_url-parts, url_parts}

abbrev rng : ℕ → ℕ → ℕ
rng k i = 7

abbrev ping : Sent
ping = record { key = λ i. 1; masks = false; opcode = 0x9; payload = codes "p" }

abbrev text : Sent
text = record { key = λ i. 5; masks = true; opcode = 0x1; payload = codes "hi" }

abbrev segments : Bytes → List Event
segments [] = []
segments (b ∷ bytes) = arrived b [] ∷ retry ∷ segments bytes

abbrev stream_of_two : Transport
stream_of_two = record { read_buf = []; events = segments (wires (ping ∷ []) ++ (wire text ++ [])) }

stream_of_two-Brings : Brings stream_of_two (wires (ping ∷ []) ++ (wire text ++ []))
unfolding encode_ws_frame
stream_of_two-Brings = record { no_leftovers = refl; brings = refl; live = tt }

read-wires_example :
    (t' : Transport) × (read rng stream_of_two
      ≡ result (message (text_or_binary 0x1 (codes "hi"))) t' (answers rng [] (ping ∷ [])))
    × Brings t' []
read-wires_example =
    read-wires rng (ping ∷ []) text [] stream_of_two ((inl refl, omega arith), tt)
      (omega arith, (λ h. absurd (omega (arith, h))), (λ h. absurd (omega (arith, h))), omega arith)
      stream_of_two-Brings

read-ne-stuck_example : (read rng stream_of_two).outcome ≢ stuck
read-ne-stuck_example = read-ne-stuck rng stream_of_two

abbrev three_bytes : Transport
three_bytes = record { read_buf = []; events = arrived 1 (2 ∷ 3 ∷ []) ∷ [] }

read_splits_header_example :
    read rng (record {
      read_buf = [];
      events = retry ∷ arrived 0x81 [] ∷ retry ∷ expired ∷ arrived 2 (codes "hi") ∷ [];
    })
    ≡ result no_message (record { read_buf = []; events = arrived 2 (codes "hi") ∷ [] }) []
read_splits_header_example =
    read_splits_header 0x81 expired (arrived 2 (codes "hi") ∷ []) (inr refl) 1 1 rng

parse_ws_url-parts_example :
    (parse_ws_url (codes "wss://" ++ (codes "a" ++ (b'/' ∷ codes "p")))
      ≡ parts (url_parts true (codes "a") (pos 443) (codes "p")))
    × (parse_ws_url (codes "ws://" ++ (codes "a" ++ (b'/' ∷ codes "p")))
        ≡ parts (url_parts false (codes "a") (pos 80) (codes "p")))
    × (parse_ws_url (codes "wss://" ++ ((b'a' ∷ ([] ++ (b':' ∷ codes "99"))) ++ (b'/' ∷ codes "p")))
        ≡ parts (url_parts true (codes "a") (pos 99) (codes "p")))
    × (parse_ws_url (codes "ws://" ++ ((b'a' ∷ ([] ++ (b':' ∷ codes "99"))) ++ (b'/' ∷ codes "p")))
        ≡ parts (url_parts false (codes "a") (pos 99) (codes "p")))
unfolding stoi
parse_ws_url-parts_example =
    parse_ws_url-parts b'a' [] (codes "99") (codes "p") (pos 99) (ground arith, tt)
      (ground arith, (ground arith, tt)) refl

-- A socket that takes three bytes, then nothing for now, then the rest.
abbrev slow : List SendEvent
slow = took 3 ∷ again ∷ took 100 ∷ []

write_all-Splits_example :
    Splits (codes "hello") (write_all (codes "hello") (took 3 ∷ overdue ∷ []))
write_all-Splits_example = write_all-Splits (codes "hello") (took 3 ∷ overdue ∷ [])

abbrev ones : ℕ → ℕ
ones i = 1

abbrev binary_wire : Transport
binary_wire = record {
  read_buf = [];
  events = segments ((send_binary ones (codes "hi") slow).sent ++ []);
}

abbrev text_wire : Transport
text_wire = record {
  read_buf = [];
  events = segments ((send_text ones (codes "hi") slow).sent ++ []);
}

binary_wire-Brings : Brings binary_wire ((send_binary ones (codes "hi") slow).sent ++ [])
unfolding send_binary encode_ws_frame
binary_wire-Brings = record { no_leftovers = refl; brings = refl; live = tt }

text_wire-Brings : Brings text_wire ((send_text ones (codes "hi") slow).sent ++ [])
unfolding send_text encode_ws_frame
text_wire-Brings = record { no_leftovers = refl; brings = refl; live = tt }

slow_is_fine :
    ((send_binary ones (codes "hi") slow).failure ≡ none)
    × ((send_text ones (codes "hi") slow).failure ≡ none)
unfolding send_binary send_text encode_ws_frame
slow_is_fine = (refl, refl)

read-send_example :
    ((t' : Transport) × (read rng binary_wire
        ≡ result (message (text_or_binary 0x2 (codes "hi"))) t' [])
      × Brings t' [])
    × ((u' : Transport) × (read rng text_wire
          ≡ result (message (text_or_binary 0x1 (codes "hi"))) u' [])
        × Brings u' [])
read-send_example =
    read-send ones rng (codes "hi") [] slow binary_wire text_wire (omega arith) slow_is_fine.0
      slow_is_fine.1 binary_wire-Brings text_wire-Brings

generate_uuid-cases_example :
    let id = generate_uuid (λ i. i * 37) in
    (length id ≡ 36)
    × (get_or id 8 0 ≡ b'-')
    × (get_or id 13 0 ≡ b'-')
    × (get_or id 18 0 ≡ b'-')
    × (get_or id 23 0 ≡ b'-')
    × (get_or id 14 0 ≡ b'4')
    × (any (λ v. v == get_or id 19 0) (codes "89ab") ≡ true)
    × (query_escape id ≡ id)
generate_uuid-cases_example = generate_uuid-cases (λ i. i * 37)

abbrev digest : Bytes → Bytes
digest text = take 20 text

abbrev server : Bytes
server = codes "ws://a/b"

abbrev server_parts : UrlParts
server_parts = record { secure = false; host = codes "a"; port = pos 80; target = codes "/b" }

abbrev switching : Bytes
switching =
    codes "HTTP/1.1 101 Switching Protocols\r\n"
    ++ (accept_line digest (handshake_key ones) ++ codes "\r\n\r\n")

abbrev upgraded : Transport
upgraded = record { read_buf = []; events = segments (switching ++ (0x81 ∷ 0x00 ∷ [])) }

upgraded-Brings : Brings upgraded (switching ++ (0x81 ∷ 0x00 ∷ []))
unfolding base64_encode
upgraded-Brings = record { no_leftovers = refl; brings = refl; live = tt }

switching_is_good :
    (ends_once [] switching ≡ true)
    × (length switching ≤ 65536)
    × (has (codes " 101") switching ≡ true)
    × (has (accept_line digest (handshake_key ones)) switching ≡ true)
unfolding has base64_encode
switching_is_good = (refl, omega arith, refl, refl)

server_is_parsed : parse_ws_url server ≡ parts server_parts
unfolding parse_ws_url
server_is_parsed = refl

abbrev reached : Bytes → ℤ → Option Bytes
reached host port = none

abbrev trusted : Bytes → Option Bytes
trusted host = none

request_is_sent :
    (write_all (upgrade_request server_parts (handshake_key ones)) (took 500 ∷ [])).failure ≡ none
unfolding write_all upgrade_request base64_encode to_string
request_is_sent = refl

connect-Brings_example :
    (t' : Transport) × (connect reached trusted digest ones
        (took 500 ∷ [])
        (λ i. false)
        upgraded
        server
      ≡ connected t')
    × Brings t' (0x81 ∷ 0x00 ∷ [])
connect-Brings_example =
    connect-Brings reached trusted digest ones (took 500 ∷ []) (λ i. false) upgraded server
      server_parts switching (0x81 ∷ 0x00 ∷ []) server_is_parsed refl refl request_is_sent
      (λ i. refl) switching_is_good.0 switching_is_good.1 switching_is_good.2 switching_is_good.3
      upgraded-Brings
