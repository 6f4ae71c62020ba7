-- ===== src/Ws/Upgrade/Answered.antt =====
-- The end of Connect, and a peer that accepts the upgrade (src/ws_client.cc).
use trtc_asr_sdk_cpp.Common.{
  arith, ◌≡◌, ◌≢◌, refl, ℕ, ◌≤◌, Bool, true, false, Option, none, some, List, [], ◌++◌, codes, ℤ,
  Bytes, length, if◌then◌else◌,
}
use trtc_asr_sdk_cpp.Ws.Transport.{Transport}
use trtc_asr_sdk_cpp.Ws.Transport.Chunks.{Brings}
use trtc_asr_sdk_cpp.Ws.Sending.{SendEvent, write_all}
use trtc_asr_sdk_cpp.Ws.Url.{UrlParts, Parsed, parts, refused, parse_ws_url}
use trtc_asr_sdk_cpp.Ws.Upgrade.{
  has, Head, headed, head_failed, unfinished, read_head, handshake_key, upgrade_request,
  check_response, Connected, connected, stuck, accept_line, accepted_by, refused_by, after_head,
  after_request, upgrade, connect_parsed, connect,
}
use trtc_asr_sdk_cpp.Ws.Upgrade.Heads.{read_head-Brings, read_head-ends, ends_once}

check_response-none :
    (sha1 : Bytes → Bytes) (key head : Bytes)
    → has (codes " 101") head ≡ true
    → has (accept_line sha1 key) head ≡ true
    → check_response sha1 key head ≡ none
unfolding check_response
check_response-none sha1 key head switching key_there = rw (switching, key_there) refl

if_none :
    (b : Bool) (failure : Option Bytes) → failure ≡ none → (if b then failure else none) ≡ none
if_none true failure h = h
if_none false failure h = refl

upgrade-accepted :
    (tcp : Bytes → ℤ → Option Bytes) (tls : Bytes → Option Bytes) (sha1 : Bytes → Bytes)
    (rng : ℕ → ℕ) (events : List SendEvent) (late : ℕ → Bool) (t : Transport) (p : UrlParts)
    (head : Bytes) (t' : Transport)
    → tcp p.host p.port ≡ none
    → tls p.host ≡ none
    → (write_all (upgrade_request p (handshake_key rng)) events).failure ≡ none
    → read_head late 65538 0 t [] ≡ headed head t'
    → check_response sha1 (handshake_key rng) head ≡ none
    → upgrade tcp tls sha1 rng events late t p ≡ connected t'
unfolding upgrade after_request after_head
upgrade-accepted tcp tls sha1 rng events late t p head t' reached secured sent run fine =
    let secured' = if_none p.secure (tls p.host) secured in
    rw (reached, secured', sent, run, fine) refl

-- Connect to a URL whose server is reached and takes the request, and answers, before the deadline, with a
-- head of at most 64 KB that accepts the upgrade, gives a client that reads on right behind the head:
-- no byte of the first frames is lost, however the stream is cut into segments.
pub connect-Brings :
    (tcp : Bytes → ℤ → Option Bytes) (tls : Bytes → Option Bytes) (sha1 : Bytes → Bytes)
    (rng : ℕ → ℕ) (events : List SendEvent) (late : ℕ → Bool) (t : Transport) (url : Bytes)
    (p : UrlParts) (head back : Bytes)
    → parse_ws_url url ≡ parts p
    → tcp p.host p.port ≡ none
    → tls p.host ≡ none
    → (write_all (upgrade_request p (handshake_key rng)) events).failure ≡ none
    → ((i : ℕ) → late i ≡ false)
    → ends_once [] head ≡ true
    → length head ≤ 65536
    → has (codes " 101") head ≡ true
    → has (accept_line sha1 (handshake_key rng)) head ≡ true
    → Brings t (head ++ back)
    → (t' : Transport) × (connect tcp tls sha1 rng events late t url ≡ connected t')
      × Brings t' back
unfolding connect connect_parsed
connect-Brings tcp tls sha1 rng events late t url p head back parsed reached secured sent never once
      small switching key_there b =
    let (t', run, b') =
      read_head-Brings late never head [] back 65538 0 t once (omega (arith, small))
        (omega (arith, small)) b in
    let fine : check_response sha1 (handshake_key rng) head ≡ none =
      check_response-none sha1 (handshake_key rng) head switching key_there in
    (
      t',
      rw (parsed, connect)
          (upgrade-accepted tcp tls sha1 rng events late t p head t' reached secured sent run fine),
      b',
    )

accepted_by-ne-stuck : (failure : Option Bytes) (t : Transport) → accepted_by failure t ≢ stuck
accepted_by-ne-stuck none t h = cc
accepted_by-ne-stuck (some text) t h = cc

refused_by-ne-stuck :
    (failure : Option Bytes) (later : Connected) → later ≢ stuck → refused_by failure later ≢ stuck
refused_by-ne-stuck none later h = h
refused_by-ne-stuck (some text) later h = λ e. cc

after_head-ne-stuck :
    (sha1 : Bytes → Bytes) (key : Bytes) (h : Head) → h ≢ unfinished → after_head sha1 key h ≢ stuck
unfolding after_head
after_head-ne-stuck sha1 key (headed resp t) h =
    accepted_by-ne-stuck (check_response sha1 key resp) t
after_head-ne-stuck sha1 key (head_failed text) h = λ e. cc
after_head-ne-stuck sha1 key unfinished h = absurd (h refl)

after_request-ne-stuck :
    (sha1 : Bytes → Bytes) (key : Bytes) (late : ℕ → Bool) (t : Transport) (failure : Option Bytes)
    → after_request sha1 key late t failure ≢ stuck
unfolding after_request
after_request-ne-stuck sha1 key late t (some text) = λ e. cc
after_request-ne-stuck sha1 key late t none =
    after_head-ne-stuck sha1 key (read_head late 65538 0 t [])
      (read_head-ends late 65538 0 t [] (omega arith) (omega arith))

connect_parsed-ne-stuck :
    (tcp : Bytes → ℤ → Option Bytes) (tls : Bytes → Option Bytes) (sha1 : Bytes → Bytes)
    (rng : ℕ → ℕ) (events : List SendEvent) (late : ℕ → Bool) (t : Transport) (parsed : Parsed)
    → connect_parsed tcp tls sha1 rng events late t parsed ≢ stuck
unfolding connect_parsed upgrade
connect_parsed-ne-stuck tcp tls sha1 rng events late t (refused text) = λ e. cc
connect_parsed-ne-stuck tcp tls sha1 rng events late t (parts p) =
    refused_by-ne-stuck (tcp p.host p.port) _ (
      refused_by-ne-stuck (if p.secure then tls p.host else none) _ (
        after_request-ne-stuck sha1 (handshake_key rng) late t
          (write_all (upgrade_request p (handshake_key rng)) events).failure))

-- Connect ends with a client or a failure, whatever arrives: the head that it reads is bounded.
pub connect-ne-stuck :
    (tcp : Bytes → ℤ → Option Bytes) (tls : Bytes → Option Bytes) (sha1 : Bytes → Bytes)
    (rng : ℕ → ℕ) (events : List SendEvent) (late : ℕ → Bool) (t : Transport) (url : Bytes)
    → connect tcp tls sha1 rng events late t url ≢ stuck
unfolding connect
connect-ne-stuck tcp tls sha1 rng events late t url =
    connect_parsed-ne-stuck tcp tls sha1 rng events late t (parse_ws_url url)
