-- ===== src/Ws/Url/Parts.antt =====
-- The parts of a WebSocket URL (src/ws_client.cc).
use trtc_asr_sdk_cpp.Common.{
  ℕ, ◌≡◌, ◌≢◌, refl, ap, arith, Bool, true, false, none, some, [], ◌∷◌, ◌++◌, ℤ, pos, Bytes, codes,
  ◌==◌, any, All, All-append,
}
use trtc_asr_sdk_cpp.Ws.Url.{
  UrlParts, parts, before, from, split_last, parse_authority, parse_rest, parse_ws_url, stoi,
}

abbrev pub IsHostChar : ℕ → Type 0
IsHostChar c = (c ≢ b'/') × (c ≢ b':') × (c ≢ b']')

before-front : (w s : Bytes) → All (λ c. c ≢ b'/') w → before b'/' (w ++ (b'/' ∷ s)) ≡ w
before-front [] s h = refl
before-front (c ∷ w) s (h, hs) =
    let e : (c == b'/') ≡ false = ground arith in rw e (ap (◌∷◌ c) (before-front w s hs))

from-front : (w s : Bytes) → All (λ c. c ≢ b'/') w → from b'/' (w ++ (b'/' ∷ s)) ≡ b'/' ∷ s
from-front [] s h = refl
from-front (c ∷ w) s (h, hs) =
    let e : (c == b'/') ≡ false = ground arith in rw e (from-front w s hs)

split_last-none : (w : Bytes) → All (λ c. c ≢ b':') w → split_last b':' w ≡ none
unfolding split_last
split_last-none [] h = refl
split_last-none (c ∷ w) (h, hs) =
    let e : (c == b':') ≡ false = ground arith in rw (split_last-none w hs, e)

split_last-some :
    (w port : Bytes)
    → All (λ c. c ≢ b':') port
    → split_last b':' (w ++ (b':' ∷ port)) ≡ some (w, port)
unfolding split_last
split_last-some [] port h = rw (split_last-none port h)
split_last-some (c ∷ w) port h = rw (split_last-some w port h)

no_bracket : (w : Bytes) → All (λ c. c ≢ b']') w → any (λ c. c == b']') w ≡ false
no_bracket [] h = refl
no_bracket (c ∷ w) (h, hs) = let e : (c == b']') ≡ false = ground arith in rw (e, no_bracket w hs)

not_slash : (w : Bytes) → All IsHostChar w → All (λ c. c ≢ b'/') w
not_slash [] h = tt
not_slash (c ∷ w) (h, hs) = (h.0, not_slash w hs)

not_colon : (w : Bytes) → All IsHostChar w → All (λ c. c ≢ b':') w
not_colon [] h = tt
not_colon (c ∷ w) (h, hs) = (h.1, not_colon w hs)

not_bracket : (w : Bytes) → All IsHostChar w → All (λ c. c ≢ b']') w
not_bracket [] h = tt
not_bracket (c ∷ w) (h, hs) = (h.2, not_bracket w hs)

abbrev pub url_parts : Bool → Bytes → ℤ → Bytes → UrlParts
url_parts secure host port path = record {
  secure = secure;
  host = host;
  port = port;
  target = b'/' ∷ path;
}

parse_rest-default :
    (secure : Bool) (port : ℕ) (c : ℕ) (host path : Bytes)
    → All IsHostChar (c ∷ host)
    → parse_rest secure port ((c ∷ host) ++ (b'/' ∷ path))
      ≡ parts (url_parts secure (c ∷ host) (pos port) path)
unfolding parse_rest parse_authority
parse_rest-default secure port c host path h = rw (
  before-front (c ∷ host) path (not_slash (c ∷ host) h),
  from-front (c ∷ host) path (not_slash (c ∷ host) h),
  split_last-none (c ∷ host) (not_colon (c ∷ host) h),
)

parse_rest-port :
    (secure : Bool) (default : ℕ) (c : ℕ) (host digits path : Bytes) (port : ℤ)
    → All IsHostChar (c ∷ host)
    → All IsHostChar digits
    → stoi digits ≡ some port
    → parse_rest secure default ((c ∷ (host ++ (b':' ∷ digits))) ++ (b'/' ∷ path))
      ≡ parts (url_parts secure (c ∷ host) port path)
unfolding parse_rest parse_authority
parse_rest-port secure default c host digits path port h d e =
    let authority = (c ∷ host) ++ (b':' ∷ digits) in
    let plain : All (λ c. c ≢ b'/') authority =
      All-append (λ c. c ≢ b'/') (c ∷ host) (b':' ∷ digits) (not_slash (c ∷ host) h)
        (ground arith, not_slash digits d) in
    let open_host : All (λ c. c ≢ b']') authority =
      All-append (λ c. c ≢ b']') (c ∷ host) (b':' ∷ digits) (not_bracket (c ∷ host) h)
        (ground arith, not_bracket digits d) in
    rw
      (
        before-front authority path plain,
        from-front authority path plain,
        split_last-some (c ∷ host) digits (not_colon digits d),
      )
      (rw (no_bracket authority open_host) (rw e))

-- A URL of scheme wss or ws, a host, a port or none, and a path is split into these parts, with port 443 or
-- 80 where the URL names none; the host and the port hold no '/', ':' or ']'.
pub parse_ws_url-parts :
    (c : ℕ) (host digits path : Bytes) (port : ℤ)
    → All IsHostChar (c ∷ host)
    → All IsHostChar digits
    → stoi digits ≡ some port
    → (parse_ws_url (codes "wss://" ++ ((c ∷ host) ++ (b'/' ∷ path)))
        ≡ parts (url_parts true (c ∷ host) (pos 443) path))
      × (parse_ws_url (codes "ws://" ++ ((c ∷ host) ++ (b'/' ∷ path)))
          ≡ parts (url_parts false (c ∷ host) (pos 80) path))
      × (parse_ws_url (codes "wss://" ++ ((c ∷ (host ++ (b':' ∷ digits))) ++ (b'/' ∷ path)))
          ≡ parts (url_parts true (c ∷ host) port path))
      × (parse_ws_url (codes "ws://" ++ ((c ∷ (host ++ (b':' ∷ digits))) ++ (b'/' ∷ path)))
          ≡ parts (url_parts false (c ∷ host) port path))
unfolding parse_ws_url
parse_ws_url-parts c host digits path port h d e = (
  parse_rest-default true 443 c host path h,
  parse_rest-default false 80 c host path h,
  parse_rest-port true 443 c host digits path port h d e,
  parse_rest-port false 80 c host digits path port h d e,
)
