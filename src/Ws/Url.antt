-- ===== src/Ws/Url.antt =====
-- ParseWsUrl (src/ws_client.cc).
pub mod Parts
use trtc_asr_sdk_cpp.Common.{
  ℕ, zero, suc, ◌+◌, ◌-◌, ◌*◌, ◌≡◌, refl, Bool, true, false, not, ◌&&◌, ◌||◌, Option, none, some,
  List, [], ◌∷◌, ◌++◌, ℤ, pos, negsuc, Bytes, codes, is_empty, ltb, leb, ◌==◌, if◌then◌else◌, drop,
  any,
}
use trtc_asr_sdk_cpp.Params.{starts_with}
use trtc_asr_sdk_cpp.Credential.{is_space}

pub record UrlParts : Type 0 where
  pub secure : Bool
  pub host : Bytes
  pub port : ℤ
  pub target : Bytes

-- True with the parts, or false with a text.
pub data Parsed : Type 0 where
  parts : UrlParts → Parsed
  refused : Bytes → Parsed

-- The front up to the first occurrence of a character, and the rest from there on.
abbrev pub before : ℕ → Bytes → Bytes
before sep [] = []
before sep (c ∷ s) = let more = c ∷ before sep s in if c == sep then [] else more

abbrev pub from : ℕ → Bytes → Bytes
from sep [] = []
from sep (c ∷ s) = let more = from sep s in if c == sep then c ∷ s else more

-- The split at the last occurrence: rfind.
abbrev last_step : ℕ → ℕ → Bytes → Option (Bytes × Bytes) → Option (Bytes × Bytes)
last_step sep c s (some (host, port)) = some (c ∷ host, port)
last_step sep c s none = if c == sep then some ([], s) else none

pub split_last : ℕ → Bytes → Option (Bytes × Bytes)
split_last sep [] = none
split_last sep (c ∷ s) = last_step sep c s (split_last sep s)

-- The digits at the front of a text, as `std::stoi` reads them; `none` when there is no digit.
abbrev is_digit : ℕ → Bool
is_digit c = leb b'0' c && leb c b'9'

pub leading_number : ℕ → Bytes → ℕ
leading_number n [] = n
leading_number n (c ∷ s) =
    let more = leading_number (n * 10 + (c - b'0')) s in if is_digit c then more else n

digits_value : Bytes → Option ℕ
unfolding leading_number
digits_value [] = none
digits_value (c ∷ s) = if is_digit c then some (leading_number 0 (c ∷ s)) else none

-- In the range of `int`: a value beyond it throws.
abbrev in_int : Bool → Option ℕ → Option ℤ
in_int negative none = none
in_int false (some n) = if ltb n 2147483648 then some (pos n) else none
in_int true (some zero) = some (pos 0)
in_int true (some (suc n)) = if ltb n 2147483648 then some (negsuc n) else none

skip_spaces : Bytes → Bytes
skip_spaces [] = []
skip_spaces (c ∷ s) = let rest = skip_spaces s in if is_space c then rest else c ∷ s

signed : Bytes → Option ℤ
unfolding digits_value
signed [] = none
signed (c ∷ s) =
    if c == b'-'
    then in_int true (digits_value s)
    else if c == b'+'
    then in_int false (digits_value s)
    else in_int false (digits_value (c ∷ s))

-- `std::stoi`; whatever it throws is caught.
unfoldable pub stoi : Bytes → Option ℤ
unfolding signed skip_spaces
stoi s = signed (skip_spaces s)

abbrev with_port : Bool → Bytes → Bytes → Option ℤ → Parsed
with_port secure host target none = refused (codes "invalid port")
with_port secure host target (some port) =
    parts (record { secure = secure; host = host; port = port; target = target })

-- `colon` is the split at the last ':'.
pub parse_authority : Bool → ℕ → Bytes → Bytes → Option (Bytes × Bytes) → Parsed
unfolding stoi
parse_authority secure port authority target none =
    parts (record { secure = secure; host = authority; port = pos port; target = target })
parse_authority secure port authority target (some (host, digits)) =
    if any (λ c. c == b']') authority
    then parts (record { secure = secure; host = authority; port = pos port; target = target })
    else with_port secure host target (stoi digits)

pub parse_rest : Bool → ℕ → Bytes → Parsed
unfolding parse_authority split_last
parse_rest secure port rest =
    let authority = before b'/' rest in
    let path = from b'/' rest in
    let target = if is_empty path then codes "/" else path in
    if is_empty authority
    then refused (codes "url has no host")
    else parse_authority secure port authority target (split_last b':' authority)

unfoldable pub parse_ws_url : Bytes → Parsed
unfolding parse_rest
parse_ws_url url =
    if starts_with (codes "wss://") url
    then parse_rest true 443 (drop 6 url)
    else if starts_with (codes "ws://") url
    then parse_rest false 80 (drop 5 url)
    else refused (codes "unsupported scheme, want ws or wss")

parse_ws_url_example :
    parse_ws_url (codes "ws://localhost:8080/a?b")
    ≡ parts (record {
      secure = false;
      host = codes "localhost";
      port = pos 8080;
      target = codes "/a?b";
    })
unfolding parse_ws_url
parse_ws_url_example = refl
