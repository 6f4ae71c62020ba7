-- ===== src/Encoding/Base64.antt =====
-- Base64Encode, Base64Decode and the URL-safe variants (src/usersig.cc).
mod Group
pub mod RoundTrip
pub mod Shape
use mathlib.Core.List.{map}
use trtc_asr_sdk_cpp.Common.{
  ℕ, ◌+◌, ◌-◌, ◌≡◌, refl, Bool, true, false, ◌&&◌, ◌||◌, Option, none, some, List, [], ◌∷◌, ◌++◌,
  bit_and, bit_or, ℤ, pos, negsuc, Bytes, codes, ltb, leb, ◌==◌, if◌then◌else◌, get_or, Result, ok,
  throw, asr_error, err_invalid_param,
}
use trtc_asr_sdk_cpp.Common.Bits.{◌<<<◌, ◌>>>◌, u32}

-- kB64Alphabet
abbrev pub b64_alphabet : Bytes
b64_alphabet = codes "ABCDEFGHIJKLMNOPQRSTUVWXYZabcdefghijklmnopqrstuvwxyz0123456789+/"

-- kB64Alphabet[i]
unfoldable pub b64_char : ℕ → ℕ
b64_char i = get_or b64_alphabet i 0

-- A byte of 128 or more is a negative `char`, and lies in no range either.
unfoldable pub b64_value : ℕ → ℤ
b64_value c =
    if leb b'A' c && leb c b'Z'
    then pos (c - b'A')
    else if leb b'a' c && leb c b'z'
    then pos (c - b'a' + 26)
    else if leb b'0' c && leb c b'9'
    then pos (c - b'0' + 52)
    else if c == b'+'
    then pos 62
    else if c == b'/'
    then pos 63
    else negsuc 0

abbrev or_byte : ℕ → Option ℕ → ℕ → ℕ
or_byte v none k = v
or_byte v (some b) k = bit_or v (b <<< k)

abbrev pad_char : Option ℕ → ℕ → ℕ
pad_char none i = b'='
pad_char (some b) i = b64_char i

-- One round of the encoder: `none` stands for an index at or past `len`.
pub encode_group : ℕ → Option ℕ → Option ℕ → Bytes
encode_group a b c =
    let v = or_byte (or_byte (a <<< 16) b 8) c 0 in
    b64_char (bit_and (v >>> 18) 0x3f)
    ∷ b64_char (bit_and (v >>> 12) 0x3f)
    ∷ pad_char b (bit_and (v >>> 6) 0x3f)
    ∷ pad_char c (bit_and v 0x3f)
    ∷ []

pub encode_loop : Bytes → Bytes → Bytes
encode_loop [] out = out
encode_loop (a ∷ []) out = out ++ encode_group a none none
encode_loop (a ∷ b ∷ []) out = out ++ encode_group a (some b) none
encode_loop (a ∷ b ∷ c ∷ rest) out = encode_loop rest (out ++ encode_group a (some b) (some c))

unfoldable pub base64_encode : Bytes → Bytes
unfolding encode_loop encode_group b64_char
base64_encode bytes = encode_loop bytes []

abbrev bad_character : Bytes
bad_character = codes "base64 decode failed: invalid character"

-- acc = (acc << 6) | v, in 32 bits
abbrev shift_in : ℕ → ℕ → ℕ
shift_in acc v = bit_or (u32 (acc <<< 6)) v

pub decode_loop : Bytes → ℕ → ℕ → Bytes → Result Bytes
decode_loop [] acc bits out = ok out
decode_loop (c ∷ s) acc bits out =
    let next : Result Bytes = elim (b64_value c) [
      | negsuc n ↦ throw (asr_error err_invalid_param bad_character)
      | pos v ↦ elim (leb 8 (bits + 6)) [
        | true ↦
            decode_loop s (shift_in acc v) (bits + 6 - 8)
              (out ++ bit_and (shift_in acc v >>> (bits + 6 - 8)) 0xff ∷ [])
        | false ↦ decode_loop s (shift_in acc v) (bits + 6) out
      ]
    ] in
    if c == b'=' then ok out else next

unfoldable pub base64_decode : Bytes → Result Bytes
unfolding decode_loop b64_value
base64_decode s = decode_loop s 0 0 []

to_url : ℕ → ℕ
to_url c = if c == b'+' then b'*' else if c == b'/' then b'-' else if c == b'=' then b'_' else c

of_url : ℕ → ℕ
of_url c = if c == b'_' then b'=' else if c == b'-' then b'/' else if c == b'*' then b'+' else c

unfoldable pub base64_url_encode : Bytes → Bytes
unfolding base64_encode to_url
base64_url_encode bytes = map to_url (base64_encode bytes)

unfoldable pub base64_url_decode : Bytes → Result Bytes
unfolding base64_decode of_url
base64_url_decode s = base64_decode (map of_url s)

hello : base64_encode (codes "hello") ≡ codes "aGVsbG8="
unfolding base64_encode
hello = refl

hello_back : base64_decode (codes "aGVsbG8=") ≡ ok (codes "hello")
unfolding base64_decode
hello_back = refl
