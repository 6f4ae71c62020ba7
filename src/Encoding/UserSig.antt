-- ===== src/Encoding/UserSig.antt =====
-- HmacSha256, JsonEscape, GenUserSigAt and GenUserSig (src/usersig.cc).
pub mod Decode
use mathlib.Core.List.{map}
use trtc_asr_sdk_cpp.Common.{
  ℕ, ◌+◌, ◌-◌, ◌/◌, ◌%◌, ◌≡◌, refl, Bool, true, false, List, [], ◌∷◌, ◌++◌, ℤ, pos, negsuc, Bytes,
  codes, is_empty, length, replicate, to_string, ltb, leb_ℤ, ◌==◌, bit_xor, if◌then◌else◌, Result,
  ok, throw, throw_if, asr_error, err_invalid_param, ◌>>=◌, ◌>>◌,
}
use trtc_asr_sdk_cpp.Encoding.Base64.{base64_encode, base64_url_encode}
use trtc_asr_sdk_cpp.Encoding.Sha256.{hash}

-- Keys longer than a block are hashed; the rest of the block is zero.
abbrev key_block : Bytes → Bytes
key_block key =
    let hashed = hash key ++ replicate 32 0 in
    let padded = key ++ replicate (64 - length key) 0 in
    if ltb 64 (length key) then hashed else padded

unfoldable pub hmac_sha256 : Bytes → Bytes → Bytes
hmac_sha256 key message =
    let inner_hash = hash (map (λ b. bit_xor b 0x36) (key_block key) ++ message) in
    hash (map (λ b. bit_xor b 0x5c) (key_block key) ++ inner_hash)

abbrev pub hex_digit : ℕ → ℕ
hex_digit n = if ltb n 10 then b'0' + n else b'a' + (n - 10)

-- snprintf's "\\u%04x" of a byte below 0x20.
abbrev pub unicode_escape : ℕ → Bytes
unicode_escape c = codes "\\u00" ++ (hex_digit (c / 16) ∷ hex_digit (c % 16) ∷ [])

pub escape_char : ℕ → Bytes
escape_char c =
    if c == b'"'
    then codes "\\\""
    else if c == b'\\'
    then codes "\\\\"
    else if c == 0xa
    then codes "\\n"
    else if c == 0xd
    then codes "\\r"
    else if c == 0x9
    then codes "\\t"
    else if ltb c 0x20
    then unicode_escape c
    else c ∷ []

unfoldable pub json_escape : Bytes → Bytes
unfolding escape_char
json_escape [] = []
json_escape (c ∷ s) = escape_char c ++ json_escape s

-- `default_expire` is kDefaultExpire.
abbrev pub default_expire : ℤ
default_expire = pos 15552000

pub content : ℤ → Bytes → ℤ → ℤ → Bytes
content sdk_app_id user_id expire now =
    codes "TLS.identifier:"
    ++ (user_id
        ++ (codes "\n"
            ++ (codes "TLS.sdkappid:"
                ++ (to_string sdk_app_id
                    ++ (codes "\n"
                        ++ (codes "TLS.time:"
                            ++ (to_string now
                                ++ (codes "\n"
                                    ++ (codes "TLS.expire:"
                                        ++ (to_string expire ++ codes "\n"))))))))))

pub document : ℤ → Bytes → ℤ → ℤ → Bytes → Bytes
unfolding json_escape
document sdk_app_id user_id expire now sig =
    codes "{"
    ++ (codes "\"TLS.ver\":\"2.0\","
        ++ (codes "\"TLS.identifier\":\""
            ++ (json_escape user_id
                ++ (codes "\","
                    ++ (codes "\"TLS.sdkappid\":"
                        ++ (to_string sdk_app_id
                            ++ (codes ","
                                ++ (codes "\"TLS.expire\":"
                                    ++ (to_string expire
                                        ++ (codes ","
                                            ++ (codes "\"TLS.time\":"
                                                ++ (to_string now
                                                    ++ (codes ","
                                                        ++ (codes "\"TLS.sig\":\""
                                                            ++ (base64_encode sig
                                                            ++ (codes "\""
                                                            ++ codes "}\n"))))))))))))))))

-- zlib's compress2 is a parameter: the compressed bytes, or a return code that is not Z_OK.
pub data Compressed : Type 0 where
  compressed : Bytes → Compressed
  return_code : ℤ → Compressed

module _ (compress2 : Bytes → Compressed) where
  unfoldable pub zlib_compress : Bytes → Result Bytes
  zlib_compress data' = elim (compress2 data') [
    | compressed out ↦ ok out
    | return_code rc ↦
        throw (asr_error err_invalid_param (codes "zlib compress failed: " ++ to_string rc))
  ]

  unfoldable pub gen_user_sig_at : ℤ → Bytes → Bytes → ℤ → ℤ → Result Bytes
  unfolding content document zlib_compress hmac_sha256
  gen_user_sig_at sdk_app_id key user_id expire now =
      throw_if (is_empty key) err_invalid_param (codes "secret key is empty")
      >> (throw_if (is_empty user_id) err_invalid_param (codes "user id is empty") >> (do
        let sig = hmac_sha256 key (content sdk_app_id user_id expire now)
        out ← zlib_compress (document sdk_app_id user_id expire now sig)
        ok (base64_url_encode out)))

  -- `now` is what std::time gives.
  unfoldable pub gen_user_sig : ℤ → ℤ → Bytes → Bytes → ℤ → Result Bytes
  unfolding gen_user_sig_at
  gen_user_sig now sdk_app_id key user_id expire =
      gen_user_sig_at sdk_app_id key user_id
        (if leb_ℤ expire (pos 0) then default_expire else expire) now
