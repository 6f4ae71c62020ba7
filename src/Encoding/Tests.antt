-- ===== src/Encoding/Tests.antt =====
-- Runs of the encoders at concrete inputs (src/usersig.cc).
use trtc_asr_sdk_cpp.Common.{
  ◌≡◌, refl, arith, some, [], ◌∷◌, ◌++◌, pos, Bytes, codes, all_bytes-All, ok,
}
use trtc_asr_sdk_cpp.Encoding.Base64.{base64_encode, base64_decode, base64_url_decode}
use trtc_asr_sdk_cpp.Encoding.Base64.RoundTrip.{base64_decode-base64_encode}
use trtc_asr_sdk_cpp.Encoding.Sha256.{reset, update}
use trtc_asr_sdk_cpp.Encoding.Sha256.Streaming.{update-append}
use trtc_asr_sdk_cpp.Encoding.UserSig.{json_escape, gen_user_sig_at, Compressed, compressed}
use trtc_asr_sdk_cpp.Encoding.UserSig.Decode.{
  plain, json_string, json_string-json_escape, base64_url_decode-gen_user_sig_at,
}

base64_decode-base64_encode_example :
    base64_decode (base64_encode (codes "hello")) ≡ ok (codes "hello")
base64_decode-base64_encode_example =
    base64_decode-base64_encode (codes "hello") (all_bytes-All (codes "hello") refl)

update-append_example :
    update (codes "ab" ++ codes "c") reset ≡ update (codes "c") (update (codes "ab") reset)
update-append_example = update-append (codes "ab") (codes "c") reset (omega arith)

json_string-json_escape_example :
    json_string plain (json_escape (codes "a\"\\b") ++ (b'"' ∷ codes ","))
    ≡ some (codes "a\"\\b", codes ",")
json_string-json_escape_example = json_string-json_escape (codes "a\"\\b") (codes ",")

-- A compressor that always writes one byte.
abbrev one_byte : Bytes → Compressed
one_byte data' = compressed (120 ∷ [])

base64_url_decode-gen_user_sig_at_example :
    (sig : Bytes) × (gen_user_sig_at one_byte
        (pos 1400000000)
        (codes "key")
        (codes "user")
        (pos 86400)
        (pos 1700000000)
      ≡ ok sig)
    × (base64_url_decode sig ≡ ok (120 ∷ []))
base64_url_decode-gen_user_sig_at_example =
    base64_url_decode-gen_user_sig_at one_byte (pos 1400000000) (codes "key") (codes "user")
      (pos 86400) (pos 1700000000) (120 ∷ []) refl refl refl (all_bytes-All (120 ∷ []) refl)
