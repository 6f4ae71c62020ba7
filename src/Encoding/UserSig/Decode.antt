-- ===== src/Encoding/UserSig/Decode.antt =====
-- What a reader of a UserSig makes of it (src/usersig.cc).
use trtc_asr_sdk_cpp.Common.{
  ℕ, zero, suc, ◌+◌, ◌-◌, ◌*◌, ◌/◌, ◌%◌, ◌<◌, ◌≡◌, refl, ap, ◌∙◌, arith, Bool, true, false,
  Bool-cases, inl, inr, Option, none, some, [], ◌∷◌, ◌++◌, append_assoc, Bytes, IsByte, is_empty,
  ltb, leb, ◌==◌, if◌then◌else◌, all_below_sound, All, ℤ, ok,
}
use trtc_asr_sdk_cpp.Encoding.Base64.{base64_url_encode, base64_url_decode}
use trtc_asr_sdk_cpp.Encoding.Base64.Shape.{base64_url_decode-base64_url_encode}
use trtc_asr_sdk_cpp.Encoding.UserSig.{
  hex_digit, unicode_escape, escape_char, json_escape, Compressed, compressed, content, document,
  hmac_sha256, zlib_compress, gen_user_sig_at,
}

-- Inside a JSON string: plain text, behind a backslash, or some digits of a \u escape to come.
pub data Mode : Type 0 where
  plain escaped : Mode
  hex : ℕ → ℕ → Mode

abbrev pub hex_value : ℕ → ℕ
hex_value c = if leb c b'9' then c - b'0' else c - b'a' + 10

abbrev pub found : ℕ → Option (Bytes × Bytes) → Option (Bytes × Bytes)
found c none = none
found c (some (s, rest)) = some (c ∷ s, rest)

-- A JSON string up to its closing quote, decoded, and what stands behind it; lower-case digits only.
pub json_string : Mode → Bytes → Option (Bytes × Bytes)
json_string mode [] = none
json_string plain (c ∷ s) =
    let text = json_string plain s in
    let behind = json_string escaped s in
    if c == b'"'
    then some ([], s)
    else if c == b'\\'
    then behind
    else if ltb c 0x20
    then none
    else found c text
json_string escaped (c ∷ s) =
    let text = json_string plain s in
    let digits = json_string (hex 3 0) s in
    if c == b'u'
    then digits
    else if c == b'n'
    then found 0xa text
    else if c == b'r'
    then found 0xd text
    else if c == b't'
    then found 0x9 text
    else found c text
json_string (hex zero v) (c ∷ s) = found (v * 16 + hex_value c) (json_string plain s)
json_string (hex (suc n) v) (c ∷ s) = json_string (hex n (v * 16 + hex_value c)) s

abbrev unicode_fits : ℕ → Bool
unicode_fits c = hex_value (hex_digit (c / 16)) * 16 + hex_value (hex_digit (c % 16)) == c

json_string-unicode :
    (c : ℕ) (s : Bytes)
    → c < 32
    → json_string plain (unicode_escape c ++ s) ≡ found c (json_string plain s)
unfolding json_string
json_string-unicode c s h =
    let e : unicode_fits c ≡ true = all_below_sound 32 unicode_fits c refl h in
    let v : ((((0 * 16 + 0) * 16 + 0) * 16 + hex_value (hex_digit (c / 16))) * 16
          + hex_value (hex_digit (c % 16)))
        ≡ c =
      ground (arith, e) in
    ap (λ (n : ℕ). found n (json_string plain s)) v

json_string-escape_char :
    (c : ℕ) (s : Bytes) → json_string plain (escape_char c ++ s) ≡ found c (json_string plain s)
unfolding json_string escape_char
json_string-escape_char c s = elim (Bool-cases (c == b'"')) [
  | inl quote ↦ let e : c ≡ b'"' = ground (arith, quote) in rw e refl
  | inr b0 ↦ elim (Bool-cases (c == b'\\')) [
    | inl slash ↦ let e : c ≡ b'\\' = ground (arith, slash) in rw e refl
    | inr b1 ↦ elim (Bool-cases (c == 0xa)) [
      | inl newline ↦ let e : c ≡ 0xa = ground (arith, newline) in rw e refl
      | inr b2 ↦ elim (Bool-cases (c == 0xd)) [
        | inl return ↦ let e : c ≡ 0xd = ground (arith, return) in rw e refl
        | inr b3 ↦ elim (Bool-cases (c == 0x9)) [
          | inl tab ↦ let e : c ≡ 0x9 = ground (arith, tab) in rw e refl
          | inr b4 ↦ elim (Bool-cases (ltb c 0x20)) [
            | inl control ↦
                rw (b0, b1, b2, b3, b4, control) (json_string-unicode c s (ground (arith, control)))
            | inr other ↦ rw (b0, b1, b2, b3, b4, other) (rw (b0, b1, other))
          ]
        ]
      ]
    ]
  ]
]

-- JsonEscape between quotes is a JSON string: a reader finds its end at the closing quote, whatever the
-- text holds, and decodes the text that was given.
pub json_string-json_escape :
    (s rest : Bytes) → json_string plain (json_escape s ++ (b'"' ∷ rest)) ≡ some (s, rest)
unfolding json_string json_escape
json_string-json_escape [] rest = refl
json_string-json_escape (c ∷ s) rest = rw append_assoc (
    json_string-escape_char c (json_escape s ++ (b'"' ∷ rest))
    ∙ ap (found c) (json_string-json_escape s rest))

zlib_compress-ok :
    (compress2 : Bytes → Compressed) (doc out : Bytes)
    → compress2 doc ≡ compressed out
    → zlib_compress compress2 doc ≡ ok out
unfolding zlib_compress
zlib_compress-ok compress2 doc out z = rw (z, zlib_compress)

-- With a key and a user, and where zlib gives bytes for the document, GenUserSigAt gives a signature that
-- Base64UrlDecode takes back to those bytes.
pub base64_url_decode-gen_user_sig_at :
    (compress2 : Bytes → Compressed) (sdk_app_id : ℤ) (key user_id : Bytes) (expire now : ℤ)
    (out : Bytes)
    → is_empty key ≡ false
    → is_empty user_id ≡ false
    → compress2 (
        document sdk_app_id user_id expire now
          (hmac_sha256 key (content sdk_app_id user_id expire now)))
      ≡ compressed out
    → All IsByte out
    → (sig : Bytes) × (gen_user_sig_at compress2 sdk_app_id key user_id expire now ≡ ok sig)
      × (base64_url_decode sig ≡ ok out)
unfolding gen_user_sig_at
base64_url_decode-gen_user_sig_at compress2 sdk_app_id key user_id expire now out k u z b = (
  base64_url_encode out,
  rw (k, u, zlib_compress-ok compress2 _ out z),
  base64_url_decode-base64_url_encode out b,
)
