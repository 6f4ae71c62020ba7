-- ===== src/Encoding/Base64/Shape.antt =====
-- The characters and the length of encoded text, and the URL-safe variants (src/usersig.cc).
use mathlib.Core.List.{map}
use trtc_asr_sdk_cpp.Common.{
  ℕ, ◌+◌, ◌*◌, ◌/◌, ◌<◌, ◌≡◌, ◌≢◌, refl, ap, ◌∙◌, some, none, Option, Bool, true, [], ◌∷◌, Bytes,
  IsByte, All, All-append, ok, arith, length, length-map, all_below, all_below_sound, ◌==◌, bit_and,
}
use trtc_asr_sdk_cpp.Common.Bits.{bit_and-mask}
use trtc_asr_sdk_cpp.Encoding.Base64.{
  b64_char, pad_char, encode_group, base64_encode, base64_decode, to_url, of_url, base64_url_encode,
  base64_url_decode,
}
use trtc_asr_sdk_cpp.Encoding.Base64.RoundTrip.{
  groups, encode_loop-groups, base64_decode-base64_encode,
}

module _ {ℓ} (P : ℕ → Type ℓ) (char : (v : ℕ) → v < 64 → P (b64_char v)) (pad : P b'=') where
  sextet : (w : ℕ) → P (b64_char (bit_and w 0x3f))
  sextet w = char _ (omega (arith, bit_and-mask 6 w))

  pad_char-All : (b : Option ℕ) (w : ℕ) → P (pad_char b (bit_and w 0x3f))
  pad_char-All none w = pad
  pad_char-All (some b) w = sextet w

  encode_group-All : (a : ℕ) (b c : Option ℕ) → All P (encode_group a b c)
  unfolding encode_group
  encode_group-All a b c = (sextet _, (sextet _, (pad_char-All b _, (pad_char-All c _, tt))))

  groups-All : (s : Bytes) → All P (groups s)
  groups-All [] = tt
  groups-All (a ∷ []) = encode_group-All a none none
  groups-All (a ∷ b ∷ []) = encode_group-All a (some b) none
  groups-All (a ∷ b ∷ c ∷ rest) =
      All-append P (encode_group a (some b) (some c)) (groups rest)
        (encode_group-All a (some b) (some c)) (groups-All rest)

  -- What holds of the alphabet and of the padding holds of every encoded character.
  base64_encode-All : (s : Bytes) → All P (base64_encode s)
  base64_encode-All s = unfold base64_encode in rw (encode_loop-groups s []) (groups-All s)

length-groups : (s : Bytes) → length (groups s) ≡ (length s + 2) / 3 * 4
unfolding encode_group
length-groups [] = refl
length-groups (a ∷ []) = refl
length-groups (a ∷ b ∷ []) = refl
length-groups (a ∷ b ∷ c ∷ rest) = omega (arith, length-groups rest)

-- The encoder writes exactly the `(len + 2) / 3 * 4` characters that it reserves.
pub length-base64_encode : (s : Bytes) → length (base64_encode s) ≡ (length s + 2) / 3 * 4
length-base64_encode s = unfold base64_encode in rw (encode_loop-groups s []) (length-groups s)

-- The characters that a query string or a URL would have to escape.
abbrev pub IsUrlSafe : ℕ → Type 0
IsUrlSafe c = (c ≢ b'+') × (c ≢ b'/') × (c ≢ b'=')

abbrev returns : ℕ → Bool
returns v = of_url (to_url (b64_char v)) == b64_char v

returns_all : all_below 64 returns ≡ true
unfolding of_url to_url b64_char
returns_all = refl

of_url-to_url : (s : Bytes) → All (λ c. of_url (to_url c) ≡ c) s → map of_url (map to_url s) ≡ s
of_url-to_url [] h = refl
of_url-to_url (c ∷ s) h = cc (h.0, of_url-to_url s h.1)

encoded_returns : (s : Bytes) → map of_url (map to_url (base64_encode s)) ≡ base64_encode s
encoded_returns s = of_url-to_url _ (
    base64_encode-All (λ c. of_url (to_url c) ≡ c)
      (λ v h. ground (arith, all_below_sound 64 returns v returns_all h))
      (unfold of_url to_url in refl) s)

-- The URL-safe decoder returns the bytes that the URL-safe encoder was given.
pub base64_url_decode-base64_url_encode :
    (s : Bytes) → All IsByte s → base64_url_decode (base64_url_encode s) ≡ ok s
base64_url_decode-base64_url_encode s h =
    unfold base64_url_decode base64_url_encode in
    ap base64_decode (encoded_returns s) ∙ base64_decode-base64_encode s h

to_url-IsUrlSafe : (c : ℕ) → IsUrlSafe (to_url c)
unfolding to_url
to_url-IsUrlSafe c = ground arith

map-to_url-IsUrlSafe : (s : Bytes) → All IsUrlSafe (map to_url s)
map-to_url-IsUrlSafe [] = tt
map-to_url-IsUrlSafe (c ∷ s) = (to_url-IsUrlSafe c, map-to_url-IsUrlSafe s)

-- The URL-safe text needs no escaping and has the length of the plain one.
pub base64_url_encode_safe :
    (s : Bytes)
    → All IsUrlSafe (base64_url_encode s) × (length (base64_url_encode s) ≡ (length s + 2) / 3 * 4)
unfolding base64_url_encode
base64_url_encode_safe s = (
  map-to_url-IsUrlSafe (base64_encode s),
  length-map to_url (base64_encode s) ∙ length-base64_encode s,
)
