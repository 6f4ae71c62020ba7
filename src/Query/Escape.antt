-- ===== src/Query/Escape.antt =====
-- QueryEscape (src/signature_params.cc).
use trtc_asr_sdk_cpp.Common.{
  ℕ, ◌≡◌, refl, Bool, ◌&&◌, ◌||◌, [], ◌∷◌, ◌++◌, Bytes, codes, leb, ◌==◌, if◌then◌else◌, get_or,
  bit_and,
}
use trtc_asr_sdk_cpp.Common.Bits.{◌>>>◌}

abbrev pub is_unreserved : ℕ → Bool
is_unreserved c =
    (leb b'A' c && leb c b'Z')
    || ((leb b'a' c && leb c b'z')
        || ((leb b'0' c && leb c b'9') || (c == b'-' || (c == b'_' || (c == b'.' || c == b'~')))))

-- kHex[i]
abbrev pub hex_digit : ℕ → ℕ
hex_digit i = get_or (codes "0123456789ABCDEF") i 0

abbrev pub escape_byte : ℕ → Bytes
escape_byte c =
    if is_unreserved c
    then c ∷ []
    else if c == b' '
    then b'+' ∷ []
    else b'%' ∷ hex_digit (bit_and (c >>> 4) 0xf) ∷ hex_digit (bit_and c 0xf) ∷ []

unfoldable pub query_escape : Bytes → Bytes
query_escape [] = []
query_escape (c ∷ s) = escape_byte c ++ query_escape s

query_escape_example : query_escape (codes "a b/c~") ≡ codes "a+b%2Fc~"
unfolding query_escape
query_escape_example = refl
