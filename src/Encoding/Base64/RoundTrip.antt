-- ===== src/Encoding/Base64/RoundTrip.antt =====
-- Decoding gives back what was encoded (src/usersig.cc).
use trtc_asr_sdk_cpp.Common.{
  ℕ, ◌+◌, ◌*◌, ◌/◌, ◌%◌, ◌<◌, ◌≡◌, refl, sym, ap, ◌∙◌, some, none, [], ◌∷◌, ◌++◌, append-nil,
  append_assoc, Bytes, IsByte, All, ok, arith,
}
use trtc_asr_sdk_cpp.Encoding.Base64.{
  decode_loop, encode_group, encode_loop, base64_encode, base64_decode,
}
use trtc_asr_sdk_cpp.Encoding.Base64.Group.{
  next, decode_loop_keep, decode_loop_emit, group_three, group_two, group_one,
}

-- What the decoder has read after each character of a full group.
module _ (a b c acc : ℕ) (s out : Bytes) (ha : a < 256) (hb : b < 256) (hc : c < 256) where
  abbrev after_one : ℕ
  after_one = next acc (a / 4)

  abbrev after_two : ℕ
  after_two = next after_one (a % 4 * 16 + b / 16)

  abbrev after_three : ℕ
  after_three = next after_two (b % 16 * 4 + c / 64)

  abbrev after_four : ℕ
  after_four = next after_three (c % 64)

  decode_three :
      decode_loop (encode_group a (some b) (some c) ++ s) acc 0 out
      ≡ decode_loop s after_four 0 (((out ++ a ∷ []) ++ b ∷ []) ++ c ∷ [])
  decode_three = rw (group_three a b c ha hb hc) (
      decode_loop_keep (a / 4) acc 0 _ out (omega arith) (omega arith)
      ∙ decode_loop_emit (a % 4 * 16 + b / 16) after_one 4 a _ out (omega arith) (omega arith)
      ∙ decode_loop_emit (b % 16 * 4 + c / 64) after_two 2 b _ _ (omega arith) (omega arith)
      ∙ decode_loop_emit (c % 64) after_three 0 c s _ (omega arith) (omega arith))

-- A padded group ends the text.
decode_pad : (acc bits : ℕ) (s out : Bytes) → decode_loop (b'=' ∷ s) acc bits out ≡ ok out
unfolding decode_loop
decode_pad acc bits s out = refl

decode_two :
    (a b acc : ℕ) (out : Bytes)
    → a < 256
    → b < 256
    → decode_loop (encode_group a (some b) none) acc 0 out ≡ ok ((out ++ a ∷ []) ++ b ∷ [])
decode_two a b acc out ha hb =
    let one : ℕ = next acc (a / 4) in
    let two : ℕ = next one (a % 4 * 16 + b / 16) in
    rw (group_two a b ha hb) (
      decode_loop_keep (a / 4) acc 0 _ out (omega arith) (omega arith)
      ∙ decode_loop_emit (a % 4 * 16 + b / 16) one 4 a _ out (omega arith) (omega arith)
      ∙ decode_loop_emit (b % 16 * 4) two 2 b _ _ (omega arith) (omega arith)
      ∙ decode_pad (next two (b % 16 * 4)) 2 [] _)

decode_one :
    (a acc : ℕ) (out : Bytes)
    → a < 256
    → decode_loop (encode_group a none none) acc 0 out ≡ ok (out ++ a ∷ [])
decode_one a acc out ha =
    let one : ℕ = next acc (a / 4) in
    rw (group_one a ha) (
      decode_loop_keep (a / 4) acc 0 _ out (omega arith) (omega arith)
      ∙ decode_loop_emit (a % 4 * 16) one 4 a _ out (omega arith) (omega arith)
      ∙ decode_pad (next one (a % 4 * 16)) 4 _ _)

-- The encoder's loop appends to what is written.
abbrev pub groups : Bytes → Bytes
groups [] = []
groups (a ∷ []) = encode_group a none none
groups (a ∷ b ∷ []) = encode_group a (some b) none
groups (a ∷ b ∷ c ∷ rest) = encode_group a (some b) (some c) ++ groups rest

pub encode_loop-groups : (s out : Bytes) → encode_loop s out ≡ out ++ groups s
unfolding encode_loop
encode_loop-groups [] out = sym (append-nil out)
encode_loop-groups (a ∷ []) out = refl
encode_loop-groups (a ∷ b ∷ []) out = refl
encode_loop-groups (a ∷ b ∷ c ∷ rest) out = simp (encode_loop-groups rest, append_assoc)

decode_groups :
    (s out : Bytes) (acc : ℕ) → All IsByte s → decode_loop (groups s) acc 0 out ≡ ok (out ++ s)
decode_groups [] out acc h = unfold decode_loop in ap ok (sym (append-nil out))
decode_groups (a ∷ []) out acc h = decode_one a acc out h.0
decode_groups (a ∷ b ∷ []) out acc h =
    decode_two a b acc out h.0 h.1.0 ∙ ap ok (append_assoc out (a ∷ []) (b ∷ []))
decode_groups (a ∷ b ∷ c ∷ rest) out acc (ha, (hb, (hc, h))) =
    decode_three a b c acc (groups rest) out ha hb hc
    ∙ decode_groups rest _ (after_four a b c acc (groups rest) out ha hb hc) h
    ∙ ap ok (simp append_assoc)

-- Base64Decode returns the bytes that Base64Encode was given, for every list of bytes.
pub base64_decode-base64_encode :
    (s : Bytes) → All IsByte s → base64_decode (base64_encode s) ≡ ok s
base64_decode-base64_encode s h =
    unfold base64_decode base64_encode in rw (encode_loop-groups s []) (decode_groups s [] 0 h)
