-- ===== src/Ws/Frame.antt =====
-- EncodeWsFrame (src/ws_client.cc). The masking key is the code's random source: draw `i` of it.
use trtc_asr_sdk_cpp.Common.{
  ℕ, zero, suc, ◌+◌, ◌*◌, ◌%◌, ◌≡◌, refl, Bool, true, false, [], ◌∷◌, ◌++◌, bit_and, bit_or,
  bit_xor, Bytes, codes, ltb, leb, if◌then◌else◌, length,
}
use trtc_asr_sdk_cpp.Common.Bits.{◌>>>◌, u8}

-- for (i = n - 1; i >= 0; i--) frame += (len >> (8 * i)) & 0xFF
unfoldable pub len_bytes : ℕ → ℕ → Bytes
len_bytes zero len = []
len_bytes (suc i) len = bit_and (len >>> (8 * i)) 0xff ∷ len_bytes i len

-- payload[i] ^ key[i % 4], from index `i` on
unfoldable pub xor_mask : (ℕ → ℕ) → ℕ → Bytes → Bytes
xor_mask key i [] = []
xor_mask key i (b ∷ payload) = bit_xor b (key (i % 4)) ∷ xor_mask key (i + 1) payload

abbrev pub mask_bit_of : Bool → ℕ
mask_bit_of true = 0x80
mask_bit_of false = 0x00

unfoldable pub frame_length : ℕ → ℕ → Bytes
unfolding len_bytes
frame_length mask_bit len =
    if ltb len 126
    then bit_or mask_bit len ∷ []
    else if leb len 0xffff
    then bit_or mask_bit 126 ∷ bit_and (len >>> 8) 0xff ∷ bit_and len 0xff ∷ []
    else bit_or mask_bit 127 ∷ len_bytes 8 len

unfoldable pub frame_body : (ℕ → ℕ) → Bool → Bytes → Bytes
unfolding xor_mask
frame_body rng true payload =
    let key = λ (i : ℕ). u8 (rng i) in key 0 ∷ key 1 ∷ key 2 ∷ key 3 ∷ xor_mask key 0 payload
frame_body rng false payload = payload

unfoldable pub encode_ws_frame : (ℕ → ℕ) → ℕ → Bytes → Bool → Bytes
unfolding frame_length frame_body
encode_ws_frame rng opcode payload mask =
    u8 (bit_or 0x80 opcode)
    ∷ (frame_length (mask_bit_of mask) (length payload) ++ frame_body rng mask payload)

text_frame :
    encode_ws_frame (λ i. i + 1) 1 (codes "hi") true
    ≡ 0x81 ∷ 0x82 ∷ 1 ∷ 2 ∷ 3 ∷ 4 ∷ 0x69 ∷ 0x6b ∷ []
unfolding encode_ws_frame
text_frame = refl
