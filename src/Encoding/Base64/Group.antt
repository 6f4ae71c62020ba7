-- ===== src/Encoding/Base64/Group.antt =====
-- The four characters of one group as numbers, and one round of the decoder on such a character.
use trtc_asr_sdk_cpp.Common.{
  ℕ, ◌+◌, ◌-◌, ◌*◌, ◌/◌, ◌%◌, ◌^◌, ◌<◌, ◌≡◌, refl, ap, Bool, true, false, ◌&&◌, not, none, some, [],
  ◌∷◌, ◌++◌, bit_or, pos, Bytes, leb, ◌==◌, all_below, all_below_sound, arith,
}
use trtc_asr_sdk_cpp.Common.Int.{◌==ℤ◌, ==ℤ_iff}
use trtc_asr_sdk_cpp.Common.Bits.{◌<<<◌, u32, bit_or-shift, bit_and-mask}
use trtc_asr_sdk_cpp.Encoding.Base64.{b64_char, b64_value, decode_loop, encode_group, shift_in}

abbrev decodes : ℕ → Bool
decodes v = b64_value (b64_char v) ==ℤ pos v && not (b64_char v == b'=')

decodes_all : all_below 64 decodes ≡ true
unfolding b64_value b64_char
decodes_all = refl

b64_value-b64_char : (v : ℕ) → v < 64 → b64_value (b64_char v) ≡ pos v
b64_value-b64_char v h =
    (==ℤ_iff (b64_value (b64_char v)) (pos v)).0
      (ground (arith, all_below_sound 64 decodes v decodes_all h))

b64_char-ne-pad : (v : ℕ) → v < 64 → (b64_char v == b'=') ≡ false
b64_char-ne-pad v h = ground (arith, all_below_sound 64 decodes v decodes_all h)

pub shift_in_lem : (acc v : ℕ) → v < 64 → shift_in acc v ≡ (acc * 64 + v) % 2 ^ 32
shift_in_lem acc v h =
    let e : u32 (acc <<< 6) ≡ acc % 2 ^ 26 * 2 ^ 6 = omega arith in
    rw e (omega (arith, bit_or-shift 6 (acc % 2 ^ 26) v h))

-- The accumulator after one more character, and what is left of the text.
abbrev pub next : ℕ → ℕ → ℕ
next acc v = (acc * 64 + v) % 2 ^ 32

-- A character that completes no byte.
pub decode_loop_keep :
    (v acc bits : ℕ) (s out : Bytes)
    → v < 64
    → bits < 2
    → decode_loop (b64_char v ∷ s) acc bits out ≡ decode_loop s (next acc v) (bits + 6) out
unfolding decode_loop
decode_loop_keep v acc bits s out h k =
    let stays : leb 8 (bits + 6) ≡ false = ground arith in
    rw (b64_char-ne-pad v h, b64_value-b64_char v h, stays) (rw (shift_in_lem acc v h))

-- A character that completes the byte `x`, of which `bits` are left over.
pub decode_loop_emit :
    (v acc bits x : ℕ) (s out : Bytes)
    → v < 64
    → next acc v / 2 ^ bits % 256 ≡ x
    → decode_loop (b64_char v ∷ s) acc (bits + 2) out
      ≡ decode_loop s (next acc v) bits (out ++ x ∷ [])
unfolding decode_loop
decode_loop_emit v acc bits x s out h e =
    let full : leb 8 (bits + 2 + 6) ≡ true = ground arith in
    let left : bits + 2 + 6 - 8 ≡ bits = omega arith in
    rw (b64_char-ne-pad v h, b64_value-b64_char v h, full)
      (rw (shift_in_lem acc v h, left, bit_and-mask 8 (next acc v / 2 ^ bits), e))

-- The two bytes at the top of a group, and all three.
word_two : (a b : ℕ) → b < 256 → bit_or (a <<< 16) (b <<< 8) ≡ a * 65536 + b * 256
word_two a b hb = omega (arith, bit_or-shift 16 a (b * 256) (omega arith))

word_three :
    (a b c : ℕ)
    → b < 256
    → c < 256
    → bit_or (bit_or (a <<< 16) (b <<< 8)) (c <<< 0) ≡ a * 65536 + b * 256 + c
word_three a b c hb hc =
    let top : a * 65536 + b * 256 ≡ (a * 256 + b) * 2 ^ 8 = omega arith in
    let low : c * 2 ^ 0 ≡ c = omega arith in
    rw (word_two a b hb, top, low, bit_or-shift 8 (a * 256 + b) c hc) (omega arith)

-- Four sextets, one by one.
sextets :
    {a b c d a' b' c' d' : ℕ}
    → a ≡ a'
    → b ≡ b'
    → c ≡ c'
    → d ≡ d'
    → ◌≡◌ {A = Bytes}
        (b64_char a ∷ b64_char b ∷ c ∷ d ∷ [])
        (b64_char a' ∷ b64_char b' ∷ c' ∷ d' ∷ [])
sextets p q r s = cc

-- The characters of a full group, of two bytes and of one.
pub group_three :
    (a b c : ℕ)
    → a < 256
    → b < 256
    → c < 256
    → encode_group a (some b) (some c)
      ≡ b64_char (a / 4)
        ∷ b64_char (a % 4 * 16 + b / 16)
        ∷ b64_char (b % 16 * 4 + c / 64)
        ∷ b64_char (c % 64)
        ∷ []
unfolding encode_group
group_three a b c ha hb hc =
    let w = a * 65536 + b * 256 + c in
    rw (word_three a b c hb hc) (
      sextets (omega (arith, bit_and-mask 6 (w / 262144)))
        (omega (arith, bit_and-mask 6 (w / 4096)))
        (ap b64_char (omega (arith, bit_and-mask 6 (w / 64))))
        (ap b64_char (omega (arith, bit_and-mask 6 w))))

pub group_two :
    (a b : ℕ)
    → a < 256
    → b < 256
    → encode_group a (some b) none
      ≡ b64_char (a / 4) ∷ b64_char (a % 4 * 16 + b / 16) ∷ b64_char (b % 16 * 4) ∷ b'=' ∷ []
unfolding encode_group
group_two a b ha hb =
    let w = a * 65536 + b * 256 in
    rw (word_two a b hb) (
      sextets (omega (arith, bit_and-mask 6 (w / 262144)))
        (omega (arith, bit_and-mask 6 (w / 4096)))
        (ap b64_char (omega (arith, bit_and-mask 6 (w / 64)))) refl)

pub group_one :
    (a : ℕ)
    → a < 256
    → encode_group a none none ≡ b64_char (a / 4) ∷ b64_char (a % 4 * 16) ∷ b'=' ∷ b'=' ∷ []
unfolding encode_group
group_one a ha =
    sextets (omega (arith, bit_and-mask 6 (a * 65536 / 262144)))
      (omega (arith, bit_and-mask 6 (a * 65536 / 4096))) refl refl
