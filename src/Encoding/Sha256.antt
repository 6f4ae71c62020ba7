-- ===== src/Encoding/Sha256.antt =====
-- class Sha256 (src/usersig.cc).
pub mod Streaming
use trtc_asr_sdk_cpp.Common.{
  ℕ, zero, suc, ◌+◌, ◌-◌, ◌*◌, ◌/◌, ◌%◌, ◌^◌, ◌≡◌, refl, min, Bool, true, false, List, [], ◌∷◌,
  ◌++◌, Bytes, codes, length, get_or, take, drop, bit_and, bit_or, bit_xor, ◌==◌, if◌then◌else◌,
}
use trtc_asr_sdk_cpp.Common.Bits.{◌<<<◌, ◌>>>◌, u8, u32, u64}

-- Eight 32-bit words: h_[0] to h_[7], or the working variables.
pub record Words : Type 0 where
  pub a : ℕ
  pub b : ℕ
  pub c : ℕ
  pub d : ℕ
  pub e : ℕ
  pub f : ℕ
  pub g : ℕ
  pub h : ℕ

-- `buf` is state_buf_ up to buf_len_.
pub record Sha256 : Type 0 where
  pub words : Words
  pub buf : Bytes
  pub bit_len : ℕ

abbrev pub reset : Sha256
reset = record {
  words = record {
    a = 0x6a09e667;
    b = 0xbb67ae85;
    c = 0x3c6ef372;
    d = 0xa54ff53a;
    e = 0x510e527f;
    f = 0x9b05688c;
    g = 0x1f83d9ab;
    h = 0x5be0cd19;
  };
  buf = [];
  bit_len = 0;
}

rot_r : ℕ → ℕ → ℕ
rot_r x n = bit_or (x >>> n) (u32 (x <<< (32 - n)))

abbrev add : ℕ → ℕ → ℕ
add x y = u32 (x + y)

-- The table k.
abbrev k : List ℕ
k =
    0x428a2f98 ∷ 0x71374491 ∷ 0xb5c0fbcf ∷ 0xe9b5dba5 ∷ 0x3956c25b ∷ 0x59f111f1 ∷ 0x923f82a4
    ∷ 0xab1c5ed5 ∷ 0xd807aa98 ∷ 0x12835b01 ∷ 0x243185be ∷ 0x550c7dc3 ∷ 0x72be5d74 ∷ 0x80deb1fe
    ∷ 0x9bdc06a7 ∷ 0xc19bf174 ∷ 0xe49b69c1 ∷ 0xefbe4786 ∷ 0x0fc19dc6 ∷ 0x240ca1cc ∷ 0x2de92c6f
    ∷ 0x4a7484aa ∷ 0x5cb0a9dc ∷ 0x76f988da ∷ 0x983e5152 ∷ 0xa831c66d ∷ 0xb00327c8 ∷ 0xbf597fc7
    ∷ 0xc6e00bf3 ∷ 0xd5a79147 ∷ 0x06ca6351 ∷ 0x14292967 ∷ 0x27b70a85 ∷ 0x2e1b2138 ∷ 0x4d2c6dfc
    ∷ 0x53380d13 ∷ 0x650a7354 ∷ 0x766a0abb ∷ 0x81c2c92e ∷ 0x92722c85 ∷ 0xa2bfe8a1 ∷ 0xa81a664b
    ∷ 0xc24b8b70 ∷ 0xc76c51a3 ∷ 0xd192e819 ∷ 0xd6990624 ∷ 0xf40e3585 ∷ 0x106aa070 ∷ 0x19a4c116
    ∷ 0x1e376c08 ∷ 0x2748774c ∷ 0x34b0bcb5 ∷ 0x391c0cb3 ∷ 0x4ed8aa4a ∷ 0x5b9cca4f ∷ 0x682e6ff3
    ∷ 0x748f82ee ∷ 0x78a5636f ∷ 0x84c87814 ∷ 0x8cc70208 ∷ 0x90befffa ∷ 0xa4506ceb ∷ 0xbef9a3f7
    ∷ 0xc67178f2 ∷ []

-- w[0] to w[15], from the bytes of the block.
big_endian : ℕ → Bytes → List ℕ
big_endian zero block = []
big_endian (suc n) block =
    bit_or
      (bit_or (bit_or (get_or block 0 0 <<< 24) (get_or block 1 0 <<< 16)) (get_or block 2 0 <<< 8))
      (get_or block 3 0)
    ∷ big_endian n (drop 4 block)

-- One step of the loop from 16 to 63: `i` is the length of `w`.
schedule_word : List ℕ → ℕ
unfolding rot_r
schedule_word w =
    let i = length w in
    let x = get_or w (i - 15) 0 in
    let y = get_or w (i - 2) 0 in
    let s0 = bit_xor (bit_xor (rot_r x 7) (rot_r x 18)) (x >>> 3) in
    let s1 = bit_xor (bit_xor (rot_r y 17) (rot_r y 19)) (y >>> 10) in
    add (add (add (get_or w (i - 16) 0) s0) (get_or w (i - 7) 0)) s1

extend : ℕ → List ℕ → List ℕ
unfolding schedule_word
extend zero w = w
extend (suc n) w = extend n (w ++ (schedule_word w ∷ []))

round : ℕ → ℕ → Words → Words
unfolding rot_r
round k_i w_i v =
    let s1 = bit_xor (bit_xor (rot_r v.e 6) (rot_r v.e 11)) (rot_r v.e 25) in
    let ch = bit_xor (bit_and v.e v.f) (bit_and (bit_xor v.e 0xffffffff) v.g) in
    let temp1 = add (add (add (add v.h s1) ch) k_i) w_i in
    let s0 = bit_xor (bit_xor (rot_r v.a 2) (rot_r v.a 13)) (rot_r v.a 22) in
    let maj = bit_xor (bit_xor (bit_and v.a v.b) (bit_and v.a v.c)) (bit_and v.b v.c) in
    let temp2 = add s0 maj in
    record {
      a = add temp1 temp2;
      b = v.a;
      c = v.b;
      d = v.c;
      e = add v.d temp1;
      f = v.e;
      g = v.f;
      h = v.g;
    }

rounds : List ℕ → List ℕ → Words → Words
unfolding round
rounds [] w v = v
rounds (k_i ∷ ks) [] v = v
rounds (k_i ∷ ks) (w_i ∷ ws) v = rounds ks ws (round k_i w_i v)

pub compress : Bytes → Words → Words
unfolding big_endian extend rounds
compress block v =
    let r = rounds k (extend 48 (big_endian 16 block)) v in
    record {
      a = add v.a r.a;
      b = add v.b r.b;
      c = add v.c r.c;
      d = add v.d r.d;
      e = add v.e r.e;
      f = add v.f r.f;
      g = add v.g r.g;
      h = add v.h r.h;
    }

-- if (buf_len_ == sizeof(state_buf_)) { Compress(state_buf_); buf_len_ = 0; }
pub flush : Sha256 → Sha256
unfolding compress
flush s = if length s.buf == 64 then record s { words = compress s.buf s.words; buf = [] } else s

-- UpdateNoCount: a round takes at least one byte, so a fuel of the length is enough.
pub absorb : ℕ → Bytes → Sha256 → Sha256
unfolding flush
absorb zero data' s = s
absorb (suc fuel) [] s = s
absorb (suc fuel) (b ∷ data') s =
    let taken = min (length (b ∷ data')) (64 - length s.buf) in
    absorb fuel (drop taken (b ∷ data'))
      (flush (record s { buf = s.buf ++ take taken (b ∷ data') }))

unfoldable pub update_no_count : Bytes → Sha256 → Sha256
unfolding absorb
update_no_count data' s = absorb (length data') data' s

unfoldable pub update : Bytes → Sha256 → Sha256
unfolding update_no_count
update data' s =
    update_no_count data' (record s { bit_len = u64 (s.bit_len + u64 (length data' * 8)) })

-- while (buf_len_ != 56): a block is 64 bytes, so a fuel of 64 is enough.
pub pad_zeros : ℕ → Sha256 → Sha256
unfolding update_no_count
pad_zeros zero s = s
pad_zeros (suc fuel) s =
    if length s.buf == 56 then s else pad_zeros fuel (update_no_count (0 ∷ []) s)

abbrev big_endian_bytes : ℕ → ℕ → Bytes → Bytes
big_endian_bytes zero n out = out
big_endian_bytes (suc count) n out = big_endian_bytes count (n >>> 8) (bit_and n 0xff ∷ out)

abbrev word_bytes : ℕ → Bytes
word_bytes x = u8 (x >>> 24) ∷ u8 (x >>> 16) ∷ u8 (x >>> 8) ∷ u8 x ∷ []

-- The words of the state, each as four bytes.
pub output : Words → Bytes
output v =
    word_bytes v.a
    ++ (word_bytes v.b
        ++ (word_bytes v.c
            ++ (word_bytes v.d
                ++ (word_bytes v.e ++ (word_bytes v.f ++ (word_bytes v.g ++ word_bytes v.h))))))

-- bit_len_ -= 8, in 64 bits.
abbrev pub uncount : Sha256 → Sha256
uncount s = record s { bit_len = u64 (s.bit_len + 2 ^ 64 - 8) }

unfoldable pub final : Sha256 → Bytes
unfolding update pad_zeros output
final s =
    let padded = pad_zeros 64 (uncount (update (0x80 ∷ []) s)) in
    output (update_no_count (big_endian_bytes 8 padded.bit_len []) padded).words

unfoldable pub hash : Bytes → Bytes
unfolding update final
hash data' = final (update data' reset)

hash_abc : take 4 (hash (codes "abc")) ≡ 0xba ∷ 0x78 ∷ 0x16 ∷ 0xbf ∷ []
unfolding hash
hash_abc = refl
