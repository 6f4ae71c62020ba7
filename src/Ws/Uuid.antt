-- ===== src/Ws/Uuid.antt =====
-- GenerateUuid (src/ws_client.cc). Byte i of the two random draws, in memory order, is draw i.
use trtc_asr_sdk_cpp.Common.{
  arith, ◌≡◌, refl, ap, ℕ, ◌/◌, ◌%◌, Bool, true, false, ◌&&◌, [], ◌∷◌, ◌++◌, Bytes, codes, IsByte,
  All, All-append, any, length, ltb, ltb-true, ◌==◌, ==_iff, get_or, bit_and, bit_or,
  all_below_sound,
}
use trtc_asr_sdk_cpp.Common.Bits.{u8}
use trtc_asr_sdk_cpp.Encoding.UserSig.{hex_digit}
use trtc_asr_sdk_cpp.Query.Escape.{is_unreserved, query_escape}

-- "%02x" of each byte.
unfoldable pub hex_text : Bytes → Bytes
hex_text [] = []
hex_text (b ∷ bs) = hex_digit (b / 16) ∷ hex_digit (b % 16) ∷ hex_text bs

abbrev pub with_version : ℕ → ℕ
with_version b = bit_or (bit_and b 0x0f) 0x40

abbrev pub with_variant : ℕ → ℕ
with_variant b = bit_or (bit_and b 0x3f) 0x80

unfoldable pub generate_uuid : (ℕ → ℕ) → Bytes
unfolding hex_text
generate_uuid draw =
    let b : ℕ → ℕ = λ i. u8 (draw i) in
    hex_text (b 0 ∷ b 1 ∷ b 2 ∷ b 3 ∷ [])
    ++ (b'-'
        ∷ (hex_text (b 4 ∷ b 5 ∷ [])
            ++ (b'-'
                ∷ (hex_text (with_version (b 6) ∷ b 7 ∷ [])
                    ++ (b'-'
                        ∷ (hex_text (with_variant (b 8) ∷ b 9 ∷ [])
                            ++ (b'-'
                                ∷ hex_text (b 10 ∷ b 11 ∷ b 12 ∷ b 13 ∷ b 14 ∷ b 15 ∷ []))))))))

abbrev IsPlain : Bytes → Type 0
IsPlain s = All (λ c. is_unreserved c ≡ true) s

query_escape-IsPlain : (s : Bytes) → IsPlain s → query_escape s ≡ s
unfolding query_escape
query_escape-IsPlain [] h = refl
query_escape-IsPlain (c ∷ s) (plain, plains) = rw plain (ap (◌∷◌ c) (query_escape-IsPlain s plains))

and_true : (x y : Bool) → (x && y) ≡ true → (x ≡ true) × (y ≡ true)
and_true true y h = (refl, h)
and_true false y h = cc

abbrev is_plain_pair : ℕ → Bool
is_plain_pair b = is_unreserved (hex_digit (b / 16)) && is_unreserved (hex_digit (b % 16))

hex_text-IsPlain : (bs : Bytes) → All IsByte bs → IsPlain (hex_text bs)
unfolding hex_text
hex_text-IsPlain [] h = tt
hex_text-IsPlain (b ∷ bs) (byte, bytes) =
    let pair : is_plain_pair b ≡ true = all_below_sound 256 is_plain_pair b refl byte in
    let (high, low) = and_true (is_unreserved (hex_digit (b / 16))) _ pair in
    (high, (low, hex_text-IsPlain bs bytes))

joined-IsPlain : (x y : Bytes) → IsPlain x → IsPlain y → IsPlain (x ++ (b'-' ∷ y))
joined-IsPlain x y hx hy = All-append (λ c. is_unreserved c ≡ true) x (b'-' ∷ y) hx (refl, hy)

u8-IsByte : (n : ℕ) → IsByte (u8 n)
u8-IsByte n = omega arith

abbrev is_version : ℕ → Bool
is_version b = ltb (with_version b) 256 && (hex_digit (with_version b / 16) == b'4')

abbrev is_variant : ℕ → Bool
is_variant b =
    ltb (with_variant b) 256 && any (λ v. v == hex_digit (with_variant b / 16)) (codes "89ab")

-- A generated UUID has 36 characters, hyphens at its four places, version 4 and the variant of RFC 4122,
-- and no character that QueryEscape changes.
pub generate_uuid-cases :
    (draw : ℕ → ℕ)
    → let id = generate_uuid draw in
      (length id ≡ 36)
      × (get_or id 8 0 ≡ b'-')
      × (get_or id 13 0 ≡ b'-')
      × (get_or id 18 0 ≡ b'-')
      × (get_or id 23 0 ≡ b'-')
      × (get_or id 14 0 ≡ b'4')
      × (any (λ v. v == get_or id 19 0) (codes "89ab") ≡ true)
      × (query_escape id ≡ id)
unfolding generate_uuid
generate_uuid-cases draw =
    let byte : (i : ℕ) → IsByte (u8 (draw i)) = λ i. u8-IsByte (draw i) in
    let (small, version) =
      and_true (ltb (with_version (u8 (draw 6))) 256) _
        (all_below_sound 256 is_version (u8 (draw 6)) refl (byte 6)) in
    let (small', variant) =
      and_true (ltb (with_variant (u8 (draw 8))) 256) _
        (all_below_sound 256 is_variant (u8 (draw 8)) refl (byte 8)) in
    let b : ℕ → ℕ = λ i. u8 (draw i) in
    let bs : Bytes = b 0 ∷ b 1 ∷ b 2 ∷ b 3 ∷ [] in
    let cs : Bytes = b 4 ∷ b 5 ∷ [] in
    let ds : Bytes = with_version (b 6) ∷ b 7 ∷ [] in
    let es : Bytes = with_variant (b 8) ∷ b 9 ∷ [] in
    let fs : Bytes = b 10 ∷ b 11 ∷ b 12 ∷ b 13 ∷ b 14 ∷ b 15 ∷ [] in
    let back =
      hex_text-IsPlain fs (byte 10, (byte 11, (byte 12, (byte 13, (byte 14, (byte 15, tt)))))) in
    let back' =
      joined-IsPlain (hex_text es) (hex_text fs)
        (hex_text-IsPlain es (ltb-true _ 256 small', (byte 9, tt))) back in
    let behind =
      joined-IsPlain (hex_text ds) (hex_text es ++ (b'-' ∷ hex_text fs))
        (hex_text-IsPlain ds (ltb-true _ 256 small, (byte 7, tt))) back' in
    let behind' =
      joined-IsPlain (hex_text cs) (hex_text ds ++ (b'-' ∷ (hex_text es ++ (b'-' ∷ hex_text fs))))
        (hex_text-IsPlain cs (byte 4, (byte 5, tt))) behind in
    let plain =
      joined-IsPlain (hex_text bs)
        (hex_text cs ++ (b'-' ∷ (hex_text ds ++ (b'-' ∷ (hex_text es ++ (b'-' ∷ hex_text fs))))))
        (hex_text-IsPlain bs (byte 0, (byte 1, (byte 2, (byte 3, tt))))) behind' in
    (
      refl,
      refl,
      refl,
      refl,
      refl,
      (==_iff _ b'4').0 version,
      variant,
      query_escape-IsPlain (generate_uuid draw) plain,
    )
