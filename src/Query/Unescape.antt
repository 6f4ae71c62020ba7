-- ===== src/Query/Unescape.antt =====
-- Form decoding undoes QueryEscape (src/signature_params.cc).
use trtc_asr_sdk_cpp.Common.{
  ℕ, ◌+◌, ◌-◌, ◌*◌, ◌<◌, ◌≡◌, refl, arith, Bool, true, false, not, Bool-cases, inl, inr, ◌&&◌, ◌||◌,
  Option, none, some, [], ◌∷◌, ◌++◌, Bytes, IsByte, leb, ◌==◌, if◌then◌else◌, bit_and,
  all_below_sound, All,
}
use trtc_asr_sdk_cpp.Common.Bits.{◌>>>◌}
use trtc_asr_sdk_cpp.Query.Escape.{is_unreserved, hex_digit, escape_byte, query_escape}

abbrev pub hex_value : ℕ → Option ℕ
hex_value c =
    if leb b'0' c && leb c b'9'
    then some (c - b'0')
    else if leb b'A' c && leb c b'F'
    then some (c - b'A' + 10)
    else if leb b'a' c && leb c b'f'
    then some (c - b'a' + 10)
    else none

abbrev pub with_byte : Option ℕ → Option ℕ → Option Bytes → Option Bytes
with_byte (some hi) (some lo) (some s) = some ((hi * 16 + lo) ∷ s)
with_byte (some hi) (some lo) none = none
with_byte (some hi) none s = none
with_byte none lo s = none

abbrev pub with_char : ℕ → Option Bytes → Option Bytes
with_char c none = none
with_char c (some s) = some (c ∷ s)

-- application/x-www-form-urlencoded decoding, as a server does it: '+' is a space, %XX a byte.
unfoldable pub unescape : Bytes → Option Bytes
unescape [] = some []
unescape (c ∷ []) =
    if c == b'%' then none else if c == b'+' then some (b' ' ∷ []) else some (c ∷ [])
unescape (c ∷ d ∷ []) =
    let rest = unescape (d ∷ []) in
    if c == b'%' then none else if c == b'+' then with_char b' ' rest else with_char c rest
unescape (c ∷ d ∷ e ∷ s) =
    let rest = unescape (d ∷ e ∷ s) in
    let behind = unescape s in
    if c == b'%'
    then with_byte (hex_value d) (hex_value e) behind
    else if c == b'+'
    then with_char b' ' rest
    else with_char c rest

unescape-char :
    (c : ℕ) (s : Bytes)
    → (c == b'%') ≡ false
    → (c == b'+') ≡ false
    → unescape (c ∷ s) ≡ with_char c (unescape s)
unfolding unescape
unescape-char c [] h h' = rw (h, h')
unescape-char c (d ∷ []) h h' = rw (h, h')
unescape-char c (d ∷ e ∷ s) h h' = rw (h, h')

unescape_plus : (s : Bytes) → unescape (b'+' ∷ s) ≡ with_char b' ' (unescape s)
unfolding unescape
unescape_plus [] = refl
unescape_plus (d ∷ []) = refl
unescape_plus (d ∷ e ∷ s) = refl

abbrev is_some_value : Option ℕ → ℕ → Bool
is_some_value none n = false
is_some_value (some v) n = v == n

digit-of : (o : Option ℕ) (n : ℕ) → is_some_value o n ≡ true → o ≡ some n
digit-of none n h = cc
digit-of (some v) n h = ground arith

hex_value-hex_digit : (n : ℕ) → n < 16 → hex_value (hex_digit n) ≡ some n
hex_value-hex_digit n h =
    digit-of _ n (all_below_sound 16 (λ n. is_some_value (hex_value (hex_digit n)) n) n refl h)

abbrev is_plain : ℕ → Bool
is_plain c = not (is_unreserved c) || (not (c == b'%') && not (c == b'+'))

abbrev hi : ℕ → ℕ
hi c = bit_and (c >>> 4) 0xf

abbrev lo : ℕ → ℕ
lo c = bit_and c 0xf

abbrev splits : ℕ → Bool
splits c = (hi c * 16 + lo c == c) && (leb (hi c) 15 && leb (lo c) 15)

split_byte : (c : ℕ) → IsByte c → (hi c < 16) × (lo c < 16) × (hi c * 16 + lo c ≡ c)
split_byte c h = let e : splits c ≡ true = all_below_sound 256 splits c refl h in ground (arith, e)

unescape_hex :
    (c : ℕ) (s : Bytes)
    → IsByte c
    → unescape (b'%' ∷ hex_digit (hi c) ∷ hex_digit (lo c) ∷ s) ≡ with_char c (unescape s)
unfolding unescape
unescape_hex c s h =
    let (h1, h2, e) = split_byte c h in
    rw (hex_value-hex_digit (hi c) h1, hex_value-hex_digit (lo c) h2)
      (both c (hi c) (lo c) e (unescape s))
  where
    both :
        (c h l : ℕ)
        → h * 16 + l ≡ c
        → (o : Option Bytes) → with_byte (some h) (some l) o ≡ with_char c o
    both c h l e none = refl
    both c h l e (some s) = rw e

unescape-escape_byte :
    (c : ℕ) (s : Bytes) → IsByte c → unescape (escape_byte c ++ s) ≡ with_char c (unescape s)
unescape-escape_byte c s h = elim (Bool-cases (is_unreserved c)) [
  | inl plain ↦
      let e : is_plain c ≡ true = all_below_sound 256 is_plain c refl h in
      let (no_percent, no_plus) = plain_char c plain e in
      rw plain (unescape-char c s no_percent no_plus)
  | inr other ↦ elim (Bool-cases (c == b' ')) [
    | inl space ↦ let e : c ≡ b' ' = ground arith in rw (other, space) (rw e (unescape_plus s))
    | inr hex ↦ rw (other, hex) (unescape_hex c s h)
  ]
]
  where
    plain_char :
        (c : ℕ)
        → is_unreserved c ≡ true
        → is_plain c ≡ true
        → ((c == b'%') ≡ false) × ((c == b'+') ≡ false)
    plain_char c u p = ground (arith, u, p)

-- What QueryEscape writes decodes to the bytes that it was given.
pub unescape-query_escape : (s : Bytes) → All IsByte s → unescape (query_escape s) ≡ some s
unfolding query_escape unescape
unescape-query_escape [] h = refl
unescape-query_escape (c ∷ s) (b, bs) =
    rw (unescape-escape_byte c (query_escape s) b, unescape-query_escape s bs)
