-- ===== src/Ws/Reader/Length.antt =====
-- The length field of a frame, read back from what the encoder wrote (src/ws_client.cc).
use trtc_asr_sdk_cpp.Common.{
  ℕ, ◌*◌, ◌/◌, ◌%◌, ◌^◌, ◌<◌, ◌≡◌, refl, ◌∙◌, true, false, [], ◌∷◌, ◌++◌, bit_and, bit_or, Bytes,
  arith, length, ltb, leb, ◌==◌, if◌then◌else◌, append_assoc, append-nil, Bool-cases, inl, inr,
}
use trtc_asr_sdk_cpp.Common.Bits.{◌<<<◌, ◌>>>◌, u64, bit_and-mask, bit_or-shift}
use trtc_asr_sdk_cpp.Ws.Frame.{frame_length, len_bytes}
use trtc_asr_sdk_cpp.Ws.Transport.{Transport}
use trtc_asr_sdk_cpp.Ws.Transport.Chunks.{Brings, read_exact-Brings}
use trtc_asr_sdk_cpp.Ws.Reader.{Attempt, have, want, read_length, shift_bytes, ◌>>=◌, give}

-- A step of the reader takes `front` off a transport and gives `a`.
abbrev pub Takes {ℓ} : {A : Type ℓ} → (Transport → Attempt A) → Bytes → A → Type ℓ
Takes m front a =
    (back : Bytes) (t : Transport)
    → Brings t (front ++ back)
    → (t' : Transport) × (m t ≡ have a t') × Brings t' back

pub want-Takes : (front what : Bytes) → Takes (want (length front) what) front front
unfolding want
want-Takes front what back t b =
    let (t', e, b') = read_exact-Brings front back t b in (t', rw e, b')

pub give-Takes {ℓ} : {A : Type ℓ} (a : A) → Takes (give a) [] a
give-Takes a back t b = (t, refl, b)

>>=-have {ℓ κ} :
    {A : Type ℓ} {B : Type κ} (m : Transport → Attempt A) (k : A → Transport → Attempt B) (a : A)
    (t t' : Transport)
    → m t ≡ have a t'
    → (m >>= k) t ≡ k a t'
>>=-have m k a t t' e = rw (e, ◌>>=◌)

pub >>=-Takes {ℓ κ} :
    {A : Type ℓ} {B : Type κ} (m : Transport → Attempt A) (k : A → Transport → Attempt B)
    (front behind : Bytes) (a : A) (b : B)
    → Takes m front a
    → Takes (k a) behind b
    → Takes (m >>= k) (front ++ behind) b
>>=-Takes m k front behind a b first second back t h =
    let (t', e, h') = first (behind ++ back) t (rw append_assoc at h) in
    let (t'', e', h'') = second back t' h' in (t'', >>=-have m k a t t' e ∙ e', h'')

-- The 7-bit length and the bytes that extend it.
abbrev pub short_length : ℕ → ℕ
short_length len = if ltb len 126 then len else if leb len 0xffff then 126 else 127

abbrev pub length_extension : ℕ → Bytes
length_extension len =
    if ltb len 126
    then []
    else if leb len 0xffff
    then bit_and (len >>> 8) 0xff ∷ bit_and len 0xff ∷ []
    else len_bytes 8 len

pub frame_length-split :
    (mask_bit len : ℕ)
    → frame_length mask_bit len ≡ bit_or mask_bit (short_length len) ∷ length_extension len
unfolding frame_length
frame_length-split mask_bit len = ground arith

shift_byte :
    (hi q : ℕ) (ext : Bytes)
    → hi ≡ q / 256
    → q < 2 ^ 64
    → shift_bytes hi (bit_and q 0xff ∷ ext) ≡ shift_bytes q ext
unfolding shift_bytes
shift_byte hi q ext e h =
    let fits : u64 (hi <<< 8) ≡ q / 256 * 2 ^ 8 = omega arith in
    let low : bit_and q 0xff ≡ q % 256 = bit_and-mask 8 q in
    let sum : bit_or (q / 256 * 2 ^ 8) (q % 256) ≡ q =
      omega (arith, bit_or-shift 8 (q / 256) (q % 256) (omega arith)) in
    rw (fits, low, sum)

shift_bytes-len_bytes : (len : ℕ) → len < 2 ^ 64 → shift_bytes 0 (len_bytes 8 len) ≡ len
unfolding len_bytes
shift_bytes-len_bytes len h =
    shift_byte 0 (len / 2 ^ 56) _ (omega arith) (omega arith)
    ∙ shift_byte (len / 2 ^ 56) (len / 2 ^ 48) _ (omega arith) (omega arith)
    ∙ shift_byte (len / 2 ^ 48) (len / 2 ^ 40) _ (omega arith) (omega arith)
    ∙ shift_byte (len / 2 ^ 40) (len / 2 ^ 32) _ (omega arith) (omega arith)
    ∙ shift_byte (len / 2 ^ 32) (len / 2 ^ 24) _ (omega arith) (omega arith)
    ∙ shift_byte (len / 2 ^ 24) (len / 2 ^ 16) _ (omega arith) (omega arith)
    ∙ shift_byte (len / 2 ^ 16) (len / 2 ^ 8) _ (omega arith) (omega arith)
    ∙ shift_byte (len / 2 ^ 8) (len / 2 ^ 0) [] (omega arith) (omega arith)
    ∙ unfold shift_bytes in omega arith

read_length-small : (len : ℕ) → ltb len 126 ≡ true → read_length len ≡ give len
unfolding read_length
read_length-small len h =
    let e : (len == 126) ≡ false = ground arith in
    let e' : (len == 127) ≡ false = ground arith in rw (e, e')

two_bytes :
    (len : ℕ)
    → leb len 0xffff ≡ true
    → bit_or (bit_and (len >>> 8) 0xff <<< 8) (bit_and len 0xff) ≡ len
two_bytes len h =
    let high : bit_and (len >>> 8) 0xff ≡ len / 256 = ground (arith, bit_and-mask 8 (len / 256)) in
    let low : bit_and len 0xff ≡ len % 256 = bit_and-mask 8 len in
    rw (high, low) (omega (arith, bit_or-shift 8 (len / 256) (len % 256) (omega arith)))

read_length-two :
    (len : ℕ)
    → leb len 0xffff ≡ true
    → Takes (read_length 126) (bit_and (len >>> 8) 0xff ∷ bit_and len 0xff ∷ []) len
unfolding read_length
read_length-two len h =
    let ext : Bytes = bit_and (len >>> 8) 0xff ∷ bit_and len 0xff ∷ [] in
    >>=-Takes (want 2 _) _ ext [] ext len (want-Takes ext _) (rw (two_bytes len h) (give-Takes len))

read_length-eight : (len : ℕ) → len < 2 ^ 64 → Takes (read_length 127) (len_bytes 8 len) len
unfolding read_length
read_length-eight len h =
    let ext : Bytes = len_bytes 8 len in
    rw (← append-nil (len_bytes 8 len)) (
      >>=-Takes (want 8 _) _ ext [] ext len (unfold len_bytes in want-Takes ext _)
        (rw (shift_bytes-len_bytes len h) (give-Takes len)))

-- The reader's step for the length gives back the length that was written.
pub read_length-Takes :
    (len : ℕ) → len < 2 ^ 64 → Takes (read_length (short_length len)) (length_extension len) len
read_length-Takes len h = elim (Bool-cases (ltb len 126)) [
  | inl small ↦ rw small (rw (read_length-small len small) (give-Takes len))
  | inr big ↦ rw big (elim (Bool-cases (leb len 0xffff)) [
    | inl two ↦ rw two (read_length-two len two)
    | inr eight ↦ rw eight (read_length-eight len h)
  ])
]
