-- ===== src/Encoding/Sha256/Streaming.antt =====
-- The chunks that Update is given make no difference (class Sha256 of src/usersig.cc).
use trtc_asr_sdk_cpp.Common.{
  ℕ, zero, suc, ◌+◌, ◌-◌, ◌*◌, ◌%◌, ◌<◌, ◌≤◌, ◌≡◌, refl, sym, ap, ◌∙◌, arith, min, false,
  Bool-cases, inl, inr, [], ◌∷◌, ◌++◌, append-nil, append_assoc, Bytes, length, length-append,
  length-take, length-drop, take, drop, take-append-drop, ◌==◌,
}
use trtc_asr_sdk_cpp.Common.Bits.{u64}
use trtc_asr_sdk_cpp.Encoding.Sha256.{Sha256, flush, absorb, update_no_count, update, pad_zeros}

-- A byte at a time.
abbrev with_buf : Bytes → Sha256 → Sha256
with_buf bs s = record s { buf = bs }

abbrev push : ℕ → Sha256 → Sha256
push b s = flush (with_buf (s.buf ++ (b ∷ [])) s)

pub absorb_bytes : Bytes → Sha256 → Sha256
absorb_bytes [] s = s
absorb_bytes (b ∷ bs) s = absorb_bytes bs (push b s)

flush_short : (s : Sha256) → length s.buf < 64 → flush s ≡ s
unfolding flush
flush_short s h = let e : (length s.buf == 64) ≡ false = ground arith in rw e

flush-length : (s : Sha256) → length s.buf ≤ 64 → length (flush s).buf < 64
unfolding flush
flush-length s h = elim (Bool-cases (length s.buf == 64)) [
  | inl full ↦ rw full (omega arith)
  | inr short ↦ rw short (ground (arith, short))
]

absorb_bytes-append :
    (xs ys : Bytes) (s : Sha256) → absorb_bytes (xs ++ ys) s ≡ absorb_bytes ys (absorb_bytes xs s)
unfolding absorb_bytes
absorb_bytes-append [] ys s = refl
absorb_bytes-append (x ∷ xs) ys s = absorb_bytes-append xs ys (push x s)

push-length : (b : ℕ) (s : Sha256) → length s.buf < 64 → length (push b s).buf < 64
push-length b s h =
    flush-length (with_buf (s.buf ++ (b ∷ [])) s) (omega (arith, length-append s.buf (b ∷ [])))

absorb_bytes-length :
    (xs : Bytes) (s : Sha256) → length s.buf < 64 → length (absorb_bytes xs s).buf < 64
unfolding absorb_bytes
absorb_bytes-length [] s h = h
absorb_bytes-length (x ∷ xs) s h = absorb_bytes-length xs (push x s) (push-length x s h)

-- Bytes that fit the buffer.
absorb_chunk :
    (xs : Bytes) (s : Sha256)
    → length s.buf < 64
    → length s.buf + length xs ≤ 64
    → absorb_bytes xs s ≡ flush (with_buf (s.buf ++ xs) s)
unfolding absorb_bytes
absorb_chunk [] s h h' =
    sym (ap (λ (bs : Bytes). flush (with_buf bs s)) (append-nil s.buf) ∙ flush_short s h)
absorb_chunk (x ∷ []) s h h' = refl
absorb_chunk (x ∷ y ∷ ys) s h h' =
    let s' = with_buf (s.buf ++ (x ∷ [])) s in
    let l = length-append s.buf (x ∷ []) in
    let short : length s'.buf < 64 = omega (arith, l) in
    ap (absorb_bytes (y ∷ ys)) (flush_short s' short)
    ∙ absorb_chunk (y ∷ ys) s' short (omega (arith, l))
    ∙ ap (λ (bs : Bytes). flush (with_buf bs s)) (append_assoc s.buf (x ∷ []) (y ∷ ys))

absorb-bytes :
    (fuel : ℕ) (xs : Bytes) (s : Sha256)
    → length xs ≤ fuel
    → length s.buf < 64
    → absorb fuel xs s ≡ absorb_bytes xs s
unfolding absorb absorb_bytes
absorb-bytes zero [] s f h = refl
absorb-bytes zero (x ∷ xs) s f h = absurd (omega arith)
absorb-bytes (suc fuel) [] s f h = refl
absorb-bytes (suc fuel) (x ∷ xs) s f h =
    let n = min (length (x ∷ xs)) (64 - length s.buf) in
    let front = take n (x ∷ xs) in
    let back = drop n (x ∷ xs) in
    let lt = length-take n (x ∷ xs) in
    let ld = length-drop n (x ∷ xs) in
    let s' = flush (with_buf (s.buf ++ front) s) in
    absorb-bytes fuel back s' (omega (arith, ld))
      (flush-length (with_buf (s.buf ++ front) s) (omega (arith, lt, length-append s.buf front)))
    ∙ ap (absorb_bytes back) (sym (absorb_chunk front s h (omega (arith, lt))))
    ∙ sym (absorb_bytes-append front back s)
    ∙ ap (λ (bs : Bytes). absorb_bytes bs s) (take-append-drop n (x ∷ xs))

update_no_count-bytes :
    (xs : Bytes) (s : Sha256) → length s.buf < 64 → update_no_count xs s ≡ absorb_bytes xs s
unfolding update_no_count
update_no_count-bytes xs s h = absorb-bytes (length xs) xs s (omega arith) h

abbrev with_bit_len : ℕ → Sha256 → Sha256
with_bit_len n s = record s { bit_len = n }

flush-bit_len : (n : ℕ) (s : Sha256) → flush (with_bit_len n s) ≡ with_bit_len n (flush s)
unfolding flush
flush-bit_len n s = elim (Bool-cases (length s.buf == 64)) [
  | inl full ↦ rw full
  | inr short ↦ rw short
]

absorb_bytes-bit_len :
    (n : ℕ) (xs : Bytes) (s : Sha256)
    → absorb_bytes xs (with_bit_len n s) ≡ with_bit_len n (absorb_bytes xs s)
unfolding absorb_bytes
absorb_bytes-bit_len n [] s = refl
absorb_bytes-bit_len n (x ∷ xs) s =
    ap (absorb_bytes xs) (flush-bit_len n (with_buf (s.buf ++ (x ∷ [])) s))
    ∙ absorb_bytes-bit_len n xs (push x s)

add_lengths : (l x y : ℕ) → u64 (l + u64 ((x + y) * 8)) ≡ u64 (u64 (l + u64 (x * 8)) + u64 (y * 8))
add_lengths l x y = omega arith

abbrev counted : ℕ → Sha256 → ℕ
counted n s = u64 (s.bit_len + u64 (n * 8))

update_lem :
    (xs : Bytes) (s : Sha256)
    → length s.buf < 64
    → update xs s ≡ with_bit_len (counted (length xs) s) (absorb_bytes xs s)
unfolding update
update_lem xs s h =
    let n = counted (length xs) s in
    update_no_count-bytes xs (with_bit_len n s) h ∙ absorb_bytes-bit_len n xs s

bit_len-absorb_bytes : (xs : Bytes) (s : Sha256) → (absorb_bytes xs s).bit_len ≡ s.bit_len
bit_len-absorb_bytes xs s = ap (λ (t : Sha256). t.bit_len) (absorb_bytes-bit_len s.bit_len xs s)

-- Feeding two pieces to Update one after the other is feeding their concatenation: in the words, in the
-- buffer and in the bit count, wherever the pieces meet the block boundaries.
pub update-append :
    (xs ys : Bytes) (s : Sha256) → length s.buf < 64 → update (xs ++ ys) s ≡ update ys (update xs s)
update-append xs ys s h =
    let after = absorb_bytes xs s in
    let n = counted (length xs) s in
    let m = u64 (n + u64 (length ys * 8)) in
    let lengths : counted (length (xs ++ ys)) s ≡ m =
      ap (λ (l : ℕ). counted l s) (length-append xs ys)
      ∙ add_lengths s.bit_len (length xs) (length ys) in
    update_lem (xs ++ ys) s h
    ∙ ap (λ (l : ℕ). with_bit_len l (absorb_bytes (xs ++ ys) s)) lengths
    ∙ ap (with_bit_len m) (absorb_bytes-append xs ys s)
    ∙ sym (ap (with_bit_len m) (absorb_bytes-bit_len n ys after))
    ∙ sym (update_lem ys (with_bit_len n after) (absorb_bytes-length xs s h))
    ∙ ap (update ys) (sym (update_lem xs s h))

-- Zeros that the loop still has to add.
abbrev missing : ℕ → ℕ
missing n = (120 - n) % 64

zero_added :
    (s : Sha256)
    → length s.buf < 64
    → (length s.buf == 56) ≡ false
    → (length (update_no_count (0 ∷ []) s).buf < 64)
      × (missing (length (update_no_count (0 ∷ []) s).buf) + 1 ≡ missing (length s.buf))
unfolding flush absorb_bytes
zero_added s h other =
    let l = length-append s.buf (0 ∷ []) in
    rw (update_no_count-bytes (0 ∷ []) s h) (elim (Bool-cases (length (s.buf ++ (0 ∷ [])) == 64)) [
      | inl full ↦ rw full (omega arith, ground (arith, full, l))
      | inr short ↦ rw short (ground (arith, short, l), ground (arith, l, other))
    ])

pad_zeros-fuel :
    (fuel : ℕ) (s : Sha256)
    → length s.buf < 64
    → missing (length s.buf) < fuel
    → length (pad_zeros fuel s).buf ≡ 56
unfolding pad_zeros
pad_zeros-fuel zero s h f = absurd (omega arith)
pad_zeros-fuel (suc fuel) s h f = elim (Bool-cases (length s.buf == 56)) [
  | inl done ↦ rw done (ground (arith, done))
  | inr other ↦
      let (h', m) = zero_added s h other in
      rw other (pad_zeros-fuel fuel (update_no_count (0 ∷ []) s) h' (omega (arith, m, f)))
]

-- The loop of Final that pads with zeros ends at 56 bytes: a fuel of 64 is enough.
pub pad_zeros-length : (s : Sha256) → length s.buf < 64 → length (pad_zeros 64 s).buf ≡ 56
pad_zeros-length s h = pad_zeros-fuel 64 s h (omega arith)
