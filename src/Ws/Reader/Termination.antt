-- ===== src/Ws/Reader/Termination.antt =====
-- The loop of WsClient::Read ends (src/ws_client.cc): each frame takes two bytes at least.
use trtc_asr_sdk_cpp.Common.{
  ℕ, zero, suc, ◌+◌, ◌≤◌, ◌<◌, ◌≡◌, refl, sym, ap, subst, ◌≢◌, Bool, true, false, List, [], Bytes,
  arith, ◌==◌, ◌⊎◌, Bool-cases, inl, inr, ltb, get_or, bit_and,
}
use trtc_asr_sdk_cpp.Ws.Transport.{
  Transport, Status, complete, timed_out, error, Reading, read_exact,
}
use trtc_asr_sdk_cpp.Ws.Transport.Progress.{pending, asked, read_exact-Uses}
use trtc_asr_sdk_cpp.Ws.Reader.{
  WsFrame, Attempt, have, broken, ◌>>=◌, give, attempt, want, read_length, check_length, read_key,
  read_payload, read_body, max_payload, unmask, top_bit_set, round_after, Outcome, stuck,
  no_message, read_error, message, Round, got, ended, round_of, next_frame, read_loop, read,
}

-- A step of the reader leaves no more than there was.
abbrev Shrinks {ℓ} : {A : Type ℓ} → (Transport → Attempt A) → Type ℓ
Shrinks {A} m = (t : Transport) (a : A) (t' : Transport) → m t ≡ have a t' → pending t' ≤ pending t

>>=-eq-have {ℓ κ} :
    {A : Type ℓ} {B : Type κ} (r : Attempt A) (k : A → Transport → Attempt B) (b : B)
    (t'' : Transport)
    → elim r [ have a t' ↦ k a t' | broken what t' ↦ broken what t' ] ≡ have b t''
    → (a : A) × (t' : Transport) × (r ≡ have a t') × (k a t' ≡ have b t'')
>>=-eq-have (have a t') k b t'' h = (a, t', refl, h)
>>=-eq-have (broken what t') k b t'' h = cc

>>=-Shrinks {ℓ κ} :
    {A : Type ℓ} {B : Type κ} (m : Transport → Attempt A) (k : A → Transport → Attempt B)
    → Shrinks m
    → ((a : A) → Shrinks (k a))
    → Shrinks (m >>= k)
>>=-Shrinks m k first second t b t'' h =
    let (a, t', e, e') = >>=-eq-have (m t) k b t'' h in
    omega (arith, first t a t' e, second a t' b t'' e')

attempt-have :
    (what : Bytes) (r : Reading) (a : Bytes) (t' : Transport)
    → attempt what r ≡ have a t'
    → t' ≡ r.rest
attempt-have what r a t' h = ground arith

want-Shrinks : (n : ℕ) (what : Bytes) → Shrinks (want n what)
unfolding want
want-Shrinks n what t a t' h =
    let e = attempt-have what (read_exact t n) a t' h in
    subst (λ u. pending u ≤ pending t) (sym e) (omega (arith, read_exact-Uses t n))

rest_of {ℓ} : {A : Type ℓ} → Transport → Attempt A → Transport
rest_of u (have a t) = t
rest_of u (broken what t) = t

give-Shrinks {ℓ} : {A : Type ℓ} (x : A) → Shrinks (give x)
unfolding rest_of
give-Shrinks x t a t' h =
    let e : t ≡ t' = ap (rest_of t) h in subst (λ u. pending u ≤ pending t) e (omega arith)

read_length-Shrinks : (len : ℕ) → Shrinks (read_length len)
unfolding read_length
read_length-Shrinks len = elim (Bool-cases (len == 126)) [
  | inl two ↦ rw two (>>=-Shrinks (want 2 _) _ (want-Shrinks 2 _) (λ ext. give-Shrinks _))
  | inr other ↦ rw other (elim (Bool-cases (len == 127)) [
    | inl eight ↦ rw eight (>>=-Shrinks (want 8 _) _ (want-Shrinks 8 _) (λ ext. give-Shrinks _))
    | inr short ↦ rw short (give-Shrinks len)
  ])
]

check_length-Shrinks : (len : ℕ) → Shrinks (check_length len)
unfolding check_length
check_length-Shrinks len t a t' h = elim (Bool-cases (ltb max_payload len)) [
  | inl over ↦ cc (rw over at h)
  | inr fits ↦ give-Shrinks tt t a t' (rw fits at h)
]

read_key-Shrinks : (masked : Bool) → Shrinks (read_key masked)
unfolding read_key
read_key-Shrinks true = want-Shrinks 4 _
read_key-Shrinks false = give-Shrinks _

read_payload-Shrinks : (len : ℕ) → Shrinks (read_payload len)
unfolding read_payload
read_payload-Shrinks len = elim (Bool-cases (len == 0)) [
  | inl none_sent ↦ rw none_sent (give-Shrinks [])
  | inr some_sent ↦ rw some_sent (want-Shrinks len _)
]

read_body-Shrinks : (head0 head1 : ℕ) → Shrinks (read_body head0 head1)
unfolding read_body
read_body-Shrinks head0 head1 = >>=-Shrinks (read_length l) _ (read_length-Shrinks l) λ len.
    >>=-Shrinks (check_length len) _ (check_length-Shrinks len) λ _.
      >>=-Shrinks (read_key masked) _ (read_key-Shrinks masked) λ key.
        >>=-Shrinks (read_payload len) _ (read_payload-Shrinks len) λ payload.
          give-Shrinks (record {
            opcode = bit_and head0 0x0f;
            payload = unmask masked key payload;
            fin = top_bit_set head0;
          })
  where
    l : ℕ
    l = bit_and head1 0x7f

    masked : Bool
    masked = top_bit_set head1

frame_of : WsFrame → Round → WsFrame
frame_of d (got f t) = f
frame_of d (ended o t) = d

left_of : Transport → Round → Transport
left_of d (got f t) = t
left_of d (ended o t) = d

round_of-got :
    (r : Attempt WsFrame) (frame : WsFrame) (t' : Transport)
    → round_of r ≡ got frame t'
    → r ≡ have frame t'
unfolding frame_of left_of
round_of-got (have f t) frame t' h = λ i. have (frame_of f (h i)) (left_of t (h i))
round_of-got (broken what t) frame t' h = cc

round_after-got :
    (s : Status) (t : Transport) (body : Round) (frame : WsFrame) (t' : Transport)
    → round_after s t body ≡ got frame t'
    → (s ≡ complete) × (body ≡ got frame t')
unfolding round_after
round_after-got complete t body frame t' h = (refl, h)
round_after-got timed_out t body frame t' h = cc
round_after-got error t body frame t' h = cc

-- A frame uses up its two header bytes.
next_frame-uses :
    (t : Transport) (frame : WsFrame) (t' : Transport)
    → next_frame t ≡ got frame t'
    → 2 + pending t' ≤ pending t
unfolding next_frame
next_frame-uses t frame t' h =
    let head = read_exact t 2 in
    let (done, e) = round_after-got head.status head.rest _ frame t' h in
    let e' = round_of-got _ frame t' e in
    let shrinks =
      read_body-Shrinks (get_or head.bytes 0 0) (get_or head.bytes 1 0) head.rest frame t' e' in
    let uses = subst (λ s. asked s 2 + pending head.rest ≤ pending t) done (read_exact-Uses t 2) in
    omega (arith, shrinks, uses)

unfoldable pub is_stuck : Outcome → Bool
is_stuck stuck = true
is_stuck (message frame) = false
is_stuck no_message = false
is_stuck (read_error what) = false

-- A round never ends in `stuck`.
ends_stuck : Round → Bool
unfolding is_stuck
ends_stuck (got frame t) = false
ends_stuck (ended o t) = is_stuck o

round_of-ends : (r : Attempt WsFrame) → ends_stuck (round_of r) ≡ false
unfolding ends_stuck
round_of-ends (have frame t) = refl
round_of-ends (broken what t) = refl

round_after-ends :
    (s : Status) (t : Transport) (body : Round)
    → ends_stuck body ≡ false
    → ends_stuck (round_after s t body) ≡ false
unfolding ends_stuck round_after
round_after-ends complete t body h = h
round_after-ends timed_out t body h = refl
round_after-ends error t body h = refl

next_frame-ends : (t : Transport) → ends_stuck (next_frame t) ≡ false
unfolding next_frame
next_frame-ends t =
    let head = read_exact t 2 in
    round_after-ends head.status head.rest _
      (round_of-ends (read_body (get_or head.bytes 0 0) (get_or head.bytes 1 0) head.rest))

pub Round-cases :
    (r : Round)
    → ((o : Outcome) × (t : Transport) × (r ≡ ended o t))
      ⊎ ((f : WsFrame) × (t : Transport) × (r ≡ got f t))
Round-cases (ended o t) = inl (o, t, refl)
Round-cases (got f t) = inr (f, t, refl)

module _ (rng : ℕ → ℕ → ℕ) where
  pub loop-is_stuck :
      (fuel : ℕ) (t : Transport) (pongs : List Bytes)
      → pending t < fuel
      → is_stuck (read_loop rng fuel t pongs).outcome ≡ false
  unfolding read_loop
  loop-is_stuck zero t pongs h = absurd (omega arith)
  loop-is_stuck (suc fuel) t pongs h = elim (Round-cases (next_frame t)) [
    | inl (o, t', e) ↦
        let ends : ends_stuck (next_frame t) ≡ false = next_frame-ends t in
        rw (e, read_loop) (unfold ends_stuck in rw e at ends)
    | inr (frame, t', e) ↦
        let uses = next_frame-uses t frame t' e in
        let after : (pongs : List Bytes) → is_stuck (read_loop rng fuel t' pongs).outcome ≡ false =
          λ pongs. loop-is_stuck fuel t' pongs (omega (arith, uses)) in
        elim (Bool-cases (frame.opcode == 0x9)) [
          | inl ping ↦ rw (e, read_loop) (rw ping (after _))
          | inr other ↦ elim (Bool-cases (frame.opcode == 0xa)) [
            | inl pong ↦ rw (e, read_loop) (rw (other, pong) (after _))
            | inr other' ↦ rw (e, read_loop) (rw (other, other') (unfold is_stuck in refl))
          ]
        ]
  ]

  -- The loop of Read ends on every transport: the fuel that `read` gives is never used up.
  pub read-ne-stuck : (t : Transport) → (read rng t).outcome ≢ stuck
  unfolding read is_stuck
  read-ne-stuck t h =
      let no : is_stuck (read rng t).outcome ≡ false =
        loop-is_stuck (suc (pending t)) t [] (omega arith) in
      cc (rw h at no)
