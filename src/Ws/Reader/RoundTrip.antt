-- ===== src/Ws/Reader/RoundTrip.antt =====
-- WsClient::Read gives back the frames that EncodeWsFrame wrote (src/ws_client.cc).
use trtc_asr_sdk_cpp.Common.{
  ℕ, zero, suc, ◌+◌, ◌%◌, ◌<◌, ◌≤◌, ◌≡◌, refl, ap, ◌∙◌, subst, Bool, true, false, not, ◌&&◌, [],
  ◌∷◌, ◌++◌, append-nil, bit_and, bit_or, bit_xor, Bytes, arith, length, get_or, ltb, ◌==◌,
  all_below_sound,
}
use trtc_asr_sdk_cpp.Common.Bits.{u8, bit_xor_twice}
use trtc_asr_sdk_cpp.Ws.Frame.{frame_body, mask_bit_of, xor_mask, encode_ws_frame}
use trtc_asr_sdk_cpp.Ws.Transport.{Transport, complete, read_exact}
use trtc_asr_sdk_cpp.Ws.Transport.Chunks.{Brings, read_exact-Brings}
use trtc_asr_sdk_cpp.Ws.Reader.{
  WsFrame, Attempt, read_length, check_length, read_key, read_payload, unmask, read_body,
  max_payload, top_bit_set, ◌>>=◌, give, got, next_frame, round_of, round_after,
}
use trtc_asr_sdk_cpp.Ws.Reader.Length.{
  Takes, want-Takes, give-Takes, >>=-Takes, short_length, length_extension, frame_length-split,
  read_length-Takes,
}

-- The second header byte keeps the mask bit and the short length apart.
abbrev keeps_length : Bool → ℕ → Bool
keeps_length mask l = bit_and (bit_or (mask_bit_of mask) l) 0x7f == l

abbrev keeps_mask : ℕ → Bool
keeps_mask l = top_bit_set (bit_or 0x80 l) && not (top_bit_set (bit_or 0x00 l))

length_kept : (mask : Bool) (l : ℕ) → l < 128 → bit_and (bit_or (mask_bit_of mask) l) 0x7f ≡ l
length_kept true l h = ground (arith, all_below_sound 128 (keeps_length true) l refl h)
length_kept false l h = ground (arith, all_below_sound 128 (keeps_length false) l refl h)

mask_kept : (mask : Bool) (l : ℕ) → l < 128 → top_bit_set (bit_or (mask_bit_of mask) l) ≡ mask
mask_kept true l h = ground (arith, all_below_sound 128 keeps_mask l refl h)
mask_kept false l h = ground (arith, all_below_sound 128 keeps_mask l refl h)

-- The first one keeps the opcode, behind a set FIN bit.
abbrev keeps_opcode : ℕ → Bool
keeps_opcode o = bit_and (u8 (bit_or 0x80 o)) 0x0f == o && top_bit_set (u8 (bit_or 0x80 o))

opcode_kept : (o : ℕ) → o < 16 → bit_and (u8 (bit_or 0x80 o)) 0x0f ≡ o
opcode_kept o h = ground (arith, all_below_sound 16 keeps_opcode o refl h)

fin_kept : (o : ℕ) → o < 16 → top_bit_set (u8 (bit_or 0x80 o)) ≡ true
fin_kept o h = ground (arith, all_below_sound 16 keeps_opcode o refl h)

short_length-lt : (len : ℕ) → short_length len < 128
short_length-lt len = ground arith

module _ (key key' : ℕ → ℕ) (same : (i : ℕ) → i < 4 → key' i ≡ key i) where
  xor_mask_twice : (i : ℕ) (payload : Bytes) → xor_mask key' i (xor_mask key i payload) ≡ payload
  unfolding xor_mask
  xor_mask_twice i [] = refl
  xor_mask_twice i (b ∷ payload) = cc (
    ap (bit_xor (bit_xor b (key (i % 4)))) (same (i % 4) (omega arith)),
    bit_xor_twice b (key (i % 4)),
    xor_mask_twice (i + 1) payload,
  )

length-xor_mask :
    (key : ℕ → ℕ) (i : ℕ) (payload : Bytes) → length (xor_mask key i payload) ≡ length payload
unfolding xor_mask
length-xor_mask key i [] = refl
length-xor_mask key i (b ∷ payload) = ap suc (length-xor_mask key (i + 1) payload)

read_payload-Takes : (payload : Bytes) → Takes (read_payload (length payload)) payload payload
unfolding read_payload
read_payload-Takes [] = give-Takes []
read_payload-Takes (b ∷ payload) =
    let e : (length (b ∷ payload) == 0) ≡ false = ground arith in rw e (want-Takes (b ∷ payload) _)

check_length-Takes : (len : ℕ) → len ≤ max_payload → Takes (check_length len) [] tt
unfolding check_length
check_length-Takes len h back t b =
    let e : ltb max_payload len ≡ false = ground arith in (t, rw e, b)

-- The masking key as four bytes of the stream.
abbrev key_bytes : (ℕ → ℕ) → Bytes
key_bytes key = key 0 ∷ key 1 ∷ key 2 ∷ key 3 ∷ []

key_byte : (key : ℕ → ℕ) (i : ℕ) → i < 4 → get_or (key_bytes key) i 0 ≡ key i
key_byte key zero h = refl
key_byte key (suc zero) h = refl
key_byte key (suc (suc zero)) h = refl
key_byte key (suc (suc (suc zero))) h = refl
key_byte key (suc (suc (suc (suc i)))) h = absurd (omega arith)

next_frame-body :
    (t t' : Transport) (b0 b1 : ℕ)
    → read_exact t 2 ≡ record { status = complete; bytes = b0 ∷ b1 ∷ []; rest = t' }
    → next_frame t ≡ round_of (read_body b0 b1 t')
unfolding next_frame round_after
next_frame-body t t' b0 b1 e = rw (e, next_frame) refl

abbrev pub text_or_binary : ℕ → Bytes → WsFrame
text_or_binary opcode payload = record { opcode = opcode; payload = payload; fin = true }

module _ (rng : ℕ → ℕ) (opcode : ℕ) (payload : Bytes) (o : opcode < 16)
    (n : length payload ≤ max_payload) where
  abbrev len : ℕ
  len = length payload

  abbrev head0 : ℕ
  head0 = u8 (bit_or 0x80 opcode)

  abbrev head1 : Bool → ℕ
  head1 mask = bit_or (mask_bit_of mask) (short_length len)

  abbrev the_frame : WsFrame
  the_frame = text_or_binary opcode payload

  -- The last step of the reader.
  abbrev finish : Bool → Bytes → Bytes → Transport → Attempt WsFrame
  finish mask key read = give (text_or_binary opcode (unmask mask key read))

  -- Everything behind the header of a frame whose body is `key` and `sent`.
  body-Takes :
      (mask : Bool) (key_sent key sent : Bytes)
      → Takes (read_key mask) key_sent key
      → length sent ≡ len
      → unmask mask key sent ≡ payload
      → Takes (read_body head0 (head1 mask)) (length_extension len ++ (key_sent ++ sent)) the_frame
  unfolding read_body
  body-Takes mask key_sent key sent key_read l u =
      let short = short_length len in
      let fits = short_length-lt len in
      let last : Takes (read_payload len >>= finish mask key) sent the_frame =
        subst (λ bs. Takes (read_payload len >>= finish mask key) bs the_frame) (append-nil sent)
          (>>=-Takes (read_payload len) (finish mask key) sent [] sent the_frame
            (subst (λ n. Takes (read_payload n) sent sent) l (read_payload-Takes sent))
            (subst (λ p. Takes (finish mask key sent) [] (text_or_binary opcode p)) u
              (give-Takes (text_or_binary opcode (unmask mask key sent))))) in
      rw
        (
          length_kept mask short fits,
          mask_kept mask short fits,
          opcode_kept opcode o,
          fin_kept opcode o,
        )
        (>>=-Takes (read_length short) _ (length_extension len) (key_sent ++ sent) len the_frame
          (read_length-Takes len (omega arith))
          (>>=-Takes (check_length len) _ [] (key_sent ++ sent) tt the_frame
            (check_length-Takes len n)
            (>>=-Takes (read_key mask) (λ k. read_payload len >>= finish mask k) key_sent sent key
              the_frame key_read last)))

  encode_ws_frame-split :
      (mask : Bool)
      → encode_ws_frame rng opcode payload mask
        ≡ head0 ∷ head1 mask ∷ (length_extension len ++ frame_body rng mask payload)
  unfolding encode_ws_frame
  encode_ws_frame-split mask = rw (frame_length-split (mask_bit_of mask) len)

  -- The body of a frame, with its masking key or without.
  frame_body-Takes :
      (mask : Bool)
      → Takes
          (read_body head0 (head1 mask))
          (length_extension len ++ frame_body rng mask payload)
          the_frame
  unfolding frame_body read_key
  frame_body-Takes true =
      let key = λ (i : ℕ). u8 (rng i) in
      body-Takes true (key_bytes key) (key_bytes key) (xor_mask key 0 payload)
        (want-Takes (key_bytes key) _) (length-xor_mask key 0 payload)
        (unfold unmask in xor_mask_twice key _ (key_byte key) 0 payload)
  frame_body-Takes false =
      body-Takes false [] (0 ∷ 0 ∷ 0 ∷ 0 ∷ []) payload (give-Takes _) refl (unfold unmask in refl)

  -- One round of the loop takes such a frame off the stream.
  pub next_frame-got :
      (mask : Bool) (back : Bytes) (t : Transport)
      → Brings t (encode_ws_frame rng opcode payload mask ++ back)
      → (t' : Transport) × (next_frame t ≡ got the_frame t') × Brings t' back
  next_frame-got mask back t b =
      let header : Bytes = head0 ∷ head1 mask ∷ [] in
      let body : Bytes = length_extension len ++ frame_body rng mask payload in
      let (t1, e, b1) =
        read_exact-Brings header (body ++ back) t (rw (encode_ws_frame-split mask) at b) in
      let (t', e', b') = frame_body-Takes mask back t1 b1 in
      (t', next_frame-body t t1 head0 (head1 mask) e ∙ ap round_of e', b')
