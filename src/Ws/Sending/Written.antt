-- ===== src/Ws/Sending/Written.antt =====
-- What WriteAll has written when it returns, and the peer that reads it (src/ws_client.cc).
use trtc_asr_sdk_cpp.Common.{
  arith, ◌≡◌, ◌≢◌, refl, sym, subst, ap, ◌∙◌, ◌⊎◌, inl, inr, ℕ, ◌≤◌, true, none, some, List, [],
  ◌∷◌, ◌++◌, append-nil, append_assoc, take, drop, take-append-drop, Bytes, length,
}
use trtc_asr_sdk_cpp.Ws.Frame.{encode_ws_frame}
use trtc_asr_sdk_cpp.Ws.Transport.{Transport}
use trtc_asr_sdk_cpp.Ws.Transport.Chunks.{Brings}
use trtc_asr_sdk_cpp.Ws.Reader.{max_payload, read, result, message}
use trtc_asr_sdk_cpp.Ws.Reader.RoundTrip.{text_or_binary}
use trtc_asr_sdk_cpp.Ws.Reader.Loop.{IsMessage}
use trtc_asr_sdk_cpp.Ws.Reader.Messages.{read-wires}
use trtc_asr_sdk_cpp.Ws.Sending.{
  SendEvent, overdue, unready, again, broken, took, Sending, write_from, write_all, send_text,
  send_binary,
}

-- All is written, or a failure is reported and something is left.
abbrev pub IsWhole : Sending → Type 0
IsWhole s = (s.failure ≡ none) × (s.unsent ≡ [])

abbrev pub IsPart : Sending → Type 0
IsPart s = ((text : Bytes) × (s.failure ≡ some text)) × (s.unsent ≢ [])

abbrev pub Splits : Bytes → Sending → Type 0
Splits data' s = (data' ≡ s.sent ++ s.unsent) × (IsWhole s ⊎ IsPart s)

stopped-Splits :
    (out : Bytes) (b : ℕ) (bs : Bytes) (text : Bytes) (events : List SendEvent)
    → Splits
        (out ++ (b ∷ bs))
        (record { failure = some text; sent = out; unsent = b ∷ bs; events = events })
stopped-Splits out b bs text events = (refl, inr ((text, refl), λ h. cc))

write_from-Splits :
    (out data' : Bytes) (events : List SendEvent)
    → Splits (out ++ data') (write_from out data' events)
unfolding write_from
write_from-Splits out [] events = (refl, inl (refl, refl))
write_from-Splits out (b ∷ bs) [] = stopped-Splits out b bs _ []
write_from-Splits out (b ∷ bs) (overdue ∷ events) = stopped-Splits out b bs _ events
write_from-Splits out (b ∷ bs) (unready ∷ events) = stopped-Splits out b bs _ events
write_from-Splits out (b ∷ bs) (broken text ∷ events) = stopped-Splits out b bs text events
write_from-Splits out (b ∷ bs) (again ∷ events) = write_from-Splits out (b ∷ bs) events
write_from-Splits out (b ∷ bs) (took n ∷ events) =
    let (splits, cases) = write_from-Splits (out ++ take n (b ∷ bs)) (drop n (b ∷ bs)) events in
    let same : out ++ (b ∷ bs) ≡ (out ++ take n (b ∷ bs)) ++ drop n (b ∷ bs) =
      ap (λ r. out ++ r) (sym (take-append-drop n (b ∷ bs)))
      ∙ sym (append_assoc out (take n (b ∷ bs)) (drop n (b ∷ bs))) in
    (same ∙ splits, cases)

-- Whatever the socket does, what WriteAll has written is a front part of the data, and the rest is what
-- is left. It succeeds exactly when nothing is left; a failure leaves the peer with a part of the data.
pub write_all-Splits :
    (data' : Bytes) (events : List SendEvent) → Splits data' (write_all data' events)
unfolding write_all
write_all-Splits data' events = write_from-Splits [] data' events

sent_whole : (data' : Bytes) (s : Sending) → Splits data' s → s.failure ≡ none → s.sent ≡ data'
sent_whole data' s (splits, inl (fine, all)) h =
    sym (append-nil s.sent) ∙ ap (λ r. s.sent ++ r) (sym all) ∙ sym splits
sent_whole data' s (splits, inr ((text, fails), some')) h = absurd (cc (fails, h))

-- A frame that is written whole.
read-written :
    (rng : ℕ → ℕ) (peer : ℕ → ℕ → ℕ) (opcode : ℕ) (payload back : Bytes) (sending : Sending)
    (t : Transport)
    → IsMessage (record { key = rng; masks = true; opcode = opcode; payload = payload })
    → Splits (encode_ws_frame rng opcode payload true) sending
    → sending.failure ≡ none
    → Brings t (sending.sent ++ back)
    → (t' : Transport) × (read peer t ≡ result (message (text_or_binary opcode payload)) t' [])
      × Brings t' back
read-written rng peer opcode payload back sending t m splits fine b =
    read-wires peer [] (record { key = rng; masks = true; opcode = opcode; payload = payload }) back
      t tt m
      (subst (λ bs. Brings t (bs ++ back))
        (sent_whole (encode_ws_frame rng opcode payload true) sending splits fine) b)

-- What SendBinary and SendText have sent without a failure, a peer reads back: Read gives the message
-- with its payload, however the bytes are cut into segments in both directions, and leaves the bytes
-- behind it. The payload is at most what Read takes.
pub read-send :
    (rng : ℕ → ℕ) (peer : ℕ → ℕ → ℕ) (payload back : Bytes) (events : List SendEvent)
    (t u : Transport)
    → length payload ≤ max_payload
    → (send_binary rng payload events).failure ≡ none
    → (send_text rng payload events).failure ≡ none
    → Brings t ((send_binary rng payload events).sent ++ back)
    → Brings u ((send_text rng payload events).sent ++ back)
    → ((t' : Transport) × (read peer t ≡ result (message (text_or_binary 0x2 payload)) t' [])
        × Brings t' back)
      × ((u' : Transport) × (read peer u ≡ result (message (text_or_binary 0x1 payload)) u' [])
          × Brings u' back)
unfolding send_binary send_text
read-send rng peer payload back events t u small fine fine' b b' = (
  read-written rng peer 0x2 payload back (send_binary rng payload events) t
      (omega arith, (λ h. absurd (omega (arith, h))), (λ h. absurd (omega (arith, h))), small)
      (write_all-Splits (encode_ws_frame rng 0x2 payload true) events) fine b,
  read-written rng peer 0x1 payload back (send_text rng payload events) u
      (omega arith, (λ h. absurd (omega (arith, h))), (λ h. absurd (omega (arith, h))), small)
      (write_all-Splits (encode_ws_frame rng 0x1 payload true) events) fine' b',
)
