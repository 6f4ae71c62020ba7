-- ===== src/Ws/Reader/Messages.antt =====
-- WsClient::Read on a stream of frames, with the fuel that `read` takes (src/ws_client.cc).
use trtc_asr_sdk_cpp.Common.{
  ℕ, zero, suc, ◌+◌, ◌≡◌, refl, sym, ap, ◌∙◌, subst, arith, inl, inr, true, false, Bool-cases, List,
  [], ◌++◌, Bytes, length, ◌==◌, All,
}
use trtc_asr_sdk_cpp.Ws.Transport.{Transport}
use trtc_asr_sdk_cpp.Ws.Transport.Chunks.{Brings}
use trtc_asr_sdk_cpp.Ws.Transport.Progress.{pending}
use trtc_asr_sdk_cpp.Ws.Reader.{
  WsFrame, message, ReadResult, next_frame, got, read_loop, read, result, pong,
}
use trtc_asr_sdk_cpp.Ws.Reader.RoundTrip.{text_or_binary}
use trtc_asr_sdk_cpp.Ws.Reader.Loop.{
  Sent, wire, wires, IsControl, IsMessage, answers, read_loop-wires,
}
use trtc_asr_sdk_cpp.Ws.Reader.Termination.{is_stuck, Round-cases, loop-is_stuck}

module _ (rng : ℕ → ℕ → ℕ) where
  step_ping :
      (fuel : ℕ) (t t' : Transport) (pongs : List Bytes) (frame : WsFrame)
      → next_frame t ≡ got frame t'
      → (frame.opcode == 0x9) ≡ true
      → read_loop rng (suc fuel) t pongs ≡ read_loop rng fuel t' (pong rng frame.payload pongs)
  unfolding read_loop
  step_ping fuel t t' pongs frame e ping = rw (e, read_loop) (rw ping refl)

  step_pong :
      (fuel : ℕ) (t t' : Transport) (pongs : List Bytes) (frame : WsFrame)
      → next_frame t ≡ got frame t'
      → (frame.opcode == 0x9) ≡ false
      → (frame.opcode == 0xa) ≡ true
      → read_loop rng (suc fuel) t pongs ≡ read_loop rng fuel t' pongs
  unfolding read_loop
  step_pong fuel t t' pongs frame e other ping = rw (e, read_loop) (rw (other, ping) refl)

  step_message :
      (fuel : ℕ) (t t' : Transport) (pongs : List Bytes) (frame : WsFrame)
      → next_frame t ≡ got frame t'
      → (frame.opcode == 0x9) ≡ false
      → (frame.opcode == 0xa) ≡ false
      → read_loop rng (suc fuel) t pongs ≡ result (message frame) t' pongs
  unfolding read_loop
  step_message fuel t t' pongs frame e other other' = rw (e, read_loop) (rw (other, other') refl)

  -- Where a step of the loop leads to another state of it, more fuel there is more fuel here.
  through :
      (fuel : ℕ) (t t' : Transport) (pongs pongs' : List Bytes)
      → ((n : ℕ) → read_loop rng (suc n) t pongs ≡ read_loop rng n t' pongs')
      → (is_stuck (read_loop rng fuel t' pongs').outcome ≡ false
          → read_loop rng (suc fuel) t' pongs' ≡ read_loop rng fuel t' pongs')
      → is_stuck (read_loop rng (suc fuel) t pongs).outcome ≡ false
      → read_loop rng (suc (suc fuel)) t pongs ≡ read_loop rng (suc fuel) t pongs
  through fuel t t' pongs pongs' step inner h =
      step (suc fuel)
      ∙ inner (subst (λ (r : ReadResult). is_stuck r.outcome ≡ false) (step fuel) h)
      ∙ sym (step fuel)

  -- Fuel that is enough is as good as more.
  loop-suc :
      (fuel : ℕ) (t : Transport) (pongs : List Bytes)
      → is_stuck (read_loop rng fuel t pongs).outcome ≡ false
      → read_loop rng (suc fuel) t pongs ≡ read_loop rng fuel t pongs
  unfolding read_loop is_stuck
  loop-suc zero t pongs h = cc
  loop-suc (suc fuel) t pongs h = elim (Round-cases (next_frame t)) [
    | inl (o, t', e) ↦ rw (e, read_loop) refl
    | inr (frame, t', e) ↦ elim (Bool-cases (frame.opcode == 0x9)) [
      | inl ping ↦
          through fuel t t' pongs _ (λ n. step_ping n t t' pongs frame e ping) (loop-suc fuel t' _)
            h
      | inr other ↦ elim (Bool-cases (frame.opcode == 0xa)) [
        | inl ping ↦
            through fuel t t' pongs pongs (λ n. step_pong n t t' pongs frame e other ping)
              (loop-suc fuel t' pongs) h
        | inr other' ↦
            step_message (suc fuel) t t' pongs frame e other other'
            ∙ sym (step_message fuel t t' pongs frame e other other')
      ]
    ]
  ]

  loop-plus :
      (k fuel : ℕ) (t : Transport) (pongs : List Bytes)
      → is_stuck (read_loop rng fuel t pongs).outcome ≡ false
      → read_loop rng (k + fuel) t pongs ≡ read_loop rng fuel t pongs
  loop-plus zero fuel t pongs h = let z : 0 + fuel ≡ fuel = omega arith in rw z
  loop-plus (suc k) fuel t pongs h =
      let s : suc k + fuel ≡ suc (k + fuel) = omega arith in
      let e = loop-plus k fuel t pongs h in rw s (loop-suc (k + fuel) t pongs (rw e h) ∙ e)

  -- Read skips any number of control frames, hands WriteAll a pong of the same payload for each ping, in order,
  -- whether its writing succeeds or not, and returns the message behind them; the bytes that follow stay for the next Read. This holds however the
  -- stream is cut into segments and whether the peer masks its frames or not.
  pub read-wires :
      (controls : List Sent) (s : Sent) (back : Bytes) (t : Transport)
      → All IsControl controls
      → IsMessage s
      → Brings t (wires controls ++ (wire s ++ back))
      → (t' : Transport) × (read rng t
          ≡ result (message (text_or_binary s.opcode s.payload)) t' (answers rng [] controls))
        × Brings t' back
  unfolding read is_stuck
  read-wires controls s back t cs m b =
      let (t', e, b') =
        read_loop-wires rng controls s (suc (length controls)) back t [] cs m (omega arith) b in
      let n = suc (length controls) in
      let f = suc (pending t) in
      let one = loop-plus f n t [] (ap (λ (r : ReadResult). is_stuck r.outcome) e) in
      let two = loop-plus n f t [] (loop-is_stuck rng f t [] (omega arith)) in
      let swap : n + f ≡ f + n = omega arith in
      (t', sym two ∙ ap (λ (k : ℕ). read_loop rng k t []) swap ∙ one ∙ e, b')
