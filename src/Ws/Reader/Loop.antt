-- ===== src/Ws/Reader/Loop.antt =====
-- Read on a stream of control frames and a message: pings are answered, pongs skipped (src/ws_client.cc).
use trtc_asr_sdk_cpp.Common.{
  ℕ, zero, suc, ◌<◌, ◌≤◌, ◌≡◌, ◌∙◌, ◌≢◌, Bool, true, false, List, [], ◌∷◌, ◌++◌, append_assoc,
  Bytes, arith, length, ◌==◌, subst, ◌⊎◌, inl, inr, All, if◌then◌else◌,
}
use trtc_asr_sdk_cpp.Ws.Frame.{encode_ws_frame}
use trtc_asr_sdk_cpp.Ws.Transport.{Transport}
use trtc_asr_sdk_cpp.Ws.Transport.Chunks.{Brings}
use trtc_asr_sdk_cpp.Ws.Reader.{
  max_payload, WsFrame, message, read_loop, next_frame, got, pong, result,
}
use trtc_asr_sdk_cpp.Ws.Reader.RoundTrip.{text_or_binary, next_frame-got}

-- A frame as a peer sends it: the key that its own random source draws, and whether it masks.
pub record Sent : Type 0 where
  pub key : ℕ → ℕ
  pub masks : Bool
  pub opcode : ℕ
  pub payload : Bytes

abbrev pub wire : Sent → Bytes
wire s = encode_ws_frame s.key s.opcode s.payload s.masks

abbrev pub wires : List Sent → Bytes
wires [] = []
wires (s ∷ rest) = wire s ++ wires rest

abbrev pub IsSmall : Sent → Type 0
IsSmall s = length s.payload ≤ max_payload

-- A ping or a pong.
abbrev pub IsControl : Sent → Type 0
IsControl s = ((s.opcode ≡ 0x9) ⊎ (s.opcode ≡ 0xa)) × IsSmall s

abbrev pub IsMessage : Sent → Type 0
IsMessage s = (s.opcode < 16) × (s.opcode ≢ 0x9) × (s.opcode ≢ 0xa) × IsSmall s

module _ (rng : ℕ → ℕ → ℕ) where
  -- What a round makes of the frame that it took: it ends with a message, or goes on.
  loop-message :
      (fuel : ℕ) (t t' : Transport) (pongs : List Bytes) (frame : WsFrame)
      → next_frame t ≡ got frame t'
      → frame.opcode ≢ 0x9
      → frame.opcode ≢ 0xa
      → read_loop rng (suc fuel) t pongs ≡ result (message frame) t' pongs
  unfolding read_loop
  loop-message fuel t t' pongs frame e h h' =
      let not_ping : (frame.opcode == 0x9) ≡ false = ground arith in
      let not_pong : (frame.opcode == 0xa) ≡ false = ground arith in
      rw (e, read_loop) (rw (not_ping, not_pong))

  loop_ping :
      (fuel : ℕ) (t t' : Transport) (pongs : List Bytes) (payload : Bytes)
      → next_frame t ≡ got (text_or_binary 0x9 payload) t'
      → read_loop rng (suc fuel) t pongs ≡ read_loop rng fuel t' (pong rng payload pongs)
  unfolding read_loop
  loop_ping fuel t t' pongs payload e = rw (e, read_loop)

  loop_pong :
      (fuel : ℕ) (t t' : Transport) (pongs : List Bytes) (payload : Bytes)
      → next_frame t ≡ got (text_or_binary 0xa payload) t'
      → read_loop rng (suc fuel) t pongs ≡ read_loop rng fuel t' pongs
  unfolding read_loop
  loop_pong fuel t t' pongs payload e = rw (e, read_loop)

  -- The pongs that answer the pings among some control frames.
  abbrev pub answers : List Bytes → List Sent → List Bytes
  answers pongs [] = pongs
  answers pongs (s ∷ rest) =
      if s.opcode == 0x9 then answers (pong rng s.payload pongs) rest else answers pongs rest

  -- Read skips any number of control frames, answers each ping with a pong of the same payload in
  -- order, and returns the message behind them; the bytes that follow stay for the next Read. This
  -- holds however the stream is cut into segments and whether the peer masks or not.
  pub read_loop-wires :
      (controls : List Sent) (s : Sent) (fuel : ℕ) (back : Bytes) (t : Transport)
      (pongs : List Bytes)
      → All IsControl controls
      → IsMessage s
      → length controls < fuel
      → Brings t (wires controls ++ (wire s ++ back))
      → (t' : Transport) × (read_loop rng fuel t pongs
          ≡ result (message (text_or_binary s.opcode s.payload)) t' (answers pongs controls))
        × Brings t' back
  read_loop-wires controls s zero back t pongs cs m f b = absurd (omega arith)
  read_loop-wires [] s (suc fuel) back t pongs cs (o, not_ping, not_pong, small) f b =
      let (t', e, b') = next_frame-got s.key s.opcode s.payload o small s.masks back t b in
      (t', loop-message fuel t t' pongs (text_or_binary s.opcode s.payload) e not_ping not_pong, b')
  read_loop-wires (c ∷ controls) s (suc fuel) back t pongs ((inl p, small), cs) m f b =
      let behind : Bytes = wires controls ++ (wire s ++ back) in
      let (t', e, b') =
        next_frame-got c.key c.opcode c.payload (omega arith) small c.masks behind t
          (rw append_assoc at b) in
      let (t'', e', b'') =
        read_loop-wires controls s fuel back t' (pong rng c.payload pongs) cs m (omega arith) b' in
      let is_ping : (c.opcode == 0x9) ≡ true = ground arith in
      (
        t'',
        loop_ping fuel t t' pongs c.payload
              (subst (λ o. next_frame t ≡ got (text_or_binary o c.payload) t') p e)
            ∙ rw is_ping e',
        b'',
      )
  read_loop-wires (c ∷ controls) s (suc fuel) back t pongs ((inr p, small), cs) m f b =
      let behind : Bytes = wires controls ++ (wire s ++ back) in
      let (t', e, b') =
        next_frame-got c.key c.opcode c.payload (omega arith) small c.masks behind t
          (rw append_assoc at b) in
      let (t'', e', b'') = read_loop-wires controls s fuel back t' pongs cs m (omega arith) b' in
      let is_pong : (c.opcode == 0x9) ≡ false = ground arith in
      (
        t'',
        loop_pong fuel t t' pongs c.payload
              (subst (λ o. next_frame t ≡ got (text_or_binary o c.payload) t') p e)
            ∙ rw is_pong e',
        b'',
      )
