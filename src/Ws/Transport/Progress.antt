-- ===== src/Ws/Transport/Progress.antt =====
-- A read never gives bytes back, and one that completes uses up what it was asked for
-- (src/ws_client.cc).
use trtc_asr_sdk_cpp.Common.{
  ℕ, zero, suc, ◌+◌, ◌-◌, ◌≤◌, ◌≡◌, ap, sym, subst, inl, inr, List, [], ◌∷◌, ◌++◌, Bytes, length,
  length-append, length-drop, take, drop, arith,
}
use trtc_asr_sdk_cpp.Ws.Transport.{
  Event, expired, idle, poll_error, closed, failed, retry, arrived, Transport, Status, complete,
  timed_out, error, Reading, read_socket, read_exact,
}
use trtc_asr_sdk_cpp.Ws.Transport.Chunks.{
  stream, segment_whole, segment_part, List-cases, stream-put_back,
}

-- The bytes that may still be read.
abbrev pub pending : Transport → ℕ
pending t = length t.read_buf + length (stream t.events)

abbrev pub asked : Status → ℕ → ℕ
asked complete n = n
asked timed_out n = 0
asked error n = 0

-- What a reading has used up.
abbrev pub Uses : ℕ → ℕ → Reading → Type 0
Uses available n r = asked r.status n + pending r.rest ≤ available

read_socket-Uses :
    (events : List Event) (n : ℕ) (out : Bytes)
    → Uses (length (stream events)) n (read_socket events n out)
unfolding read_socket
read_socket-Uses events zero out = omega arith
read_socket-Uses [] (suc n) out = omega arith
read_socket-Uses (retry ∷ events) (suc n) out = read_socket-Uses events (suc n) out
read_socket-Uses (expired ∷ events) (suc n) out = omega arith
read_socket-Uses (idle ∷ events) (suc n) out = omega arith
read_socket-Uses (poll_error ∷ events) (suc n) out = omega arith
read_socket-Uses (closed ∷ events) (suc n) out = omega arith
read_socket-Uses (failed ∷ events) (suc n) out = omega arith
read_socket-Uses (arrived b chunk ∷ events) (suc n) out = elim (List-cases (drop n chunk)) [
  | inl all ↦ subst (Uses _ (suc n)) (sym (segment_whole b chunk events n out all)) (
      more (read_socket events (n - length chunk) (out ++ (b ∷ chunk)))
        (read_socket-Uses events (n - length chunk) (out ++ (b ∷ chunk))))
  | inr (c, left, part) ↦
      subst (Uses _ (suc n)) (sym (segment_part b chunk events n out c left part)) (
        omega (
          arith,
          length-append chunk (stream events),
          length-append left (stream events),
          length-drop n chunk,
          ap length part,
          ap length (stream-put_back (c ∷ left) events),
        ))
]
  where
    more :
        (r : Reading)
        → Uses (length (stream events)) (n - length chunk) r
        → Uses (length (stream (arrived b chunk ∷ events))) (suc n) r
    more r h = ground (arith, length-append chunk (stream events))

short_buffer :
    (t : Transport) (n : ℕ)
    → drop n t.read_buf ≡ []
    → read_exact t n ≡ read_socket t.events (n - length t.read_buf) (take n t.read_buf)
unfolding read_exact
short_buffer t n h = rw (h, read_exact)

full_buffer :
    (t : Transport) (n b : ℕ) (left : Bytes)
    → drop n t.read_buf ≡ b ∷ left
    → read_exact t n ≡ record {
      status = complete;
      bytes = take n t.read_buf;
      rest = record t { read_buf = b ∷ left };
    }
unfolding read_exact
full_buffer t n b left h = rw (h, read_exact)

with_buffer :
    (t : Transport) (n : ℕ) (r : Reading)
    → Uses (length (stream t.events)) (n - length t.read_buf) r
    → Uses (pending t) n r
with_buffer t n r h = ground arith

-- A reading never leaves more bytes than there were, and one that completes has used up those that it gives.
pub read_exact-Uses : (t : Transport) (n : ℕ) → Uses (pending t) n (read_exact t n)
read_exact-Uses t n = elim (List-cases (drop n t.read_buf)) [
  | inl all ↦ subst (Uses (pending t) n) (sym (short_buffer t n all)) (
      with_buffer t n (read_socket t.events (n - length t.read_buf) (take n t.read_buf))
        (read_socket-Uses t.events (n - length t.read_buf) (take n t.read_buf)))
  | inr (b, left, part) ↦
      subst (Uses (pending t) n) (sym (full_buffer t n b left part))
        (omega (arith, length-drop n t.read_buf, ap length part))
]
