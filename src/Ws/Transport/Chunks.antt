-- ===== src/Ws/Transport/Chunks.antt =====
-- However the bytes of a stream are cut into segments, ReadExact reads the same ones (src/ws_client.cc).
use trtc_asr_sdk_cpp.Common.{
  ℕ, zero, suc, ◌-◌, ◌≤◌, ◌≡◌, refl, sym, ap, ◌∙◌, ◌⊎◌, inl, inr, List, [], ◌∷◌, ◌++◌, append-nil,
  append_assoc, Bytes, length, length-append, length-drop, take, drop, take-append_lem,
  drop-append_lem, take_all, take-append, take-nil, drop-nil, drop-append, arith,
}
use trtc_asr_sdk_cpp.Ws.Transport.{
  Event, expired, idle, poll_error, closed, failed, retry, arrived, Transport, complete, reading,
  put_back, read_socket, read_exact,
}
use native.Mathlib.Nat.{sub-zero}

-- The bytes that a run of events brings.
abbrev pub stream : List Event → Bytes
stream [] = []
stream (arrived b chunk ∷ events) = b ∷ (chunk ++ stream events)
stream (_ ∷ events) = stream events

-- Bytes and interrupted calls only: nobody closes, fails or lets the deadline pass.
abbrev pub IsLive : List Event → Type 0
IsLive [] = Unit {0}
IsLive (arrived b chunk ∷ events) = IsLive events
IsLive (retry ∷ events) = IsLive events
IsLive (_ ∷ events) = ⊥

put_back-IsLive :
    (left : Bytes) (events : List Event) → IsLive events → IsLive (put_back left events)
unfolding put_back
put_back-IsLive [] events h = h
put_back-IsLive (b ∷ left) events h = h

pub stream-put_back :
    (left : Bytes) (events : List Event) → stream (put_back left events) ≡ left ++ stream events
unfolding put_back
stream-put_back [] events = refl
stream-put_back (b ∷ left) events = refl

pub List-cases : (xs : Bytes) → (xs ≡ []) ⊎ ((x : ℕ) × (ys : Bytes) × (xs ≡ x ∷ ys))
List-cases [] = inl refl
List-cases (x ∷ xs) = inr (x, xs, refl)

-- A segment that is read whole, and one that is read in part.
pub segment_whole :
    (b : ℕ) (chunk : Bytes) (events : List Event) (n : ℕ) (out : Bytes)
    → drop n chunk ≡ []
    → read_socket (arrived b chunk ∷ events) (suc n) out
      ≡ read_socket events (n - length chunk) (out ++ (b ∷ chunk))
unfolding read_socket
segment_whole b chunk events n out h = rw (h, read_socket)

pub segment_part :
    (b : ℕ) (chunk : Bytes) (events : List Event) (n : ℕ) (out : Bytes) (c : ℕ) (left : Bytes)
    → drop n chunk ≡ c ∷ left
    → read_socket (arrived b chunk ∷ events) (suc n) out
      ≡ reading complete (out ++ (b ∷ take n chunk)) (put_back (c ∷ left) events)
unfolding read_socket
segment_part b chunk events n out c left h = rw (h, read_socket)

take-segment :
    (b n : ℕ) (chunk s : Bytes)
    → drop n chunk ≡ []
    → b ∷ take n (chunk ++ s) ≡ (b ∷ chunk) ++ take (n - length chunk) s
take-segment b n chunk s h =
    ap (◌∷◌ b)
      (take-append_lem n chunk s ∙ ap (λ t. t ++ take (n - length chunk) s) (take_all n chunk h))

-- `n` bytes of the stream come in behind `out`, and the rest of the stream stays.
abbrev pub Gives : List Event → ℕ → Bytes → Type 0
Gives events n out =
    (rest : List Event) × (read_socket events n out
      ≡ reading complete (out ++ take n (stream events)) rest)
    × (stream rest ≡ drop n (stream events))
    × IsLive rest

pub read_socket-Gives :
    (events : List Event) (n : ℕ) (out : Bytes)
    → IsLive events
    → n ≤ length (stream events)
    → Gives events n out
unfolding read_socket
read_socket-Gives events zero out h k = (events, rw append-nil, refl, h)
read_socket-Gives [] (suc n) out h k = absurd (omega arith)
read_socket-Gives (retry ∷ events) (suc n) out h k = read_socket-Gives events (suc n) out h k
read_socket-Gives (expired ∷ events) (suc n) out h k = absurd h
read_socket-Gives (idle ∷ events) (suc n) out h k = absurd h
read_socket-Gives (poll_error ∷ events) (suc n) out h k = absurd h
read_socket-Gives (closed ∷ events) (suc n) out h k = absurd h
read_socket-Gives (failed ∷ events) (suc n) out h k = absurd h
read_socket-Gives (arrived b chunk ∷ events) (suc n) out h k = elim (List-cases (drop n chunk)) [
  | inl all ↦
      let (rest, e, s, live) =
        read_socket-Gives events (n - length chunk) (out ++ (b ∷ chunk)) h
          (omega (arith, length-append chunk (stream events))) in
      (
        rest,
        segment_whole b chunk events n out all
            ∙ e
            ∙ ap (λ o. reading complete o rest)
                (append_assoc out (b ∷ chunk) _
                  ∙ ap (◌++◌ out) (sym (take-segment b n chunk (stream events) all))),
        s ∙ sym (drop-append_lem n chunk (stream events) ∙ rw all refl),
        live,
      )
  | inr (c, left, part) ↦
      let over : n - length chunk ≡ 0 = omega (arith, length-drop n chunk, ap length part) in
      (
        put_back (c ∷ left) events,
        segment_part b chunk events n out c left part
            ∙ ap (λ o. reading complete (out ++ (b ∷ o)) (put_back (c ∷ left) events))
                (sym
                  (take-append_lem n chunk (stream events) ∙ rw over (append-nil (take n chunk)))),
        stream-put_back (c ∷ left) events
            ∙ sym (drop-append_lem n chunk (stream events) ∙ rw (over, part)),
        put_back-IsLive (c ∷ left) events h,
      )
]

-- A live transport whose buffer is empty and whose events bring exactly `bytes`.
pub record Brings (t : Transport) (bytes : Bytes) : Type 0 where
  pub no_leftovers : t.read_buf ≡ []
  pub brings : stream t.events ≡ bytes
  pub live : IsLive t.events

read_exact_fresh :
    (t : Transport) (n : ℕ) → t.read_buf ≡ [] → read_exact t n ≡ read_socket t.events n []
unfolding read_exact
read_exact_fresh t n h =
    rw (h, drop-nil n, read_exact)
      (rw (h, take-nil n) (ap (λ k. read_socket t.events k []) (sub-zero n)))

-- ReadExact takes `front` off such a transport, whatever the segments are.
pub read_exact-Brings :
    (front back : Bytes) (t : Transport)
    → Brings t (front ++ back)
    → (t' : Transport) × (read_exact t (length front)
        ≡ record { status = complete; bytes = front; rest = t' })
      × Brings t' back
unfolding read_exact
read_exact-Brings front back t b =
    let n = length front in
    let (rest, e, s, live) =
      read_socket-Gives t.events n [] b.live
        (rw b.brings (omega (arith, length-append front back))) in
    (
      record { read_buf = []; events = rest },
      read_exact_fresh t n b.no_leftovers
          ∙ e
          ∙ ap (λ o. reading complete o rest) (rw b.brings (take-append n front back refl)),
      record {
        no_leftovers = refl;
        brings = s ∙ rw b.brings (drop-append n front back refl);
        live = live;
      },
    )
