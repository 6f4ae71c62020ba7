-- ===== src/V3/Handshake/Waiting.antt =====
-- The end of the wait for the acknowledgement (src/v3.cc).
use trtc_asr_sdk_cpp.Common.{
  ℕ, zero, suc, ◌≤◌, ◌≡◌, ◌≢◌, ◌⊎◌, refl, subst, arith, inl, inr, true, false, Option, none, some,
  Option-cases, leb, ◌==◌,
}
use trtc_asr_sdk_cpp.Loops.{Runs, loop_ends}
use trtc_asr_sdk_cpp.Json.{JsonLibrary}
use trtc_asr_sdk_cpp.Recognizer.Reader.{Received, no_frame, read_failed, a_frame}
use trtc_asr_sdk_cpp.V3.Handshake.{Ack, ack_round, next_round, ack_from}

module _ (J : JsonLibrary) (deadline : ℕ) (received : ℕ → Received) (clock : ℕ → ℕ) where
  abbrev pub round_at : ℕ → Option Ack
  round_at n = ack_round J deadline (clock n) (received n)

  abbrev pub Waits : ℕ → Type 0
  Waits n = round_at n ≡ none

  ack_round-cases :
      (n : ℕ) (rest : Option Ack)
      → (Waits n × (next_round J (round_at n) rest ≡ rest))
        ⊎ ((a : Ack) × (round_at n ≡ some a) × (next_round J (round_at n) rest ≡ some a))
  unfolding next_round
  ack_round-cases n rest = elim (Option-cases (round_at n)) [
    | inl goes ↦ inl (goes, rw goes refl)
    | inr (a, ends) ↦ inr (a, ends, rw ends refl)
  ]

  ack_from-ends :
      (last : ℕ)
      → round_at last ≢ none
      → (m : ℕ) × (a : Ack) × (m ≤ last)
        × Runs Waits 0 m
        × (round_at m ≡ some a)
        × (ack_from J deadline received clock (suc last) 0 ≡ some a)
  unfolding ack_from
  ack_from-ends last over =
      loop_ends Waits (λ n a. round_at n ≡ some a) (λ n rest. next_round J (round_at n) rest)
        (ack_from J deadline received clock) ack_round-cases (λ fuel n. refl) last 0 last
        (omega arith) over

  ack_from-waits :
      (fuel n : ℕ)
      → ((k : ℕ) → round_at k ≡ none)
      → ack_from J deadline received clock fuel n ≡ none
  unfolding ack_from next_round
  ack_from-waits zero n quiet = refl
  ack_from-waits (suc fuel) n quiet = rw (quiet n) (ack_from-waits fuel (suc n) quiet)

-- The wait for the acknowledgement ends at the first poll without a frame after the deadline, if not
-- before: in a round m up to that one, with what that round comes to, and the rounds in front of it
-- went on.
pub ack_from-ends_by :
    (J : JsonLibrary) (deadline last : ℕ) (received : ℕ → Received) (clock : ℕ → ℕ)
    → received last ≡ no_frame
    → deadline ≤ clock last
    → (m : ℕ) × (a : Ack) × (m ≤ last)
      × Runs (Waits J deadline received clock) 0 m
      × (round_at J deadline received clock m ≡ some a)
      × (ack_from J deadline received clock (suc last) 0 ≡ some a)
unfolding ack_round
ack_from-ends_by J deadline last received clock idle late =
    let due : leb deadline (clock last) ≡ true = ground (arith, late) in
    ack_from-ends J deadline received clock last
      (λ h. cc (rw due at (subst (λ r. ack_round J deadline (clock last) r ≡ none) idle h)))

-- A frame that is neither a text nor a close.
abbrev pub IsOther : Received → Type 0
IsOther no_frame = ⊥
IsOther (read_failed text) = ⊥
IsOther (a_frame f) = (f.opcode ≢ 0x1) × (f.opcode ≢ 0x8)

other-goes_on :
    (J : JsonLibrary) (deadline time : ℕ) (r : Received)
    → IsOther r
    → ack_round J deadline time r ≡ none
unfolding ack_round
other-goes_on J deadline time no_frame h = absurd h
other-goes_on J deadline time (read_failed text) h = absurd h
other-goes_on J deadline time (a_frame f) (t, c) =
    let not_close : (f.opcode == 0x8) ≡ false = ground (arith, c) in
    let not_text : (f.opcode == 0x1) ≡ false = ground (arith, t) in rw (not_close, not_text) refl

-- The timeout of the acknowledgement is checked at a poll without a frame alone: while the server
-- sends frames that are neither text nor close, such as binary ones, the wait goes on, however late
-- it is.
pub ack_from-never_ends :
    (J : JsonLibrary) (deadline fuel : ℕ) (received : ℕ → Received) (clock : ℕ → ℕ)
    → ((n : ℕ) → IsOther (received n))
    → ack_from J deadline received clock fuel 0 ≡ none
ack_from-never_ends J deadline fuel received clock busy =
    ack_from-waits J deadline received clock fuel 0
      (λ k. other-goes_on J deadline (clock k) (received k) (busy k))
