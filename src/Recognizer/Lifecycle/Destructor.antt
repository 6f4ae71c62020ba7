-- ===== src/Recognizer/Lifecycle/Destructor.antt =====
-- The destructor of the recognizer (src/speech_recognizer.cc).
use trtc_asr_sdk_cpp.Common.{
  ℕ, arith, ◌≡◌, refl, inl, inr, ◌≤◌, Bool, true, false, Bool-cases, Option, none, some, [], ◌∷◌,
  ◌++◌, Bytes, leb, ◌==◌,
}
use trtc_asr_sdk_cpp.Recognizer.{
  RecognizerSharedState, finish, state_starting, state_running, state_stopping, state_stopped,
}
use trtc_asr_sdk_cpp.Recognizer.Lifecycle.{
  end_signal, nobody, Client, reader_ends, join, start_begins, start_fails, start_ends,
  connection_opens, audio_begins, audio_ends, stop_begins, end_begins, end_ends, stop_ends,
  session_finishes, connection_closes, reader_signals, Step, Reachable, at_first, then_step, stop,
  stop_begun, stop_sent, joined, destroy,
}
use trtc_asr_sdk_cpp.Recognizer.Lifecycle.Calls.{stop-Reachable}

abbrev pub IsOver : RecognizerSharedState → Type 0
IsOver s = (s.state ≡ state_stopped) × (s.conn ≡ false)

abbrev StaysOver : RecognizerSharedState → Type 0
StaysOver s = s.finished ≡ true → IsOver s

finish-IsOver : (s : RecognizerSharedState) → StaysOver s → IsOver (finish s)
finish-IsOver s h = elim (Bool-cases s.finished) [ inl e ↦ rw e (h e) | inr e ↦ rw e (refl, refl) ]

Step-StaysOver : (c c' : Client) → Step c c' → StaysOver c.shared → StaysOver c'.shared
Step-StaysOver _ _ (start_begins c e) h f = absurd (let (s, n) = h f in omega (arith, s, e))
Step-StaysOver _ _ (start_fails c e) h f = absurd (let (s, n) = h f in omega (arith, s, e))
Step-StaysOver _ _ (start_ends c e) h f = absurd (let (s, n) = h f in omega (arith, s, e))
Step-StaysOver _ _ (connection_opens c e) h f = absurd (let (s, n) = h f in omega (arith, s, e))
Step-StaysOver _ _ (audio_begins c bs e w) h f = h f
Step-StaysOver _ _ (audio_ends c bs e) h f = h f
Step-StaysOver _ _ (stop_begins c e) h f = absurd (let (s, n) = h f in omega (arith, s, e))
Step-StaysOver _ _ (end_begins c p e n) h f = h f
Step-StaysOver _ _ (end_ends c p e) h f = h f
Step-StaysOver _ _ (stop_ends c p) h f = let (s, n) = h f in (refl, n)
Step-StaysOver _ _ (session_finishes c l) h f = finish-IsOver c.shared h
Step-StaysOver _ _ (connection_closes c) h f = let (s, n) = h f in (s, refl)
Step-StaysOver _ _ (reader_signals c) h f = h f

Reachable-StaysOver : (c : Client) → Reachable c → StaysOver c.shared
Reachable-StaysOver _ at_first f = cc
Reachable-StaysOver _ (then_step c c' r s) f = Step-StaysOver c c' s (Reachable-StaysOver c r) f

abbrev IsState : ℕ → Type 0
IsState n = n ≤ state_stopped

finish-IsState : (s : RecognizerSharedState) → IsState s.state → IsState (finish s).state
finish-IsState s h = elim (Bool-cases s.finished) [ inl e ↦ rw e h | inr e ↦ rw e (omega arith) ]

Step-IsState : (c c' : Client) → Step c c' → IsState c.shared.state → IsState c'.shared.state
Step-IsState _ _ (start_begins c e) h = omega arith
Step-IsState _ _ (start_fails c e) h = omega arith
Step-IsState _ _ (start_ends c e) h = omega arith
Step-IsState _ _ (connection_opens c e) h = h
Step-IsState _ _ (audio_begins c bs e w) h = h
Step-IsState _ _ (audio_ends c bs e) h = h
Step-IsState _ _ (stop_begins c e) h = omega arith
Step-IsState _ _ (end_begins c p e n) h = h
Step-IsState _ _ (end_ends c p e) h = h
Step-IsState _ _ (stop_ends c p) h = omega arith
Step-IsState _ _ (session_finishes c l) h = finish-IsState c.shared h
Step-IsState _ _ (connection_closes c) h = h
Step-IsState _ _ (reader_signals c) h = h

Reachable-IsState : (c : Client) → Reachable c → IsState c.shared.state
Reachable-IsState _ at_first = omega arith
Reachable-IsState _ (then_step c c' r s) = Step-IsState c c' s (Reachable-IsState c r)

Reachable-stopped :
    (c : Client)
    → Reachable c
    → (c.shared.state == state_running) ≡ false
    → leb state_running c.shared.state ≡ true
    → (c.shared.state == state_stopping) ≡ false
    → c.shared.state ≡ state_stopped
Reachable-stopped c r other started not_stopping =
    ground (arith, Reachable-IsState c r, other, started, not_stopping)

-- A Stop of a running client leaves it stopped.
stop-state :
    (failure : Option Bytes) (in_time : Bool) (c : Client)
    → (c.shared.state == state_running) ≡ true
    → (stop failure false in_time c).client.shared.state ≡ state_stopped
unfolding stop stop_begun stop_sent
stop-state none in_time c running = elim (Bool-cases c.shared.conn) [
  | inr missing ↦ rw (running, missing, stop) refl
  | inl there ↦ rw (running, there, stop) refl
]
stop-state (some text) in_time c running = elim (Bool-cases c.shared.conn) [
  | inr missing ↦ rw (running, missing, stop) refl
  | inl there ↦ rw (running, there, stop) refl
]

joined-Reachable :
    (c : Client)
    → Reachable c
    → state_running ≤ c.shared.state
    → Reachable (joined c) × IsOver (joined c).shared
joined-Reachable c r l =
    let finished = record c { shared = finish c.shared } in
    (
      then_step finished (joined c) (then_step c finished r (session_finishes c l))
          (reader_signals finished),
      finish-IsOver c.shared (Reachable-StaysOver c r),
    )

-- A Stop of a running client with a connection sends the end signal, whether the sending fails or not.
stop-frames :
    (failure : Option Bytes) (in_time : Bool) (c : Client)
    → (c.shared.state == state_running) ≡ true
    → c.shared.conn ≡ true
    → (stop failure false in_time c).client.frames ≡ c.frames ++ (end_signal ∷ [])
unfolding stop stop_begun stop_sent
stop-frames none true c running there = rw (running, there, stop) refl
stop-frames none false c running there = rw (running, there, stop) refl
stop-frames (some text) in_time c running there = rw (running, there, stop) refl

-- The destructor has come to its end: the client is reachable, over when Start had ended, with the end
-- signal as the last frame of a session that was running, and else the client that it was.
abbrev pub IsDestroyed : Client → Option Client → Type 0
IsDestroyed c after =
    (c' : Client) × (after ≡ some c')
    × Reachable c'
    × (state_running ≤ c.shared.state → IsOver c'.shared × (c'.shared.done ≡ true))
    × (c.shared.state ≡ state_running
        → c.shared.conn ≡ true
        → c'.frames ≡ c.frames ++ (end_signal ∷ []))
    × (c.shared.state ≤ state_starting → c' ≡ c)

join-ends :
    (by_itself : Bool) (c : Client)
    → reader_ends by_itself c ≡ true
    → join by_itself c ≡ some (joined c)
join-ends by_itself c h = rw h refl

stopped-ends :
    (by_itself : Bool) (c : Client)
    → c.shared.state ≡ state_stopped
    → reader_ends by_itself c ≡ true
stopped-ends by_itself c h = ground (arith, h)

module _ (failure : Option Bytes) (in_time by_itself : Bool) (c : Client) (r : Reachable c)
    (free : c.holder ≡ nobody) where
  abbrev stopped : Client
  stopped = (stop failure false in_time c).client

  destroy-running :
      (c.shared.state == state_running) ≡ true → IsDestroyed c (destroy failure in_time by_itself c)
  unfolding destroy
  destroy-running running =
      let at_end = stop-state failure in_time c running in
      let l : state_running ≤ c.shared.state = ground (arith, running) in
      let (reached, over) =
        joined-Reachable stopped (stop-Reachable c r free failure false in_time)
          (omega (arith, at_end)) in
      (
        joined stopped,
        rw running (join-ends by_itself stopped (stopped-ends by_itself stopped at_end)),
        reached,
        λ l'. (over, refl),
        λ e there. stop-frames failure in_time c running there,
        λ early. absurd (omega (arith, l, early)),
      )

  destroy-started :
      (c.shared.state == state_running) ≡ false
      → leb state_running c.shared.state ≡ true
      → reader_ends by_itself c ≡ true
      → IsDestroyed c (destroy failure in_time by_itself c)
  unfolding destroy
  destroy-started other started ends =
      let l : state_running ≤ c.shared.state = ground (arith, started) in
      let (reached, over) = joined-Reachable c r l in
      (
        joined c,
        rw (other, started) (join-ends by_itself c ends),
        reached,
        λ l'. (over, refl),
        λ e there. absurd (ground (arith, other, e)),
        λ early. absurd (omega (arith, l, early)),
      )

  destroy-early :
      (c.shared.state == state_running) ≡ false
      → leb state_running c.shared.state ≡ false
      → IsDestroyed c (destroy failure in_time by_itself c)
  unfolding destroy
  destroy-early other early = (
    c,
    rw (other, early) refl,
    r,
    λ l. absurd (ground (arith, early, l)),
    λ e there. absurd (ground (arith, other, e)),
    λ l. refl,
  )

-- The destructor comes to its end.
pub destroy-IsDestroyed :
    (failure : Option Bytes) (in_time by_itself : Bool) (c : Client)
    → Reachable c
    → c.holder ≡ nobody
    → (c.shared.state ≡ state_stopping → reader_ends by_itself c ≡ true)
    → IsDestroyed c (destroy failure in_time by_itself c)
destroy-IsDestroyed failure in_time by_itself c r free under_way =
    elim (Bool-cases (c.shared.state == state_running)) [
      | inl running ↦ destroy-running failure in_time by_itself c r free running
      | inr other ↦ elim (Bool-cases (leb state_running c.shared.state)) [
        | inr early ↦ destroy-early failure in_time by_itself c r free other early
        | inl started ↦ elim (Bool-cases (c.shared.state == state_stopping)) [
          | inl stopping ↦
              destroy-started failure in_time by_itself c r free other started
                (under_way (ground (arith, stopping)))
          | inr not_stopping ↦
              destroy-started failure in_time by_itself c r free other started
                (stopped-ends by_itself c (Reachable-stopped c r other started not_stopping))
        ]
      ]
    ]
