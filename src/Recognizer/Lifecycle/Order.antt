-- ===== src/Recognizer/Lifecycle/Order.antt =====
-- No audio behind the end signal, in every interleaving of threads (src/speech_recognizer.cc).
use trtc_asr_sdk_cpp.Common.{
  ℕ, ◌≡◌, ◌≢◌, ◌≤◌, refl, subst, arith, ◌⊎◌, inl, inr, Bool-cases, List, [], ◌∷◌, ◌++◌, Bytes, All,
  All-append,
}
use trtc_asr_sdk_cpp.Recognizer.{
  RecognizerSharedState, finish, state_running, state_stopping, state_stopped,
}
use trtc_asr_sdk_cpp.Recognizer.Lifecycle.{
  Outgoing, audio, end_signal, Holder, nobody, writer, stopper, StopPhase, not_called, called,
  sending, sent, Client, Step, start_begins, start_fails, start_ends, connection_opens,
  audio_begins, audio_ends, stop_begins, end_begins, end_ends, stop_ends, session_finishes,
  connection_closes, reader_signals, Reachable, at_first, then_step,
}

abbrev pub IsAudio : Outgoing → Type 0
IsAudio (audio bs) = Unit
IsAudio end_signal = ⊥

-- Some audio frames, then the end signal once, or nothing.
abbrev pub IsStream : List Outgoing → Type 0
IsStream frames =
    All IsAudio frames
    ⊎ ((before : List Outgoing) × All IsAudio before × (frames ≡ before ++ (end_signal ∷ [])))

-- What holds in each phase of Stop.
abbrev InPhase : StopPhase → Holder → ℕ → List Outgoing → Type 0
InPhase not_called holder state frames = All IsAudio frames × (holder ≢ stopper)
InPhase called holder state frames =
    All IsAudio frames × (state_stopping ≤ state) × (holder ≢ stopper)
InPhase sending holder state frames =
    All IsAudio frames × (state_stopping ≤ state) × (holder ≡ stopper)
InPhase sent holder state frames =
    ((before : List Outgoing) × All IsAudio before × (frames ≡ before ++ (end_signal ∷ [])))
    × (state_stopping ≤ state)
    × (holder ≡ nobody)

abbrev Invariant : Client → Type 0
Invariant c = InPhase c.phase c.holder c.shared.state c.frames

-- A change of the state that keeps it at stopping or above.
InPhase-state :
    (phase : StopPhase) (holder : Holder) (s s' : ℕ) (frames : List Outgoing)
    → (state_stopping ≤ s → state_stopping ≤ s')
    → InPhase phase holder s frames
    → InPhase phase holder s' frames
InPhase-state not_called holder s s' frames up i = i
InPhase-state called holder s s' frames up (a, l, h) = (a, up l, h)
InPhase-state sending holder s s' frames up (a, l, h) = (a, up l, h)
InPhase-state sent holder s s' frames up (a, l, h) = (a, up l, h)

finish-rises :
    (s : RecognizerSharedState) → state_stopping ≤ s.state → state_stopping ≤ (finish s).state
finish-rises s h = elim (Bool-cases s.finished) [
  | inl done ↦ rw done h
  | inr fresh ↦ rw fresh (omega arith)
]

audio_added :
    (frames : List Outgoing) (bs : Bytes)
    → All IsAudio frames
    → All IsAudio (frames ++ (audio bs ∷ []))
audio_added frames bs h = All-append IsAudio frames (audio bs ∷ []) h (tt, tt)

InPhase-writer :
    (phase : StopPhase) (bs : Bytes) (holder : Holder) (s : ℕ) (frames : List Outgoing)
    → holder ≡ nobody
    → s ≡ state_running
    → InPhase phase holder s frames
    → InPhase phase (writer bs) s frames
InPhase-writer not_called bs holder s frames e r (a, h) = (a, λ p. cc)
InPhase-writer called bs holder s frames e r (a, l, h) = absurd (omega (arith, r, l))
InPhase-writer sending bs holder s frames e r (a, l, h) = absurd (omega (arith, r, l))
InPhase-writer sent bs holder s frames e r (a, l, h) = absurd (omega (arith, r, l))

InPhase-audio :
    (phase : StopPhase) (bs : Bytes) (holder : Holder) (s : ℕ) (frames : List Outgoing)
    → holder ≡ writer bs
    → InPhase phase holder s frames
    → InPhase phase nobody s (frames ++ (audio bs ∷ []))
InPhase-audio not_called bs holder s frames e (a, h) = (audio_added frames bs a, λ p. cc)
InPhase-audio called bs holder s frames e (a, l, h) = (audio_added frames bs a, l, λ p. cc)
InPhase-audio sending bs holder s frames e (a, l, h) = cc
InPhase-audio sent bs holder s frames e (a, l, h) = cc

InPhase-stop :
    (phase : StopPhase) (holder : Holder) (s : ℕ) (frames : List Outgoing)
    → s ≡ state_running
    → InPhase phase holder s frames
    → InPhase called holder state_stopping frames
InPhase-stop not_called holder s frames r (a, h) = (a, omega arith, h)
InPhase-stop called holder s frames r (a, l, h) = absurd (omega (arith, r, l))
InPhase-stop sending holder s frames r (a, l, h) = absurd (omega (arith, r, l))
InPhase-stop sent holder s frames r (a, l, h) = absurd (omega (arith, r, l))

InPhase-lock :
    (phase : StopPhase) (holder : Holder) (s : ℕ) (frames : List Outgoing)
    → phase ≡ called
    → InPhase phase holder s frames
    → InPhase sending stopper s frames
InPhase-lock phase holder s frames e i =
    let (a, l, h) = subst (λ q. InPhase q holder s frames) e i in (a, l, refl)

InPhase-end :
    (phase : StopPhase) (holder : Holder) (s : ℕ) (frames : List Outgoing)
    → phase ≡ sending
    → InPhase phase holder s frames
    → InPhase sent nobody s (frames ++ (end_signal ∷ []))
InPhase-end phase holder s frames e i =
    let (a, l, h) = subst (λ q. InPhase q holder s frames) e i in ((frames, a, refl), l, refl)

Step-Invariant : (c c' : Client) → Step c c' → Invariant c → Invariant c'
Step-Invariant _ _ (start_begins c e) i =
    InPhase-state c.phase c.holder c.shared.state _ c.frames (λ h. absurd (omega (arith, e, h))) i
Step-Invariant _ _ (start_fails c e) i =
    InPhase-state c.phase c.holder c.shared.state _ c.frames (λ h. absurd (omega (arith, e, h))) i
Step-Invariant _ _ (start_ends c e) i =
    InPhase-state c.phase c.holder c.shared.state _ c.frames (λ h. absurd (omega (arith, e, h))) i
Step-Invariant _ _ (connection_opens c e) i = i
Step-Invariant _ _ (audio_begins c bs e w) i =
    InPhase-writer c.phase bs c.holder c.shared.state c.frames e (ground (arith, w)) i
Step-Invariant _ _ (audio_ends c bs e) i =
    InPhase-audio c.phase bs c.holder c.shared.state c.frames e i
Step-Invariant _ _ (stop_begins c e) i = InPhase-stop c.phase c.holder c.shared.state c.frames e i
Step-Invariant _ _ (end_begins c p e n) i =
    InPhase-lock c.phase c.holder c.shared.state c.frames p i
Step-Invariant _ _ (end_ends c p e) i = InPhase-end c.phase c.holder c.shared.state c.frames p i
Step-Invariant _ _ (stop_ends c p) i =
    InPhase-state c.phase c.holder c.shared.state state_stopped c.frames (λ h. omega arith) i
Step-Invariant _ _ (session_finishes c l) i =
    InPhase-state c.phase c.holder c.shared.state (finish c.shared).state c.frames
      (finish-rises c.shared) i
Step-Invariant _ _ (connection_closes c) i = i
Step-Invariant _ _ (reader_signals c) i = i

Reachable-Invariant : (c : Client) → Reachable c → Invariant c
Reachable-Invariant _ at_first = (tt, λ p. cc)
Reachable-Invariant _ (then_step c c' r s) = Step-Invariant c c' s (Reachable-Invariant c r)

InPhase-IsStream :
    (phase : StopPhase) (holder : Holder) (s : ℕ) (frames : List Outgoing)
    → InPhase phase holder s frames
    → IsStream frames
InPhase-IsStream not_called holder s frames i = inl i.0
InPhase-IsStream called holder s frames i = inl i.0
InPhase-IsStream sending holder s frames i = inl i.0
InPhase-IsStream sent holder s frames i = inr i.0

-- Whatever the threads that call Start, Write and Stop do, and whenever the session ends, the frames
-- written are audio frames with at most one end signal, behind all of them.
pub Reachable-IsStream : (c : Client) → Reachable c → IsStream c.frames
Reachable-IsStream c r =
    InPhase-IsStream c.phase c.holder c.shared.state c.frames (Reachable-Invariant c r)
