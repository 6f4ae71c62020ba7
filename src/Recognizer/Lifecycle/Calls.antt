-- ===== src/Recognizer/Lifecycle/Calls.antt =====
-- Start, Write and Stop as whole calls (src/speech_recognizer.cc).
use trtc_asr_sdk_cpp.Common.{
  ◌≡◌, ◌≢◌, refl, sym, ap, ◌∙◌, subst, arith, Bool, true, false, not, Option, none, some, [], ◌∷◌,
  ◌++◌, Bytes, ◌==◌, if-each, Result, ok,
}
use trtc_asr_sdk_cpp.Recognizer.{close, state_idle, state_running, state_stopped}
use trtc_asr_sdk_cpp.Recognizer.Lifecycle.{
  end_signal, nobody, not_called, called, Client, set_state, can_write, lock_for_audio, send_audio,
  begin_stop, lock_for_end, send_end, wait_for_read_loop_or_close, Call, returned, raised,
  not_running, already_started, Audio, start, write_entry, write_locked, write, stop_sent,
  stop_begun, stop, audio_begins, audio_ends, stop_begins, end_begins, end_ends, stop_ends,
  connection_closes, Reachable, then_step,
}

-- From `c`, the client behind the call is reached by steps.
abbrev pub Reaches : Call → Type 0
Reaches call = Reachable call.client

module _ (c : Client) (r : Reachable c) where
  wait-Reachable : (in_time : Bool) → Reachable (wait_for_read_loop_or_close in_time c)
  wait-Reachable true = r
  wait-Reachable false = then_step c _ r (connection_closes c)

  module _ (free : c.holder ≡ nobody) where
    audio_sent : (bs : Bytes) → can_write c ≡ true → Reachable (send_audio bs (lock_for_audio bs c))
    audio_sent bs running =
        let locked = lock_for_audio bs c in
        then_step locked (send_audio bs locked)
          (then_step c locked r (audio_begins c bs free running)) (audio_ends locked bs refl)

    pub locked-Reachable :
        (failure : Option Bytes) (bs : Bytes) → Reaches (write_locked failure bs c)
    unfolding write_locked
    locked-Reachable none bs = if-each Reaches (can_write c) _ _ (audio_sent bs) (λ other. r)
    locked-Reachable (some text) bs = if-each Reaches (can_write c) _ _ (audio_sent bs) (λ other. r)

-- Stop, from where its exchange of the state has succeeded.
module _ (c : Client) (r : Reachable c) where
  stopped-Reachable : c.phase ≢ not_called → Reachable (set_state state_stopped c)
  stopped-Reachable p = then_step c (set_state state_stopped c) r (stop_ends c p)

  wait_stopped-Reachable :
      (in_time : Bool)
      → c.phase ≢ not_called
      → Reachable (set_state state_stopped (wait_for_read_loop_or_close in_time c))
  wait_stopped-Reachable true p = stopped-Reachable p
  wait_stopped-Reachable false p =
      let closed = record c { shared = close c.shared } in
      then_step closed (set_state state_stopped closed) (then_step c closed r (connection_closes c))
        (stop_ends closed p)

  stop_sent-Reachable :
      (failure : Option Bytes) (in_callback in_time : Bool)
      → c.phase ≢ not_called
      → Reaches (stop_sent failure in_callback in_time c)
  unfolding stop_sent
  stop_sent-Reachable (some text) in_callback in_time p =
      if-each Reaches (c.shared.state == state_stopped) _ _ (λ e. wait-Reachable c r in_time)
        (λ e. wait_stopped-Reachable false p)
  stop_sent-Reachable none in_callback in_time p =
      if-each Reaches in_callback _ _ (λ e. wait-Reachable c r in_time)
        (λ e. wait_stopped-Reachable in_time p)

stop_begun-Reachable :
    (c : Client) (r : Reachable c) (failure : Option Bytes) (in_callback in_time : Bool)
    → c.phase ≡ called
    → c.holder ≡ nobody
    → Reaches (stop_begun failure in_callback in_time c)
unfolding stop_begun
stop_begun-Reachable c r failure in_callback in_time p free =
    let begun : c.phase ≢ not_called = λ e. cc (e, p) in
    let locked = lock_for_end c in
    if-each Reaches (not c.shared.conn) _ _ (λ e. stopped-Reachable c r begun)
      λ e.
        if-each Reaches (c.shared.state == state_stopped) _ _ (λ e. wait-Reachable c r in_time)
          λ open_state.
            stop_sent-Reachable (send_end locked)
              (then_step locked (send_end locked)
                (then_step c locked r (end_begins c p free (ground (arith, open_state))))
                (end_ends locked refl refl))
              failure in_callback in_time (λ e. cc)

pub stop-Reachable :
    (c : Client) (r : Reachable c) (free : c.holder ≡ nobody) (failure : Option Bytes)
    (in_callback in_time : Bool)
    → Reaches (stop failure in_callback in_time c)
unfolding stop
stop-Reachable c r free failure in_callback in_time =
    if-each Reaches (c.shared.state == state_running) _ _
      (λ running.
        stop_begun-Reachable (begin_stop c)
          (then_step c (begin_stop c) r (stop_begins c (ground (arith, running)))) failure
          in_callback in_time refl free)
      (λ other. r)

-- A client that has left the idle state for good refuses Start, and one that is not running refuses
-- audio and Stop; nothing changes, and nothing is sent.
refused :
    (c : Client)
    → c.shared.state ≡ state_stopped
    → (prepared : Result (Unit {0})) (failure : Option Bytes) (bs : Bytes)
      (in_callback in_time : Bool)
    → (start prepared c ≡ raised already_started c)
      × (write failure (Audio.bytes bs) c ≡ raised not_running c)
      × (stop failure in_callback in_time c ≡ raised not_running c)
unfolding start write stop write_entry
refused c e prepared failure bs in_callback in_time =
    let not_idle : (c.shared.state == state_idle) ≡ false = ground (arith, e) in
    let not_on : (c.shared.state == state_running) ≡ false = ground (arith, e) in
    (rw not_idle, rw (not_on, write), rw not_on)

abbrev after_stop : Bool → Client → Client
after_stop in_time c =
    set_state state_stopped
      (wait_for_read_loop_or_close in_time (send_end (lock_for_end (begin_stop c))))

wait-frames :
    (in_time : Bool) (c : Client) → (wait_for_read_loop_or_close in_time c).frames ≡ c.frames
wait-frames true c = refl
wait-frames false c = refl

stop-result :
    (c : Client) (in_time : Bool)
    → c.shared.state ≡ state_running
    → c.shared.conn ≡ true
    → stop none false in_time c ≡ returned (after_stop in_time c)
unfolding stop stop_begun stop_sent
stop-result c in_time e conn =
    let running : (c.shared.state == state_running) ≡ true = ground (arith, e) in
    rw running (rw conn)

-- A Stop of a running session outside the callbacks, whose end signal is sent, returns in the stopped
-- state with the end signal as the last frame; from then on Start, Write and Stop all throw.
pub stop-is_final :
    (c : Client) (in_time : Bool) (prepared : Result (Unit {0})) (failure : Option Bytes)
    (bs : Bytes) (in_callback in_time' : Bool)
    → c.shared.state ≡ state_running
    → c.shared.conn ≡ true
    → let after = stop none false in_time c in
      (after.outcome ≡ ok tt)
      × (after.client.shared.state ≡ state_stopped)
      × (after.client.frames ≡ c.frames ++ (end_signal ∷ []))
      × ((start prepared after.client ≡ raised already_started after.client)
          × (write failure (Audio.bytes bs) after.client ≡ raised not_running after.client)
          × (stop failure in_callback in_time' after.client ≡ raised not_running after.client))
unfolding stop stop_begun stop_sent
stop-is_final c in_time prepared failure bs in_callback in_time' e conn =
    let result = stop-result c in_time e conn in
    let c' = after_stop in_time c in
    let frames = wait-frames in_time (send_end (lock_for_end (begin_stop c))) in
    (
      ap (λ (call : Call). call.outcome) result,
      ap (λ (call : Call). call.client.shared.state) result,
      ap (λ (call : Call). call.client.frames) result ∙ frames,
      subst
          (λ (call : Call).
            (start prepared call.client ≡ raised already_started call.client)
            × (write failure (Audio.bytes bs) call.client ≡ raised not_running call.client)
            × (stop failure in_callback in_time' call.client ≡ raised not_running call.client))
          (sym result) (refused c' refl prepared failure bs in_callback in_time'),
    )
