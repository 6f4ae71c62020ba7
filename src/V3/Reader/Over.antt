-- ===== src/V3/Reader/Over.antt =====
-- The end of a session of the version 3 client (src/v3.cc).
use trtc_asr_sdk_cpp.Common.{◌≡◌, refl, sym, subst, true, false, not, if-both, Option, List, []}
use trtc_asr_sdk_cpp.Json.{JsonLibrary}
use trtc_asr_sdk_cpp.Response.{SpeakerContinue}
use trtc_asr_sdk_cpp.Recognizer.{IsFinishedOnce, state_stopped}
use trtc_asr_sdk_cpp.Recognizer.Reader.{
  Callback, on_recognition_start, Thrown, Reader, Received, Interference, Next, goes_on, returns,
  throws, call, ended, wind_up,
}
use trtc_asr_sdk_cpp.Recognizer.Reader as V2
use trtc_asr_sdk_cpp.Recognizer.Reader.Finishing.{
  IsOpen, IsSessionLog, IsGoing, Holds, Unreturned-Holds, IsGoing-Keeps, going-IsReturned, IsOverAt,
  wind_up-IsOverAt,
}
use trtc_asr_sdk_cpp.Recognizer.Reader.Session.{call-Unreturned, rounds-Holds}
use trtc_asr_sdk_cpp.V3.Reader.{rounds, start_response, after_start, read_loop_inner, read_loop}
use trtc_asr_sdk_cpp.V3.Reader.Same.{keep_next, rounds-same}

keep_next-Holds : (sc : Option SpeakerContinue) (n : Next) → Holds n → Holds (keep_next sc n)
keep_next-Holds sc (goes_on r) h = h
keep_next-Holds sc (returns r) h = h
keep_next-Holds sc (throws thrown r) h = h

module _ (J : JsonLibrary) (listener : Callback → Option Thrown) where
  after_start-Holds :
      (events : List (Interference × Received)) (n : Next)
      → Holds n
      → Holds (after_start J listener events n)
  unfolding after_start
  after_start-Holds events (goes_on r) g =
      if-both Holds (not r.shared.conn) (returns r) (rounds J listener events r)
        (going-IsReturned r g)
        (subst Holds (sym (rounds-same J listener events r)) (
          keep_next-Holds r.speaker_continue (V2.rounds J listener events r)
            (rounds-Holds J listener events r g)))
  after_start-Holds events (returns r) g = g
  after_start-Holds events (throws thrown r) g = g

  read_loop_inner-Holds :
      (events : List (Interference × Received)) (r : Reader)
      → IsGoing r
      → Holds (read_loop_inner J listener events r)
  unfolding read_loop_inner
  read_loop_inner-Holds events r g =
      let first = on_recognition_start (start_response J listener r.voice_id r.speaker_continue) in
      after_start-Holds events (call J listener first r) (
        Unreturned-Holds (call J listener first r)
          (call-Unreturned J listener IsGoing IsGoing-Keeps first r refl g))

  -- When ReadLoop of the version 3 client has ended, however the listener behaved and whatever Stop did
  -- meanwhile, the state is stopped, the connection is gone, waiters are released, and
  -- OnRecognitionComplete was called at most once: as the last callback, in the stopped state.
  pub v3_read_loop-IsOver :
      (events : List (Interference × Received)) (r r' : Reader)
      → IsFinishedOnce r.shared
      → r.log ≡ []
      → read_loop J listener events r ≡ ended r'
      → (r'.shared.state ≡ state_stopped)
        × (r'.shared.conn ≡ false)
        × (r'.shared.done ≡ true)
        × IsSessionLog r'.log
  unfolding read_loop
  v3_read_loop-IsOver events r r' f e h =
      let inner = read_loop_inner J listener events r in
      let open_log : IsOpen r.log = rw e tt in
      subst IsOverAt h (wind_up-IsOverAt inner (read_loop_inner-Holds events r (f, open_log)))
