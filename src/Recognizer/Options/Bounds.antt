-- ===== src/Recognizer/Options/Bounds.antt =====
-- Bounds of the timeouts, and the options that Start refuses before it dials (src/speech_recognizer.cc).
use trtc_asr_sdk_cpp.Common.{arith, ℤ, pos, negsuc, ◌≤ℤ◌}
use trtc_asr_sdk_cpp.Recognizer.Options.{Options, set_write_timeout, set_stop_timeout}

-- Whatever value is set, the write timeout stays within 50 ms and 30 s and the stop timeout within 1 s and
-- 60 s.
pub set_timeouts-bounds :
    (timeout : ℤ) (o : Options)
    → (pos 50 ≤ℤ (set_write_timeout timeout o).write_timeout)
      × ((set_write_timeout timeout o).write_timeout ≤ℤ pos 30000)
      × (pos 1000 ≤ℤ (set_stop_timeout timeout o).stop_timeout)
      × ((set_stop_timeout timeout o).stop_timeout ≤ℤ pos 60000)
unfolding set_write_timeout set_stop_timeout
set_timeouts-bounds (pos n) o = ground arith
set_timeouts-bounds (negsuc n) o = ground arith
