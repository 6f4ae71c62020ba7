-- ===== src/V3/Client/Destructor.antt =====
-- The destructor of the version 3 client (src/v3.cc).
use trtc_asr_sdk_cpp.Recognizer.Lifecycle.{Client}
use trtc_asr_sdk_cpp.Recognizer.Lifecycle as V2
