-- ===== src/V3/Client/Calls.antt =====
-- The calls of the version 3 client as runs of the steps of the version 2 client (src/v3.cc).
use trtc_asr_sdk_cpp.Common.{◌≡◌, refl, Bool, Option, Bytes}
use trtc_asr_sdk_cpp.Recognizer.Lifecycle.{Client, Call, returned, already_started}
use trtc_asr_sdk_cpp.Recognizer.Lifecycle as V2
use trtc_asr_sdk_cpp.V3.Handshake.{Handshake}
use trtc_asr_sdk_cpp.V3.Client.{stop_begun, stop}

-- The text of Stop is that of the version 2 client.
pub stop_same :
    (failure : Option Bytes) (in_callback in_time : Bool) (c : Client)
    → stop failure in_callback in_time c ≡ V2.stop failure in_callback in_time c
unfolding stop stop_begun V2.stop
stop_same failure in_callback in_time c = refl
