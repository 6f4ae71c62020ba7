-- ===== src/Http.antt =====
-- HttpPost (src/http_client.cc). What libcurl makes of a request is a parameter.
use trtc_asr_sdk_cpp.Common.{Bool, true, false, List, [], ◌∷◌, ◌++◌, ℤ, pos, Bytes, codes}
use trtc_asr_sdk_cpp.Offline.{HttpAnswer}
use trtc_asr_sdk_cpp.Run.{Run, gives, crashes}

-- curl_easy_init gives no handle; or curl_easy_perform hands the body to WriteCallback in pieces, and then
-- fails with a text, or ends with a status.
pub data Transfer : Type 0 where
  no_handle : Transfer
  broken : List Bytes → Bytes → Transfer
  done : List Bytes → ℤ → Transfer

-- WriteCallback, piece by piece.
unfoldable pub body_of : List Bytes → Bytes
body_of [] = []
body_of (piece ∷ pieces) = piece ++ body_of pieces

-- `*err = ...`, where the pointer may be null.
abbrev pub report : Bool → Bytes → HttpAnswer → Run HttpAnswer
report true text answer = gives (record answer { err = text })
report false text answer = crashes

abbrev no_answer : Bytes → HttpAnswer
no_answer body = record { err = []; status = pos 0; body = body }

-- `has_err` tells whether the caller passes a pointer for the text of a failure.
unfoldable pub http_post : Bool → Transfer → Run HttpAnswer
unfolding body_of
http_post has_err no_handle = report has_err (codes "curl init failed") (no_answer [])
http_post has_err (broken pieces text) =
    report has_err (codes "http request failed: " ++ text) (no_answer (body_of pieces))
http_post has_err (done pieces status) =
    gives (record { err = []; status = status; body = body_of pieces })
