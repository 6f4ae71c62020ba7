-- ===== src/Response/Tests.antt =====
-- A library whose values are lists of numbers, and runs of the parser with it (src/types.cc).
use trtc_asr_sdk_cpp.Common.{
  ◌≡◌, ◌⊎◌, true, false, [], ◌∷◌, ◌++◌, pos, Bytes, codes, bytes_eq, get_or, if◌then◌else◌, ok,
  throw,
}
use trtc_asr_sdk_cpp.Json.{JsonLibrary}
use trtc_asr_sdk_cpp.Response.{SpeechRecognitionResponse, parse_speech_response, has_object}
use trtc_asr_sdk_cpp.Response.Errors.{failure, parse_speech_response-cases}

-- The values are the slice type and the final flag, as two bytes.
abbrev pub flags : JsonLibrary
flags = record {
  Json = Bytes;
  null = [];
  set = λ j key v. j ++ v;
  string = λ s. s;
  integer = λ n. [];
  number = λ n. [];
  array = λ js. codes "[]";
  dump = λ j. ok j;
  parse = ok;
  contains = λ j key. bytes_eq key (codes "result");
  at = λ j key. j;
  elements = λ j. [];
  is_object = λ j. true;
  is_array = λ j. false;
  is_number = λ j. false;
  is_string = λ j. true;
  value_int = λ j key d. ok (
      if bytes_eq key (codes "slice_type")
      then pos (get_or j 0 0)
      else if bytes_eq key (codes "final")
      then pos (get_or j 1 0)
      else d);
  value_int64 = λ j key d. ok d;
  value_string = λ j key d. ok d;
  get_int = λ j. ok (pos 0);
  is_null = λ j. false;
  get_int64 = λ j. ok (pos 0);
  Double = Unit;
  value_double = λ j key. ok tt;
  get_string = λ j. j;
}

parse_speech_response-cases_example :
    ((j : Bytes) × (resp : SpeechRecognitionResponse) × (flags.parse (0 ∷ 1 ∷ []) ≡ ok j)
      × (parse_speech_response flags (0 ∷ 1 ∷ []) ≡ ok resp)
      × (resp.has_result ≡ has_object flags j (codes "result")))
    ⊎ ((m : Bytes) × (parse_speech_response flags (0 ∷ 1 ∷ []) ≡ throw (failure m)))
parse_speech_response-cases_example = parse_speech_response-cases flags (0 ∷ 1 ∷ [])
