-- ===== src/Json/Fields.antt =====
-- Fields of a JSON body that are left out when they have their default (src/v3.cc, src/file_recognizer.cc).
use mathlib.Core.List.{map}
use trtc_asr_sdk_cpp.Common.{
  Option, none, some, List, ℤ, pos, Bytes, is_empty, ◌==ℤ◌, if◌then◌else◌,
}
use trtc_asr_sdk_cpp.Params.Doubles.{Double}
use trtc_asr_sdk_cpp.Json.{JsonLibrary}

module _ (J : JsonLibrary) where
  abbrev pub put_text : Bytes → Bytes → J.Json → J.Json
  put_text key v j = J.set j key (J.string v)

  abbrev pub put_number : Bytes → ℤ → J.Json → J.Json
  put_number key n j = J.set j key (J.integer n)

  abbrev pub put_text_if : Bytes → Bytes → J.Json → J.Json
  put_text_if key v j = if is_empty v then j else put_text key v j

  abbrev pub put_number_if : Bytes → ℤ → J.Json → J.Json
  put_number_if key n j = if n ==ℤ pos 0 then j else put_number key n j

  abbrev pub put_given : Bytes → Option ℤ → J.Json → J.Json
  put_given key none j = j
  put_given key (some n) j = put_number key n j

  abbrev pub put_given_double : Bytes → Option Double → J.Json → J.Json
  put_given_double key none j = j
  put_given_double key (some v) j = J.set j key (J.number v)

  abbrev pub put_texts_if : Bytes → List Bytes → J.Json → J.Json
  put_texts_if key values j =
      if is_empty values then j else J.set j key (J.array (map J.string values))
