-- ===== src/Json.antt =====
-- The vendored JSON library (third_party/nlohmann), as far as the code calls it: its values and the
-- operations on them are parameters. An operation that may throw gives a `Result`.
pub mod Fields
use trtc_asr_sdk_cpp.Common.{ℤ, Bytes, Bool, List, Result}
use trtc_asr_sdk_cpp.Params.Doubles.{Double as Number}

pub record JsonLibrary : Type 1 where
  pub Json : Type 0
  -- A default-constructed value; `obj[key] = value`; a string, an integer, a double, an array; json::parse.
  pub null : Json
  pub set : Json → Bytes → Json → Json
  pub string : Bytes → Json
  pub integer : ℤ → Json
  pub number : Number → Json
  pub array : List Json → Json
  -- `dump()`, which throws on a text that is not UTF-8.
  pub dump : Json → Result Bytes
  pub parse : Bytes → Result Json
  pub contains : Json → Bytes → Bool
  -- `obj[key]` of a key that is there, and the elements of an array.
  pub at : Json → Bytes → Json
  pub elements : Json → List Json
  pub is_object : Json → Bool
  pub is_array : Json → Bool
  pub is_number : Json → Bool
  pub is_string : Json → Bool
  -- `j.value(key, fallback)` at `int`, `int64_t` and `std::string`, and `get<int>()`.
  pub value_int : Json → Bytes → ℤ → Result ℤ
  pub value_int64 : Json → Bytes → ℤ → Result ℤ
  pub value_string : Json → Bytes → Bytes → Result Bytes
  pub get_int : Json → Result ℤ
  pub is_null : Json → Bool
  -- `get<int64_t>()`.
  pub get_int64 : Json → Result ℤ
  pub Double : Type 0
  -- The value of a key as a double, 0 where it is missing.
  pub value_double : Json → Bytes → Result Double
  -- `get<std::string>()` of a value that is a string.
  pub get_string : Json → Bytes
