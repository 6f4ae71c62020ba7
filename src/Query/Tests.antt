-- ===== src/Query/Tests.antt =====
-- A query string at concrete parameters (src/signature_params.cc).
use trtc_asr_sdk_cpp.Common.{
  ◌≡◌, refl, Bool, true, false, ◌&&◌, some, none, List, [], ◌∷◌, ◌++◌, pos, Bytes, codes, All,
  all_bytes, all_bytes-All, ok, throw, Exception, ◌⊎◌, subst, to_string, arith,
}
use trtc_asr_sdk_cpp.Json.{JsonLibrary}
use trtc_asr_sdk_cpp.Query.SortedMap.{Assignment}
use trtc_asr_sdk_cpp.Query.Entries.{HasBytes, IsBuilt, Throws, parse_query-build}
use trtc_asr_sdk_cpp.Query.{
  SignatureParams, new_signature_params, Target, assignments, speaker_roles_text,
  voiceprint_ids_text, build_query_string_with_signature, serialize_string_array, sdk_report_params,
  sdk_platform,
}

-- A library whose values are texts.
abbrev texts : JsonLibrary
texts = record {
  Json = Bytes;
  null = [];
  set = λ j key v. j ++ v;
  string = λ s. s;
  integer = λ n. [];
  number = λ n. [];
  array = λ js. codes "[]";
  dump = λ j. ok j;
  parse = ok;
  contains = λ j key. false;
  at = λ j key. j;
  elements = λ j. [];
  is_object = λ j. true;
  is_array = λ j. false;
  is_number = λ j. false;
  is_string = λ j. true;
  value_int = λ j key d. ok d;
  value_int64 = λ j key d. ok d;
  value_string = λ j key d. ok d;
  get_int = λ j. ok (pos 0);
  is_null = λ j. false;
  get_int64 = λ j. ok (pos 0);
  Double = Unit;
  value_double = λ j key. ok tt;
  get_string = λ j. j;
}

abbrev linux_host : Target
linux_host = record { win32 = false; android = false; apple = false; iphone = false; linux = true }

abbrev some_params : SignatureParams
some_params =
    record (new_signature_params 1700000000 41 (pos 1300000000) (codes "16k_zh") (codes "a b&c")) {
      sdk_app_id = pos 1400000000;
      speaker_diarization = pos 3;
      voiceprint_ids = codes "v1" ∷ [];
    }

abbrev have_bytes : List Assignment → Bool
have_bytes [] = true
have_bytes ((k, none) ∷ xs) = have_bytes xs
have_bytes ((k, some v) ∷ xs) = all_bytes v && have_bytes xs

have_bytes-All : (xs : List Assignment) → have_bytes xs ≡ true → All HasBytes xs
have_bytes-All [] h = tt
have_bytes-All ((k, none) ∷ xs) h = (tt, have_bytes-All xs h)
have_bytes-All ((k, some v) ∷ xs) h = ground (arith, all_bytes-All v, have_bytes-All xs)

abbrev ids_text : Bytes
ids_text = codes "[]"

some_params-bytes : have_bytes (assignments texts linux_host some_params [] ids_text) ≡ true
unfolding assignments sdk_report_params sdk_platform to_string new_signature_params
some_params-bytes = refl

some_params-roles : speaker_roles_text texts linux_host some_params ≡ ok []
unfolding speaker_roles_text new_signature_params
some_params-roles = refl

some_params-ids : voiceprint_ids_text texts linux_host some_params ≡ ok ids_text
unfolding voiceprint_ids_text serialize_string_array new_signature_params
some_params-ids = refl

some_params-HasBytes :
    (roles ids : Bytes)
    → speaker_roles_text texts linux_host some_params ≡ ok roles
    → voiceprint_ids_text texts linux_host some_params ≡ ok ids
    → All HasBytes (assignments texts linux_host some_params roles ids)
some_params-HasBytes roles ids h h' =
    let e : [] ≡ roles = cc (h, some_params-roles) in
    let e' : ids_text ≡ ids = cc (h', some_params-ids) in
    subst (λ (r : Bytes). All HasBytes (assignments texts linux_host some_params r ids)) e
      (subst (λ (i : Bytes). All HasBytes (assignments texts linux_host some_params [] i)) e'
        (have_bytes-All (assignments texts linux_host some_params [] ids_text) some_params-bytes))

parse_query-build_example :
    IsBuilt texts linux_host some_params (codes "e*-_")
    ⊎ ((e : Exception) × Throws texts linux_host some_params e
        × (build_query_string_with_signature texts linux_host some_params (codes "e*-_") ≡ throw e))
parse_query-build_example =
    parse_query-build texts linux_host some_params (codes "e*-_")
      (all_bytes-All (codes "e*-_") refl) some_params-HasBytes
