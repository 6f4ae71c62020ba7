-- ===== src/Query/Entries.antt =====
-- The query string of ToMap, BuildQueryString and BuildQueryStringWithSignature (src/signature_params.cc).
use trtc_asr_sdk_cpp.Common.{
  ◌≡◌, refl, arith, Bool, true, false, not, ◌&&◌, none, some, List, [], ◌∷◌, Bytes, IsByte, codes,
  is_empty, All, ◌==◌, ok, throw, Exception, Result-cases, ◌⊎◌, inl, inr,
}
use trtc_asr_sdk_cpp.Json.{JsonLibrary}
use trtc_asr_sdk_cpp.Query.SortedMap.{
  StringMap, Assignment, assign, assign-All, put-All, Assigns, put-is_empty,
}
use trtc_asr_sdk_cpp.Query.Order.{IsSorted, assign-IsSorted, put-IsSorted}
use trtc_asr_sdk_cpp.Query.Split.{IsItem, IsKeyChar, parse_query, parse_query-join_items}
use trtc_asr_sdk_cpp.Query.{
  SignatureParams, Target, join_items, to_map, assignments, put_signature, with_signature,
  speaker_roles_text, voiceprint_ids_text, build_query_string_with_signature,
}

abbrev key_is_safe : Bytes → Bool
key_is_safe [] = true
key_is_safe (c ∷ k) = (not (c == b'&') && not (c == b'=')) && key_is_safe k

abbrev keys_are_safe : List Assignment → Bool
keys_are_safe [] = true
keys_are_safe ((k, o) ∷ xs) = (not (is_empty k) && key_is_safe k) && keys_are_safe xs

key_is_safe-All : (k : Bytes) → key_is_safe k ≡ true → All IsKeyChar k
key_is_safe-All [] h = tt
key_is_safe-All (c ∷ k) h = ground (arith, key_is_safe-All k)

-- The value that is assigned, if any, consists of bytes.
abbrev pub HasBytes : Assignment → Type 0
HasBytes (k, none) = Unit
HasBytes (k, some v) = All IsByte v

items-Assigns :
    (xs : List Assignment) → keys_are_safe xs ≡ true → All HasBytes xs → All (Assigns IsItem) xs
items-Assigns [] h bs = tt
items-Assigns ((k, none) ∷ xs) h (b, bs) = (tt, items-Assigns xs (ground (arith, h)) bs)
items-Assigns ((k, some v) ∷ xs) h (b, bs) =
    let safe : key_is_safe k ≡ true = ground (arith, h) in
    let filled : is_empty k ≡ false = ground (arith, h) in
    ((filled, key_is_safe-All k safe, b), items-Assigns xs (ground (arith, h)) bs)

parse_query-map :
    (m : StringMap) → is_empty m ≡ false → All IsItem m → parse_query (join_items [] m) ≡ some m
parse_query-map [] h hs = cc
parse_query-map (item ∷ m) h hs = parse_query-join_items item m hs

-- A query string from which a server reads the signed map, in order.
abbrev pub IsBuilt : JsonLibrary → Target → SignatureParams → Bytes → Type 0
IsBuilt J target p user_sig =
    (m : StringMap) × (text : Bytes) × (with_signature J target user_sig p ≡ ok m)
    × (build_query_string_with_signature J target p user_sig ≡ ok text)
    × (parse_query text ≡ some m)
    × IsSorted m

module _ (J : JsonLibrary) (target : Target) (p : SignatureParams) (roles ids : Bytes)
    (roles_given : speaker_roles_text J target p ≡ ok roles)
    (ids_given : voiceprint_ids_text J target p ≡ ok ids) where
  abbrev entries : StringMap
  entries = assign (assignments J target p roles ids) []

  to_map-entries : to_map J target p ≡ ok entries
  unfolding to_map
  to_map-entries = rw (roles_given, ids_given) refl

  with_signature-entries :
      (user_sig : Bytes)
      → with_signature J target user_sig p ≡ ok (put_signature J target user_sig entries)
  unfolding with_signature
  with_signature-entries user_sig = rw to_map-entries refl

  build-entries :
      (user_sig : Bytes)
      → build_query_string_with_signature J target p user_sig
        ≡ ok (join_items [] (put_signature J target user_sig entries))
  unfolding build_query_string_with_signature
  build-entries user_sig = rw (with_signature-entries user_sig) refl

  entries-IsItem : All HasBytes (assignments J target p roles ids) → All IsItem entries
  unfolding assignments
  entries-IsItem bs =
      assign-All IsItem (assignments J target p roles ids) []
        (items-Assigns (assignments J target p roles ids) refl bs) tt

  signed-IsItem :
      (user_sig : Bytes)
      → All IsByte user_sig
      → All IsItem entries
      → All IsItem (put_signature J target user_sig entries)
  signed-IsItem user_sig sig items =
      put-All IsItem (codes "usersig") user_sig _
        (refl, key_is_safe-All (codes "usersig") refl, sig)
        (put-All IsItem (codes "signature") user_sig _
          (refl, key_is_safe-All (codes "signature") refl, sig) items)

  given-IsBuilt :
      (user_sig : Bytes)
      → All IsByte user_sig
      → All HasBytes (assignments J target p roles ids)
      → IsBuilt J target p user_sig
  given-IsBuilt user_sig sig bs =
      let m = put_signature J target user_sig entries in
      (
        m,
        join_items [] m,
        with_signature-entries user_sig,
        build-entries user_sig,
        parse_query-map m (put-is_empty (codes "usersig") user_sig _)
            (signed-IsItem user_sig sig (entries-IsItem bs)),
        put-IsSorted (codes "usersig") user_sig _ (
            put-IsSorted (codes "signature") user_sig _
              (assign-IsSorted (assignments J target p roles ids) [] tt)),
      )

module _ (J : JsonLibrary) (target : Target) (p : SignatureParams) where
  -- The exception of the serialization that throws first.
  abbrev pub Throws : Exception → Type 0
  Throws e =
      (speaker_roles_text J target p ≡ throw e)
      ⊎ ((roles : Bytes) × (speaker_roles_text J target p ≡ ok roles)
          × (voiceprint_ids_text J target p ≡ throw e))

  build-Throws :
      (user_sig : Bytes) (e : Exception)
      → Throws e
      → build_query_string_with_signature J target p user_sig ≡ throw e
  unfolding build_query_string_with_signature with_signature to_map
  build-Throws user_sig e (inl h) = rw h refl
  build-Throws user_sig e (inr (roles, given, h)) = rw (given, h) refl

  -- For a signature of bytes, and parameters whose values, with the two serialized texts if they are given,
  -- consist of bytes: BuildQueryStringWithSignature gives a string, and a server that splits it at '&' and '='
  -- and decodes the values finds exactly the items of ToMap with the signature in both places, in the strict
  -- order of their keys; or the serialization of the speaker roles throws, or else that of the voiceprint ids,
  -- and the exception comes out.
  pub parse_query-build :
      (user_sig : Bytes)
      → All IsByte user_sig
      → ((roles ids : Bytes)
          → speaker_roles_text J target p ≡ ok roles
          → voiceprint_ids_text J target p ≡ ok ids
          → All HasBytes (assignments J target p roles ids))
      → IsBuilt J target p user_sig
        ⊎ ((e : Exception) × Throws e
            × (build_query_string_with_signature J target p user_sig ≡ throw e))
  parse_query-build user_sig sig bs = elim (Result-cases (speaker_roles_text J target p)) [
    | inr (e, h) ↦ inr (e, inl h, build-Throws user_sig e (inl h))
    | inl (roles, roles_given) ↦ elim (Result-cases (voiceprint_ids_text J target p)) [
      | inr (e, h) ↦
          inr
            (e, inr (roles, roles_given, h), build-Throws user_sig e (inr (roles, roles_given, h)))
      | inl (ids, ids_given) ↦ inl (
          given-IsBuilt J target p roles ids roles_given ids_given user_sig sig
            (bs roles ids roles_given ids_given))
    ]
  ]
