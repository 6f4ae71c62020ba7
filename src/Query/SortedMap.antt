-- ===== src/Query/SortedMap.antt =====
-- `std::map<std::string, std::string>`: its items in the order of their keys.
use trtc_asr_sdk_cpp.Common.{
  ◌≡◌, refl, Bool, true, false, Bool-cases, Option, none, some, List, [], ◌∷◌, Bytes, bytes_eq,
  bytes_eq_iff, bytes_lt, if◌then◌else◌, All, is_empty, inl, inr, arith,
}

abbrev pub StringMap : Type 0
StringMap = List (Bytes × Bytes)

-- m[key] = value
unfoldable pub put : Bytes → Bytes → StringMap → StringMap
put k v [] = (k, v) ∷ []
put k v ((k', v') ∷ m) =
    let later = (k', v') ∷ put k v m in
    if bytes_eq k k' then (k, v) ∷ m else if bytes_lt k k' then (k, v) ∷ (k', v') ∷ m else later

unfoldable pub get : Bytes → StringMap → Option Bytes
get k [] = none
get k ((k', v') ∷ m) = let later = get k m in if bytes_eq k k' then some v' else later

-- A run of statements `if (...) m[key] = value;`, the value being `none` where the test fails.
abbrev pub Assignment : Type 0
Assignment = Bytes × Option Bytes

abbrev pub when : Bool → Bytes → Option Bytes
when true v = some v
when false v = none

abbrev pub assign_one : Bytes → Option Bytes → StringMap → StringMap
assign_one k none m = m
assign_one k (some v) m = put k v m

unfoldable pub assign : List Assignment → StringMap → StringMap
assign [] m = m
assign ((k, o) ∷ rest) m = assign rest (assign_one k o m)

bytes_eq_refl : (k : Bytes) → bytes_eq k k ≡ true
bytes_eq_refl k = (bytes_eq_iff k k).1 refl

swap_tests :
    (key k k' v v' : Bytes) (d : Option Bytes)
    → bytes_eq k k' ≡ false
    → (if bytes_eq key k' then some v' else if bytes_eq key k then some v else d)
      ≡ (if bytes_eq key k then some v else if bytes_eq key k' then some v' else d)
swap_tests key k k' v v' d h = elim (Bool-cases (bytes_eq key k)) [
  | inl e ↦ let key_eq : key ≡ k = (bytes_eq_iff key k).0 e in rw key_eq (rw (h, bytes_eq_refl k))
  | inr e ↦ rw e
]

-- Lookup after an assignment.
pub get-put :
    (key k v : _) (m : StringMap)
    → get key (put k v m) ≡ (if bytes_eq key k then some v else get key m)
unfolding get put
get-put key k v [] = refl
get-put key k v ((k', v') ∷ m) = elim (Bool-cases (bytes_eq k k')) [
  | inl same ↦
      let e : k ≡ k' = (bytes_eq_iff k k').0 same in
      rw same (ground (arith, e, bytes_eq_iff key k, bytes_eq_iff key k'))
  | inr other ↦ elim (Bool-cases (bytes_lt k k')) [
    | inl before ↦ rw (other, before)
    | inr after ↦ rw (other, after, get-put key k v m) (swap_tests key k k' v v' (get key m) other)
  ]
]

abbrev pub or_else : Option Bytes → Option Bytes → Option Bytes
or_else none d = d
or_else (some v) d = some v

-- What a run of assignments leaves under a key.
abbrev pub last_value : Bytes → List Assignment → Option Bytes → Option Bytes
last_value key [] d = d
last_value key ((k, o) ∷ rest) d = last_value key rest (if bytes_eq key k then or_else o d else d)

get-assign_one :
    (key k : Bytes) (o : Option Bytes) (m : StringMap)
    → get key (assign_one k o m) ≡ (if bytes_eq key k then or_else o (get key m) else get key m)
get-assign_one key k none m = elim (Bool-cases (bytes_eq key k)) [ inl e ↦ rw e | inr e ↦ rw e ]
get-assign_one key k (some v) m = get-put key k v m

-- Under each key stands what the last assignment to it that was run wrote.
pub get-assign :
    (key : Bytes) (xs : List Assignment) (m : StringMap)
    → get key (assign xs m) ≡ last_value key xs (get key m)
unfolding assign
get-assign key [] m = refl
get-assign key ((k, o) ∷ rest) m =
    rw (get-assign key rest (assign_one k o m), get-assign_one key k o m)

-- A predicate of the items.
module _ {ℓ} (P : Bytes × Bytes → Type ℓ) where
  pub put-All : (k v : Bytes) (m : StringMap) → P (k, v) → All P m → All P (put k v m)
  unfolding put
  put-All k v [] h hs = (h, tt)
  put-All k v ((k', v') ∷ m) h (h', hs) = elim (Bool-cases (bytes_eq k k')) [
    | inl same ↦ rw same (h, hs)
    | inr other ↦ elim (Bool-cases (bytes_lt k k')) [
      | inl before ↦ rw (other, before) (h, (h', hs))
      | inr after ↦ rw (other, after) (h', put-All k v m h hs)
    ]
  ]

  abbrev pub Assigns : Assignment → Type ℓ
  Assigns (k, none) = Unit
  Assigns (k, some v) = P (k, v)

  pub assign-All :
      (xs : List Assignment) (m : StringMap) → All Assigns xs → All P m → All P (assign xs m)
  unfolding assign
  assign-All [] m ps hs = hs
  assign-All ((k, none) ∷ rest) m (a, ps) hs = assign-All rest m ps hs
  assign-All ((k, some v) ∷ rest) m (a, ps) hs = assign-All rest (put k v m) ps (put-All k v m a hs)

pub put-is_empty : (k v : Bytes) (m : StringMap) → is_empty (put k v m) ≡ false
unfolding put
put-is_empty k v [] = refl
put-is_empty k v ((k', v') ∷ m) = elim (Bool-cases (bytes_eq k k')) [
  | inl same ↦ rw same
  | inr other ↦ elim (Bool-cases (bytes_lt k k')) [
    | inl before ↦ rw (other, before)
    | inr after ↦ rw (other, after)
  ]
]

pub or_else-none : (o : Option Bytes) → or_else o none ≡ o
or_else-none none = refl
or_else-none (some v) = refl
