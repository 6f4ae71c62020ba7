-- ===== src/Query/Order.antt =====
-- The items of a `std::map` stay in the strict order of their keys.
use trtc_asr_sdk_cpp.Common.{
  ◌≡◌, refl, true, false, Bool-cases, none, some, List, [], ◌∷◌, Bytes, bytes_eq, bytes_eq_iff,
  bytes_lt, inl, inr, arith,
}
use trtc_asr_sdk_cpp.Query.SortedMap.{StringMap, put, Assignment, assign}

abbrev pub IsBelowHead : Bytes → StringMap → Type 0
IsBelowHead k [] = Unit
IsBelowHead k ((k', v') ∷ m) = bytes_lt k k' ≡ true

abbrev pub IsSorted : StringMap → Type 0
IsSorted [] = Unit
IsSorted ((k, v) ∷ m) = IsBelowHead k m × IsSorted m

-- The order is total.
bytes_lt-total :
    (k k' : Bytes) → bytes_eq k k' ≡ false → bytes_lt k k' ≡ false → bytes_lt k' k ≡ true
unfolding bytes_lt bytes_eq
bytes_lt-total [] [] h h' = cc
bytes_lt-total [] (y ∷ ys) h h' = cc
bytes_lt-total (x ∷ xs) [] h h' = refl
bytes_lt-total (x ∷ xs) (y ∷ ys) h h' = ground (arith, bytes_lt-total xs ys)

put-IsBelowHead :
    (low k v : Bytes) (m : StringMap)
    → bytes_lt low k ≡ true
    → IsBelowHead low m
    → IsBelowHead low (put k v m)
unfolding put
put-IsBelowHead low k v [] h b = h
put-IsBelowHead low k v ((k', v') ∷ m) h b = elim (Bool-cases (bytes_eq k k')) [
  | inl same ↦ rw same h
  | inr other ↦ elim (Bool-cases (bytes_lt k k')) [
    | inl before ↦ rw (other, before) h
    | inr after ↦ rw (other, after) b
  ]
]

pub put-IsSorted : (k v : Bytes) (m : StringMap) → IsSorted m → IsSorted (put k v m)
unfolding put
put-IsSorted k v [] s = (tt, tt)
put-IsSorted k v ((k', v') ∷ m) (below, s) = elim (Bool-cases (bytes_eq k k')) [
  | inl same ↦ let e : k ≡ k' = (bytes_eq_iff k k').0 same in rw same (rw e (below, s))
  | inr other ↦ elim (Bool-cases (bytes_lt k k')) [
    | inl before ↦ rw (other, before) (before, (below, s))
    | inr after ↦
        rw (other, after)
          (put-IsBelowHead k' k v m (bytes_lt-total k k' other after) below, put-IsSorted k v m s)
  ]
]

-- A run of assignments keeps the order.
pub assign-IsSorted : (xs : List Assignment) (m : StringMap) → IsSorted m → IsSorted (assign xs m)
unfolding assign
assign-IsSorted [] m s = s
assign-IsSorted ((k, none) ∷ rest) m s = assign-IsSorted rest m s
assign-IsSorted ((k, some v) ∷ rest) m s = assign-IsSorted rest (put k v m) (put-IsSorted k v m s)
