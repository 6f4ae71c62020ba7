-- ===== src/Query/Split.antt =====
-- A server that splits the query string at '&' and '=' finds the items of the map (src/signature_params.cc).
use trtc_asr_sdk_cpp.Common.{
  ℕ, ◌≡◌, ◌≢◌, refl, sym, ap, ◌∙◌, arith, Bool, true, false, not, ◌&&◌, Option, none, some, List,
  [], ◌∷◌, ◌++◌, append_assoc, append-nil, Bytes, IsByte, codes, is_empty, ◌==◌, if◌then◌else◌,
  all_below_sound, All, All-append,
}
use trtc_asr_sdk_cpp.Query.Escape.{escape_byte, query_escape}
use trtc_asr_sdk_cpp.Query.SortedMap.{StringMap}
use trtc_asr_sdk_cpp.Query.Unescape.{unescape, unescape-query_escape}
use trtc_asr_sdk_cpp.Query.{join_items}

abbrev push : ℕ → List Bytes → List Bytes
push c [] = (c ∷ []) ∷ []
push c (w ∷ ws) = (c ∷ w) ∷ ws

-- The pieces between the separators.
pub split_on : ℕ → Bytes → List Bytes
split_on sep [] = [] ∷ []
split_on sep (c ∷ s) = let rest = split_on sep s in if c == sep then [] ∷ rest else push c rest

split_on-first :
    (sep : ℕ) (w s : Bytes)
    → All (λ c. c ≢ sep) w
    → split_on sep (w ++ (sep ∷ s)) ≡ w ∷ split_on sep s
unfolding split_on
split_on-first sep [] s h = let e : (sep == sep) ≡ true = ground arith in rw e
split_on-first sep (c ∷ w) s (n, ns) =
    let e : (c == sep) ≡ false = ground arith in rw e (ap (push c) (split_on-first sep w s ns))

split_on_last : (sep : ℕ) (w : Bytes) → All (λ c. c ≢ sep) w → split_on sep w ≡ w ∷ []
unfolding split_on
split_on_last sep [] h = refl
split_on_last sep (c ∷ w) (n, ns) =
    let e : (c == sep) ≡ false = ground arith in rw e (ap (push c) (split_on_last sep w ns))

abbrev with_item : Bytes → Option Bytes → Option StringMap → Option StringMap
with_item k (some v) (some m) = some ((k, v) ∷ m)
with_item k (some v) none = none
with_item k none m = none

-- A piece is a key, '=' and an escaped value.
abbrev item_of : List Bytes → Option StringMap → Option StringMap
item_of (k ∷ v ∷ []) m = with_item k (unescape v) m
item_of [] m = none
item_of (k ∷ []) m = none
item_of (k ∷ v ∷ w ∷ ws) m = none

pub items_of : List Bytes → Option StringMap
unfolding split_on unescape
items_of [] = some []
items_of (piece ∷ pieces) = item_of (split_on b'=' piece) (items_of pieces)

unfoldable pub parse_query : Bytes → Option StringMap
unfolding items_of split_on
parse_query s = items_of (split_on b'&' s)

-- Keys hold neither separator, and are not empty; values are bytes.
abbrev pub IsKeyChar : ℕ → Type 0
IsKeyChar c = (c ≢ b'&') × (c ≢ b'=')

abbrev pub IsItem : Bytes × Bytes → Type 0
IsItem (k, v) = (is_empty k ≡ false) × All IsKeyChar k × All IsByte v

abbrev is_safe : ℕ → Bool
is_safe c = not (c == b'&') && not (c == b'=')

abbrev all_safe : Bytes → Bool
all_safe [] = true
all_safe (c ∷ s) = is_safe c && all_safe s

safe : (c : ℕ) → is_safe c ≡ true → IsKeyChar c
safe c h = ground (arith, h)

all_safe-All : (s : Bytes) → all_safe s ≡ true → All IsKeyChar s
all_safe-All [] h = tt
all_safe-All (c ∷ s) h = ground (arith, safe c, all_safe-All s)

escaped_is_safe : (s : Bytes) → All IsByte s → All IsKeyChar (query_escape s)
unfolding query_escape
escaped_is_safe [] h = tt
escaped_is_safe (c ∷ s) (b, bs) =
    let byte =
      all_safe-All (escape_byte c) (all_below_sound 256 (λ c. all_safe (escape_byte c)) c refl b) in
    All-append IsKeyChar (escape_byte c) (query_escape s) byte (escaped_is_safe s bs)

abbrev field : Bytes × Bytes → Bytes
field (k, v) = k ++ (codes "=" ++ query_escape v)

-- The items behind the first one.
abbrev tail_text : StringMap → Bytes
tail_text [] = []
tail_text (item ∷ m) = b'&' ∷ (field item ++ tail_text m)

not_empty : (out w : Bytes) → is_empty ((out ++ codes "&") ++ w) ≡ false
not_empty [] w = refl
not_empty (c ∷ out) w = refl

regroup : (out w t : Bytes) → ((out ++ codes "&") ++ w) ++ t ≡ out ++ (b'&' ∷ (w ++ t))
regroup out w t = rw (append_assoc, append_assoc) refl

join_items-tail :
    (out : Bytes) (m : StringMap) → is_empty out ≡ false → join_items out m ≡ out ++ tail_text m
unfolding join_items
join_items-tail out [] h = sym (append-nil out)
join_items-tail out (item ∷ m) h = rw h (
    join_items-tail ((out ++ codes "&") ++ field item) m (not_empty out (field item))
    ∙ regroup out (field item) (tail_text m))

not_amp : (s : Bytes) → All IsKeyChar s → All (λ c. c ≢ b'&') s
not_amp [] h = tt
not_amp (c ∷ s) (h, hs) = (h.0, not_amp s hs)

not_eq : (s : Bytes) → All IsKeyChar s → All (λ c. c ≢ b'=') s
not_eq [] h = tt
not_eq (c ∷ s) (h, hs) = (h.1, not_eq s hs)

field_has_no_amp : (item : Bytes × Bytes) → IsItem item → All (λ c. c ≢ b'&') (field item)
field_has_no_amp (k, v) (_, ks, vs) =
    All-append (λ c. c ≢ b'&') k (b'=' ∷ query_escape v) (not_amp k ks)
      (ground arith, not_amp (query_escape v) (escaped_is_safe v vs))

item_of-field :
    (item : Bytes × Bytes) (m : StringMap)
    → IsItem item
    → item_of (split_on b'=' (field item)) (some m) ≡ some (item ∷ m)
item_of-field (k, v) m (_, ks, vs) = rw (
  split_on-first b'=' k (query_escape v) (not_eq k ks),
  split_on_last b'=' (query_escape v) (not_eq (query_escape v) (escaped_is_safe v vs)),
  unescape-query_escape v vs,
)

pieces :
    (item : Bytes × Bytes) (m : StringMap)
    → All IsItem (item ∷ m)
    → items_of (split_on b'&' (field item ++ tail_text m)) ≡ some (item ∷ m)
unfolding items_of
pieces item [] (h, hs) =
    rw (
      append-nil,
      split_on_last b'&' (field item) (field_has_no_amp item h),
      item_of-field item [] h,
    )
pieces item (next ∷ m) (h, hs) = rw (
  split_on-first b'&' (field item) (field next ++ tail_text m) (field_has_no_amp item h),
  pieces next m hs,
  item_of-field item (next ∷ m) h,
)

-- Splitting and decoding a query string gives back the items that were joined, in their order.
pub parse_query-join_items :
    (item : Bytes × Bytes) (m : StringMap)
    → All IsItem (item ∷ m)
    → parse_query (join_items [] (item ∷ m)) ≡ some (item ∷ m)
unfolding parse_query join_items
parse_query-join_items (k, v) m h =
    rw (join_items-tail (field (k, v)) m (field_not_empty k v)) (pieces (k, v) m h)
  where
    field_not_empty : (k v : Bytes) → is_empty (field (k, v)) ≡ false
    field_not_empty [] v = refl
    field_not_empty (c ∷ k) v = refl
