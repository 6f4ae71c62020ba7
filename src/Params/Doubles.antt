-- ===== src/Params/Doubles.antt =====
-- The `double` values that options take: a dyadic rational, an infinity or NaN.
use trtc_asr_sdk_cpp.Common.{
  ℕ, suc, ◌+◌, ◌*◌, ◌/◌, ◌%◌, ◌^◌, Bool, true, false, not, ◌&&◌, ◌||◌, ◌++◌, [], ◌∷◌, ◌≡◌, refl,
  Bytes, codes, to_string, pos, ltb, leb, ◌==◌, if◌then◌else◌,
}

-- `finite negative n k` is n / 2^k with its sign.
pub data Double : Type 0 where
  finite : Bool → ℕ → ℕ → Double
  infinite : Bool → Double
  nan : Double

-- v >= 0.0 && v <= bound, which NaN fails.
unfoldable pub in_range : ℕ → Double → Bool
in_range bound (finite negative n k) =
    (not negative || n == 0) && (negative || leb n (bound * 2 ^ k))
in_range bound (infinite negative) = false
in_range bound nan = false

-- n / d, to the nearest, ties to even.
unfoldable pub round_div : ℕ → ℕ → ℕ
round_div n d =
    let q = n / d in
    let twice = 2 * (n % d) in if ltb d twice then suc q else if twice == d then q + q % 2 else q

abbrev three_digits : ℕ → Bytes
three_digits n = (b'0' + n / 100) ∷ (b'0' + n / 10 % 10) ∷ (b'0' + n % 10) ∷ []

abbrev sign : Bool → Bytes
sign true = codes "-"
sign false = []

-- printf's "%.3f".
unfoldable pub format_f3 : Double → Bytes
unfolding round_div
format_f3 (finite negative n k) =
    let m = round_div (n * 1000) (2 ^ k) in
    sign negative ++ (to_string (pos (m / 1000)) ++ (b'.' ∷ three_digits (m % 1000)))
format_f3 (infinite negative) = sign negative ++ codes "inf"
format_f3 nan = codes "nan"

format_f3_example : format_f3 (finite false 3 1) ≡ codes "1.500"
unfolding format_f3 to_string
format_f3_example = refl
