-- ===== src/Common/Bits/Digits.antt =====
-- One equation for the lowest binary digit of each native bit operation, and induction by halves.
use Prim.Native.Nat.{
  ℕ, zero, suc, ◌+◌, ◌*◌, ◌/◌, ◌%◌, ◌≤◌, ◌<◌, min, max, differ, bit_and, bit_or, bit_xor, digits,
  bit_and-bitwise, bit_or-bitwise, bit_xor-bitwise,
}
use mathlib.Core.Path.{◌≡◌, refl}
use native.Mathlib.Omega.{arith}

-- A recursion on binary digits does not depend on its count of rounds once that is enough.
module _ (rest : ℕ → ℕ) (digit : ℕ → ℕ → ℕ) where
  enough : (n m a b : ℕ) → a ≤ n → a ≤ m → digits rest digit n a b ≡ digits rest digit m a b
  enough zero zero a b p q = refl
  enough zero (suc m) zero b p q = refl
  enough zero (suc m) (suc a) b p q = absurd (omega arith)
  enough (suc n) zero zero b p q = refl
  enough (suc n) zero (suc a) b p q = absurd (omega arith)
  enough (suc n) (suc m) zero b p q = refl
  enough (suc n) (suc m) (suc a) b p q =
      rw (enough n m (suc a / 2) (b / 2) (omega arith) (omega arith))

pub bit_or_step : (x y : ℕ) → bit_or x y ≡ bit_or (x / 2) (y / 2) * 2 + max (x % 2) (y % 2)
bit_or_step zero y = simp bit_or-bitwise (omega arith)
bit_or_step (suc x) y = omega (
  arith,
  bit_or-bitwise (suc x) y,
  bit_or-bitwise (suc x / 2) (y / 2),
  enough (λ d. d) max x (suc x / 2) (suc x / 2) (y / 2) (omega arith) (omega arith),
)

pub bit_and_step : (x y : ℕ) → bit_and x y ≡ bit_and (x / 2) (y / 2) * 2 + min (x % 2) (y % 2)
bit_and_step zero y = simp bit_and-bitwise (omega arith)
bit_and_step (suc x) y = omega (
  arith,
  bit_and-bitwise (suc x) y,
  bit_and-bitwise (suc x / 2) (y / 2),
  enough (λ d. zero) min x (suc x / 2) (suc x / 2) (y / 2) (omega arith) (omega arith),
)

-- The exclusive or of two binary digits is their sum without the carry.
binary_sum : (a b : ℕ) → a < 2 → b < 2 → differ a b ≡ (a + b) % 2
binary_sum zero zero p q = refl
binary_sum zero (suc zero) p q = refl
binary_sum (suc zero) zero p q = refl
binary_sum (suc zero) (suc zero) p q = refl
binary_sum zero (suc (suc b)) p q = absurd (omega arith)
binary_sum (suc zero) (suc (suc b)) p q = absurd (omega arith)
binary_sum (suc (suc a)) b p q = absurd (omega arith)

differ_lem : (a b : ℕ) → differ (a % 2) (b % 2) ≡ (a + b) % 2
differ_lem a b = omega (arith, binary_sum (a % 2) (b % 2) (omega arith) (omega arith))

pub bit_xor_step : (a b : ℕ) → bit_xor a b ≡ bit_xor (a / 2) (b / 2) * 2 + (a + b) % 2
bit_xor_step zero b = simp bit_xor-bitwise (omega arith)
bit_xor_step (suc a) b = omega (
  arith,
  bit_xor-bitwise (suc a) b,
  bit_xor-bitwise (suc a / 2) (b / 2),
  differ_lem (suc a) b,
  enough (λ y. y) differ a (suc a / 2) (suc a / 2) (b / 2) (omega arith) (omega arith),
)

halves_below {ℓ} :
    (P : ℕ → Type ℓ) → P zero → ((a : ℕ) → P (suc a / 2) → P (suc a)) → (n a : ℕ) → a ≤ n → P a
halves_below P base step n zero h = base
halves_below P base step zero (suc a) h = absurd (omega arith)
halves_below P base step (suc n) (suc a) h =
    step a (halves_below P base step n (suc a / 2) (omega arith))

-- What passes from each half of a number to the number holds of every number.
pub halving_induction {ℓ} :
    (P : ℕ → Type ℓ) → P zero → ((a : ℕ) → P (suc a / 2) → P (suc a)) → (a : ℕ) → P a
halving_induction P base step a = halves_below P base step a a (omega arith)
