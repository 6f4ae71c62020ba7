-- ===== src/Common/Bits.antt =====
-- Words and their bit operations as arithmetic, at every width.
mod Digits
use Prim.Native.Nat.{
  ℕ, zero, suc, ◌+◌, ◌-◌, ◌*◌, ◌/◌, ◌%◌, ◌^◌, ◌<◌, bit_and, bit_or, bit_xor, bit_xor-bitwise,
}
use mathlib.Core.Path.{◌≡◌, refl, ap}
use native.Mathlib.Omega.{arith}
use native.Mathlib.Nat.{pow-suc, one-le-pow}
use Digits.{bit_or_step, bit_and_step, bit_xor_step, halving_induction}

infixl 75 ◌<<<◌ ◌>>>◌
abbrev pub ◌<<<◌ : ℕ → ℕ → ℕ
x <<< k = x * 2 ^ k

abbrev pub ◌>>>◌ : ℕ → ℕ → ℕ
x >>> k = x / 2 ^ k

abbrev pub u8 : ℕ → ℕ
u8 n = n % 2 ^ 8

abbrev pub u32 : ℕ → ℕ
u32 n = n % 2 ^ 32

abbrev pub u64 : ℕ → ℕ
u64 n = n % 2 ^ 64

or-zero : (a : ℕ) → bit_or a 0 ≡ a
or-zero =
    halving_induction (λ a. bit_or a 0 ≡ a) refl λ a ih. omega (arith, bit_or_step (suc a) 0, ih)

and-zero : (a : ℕ) → bit_and a 0 ≡ 0
and-zero =
    halving_induction (λ a. bit_and a 0 ≡ 0) refl λ a ih. omega (arith, bit_and_step (suc a) 0, ih)

double : (q k : ℕ) → q * 2 ^ suc k ≡ 2 * (q * 2 ^ k)
double q k = omega (arith, ap (λ (t : ℕ). q * t) (pow-suc 2 k))

-- The fields of `(q << k) | r` do not overlap, so `|` is `+`.
pub bit_or-shift : (k q r : ℕ) → r < 2 ^ k → bit_or (q * 2 ^ k) r ≡ q * 2 ^ k + r
bit_or-shift zero q r h = ground (arith, or-zero q)
bit_or-shift (suc k) q r h = ground (
  arith,
  bit_or_step (q * 2 ^ suc k) r,
  double q k,
  pow-suc 2 k,
  bit_or-shift k q (r / 2) (omega (arith, pow-suc 2 k)),
)

xor-half : (a m : ℕ) → bit_xor a m / 2 ≡ bit_xor (a / 2) (m / 2)
xor-half a m = omega (arith, bit_xor_step a m)

xor_self : (m : ℕ) → bit_xor m m ≡ 0
xor_self =
    halving_induction (λ m. bit_xor m m ≡ 0) refl
      λ a ih. omega (arith, bit_xor_step (suc a) (suc a), ih)

zero-xor : (m : ℕ) → bit_xor 0 m ≡ m
zero-xor m = bit_xor-bitwise 0 m

zero_xor_twice : (m : ℕ) → bit_xor (bit_xor 0 m) m ≡ 0
zero_xor_twice m = rw zero-xor (xor_self m)

-- `x ^ m ^ m` is `x`, for words of any width.
pub bit_xor_twice : (x m : ℕ) → bit_xor (bit_xor x m) m ≡ x
bit_xor_twice =
    halving_induction (λ x. (m : ℕ) → bit_xor (bit_xor x m) m ≡ x) zero_xor_twice
      λ a ih m. omega (
        arith,
        bit_xor_step (bit_xor (suc a) m) m,
        bit_xor_step (suc a) m,
        ap (λ (t : ℕ). bit_xor t (m / 2)) (xor-half (suc a) m),
        ih (m / 2),
      )

-- A mask of `k` low ones is the remainder by `2 ^ k`.
and_low : (k q r : ℕ) → r < 2 ^ k → bit_and (q * 2 ^ k + r) (2 ^ k - 1) ≡ r
and_low zero q r h = omega (arith, and-zero (q * 2 ^ 0 + r))
and_low (suc k) q r h = ground (
  arith,
  bit_and_step (q * 2 ^ suc k + r) (2 ^ suc k - 1),
  double q k,
  pow-suc 2 k,
  one-le-pow k 2 (omega arith),
  and_low k q (r / 2) (omega (arith, pow-suc 2 k)),
)

pub bit_and-mask : (k a : ℕ) → bit_and a (2 ^ k - 1) ≡ a % 2 ^ k
bit_and-mask k a = ground (arith, one-le-pow k 2 (omega arith), and_low k (a / 2 ^ k) (a % 2 ^ k))
