-- ===== src/Loops.antt =====
-- Loops that go on round by round, on a fuel of rounds, and the clock that ends them
-- (src/file_recognizer.cc, src/v3.cc).
use trtc_asr_sdk_cpp.Common.{
  arith, ◌≡◌, subst, ◌∙◌, ◌⊎◌, inl, inr, ℕ, zero, suc, ◌+◌, ◌≤◌, Option, some,
}

-- The rounds from n on, up to round m, go on.
pub data Runs (Goes : ℕ → Type 0) : ℕ → ℕ → Type 0 where
  none_yet : (n : ℕ) → Runs Goes n n
  then : (n m : ℕ) → Goes n → Runs Goes (suc n) m → Runs Goes n m

module _ {R : Type 0} (Goes : ℕ → Type 0) (Ends : ℕ → R → Type 0) (once : ℕ → Option R → Option R)
    (from : ℕ → ℕ → Option R)
    (round_of : (n : ℕ) (rest : Option R)
      → (Goes n × (once n rest ≡ rest)) ⊎ ((r : R) × Ends n r × (once n rest ≡ some r)))
    (step : (fuel n : ℕ) → from (suc fuel) n ≡ once n (from fuel (suc n))) where
  -- A loop whose round `last` does not go on has ended by then.
  pub loop_ends :
      (fuel n last : ℕ)
      → fuel + n ≡ last
      → ¬ Goes last
      → (m : ℕ) × (r : R) × (m ≤ last) × Runs Goes n m × Ends m r × (from (suc fuel) n ≡ some r)
  loop_ends zero n last e over = elim (round_of n (from zero (suc n))) [
    | inr (r, ends, run) ↦ (n, r, omega (arith, e), none_yet n, ends, step zero n ∙ run)
    | inl (goes, run) ↦
        let same : n ≡ last = omega (arith, e) in absurd (over (subst Goes same goes))
  ]
  loop_ends (suc fuel) n last e over = elim (round_of n (from (suc fuel) (suc n))) [
    | inr (r, ends, run) ↦ (n, r, omega (arith, e), none_yet n, ends, step (suc fuel) n ∙ run)
    | inl (goes, run) ↦
        let (m, r, le, runs, ends, tail) = loop_ends fuel (suc n) last (omega (arith, e)) over in
        (m, r, le, then n m goes runs, ends, step (suc fuel) n ∙ (run ∙ tail))
  ]

-- A clock that gains the interval in each round.
pub ticks :
    (start interval : ℕ) (clock : ℕ → ℕ)
    → 1 ≤ interval
    → start ≤ clock 0
    → ((i : ℕ) → clock i + interval ≤ clock (suc i))
    → (i : ℕ) → start + i ≤ clock i
ticks start interval clock one first step zero = omega (arith, first)
ticks start interval clock one first step (suc i) =
    let ih = ticks start interval clock one first step i in omega (arith, one, ih, step i)
