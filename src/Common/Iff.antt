-- ===== src/Common/Iff.antt =====
-- Equivalences, to read a chain of checks as a predicate.
use mathlib.Core.Path.{◌≡◌, refl}
use mathlib.Core.Logic.{◌↔◌, ◌⊎◌}
use mathlib.Core.Bool.{Bool, true, false, not, ◌||◌}
use native.Mathlib.Omega.{arith}

pub or_iff : (b c : Bool) → ((b || c) ≡ true) ↔ ((b ≡ true) ⊎ (c ≡ true))
or_iff b c = ground arith

pub not_iff {ℓ} : {P : Type ℓ} (b : Bool) → ((b ≡ true) ↔ P) → (not b ≡ false) ↔ P
not_iff true p = (λ h. p.0 refl, λ h. refl)
not_iff false p = (λ h. cc, λ h. cc (p.1 h))

pub iff_same : {P : Type 0} → P ↔ P
iff_same = (λ h. h, λ h. h)

-- A nested pair read as one of another shape.
pub regroup : {P Q R : Type 0} → (P × (Q × R)) ↔ ((P × Q) × R)
regroup = (λ h. ((h.0, h.1.0), h.1.1), λ h. (h.0.0, (h.0.1, h.1)))

pub iff_trans {ℓ κ μ} : {A : Type ℓ} {B : Type κ} {C : Type μ} → A ↔ B → B ↔ C → A ↔ C
iff_trans f g = (λ a. g.0 (f.0 a), λ c. f.1 (g.1 c))
