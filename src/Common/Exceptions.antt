-- ===== src/Common/Exceptions.antt =====
-- What a call of the SDK gives: a value, or an exception that it throws (include/trtc_asr/errors.h).
use mathlib.Core.Path.{◌≡◌, refl}
use mathlib.Core.Logic.{◌↔◌}
use mathlib.Core.Logic.{◌⊎◌, inl, inr}
use mathlib.Core.Bool.{Bool, true, false}
use mathlib.Core.List.{◌++◌}
use trtc_asr_sdk_cpp.Common.Int.{ℤ, pos}
use trtc_asr_sdk_cpp.Common.Text.{Bytes, codes, to_string}

-- `ASRError` carries a code and a message. Any other `std::exception` has its `what()` alone.
pub data Exception : Type 0 where
  asr_error : ℤ → Bytes → Exception
  std_exception : Bytes → Exception

unfoldable pub what : Exception → Bytes
what (asr_error code message) =
    codes "trtc-asr error [" ++ (to_string code ++ (codes "]: " ++ message))
what (std_exception text) = text

abbrev pub err_invalid_param : ℤ
err_invalid_param = pos 1001

abbrev pub err_connect_failed : ℤ
err_connect_failed = pos 1002

abbrev pub err_write_failed : ℤ
err_write_failed = pos 1003

abbrev pub err_read_failed : ℤ
err_read_failed = pos 1004

abbrev pub err_auth_failed : ℤ
err_auth_failed = pos 1005

abbrev pub err_timeout : ℤ
err_timeout = pos 1006

abbrev pub err_server_error : ℤ
err_server_error = pos 1007

abbrev pub err_already_started : ℤ
err_already_started = pos 1008

abbrev pub err_not_started : ℤ
err_not_started = pos 1009

abbrev pub err_already_stopped : ℤ
err_already_stopped = pos 1010

pub data Result {ℓ} (A : Type ℓ) : Type ℓ where
  ok : A → Result A
  throw : Exception → Result A

infixl 5 ◌>>=◌ ◌>>◌
abbrev pub ◌>>=◌ {ℓ κ} : {A : Type ℓ} {B : Type κ} → Result A → (A → Result B) → Result B
ok a >>= f = f a
throw e >>= f = throw e

abbrev pub ◌>>◌ {ℓ} : {B : Type ℓ} → Result (Unit {0}) → Result B → Result B
m >> k = m >>= λ _. k

-- `if (cond) { throw ASRError(code, message); }`
abbrev pub throw_if : Bool → ℤ → Bytes → Result (Unit {0})
throw_if true code message = throw (asr_error code message)
throw_if false code message = ok tt

-- Two checks in a row pass exactly if both do, and a check passes exactly if its test fails.
pub >>-ok :
    (m : Result (Unit {0})) (rest : Result (Unit {0}))
    → ((m >> rest) ≡ ok tt) ↔ ((m ≡ ok tt) × (rest ≡ ok tt))
>>-ok (ok tt) rest = (λ h. (refl, h), λ h. h.1)
>>-ok (throw e) rest = (λ h. cc, λ h. cc)

pub throw_if-ok :
    (c : Bool) (code : ℤ) (message : Bytes) → (throw_if c code message ≡ ok tt) ↔ (c ≡ false)
throw_if-ok true code message = (λ h. cc, λ h. cc)
throw_if-ok false code message = (λ h. refl, λ h. refl)

-- A check whose test fails exactly under P, and the checks behind it, which pass exactly under Q.
pub then_checks {ℓ κ} :
    {P : Type ℓ} {Q : Type κ} (c : Bool) (code : ℤ) (message : Bytes) (rest : Result (Unit {0}))
    → ((c ≡ false) ↔ P)
    → ((rest ≡ ok tt) ↔ Q)
    → ((throw_if c code message >> rest) ≡ ok tt) ↔ (P × Q)
then_checks true code message rest p q = (λ h. cc, λ h. cc (p.1 h.0))
then_checks false code message rest p q = (λ h. (p.0 refl, q.0 h), λ h. q.1 h.1)

-- The same behind a check that is a call.
pub then_both {ℓ κ} :
    {P : Type ℓ} {Q : Type κ} (m : Result (Unit {0})) (rest : Result (Unit {0}))
    → ((m ≡ ok tt) ↔ P)
    → ((rest ≡ ok tt) ↔ Q)
    → ((m >> rest) ≡ ok tt) ↔ (P × Q)
then_both (ok tt) rest p q = (λ h. (p.0 refl, q.0 h), λ h. q.1 h.1)
then_both (throw e) rest p q = (λ h. cc, λ h. cc (p.1 h.0))

pub Result-cases {ℓ} :
    {A : Type ℓ} (r : Result A) → ((a : A) × (r ≡ ok a)) ⊎ ((e : Exception) × (r ≡ throw e))
Result-cases (ok a) = inl (a, refl)
Result-cases (throw e) = inr (e, refl)
