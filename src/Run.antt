-- ===== src/Run.antt =====
-- What a call comes to: a value, an exception, or a write through a null pointer (src/v3.cc, src/http_client.cc).
use trtc_asr_sdk_cpp.Common.{Result, ok, throw, Exception}

pub data Run {ℓ} (A : Type ℓ) : Type ℓ where
  gives : A → Run A
  raises : Exception → Run A
  crashes : Run A

infixl 5 ◌>>=◌ ◌>>◌
abbrev pub ◌>>=◌ {ℓ κ} : {A : Type ℓ} {B : Type κ} → Run A → (A → Run B) → Run B
gives a >>= f = f a
raises e >>= f = raises e
crashes >>= f = crashes

abbrev pub ◌>>◌ {ℓ} : {B : Type ℓ} → Run (Unit {0}) → Run B → Run B
m >> k = m >>= λ _. k

abbrev pub lift {ℓ} : {A : Type ℓ} → Result A → Run A
lift (ok a) = gives a
lift (throw e) = raises e
