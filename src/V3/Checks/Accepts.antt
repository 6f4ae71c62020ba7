-- ===== src/V3/Checks/Accepts.antt =====
-- What the version 3 validators accept (src/v3.cc).
use trtc_asr_sdk_cpp.Common.{
  ℕ, suc, ◌≡◌, ◌≢◌, ◌↔◌, ◌⊎◌, inl, inr, refl, arith, true, false, not, ◌&&◌, ◌||◌, Bool-cases,
  Option, none, some, List, [], ◌∷◌, ℤ, pos, Bytes, codes, is_empty, ltb_ℤ, ◌==ℤ◌, ==ℤ_iff, ◌≤ℤ◌,
  any, All, ok, throw_if-ok, then_checks, then_both, or_iff, not_iff, iff_same, regroup, iff_trans,
}
use trtc_asr_sdk_cpp.Params.Doubles.{Double, finite, infinite, nan, in_range}
use trtc_asr_sdk_cpp.Params.{find, starts_with}
use trtc_asr_sdk_cpp.Params.Diarization.{IsOneOf, any-IsOneOf, IsNonEmpty}
use trtc_asr_sdk_cpp.V3.{SpeakerRole, speaker_diarization_voiceprint}
use trtc_asr_sdk_cpp.V3.Checks.{
  validate_enum_option, check_vad_level, check_noise_threshold, validate_vad_tuning,
  validate_speaker_context, is_http, is_at_front, check_roles, check_voiceprint_ids,
  validate_speaker_diarization,
}

-- A text that starts with either scheme.
abbrev pub IsHttp : Bytes → Type 0
IsHttp url =
    (starts_with (codes "http://") url ≡ true) ⊎ (starts_with (codes "https://") url ≡ true)

front-later : (o : Option ℕ) → is_at_front (elim o [ none ↦ none | some n ↦ some (suc n) ]) ≡ false
front-later none = refl
front-later (some n) = ground arith

front-find :
    (p : ℕ) (pattern s : Bytes) → is_at_front (find (p ∷ pattern) s) ≡ starts_with (p ∷ pattern) s
unfolding find
front-find p pattern [] = refl
front-find p pattern (c ∷ s) = elim (Bool-cases (starts_with (p ∷ pattern) (c ∷ s))) [
  | inl found ↦ rw found refl
  | inr other ↦ rw other (front-later (find (p ∷ pattern) s))
]

pub is_http-IsHttp : (url : Bytes) → (is_http url ≡ true) ↔ IsHttp url
unfolding is_http
is_http-IsHttp url =
    let plain = front-find b'h' (codes "ttp://") url in
    let secure = front-find b'h' (codes "ttps://") url in
    rw (plain, secure)
      (or_iff (starts_with (codes "http://") url) (starts_with (codes "https://") url))

pub enum_option-IsOneOf :
    (name : Bytes) (value : ℤ) (allowed : List ℤ)
    → (validate_enum_option name value allowed ≡ ok tt) ↔ IsOneOf value allowed
unfolding validate_enum_option
enum_option-IsOneOf name value allowed =
    let e = any-IsOneOf value allowed in
    elim (Bool-cases (any (λ candidate. value ==ℤ candidate) allowed)) [
      | inl listed ↦ rw listed (λ h. e.0 listed, λ h. refl)
      | inr gone ↦ rw gone (λ h. cc, λ h. cc (e.1 h, gone))
    ]

abbrev pub IsRole : SpeakerRole → Type 0
IsRole role = IsNonEmpty role.role_name × IsHttp role.audio_url

check_roles-All :
    (i : ℕ) (roles : List SpeakerRole) → (check_roles i roles ≡ ok tt) ↔ All IsRole roles
unfolding check_roles
check_roles-All i [] = (λ h. tt, λ h. refl)
check_roles-All i (role ∷ roles) =
    iff_trans
      (then_checks (is_empty role.role_name) _ _ _ iff_same (
        then_checks (not (is_http role.audio_url)) _ _ _
          (not_iff (is_http role.audio_url) (is_http-IsHttp role.audio_url))
          (check_roles-All (suc i) roles)))
      regroup

check_ids-All :
    (i : ℕ) (ids : List Bytes) → (check_voiceprint_ids i ids ≡ ok tt) ↔ All IsNonEmpty ids
unfolding check_voiceprint_ids
check_ids-All i [] = (λ h. tt, λ h. refl)
check_ids-All i (id ∷ ids) = then_checks (is_empty id) _ _ _ iff_same (check_ids-All (suc i) ids)

-- The options of speaker diarization that make sense together.
pub record IsDiarization (mode speaker_number : ℤ) (roles : List SpeakerRole) (ids : List Bytes)
    : Type 0 where
  pub is_mode : IsOneOf mode (pos 0 ∷ pos 1 ∷ pos 3 ∷ [])
  pub is_count : pos 0 ≤ℤ speaker_number
  pub needs_voiceprint :
      mode ≢ speaker_diarization_voiceprint → (is_empty roles ≡ true) × (is_empty ids ≡ true)
  pub are_roles : All IsRole roles
  pub are_ids : All IsNonEmpty ids

pub not_negative : (n : ℤ) → (ltb_ℤ n (pos 0) ≡ false) ↔ (pos 0 ≤ℤ n)
not_negative n = ground arith

pub validate_speaker_diarization_lem :
    (mode speaker_number : ℤ) (roles : List SpeakerRole) (ids : List Bytes)
    → (validate_speaker_diarization mode speaker_number roles ids ≡ ok tt)
      ↔ IsDiarization mode speaker_number roles ids
unfolding validate_speaker_diarization
validate_speaker_diarization_lem mode speaker_number roles ids =
    iff_trans
      (then_checks (not (mode ==ℤ pos 0) && (not (mode ==ℤ pos 1) && not (mode ==ℤ pos 3))) _ _ _
        (ground (arith, ==ℤ_iff mode (pos 0), ==ℤ_iff mode (pos 1), ==ℤ_iff mode (pos 3)))
        (then_checks (ltb_ℤ speaker_number (pos 0)) _ _ _ (not_negative speaker_number) (
          then_checks (not (mode ==ℤ pos 3) && (not (is_empty roles) || not (is_empty ids))) _ _ _
            (ground (arith, ==ℤ_iff mode (pos 3)))
            (then_both (check_roles 0 roles) (check_voiceprint_ids 0 ids) (check_roles-All 0 roles)
              (check_ids-All 0 ids)))))
      (
        λ (a, (b, (c, (d, e)))). record {
          is_mode = a;
          is_count = b;
          needs_voiceprint = c;
          are_roles = d;
          are_ids = e;
        },
        λ d. (d.is_mode, (d.is_count, (d.needs_voiceprint, (d.are_roles, d.are_ids)))),
      )

-- The speaker context is off, or it has a known mode and diarization is on.
abbrev pub IsContext : ℤ → ℤ → Type 0
IsContext mode diarization =
    IsOneOf mode (pos 0 ∷ pos 1 ∷ pos 2 ∷ []) × (mode ≢ pos 0 → diarization ≢ pos 0)

pub validate_speaker_context-IsContext :
    (mode diarization : ℤ)
    → (validate_speaker_context mode diarization ≡ ok tt) ↔ IsContext mode diarization
unfolding validate_speaker_context
validate_speaker_context-IsContext mode diarization =
    then_checks (not (mode ==ℤ pos 0) && (not (mode ==ℤ pos 1) && not (mode ==ℤ pos 2))) _ _ _
      (ground (arith, ==ℤ_iff mode (pos 0), ==ℤ_iff mode (pos 1), ==ℤ_iff mode (pos 2)))
      (iff_trans (throw_if-ok (not (mode ==ℤ pos 0) && (diarization ==ℤ pos 0)) _ _)
        (ground (arith, ==ℤ_iff mode (pos 0), ==ℤ_iff diarization (pos 0))))

-- A value that was given has the property.
abbrev pub IfGiven {ℓ κ} : {A : Type ℓ} → (A → Type κ) → Option A → Type κ
IfGiven P none = Unit
IfGiven P (some a) = P a

-- A number from 0 to 4.
abbrev pub IsThreshold : Double → Type 0
IsThreshold v = in_range 4 v ≡ true

module _ (format_f : Double → Bytes) where
  vad_level-IfGiven :
      (level : Option ℤ)
      → (check_vad_level format_f level ≡ ok tt)
        ↔ IfGiven (λ n. IsOneOf n (pos 0 ∷ pos 1 ∷ [])) level
  unfolding check_vad_level
  vad_level-IfGiven none = (λ h. tt, λ h. refl)
  vad_level-IfGiven (some n) =
      iff_trans (throw_if-ok (not (n ==ℤ pos 0) && not (n ==ℤ pos 1)) _ _)
        (ground (arith, ==ℤ_iff n (pos 0), ==ℤ_iff n (pos 1)))

  check_noise_threshold-IfGiven :
      (v : Option Double) → (check_noise_threshold format_f v ≡ ok tt) ↔ IfGiven IsThreshold v
  unfolding check_noise_threshold in_range
  check_noise_threshold-IfGiven none = (λ h. tt, λ h. refl)
  check_noise_threshold-IfGiven (some (finite negative n k)) =
      iff_trans (throw_if-ok (not (in_range 4 (finite negative n k))) _ _)
        (not_iff (in_range 4 (finite negative n k)) iff_same)
  check_noise_threshold-IfGiven (some (infinite negative)) = (λ h. cc, λ h. cc)
  check_noise_threshold-IfGiven (some nan) = (λ h. cc, λ h. cc)

  abbrev pub IsTuning : Option ℤ → Option Double → Type 0
  IsTuning level v = IfGiven (λ n. IsOneOf n (pos 0 ∷ pos 1 ∷ [])) level × IfGiven IsThreshold v

  pub validate_vad_tuning-IsTuning :
      (level : Option ℤ) (v : Option Double)
      → (validate_vad_tuning format_f level v ≡ ok tt) ↔ IsTuning level v
  unfolding validate_vad_tuning
  validate_vad_tuning-IsTuning level v =
      then_both (check_vad_level format_f level) (check_noise_threshold format_f v)
        (vad_level-IfGiven level) (check_noise_threshold-IfGiven v)
