-- ===== src/Params/Diarization.antt =====
-- What ValidateSpeakerDiarization and ValidateEnumOption (src/params.cc) accept.
use trtc_asr_sdk_cpp.Common.{
  ℕ, suc, ◌≡◌, ◌≢◌, ◌↔◌, ◌⊎◌, inl, inr, refl, arith, Bool, true, false, not, ◌&&◌, ◌||◌, Bool-cases,
  List, [], ◌∷◌, ℤ, pos, Bytes, is_empty, ◌==ℤ◌, ==ℤ_iff, ◌≤ℤ◌, >>-ok, ltb_ℤ, any, All, ok,
}
use trtc_asr_sdk_cpp.Params.Url.{IsHttpUrl, validate_enrollment_url-IsHttpUrl}
use trtc_asr_sdk_cpp.Params.{
  SpeakerRole, validate_enrollment_url, validate_roles, validate_voiceprint_ids,
  validate_speaker_diarization, validate_enum_option, speaker_diarization_voiceprint,
}

abbrev pub IsNonEmpty : Bytes → Type 0
IsNonEmpty s = is_empty s ≡ false

abbrev pub IsRole : SpeakerRole → Type 0
IsRole role = IsNonEmpty role.role_name × IsHttpUrl role.audio_url

validate_roles-All :
    (i : ℕ) (roles : List SpeakerRole) → (validate_roles i roles ≡ ok tt) ↔ All IsRole roles
unfolding validate_roles
validate_roles-All i [] = (λ h. tt, λ h. refl)
validate_roles-All i (role ∷ roles) = elim (Bool-cases (is_empty role.role_name)) [
  | inl unnamed ↦ rw unnamed (λ h. cc, λ h. cc)
  | inr named ↦
      let url = validate_enrollment_url-IsHttpUrl i role.audio_url in
      let both = >>-ok (validate_enrollment_url i role.audio_url) (validate_roles (suc i) roles) in
      let others = validate_roles-All (suc i) roles in
      rw named (
        λ h. ((refl, url.0 (both.0 h).0), others.0 (both.0 h).1),
        λ h. both.1 (url.1 h.0.1, others.1 h.1),
      )
]

validate_voiceprint_ids-All :
    (i : ℕ) (ids : List Bytes) → (validate_voiceprint_ids i ids ≡ ok tt) ↔ All IsNonEmpty ids
unfolding validate_voiceprint_ids
validate_voiceprint_ids-All i [] = (λ h. tt, λ h. refl)
validate_voiceprint_ids-All i (id ∷ ids) = elim (Bool-cases (is_empty id)) [
  | inl bare ↦ rw bare (λ h. cc, λ h. cc)
  | inr named ↦
      let others = validate_voiceprint_ids-All (suc i) ids in
      rw named (λ h. (refl, others.0 h), λ h. others.1 h.1)
]

-- A value in a list of integers.
abbrev pub IsOneOf : ℤ → List ℤ → Type 0
IsOneOf value [] = ⊥
IsOneOf value (c ∷ allowed) = (value ≡ c) ⊎ IsOneOf value allowed

pub any-IsOneOf :
    (value : ℤ) (allowed : List ℤ)
    → (any (λ candidate. value ==ℤ candidate) allowed ≡ true) ↔ IsOneOf value allowed
any-IsOneOf value [] = (λ h. cc, λ h. absurd h)
any-IsOneOf value (c ∷ allowed) = ground (arith, ==ℤ_iff value c, any-IsOneOf value allowed)

-- ValidateEnumOption passes exactly the listed values.
pub validate_enum_option-IsOneOf :
    (name : Bytes) (value : ℤ) (allowed : List ℤ)
    → (validate_enum_option name value allowed ≡ ok tt) ↔ IsOneOf value allowed
unfolding validate_enum_option
validate_enum_option-IsOneOf name value allowed =
    let e = any-IsOneOf value allowed in
    elim (Bool-cases (any (λ candidate. value ==ℤ candidate) allowed)) [
      | inl listed ↦ rw listed (λ h. e.0 listed, λ h. refl)
      | inr gone ↦ rw gone (λ h. cc, λ h. cc (e.1 h, gone))
    ]

-- The options of speaker diarization that make sense together.
pub record IsDiarization (mode speaker_number : ℤ) (roles : List SpeakerRole) (ids : List Bytes)
    : Type 0 where
  pub is_mode : IsOneOf mode (pos 0 ∷ pos 1 ∷ pos 3 ∷ [])
  pub is_count : pos 0 ≤ℤ speaker_number
  pub needs_voiceprint :
      mode ≢ speaker_diarization_voiceprint → (is_empty roles ≡ true) × (is_empty ids ≡ true)
  pub are_roles : All IsRole roles
  pub are_ids : All IsNonEmpty ids

mode_check : ℤ → Bool
mode_check mode = not (mode ==ℤ pos 0) && (not (mode ==ℤ pos 1) && not (mode ==ℤ pos 3))

mode_check-IsOneOf :
    (mode : ℤ) → (mode_check mode ≡ false) ↔ IsOneOf mode (pos 0 ∷ pos 1 ∷ pos 3 ∷ [])
unfolding mode_check
mode_check-IsOneOf mode =
    ground (arith, ==ℤ_iff mode (pos 0), ==ℤ_iff mode (pos 1), ==ℤ_iff mode (pos 3))

list_check : ℤ → List SpeakerRole → List Bytes → Bool
list_check mode roles ids = not (mode ==ℤ pos 3) && (not (is_empty roles) || not (is_empty ids))

list_check_iff :
    (mode : ℤ) (roles : List SpeakerRole) (ids : List Bytes)
    → (list_check mode roles ids ≡ false)
      ↔ (mode ≢ speaker_diarization_voiceprint → (is_empty roles ≡ true) × (is_empty ids ≡ true))
unfolding list_check
list_check_iff mode roles ids = ground (arith, ==ℤ_iff mode (pos 3))

-- ValidateSpeakerDiarization passes exactly the consistent options: a known mode, no negative count,
-- roles and voiceprints only in voiceprint mode, each role with a name and a valid URL, no empty id.
pub validate_speaker_diarization-IsDiarization :
    (mode speaker_number : ℤ) (roles : List SpeakerRole) (ids : List Bytes)
    → (validate_speaker_diarization mode speaker_number roles ids ≡ ok tt)
      ↔ IsDiarization mode speaker_number roles ids
unfolding validate_speaker_diarization mode_check list_check
validate_speaker_diarization-IsDiarization mode speaker_number roles ids =
    let m = mode_check-IsOneOf mode in
    let l = list_check_iff mode roles ids in
    let r = validate_roles-All 0 roles in
    let v = validate_voiceprint_ids-All 0 ids in
    let both = >>-ok (validate_roles 0 roles) (validate_voiceprint_ids 0 ids) in
    (
      λ h. elim (Bool-cases (mode_check mode)) [
        | inl bad ↦ cc (rw bad at h)
        | inr mode_fine ↦ elim (Bool-cases (ltb_ℤ speaker_number (pos 0))) [
          | inl bad ↦ cc (rw (mode_fine, bad) at h)
          | inr count_fine ↦ elim (Bool-cases (list_check mode roles ids)) [
            | inl bad ↦ cc (rw (mode_fine, count_fine, bad) at h)
            | inr lists_fine ↦
                let rest = both.0 (rw (mode_fine, count_fine, lists_fine) at h) in
                record {
                  is_mode = m.0 mode_fine;
                  is_count = ground (arith, count_fine);
                  needs_voiceprint = l.0 lists_fine;
                  are_roles = r.0 rest.0;
                  are_ids = v.0 rest.1;
                }
          ]
        ]
      ],
      λ d.
          let count_fine : ltb_ℤ speaker_number (pos 0) ≡ false = ground (arith, d.is_count) in
          rw (m.1 d.is_mode, count_fine, l.1 d.needs_voiceprint)
            (both.1 (r.1 d.are_roles, v.1 d.are_ids)),
    )
