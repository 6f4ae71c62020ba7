-- ===== src/Params/Url.antt =====
-- What ValidateEnrollmentURL (src/params.cc) accepts.
use trtc_asr_sdk_cpp.Common.{
  ℕ, zero, suc, ◌+◌, ◌≡◌, ◌≢◌, ◌↔◌, ◌⊎◌, inl, inr, refl, ap, subst, arith, Bool, true, false, not,
  ◌&&◌, Option, none, some, Option-cases, Bool-cases, List, [], ◌∷◌, ◌++◌, Bytes, codes, is_empty,
  bytes_eq, bytes_eq_iff, ◌==◌, take, drop, any, All, ok, length,
}
use trtc_asr_sdk_cpp.Params.{
  is_blank, is_control, ends_authority, starts_with, find, authority_of, check_scheme, check_found,
  validate_enrollment_url,
}

pub any-false {ℓ} :
    {A : Type ℓ} (p : A → Bool) (xs : List A) → (any p xs ≡ false) ↔ All (λ x. p x ≡ false) xs
any-false p [] = (λ h. tt, λ h. refl)
any-false p (x ∷ xs) = ground (arith, any-false p xs)

-- A character that a URL may hold.
abbrev pub IsUrlChar : ℕ → Type 0
IsUrlChar c = (is_control c ≡ false) × (c ≢ 0x20)

-- An absolute http or https URL with a host.
pub record IsHttpUrl (url : Bytes) : Type 0 where
  pub scheme : Bytes
  pub host : ℕ
  pub tail : Bytes
  pub is_http : (scheme ≡ codes "http") ⊎ (scheme ≡ codes "https")
  pub has_host : ends_authority host ≡ false
  pub is_split : url ≡ scheme ++ (codes "://" ++ (host ∷ tail))
  pub is_printable : All IsUrlChar url

starts_with-split : (p s : Bytes) → starts_with p s ≡ true → s ≡ p ++ drop (length p) s
starts_with-split [] s h = refl
starts_with-split (x ∷ p) [] h = cc
starts_with-split (x ∷ p) (c ∷ s) h = ground (arith, starts_with-split p s)

find-split :
    (p s : Bytes) (n : ℕ) → find p s ≡ some n → s ≡ take n s ++ (p ++ drop (n + length p) s)
unfolding find
find-split [] [] zero h = refl
find-split [] [] (suc n) h = cc
find-split (x ∷ p) [] n h = cc
find-split p (c ∷ s) n h = elim (Bool-cases (starts_with p (c ∷ s))) [
  | inl here ↦
      let e : n ≡ 0 = ground (arith, rw here at h) in
      let z : 0 + length p ≡ length p = omega arith in rw (e, z) (starts_with-split p (c ∷ s) here)
  | inr other ↦ elim (Option-cases (find p s)) [
    | inl gone ↦ cc (rw (other, gone) at h)
    | inr (m, e) ↦
        let n_eq : n ≡ suc m = ground (arith, rw (other, e) at h) in
        let z : suc m + length p ≡ suc (m + length p) = omega arith in
        rw (n_eq, z) (ap (◌∷◌ c) (find-split p s m e))
  ]
]

authority-host :
    (rest : Bytes)
    → is_empty (authority_of rest) ≡ false
    → (c : ℕ) × (tail : Bytes) × (rest ≡ c ∷ tail) × (ends_authority c ≡ false)
authority-host [] h = cc
authority-host (c ∷ tail) h = elim (Bool-cases (ends_authority c)) [
  | inl stops ↦ cc (rw stops at h)
  | inr other ↦ (c, tail, refl, other)
]

url_chars :
    (url : Bytes)
    → All (λ c. is_control c ≡ false) url
    → All (λ c. (c == 0x20) ≡ false) url
    → All IsUrlChar url
url_chars [] h h' = tt
url_chars (c ∷ url) (h, hs) (h', hs') = ((h, ground arith), url_chars url hs hs')

is_http_text :
    (scheme : Bytes)
    → (not (bytes_eq scheme (codes "http")) && not (bytes_eq scheme (codes "https"))) ≡ false
    → (scheme ≡ codes "http") ⊎ (scheme ≡ codes "https")
is_http_text scheme h =
    ground (arith, bytes_eq_iff scheme (codes "http"), bytes_eq_iff scheme (codes "https"))

module _ (i : ℕ) where
  scheme_checked :
      (scheme rest : Bytes)
      → check_scheme i scheme rest ≡ ok tt
      → ((scheme ≡ codes "http") ⊎ (scheme ≡ codes "https"))
        × (is_empty (authority_of rest) ≡ false)
  unfolding check_scheme
  scheme_checked scheme rest h =
      let c : Bool =
        not (bytes_eq scheme (codes "http")) && not (bytes_eq scheme (codes "https")) in
      elim (Bool-cases c) [
        | inl bad ↦ cc (rw bad at h)
        | inr fine ↦ elim (Bool-cases (is_empty (authority_of rest))) [
          | inl bare ↦ cc (rw (fine, bare) at h)
          | inr host ↦ (is_http_text scheme fine, host)
        ]
      ]

  found_checked :
      (url : Bytes) (o : Option ℕ)
      → check_found i url o ≡ ok tt
      → (n : ℕ) × (o ≡ some n) × (check_scheme i (take n url) (drop (n + 3) url) ≡ ok tt)
  unfolding check_found
  found_checked url none h = cc
  found_checked url (some n) h = elim (Bool-cases (n == 0)) [
    | inl first ↦ cc (rw first at h)
    | inr later ↦ (n, refl, rw later at h)
  ]

  chars_checked :
      (url : Bytes)
      → validate_enrollment_url i url ≡ ok tt
      → All IsUrlChar url × (check_found i url (find (codes "://") url) ≡ ok tt)
  unfolding validate_enrollment_url
  chars_checked url h = elim (Bool-cases (any (λ c. not (is_blank c)) url)) [
    | inr blank ↦ cc (rw blank at h)
    | inl solid ↦ elim (Bool-cases (any is_control url)) [
      | inl bad ↦ cc (rw (solid, bad) at h)
      | inr plain ↦ elim (Bool-cases (any (λ c. c == 0x20) url)) [
        | inl bad ↦ cc (rw (solid, plain, bad) at h)
        | inr dense ↦ (
          url_chars url ((any-false is_control url).0 plain)
              ((any-false (λ c. c == 0x20) url).0 dense),
          rw (solid, plain, dense) at h,
        )
      ]
    ]
  ]

  accepted_is_http : (url : Bytes) → validate_enrollment_url i url ≡ ok tt → IsHttpUrl url
  accepted_is_http url h =
      let (chars, h1) = chars_checked url h in
      let (n, found, h2) = found_checked url (find (codes "://") url) h1 in
      let (http, h3) = scheme_checked (take n url) (drop (n + 3) url) h2 in
      let (c, tail, e, host) = authority-host (drop (n + 3) url) h3 in
      record {
        scheme = take n url;
        host = c;
        tail = tail;
        is_http = http;
        has_host = host;
        is_split = rw (← e) (find-split (codes "://") url n found);
        is_printable = chars;
      }

  authority_found :
      (c : ℕ) (tail : Bytes) → ends_authority c ≡ false → is_empty (authority_of (c ∷ tail)) ≡ false
  authority_found c tail h = rw h

  -- Of a character of a URL, each test of the loops fails.
  chars_pass :
      (url : Bytes)
      → All IsUrlChar url
      → (any is_control url ≡ false) × (any (λ c. c == 0x20) url ≡ false)
  chars_pass [] h = (refl, refl)
  chars_pass (c ∷ url) ((plain, dense), hs) =
      let (e, e') = chars_pass url hs in
      let d : (c == 0x20) ≡ false = ground arith in (rw (plain, e), rw (d, e'))

  http_is_accepted_by :
      (scheme : Bytes) (host : ℕ) (tail : Bytes)
      → (scheme ≡ codes "http") ⊎ (scheme ≡ codes "https")
      → ends_authority host ≡ false
      → All IsUrlChar (scheme ++ (codes "://" ++ (host ∷ tail)))
      → validate_enrollment_url i (scheme ++ (codes "://" ++ (host ∷ tail))) ≡ ok tt
  unfolding validate_enrollment_url check_found find check_scheme bytes_eq
  http_is_accepted_by scheme host tail (inl e) h chars =
      let url : Bytes = codes "http" ++ (codes "://" ++ (host ∷ tail)) in
      let (plain, dense) =
        chars_pass url (subst (λ s. All IsUrlChar (s ++ (codes "://" ++ (host ∷ tail)))) e chars) in
      rw e (rw (plain, dense) (rw (authority_found host tail h)))
  http_is_accepted_by scheme host tail (inr e) h chars =
      let url : Bytes = codes "https" ++ (codes "://" ++ (host ∷ tail)) in
      let (plain, dense) =
        chars_pass url (subst (λ s. All IsUrlChar (s ++ (codes "://" ++ (host ∷ tail)))) e chars) in
      rw e (rw (plain, dense) (rw (authority_found host tail h)))

  -- ValidateEnrollmentURL passes exactly the absolute http and https URLs with a host, whose characters
  -- are neither control characters nor spaces.
  pub validate_enrollment_url-IsHttpUrl :
      (url : Bytes) → (validate_enrollment_url i url ≡ ok tt) ↔ IsHttpUrl url
  validate_enrollment_url-IsHttpUrl url = (
    accepted_is_http url,
    λ u. rw u.is_split (
        http_is_accepted_by u.scheme u.host u.tail u.is_http u.has_host
          (subst (All IsUrlChar) u.is_split u.is_printable)),
  )
