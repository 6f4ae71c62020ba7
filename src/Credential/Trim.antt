-- ===== src/Credential/Trim.antt =====
-- Spaces around a site make no difference (include/trtc_asr/credential.h).
use mathlib.Core.List.{map}
use trtc_asr_sdk_cpp.Common.{
  ◌≡◌, refl, ap, subst, true, Bool-cases, ◌||◌, inl, inr, [], ◌∷◌, ◌++◌, append-nil, Bytes, codes,
  is_empty, bytes_eq, All, ok,
}
use trtc_asr_sdk_cpp.Credential.{
  is_space, trim_front, trim_back, trim, host_of_name, host_for_site, to_lower,
}

abbrev pub IsSpaces : Bytes → Type 0
IsSpaces s = All (λ c. is_space c ≡ true) s

trim_front-spaces : (pre s : Bytes) → IsSpaces pre → trim_front (pre ++ s) ≡ trim_front s
unfolding trim_front
trim_front-spaces [] s h = refl
trim_front-spaces (c ∷ pre) s (h, hs) = rw h (trim_front-spaces pre s hs)

trim_back-spaces : (s post : Bytes) → IsSpaces post → trim_back (s ++ post) ≡ trim_back s
unfolding trim_back
trim_back-spaces [] [] h = refl
trim_back-spaces [] (c ∷ post) (h, hs) = rw (trim_back-spaces [] post hs, h)
trim_back-spaces (c ∷ s) post h = rw (trim_back-spaces s post h)

-- Spaces at either end are trimmed away.
pub trim-padded :
    (pre s post : Bytes) → IsSpaces pre → IsSpaces post → trim (pre ++ (s ++ post)) ≡ trim s
unfolding trim
trim-padded pre s post h h' = rw (trim_front-spaces pre (s ++ post) h) (behind s)
  where
    behind : (s : Bytes) → trim_back (trim_front (s ++ post)) ≡ trim_back (trim_front s)
    behind [] =
        ap trim_back
          (subst (λ w. trim_front w ≡ []) (append-nil post) (trim_front-spaces post [] h'))
    behind (c ∷ s) = elim (Bool-cases (is_space c)) [
      | inl space ↦ rw space (behind s)
      | inr solid ↦ rw solid (trim_back-spaces (c ∷ s) post h')
    ]

-- What the text of the failure names makes no difference to a host.
host_of_name-ok :
    (original original' site host : Bytes)
    → host_of_name original site ≡ ok host
    → host_of_name original' site ≡ ok host
unfolding host_of_name
host_of_name-ok original original' site host h =
    elim (Bool-cases (is_empty site || bytes_eq site (codes "cn"))) [
      | inl cn ↦ rw cn (rw cn at h)
      | inr other ↦ elim (Bool-cases (bytes_eq site (codes "intl"))) [
        | inl intl ↦ rw (other, intl) (rw (other, intl) at h)
        | inr unknown ↦ cc (rw (other, unknown) at h)
      ]
    ]

-- A site that has a host has the same host with spaces around it.
pub host_for_site-padded :
    (pre site post host : Bytes)
    → IsSpaces pre
    → IsSpaces post
    → host_for_site site ≡ ok host
    → host_for_site (pre ++ (site ++ post)) ≡ ok host
unfolding host_for_site
host_for_site-padded pre site post host h h' e =
    rw (trim-padded pre site post h h')
      (host_of_name-ok site (pre ++ (site ++ post)) (map to_lower (trim site)) host e)
