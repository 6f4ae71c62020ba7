-- ===== src/V3/Checks/Pieces.antt =====
-- What ValidateAudioURLs accepts (src/v3.cc).
use trtc_asr_sdk_cpp.Common.{
  ℕ, suc, ◌≡◌, ◌≢◌, ◌↔◌, refl, arith, true, false, not, ◌||◌, List, [], ◌∷◌, ◌++◌, ℤ, pos, Bytes,
  is_empty, ltb_ℤ, ◌==ℤ◌, ==ℤ_iff, ◌≤ℤ◌, any, All, ok, then_checks, not_iff, iff_trans,
}
use trtc_asr_sdk_cpp.V3.{AudioUrlItem, source_type_url}
use trtc_asr_sdk_cpp.V3.Checks.{is_http, check_audio_urls, validate_audio_urls}
use trtc_asr_sdk_cpp.V3.Checks.Accepts.{IsHttp, is_http-IsHttp, not_negative}

-- One piece of a recording: an index that is not negative and a URL.
abbrev pub IsPiece : AudioUrlItem → Type 0
IsPiece item = (pos 0 ≤ℤ item.index) × IsHttp item.url

-- An index that no item of the list has.
abbrev pub IsFresh : ℤ → List AudioUrlItem → Type 0
IsFresh n items = All (λ (item : AudioUrlItem). n ≢ item.index) items

abbrev pub AreDistinct : List AudioUrlItem → Type 0
AreDistinct [] = Unit
AreDistinct (item ∷ items) = IsFresh item.index items × AreDistinct items

-- No index of the items is among those seen.
abbrev AreNew : List ℤ → List AudioUrlItem → Type 0
AreNew seen items = All (λ (item : AudioUrlItem). All (λ n. n ≢ item.index) seen) items

any-All : (seen : List ℤ) (n : ℤ) → (any (λ prev. prev ==ℤ n) seen ≡ false) ↔ All (λ m. m ≢ n) seen
any-All [] n = (λ h. tt, λ h. refl)
any-All (m ∷ seen) n = ground (arith, ==ℤ_iff m n, any-All seen n)

All-snoc {ℓ} :
    {A : Type ℓ} (P : A → Type 0) (xs : List A) (x : A) → All P (xs ++ (x ∷ [])) ↔ (All P xs × P x)
All-snoc P [] x = (λ h. (tt, h.0), λ h. (h.1, tt))
All-snoc P (y ∷ xs) x =
    let ih = All-snoc P xs x in
    (λ h. ((h.0, (ih.0 h.1).0), (ih.0 h.1).1), λ h. (h.0.0, ih.1 (h.0.1, h.1)))

-- What is new behind one more index is new before it, and has another index.
AreNew-append :
    (seen : List ℤ) (n : ℤ) (items : List AudioUrlItem)
    → AreNew (seen ++ (n ∷ [])) items ↔ (AreNew seen items × IsFresh n items)
AreNew-append seen n [] = (λ h. (tt, tt), λ h. tt)
AreNew-append seen n (item ∷ items) =
    let ih = AreNew-append seen n items in
    let one = All-snoc (λ (m : ℤ). m ≢ item.index) seen n in
    (
      λ h. (((one.0 h.0).0, (ih.0 h.1).0), ((one.0 h.0).1, (ih.0 h.1).1)),
      λ ((a, b), (c, d)). (one.1 (a, c), ih.1 (b, d)),
    )

check_audio_urls_iff :
    (i : ℕ) (seen : List ℤ) (items : List AudioUrlItem)
    → (check_audio_urls i seen items ≡ ok tt)
      ↔ (All IsPiece items × (AreDistinct items × AreNew seen items))
unfolding check_audio_urls
check_audio_urls_iff i seen [] = (λ h. (tt, (tt, tt)), λ h. refl)
check_audio_urls_iff i seen (item ∷ items) =
    let later = check_audio_urls_iff (suc i) (seen ++ (item.index ∷ [])) items in
    let new = AreNew-append seen item.index items in
    iff_trans
      (then_checks (ltb_ℤ item.index (pos 0)) _ _ _ (not_negative item.index) (
        then_checks (any (λ prev. prev ==ℤ item.index) seen) _ _ _ (any-All seen item.index) (
          then_checks (not (is_http item.url)) _ _ _
            (not_iff (is_http item.url) (is_http-IsHttp item.url)) later)))
      (
        λ (a, (b, (c, (d, (e, f))))). (((a, c), d), (((new.0 f).1, e), (b, (new.0 f).0))),
        λ (((a, c), d), ((g, e), (b, f))). (a, (b, (c, (d, (e, new.1 (f, g)))))),
      )

nothing_seen : (items : List AudioUrlItem) → AreNew [] items
nothing_seen [] = tt
nothing_seen (item ∷ items) = (tt, nothing_seen items)

-- The pieces of a distributed recording: no other source, and pieces with distinct indexes.
pub record IsDistributed (source_type : ℤ) (url data' : Bytes) (items : List AudioUrlItem)
    : Type 0 where
  pub no_source : (source_type ≡ source_type_url) × (is_empty url ≡ true) × (is_empty data' ≡ true)
  pub are_pieces : All IsPiece items
  pub are_distinct : AreDistinct items

pub validate_audio_urls-IsDistributed :
    (source_type : ℤ) (url data' : Bytes) (items : List AudioUrlItem)
    → (validate_audio_urls source_type url data' items ≡ ok tt)
      ↔ IsDistributed source_type url data' items
unfolding validate_audio_urls
validate_audio_urls-IsDistributed source_type url data' items =
    iff_trans
      (then_checks (not (source_type ==ℤ pos 0) || (not (is_empty url) || not (is_empty data'))) _ _
        _ (ground (arith, ==ℤ_iff source_type (pos 0))) (check_audio_urls_iff 0 [] items))
      (
        λ (a, (b, (c, d))). record { no_source = a; are_pieces = b; are_distinct = c },
        λ d. (d.no_source, (d.are_pieces, (d.are_distinct, nothing_seen items))),
      )
