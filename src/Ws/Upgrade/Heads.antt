-- ===== src/Ws/Upgrade/Heads.antt =====
-- The head of the response to an upgrade: read to its end on a good stream, and in bounded rounds on any (src/ws_client.cc).
use trtc_asr_sdk_cpp.Common.{
  arith, ◌≡◌, ◌≢◌, refl, sym, subst, ap, ◌∙◌, ◌⊎◌, inl, inr, ℕ, zero, suc, ◌+◌, ◌≤◌, ◌<◌, Bool,
  true, false, not, ◌&&◌, [], ◌∷◌, ◌++◌, append-nil, append_assoc, length-append, Bytes, length,
  ltb, ltb-false, get_or, Bool-cases,
}
use trtc_asr_sdk_cpp.Ws.Transport.{
  Transport, Reading, Status, complete, timed_out, error, read_exact,
}
use trtc_asr_sdk_cpp.Ws.Transport.Chunks.{Brings, read_exact-Brings}
use trtc_asr_sdk_cpp.Ws.Upgrade.{has, head_end, headed, unfinished, read_head}

-- A head ends where its end first occurs.
abbrev pub ends_once : Bytes → Bytes → Bool
ends_once done [] = has head_end done
ends_once done (b ∷ rest) = not (has head_end done) && ends_once (done ++ (b ∷ [])) rest

and_not : (x y : Bool) → (not x && y) ≡ true → (x ≡ false) × (y ≡ true)
and_not true y h = cc
and_not false y h = (refl, h)

Status-cases : (s : Status) → (s ≡ complete) ⊎ ((s ≡ timed_out) ⊎ (s ≡ error))
Status-cases complete = inl refl
Status-cases timed_out = inr (inl refl)
Status-cases error = inr (inr refl)

module _ (late : ℕ → Bool) where
  read_head-headed :
      (fuel i : ℕ) (t : Transport) (done : Bytes)
      → has head_end done ≡ true
      → read_head late (suc fuel) i t done ≡ headed done t
  unfolding read_head
  read_head-headed fuel i t done h = rw (h, read_head) refl

  read_head_step :
      (fuel i b : ℕ) (t t' : Transport) (done : Bytes)
      → has head_end done ≡ false
      → late i ≡ false
      → read_exact t 1 ≡ record { status = complete; bytes = b ∷ []; rest = t' }
      → ltb 65536 (length (done ++ (b ∷ []))) ≡ false
      → read_head late (suc fuel) i t done ≡ read_head late fuel (suc i) t' (done ++ (b ∷ []))
  unfolding read_head
  read_head_step fuel i b t t' done h in_time e small =
      let short : ltb 65536 (length (done ++ (get_or (read_exact t 1).bytes 0 0 ∷ []))) ≡ false =
        subst (λ (r : Reading). ltb 65536 (length (done ++ (get_or r.bytes 0 0 ∷ []))) ≡ false)
          (sym e) small in
      let full : (read_exact t 1).status ≡ complete = ap (λ (r : Reading). r.status) e in
      rw (h, in_time, full, short, read_head)
        (ap
          (λ (r : Reading). read_head late fuel (suc i) r.rest (done ++ (get_or r.bytes 0 0 ∷ [])))
          e)

  pub read_head-Brings :
      ((i : ℕ) → late i ≡ false)
      → (rest done back : Bytes) (fuel i : ℕ) (t : Transport) → ends_once done rest ≡ true
      → length done + length rest ≤ 65536
      → length rest < fuel
      → Brings t (rest ++ back)
      → (t' : Transport) × (read_head late fuel i t done ≡ headed (done ++ rest) t')
        × Brings t' back
  read_head-Brings never rest done back zero i t once small less b = absurd (omega (arith, less))
  read_head-Brings never [] done back (suc fuel) i t once small less b =
      (t, read_head-headed fuel i t done once ∙ ap (λ s. headed s t) (sym (append-nil done)), b)
  read_head-Brings never (c ∷ rest) done back (suc fuel) i t once small less b =
      let (goes, once') = and_not (has head_end done) _ once in
      let (t1, e, b1) = read_exact-Brings (c ∷ []) (rest ++ back) t b in
      let size = length-append done (c ∷ []) in
      let short : ltb 65536 (length (done ++ (c ∷ []))) ≡ false = ground (arith, size, small) in
      let (t', run, b') =
        read_head-Brings never rest (done ++ (c ∷ [])) back fuel (suc i) t1 once'
          (omega (arith, size, small)) (omega (arith, less)) b1 in
      (
        t',
        read_head_step fuel i c t t1 done goes (never i) e short
            ∙ run
            ∙ ap (λ s. headed s t') (append_assoc done (c ∷ []) rest),
        b',
      )

  -- A round ends the loop, or adds a byte within the limit.
  data Round (fuel i : ℕ) (t : Transport) (done : Bytes) : Type 0 where
    ends : read_head late (suc fuel) i t done ≢ unfinished → Round fuel i t done
    adds :
        (b : ℕ) (t' : Transport)
        → length (done ++ (b ∷ [])) ≤ 65536
        → read_head late (suc fuel) i t done ≡ read_head late fuel (suc i) t' (done ++ (b ∷ []))
        → Round fuel i t done

  round_of : (fuel i : ℕ) (t : Transport) (done : Bytes) → Round fuel i t done
  unfolding read_head
  round_of fuel i t done = elim (Bool-cases (has head_end done)) [
    | inl found ↦ ends (rw (found, read_head) (λ h. cc))
    | inr goes ↦ elim (Bool-cases (late i)) [
      | inl over ↦ ends (rw (goes, over, read_head) (λ h. cc))
      | inr in_time ↦ elim (Status-cases (read_exact t 1).status) [
        | inr (inl e) ↦ ends (rw (goes, in_time, e, read_head) (λ h. cc))
        | inr (inr e) ↦ ends (rw (goes, in_time, e, read_head) (λ h. cc))
        | inl e ↦
            let b = get_or (read_exact t 1).bytes 0 0 in
            elim (Bool-cases (ltb 65536 (length (done ++ (b ∷ []))))) [
              | inl long ↦ ends (rw (goes, in_time, e, long, read_head) (λ h. cc))
              | inr short ↦
                  adds b (read_exact t 1).rest (ltb-false 65536 _ short)
                    (rw (goes, in_time, e, short, read_head) refl)
            ]
      ]
    ]
  ]

  pub read_head-ends :
      (fuel i : ℕ) (t : Transport) (done : Bytes)
      → 65538 ≤ fuel + length done
      → length done ≤ 65536
      → read_head late fuel i t done ≢ unfinished
  read_head-ends zero i t done enough small = absurd (omega (arith, enough, small))
  read_head-ends (suc fuel) i t done enough small = elim (round_of fuel i t done) [
    | ends e ↦ e
    | adds b t' small' step ↦
        let size = length-append done (b ∷ []) in
        let later =
          read_head-ends fuel (suc i) t' (done ++ (b ∷ [])) (omega (arith, size, enough)) small' in
        λ h. later (sym step ∙ h)
  ]
