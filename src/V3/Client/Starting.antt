-- ===== src/V3/Client/Starting.antt =====
-- What a Start of the version 3 client comes to (src/v3.cc).
use trtc_asr_sdk_cpp.Common.{
  ◌≡◌, refl, arith, ◌⊎◌, inl, inr, Bool, true, Option, none, some, Bytes, ◌==◌, Result, ok, throw,
  Exception,
}
use trtc_asr_sdk_cpp.Params.Doubles.{Double}
use trtc_asr_sdk_cpp.Credential.{Credential}
use trtc_asr_sdk_cpp.Response.{SpeakerContinue}
use trtc_asr_sdk_cpp.Offline.{World}
use trtc_asr_sdk_cpp.Recognizer.{state_idle, state_starting, state_running}
use trtc_asr_sdk_cpp.Recognizer.Lifecycle.{Client, returned, raised, set_state}
use trtc_asr_sdk_cpp.V3.Realtime.{Options, Opening, validate_options, open_with}
use trtc_asr_sdk_cpp.V3.Realtime.Accepts.{IsAcceptable, validate_options-IsAcceptable}
use trtc_asr_sdk_cpp.V3.Handshake.{
  Ack, accepted, closed, leaked, Handshake, acknowledged, after_dial, dialled, connect, checked,
  prepare,
}
use trtc_asr_sdk_cpp.V3.Client.{leave_conn, start_opened, start}

-- A handshake that succeeds, with the speaker context that the acknowledgement carried.
abbrev IsOpen : Option SpeakerContinue → Handshake → Type 0
IsOpen sc h = (h.outcome ≡ ok tt) × (h.conn ≡ true) × (h.speaker_continue ≡ sc)

abbrev IsFailure : Handshake → Type 0
IsFailure h = (e : Exception) × (h.outcome ≡ throw e)

acknowledged-cases :
    (ack : Ack)
    → ((sc : Option SpeakerContinue) × (ack ≡ accepted sc) × IsOpen sc (acknowledged ack))
      ⊎ IsFailure (acknowledged ack)
unfolding acknowledged
acknowledged-cases (accepted sc) = inl (sc, refl, (refl, refl, refl))
acknowledged-cases (closed e) = inr (e, refl)
acknowledged-cases (leaked e) = inr (e, refl)

dialled-cases :
    (conn : Bool) (dial send : Option Bytes) (ack : Ack)
    → ((sc : Option SpeakerContinue) × (dial ≡ none)
        × (send ≡ none)
        × (ack ≡ accepted sc)
        × IsOpen sc (dialled conn dial send ack))
      ⊎ IsFailure (dialled conn dial send ack)
unfolding dialled after_dial
dialled-cases conn (some err) send ack = inr (_, refl)
dialled-cases conn none (some err) ack = inr (_, refl)
dialled-cases conn none none ack = elim (acknowledged-cases ack) [
  | inl (sc, e, open_now) ↦ inl (sc, refl, refl, e, open_now)
  | inr fails ↦ inr fails
]

module _ (dial send : Bytes → Option Bytes) (ack : Ack) (conn : Bool) where
  -- Everything in front of the acknowledgement went well, and it was accepted.
  abbrev pub IsOpened : Result Opening → Option SpeakerContinue → Type 0
  IsOpened opened sc =
      (opening : Opening) × (opened ≡ ok opening)
      × (dial opening.ws_url ≡ none)
      × (send opening.start_text ≡ none)
      × (ack ≡ accepted sc)

  connect-cases :
      (opened : Result Opening)
      → ((sc : Option SpeakerContinue) × IsOpened opened sc
          × IsOpen sc (connect dial send ack conn opened))
        ⊎ IsFailure (connect dial send ack conn opened)
  unfolding connect
  connect-cases (throw e) = inr (e, refl)
  connect-cases (ok opening) =
      elim (dialled-cases conn (dial opening.ws_url) (send opening.start_text) ack) [
        | inl (sc, d, s, a, open_now) ↦ inl (sc, (opening, refl, d, s, a), open_now)
        | inr fails ↦ inr fails
      ]

  checked-cases :
      (valid : Result (Unit {0})) (opened : Result Opening)
      → ((sc : Option SpeakerContinue) × (valid ≡ ok tt)
          × IsOpened opened sc
          × IsOpen sc (checked valid conn (connect dial send ack conn opened)))
        ⊎ IsFailure (checked valid conn (connect dial send ack conn opened))
  unfolding checked
  checked-cases (throw e) opened = inr (e, refl)
  checked-cases (ok tt) opened = elim (connect-cases opened) [
    | inl (sc, o, open_now) ↦ inl (sc, refl, o, open_now)
    | inr fails ↦ inr fails
  ]

opened-result :
    (h : Handshake) (sc : Option SpeakerContinue) (c : Client)
    → IsOpen sc h
    → start_opened h.outcome (leave_conn h.conn c)
      ≡ returned (set_state state_running (leave_conn true c))
unfolding start_opened
opened-result h sc c (o, k, s) = rw (o, k) refl

failed-result :
    (h : Handshake) (c : Client) (e : Exception)
    → h.outcome ≡ throw e
    → start_opened h.outcome (leave_conn h.conn c)
      ≡ raised e (set_state state_idle (leave_conn h.conn c))
unfolding start_opened
failed-result h c e o = rw o refl

-- A Start of an idle client does one of two things. It returns in the running state with a connection,
-- and then the options were acceptable, the start frame was made and sent to a server that answered
-- the dial, and the acknowledgement was accepted. Or it throws what the handshake threw, back in the
-- idle state, with no frame sent behind the start frame.
pub v3_start-cases :
    (format_f : Double → Bytes) (world : World) (credential : Credential) (o : Options)
    (dial send : Bytes → Option Bytes) (ack : Ack) (c : Client)
    → c.shared.state ≡ state_idle
    → let prepared = prepare format_f world credential o dial send ack in
      ((start prepared c ≡ returned (set_state state_running (leave_conn true c)))
        × IsAcceptable format_f o
        × ((sc : Option SpeakerContinue) × IsOpened dial send ack c.shared.conn
              (open_with world credential o)
              sc
            × ((prepared c.shared.conn).speaker_continue ≡ sc)))
      ⊎ ((e : Exception) × ((prepared c.shared.conn).outcome ≡ throw e)
          × (start prepared c
              ≡ raised e (set_state state_idle (leave_conn (prepared c.shared.conn).conn c))))
unfolding start prepare
v3_start-cases format_f world credential o dial send ack c idle =
    let valid = validate_options format_f o in
    let opened = open_with world credential o in
    let h = checked valid c.shared.conn (connect dial send ack c.shared.conn opened) in
    let on : (c.shared.state == state_idle) ≡ true = ground (arith, idle) in
    elim (checked-cases dial send ack c.shared.conn valid opened) [
      | inl (sc, fine, o', open_now) ↦ inl (
        rw on (opened-result h sc (set_state state_starting c) open_now),
        (validate_options-IsAcceptable format_f o).0 fine,
        (sc, o', open_now.2),
      )
      | inr (e, fails) ↦
          inr (e, fails, rw on (failed-result h (set_state state_starting c) e fails))
    ]
