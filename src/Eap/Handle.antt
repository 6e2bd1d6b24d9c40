-- ===== src/Eap/Handle.antt =====
-- cmd/server/main.go: `handleEAP`, without its log lines. What the TLS goroutine does, the time and the
-- client's address are arguments, the map of sessions is passed on: no other handler runs before this one ends.
-- Overlap has the handlers that do.
use fakeradius.Base.{
  ℕ, ◌+◌, ◌-◌, Bool, false, [], ◌∷◌, ◌++◌, Option, none, some, length, take, ltb, ◌==◌,
  if◌then◌else◌, Result, ok, ◌>>=◌, bit_and,
}
use fakeradius.Base.Bytes.{Bytes, at, slice, u8, u16}
use fakeradius.Crypto.{Crypto}
use fakeradius.Eap.Session.{Session, Store, put, session_of}
use fakeradius.Eap.Tls.{Activity, handle_tls_handshake}
use fakeradius.Eap.{
  eap_request, eap_response, eap_type_identity, e_type_ttls, ttls_flag_length, ttls_flag_start,
  access_challenge, is_success, build_eap_packet, eap_attributes, state_value,
}
use fakeradius.Radius.Attributes.{
  access_accept, state_attribute_type, message_authenticator_type, build_attribute,
}
use fakeradius.Radius.Extract.{extract_eap_message}
use fakeradius.Radius.Packet.{value_or_nil}
use fakeradius.Radius.Response.{response_authenticator, assemble}
use fakeradius.Radius.Signature.{calculate_message_authenticator, zero_ma}

-- `eapResp` and `eapSuccess`
pub record Reply : Type 0 where
  pub message : Bytes
  pub success : Bool

-- `case EAPTypeIdentity`
unfoldable pub on_identity : Session → ℕ → Bytes → Result (Session × Option Reply)
on_identity session eap_id eap = do
  username ← slice eap 5 (length eap)
  start ← build_eap_packet eap_request (u8 (eap_id + 1)) e_type_ttls (ttls_flag_start ∷ [])
  ok (
    record session { username = username; state = 1; id = u8 (eap_id + 1); eap_type = e_type_ttls },
    some (record { message = start; success = false }),
  )

module _ (engine : ℕ → Activity) where
  -- `case ETypeTTLS`
  unfoldable pub on_ttls : Session → ℕ → Bytes → Result (Session × Option Reply)
  on_ttls session eap_id eap = if ltb (length eap) 6 then ok (session, none) else (do
    flags ← at eap 5
    let pos = if bit_and flags ttls_flag_length == 0 then 6 else 10
    if ltb (length eap) pos then ok (session, none) else (do
      tls_data ← slice eap pos (length eap)
      (session', sent) ← handle_tls_handshake engine session tls_data eap_id
      elim sent [
        | none ↦ ok (session', none)
        | some packet ↦
            ok (session', some (record { message = packet; success = is_success packet }))
      ]))

  -- The `switch eapCode`.
  unfoldable pub dispatch : Session → ℕ → ℕ → Bytes → Result (Session × Option Reply)
  dispatch session eap_code eap_id eap =
      if eap_code == eap_response
      then (do
        eap_type ← at eap 4
        if eap_type == eap_type_identity
            then on_identity session eap_id eap
            else if eap_type == e_type_ttls
            then on_ttls session eap_id eap
            else ok (session, none))
      else ok (session, none)

-- The attributes of the response with sixteen zeros for the Message-Authenticator.
abbrev pub unsigned_attributes : ℕ → ℕ → ℕ → Bytes → Bytes
unsigned_attributes resp_code eap_id now message =
    (if resp_code == access_challenge
      then eap_attributes message ++ build_attribute state_attribute_type (state_value eap_id now)
      else eap_attributes message)
    ++ build_attribute message_authenticator_type zero_ma

module _ (c : Crypto) (secret : Bytes) where
  -- From `var attributes` on.
  unfoldable pub build_eap_response : Bytes → ℕ → ℕ → Reply → Result Bytes
  build_eap_response packet eap_id now reply = do
    let resp_code = if reply.success then access_accept else access_challenge
    let zeroed = unsigned_attributes resp_code eap_id now reply.message
    request_auth ← slice packet 4 20
    identifier ← at packet 1
    let total_len = u16 (20 + length zeroed)
    ma ← calculate_message_authenticator c resp_code identifier total_len request_auth secret zeroed
    let attributes = take (length zeroed - 16) zeroed ++ ma
    let auth =
        response_authenticator c resp_code identifier total_len request_auth attributes secret
    assemble c resp_code identifier total_len auth attributes

  -- From `if len(eapData) < 4` on.
  unfoldable pub answer_eap :
      (ℕ → Activity) → ℕ → Bytes → Bytes → Store → Bytes → Result (Store × Option Bytes)
  answer_eap engine now address packet store eap =
      if ltb (length eap) 4 then ok (store, none) else (do
        eap_code ← at eap 0
        eap_id ← at eap 1
        (session, answer) ←
            dispatch engine (session_of store address eap_id now) eap_code eap_id eap
        elim answer [
          | none ↦ ok (put address session store, none)
          | some reply ↦ (do
            response ← build_eap_response packet eap_id now reply
            ok (put address session store, some response))
        ])

  -- `handleEAP`
  unfoldable pub handle_eap :
      (ℕ → Activity) → ℕ → Bytes → Bytes → Store → Result (Store × Option Bytes)
  handle_eap engine now address packet store = do
    found ← value_or_nil (extract_eap_message packet)
    elim found [
      | none ↦ ok (store, none)
      | some eap ↦ answer_eap engine now address packet store eap
    ]
