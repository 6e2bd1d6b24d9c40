-- ===== src/Radius/Packet.antt =====
-- cmd/server/main.go: `handlePacket`, without its log lines.
pub mod Total
pub mod Answer
pub mod Reply
pub mod Crash
pub mod Brief
use fakeradius.Base.{
  ℕ, true, not, Option, none, some, length, ltb, ◌==◌, if◌then◌else◌, Result, ok, err, panic, stuck,
  ◌>>=◌,
}
use fakeradius.Base.Bytes.{Bytes, at, slice, codes, get_u16}
use fakeradius.Crypto.{Crypto}
use fakeradius.Radius.Attributes.{
  access_request, access_reject, has_eap_attributes, has_message_authenticator, has_chap_attributes,
  has_mschap_attributes,
}
use fakeradius.Radius.Breakdown.{extract_ma}
use fakeradius.Radius.Decide.{
  Decision, serve_radius, serve_radius_with_chap, serve_radius_with_mschap,
}
use fakeradius.Radius.Extract.{
  extract_username, extract_chap_challenge, extract_chap_response, extract_mschap_attribute,
}
use fakeradius.Radius.Mschap.{parse_mschap_data}
use fakeradius.Radius.Response.{build_response_packet}
use fakeradius.Radius.Signature.{validate_message_authenticator}

-- What becomes of a datagram: nothing is sent, a response is sent, or the packet, cut to its declared
-- length, goes to `handleEAP`.
pub data Action : Type 0 where
  ignored : Action
  sends to_eap : Bytes → Action

-- An error that is only logged leaves the nil of the result.
abbrev pub value_or_nil {ℓ} : {A : Type ℓ} → Result A → Result (Option A)
value_or_nil (ok a) = ok (some a)
value_or_nil (err e) = ok none
value_or_nil panic = panic
value_or_nil stuck = stuck

-- `username`, "(unknown)" where there is none.
unfoldable pub username_of : Bytes → Result Bytes
username_of packet = do
  found ← value_or_nil (extract_username packet)
  elim found [ none ↦ ok (codes "(unknown)") | some username ↦ ok username ]

-- The branch on the kind of the request.
unfoldable pub decide : Bytes → Bytes → Result Decision
decide packet username = do
  has_mschap ← has_mschap_attributes packet
  if has_mschap
      then (do
        parsed ←
            value_or_nil (do vendor ← extract_mschap_attribute packet; parse_mschap_data vendor)
        ok (serve_radius_with_mschap username parsed))
      else (do
        has_chap ← has_chap_attributes packet
        if has_chap
            then (do
              response ← value_or_nil (extract_chap_response packet)
              challenge ← value_or_nil (extract_chap_challenge packet)
              ok (serve_radius_with_chap username response challenge))
            else ok (serve_radius username))

-- `authType`, which is only logged.
pub data AuthType : Type 0 where
  pap chap mschap : AuthType

unfoldable pub auth_type_of : Bytes → Result AuthType
auth_type_of packet = do
  has_mschap ← has_mschap_attributes packet
  if has_mschap
      then ok mschap
      else (do has_chap ← has_chap_attributes packet; if has_chap then ok chap else ok pap)

module _ (c : Crypto) (secret : Bytes) where
  -- From `authType` on, for a packet cut to its declared length.
  unfoldable pub answer_request : Bytes → ℕ → Result Action
  answer_request packet identifier = do
    auth_type ← auth_type_of packet
    present ← has_message_authenticator packet
    valid ← if present then validate_message_authenticator c packet secret else ok true
    if not valid
        then (do
          logged ← extract_ma packet
          response ←
              build_response_packet c packet secret access_reject identifier
                (codes "Message-Authenticator validation failed")
          ok (sends response))
        else (do
          eap ← has_eap_attributes packet
          if eap then ok (to_eap packet) else (do
            username ← username_of packet
            decision ← decide packet username
            response ←
                build_response_packet c packet secret decision.code identifier decision.message
            ok (sends response)))

  -- `handlePacket`
  unfoldable pub handle_packet : Bytes → Result Action
  unfolding at
  handle_packet datagram = if ltb (length datagram) 20 then ok ignored else (do
    code ← at datagram 0
    identifier ← at datagram 1
    hi ← at datagram 2
    lo ← at datagram 3
    let len = get_u16 hi lo
    if ltb (length datagram) len then ok ignored else (do
      packet ← slice datagram 0 len
      if not (code == access_request) then ok ignored else answer_request packet identifier))
