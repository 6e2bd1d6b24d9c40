-- ===== src/Cli/Requests/Answers.antt =====
-- What the client of cmd/cli/radius-cli.go gets from the server of cmd/server.

use fakeradius.Base.{
  ◌+◌, ◌≤◌, ◌≡◌, inl, inr, refl, sym, ap, ◌∙◌, arith, false, List, [], ◌++◌, append-nil, length,
  take, take_all, ◌==◌, Result, ok, err, ◌>>=◌, Bool-cases, All, length-append, read_failed,
}
use fakeradius.Base.Bytes.{Bytes, put_u16, length-put_u16}
use fakeradius.Cli.Requests.Signed.{ma, sign_request_lem}
use fakeradius.Cli.Requests.{exchange}
use fakeradius.Crypto.{Crypto}
use fakeradius.Radius.Attributes.Scan.{any}
use fakeradius.Radius.Attributes.{access_request, access_accept, eap_message_type}
use fakeradius.Radius.Decide.{Decision}
use fakeradius.Radius.Packet.Answer.{decision}
use fakeradius.Radius.Packet.Reply.{outcome, handle_packet_lem, decision-Short, length-mirrored}
use fakeradius.Radius.Packet.{ignored, sends, to_eap, handle_packet}
use fakeradius.Radius.Response.Encoded.{
  mirrored, response_attributes, signed_response, length-signed_response,
}
use fakeradius.Radius.Response.Total.{length-with_message}
use fakeradius.Radius.Signature.Last.{any-signed_alone, length-encode-signed}
use fakeradius.Radius.Signature.Replace.{is_ma}
use fakeradius.Radius.Signature.RoundTrip.{
  signed, any-signed, Fits-signed, is_signed-signed, length-computed_ma,
}
use fakeradius.Radius.Signature.Validate.{packet_of}
use fakeradius.Radius.Walk.Encoded.{Attribute, Fits, encode}

-- The server of `main` in cmd/server/main.go as the client sees it: it reads at most 2048 bytes, and where
-- it sends nothing the client's read fails.
abbrev pub server_of : Crypto → Bytes → Bytes → Result Bytes
server_of c secret packet = do
  action ← handle_packet c secret (take 2048 packet)
  elim action [ sends r ↦ ok r | ignored ↦ err read_failed | to_eap p ↦ err read_failed ]

module _ (c : Crypto) (secret auth : Bytes) (attrs : List Attribute) (size : length auth ≡ 16)
    (fits : All Fits attrs) (no_ma : any is_ma attrs ≡ false)
    (no_eap : any (λ a. a.kind == eap_message_type) attrs ≡ false)
    (room : length (encode attrs) ≤ 2010) where
  abbrev pub sent : List Attribute
  sent = signed attrs (ma c secret 0 auth attrs size fits no_ma) []

  sent-Fits : All Fits sent
  sent-Fits =
      Fits-signed attrs (ma c secret 0 auth attrs size fits no_ma) [] fits
        (length-computed_ma c secret access_request 0 auth attrs [] size fits tt no_ma) tt

  length-sent : length (encode sent) ≡ length (encode attrs) + 18
  length-sent =
      length-encode-signed attrs (ma c secret 0 auth attrs size fits no_ma)
        (length-computed_ma c secret access_request 0 auth attrs [] size fits tt no_ma)

  abbrev reply_to : Decision → Bytes
  reply_to d = signed_response c d.code 0 auth (response_attributes d.code sent d.message) secret

  outcome_lem : outcome c secret 0 auth sent ≡ sends (reply_to (decision sent))
  outcome_lem =
      rw
        (
          any-signed attrs (ma c secret 0 auth attrs size fits no_ma) [],
          is_signed-signed c secret access_request 0 auth attrs [] size fits tt no_ma,
          any-signed_alone (λ a. a.kind == eap_message_type) attrs
                (ma c secret 0 auth attrs size fits no_ma) refl
              ∙ no_eap,
        )
        refl

  abbrev packet : Bytes
  packet = packet_of access_request 0 auth sent

  length-packet : length packet ≡ 20 + length (encode sent)
  length-packet = omega (
    arith,
    length-put_u16 (20 + length (encode sent)),
    length-append (put_u16 (20 + length (encode sent))) (auth ++ encode sent),
    length-append auth (encode sent),
  )

  served : server_of c secret packet ≡ ok (reply_to (decision sent))
  served =
      let handled : handle_packet c secret (take 2048 packet)
          ≡ ok (sends (reply_to (decision sent))) =
        ap (handle_packet c secret) (
          take_all 2048 packet (omega (arith, length-packet, length-sent))
          ∙ sym (append-nil packet))
        ∙ handle_packet_lem c secret 0 auth sent size sent-Fits (omega (arith, length-sent)) []
        ∙ ap ok outcome_lem in
      rw handled refl

  short_reply : (d : Decision) → length d.message ≤ 100 → length (reply_to d) ≤ 4096
  short_reply d short =
      let long =
        length-signed_response c d.code 0 auth (response_attributes d.code sent d.message) secret in
      let body : length (response_attributes d.code sent d.message) ≤ length (encode sent) + 102 =
        elim (Bool-cases (d.code == access_accept)) [
          | inl e ↦ rw e (omega arith)
          | inr e ↦ rw e (
              omega (
                arith,
                length-with_message (encode (mirrored sent)) d.message,
                length-mirrored sent,
              ))
        ] in
      omega (arith, length-sent)

  -- The client gets the signed response to its attributes.
  pub exchange_lem :
      exchange c secret (server_of c secret) 0 auth (encode attrs) ≡ ok (reply_to (decision sent))
  unfolding exchange
  exchange_lem =
      rw (sign_request_lem c secret 0 auth attrs size fits no_ma (omega arith), served)
        (ap ok (
          take_all 4096 (reply_to (decision sent))
            (short_reply (decision sent) (decision-Short sent))))
