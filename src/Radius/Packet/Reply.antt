-- ===== src/Radius/Packet/Reply.antt =====
-- `handlePacket` of cmd/server/main.go on a datagram with a well-formed Access-Request.
use fakeradius.Base.{
  ℕ, ◌+◌, ◌≤◌, ◌<◌, ◌≡◌, refl, ap, ◌∙◌, arith, inl, inr, Bool, true, false, not, ◌&&◌, ◌||◌, List,
  [], ◌∷◌, ◌++◌, length, ◌==◌, ok, ge→ltb, Bool-cases, if◌then◌else◌, All, length-append,
}
use fakeradius.Base.Bytes.{
  Bytes, at, slice, slice-eq, get_u16, put_u16, length-put_u16, length_bytes, codes,
}
use fakeradius.Crypto.{Crypto}
use fakeradius.Radius.Attributes.Scan.{
  any, is_mschap, has_eap_attributes_lem, has_message_authenticator_lem,
}
use fakeradius.Radius.Attributes.{
  access_request, access_accept, access_reject, chap_challenge_type, chap_response_type,
  eap_message_type, has_eap_attributes, has_message_authenticator,
}
use fakeradius.Radius.Breakdown.Total.{extract_ma-encoded}
use fakeradius.Radius.Breakdown.{extract_ma}
use fakeradius.Radius.Decide.Short.{
  Short, serve_radius-Short, serve_radius_with_chap-Short, serve_radius_with_mschap-Short,
}
use fakeradius.Radius.Decide.{Decision, rejects}
use fakeradius.Radius.Extract.Found.{first_of}
use fakeradius.Radius.Packet.Answer.{
  parsed_mschap, decision, user_of, username_of_lem, auth_type_of_lem, decide_lem,
}
use fakeradius.Radius.Packet.{
  Action, sends, to_eap, username_of, decide, auth_type_of, AuthType, answer_request, handle_packet,
}
use fakeradius.Radius.Response.Encoded.{
  mirrored, response_attributes, signed_response, build_response_packet_lem,
}
use fakeradius.Radius.Response.Total.{length-with_message}
use fakeradius.Radius.Response.{is_mirrored, build_response_packet}
use fakeradius.Radius.Signature.Replace.{is_ma}
use fakeradius.Radius.Signature.Validate.{
  packet_of, is_signed, validate_message_authenticator_lem, packet_of-eq, head_of, length-head_of,
  length-packet_of,
}
use fakeradius.Radius.Signature.{validate_message_authenticator}
use fakeradius.Radius.Walk.Encoded.{Attribute, Fits, encode, attribute_bytes}

pub length-mirrored :
    (attrs : List Attribute) → length (encode (mirrored attrs)) ≤ length (encode attrs)
length-mirrored [] = omega arith
length-mirrored (a ∷ attrs) =
    let size = length-append (attribute_bytes a) (encode attrs) in
    let size' = length-append (attribute_bytes a) (encode (mirrored attrs)) in
    let rest = length-mirrored attrs in
    elim (Bool-cases (is_mirrored a.kind)) [
      | inl here ↦ rw (mirrored, here) (omega arith)
      | inr other ↦ rw (mirrored, other) (omega arith)
    ]

pub decision-Short : (attrs : List Attribute) → Short (decision attrs)
decision-Short attrs = elim (Bool-cases (any is_mschap attrs)) [
  | inl m ↦ rw m (serve_radius_with_mschap-Short (user_of attrs) (parsed_mschap attrs))
  | inr m ↦
      elim (Bool-cases
        (any (λ a. a.kind == chap_challenge_type || a.kind == chap_response_type) attrs)) [
          | inl h ↦
              rw (m, h)
                (serve_radius_with_chap-Short (user_of attrs) (first_of chap_response_type attrs)
                  (first_of chap_challenge_type attrs))
          | inr h ↦ rw (m, h) (serve_radius-Short (user_of attrs))
        ]
]

refused_eq :
    (present signed : Bool) → (present && not signed) ≡ not (if present then signed else true)
refused_eq true signed = refl
refused_eq false signed = refl

pub received :
    (c : Crypto) (secret : Bytes) (id : ℕ) (datagram p : Bytes) (hi lo n : ℕ)
    → at datagram 0 ≡ ok access_request
    → at datagram 1 ≡ ok id
    → at datagram 2 ≡ ok hi
    → at datagram 3 ≡ ok lo
    → get_u16 hi lo ≡ n
    → 20 ≤ length datagram
    → n ≤ length datagram
    → slice datagram 0 n ≡ ok p
    → handle_packet c secret datagram ≡ answer_request c secret p id
unfolding handle_packet
received c secret id datagram p hi lo n e0 e1 e2 e3 e twenty within cut =
    rw
      (
        ge→ltb (length datagram) 20 twenty,
        e0,
        e1,
        e2,
        e3,
        e,
        ge→ltb (length datagram) n within,
        cut,
      )
      refl

-- The branches of the answer, with what the calls give.
module _ (c : Crypto) (secret p : Bytes) (id : ℕ) (kind : AuthType) (present valid eap : Bool)
    (found : Bool) (u : Bytes) (d : Decision) (bad good : Bytes) where
  branches :
      auth_type_of p ≡ ok kind
      → has_message_authenticator p ≡ ok present
      → (if present then validate_message_authenticator c p secret else ok true) ≡ ok valid
      → extract_ma p ≡ ok found
      → has_eap_attributes p ≡ ok eap
      → username_of p ≡ ok u
      → decide p u ≡ ok d
      → build_response_packet c p secret access_reject id
          (codes "Message-Authenticator validation failed")
        ≡ ok bad
      → build_response_packet c p secret d.code id d.message ≡ ok good
      → answer_request c secret p id
        ≡ ok (if not valid then sends bad else if eap then to_eap p else sends good)
  unfolding answer_request
  branches e f g x k n o r s = elim (Bool-cases valid) [
    | inr no_ma ↦ rw (e, f, g, no_ma, x, r) refl
    | inl signed ↦ elim (Bool-cases eap) [
      | inl h ↦ rw (e, f, g, signed, k, h) refl
      | inr h ↦ rw (e, f, g, signed, k, h, n, o, s) refl
    ]
  ]

module _ (c : Crypto) (secret : Bytes) (id : ℕ) (auth : Bytes) (attrs : List Attribute) where
  abbrev reply : Decision → Action
  reply d =
      sends (signed_response c d.code id auth (response_attributes d.code attrs d.message) secret)

  -- What a well-formed Access-Request leads to.
  abbrev pub outcome : Action
  outcome =
      if any is_ma attrs && not (is_signed c secret access_request id auth attrs)
      then reply (rejects (codes "Message-Authenticator validation failed"))
      else if any (λ a. a.kind == eap_message_type) attrs
      then to_eap (packet_of access_request id auth attrs)
      else reply (decision attrs)

  module _ (sixteen : length auth ≡ 16) (fits : All Fits attrs)
      (size : 20 + length (encode attrs) ≤ 2048) where
    built :
        (d : Decision)
        → Short d
        → build_response_packet c
            (packet_of access_request id auth attrs)
            secret
            d.code
            id
            d.message
          ≡ ok
              (signed_response c d.code id auth (response_attributes d.code attrs d.message) secret)
    built d short =
        build_response_packet_lem c secret
          (access_request ∷ id ∷ put_u16 (20 + length (encode attrs))) auth attrs d.code id
          d.message (omega (arith, length-put_u16 (20 + length (encode attrs)))) sixteen fits
          bounded
      where
        bounded : length (response_attributes d.code attrs d.message) < 65516
        bounded = elim (Bool-cases (d.code == access_accept)) [
          | inl e ↦ rw e (omega arith)
          | inr e ↦ rw e (
              omega (
                arith,
                length-with_message (encode (mirrored attrs)) d.message,
                length-mirrored attrs,
              ))
        ]

    valid_lem :
        (if any is_ma attrs
          then validate_message_authenticator c (packet_of access_request id auth attrs) secret
          else ok true)
        ≡ ok (if any is_ma attrs then is_signed c secret access_request id auth attrs else true)
    valid_lem = elim (Bool-cases (any is_ma attrs)) [
      | inr absent ↦ rw absent refl
      | inl present ↦ rw present (
          validate_message_authenticator_lem c secret access_request id auth attrs sixteen fits
            (omega arith)
          ∙ rw present refl)
    ]

    abbrev header : Bytes
    header = head_of c secret access_request id auth attrs sixteen fits

    whole_eq : packet_of access_request id auth attrs ≡ header ++ encode attrs
    whole_eq = packet_of-eq c secret access_request id auth attrs sixteen fits

    twenty : length header ≡ 20
    twenty = length-head_of c secret access_request id auth attrs sixteen fits

    answer_request_lem :
        answer_request c secret (packet_of access_request id auth attrs) id ≡ ok outcome
    answer_request_lem =
        let (kind, e) = auth_type_of_lem header attrs twenty fits in
        let (found, f) = extract_ma-encoded header attrs twenty fits (omega arith) in
        branches c secret (packet_of access_request id auth attrs) id kind (any is_ma attrs)
          (if any is_ma attrs then is_signed c secret access_request id auth attrs else true)
          (any (λ a. a.kind == eap_message_type) attrs) found (user_of attrs) (decision attrs) _ _
          (ap auth_type_of whole_eq ∙ e)
          (ap has_message_authenticator whole_eq
            ∙ has_message_authenticator_lem header attrs twenty fits)
          valid_lem (ap extract_ma whole_eq ∙ f)
          (ap has_eap_attributes whole_eq ∙ has_eap_attributes_lem header attrs twenty fits)
          (ap username_of whole_eq ∙ username_of_lem header attrs twenty fits)
          (ap (λ p. decide p (user_of attrs)) whole_eq ∙ decide_lem header attrs twenty fits)
          (built (rejects (codes "Message-Authenticator validation failed")) (omega arith))
          (built (decision attrs) (decision-Short attrs))
        ∙ rw (refused_eq (any is_ma attrs) (is_signed c secret access_request id auth attrs)) refl

    -- A datagram that holds an Access-Request of at most 2048 bytes with an authenticator of sixteen
    -- bytes and attributes that each fit, and any padding behind it, leads to one outcome: with a
    -- Message-Authenticator that does not match an Access-Reject that says so; otherwise with an
    -- EAP-Message the packet without its padding goes to the EAP handler; otherwise the response that
    -- MS-CHAP, CHAP or the name alone decide, signed and with the request's identifier.
    pub handle_packet_lem :
        (padding : Bytes)
        → handle_packet c secret (packet_of access_request id auth attrs ++ padding) ≡ ok outcome
    unfolding at put_u16
    handle_packet_lem padding =
        let p = packet_of access_request id auth attrs in
        let n : ℕ = 20 + length (encode attrs) in
        let (hi, lo, e2, e3, e) =
          length_bytes access_request id n ((auth ++ encode attrs) ++ padding) (omega arith) in
        let whole = length-packet_of c secret access_request id auth attrs sixteen fits in
        let cut : slice (p ++ padding) 0 n ≡ ok p =
          slice-eq (p ++ padding) [] p padding 0 n refl refl (omega arith) in
        received c secret id (p ++ padding) p hi lo n refl refl e2 e3 e
          (omega (arith, length-append p padding)) (omega (arith, length-append p padding)) cut
        ∙ answer_request_lem
