-- ===== src/Tests/Radius.antt =====
-- Concrete inputs at which the theorems on RADIUS apply.
use fakeradius.Base.{
  ℕ, ◌≡◌, ◌↔◌, refl, arith, true, List, [], ◌∷◌, ◌++◌, none, some, length, replicate, leb, ok, err,
  panic, All, if◌then◌else◌, mschap_length,
}
use fakeradius.Base.Bytes.{Bytes, codes, slice, put_u16, bytes_eq}
use fakeradius.Radius.Attributes.{
  access_accept, access_reject, access_request, has_mschap_attributes, has_chap_attributes,
  has_message_authenticator, build_attribute, microsoft_at,
}
use fakeradius.Radius.Breakdown.{extract_ma}
use fakeradius.Radius.Walk.{for_attributes_or}
use fakeradius.Radius.Decide.Policy.{
  IsChap, IsMschap, serve_radius_lem, serve_radius_with_chap_lem, serve_radius_with_mschap_lem,
}
use fakeradius.Radius.Decide.{serve_radius, serve_radius_with_chap, serve_radius_with_mschap}
use fakeradius.Radius.Mschap.Fields.{mschap_bytes, parse_mschap_data_lem}
use fakeradius.Radius.Mschap.{parse_mschap_data, parse_mschap_version, MschapData}
use fakeradius.Base.Bytes.{at}
use fakeradius.Radius.Packet.{sends}
use fakeradius.Radius.Packet.Brief.{blind_accept, handle_packet_brief}
use fakeradius.Radius.Packet.Crash.{crash_bytes, handle_packet-panic}
use fakeradius.Radius.Packet.Reply.{outcome, handle_packet_lem}
use fakeradius.Radius.Packet.{handle_packet, answer_request, auth_type_of}
use fakeradius.Radius.Response.Encoded.{
  response_attributes, signed_response, build_response_packet_lem,
}
use fakeradius.Radius.Response.{build_response_packet}
use fakeradius.Radius.Signature.Replace.{replaced_or_added, replace_or_add_ma_lem}
use fakeradius.Radius.Signature.RoundTrip.{signed, calculate_lem, validate-calculate}
use fakeradius.Radius.Signature.Validate.{
  packet_of, is_signed, expected_ma, validate_message_authenticator_lem,
}
use fakeradius.Radius.Signature.{
  check_ma, zero_ma, replace_or_add_ma, validate_message_authenticator,
}
use fakeradius.Radius.Walk.Encoded.{Attribute, Fits, encode}
use fakeradius.Tacacs.Authen.Decide.{IsRejected}
use fakeradius.Tests.{toy, secret, bob}

abbrev attribute : ℕ → Bytes → Attribute
attribute kind value = record { kind = kind; value = value }

abbrev auth : Bytes
auth = replicate 16 7

abbrev head : Bytes
head = 1 ∷ 5 ∷ 0 ∷ 50 ∷ auth

-- A User-Name, a Proxy-State, an EAP-Message, and MS-CHAP data.
abbrev attrs : List Attribute
attrs =
    attribute 1 bob
    ∷ attribute 33 (codes "proxy")
    ∷ attribute 79 (2 ∷ 1 ∷ [])
    ∷ attribute 26 (0 ∷ 0 ∷ 1 ∷ 55 ∷ 9 ∷ [])
    ∷ []

attrs-Fits : All Fits attrs
attrs-Fits = (omega arith, (omega arith, (omega arith, (omega arith, tt))))

abbrev plain : List Attribute
plain = attribute 1 bob ∷ attribute 33 (codes "proxy") ∷ []

plain-Fits : All Fits plain
plain-Fits = (omega arith, (omega arith, tt))

handle_packet_example :
    handle_packet toy secret (packet_of access_request 5 auth plain ++ 0 ∷ 0 ∷ [])
    ≡ ok (outcome toy secret 5 auth plain)
handle_packet_example =
    handle_packet_lem toy secret 5 auth plain refl plain-Fits
      (unfold build_attribute in omega arith) (0 ∷ 0 ∷ [])

abbrev cut_off : Bytes
cut_off =
    1
    ∷ 5
    ∷ 8
    ∷ 0
    ∷ (auth
        ++ (encode (replicate 7 (attribute 99 (replicate 253 1)))
            ++ (99 ∷ 235 ∷ (replicate 233 1 ++ (80 ∷ 18 ∷ replicate 6 0)))))

handle_packet-panic_example : handle_packet toy secret (crash_bytes 5 auth plain 0 []) ≡ panic
handle_packet-panic_example =
    handle_packet-panic toy secret 5 auth plain 0 [] refl plain-Fits (refl, (refl, tt))
      (omega arith) (unfold build_attribute in omega arith)

validate-calculate_example :
    validate_message_authenticator toy
      (packet_of 1 5 auth
        (signed plain (expected_ma toy secret 1 5 auth (signed plain zero_ma [])) []))
      secret
    ≡ ok true
validate-calculate_example =
    validate-calculate toy secret 1 5 auth plain [] refl plain-Fits tt refl
      (expected_ma toy secret 1 5 auth (signed plain zero_ma []))
      (unfold build_attribute in omega arith)
      (calculate_lem toy secret 1 5 auth plain [] refl plain-Fits tt refl)

validate_message_authenticator_example :
    validate_message_authenticator toy (packet_of 1 5 auth (signed plain zero_ma [])) secret
    ≡ ok (is_signed toy secret 1 5 auth (signed plain zero_ma []))
validate_message_authenticator_example =
    validate_message_authenticator_lem toy secret 1 5 auth (signed plain zero_ma []) refl
      (omega arith, (omega arith, (omega arith, tt))) (unfold build_attribute in omega arith)

replace_or_add_ma_example :
    replace_or_add_ma (encode plain) zero_ma ≡ ok (encode (replaced_or_added zero_ma plain))
replace_or_add_ma_example = replace_or_add_ma_lem zero_ma plain plain-Fits

build_response_packet_example :
    build_response_packet toy
      ((1 ∷ 5 ∷ 0 ∷ 32 ∷ []) ++ (auth ++ encode plain))
      secret
      access_reject
      5
      bob
    ≡ ok (
        signed_response toy access_reject 5 auth
          (response_attributes access_reject plain bob)
          secret)
build_response_packet_example =
    build_response_packet_lem toy secret (1 ∷ 5 ∷ 0 ∷ 32 ∷ []) auth plain access_reject 5 bob refl
      refl plain-Fits (unfold build_attribute bytes_eq in omega arith)

serve_radius_example :
    ((serve_radius bob).code ≡ access_reject ↔ IsRejected bob)
    × ((serve_radius bob).code ≡ access_accept ↔ ¬ IsRejected bob)
serve_radius_example = serve_radius_lem bob

serve_radius_with_chap_example :
    (serve_radius_with_chap bob (some auth) none).code ≡ access_accept
    ↔ (¬ IsRejected bob) × IsChap (some auth)
serve_radius_with_chap_example = serve_radius_with_chap_lem bob (some auth) none

abbrev v2 : MschapData
v2 = record { version = 3; response = replicate 24 1; peer_challenge = auth; flags = 0; name = bob }

serve_radius_with_mschap_example :
    (serve_radius_with_mschap bob (some v2)).code ≡ access_accept
    ↔ (¬ IsRejected bob) × IsMschap bob (some v2)
serve_radius_with_mschap_example = serve_radius_with_mschap_lem bob (some v2)

parse_mschap_data_example : parse_mschap_data (mschap_bytes 3 1 (replicate 49 2) bob) ≡ (
    if leb 4 (length bob) then parse_mschap_version 3 (replicate 49 2) bob else err mschap_length)
parse_mschap_data_example = parse_mschap_data_lem 3 1 (replicate 49 2) bob (omega arith)

abbrev brief : Bytes
brief = 1 ∷ 5 ∷ 0 ∷ 7 ∷ auth

handle_packet_brief_example :
    handle_packet toy secret brief ≡ ok (sends (blind_accept toy secret 5))
unfolding at
handle_packet_brief_example =
    handle_packet_brief toy secret 5 brief 7 refl refl refl refl (omega arith) (omega arith)

-- A datagram of 2048 bytes whose last attribute is a Message-Authenticator without its value.
cut_off_panics : handle_packet toy secret cut_off ≡ panic
unfolding handle_packet answer_request auth_type_of has_mschap_attributes has_chap_attributes
    has_message_authenticator validate_message_authenticator extract_ma check_ma for_attributes_or
    at slice put_u16 build_attribute bytes_eq microsoft_at
cut_off_panics = refl
