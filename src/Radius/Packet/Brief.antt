-- ===== src/Radius/Packet/Brief.antt =====
-- `handlePacket` of cmd/server/main.go on a declared length below twenty.
use fakeradius.Base.{
  ℕ, ◌≤◌, ◌<◌, ◌≡◌, refl, ◌∙◌, arith, false, [], ◌∷◌, ◌++◌, none, length, replicate, take, Result,
  ok, err, lt→ltb, gt→leb, user_name_not_found,
}
use fakeradius.Base.Bytes.{Bytes, at, slice-between, put_u16, codes, bytes_eq}
use fakeradius.Crypto.{Crypto}
use fakeradius.Radius.Attributes.{
  user_name_type, access_request, access_accept, has_mschap_attributes, has_chap_attributes,
  has_eap_attributes, has_message_authenticator,
}
use fakeradius.Radius.Decide.{serve_radius, has_no_prefix}
use fakeradius.Radius.Extract.{extract_username, take_value}
use fakeradius.Radius.Packet.Reply.{received}
use fakeradius.Radius.Packet.{
  sends, username_of, decide, auth_type_of, answer_request, handle_packet,
}
use fakeradius.Radius.Response.Total.{assemble-ok}
use fakeradius.Radius.Response.{
  request_authenticator, response_authenticator, build_response_packet,
}
use fakeradius.Radius.Walk.Step
use fakeradius.Radius.Walk.{Flow, for_attributes}

module _ (p : Bytes) (brief : length p < 20) where
  -- No attribute loop runs.
  no_rounds :
      {S : Type 0} (body : ℕ → ℕ → ℕ → S → Result (Flow S)) (s : S)
      → for_attributes body p (length p) 20 s ≡ ok s
  no_rounds body s = Step.walk_past (λ _ s. ok s) body p (length p) (length p) 20 s (omega arith)

  no_mschap : has_mschap_attributes p ≡ ok false
  unfolding has_mschap_attributes
  no_mschap = no_rounds _ false

  no_chap : has_chap_attributes p ≡ ok false
  unfolding has_chap_attributes
  no_chap = no_rounds _ false

  no_eap : has_eap_attributes p ≡ ok false
  unfolding has_eap_attributes
  no_eap = no_rounds _ false

  no_ma : has_message_authenticator p ≡ ok false
  unfolding has_message_authenticator
  no_ma = rw (lt→ltb (length p) 20 brief) refl

  no_name : extract_username p ≡ err user_name_not_found
  unfolding extract_username
  no_name = rw (no_rounds (take_value user_name_type p) none) refl

  no_user : username_of p ≡ ok (codes "(unknown)")
  unfolding username_of
  no_user = rw no_name refl

  plain_decision : decide p (codes "(unknown)") ≡ ok (serve_radius (codes "(unknown)"))
  unfolding decide
  plain_decision = rw (no_mschap, no_chap) refl

  zero_authenticator : request_authenticator p ≡ ok (replicate 16 0)
  unfolding request_authenticator
  zero_authenticator = rw (gt→leb 20 (length p) brief) refl

-- An Access-Accept to a request whose authenticator is taken for zeros.
abbrev pub blind_accept : Crypto → Bytes → ℕ → Bytes
blind_accept c secret id =
    let signed = response_authenticator c access_accept id 20 (replicate 16 0) [] secret in
    take 20 (access_accept ∷ id ∷ (put_u16 20 ++ (signed ++ [])))

module _ (c : Crypto) (secret : Bytes) (id : ℕ) where
  answer_request_brief :
      (p : Bytes)
      → length p < 20
      → answer_request c secret p id ≡ ok (sends (blind_accept c secret id))
  unfolding answer_request auth_type_of serve_radius has_no_prefix bytes_eq build_response_packet
  answer_request_brief p brief =
      rw
        (
          no_mschap p brief,
          no_chap p brief,
          no_ma p brief,
          no_eap p brief,
          no_user p brief,
          plain_decision p brief,
          zero_authenticator p brief,
          assemble-ok c access_accept id 20
              (response_authenticator c access_accept id 20 (replicate 16 0) [] secret) []
              (omega arith),
        )
        refl

  -- A datagram of twenty bytes or more with the code of an Access-Request and a declared length below
  -- twenty is answered with an Access-Accept, whatever the rest of it.
  pub handle_packet_brief :
      (datagram : Bytes) (lo : ℕ)
      → at datagram 0 ≡ ok access_request
      → at datagram 1 ≡ ok id
      → at datagram 2 ≡ ok 0
      → at datagram 3 ≡ ok lo
      → lo < 20
      → 20 ≤ length datagram
      → handle_packet c secret datagram ≡ ok (sends (blind_accept c secret id))
  handle_packet_brief datagram lo e0 e1 e2 e3 brief enough =
      let (p, cut, size) = slice-between datagram 0 lo (omega arith) (omega arith) in
      received c secret id datagram p 0 lo lo e0 e1 e2 e3 (omega arith) enough (omega arith) cut
      ∙ answer_request_brief p (omega arith)
