-- ===== src/Eap/Response.antt =====
-- What the EAP responses of `handleEAP` in cmd/server/main.go carry.
pub mod Contents
use fakeradius.Base.{
  ℕ, zero, suc, ◌+◌, ◌-◌, ◌*◌, ◌/◌, ◌%◌, ◌^◌, ◌≤◌, ◌<◌, ◌≡◌, ◌⊎◌, inl, inr, refl, sym, ap, ◌∙◌,
  arith, Bool, true, false, List, [], ◌∷◌, ◌++◌, append-nil, append_assoc, length, take, drop,
  replicate, length-take, length-drop, length-replicate, take-append, take-append-drop, ltb, ◌==◌,
  if◌then◌else◌, Result, ok, ◌>>=◌, Bool-cases, All, length-append,
}
use fakeradius.Base.Bytes.{Bytes, at, slice, slice-append, u16, put_u16, length-put_u16}
use fakeradius.Crypto.{Crypto}
use fakeradius.Eap.Handle.{Reply, unsigned_attributes, build_eap_response}
use fakeradius.Eap.Response.Contents.{
  base, Carries, base-Carries, unsigned_attributes-eq, value_put_in,
}
use fakeradius.Eap.{
  access_challenge, hex, hex_digit, padded, state_value, eap_chunks, eap_attributes,
}
use fakeradius.Radius.Attributes.Scan.{any}
use fakeradius.Radius.Attributes.{
  access_accept, eap_message_type, state_attribute_type, message_authenticator_type,
  build_attribute,
}
use fakeradius.Radius.Extract.Found.{eap_of}
use fakeradius.Radius.Response.Encoded.{signed_response, build_whole}
use fakeradius.Radius.Response.{assemble, response_authenticator}
use fakeradius.Radius.Signature.Last.{encode-signed, length-encode-signed, eap_of-signed}
use fakeradius.Radius.Signature.Replace.{is_ma, ma_of, encode-append}
use fakeradius.Radius.Signature.RoundTrip.{
  signed, Fits-signed, calculate_lem, computed_ma, length-computed_ma, is_signed-signed,
}
use fakeradius.Radius.Signature.Validate.{is_signed}
use fakeradius.Radius.Signature.{zero_ma}
use fakeradius.Radius.Walk.Encoded.{Attribute, Fits, encode, length-encode_cons}

-- A request of a header and attributes.
abbrev pub request_of : ℕ → ℕ → ℕ → ℕ → Bytes → Bytes → Bytes
request_of code id hi lo auth rest = (code ∷ id ∷ hi ∷ lo ∷ []) ++ (auth ++ rest)

abbrev pub response_code : Bool → ℕ
response_code success = if success then access_accept else access_challenge

-- A response for a request's identifier and authenticator, signed in both ways, that carries an EAP message.
abbrev pub IsEapResponse : Crypto → Bytes → ℕ → Bytes → Reply → Bytes → Type 0
IsEapResponse c secret id auth reply response =
    (attrs : List Attribute) × (response
      ≡ signed_response c (response_code reply.success) id auth (encode attrs) secret)
    × All Fits attrs
    × (is_signed c secret (response_code reply.success) id auth attrs ≡ true)
    × (eap_of attrs ≡ reply.message)
    × (length (encode attrs) ≤ 3 * length reply.message + 48)

module _ (c : Crypto) (secret : Bytes) (code id hi lo : ℕ) (auth rest : Bytes) (eap_id now : ℕ)
    (reply : Reply) (size : length auth ≡ 16) (room : length reply.message ≤ 20000) where
  abbrev before : List Attribute
  before = base reply.success eap_id now reply.message

  carried : Carries reply.message before
  carried = base-Carries reply.success eap_id now reply.message

  abbrev ma : Bytes
  ma =
      computed_ma c secret (response_code reply.success) id auth before [] size carried.0 tt
        carried.1

  length-ma : length ma ≡ 16
  length-ma =
      length-computed_ma c secret (response_code reply.success) id auth before [] size carried.0 tt
        carried.1

  abbrev total : ℕ
  total = 20 + length (encode (signed before zero_ma []))

  length-filled : length (encode (signed before ma [])) ≡ length (encode (signed before zero_ma []))
  length-filled =
      length-encode-signed before ma length-ma ∙ sym (length-encode-signed before zero_ma refl)

  built :
      build_eap_response c secret (request_of code id hi lo auth rest) eap_id now reply
      ≡ ok (
          signed_response c
            (response_code reply.success)
            id
            auth
            (encode (signed before ma []))
            secret)
  unfolding build_eap_response at
  built =
      let small = length-encode-signed before zero_ma refl in
      let e : u16 total ≡ total = omega (arith, small, carried.3) in
      let f : u16 (20 + length (encode (signed before ma []))) ≡ total =
        omega (arith, small, carried.3, length-filled) in
      rw
        (
          unsigned_attributes-eq reply.success eap_id now reply.message,
          slice-append (code ∷ id ∷ hi ∷ lo ∷ []) auth rest 4 20 refl (omega arith),
          e,
          calculate_lem c secret (response_code reply.success) id auth before [] size carried.0 tt
              carried.1,
          value_put_in before ma length-ma,
        )
        (ap
            (λ n.
              assemble c (response_code reply.success) id n
                (response_authenticator c (response_code reply.success) id n auth
                  (encode (signed before ma [])) secret)
                (encode (signed before ma [])))
            (sym f)
          ∙ build_whole c secret auth (response_code reply.success) id
              (encode (signed before ma [])) (omega (arith, small, carried.3, length-filled)))

  -- For a request
  pub build_eap_response_lem :
      (response : Bytes) × (build_eap_response c secret
          (request_of code id hi lo auth rest)
          eap_id
          now
          reply
        ≡ ok response)
      × IsEapResponse c secret id auth reply response
  build_eap_response_lem = (
    signed_response c (response_code reply.success) id auth (encode (signed before ma [])) secret,
    built,
    (
      signed before ma [],
      refl,
      Fits-signed before ma [] carried.0 length-ma tt,
      is_signed-signed c secret (response_code reply.success) id auth before [] size carried.0 tt
          carried.1,
      eap_of-signed before ma ∙ carried.2,
      omega (arith, length-encode-signed before ma length-ma, carried.3),
    ),
  )
