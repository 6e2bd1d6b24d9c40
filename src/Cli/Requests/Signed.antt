-- ===== src/Cli/Requests/Signed.antt =====
-- The packet that the client of cmd/cli/radius-cli.go makes of well-formed attributes.
use fakeradius.Base.{
  ℕ, ◌+◌, ◌<◌, ◌≡◌, refl, sym, ap, ap₂, ◌∙◌, arith, true, false, List, [], ◌∷◌, ◌++◌, length,
  replicate, take_all, take-append, le→leb, Bool-cases, inl, inr, ok, All, length-append,
}
use fakeradius.Base.Bytes.{Bytes, u16, put_u16, length-put_u16}
use fakeradius.Cli.Requests.{request_packet, sign_request}
use fakeradius.Cli.Signature.Agrees.{client_replace_lem}
use fakeradius.Cli.Signature.{calculate_message_authenticator}
use fakeradius.Crypto.{Crypto}
use fakeradius.Radius.Attributes.Scan.{any}
use fakeradius.Radius.Attributes.{access_request}
use fakeradius.Radius.Signature.Last.{signed-append, encode-signed, length-encode-signed}
use fakeradius.Radius.Signature.Replace.{is_ma, with_ma, replaced_or_added}
use fakeradius.Radius.Signature.RoundTrip.{signed, any-signed, computed_ma, length-computed_ma}
use fakeradius.Radius.Signature.Validate.{packet_of}
use fakeradius.Radius.Signature.{zero_ma, auth_data}
use fakeradius.Radius.Walk.Encoded.{Attribute, Fits, encode}

with_ma-signed_alone :
    (z : Bytes) (attrs : List Attribute)
    → any is_ma attrs ≡ false
    → with_ma z (signed attrs z []) ≡ signed attrs z []
with_ma-signed_alone z [] h = refl
with_ma-signed_alone z (a ∷ attrs) h = elim (Bool-cases (is_ma a)) [
  | inl here ↦ let k : true ≡ false = rw here at h in cc
  | inr other ↦
      let k : any is_ma attrs ≡ false = rw other at h in
      rw other (ap (◌∷◌ a) (with_ma-signed_alone z attrs k))
]

-- A Message-Authenticator is added behind the others, or is there already and stays.
replaced_or_added-alone :
    (z : Bytes) (attrs : List Attribute)
    → any is_ma attrs ≡ false
    → replaced_or_added z attrs ≡ replaced_or_added z (signed attrs z [])
replaced_or_added-alone z attrs h =
    rw (h, any-signed attrs z [], with_ma-signed_alone z attrs h) (sym (signed-append attrs z))

-- The header in front of attributes of any kind.
pub request_packet_lem :
    (id : ℕ) (auth : Bytes) (attrs : List Attribute)
    → length auth ≡ 16
    → 20 + length (encode attrs) < 65536
    → request_packet id auth (encode attrs) ≡ ok (packet_of access_request id auth attrs)
unfolding request_packet
request_packet_lem id auth attrs size h =
    let n : ℕ = 20 + length (encode attrs) in
    let e : u16 n ≡ n = omega arith in
    rw (e, le→leb 20 n (omega arith), take-append 16 auth (replicate 16 0) (sym size))
      (ap ok (
        take_all n (packet_of access_request id auth attrs) (
          omega (
            arith,
            length-put_u16 n,
            length-append (put_u16 n) (auth ++ encode attrs),
            length-append auth (encode attrs),
          ))))

module _ (c : Crypto) (secret : Bytes) (id : ℕ) (auth : Bytes) (attrs : List Attribute)
    (size : length auth ≡ 16) (fits : All Fits attrs) (none : any is_ma attrs ≡ false) where
  abbrev pub ma : Bytes
  ma = computed_ma c secret access_request id auth attrs [] size fits tt none

  client_calculate :
      calculate_message_authenticator c access_request id
        (20 + length (encode attrs) + 18)
        auth
        secret
        (encode attrs)
      ≡ ok ma
  unfolding calculate_message_authenticator
  client_calculate =
      rw (client_replace_lem attrs fits zero_ma, take-append 16 auth (replicate 16 0) (sym size))
        (ap₂ (λ n r. ok (c.hmac_md5 secret (auth_data access_request id n auth (encode r))))
          (omega (arith, length-encode-signed attrs zero_ma refl))
          (replaced_or_added-alone zero_ma attrs none))

  -- Attributes that fit, none of them a Message-Authenticator, become a well-formed packet that carries the
  -- value that the server's check expects.
  pub sign_request_lem :
      length (encode attrs) + 38 < 65536
      → sign_request c secret id auth (encode attrs)
        ≡ ok (packet_of access_request id auth (signed attrs ma []))
  unfolding sign_request
  sign_request_lem h =
      let e : u16 (20 + length (encode attrs) + 18) ≡ 20 + length (encode attrs) + 18 =
        omega arith in
      let long =
        length-encode-signed attrs ma
          (length-computed_ma c secret access_request id auth attrs [] size fits tt none) in
      rw (e, client_calculate)
        (ap (request_packet id auth) (sym (encode-signed attrs ma))
          ∙ request_packet_lem id auth (signed attrs ma []) size (omega arith))
