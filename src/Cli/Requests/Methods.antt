-- ===== src/Cli/Requests/Methods.antt =====
-- The three methods of the client of cmd/cli/radius-cli.go against the server of cmd/server.
use fakeradius.Base.{
  ℕ, ◌+◌, ◌≤◌, ◌≡◌, ◌⊎◌, inl, inr, refl, sym, ap, ◌∙◌, arith, List, [], ◌∷◌, ◌++◌, append-nil,
  Option, some, length, le→leb, Result, ok, All,
}
use fakeradius.Base.Bytes.{Bytes, codes, bytes_eq}
use fakeradius.Cli.Password.Decrypt.{length-encrypt_password}
use fakeradius.Cli.Password.{encrypt_password}
use fakeradius.Cli.Requests.Answers.{server_of, sent, exchange_lem}
use fakeradius.Cli.Requests.{
  nas_attributes, nas_identifier_type, pap_attributes, chap_attributes, chap_response_of,
  chap_id_at, send_access_request, send_chap_access_request, exchange,
}
use fakeradius.Crypto.{Crypto}
use fakeradius.Radius.Attributes.{access_accept, access_reject, build_attribute, reply_message_type}
use fakeradius.Radius.Decide.Policy.{name_case, rejected, allowed}
use fakeradius.Radius.Decide.{Decision, rejects, serve_radius, serve_radius_with_chap}
use fakeradius.Radius.Packet.Answer.{decision}
use fakeradius.Radius.Response.Encoded.{mirrored, response_attributes, signed_response}
use fakeradius.Radius.Walk.Encoded.{Attribute, Fits, encode, length-encode_cons}
use fakeradius.Tacacs.Authen.Decide.{IsRejected}

-- What a login comes to: an Access-Reject that says why for a name with the prefix "no_", an empty
-- Access-Accept for another, signed for the request's authenticator.
abbrev pub IsAnswered : Crypto → Bytes → Bytes → Bytes → Result Bytes → Type 0
IsAnswered c secret auth user r =
    (IsRejected user
      × (r
          ≡ ok (
              signed_response c access_reject 0 auth
                (build_attribute reply_message_type (codes "User not allowed")) secret)))
    ⊎ ((¬ IsRejected user) × (r ≡ ok (signed_response c access_accept 0 auth [] secret)))

-- A decision by the name alone.
abbrev pub ByName : Bytes → Decision → Type 0
ByName user d =
    (IsRejected user × (d ≡ rejects (codes "User not allowed")))
    ⊎ ((¬ IsRejected user) × (d.code ≡ access_accept))

serve_radius-ByName : (user : Bytes) → ByName user (serve_radius user)
unfolding serve_radius
serve_radius-ByName user = elim (name_case user) [
  | rejected r h ↦ inl (r, rw h refl)
  | allowed r h ↦ inr (r, rw h refl)
]

-- A response of seventeen bytes.
serve_radius_with_chap-ByName :
    (user response : Bytes) (challenge : Option Bytes)
    → 17 ≤ length response
    → ByName user (serve_radius_with_chap user (some response) challenge)
unfolding serve_radius_with_chap
serve_radius_with_chap-ByName user response challenge h = elim (name_case user) [
  | rejected r e ↦ inl (r, rw e refl)
  | allowed r e ↦ inr (r, rw (e, le→leb 17 (length response) h) refl)
]

pub ByName-IsAnswered :
    (c : Crypto) (secret auth user : Bytes) (r : Result Bytes) (attrs : List Attribute)
    (d : Decision)
    → mirrored attrs ≡ []
    → r ≡ ok (signed_response c d.code 0 auth (response_attributes d.code attrs d.message) secret)
    → ByName user d
    → IsAnswered c secret auth user r
unfolding bytes_eq
ByName-IsAnswered c secret auth user r attrs d unmirrored e (inl (h, k)) = inl (
  h,
  e
      ∙ ap
          (λ d.
            ok
              (signed_response c d.code 0 auth (response_attributes d.code attrs d.message) secret))
          k
      ∙ rw unmirrored refl,
)
ByName-IsAnswered c secret auth user r attrs d unmirrored e (inr (h, k)) = inr (h, e ∙ rw k refl)

abbrev pub attribute : ℕ → Bytes → Attribute
attribute kind value = record { kind = kind; value = value }

abbrev pub nas : Bytes → List Attribute
nas hostname = attribute 4 (0 ∷ 0 ∷ 0 ∷ 0 ∷ []) ∷ attribute 32 hostname ∷ []

pub length-nas : (hostname : Bytes) → length (encode (nas hostname)) ≡ 8 + length hostname
length-nas hostname = omega (
  arith,
  length-encode_cons (attribute 4 (0 ∷ 0 ∷ 0 ∷ 0 ∷ [])) (attribute 32 hostname ∷ []),
  length-encode_cons (attribute 32 hostname) [],
)

pub nas_attributes-eq : (hostname : Bytes) → encode (nas hostname) ≡ nas_attributes hostname
nas_attributes-eq hostname = rw (append-nil (build_attribute nas_identifier_type hostname)) refl

module _ (c : Crypto) (secret auth hostname user : Bytes) (size : length auth ≡ 16)
    (short_host : length hostname ≤ 253) where
  abbrev pap_attrs : Bytes → List Attribute
  pap_attrs password =
      attribute 1 user ∷ attribute 2 (encrypt_password c password secret auth) ∷ nas hostname

  -- Under an authenticator of sixteen bytes and the server's secret, with a name and a hostname of up to 253
  -- bytes and a password of up to 240, a PAP login gets the server's signed response: an Access-Reject that
  -- says that the user is not allowed if the name begins with "no_", and an Access-Accept without attributes
  -- otherwise, whatever the password.
  pub send_access_request_lem :
      (password : Bytes)
      → length user ≤ 253
      → length password ≤ 240
      → IsAnswered c secret auth user
          (send_access_request c secret (server_of c secret) auth hostname user password)
  unfolding send_access_request pap_attributes
  send_access_request_lem password short_user short_password =
      let attrs = pap_attrs password in
      let cipher = length-encrypt_password c secret password auth size in
      let fits : All Fits attrs =
        (short_user, (omega (arith, cipher), (omega arith, (short_host, tt)))) in
      let room : length (encode attrs) ≤ 2010 = omega (
        arith,
        cipher,
        length-encode_cons (attribute 1 user)
            (attribute 2 (encrypt_password c password secret auth) ∷ nas hostname),
        length-encode_cons (attribute 2 (encrypt_password c password secret auth)) (nas hostname),
        length-nas hostname,
      ) in
      ByName-IsAnswered c secret auth user _ (sent c secret auth attrs size fits refl refl room)
        (decision (sent c secret auth attrs size fits refl refl room)) refl
        (ap (exchange c secret (server_of c secret) 0 auth) (
            ap
              (λ z.
                build_attribute 1 user
                ++ (build_attribute 2 (encrypt_password c password secret auth) ++ z))
              (sym (nas_attributes-eq hostname)))
          ∙ exchange_lem c secret auth attrs size fits refl refl room)
        (serve_radius-ByName user)

  abbrev chap_attrs : ℕ → Bytes → Bytes → List Attribute
  chap_attrs nanoseconds challenge password =
      attribute 1 user
      ∷ attribute 61 (chap_response_of c (chap_id_at nanoseconds) password challenge)
      ∷ attribute 60 challenge
      ∷ nas hostname

  length-chap_response_of :
      (id : ℕ) (password challenge : Bytes) → length (chap_response_of c id password challenge) ≡ 17
  unfolding chap_response_of
  length-chap_response_of id password challenge =
      omega (arith, c.length-md5 (id ∷ (password ++ challenge)))

  -- Under an authenticator of sixteen bytes and the server's secret, with a name and a hostname of up to 253
  -- bytes and a challenge of sixteen bytes, a CHAP login gets the server's signed response: an Access-Reject
  -- that says that the user is not allowed if the name begins with "no_", and an Access-Accept without
  -- attributes otherwise, whatever the time and the password.
  pub send_chap_access_request_lem :
      (nanoseconds : ℕ) (challenge password : Bytes)
      → length user ≤ 253
      → length challenge ≡ 16
      → IsAnswered c secret auth user (
          send_chap_access_request c secret
            (server_of c secret)
            auth
            hostname
            user
            nanoseconds
            challenge
            password)
  unfolding send_chap_access_request chap_attributes
  send_chap_access_request_lem nanoseconds challenge password short_user sixteen =
      let response = chap_response_of c (chap_id_at nanoseconds) password challenge in
      let attrs = chap_attrs nanoseconds challenge password in
      let long = length-chap_response_of (chap_id_at nanoseconds) password challenge in
      let fits : All Fits attrs =
        (short_user, (omega (arith, long), (omega arith, (omega arith, (short_host, tt))))) in
      let room : length (encode attrs) ≤ 2010 = omega (
        arith,
        long,
        length-encode_cons (attribute 1 user)
            (attribute 61 response ∷ attribute 60 challenge ∷ nas hostname),
        length-encode_cons (attribute 61 response) (attribute 60 challenge ∷ nas hostname),
        length-encode_cons (attribute 60 challenge) (nas hostname),
        length-nas hostname,
      ) in
      ByName-IsAnswered c secret auth user _ (sent c secret auth attrs size fits refl refl room)
        (decision (sent c secret auth attrs size fits refl refl room)) refl
        (ap
            (λ z. exchange c secret (server_of c secret) 0 auth (
              build_attribute 1 user
              ++ (build_attribute 61 response ++ (build_attribute 60 challenge ++ z))))
            (sym (nas_attributes-eq hostname))
          ∙ exchange_lem c secret auth attrs size fits refl refl room)
        (serve_radius_with_chap-ByName user response (some challenge) (omega (arith, long)))
