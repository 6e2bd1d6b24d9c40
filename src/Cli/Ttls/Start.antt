-- ===== src/Cli/Ttls/Start.antt =====
-- The EAP-TTLS exchange between the client of cmd/cli/radius-cli.go and `handleEAP` of cmd/server/main.go.
use fakeradius.Base.{
  ℕ, ◌+◌, ◌/◌, ◌%◌, ◌^◌, ◌≤◌, ◌≡◌, refl, sym, ap, ◌∙◌, arith, Bool, true, false, not, List, [], ◌∷◌,
  ◌++◌, append-nil, length, take, take_all, ◌==◌, none, some, Result, ok, err, ◌>>=◌, read_failed,
  All, length-append,
}
use fakeradius.Base.Bytes.{Bytes, at, bytes_eq, put_u16, length-put_u16}
use fakeradius.Cli.Requests.Signed.{ma, sign_request_lem}
use fakeradius.Cli.Requests.{sign_request, exchange}
use fakeradius.Cli.Ttls.{
  build_eap_packet, extract_eap_message, get_tls_config, exchange_eap, send_ttls_access_request,
}
use fakeradius.Crypto.{Crypto}
use fakeradius.Eap.Answered.{extract-IsEapResponse, length-IsEapResponse}
use fakeradius.Eap.Dispatch.{identified_as, ttls_start, on_identity_lem, length-ttls_start}
use fakeradius.Eap.Encoded.{eap_packet, length-eap_packet, build_eap_packet_lem}
use fakeradius.Eap.Handle.{Reply, dispatch, handle_eap}
use fakeradius.Eap.Outcome.{replied}
use fakeradius.Eap.Response.{IsEapResponse}
use fakeradius.Eap.Session.{Store, put, session_of}
use fakeradius.Eap.Tls.{Activity}
use fakeradius.Eap
use fakeradius.Radius.Extract
use fakeradius.Radius.Attributes.Scan.{any}
use fakeradius.Radius.Attributes.{access_request, eap_message_type, build_attribute}
use fakeradius.Radius.Extract.Found.{eap_of}
use fakeradius.Radius.Packet.Reply.{outcome, handle_packet_lem}
use fakeradius.Radius.Packet.{ignored, sends, to_eap, handle_packet}
use fakeradius.Radius.Signature.Last.{any-signed_alone, length-encode-signed, eap_of-signed}
use fakeradius.Radius.Signature.Replace.{is_ma}
use fakeradius.Radius.Signature.RoundTrip.{
  signed, any-signed, Fits-signed, is_signed-signed, length-computed_ma,
}
use fakeradius.Radius.Signature.Validate.{packet_of}
use fakeradius.Radius.Walk.Encoded.{Attribute, Fits, encode, length-encode_cons}

-- The server of `main` in cmd/server/main.go with its sessions, as the client sees it.
abbrev pub eap_server_of :
    Crypto → Bytes → (ℕ → Activity) → ℕ → Bytes → Store → Bytes → Result Bytes
eap_server_of c secret engine now address store packet = do
  action ← handle_packet c secret (take 2048 packet)
  elim action [
    | sends r ↦ ok r
    | ignored ↦ err read_failed
    | to_eap p ↦ (do
      (_, sent) ← handle_eap c secret engine now address p store
      elim sent [ some response ↦ ok response | none ↦ err read_failed ])
  ]

-- The client's two functions do what the server's of the same names do.
same_packet :
    (code id eap_type : ℕ) (payload : Bytes)
    → build_eap_packet code id eap_type payload ≡ Eap.build_eap_packet code id eap_type payload
unfolding build_eap_packet Eap.build_eap_packet
same_packet code id eap_type payload = refl

same_message : (packet : Bytes) → extract_eap_message packet ≡ Extract.extract_eap_message packet
unfolding extract_eap_message Extract.extract_eap_message
same_message packet = refl

-- Attributes with an EAP-Message, signed, go to `handleEAP`.
outcome-to_eap :
    (c : Crypto) (secret : Bytes) (id : ℕ) (auth : Bytes) (attrs : List Attribute)
    (size : length auth ≡ 16) (fits : All Fits attrs) (no_ma : any is_ma attrs ≡ false)
    → any (λ a. a.kind == eap_message_type) attrs ≡ true
    → outcome c secret id auth (signed attrs (ma c secret id auth attrs size fits no_ma) [])
      ≡ to_eap (
          packet_of access_request id auth
            (signed attrs (ma c secret id auth attrs size fits no_ma) []))
outcome-to_eap c secret id auth attrs size fits no_ma h =
    rw
      (
        any-signed attrs (ma c secret id auth attrs size fits no_ma) [],
        is_signed-signed c secret access_request id auth attrs [] size fits tt no_ma,
        any-signed_alone (λ a. a.kind == eap_message_type) attrs
              (ma c secret id auth attrs size fits no_ma) refl
            ∙ h,
      )
      refl

abbrev pub start_reply : ℕ → Reply
start_reply eap_id = record { message = ttls_start eap_id; success = false }

-- An EAP identity, in an Access-Request with an authenticator of sixteen bytes and attributes that fit, whatever
-- the sessions are, is answered with a signed response that carries the EAP-TTLS start under the next identifier,
-- and the session of the address, a new one if there was none, has the name and the state 1.
pub handle_eap_identity :
    (c : Crypto) (secret : Bytes) (engine : ℕ → Activity) (now : ℕ) (address : Bytes)
    (store : Store) (user auth : Bytes) (sent : List Attribute) (id eap_id hi lo : ℕ)
    → length auth ≡ 16
    → All Fits sent
    → eap_of sent ≡ 2 ∷ eap_id ∷ hi ∷ lo ∷ 1 ∷ user
    → (response : Bytes) × (handle_eap c secret engine now address
          (packet_of access_request id auth sent)
          store
        ≡ ok (
          put address (identified_as (session_of store address eap_id now) eap_id user) store,
          some response,
        ))
      × IsEapResponse c secret id auth (start_reply eap_id) response
unfolding put_u16 dispatch at
handle_eap_identity c secret engine now address store user auth sent id eap_id hi lo size fits h =
    let n : ℕ = 20 + length (encode sent) in
    replied c secret engine now address store 1 id (n / 2 ^ 8 % 2 ^ 8) (n % 2 ^ 8) auth sent size
      fits 2 eap_id hi lo (1 ∷ user) h
      (identified_as (session_of store address eap_id now) eap_id user) (start_reply eap_id)
      (on_identity_lem (session_of store address eap_id now) eap_id 2 eap_id hi lo 1 user)
      (omega (arith, length-ttls_start eap_id))

-- The steps of the two sides, each with what the calls give.
exchange-ok :
    (c : Crypto) (secret : Bytes) (peer : Bytes → Result Bytes) (id : ℕ) (auth a p r : Bytes)
    → sign_request c secret id auth a ≡ ok p
    → peer p ≡ ok r
    → length r ≤ 4096
    → exchange c secret peer id auth a ≡ ok r
unfolding exchange
exchange-ok c secret peer id auth a p r h k n = rw (h, k) (ap ok (take_all 4096 r n))

eap_server_of-ok :
    (c : Crypto) (secret : Bytes) (engine : ℕ → Activity) (now : ℕ) (address : Bytes)
    (store store' : Store) (p r : Bytes)
    → handle_packet c secret (take 2048 p) ≡ ok (to_eap p)
    → handle_eap c secret engine now address p store ≡ ok (store', some r)
    → eap_server_of c secret engine now address store p ≡ ok r
eap_server_of-ok c secret engine now address store store' p r h k = rw (h, k) refl

send-ok :
    (read_file : Bytes → Result Bytes) (append_certs_from_pem : Bytes → Bool) (c : Crypto)
    (secret : Bytes) (peer : Bytes → Result Bytes) (user ca_path auth certs response : Bytes)
    → length user ≤ 65530
    → exchange c secret peer 0 auth
        (build_attribute 1 user ++ build_attribute eap_message_type (eap_packet 2 1 1 user))
      ≡ ok response
    → extract_eap_message response ≡ ok (ttls_start 1)
    → get_tls_config read_file append_certs_from_pem ca_path ≡ ok certs
    → send_ttls_access_request read_file append_certs_from_pem c secret peer user ca_path auth
      ≡ ok (response, not (bytes_eq ca_path []))
unfolding send_ttls_access_request exchange_eap at put_u16
send-ok read_file append_certs_from_pem c secret peer user ca_path auth certs response n h k
      config =
    let built = same_packet 2 1 1 user ∙ build_eap_packet_lem 2 1 1 user refl n in
    rw (built, h, k, config) refl

module _ (c : Crypto) (secret : Bytes) (engine : ℕ → Activity) (now : ℕ) (address : Bytes)
    (store : Store) (user auth : Bytes) (size : length auth ≡ 16) (short : length user ≤ 248) where
  abbrev identity : Bytes
  identity = eap_packet 2 1 1 user

  abbrev attrs : List Attribute
  attrs =
      record { kind = 1; value = user } ∷ record { kind = eap_message_type; value = identity } ∷ []

  fits : All Fits attrs
  fits = (omega arith, (omega (arith, length-eap_packet 2 1 1 user), tt))

  length-attrs : length (encode attrs) ≤ 505
  length-attrs = omega (
    arith,
    length-encode_cons (record { kind = 1; value = user })
        (record { kind = eap_message_type; value = identity } ∷ []),
    length-encode_cons (record { kind = eap_message_type; value = identity }) [],
    length-eap_packet 2 1 1 user,
  )

  abbrev value : Bytes
  value = ma c secret 0 auth attrs size fits refl

  length-value : length value ≡ 16
  length-value = length-computed_ma c secret access_request 0 auth attrs [] size fits tt refl

  abbrev sent : List Attribute
  sent = signed attrs value []

  length-sent : length (encode sent) ≡ length (encode attrs) + 18
  length-sent = length-encode-signed attrs value length-value

  sent-Fits : All Fits sent
  sent-Fits = Fits-signed attrs value [] fits length-value tt

  abbrev packet : Bytes
  packet = packet_of access_request 0 auth sent

  length-packet : length packet ≡ 20 + length (encode sent)
  length-packet = omega (
    arith,
    length-put_u16 (20 + length (encode sent)),
    length-append (put_u16 (20 + length (encode sent))) (auth ++ encode sent),
    length-append auth (encode sent),
  )

  handed_over : handle_packet c secret (take 2048 packet) ≡ ok (to_eap packet)
  handed_over =
      ap (handle_packet c secret) (
        take_all 2048 packet (omega (arith, length-packet, length-sent, length-attrs))
        ∙ sym (append-nil packet))
      ∙ handle_packet_lem c secret 0 auth sent size sent-Fits
          (omega (arith, length-sent, length-attrs)) []
      ∙ ap ok (outcome-to_eap c secret 0 auth attrs size fits refl refl)

  carried : (hi lo : ℕ) × (eap_of sent ≡ 2 ∷ 1 ∷ hi ∷ lo ∷ 1 ∷ user)
  unfolding put_u16
  carried =
      let m : ℕ = 5 + length user in
      (m / 2 ^ 8 % 2 ^ 8, m % 2 ^ 8, eap_of-signed attrs value ∙ append-nil identity)

  same_attributes :
      build_attribute 1 user ++ build_attribute eap_message_type identity ≡ encode attrs
  same_attributes =
      ap (◌++◌ (build_attribute 1 user))
        (sym (append-nil (build_attribute eap_message_type identity)))

  -- Under an authenticator of sixteen bytes and the server's secret, with a name of up to 248 bytes and
  -- certificates that can be read if a file is named, the client's EAP-TTLS login against the server returns the
  -- signed response with the EAP-TTLS start, and reports trust exactly if a file is named, whatever the server's
  -- sessions, goroutines and certificate are.
  pub send_ttls_access_request_lem :
      (read_file : Bytes → Result Bytes) (append_certs_from_pem : Bytes → Bool)
      (ca_path certs : Bytes)
      → get_tls_config read_file append_certs_from_pem ca_path ≡ ok certs
      → (response : Bytes) × (send_ttls_access_request read_file append_certs_from_pem c secret
            (eap_server_of c secret engine now address store)
            user
            ca_path
            auth
          ≡ ok (response, not (bytes_eq ca_path [])))
        × IsEapResponse c secret 0 auth (start_reply 1) response
  send_ttls_access_request_lem read_file append_certs_from_pem ca_path certs config =
      let (hi, lo, h) = carried in
      let (response, e, good) =
        handle_eap_identity c secret engine now address store user auth sent 0 1 hi lo size
          sent-Fits h in
      let signed_ok =
        sign_request_lem c secret 0 auth attrs size fits refl (omega (arith, length-attrs)) in
      let brief = length-IsEapResponse c secret 0 auth (start_reply 1) response good in
      let asked =
        exchange-ok c secret (eap_server_of c secret engine now address store) 0 auth (encode attrs)
          packet response signed_ok
          (eap_server_of-ok c secret engine now address store
            (put address (identified_as (session_of store address 1 now) 1 user) store) packet
            response handed_over e)
          (omega (arith, brief, length-ttls_start 1)) in
      let message =
        extract-IsEapResponse c secret 0 auth (start_reply 1) response good
          (omega (arith, length-ttls_start 1)) in
      (
        response,
        send-ok read_file append_certs_from_pem c secret
            (eap_server_of c secret engine now address store) user ca_path auth certs response
            (omega arith)
            (ap (exchange c secret (eap_server_of c secret engine now address store) 0 auth)
                same_attributes
              ∙ asked)
            (same_message response ∙ message) config,
        good,
      )
