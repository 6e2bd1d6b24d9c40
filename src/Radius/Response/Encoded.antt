-- ===== src/Radius/Response/Encoded.antt =====
-- `buildResponsePacket` of cmd/server/handler.go on a well-formed request.
use fakeradius.Base.{
  ℕ, ◌+◌, ◌<◌, ◌≡◌, refl, sym, ap, ◌∙◌, arith, inl, inr, ◌||◌, List, [], ◌∷◌, ◌++◌, append-nil,
  append_assoc, length, take_all, ◌==◌, ok, le→leb, Bool-cases, if◌then◌else◌, length-append, All,
}
use fakeradius.Base.Bytes.{Bytes, slice-append, u16, put_u16, length-put_u16}
use fakeradius.Crypto.{Crypto}
use fakeradius.Radius.Attributes.Total.{malformed-fits}
use fakeradius.Radius.Attributes.{access_accept}
use fakeradius.Radius.Response.Total.{with_message, assemble-ok}
use fakeradius.Radius.Response.{
  is_mirrored, mirror, request_authenticator, assemble, response_authenticator,
  build_response_packet,
}
use fakeradius.Radius.Walk.Encoded.{
  Attribute, Fits, encode, extent, attribute_bytes-eq, run, for_attributes_encoded, extent-fits,
  slice-whole,
}
use fakeradius.Radius.Walk.{Flow, next, for_attributes}

-- The Proxy-State and State attributes, in their order.
abbrev pub mirrored : List Attribute → List Attribute
mirrored [] = []
mirrored (a ∷ attrs) = if a.kind == 33 || a.kind == 24 then a ∷ mirrored attrs else mirrored attrs

abbrev mirror_step : Attribute → Bytes → Flow Bytes
mirror_step a s = next (if is_mirrored a.kind then s ++ (a.kind ∷ extent a ∷ a.value) else s)

run-mirror_step :
    (attrs : List Attribute) (s : Bytes)
    → All Fits attrs
    → run mirror_step attrs s ≡ s ++ encode (mirrored attrs)
run-mirror_step [] s fits = rw (append-nil s) refl
run-mirror_step (a ∷ attrs) s fits = elim (Bool-cases (is_mirrored a.kind)) [
  | inr other ↦ rw (run, other) (run-mirror_step attrs s fits.1)
  | inl here ↦
      rw (run, here)
        (run-mirror_step attrs (s ++ (a.kind ∷ extent a ∷ a.value)) fits.1
          ∙ append_assoc s (a.kind ∷ extent a ∷ a.value) (encode (mirrored attrs))
          ∙ ap (λ z. s ++ (z ++ encode (mirrored attrs))) (sym (attribute_bytes-eq a fits.0)))
]

mirror_lem :
    (packet pre : Bytes) (a : Attribute) (post s : Bytes)
    → packet ≡ pre ++ (a.kind ∷ extent a ∷ (a.value ++ post))
    → mirror packet (length pre) a.kind (extent a) s ≡ ok (mirror_step a s)
mirror_lem packet pre a post s e =
    let good =
      malformed-fits packet (length pre) (extent a) (omega arith)
        (extent-fits packet pre a post e) in
    elim (Bool-cases (is_mirrored a.kind)) [
      | inr other ↦ rw (good, other) refl
      | inl here ↦ rw (good, here, slice-whole packet pre a post e) refl
    ]

-- What a response carries: an Access-Accept nothing, another code the mirrored attributes and the message.
abbrev pub response_attributes : ℕ → List Attribute → Bytes → Bytes
response_attributes code attrs message =
    if code == access_accept then [] else with_message (encode (mirrored attrs)) message

-- RFC 2865 §3: the code, the identifier of the request, the length, and the Response Authenticator
-- MD5(Code + Identifier + Length + Request Authenticator + Attributes + Secret).
abbrev pub signed_response : Crypto → ℕ → ℕ → Bytes → Bytes → Bytes → Bytes
signed_response c code id auth attributes secret =
    let len = 20 + length attributes in
    code
    ∷ id
    ∷ (put_u16 len
        ++ (c.md5 (code ∷ id ∷ (put_u16 len ++ (auth ++ (attributes ++ secret)))) ++ attributes))

pub length-signed_response :
    (c : Crypto) (code id : ℕ) (auth attributes secret : Bytes)
    → length (signed_response c code id auth attributes secret) ≡ 20 + length attributes
length-signed_response c code id auth attributes secret =
    let n : ℕ = 20 + length attributes in
    let digest = c.md5 (code ∷ id ∷ (put_u16 n ++ (auth ++ (attributes ++ secret)))) in
    omega (
      arith,
      length-put_u16 n,
      length-append (put_u16 n) (digest ++ attributes),
      length-append digest attributes,
      c.length-md5 (code ∷ id ∷ (put_u16 n ++ (auth ++ (attributes ++ secret)))),
    )

response_authenticator_lem :
    (c : Crypto) (code id n : ℕ) (auth attributes secret : Bytes)
    → response_authenticator c code id n auth attributes secret
      ≡ c.md5 (code ∷ id ∷ (put_u16 n ++ (auth ++ (attributes ++ secret))))
unfolding response_authenticator
response_authenticator_lem c code id n auth attributes secret = refl

length-response_authenticator :
    (c : Crypto) (code id n : ℕ) (auth attributes secret : Bytes)
    → length (response_authenticator c code id n auth attributes secret) ≡ 16
unfolding response_authenticator
length-response_authenticator c code id n auth attributes secret =
    c.length-md5 (code ∷ id ∷ (put_u16 n ++ (auth ++ (attributes ++ secret))))

-- For attributes of less than 65516 bytes the packet has all of them.
module _ (c : Crypto) (secret auth : Bytes) (code id : ℕ) where
  pub build_whole :
      (attributes : Bytes)
      → 20 + length attributes < 65536
      → (let n = u16 (20 + length attributes) in
          assemble c code id n
            (response_authenticator c code id n auth attributes secret)
            attributes)
        ≡ ok (signed_response c code id auth attributes secret)
  build_whole attributes h =
      let n : ℕ = 20 + length attributes in
      let e : u16 n ≡ n = omega arith in
      let signed = response_authenticator c code id n auth attributes secret in
      ap
        (λ k.
          assemble c code id k (response_authenticator c code id k auth attributes secret)
            attributes)
        e
      ∙ assemble-ok c code id n signed attributes (omega arith)
      ∙ ap ok (
          take_all n (code ∷ id ∷ (put_u16 n ++ (signed ++ attributes))) (
            omega (
              arith,
              length-append (put_u16 n) (signed ++ attributes),
              length-put_u16 n,
              length-append signed attributes,
              length-response_authenticator c code id n auth attributes secret,
            )))
      ∙ ap (λ z. ok (code ∷ id ∷ (put_u16 n ++ (z ++ attributes))))
          (response_authenticator_lem c code id n auth attributes secret)

module _ (c : Crypto) (secret fixed auth : Bytes) (attrs : List Attribute) (code id : ℕ)
    (message : Bytes) where
  request_authenticator_lem :
      length fixed ≡ 4
      → length auth ≡ 16
      → request_authenticator (fixed ++ (auth ++ encode attrs)) ≡ ok auth
  unfolding request_authenticator
  request_authenticator_lem four sixteen =
      rw
        (
          le→leb 20 (length (fixed ++ (auth ++ encode attrs))) (
              omega (
                arith,
                length-append fixed (auth ++ encode attrs),
                length-append auth (encode attrs),
              )),
          slice-append fixed auth (encode attrs) 4 20 (sym four) (omega arith),
        )
        refl

  mirror_whole :
      length fixed ≡ 4
      → length auth ≡ 16
      → All Fits attrs
      → (let packet = fixed ++ (auth ++ encode attrs) in
          for_attributes (mirror packet) packet (length packet) 20 [])
        ≡ ok (encode (mirrored attrs))
  mirror_whole four sixteen fits =
      let packet = (fixed ++ auth) ++ encode attrs in
      ap (λ p. for_attributes (mirror p) p (length p) 20 [])
        (sym (append_assoc fixed auth (encode attrs)))
      ∙ for_attributes_encoded (mirror packet) (fixed ++ auth) attrs mirror_step
          (omega (arith, length-append fixed auth)) fits
          (λ pre a post s e. mirror_lem packet pre a post s e) []
      ∙ ap ok (run-mirror_step attrs [] fits)

  -- To a request with an authenticator of sixteen bytes and attributes that fit, the response has the
  -- code, the identifier, its own length, the Response Authenticator of RFC 2865 and its attributes:
  -- none in an Access-Accept, else the request's Proxy-State and State attributes in their order and
  -- then the Reply-Message if it is not empty; as long as these have less than 65516 bytes.
  pub build_response_packet_lem :
      length fixed ≡ 4
      → length auth ≡ 16
      → All Fits attrs
      → length (response_attributes code attrs message) < 65516
      → build_response_packet c (fixed ++ (auth ++ encode attrs)) secret code id message
        ≡ ok (signed_response c code id auth (response_attributes code attrs message) secret)
  unfolding build_response_packet
  build_response_packet_lem four sixteen fits h =
      let auth_eq = request_authenticator_lem four sixteen in
      elim (Bool-cases (code == access_accept)) [
        | inl accept ↦ rw (auth_eq, accept) (build_whole c secret auth code id [] (omega arith))
        | inr other ↦
            let room : length (with_message (encode (mirrored attrs)) message) < 65516 =
              rw other at h in
            rw (auth_eq, other, mirror_whole four sixteen fits)
              (build_whole c secret auth code id (with_message (encode (mirrored attrs)) message)
                (omega arith))
      ]
