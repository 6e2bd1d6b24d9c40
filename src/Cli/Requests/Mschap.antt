-- ===== src/Cli/Requests/Mschap.antt =====
-- The MS-CHAP request of cmd/cli/radius-cli.go against the parser and the server of cmd/server.
use fakeradius.Base.{
  ◌+◌, ◌≤◌, ◌≡◌, inl, inr, refl, sym, ap, ◌∙◌, arith, List, [], ◌∷◌, ◌++◌, append_assoc, none, some,
  length, drop, replicate, leb, ge→ltb, ok, err, Bool-cases, All, if◌then◌else◌, length-append,
  mschap_length,
}
use fakeradius.Base.Bytes.{
  Bytes, bytes_eq_refl, at, at-eq, slice, slice-eq, put_u16, length-put_u16, u16,
}
use fakeradius.Cli.Requests.Answers.{server_of, sent, exchange_lem}
use fakeradius.Cli.Requests.Methods.{
  IsAnswered, ByName, ByName-IsAnswered, attribute, nas, length-nas, nas_attributes-eq,
}
use fakeradius.Cli.Requests.{
  mschap_attributes, mschap_content, mschap_vendor_data, send_mschap_access_request, exchange,
}
use fakeradius.Crypto.{Crypto}
use fakeradius.Radius.Attributes.{build_attribute}
use fakeradius.Radius.Decide.Policy.{name_case, rejected, allowed}
use fakeradius.Radius.Decide.{serve_radius_with_mschap}
use fakeradius.Radius.Mschap.Fields.{mschap_bytes, parse_mschap_data_lem}
use fakeradius.Radius.Mschap.{
  MschapData, parse_mschap_data, parse_mschap_version, validate_mschap_response,
}
use fakeradius.Radius.Packet.Answer.{decision}
use fakeradius.Radius.Walk.Encoded.{Attribute, Fits, encode, length-encode_cons}

-- What the server makes of the client's data.
abbrev pub mschap_data_of : Bytes → Bytes → Bytes → MschapData
mschap_data_of peer nt user = record {
  version = 3;
  response = nt;
  peer_challenge = peer;
  flags = 0;
  name = user;
}

module _ (user peer nt : Bytes) (peer_size : length peer ≡ 16) (nt_size : length nt ≡ 24) where
  abbrev content : Bytes
  content = mschap_content peer nt

  length-content : length content ≡ 49
  length-content =
      omega (arith, length-append peer (replicate 8 0 ++ (nt ++ 0 ∷ [])), length-append nt (0 ∷ []))

  abbrev front : Bytes
  front = peer ++ replicate 8 0

  length-front : length front ≡ 24
  length-front = omega (arith, length-append peer (replicate 8 0))

  parse_version : parse_mschap_version 3 content user ≡ ok (mschap_data_of peer nt user)
  unfolding parse_mschap_version
  parse_version =
      let cut : slice content 0 16 ≡ ok peer =
        slice-eq content [] peer (replicate 8 0 ++ (nt ++ 0 ∷ [])) 0 16 refl refl
          (omega (arith, peer_size)) in
      let whole : content ≡ front ++ (nt ++ 0 ∷ []) =
        sym (append_assoc peer (replicate 8 0) (nt ++ 0 ∷ [])) in
      let cut_nt : slice content 24 48 ≡ ok nt =
        slice-eq content front nt (0 ∷ []) 24 48 whole (sym length-front)
          (omega (arith, length-front)) in
      let last : at content 48 ≡ ok 0 =
        at-eq content (front ++ nt) 0 [] 48 (whole ∙ sym (append_assoc front nt (0 ∷ [])))
          (omega (arith, length-front, length-append front nt)) in
      rw (ge→ltb (length content) 49 (omega (arith, length-content)), cut, cut_nt, last) refl

  vendor_data_lem : mschap_vendor_data user peer nt ≡ 0 ∷ 0 ∷ 1 ∷ 55 ∷ mschap_bytes 3 0 content user
  unfolding mschap_vendor_data
  vendor_data_lem =
      let small : u16 (4 + length content) ≡ 4 + length content = omega (arith, length-content) in
      ap (λ n. 0 ∷ 0 ∷ 1 ∷ 55 ∷ 3 ∷ 0 ∷ (put_u16 n ++ (content ++ user))) small

  -- Of the client's MS-CHAP data with a peer challenge of 16 bytes and a response of 24 the server reads both
  -- and the name where the name has four bytes or more, and refuses the length where it has fewer.
  pub parse_mschap_data-mschap_vendor_data :
      parse_mschap_data (drop 4 (mschap_vendor_data user peer nt))
      ≡ (if leb 4 (length user) then ok (mschap_data_of peer nt user) else err mschap_length)
  parse_mschap_data-mschap_vendor_data =
      ap (λ v. parse_mschap_data (drop 4 v)) vendor_data_lem
      ∙ parse_mschap_data_lem 3 0 content user (omega (arith, length-content))
      ∙ ap (λ r. if leb 4 (length user) then r else err mschap_length) parse_version

  length-vendor_data : length (mschap_vendor_data user peer nt) ≡ 57 + length user
  length-vendor_data = omega (
    arith,
    ap length vendor_data_lem,
    length-put_u16 (4 + length content),
    length-append (put_u16 (4 + length content)) (content ++ user),
    length-append content user,
    length-content,
  )

  serve_radius_with_mschap-ByName : ByName user (
      serve_radius_with_mschap user
        (elim (parse_mschap_data (drop 4 (mschap_vendor_data user peer nt))) [
          | ok d ↦ some d
          | _ ↦ none
        ]))
  unfolding serve_radius_with_mschap validate_mschap_response
  serve_radius_with_mschap-ByName = elim (name_case user) [
    | rejected r h ↦ inl (r, rw h refl)
    | allowed r h ↦ inr (
      r,
      elim (Bool-cases (leb 4 (length user))) [
        | inl e ↦ rw (h, parse_mschap_data-mschap_vendor_data, e, bytes_eq_refl user, nt_size) refl
        | inr e ↦ rw (h, parse_mschap_data-mschap_vendor_data, e) refl
      ],
    )
  ]

module _ (c : Crypto) (secret auth hostname user : Bytes) (size : length auth ≡ 16)
    (short_host : length hostname ≤ 253) where
  abbrev mschap_attrs : Bytes → Bytes → List Attribute
  mschap_attrs peer nt =
      attribute 1 user ∷ attribute 26 (mschap_vendor_data user peer nt) ∷ nas hostname

  -- Under an authenticator of sixteen bytes and the server's secret, with a name of up to 196 bytes, a hostname
  -- of up to 253, a peer challenge of 16 and a response of 24, an MS-CHAP login gets the server's signed
  -- response: an Access-Reject that says that the user is not allowed if the name begins with "no_", and an
  -- Access-Accept without attributes otherwise, whatever the password.
  pub send_mschap_access_request_lem :
      (peer nt password : Bytes)
      → length user ≤ 196
      → length peer ≡ 16
      → length nt ≡ 24
      → IsAnswered c secret auth user (
          send_mschap_access_request c secret
            (server_of c secret)
            auth
            hostname
            user
            peer
            nt
            password)
  unfolding send_mschap_access_request mschap_attributes mschap_vendor_data
  send_mschap_access_request_lem peer nt password short_user peer_size nt_size =
      let attrs = mschap_attrs peer nt in
      let long = length-vendor_data user peer nt peer_size nt_size in
      let fits : All Fits attrs =
        (omega arith, (omega (arith, long), (omega arith, (short_host, tt)))) in
      let room : length (encode attrs) ≤ 2010 = omega (
        arith,
        long,
        length-encode_cons (attribute 1 user)
            (attribute 26 (mschap_vendor_data user peer nt) ∷ nas hostname),
        length-encode_cons (attribute 26 (mschap_vendor_data user peer nt)) (nas hostname),
        length-nas hostname,
      ) in
      ByName-IsAnswered c secret auth user _ (sent c secret auth attrs size fits refl refl room)
        (decision (sent c secret auth attrs size fits refl refl room)) refl
        (ap
            (λ z. exchange c secret (server_of c secret) 0 auth (
              build_attribute 1 user
              ++ (build_attribute 26 (mschap_vendor_data user peer nt) ++ z)))
            (sym (nas_attributes-eq hostname))
          ∙ exchange_lem c secret auth attrs size fits refl refl room)
        (serve_radius_with_mschap-ByName user peer nt peer_size nt_size)
