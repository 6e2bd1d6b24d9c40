-- ===== src/Cli/Display/Encoded.antt =====
-- `DisplayResponse` of cmd/cli/radius-cli.go on a signed response of cmd/server.
use fakeradius.Base.{
  ℕ, ◌+◌, ◌<◌, ◌≡◌, refl, sym, ap, ◌∙◌, arith, List, [], ◌∷◌, ◌++◌, map, append-nil, append_assoc,
  length, ge→ltb, ok, All, length-append,
}
use fakeradius.Base.Bytes.{Bytes, at, slice, slice-eq, put_u16, length-put_u16, length_bytes}
use fakeradius.Cli.Display.{Row, row, code_to_string, append_row, shown, hex_dump, display_response}
use fakeradius.Crypto.{Crypto}
use fakeradius.Radius.Attributes.Total.{malformed-fits}
use fakeradius.Radius.Response.Encoded.{signed_response, length-signed_response}
use fakeradius.Radius.Walk.Encoded.{
  Attribute, Fits, encode, extent, run, for_attributes_encoded, extent-fits, slice-value,
}
use fakeradius.Radius.Walk.{Flow, next, for_attributes}

abbrev pub rows_of : List Attribute → List Row
rows_of attrs = map (λ a. row a.kind a.value) attrs

abbrev row_step : Attribute → List Row → Flow (List Row)
row_step a rows = next (rows ++ row a.kind a.value ∷ [])

run-row_step :
    (attrs : List Attribute) (rows : List Row) → run row_step attrs rows ≡ rows ++ rows_of attrs
run-row_step [] rows = sym (append-nil rows)
run-row_step (a ∷ attrs) rows =
    run-row_step attrs (rows ++ row a.kind a.value ∷ [])
    ∙ append_assoc rows (row a.kind a.value ∷ []) (rows_of attrs)

append_row_lem :
    (packet pre : Bytes) (a : Attribute) (post : Bytes) (rows : List Row)
    → packet ≡ pre ++ (a.kind ∷ extent a ∷ (a.value ++ post))
    → append_row packet (length pre) a.kind (extent a) rows ≡ ok (row_step a rows)
append_row_lem packet pre a post rows e =
    let good =
      malformed-fits packet (length pre) (extent a) (omega arith)
        (extent-fits packet pre a post e) in
    rw (good, slice-value packet pre a post e) refl

module _ (c : Crypto) (secret : Bytes) (code id : ℕ) (auth : Bytes) (attrs : List Attribute)
    (fits : All Fits attrs) (room : length (encode attrs) < 65516) where
  abbrev n : ℕ
  n = 20 + length (encode attrs)

  abbrev pub digest : Bytes
  digest = c.md5 (code ∷ id ∷ (put_u16 n ++ (auth ++ (encode attrs ++ secret))))

  abbrev received : Bytes
  received = signed_response c code id auth (encode attrs) secret

  abbrev head : Bytes
  head = code ∷ id ∷ (put_u16 n ++ digest)

  length-head : length head ≡ 20
  length-head = omega (
    arith,
    length-append (put_u16 n) digest,
    length-put_u16 n,
    c.length-md5 (code ∷ id ∷ (put_u16 n ++ (auth ++ (encode attrs ++ secret)))),
  )

  whole : received ≡ head ++ encode attrs
  whole = ap (λ z. code ∷ id ∷ z) (sym (append_assoc (put_u16 n) digest (encode attrs)))

  rows_lem :
      for_attributes (append_row received) received (length received) 20 [] ≡ ok (rows_of attrs)
  rows_lem =
      ap (λ p. for_attributes (append_row p) p (length p) 20 []) whole
      ∙ for_attributes_encoded (append_row (head ++ encode attrs)) head attrs row_step length-head
          fits (λ pre a post s e. append_row_lem (head ++ encode attrs) pre a post s e) []
      ∙ ap ok (run-row_step attrs [])

  -- A signed response is shown with its fields, a row for each attribute and its dump.
  pub display_response-signed_response :
      display_response received
      ≡ ok (
          shown code
            (code_to_string code)
            id
            (20 + length (encode attrs))
            digest
            (rows_of attrs)
            (hex_dump (length received) 0 received))
  unfolding display_response at
  display_response-signed_response =
      let (hi, lo, e2, e3, e) = length_bytes code id n (digest ++ encode attrs) (omega arith) in
      let long : length received ≡ n =
        length-signed_response c code id auth (encode attrs) secret in
      let cut : slice received 0 n ≡ ok received =
        slice-eq received [] received [] 0 n (sym (append-nil received)) refl
          (omega (arith, long)) in
      let cut' : slice received 4 20 ≡ ok digest =
        slice-eq received (code ∷ id ∷ put_u16 n) digest (encode attrs) 4 20 refl
          (omega (arith, length-put_u16 n))
          (omega (
            arith,
            c.length-md5 (code ∷ id ∷ (put_u16 n ++ (auth ++ (encode attrs ++ secret)))),
          )) in
      let all : for_attributes (append_row received) received n 20 [] ≡ ok (rows_of attrs) =
        ap (λ k. for_attributes (append_row received) received k 20 []) (sym long) ∙ rows_lem in
      rw
        (
          ge→ltb (length received) 20 (omega (arith, long)),
          e2,
          e3,
          e,
          ge→ltb (length received) n (omega (arith, long)),
          ge→ltb n 20 (omega arith),
          cut,
          cut',
          all,
        )
        refl
