-- ===== src/Radius/Signature/Validate.antt =====
-- `validateMessageAuthenticator` of cmd/server/handler.go on a well-formed packet.
use fakeradius.Base.{
  ℕ, ◌+◌, ◌≤◌, ◌<◌, ◌≡◌, refl, sym, ap, ◌∙◌, arith, inl, inr, Bool, true, false, ◌&&◌, List, [],
  ◌∷◌, ◌++◌, append_assoc, append-nil, Option, none, some, length, ◌==◌, ok, ◌>>=◌, ge→ltb,
  Bool-cases, and_true, ==_iff, if◌then◌else◌, All, length-append,
}
use fakeradius.Base.Bytes.{
  Bytes, at, slice, slice-append, slice-eq, get_u16, put_u16, length-put_u16, length_bytes,
  bytes_eq,
}
use fakeradius.Crypto.{Crypto}
use fakeradius.Radius.Attributes.Scan.{any, has_message_authenticator_lem}
use fakeradius.Radius.Attributes.{has_message_authenticator}
use fakeradius.Radius.Signature.Replace.{is_ma, replaced_or_added, replace_or_add_ma_lem}
use fakeradius.Radius.Signature.{zero_ma, take_ma, check_ma, validate_message_authenticator}
use fakeradius.Radius.Walk.Encoded.{
  Attribute, Fits, encode, extent, run, for_attributes_encoded, extent-fits, slice-value,
}
use fakeradius.Radius.Walk.{Flow, halt, next, for_attributes}

-- The value of the first Message-Authenticator of sixteen bytes.
abbrev pub first_ma : List Attribute → Option Bytes
first_ma [] = none
first_ma (a ∷ attrs) = if is_ma a && extent a == 18 then some a.value else first_ma attrs

abbrev ma_step : Attribute → Option Bytes → Flow (Option Bytes)
ma_step a s = if is_ma a && extent a == 18 then halt (some a.value) else next s

run-ma_step : (attrs : List Attribute) → run ma_step attrs none ≡ first_ma attrs
run-ma_step [] = refl
run-ma_step (a ∷ attrs) = elim (Bool-cases (is_ma a && extent a == 18)) [
  | inl t ↦ rw (run, t) refl
  | inr f ↦ rw (run, f) (run-ma_step attrs)
]

take_ma_lem :
    (packet pre : Bytes) (a : Attribute) (post : Bytes) (s : Option Bytes)
    → packet ≡ pre ++ (a.kind ∷ extent a ∷ (a.value ++ post))
    → take_ma packet (length packet) (length pre) a.kind (extent a) s ≡ ok (ma_step a s)
take_ma_lem packet pre a post s e =
    let fit = ge→ltb (length packet) (length pre + extent a) (extent-fits packet pre a post e) in
    let two = ge→ltb (extent a) 2 (omega arith) in
    elim (Bool-cases (is_ma a && extent a == 18)) [
      | inr other ↦ rw (two, fit, other) refl
      | inl here ↦
          let size : extent a ≡ 18 =
            (==_iff (extent a) 18).0 (and_true (is_ma a) (extent a == 18) here).1 in
          let cut : slice packet (length pre + 2) (length pre + 18) ≡ ok a.value =
            ap (λ n. slice packet (length pre + 2) (length pre + n)) (sym size)
            ∙ slice-value packet pre a post e in
          rw (two, fit, here, cut) refl
    ]

-- A packet in its parts: code, identifier, length, authenticator and attributes.
abbrev pub packet_of : ℕ → ℕ → Bytes → List Attribute → Bytes
packet_of code id auth attrs =
    code ∷ id ∷ (put_u16 (20 + length (encode attrs)) ++ (auth ++ encode attrs))

-- What the check compares with.
abbrev pub expected_ma : Crypto → Bytes → ℕ → ℕ → Bytes → List Attribute → Bytes
expected_ma c secret code id auth attrs =
    let len = 20 + length (encode attrs) in
    let zeroed = encode (replaced_or_added zero_ma attrs) in
    c.hmac_md5 secret (code ∷ id ∷ (put_u16 len ++ (auth ++ zeroed)))

abbrev pub is_signed : Crypto → Bytes → ℕ → ℕ → Bytes → List Attribute → Bool
is_signed c secret code id auth attrs = elim (first_ma attrs) [
  | none ↦ false
  | some value ↦ bytes_eq value (expected_ma c secret code id auth attrs)
]

validate_absent :
    (c : Crypto) (p secret : Bytes)
    → has_message_authenticator p ≡ ok false
    → validate_message_authenticator c p secret ≡ ok true
unfolding validate_message_authenticator
validate_absent c p secret h = rw h refl

module _ (c : Crypto) (p secret : Bytes) (hi lo len : ℕ) (e2 : at p 2 ≡ ok hi) (e3 : at p 3 ≡ ok lo)
    (e : get_u16 hi lo ≡ len) (whole : length p ≡ len) (twenty : 20 ≤ len) where
  -- With a declared length that is the packet's the result rests on the loop and the comparison.
  validate_present :
      has_message_authenticator p ≡ ok true
      → validate_message_authenticator c p secret
        ≡ (do found ← for_attributes (take_ma p len) p len 20 none; check_ma c p secret len found)
  unfolding validate_message_authenticator
  validate_present h =
      rw
        (
          h,
          ge→ltb (length p) 20 (omega arith),
          e2,
          e3,
          e,
          ge→ltb (length p) len (omega arith),
          ge→ltb len 20 twenty,
        )
        refl

module _ (c : Crypto) (secret : Bytes) (code id : ℕ) (auth : Bytes) (attrs : List Attribute)
    (sixteen : length auth ≡ 16) (fits : All Fits attrs) where
  abbrev whole_length : ℕ
  whole_length = 20 + length (encode attrs)

  abbrev pub head_of : Bytes
  head_of = code ∷ id ∷ (put_u16 whole_length ++ auth)

  pub packet_of-eq : packet_of code id auth attrs ≡ head_of ++ encode attrs
  packet_of-eq =
      ap (λ z. code ∷ id ∷ z) (sym (append_assoc (put_u16 whole_length) auth (encode attrs)))

  pub length-head_of : length head_of ≡ 20
  unfolding put_u16
  length-head_of = omega (arith, sixteen)

  pub length-packet_of : length (packet_of code id auth attrs) ≡ whole_length
  length-packet_of =
      ap length packet_of-eq
      ∙ length-append head_of (encode attrs)
      ∙ ap (λ n. n + length (encode attrs)) length-head_of

  loop_lem :
      for_attributes
        (take_ma (packet_of code id auth attrs) whole_length)
        (packet_of code id auth attrs)
        whole_length
        20
        none
      ≡ ok (first_ma attrs)
  loop_lem =
      let p = head_of ++ encode attrs in
      ap
        (λ n.
          for_attributes (take_ma (packet_of code id auth attrs) n) (packet_of code id auth attrs) n
            20 none)
        (sym length-packet_of)
      ∙ ap (λ q. for_attributes (take_ma q (length q)) q (length q) 20 none) packet_of-eq
      ∙ for_attributes_encoded (take_ma p (length p)) head_of attrs ma_step length-head_of fits
          (λ pre a post s e. take_ma_lem p pre a post s e) none
      ∙ ap ok (run-ma_step attrs)

  check_ma_lem :
      (found : Option Bytes)
      → check_ma c (packet_of code id auth attrs) secret whole_length found
        ≡ ok (elim found [
          | none ↦ false
          | some value ↦ bytes_eq value (expected_ma c secret code id auth attrs)
        ])
  unfolding check_ma at
  check_ma_lem none = refl
  check_ma_lem (some value) =
      rw
        (
          slice-eq (packet_of code id auth attrs) head_of (encode attrs) [] 20 whole_length
              (packet_of-eq ∙ ap (◌++◌ head_of) (sym (append-nil (encode attrs))))
              (sym length-head_of) refl,
          replace_or_add_ma_lem zero_ma attrs fits,
          slice-append (code ∷ id ∷ put_u16 whole_length) auth (encode attrs) 4 20
              (omega (arith, length-put_u16 whole_length)) (omega arith),
        )
        refl

  -- On a packet shorter than 2^16 bytes with an authenticator of sixteen bytes and attributes that fit
  -- the check accepts where there is no Message-Authenticator, and otherwise exactly where the first one
  -- of sixteen bytes is the HMAC-MD5 of the packet with every Message-Authenticator zeroed.
  pub validate_message_authenticator_lem :
      whole_length < 65536
      → validate_message_authenticator c (packet_of code id auth attrs) secret
        ≡ ok (if any is_ma attrs then is_signed c secret code id auth attrs else true)
  validate_message_authenticator_lem h =
      let p = packet_of code id auth attrs in
      let found : has_message_authenticator p ≡ ok (any is_ma attrs) =
        ap has_message_authenticator packet_of-eq
        ∙ has_message_authenticator_lem head_of attrs length-head_of fits in
      elim (Bool-cases (any is_ma attrs)) [
        | inr absent ↦ validate_absent c p secret (found ∙ ap ok absent) ∙ rw absent refl
        | inl present ↦
            let (hi, lo, e2, e3, e) = length_bytes code id whole_length (auth ++ encode attrs) h in
            validate_present c p secret hi lo whole_length e2 e3 e length-packet_of (omega arith)
              (found ∙ ap ok present)
            ∙ rw (loop_lem, present) (check_ma_lem (first_ma attrs))
      ]
