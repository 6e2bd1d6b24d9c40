-- ===== src/Cli/Signature/Agrees.antt =====
-- The client's `replaceOrAddMA` and `calculateMessageAuthenticator` against the server's.
use fakeradius.Base.{
  ℕ, ◌+◌, ◌≡◌, refl, ap, ◌∙◌, arith, inl, inr, false, List, [], ◌∷◌, ◌++◌, length, ok, Bool-cases,
  All, ge→ltb, le→leb,
}
use fakeradius.Base.Bytes.{Bytes}
use fakeradius.Cli.Signature.{replace_ma, replace_or_add_ma, calculate_message_authenticator}
use fakeradius.Crypto.{Crypto}
use fakeradius.Radius.Attributes.Scan.{any}
use fakeradius.Radius.Attributes.{message_authenticator_type, build_attribute}
use fakeradius.Radius.Signature
use fakeradius.Radius.Signature.Replace.{
  is_ma, replaced_or_added, replace_step, run-replace_step, replaced, finish, replace_or_add_ma_lem,
}
use fakeradius.Radius.Signature.{Replaced, zero_ma}
use fakeradius.Radius.Walk.Encoded.{
  Attribute, Fits, encode, extent, walk_encoded, extent-fits, slice-whole,
}

replace_ma_lem :
    (value packet pre : Bytes) (a : Attribute) (post : Bytes) (s : Replaced)
    → packet ≡ pre ++ (a.kind ∷ extent a ∷ (a.value ++ post))
    → replace_ma
        (build_attribute message_authenticator_type value)
        packet
        (length pre)
        a.kind
        (extent a)
        s
      ≡ ok (replace_step value a s)
replace_ma_lem value packet pre a post s e =
    let two = ge→ltb (extent a) 2 (omega arith) in
    let fit = le→leb (length pre + extent a) (length packet) (extent-fits packet pre a post e) in
    elim (Bool-cases (is_ma a)) [
      | inl here ↦ rw (two, here) refl
      | inr other ↦ rw (two, other, fit, slice-whole packet pre a post e) refl
    ]

module _ (attrs : List Attribute) (fits : All Fits attrs) where
  pub client_replace_lem :
      (value : Bytes)
      → replace_or_add_ma (encode attrs) value ≡ ok (encode (replaced_or_added value attrs))
  unfolding replace_or_add_ma
  client_replace_lem value =
      let attributes = encode attrs in
      rw
        (walk_encoded (λ _ s. ok s)
            (replace_ma (build_attribute message_authenticator_type value) attributes) attributes
            (replace_step value) (λ pre a post s e. replace_ma_lem value attributes pre a post s e)
            attrs [] (length attributes) (replaced [] false) fits refl (omega arith)
          ∙ ap ok (run-replace_step value attrs [] false fits))
        (ap ok (finish value attrs (Bool-cases (any is_ma attrs))))

  -- On attributes that fit the client and the server compute the same Message-Authenticator, whatever the
  -- code, the identifier, the length, the authenticator and the secret.
  pub calculate_message_authenticator-eq :
      (c : Crypto) (code id len : ℕ) (auth secret : Bytes)
      → calculate_message_authenticator c code id len auth secret (encode attrs)
        ≡ Signature.calculate_message_authenticator c code id len auth secret (encode attrs)
  unfolding calculate_message_authenticator Signature.calculate_message_authenticator
  calculate_message_authenticator-eq c code id len auth secret =
      rw (client_replace_lem zero_ma, replace_or_add_ma_lem zero_ma attrs fits) refl
