-- ===== src/Radius/Signature/RoundTrip.antt =====
-- What `calculateMessageAuthenticator` of cmd/server/handler.go computes passes
-- `validateMessageAuthenticator`.
use fakeradius.Base.{
  ℕ, ◌+◌, ◌<◌, ◌≡◌, refl, sym, ap, ap₂, ◌∙◌, arith, inl, inr, true, false, List, [], ◌∷◌, some,
  length, replicate, take-append, ◌==◌, ok, Bool-cases, if◌then◌else◌, All, length-append,
  ok-injective,
}
use fakeradius.Base.Bytes.{Bytes, bytes_eq_refl}
use fakeradius.Crypto.{Crypto}
use fakeradius.Radius.Attributes.Scan.{any}
use fakeradius.Radius.Signature.Replace.{
  is_ma, ma_of, with_ma, replaced_or_added, replace_or_add_ma_lem,
}
use fakeradius.Radius.Signature.Validate.{
  first_ma, packet_of, expected_ma, is_signed, validate_message_authenticator_lem,
}
use fakeradius.Radius.Signature.{
  auth_data, zero_ma, validate_message_authenticator, calculate_message_authenticator,
}
use fakeradius.Radius.Walk.Encoded.{
  Attribute, Fits, encode, extent, attribute_bytes, length-attribute_bytes,
}

-- Attributes with a Message-Authenticator among them, its value put in.
abbrev pub signed : List Attribute → Bytes → List Attribute → List Attribute
signed [] value after = ma_of value ∷ after
signed (a ∷ before) value after = a ∷ signed before value after

pub any-signed :
    (before : List Attribute) (value : Bytes) (after : List Attribute)
    → any is_ma (signed before value after) ≡ true
any-signed [] value after = refl
any-signed (a ∷ before) value after = elim (Bool-cases (is_ma a)) [
  | inl here ↦ rw (any, here) refl
  | inr other ↦ rw (any, other) (any-signed before value after)
]

with_ma-signed :
    (before : List Attribute) (value zero : Bytes) (after : List Attribute)
    → with_ma zero (signed before value after) ≡ with_ma zero (signed before zero after)
with_ma-signed [] value zero after = refl
with_ma-signed (a ∷ before) value zero after =
    ap (◌∷◌ (if is_ma a then ma_of zero else a)) (with_ma-signed before value zero after)

pub replaced_or_added-signed :
    (before : List Attribute) (value zero : Bytes) (after : List Attribute)
    → replaced_or_added zero (signed before value after)
      ≡ replaced_or_added zero (signed before zero after)
replaced_or_added-signed before value zero after =
    rw (any-signed before value after, any-signed before zero after)
      (with_ma-signed before value zero after)

first_ma-signed :
    (before : List Attribute) (value : Bytes) (after : List Attribute)
    → any is_ma before ≡ false
    → length value ≡ 16
    → first_ma (signed before value after) ≡ some value
first_ma-signed [] value after h k =
    let e : (extent (ma_of value) == 18) ≡ true = ground arith in rw e refl
first_ma-signed (a ∷ before) value after h k = elim (Bool-cases (is_ma a)) [
  | inl here ↦ let absent : true ≡ false = rw here at h in cc
  | inr other ↦
      let absent : any is_ma before ≡ false = rw other at h in
      rw (first_ma, other) (first_ma-signed before value after absent k)
]

pub length-signed :
    (before : List Attribute) (v w : Bytes) (after : List Attribute)
    → length v ≡ length w
    → length (encode (signed before v after)) ≡ length (encode (signed before w after))
length-signed [] v w after h = omega (
  arith,
  length-append (attribute_bytes (ma_of v)) (encode after),
  length-append (attribute_bytes (ma_of w)) (encode after),
  length-attribute_bytes (ma_of v),
  length-attribute_bytes (ma_of w),
)
length-signed (a ∷ before) v w after h = omega (
  arith,
  length-append (attribute_bytes a) (encode (signed before v after)),
  length-append (attribute_bytes a) (encode (signed before w after)),
  length-signed before v w after h,
)

pub Fits-signed :
    (before : List Attribute) (v : Bytes) (after : List Attribute)
    → All Fits before
    → length v ≡ 16
    → All Fits after
    → All Fits (signed before v after)
Fits-signed [] v after fits h fits' = (omega arith, fits')
Fits-signed (a ∷ before) v after fits h fits' = (fits.0, Fits-signed before v after fits.1 h fits')

module _ (c : Crypto) (secret : Bytes) (code id : ℕ) (auth : Bytes) (before after : List Attribute)
    (auth_size : length auth ≡ 16) (fits : All Fits before) (fits' : All Fits after)
    (first : any is_ma before ≡ false) where
  abbrev unsigned : List Attribute
  unsigned = signed before zero_ma after

  pub calculate_lem :
      calculate_message_authenticator c code id
        (20 + length (encode unsigned))
        auth
        secret
        (encode unsigned)
      ≡ ok (expected_ma c secret code id auth unsigned)
  unfolding calculate_message_authenticator
  calculate_lem =
      rw
        (
          replace_or_add_ma_lem zero_ma unsigned (Fits-signed before zero_ma after fits refl fits'),
          take-append 16 auth (replicate 16 0) (sym auth_size),
        )
        refl

  abbrev pub computed_ma : Bytes
  computed_ma = expected_ma c secret code id auth unsigned

  pub length-computed_ma : length computed_ma ≡ 16
  length-computed_ma = c.length-hmac_md5 secret _

  -- The value is the one that the check expects of the attributes with the value in them.
  pub is_signed-signed : is_signed c secret code id auth (signed before computed_ma after) ≡ true
  is_signed-signed =
      let long = length-signed before computed_ma zero_ma after length-computed_ma in
      let expected : expected_ma c secret code id auth (signed before computed_ma after)
          ≡ computed_ma =
        ap₂ (λ n attrs. c.hmac_md5 secret (auth_data code id n auth (encode attrs)))
          (ap (◌+◌ 20) long) (replaced_or_added-signed before computed_ma zero_ma after) in
      rw (is_signed, first_ma-signed before computed_ma after first length-computed_ma, expected)
        (bytes_eq_refl computed_ma)

  -- For an authenticator of sixteen bytes and attributes that fit, and no Message-Authenticator before
  -- the place of the new one, the value that `calculateMessageAuthenticator` computes over the
  -- attributes with sixteen zeros in that place makes `validateMessageAuthenticator` accept the packet
  -- with the value in it, if the packet is shorter than 2^16 bytes.
  pub validate-calculate :
      (value : Bytes)
      → 20 + length (encode unsigned) < 65536
      → calculate_message_authenticator c code id
          (20 + length (encode unsigned))
          auth
          secret
          (encode unsigned)
        ≡ ok value
      → validate_message_authenticator c (packet_of code id auth (signed before value after)) secret
        ≡ ok true
  validate-calculate value h k =
      let computed : value ≡ computed_ma = sym (ok-injective (sym calculate_lem ∙ k)) in
      let long = length-signed before computed_ma zero_ma after length-computed_ma in
      ap
        (λ v.
          validate_message_authenticator c (packet_of code id auth (signed before v after)) secret)
        computed
      ∙ validate_message_authenticator_lem c secret code id auth (signed before computed_ma after)
          auth_size (Fits-signed before computed_ma after fits length-computed_ma fits')
          (omega arith)
      ∙ rw (any-signed before computed_ma after, is_signed-signed) refl
