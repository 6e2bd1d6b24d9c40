-- ===== src/Radius/Signature/Last.antt =====
-- Attributes with a Message-Authenticator behind them, as the client of cmd/cli and `handleEAP` of cmd/server
-- make them.
use fakeradius.Base.{
  ◌+◌, ◌≡◌, refl, ap, ◌∙◌, arith, Bool, true, false, List, [], ◌∷◌, ◌++◌, append-nil, length, ◌==◌,
  if◌then◌else◌, length-append,
}
use fakeradius.Base.Bytes.{Bytes}
use fakeradius.Radius.Attributes.Scan.{any}
use fakeradius.Radius.Attributes.{message_authenticator_type, eap_message_type, build_attribute}
use fakeradius.Radius.Extract.Found.{eap_of}
use fakeradius.Radius.Signature.Replace.{ma_of, encode-append}
use fakeradius.Radius.Signature.RoundTrip.{signed}
use fakeradius.Radius.Walk.Encoded.{Attribute, encode, attribute_bytes, length-attribute_bytes}

pub signed-append : (attrs : List Attribute) (v : Bytes) → signed attrs v [] ≡ attrs ++ ma_of v ∷ []
signed-append [] v = refl
signed-append (a ∷ attrs) v = ap (◌∷◌ a) (signed-append attrs v)

pub encode-signed :
    (attrs : List Attribute) (v : Bytes)
    → encode (signed attrs v []) ≡ encode attrs ++ build_attribute message_authenticator_type v
encode-signed attrs v =
    ap encode (signed-append attrs v)
    ∙ encode-append attrs (ma_of v ∷ [])
    ∙ ap (◌++◌ (encode attrs)) (append-nil (attribute_bytes (ma_of v)))

pub length-encode-signed :
    (attrs : List Attribute) (v : Bytes)
    → length v ≡ 16
    → length (encode (signed attrs v [])) ≡ length (encode attrs) + 18
length-encode-signed attrs v h = omega (
  arith,
  ap length (encode-signed attrs v),
  length-append (encode attrs) (attribute_bytes (ma_of v)),
  length-attribute_bytes (ma_of v),
)

pub any-signed_alone :
    (test : Attribute → Bool) (attrs : List Attribute) (v : Bytes)
    → test (ma_of v) ≡ false
    → any test (signed attrs v []) ≡ any test attrs
any-signed_alone test [] v h = rw h refl
any-signed_alone test (a ∷ attrs) v h =
    ap (λ b. if test a then true else b) (any-signed_alone test attrs v h)

pub eap_of-signed : (attrs : List Attribute) (v : Bytes) → eap_of (signed attrs v []) ≡ eap_of attrs
eap_of-signed [] v = refl
eap_of-signed (a ∷ attrs) v =
    ap (◌++◌ (if a.kind == eap_message_type then a.value else [])) (eap_of-signed attrs v)
