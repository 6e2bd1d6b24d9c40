-- ===== src/Eap/Response/Contents.antt =====
-- The attributes of the EAP responses of `handleEAP` in cmd/server/main.go.
use fakeradius.Base.{
  ℕ, zero, suc, ◌+◌, ◌-◌, ◌*◌, ◌/◌, ◌%◌, ◌^◌, ◌≤◌, ◌≡◌, inl, inr, refl, sym, ap, ◌∙◌, arith, Bool,
  true, false, List, [], ◌∷◌, ◌++◌, append-nil, append_assoc, length, take, drop, replicate,
  length-take, length-drop, length-replicate, take-append, take-append-drop, ltb, ◌==◌,
  if◌then◌else◌, Bool-cases, All, length-append,
}
use fakeradius.Base.Bytes.{Bytes}
use fakeradius.Eap.Handle.{unsigned_attributes}
use fakeradius.Eap.{
  access_challenge, hex, hex_digit, padded, state_value, eap_chunks, eap_attributes,
}
use fakeradius.Radius.Attributes.Scan.{any}
use fakeradius.Radius.Attributes.{
  access_accept, eap_message_type, state_attribute_type, message_authenticator_type,
  build_attribute,
}
use fakeradius.Radius.Extract.Found.{eap_of}
use fakeradius.Radius.Signature.Last.{encode-signed}
use fakeradius.Radius.Signature.Replace.{is_ma, encode-append}
use fakeradius.Radius.Signature.RoundTrip.{signed}
use fakeradius.Radius.Signature.{zero_ma}
use fakeradius.Radius.Walk.Encoded.{Attribute, Fits, encode, length-encode_cons}

abbrev pub eap_attribute : Bytes → Attribute
eap_attribute value = record { kind = eap_message_type; value = value }

abbrev pub chunks : ℕ → Bytes → List Attribute
chunks zero message = []
chunks (suc fuel) [] = []
chunks (suc fuel) (b ∷ message) =
    eap_attribute (take 253 (b ∷ message)) ∷ chunks fuel (drop 253 (b ∷ message))

encode-chunks :
    (fuel : ℕ) (message : Bytes) → encode (chunks fuel message) ≡ eap_chunks fuel message
encode-chunks zero message = refl
encode-chunks (suc fuel) [] = refl
encode-chunks (suc fuel) (b ∷ message) =
    ap (◌++◌ (build_attribute eap_message_type (take 253 (b ∷ message))))
      (encode-chunks fuel (drop 253 (b ∷ message)))

eap_of-chunks :
    (fuel : ℕ) (message : Bytes) → length message ≤ fuel → eap_of (chunks fuel message) ≡ message
eap_of-chunks zero [] h = refl
eap_of-chunks zero (b ∷ message) h = absurd (omega arith)
eap_of-chunks (suc fuel) [] h = refl
eap_of-chunks (suc fuel) (b ∷ message) h =
    ap (◌++◌ (take 253 (b ∷ message)))
      (eap_of-chunks fuel (drop 253 (b ∷ message)) (omega (arith, length-drop 253 (b ∷ message))))
    ∙ take-append-drop 253 (b ∷ message)

chunks-Fits : (fuel : ℕ) (message : Bytes) → All Fits (chunks fuel message)
chunks-Fits zero message = tt
chunks-Fits (suc fuel) [] = tt
chunks-Fits (suc fuel) (b ∷ message) =
    (omega (arith, length-take 253 (b ∷ message)), chunks-Fits fuel (drop 253 (b ∷ message)))

any_ma-chunks : (fuel : ℕ) (message : Bytes) → any is_ma (chunks fuel message) ≡ false
any_ma-chunks zero message = refl
any_ma-chunks (suc fuel) [] = refl
any_ma-chunks (suc fuel) (b ∷ message) = any_ma-chunks fuel (drop 253 (b ∷ message))

length-chunks :
    (fuel : ℕ) (message : Bytes) → length (encode (chunks fuel message)) ≤ 3 * length message
length-chunks zero message = omega arith
length-chunks (suc fuel) [] = omega arith
length-chunks (suc fuel) (b ∷ message) = omega (
  arith,
  length-encode_cons (eap_attribute (take 253 (b ∷ message)))
      (chunks fuel (drop 253 (b ∷ message))),
  length-take 253 (b ∷ message),
  length-drop 253 (b ∷ message),
  length-chunks fuel (drop 253 (b ∷ message)),
)

length-hex : (fuel n : ℕ) → length (hex fuel n) ≤ fuel
length-hex zero n = omega arith
length-hex (suc fuel) n = elim (Bool-cases (ltb n 16)) [
  | inl e ↦ rw (hex, e) (omega arith)
  | inr e ↦
      rw (hex, e)
        (omega (
          arith,
          length-hex fuel (n / 16),
          length-append (hex fuel (n / 16)) (hex_digit (n % 16) ∷ []),
        ))
]

length-padded : (width : ℕ) (digits : Bytes) → length (padded width digits) ≤ width + length digits
length-padded width digits = omega (
  arith,
  length-append (replicate (width - length digits) b'0') digits,
  length-replicate {A = ℕ} (width - length digits) b'0',
)

length-state_value : (eap_id now : ℕ) → length (state_value eap_id now) ≤ 28
unfolding state_value
length-state_value eap_id now = omega (
  arith,
  length-append (padded 2 (hex 2 eap_id)) (padded 8 (hex 16 now)),
  length-padded 2 (hex 2 eap_id),
  length-padded 8 (hex 16 now),
  length-hex 2 eap_id,
  length-hex 16 now,
)

abbrev pub state_attribute : ℕ → ℕ → Attribute
state_attribute eap_id now = record { kind = state_attribute_type; value = state_value eap_id now }

-- The attributes before the Message-Authenticator.
abbrev pub base : Bool → ℕ → ℕ → Bytes → List Attribute
base success eap_id now message =
    if success
    then chunks (length message) message
    else chunks (length message) message ++ state_attribute eap_id now ∷ []

All-append : (xs : List Attribute) (a : Attribute) → All Fits xs → Fits a → All Fits (xs ++ a ∷ [])
All-append [] a h k = (k, tt)
All-append (x ∷ xs) a h k = (h.0, All-append xs a h.1 k)

any-append :
    (xs : List Attribute) (a : Attribute)
    → any is_ma xs ≡ false
    → is_ma a ≡ false
    → any is_ma (xs ++ a ∷ []) ≡ false
any-append [] a h k = rw k refl
any-append (x ∷ xs) a h k = elim (Bool-cases (is_ma x)) [
  | inl here ↦ let e : true ≡ false = rw here at h in cc
  | inr other ↦ let e : any is_ma xs ≡ false = rw other at h in rw other (any-append xs a e k)
]

eap_of-append :
    (xs : List Attribute) (a : Attribute)
    → (a.kind == eap_message_type) ≡ false
    → eap_of (xs ++ a ∷ []) ≡ eap_of xs
eap_of-append [] a k = rw k refl
eap_of-append (x ∷ xs) a k =
    ap (◌++◌ (if x.kind == eap_message_type then x.value else [])) (eap_of-append xs a k)

-- Attributes that fit, none of them a Message-Authenticator, with the message in them.
abbrev pub Carries : Bytes → List Attribute → Type 0
Carries message attrs =
    All Fits attrs
    × (any is_ma attrs ≡ false)
    × (eap_of attrs ≡ message)
    × (length (encode attrs) ≤ 3 * length message + 30)

pub base-Carries :
    (success : Bool) (eap_id now : ℕ) (message : Bytes)
    → Carries message (base success eap_id now message)
base-Carries true eap_id now message =
    let n = length message in
    (
      chunks-Fits n message,
      any_ma-chunks n message,
      eap_of-chunks n message (omega arith),
      omega (arith, length-chunks n message),
    )
base-Carries false eap_id now message =
    let n = length message in
    let xs = chunks n message in
    let a = state_attribute eap_id now in
    let short = length-state_value eap_id now in
    (
      All-append xs a (chunks-Fits n message) (omega (arith, short)),
      any-append xs a (any_ma-chunks n message) refl,
      eap_of-append xs a refl ∙ eap_of-chunks n message (omega arith),
      omega (
        arith,
        ap length (encode-append xs (a ∷ [])),
        length-append (encode xs) (encode (a ∷ [])),
        length-encode_cons a [],
        length-chunks n message,
        short,
      ),
    )

pub unsigned_attributes-eq :
    (success : Bool) (eap_id now : ℕ) (message : Bytes)
    → unsigned_attributes (if success then access_accept else access_challenge) eap_id now message
      ≡ encode (signed (base success eap_id now message) zero_ma [])
unfolding eap_attributes
unsigned_attributes-eq true eap_id now message =
    let n = length message in
    ap (λ z. z ++ build_attribute message_authenticator_type zero_ma)
      (sym (encode-chunks n message))
    ∙ sym (encode-signed (chunks n message) zero_ma)
unsigned_attributes-eq false eap_id now message =
    let n = length message in
    let xs = chunks n message in
    let a = state_attribute eap_id now in
    let value = build_attribute state_attribute_type (state_value eap_id now) in
    ap (λ z. z ++ build_attribute message_authenticator_type zero_ma)
      (ap (λ z. z ++ value) (sym (encode-chunks n message))
        ∙ ap (◌++◌ (encode xs)) (sym (append-nil value))
        ∙ sym (encode-append xs (a ∷ [])))
    ∙ sym (encode-signed (xs ++ a ∷ []) zero_ma)

-- The value is written over the zeros at the end.
pub value_put_in :
    (attrs : List Attribute) (ma : Bytes)
    → length ma ≡ 16
    → take (length (encode (signed attrs zero_ma [])) - 16) (encode (signed attrs zero_ma [])) ++ ma
      ≡ encode (signed attrs ma [])
unfolding build_attribute
value_put_in attrs ma size =
    let front = encode attrs ++ 80 ∷ 18 ∷ [] in
    let whole : encode (signed attrs zero_ma []) ≡ front ++ zero_ma =
      encode-signed attrs zero_ma ∙ sym (append_assoc (encode attrs) (80 ∷ 18 ∷ []) zero_ma) in
    let e : 2 + length ma ≡ 18 = omega arith in
    let filled : encode (signed attrs ma []) ≡ front ++ ma =
      encode-signed attrs ma
      ∙ ap (λ n. encode attrs ++ (80 ∷ (n % 2 ^ 8) ∷ ma)) e
      ∙ sym (append_assoc (encode attrs) (80 ∷ 18 ∷ []) ma) in
    ap (λ z. take (length z - 16) z ++ ma) whole
    ∙ ap (λ z. z ++ ma)
        (take-append (length (front ++ zero_ma) - 16) front zero_ma
          (omega (arith, length-append front zero_ma)))
    ∙ sym filled
