-- ===== src/Radius/Extract/Found.antt =====
-- The functions of cmd/server/handler.go that take a value out of a packet, on a well-formed one.
use fakeradius.Base.{
  ℕ, ◌+◌, ◌≡◌, refl, sym, ap, ◌∙◌, arith, inl, inr, true, List, [], ◌∷◌, ◌++◌, append_assoc,
  append-nil, Option, none, some, length, drop, ◌==◌, ok, err, ge→ltb, le→leb, Bool-cases,
  if◌then◌else◌, All, user_name_not_found, chap_challenge_not_found, chap_response_not_found,
  mschap_not_found, eap_message_not_found,
}
use fakeradius.Base.Bytes.{Bytes, slice, slice-eq}
use fakeradius.Radius.Attributes.Scan.{is_mschap, of_microsoft, is_microsoft_lem}
use fakeradius.Radius.Attributes.Total.{malformed-fits}
use fakeradius.Radius.Attributes.{
  user_name_type, chap_challenge_type, chap_response_type, eap_message_type,
}
use fakeradius.Radius.Extract.{
  take_value, take_microsoft, append_eap, found_or, extract_username, extract_chap_challenge,
  extract_chap_response, extract_mschap_attribute, extract_eap_message,
}
use fakeradius.Radius.Walk.Encoded.{
  Attribute, Fits, encode, extent, run, for_attributes_encoded, extent-fits, slice-value,
}
use fakeradius.Radius.Walk.{Flow, halt, next, for_attributes}

-- The value of the first attribute of a kind.
abbrev pub first_of : ℕ → List Attribute → Option Bytes
first_of wanted [] = none
first_of wanted (a ∷ attrs) = if a.kind == wanted then some a.value else first_of wanted attrs

abbrev pub value_step : ℕ → Attribute → Option Bytes → Flow (Option Bytes)
value_step wanted a s = if a.kind == wanted then halt (some a.value) else next s

run-value_step :
    (wanted : ℕ) (attrs : List Attribute)
    → run (value_step wanted) attrs none ≡ first_of wanted attrs
run-value_step wanted [] = refl
run-value_step wanted (a ∷ attrs) = elim (Bool-cases (a.kind == wanted)) [
  | inl t ↦ rw (run, t) refl
  | inr f ↦ rw (run, f) (run-value_step wanted attrs)
]

module _ (packet pre : Bytes) (a : Attribute) (post : Bytes)
    (e : packet ≡ pre ++ (a.kind ∷ extent a ∷ (a.value ++ post))) where
  take_value_lem :
      (wanted : ℕ) (s : Option Bytes)
      → take_value wanted packet (length pre) a.kind (extent a) s ≡ ok (value_step wanted a s)
  take_value_lem wanted s =
      let fit = le→leb (length pre + extent a) (length packet) (extent-fits packet pre a post e) in
      elim (Bool-cases (a.kind == wanted)) [
        | inr other ↦ rw (ge→ltb (extent a) 2 (omega arith), other) refl
        | inl here ↦
            rw (ge→ltb (extent a) 2 (omega arith), here, fit, slice-value packet pre a post e) refl
      ]

  append_eap_lem :
      (s : Bytes)
      → append_eap packet (length pre) a.kind (extent a) s
        ≡ ok (next (s ++ (if a.kind == eap_message_type then a.value else [])))
  append_eap_lem s =
      let good =
        malformed-fits packet (length pre) (extent a) (omega arith)
          (extent-fits packet pre a post e) in
      elim (Bool-cases (a.kind == eap_message_type)) [
        | inr other ↦ rw (good, other, append-nil s) refl
        | inl here ↦ rw (good, here, slice-value packet pre a post e) refl
      ]

-- The EAP message that the EAP-Message attributes carry together.
abbrev pub eap_of : List Attribute → Bytes
eap_of [] = []
eap_of (a ∷ attrs) = (if a.kind == eap_message_type then a.value else []) ++ eap_of attrs

abbrev eap_step : Attribute → Bytes → Flow Bytes
eap_step a s = next (s ++ (if a.kind == eap_message_type then a.value else []))

run-eap_step : (attrs : List Attribute) (s : Bytes) → run eap_step attrs s ≡ s ++ eap_of attrs
run-eap_step [] s = rw (append-nil s) refl
run-eap_step (a ∷ attrs) s =
    run-eap_step attrs (s ++ (if a.kind == eap_message_type then a.value else []))
    ∙ append_assoc s (if a.kind == eap_message_type then a.value else []) (eap_of attrs)

-- The data behind the number of the first Vendor-Specific attribute of Microsoft's.
abbrev pub first_mschap : List Attribute → Option Bytes
first_mschap [] = none
first_mschap (a ∷ attrs) = if is_mschap a then some (drop 4 a.value) else first_mschap attrs

abbrev microsoft_step : Attribute → Option Bytes → Flow (Option Bytes)
microsoft_step a s = if is_mschap a then halt (some (drop 4 a.value)) else next s

run-microsoft_step : (attrs : List Attribute) → run microsoft_step attrs none ≡ first_mschap attrs
run-microsoft_step [] = refl
run-microsoft_step (a ∷ attrs) = elim (Bool-cases (is_mschap a)) [
  | inl t ↦ rw (run, t) refl
  | inr f ↦ rw (run, f) (run-microsoft_step attrs)
]

drop-of_microsoft : (v : Bytes) → of_microsoft v ≡ true → slice v 4 (length v) ≡ ok (drop 4 v)
drop-of_microsoft (a ∷ b ∷ c ∷ d ∷ rest) h =
    slice-eq (a ∷ b ∷ c ∷ d ∷ rest) (a ∷ b ∷ c ∷ d ∷ []) rest [] 4 (length (a ∷ b ∷ c ∷ d ∷ rest))
      (ap (λ z. a ∷ b ∷ c ∷ d ∷ z) (sym (append-nil rest))) refl (omega arith)
drop-of_microsoft [] h = cc
drop-of_microsoft (a ∷ []) h = cc
drop-of_microsoft (a ∷ b ∷ []) h = cc
drop-of_microsoft (a ∷ b ∷ c ∷ []) h = cc

take_microsoft_lem :
    (packet pre : Bytes) (a : Attribute) (post : Bytes) (s : Option Bytes)
    → packet ≡ pre ++ (a.kind ∷ extent a ∷ (a.value ++ post))
    → take_microsoft packet (length pre) a.kind (extent a) s ≡ ok (microsoft_step a s)
take_microsoft_lem packet pre a post s e =
    let fit = le→leb (length pre + extent a) (length packet) (extent-fits packet pre a post e) in
    let two = ge→ltb (extent a) 2 (omega arith) in
    let cut = slice-value packet pre a post e in
    elim (Bool-cases (a.kind == 26)) [
      | inr other ↦ rw (two, other) refl
      | inl here ↦ elim (Bool-cases (of_microsoft a.value)) [
        | inr no_id ↦ rw (two, here, fit, cut, is_microsoft_lem a.value, no_id) refl
        | inl id ↦
            rw (two, here, fit, cut, is_microsoft_lem a.value, id, drop-of_microsoft a.value id)
              refl
      ]
    ]

module _ (head : Bytes) (attrs : List Attribute) (twenty : length head ≡ 20)
    (fits : All Fits attrs) where
  found_encoded :
      (wanted : ℕ)
      → for_attributes
          (take_value wanted (head ++ encode attrs))
          (head ++ encode attrs)
          (length (head ++ encode attrs))
          20
          none
        ≡ ok (first_of wanted attrs)
  found_encoded wanted =
      for_attributes_encoded (take_value wanted (head ++ encode attrs)) head attrs
        (value_step wanted) twenty fits
        (λ pre a post s e. take_value_lem (head ++ encode attrs) pre a post e wanted s) none
      ∙ ap ok (run-value_step wanted attrs)

  -- On a packet with a header of twenty bytes and attributes that fit `extractUsername` gives the value
  -- of the first User-Name attribute, and its error where there is none.
  pub extract_username_lem :
      extract_username (head ++ encode attrs)
      ≡ found_or user_name_not_found (first_of user_name_type attrs)
  unfolding extract_username
  extract_username_lem = rw (found_encoded user_name_type) refl

  pub extract_chap_challenge_lem :
      extract_chap_challenge (head ++ encode attrs)
      ≡ found_or chap_challenge_not_found (first_of chap_challenge_type attrs)
  unfolding extract_chap_challenge
  extract_chap_challenge_lem = rw (found_encoded chap_challenge_type) refl

  pub extract_chap_response_lem :
      extract_chap_response (head ++ encode attrs)
      ≡ found_or chap_response_not_found (first_of chap_response_type attrs)
  unfolding extract_chap_response
  extract_chap_response_lem = rw (found_encoded chap_response_type) refl

  -- On a packet with a header of twenty bytes and attributes that fit `extractMSCHAPAttribute` gives
  -- what follows the vendor number in the first Vendor-Specific attribute with the number 311, and its
  -- error where there is none.
  pub extract_mschap_attribute_lem :
      extract_mschap_attribute (head ++ encode attrs)
      ≡ found_or mschap_not_found (first_mschap attrs)
  unfolding extract_mschap_attribute
  extract_mschap_attribute_lem =
      rw
        (for_attributes_encoded (take_microsoft (head ++ encode attrs)) head attrs microsoft_step
            twenty fits (λ pre a post s e. take_microsoft_lem (head ++ encode attrs) pre a post s e)
            none
          ∙ ap ok (run-microsoft_step attrs))
        refl

  -- On a packet with a header of twenty bytes and attributes that fit `extractEAPMessage` gives the
  -- values of all EAP-Message attributes one behind the other, and its error where these are empty.
  pub extract_eap_message_lem :
      extract_eap_message (head ++ encode attrs)
      ≡ (if length (eap_of attrs) == 0 then err eap_message_not_found else ok (eap_of attrs))
  unfolding extract_eap_message
  extract_eap_message_lem =
      rw
        (for_attributes_encoded (append_eap (head ++ encode attrs)) head attrs eap_step twenty fits
            (λ pre a post s e. append_eap_lem (head ++ encode attrs) pre a post e s) []
          ∙ ap ok (run-eap_step attrs []))
        refl
