-- ===== src/Radius/Attributes/Scan.antt =====
-- The scans of cmd/server/handler.go on a well-formed packet.
use fakeradius.Base.{
  ℕ, ◌+◌, ◌≡◌, refl, ap, ◌∙◌, arith, Bool, true, false, ◌&&◌, ◌||◌, List, [], ◌∷◌, ◌++◌, length,
  ◌==◌, ok, ge→ltb, le→leb, if◌then◌else◌, All, Bool-cases, inl, inr, length-append,
}
use fakeradius.Base.Bytes.{Bytes, at, get_u32}
use fakeradius.Radius.Attributes.Total.{malformed-fits}
use fakeradius.Radius.Attributes.{
  has_eap_attributes, has_message_authenticator, has_chap_attributes, has_mschap_attributes,
  scan_for, mschap_scan, microsoft_at, vendor_id, is_microsoft, microsoft_vendor_id,
  eap_message_type, message_authenticator_type, chap_challenge_type, chap_response_type,
}
use fakeradius.Radius.Walk.Encoded.{
  Attribute, Fits, encode, extent, run, for_attributes_encoded, extent-fits, slice-value,
}
use fakeradius.Radius.Walk.{Flow, halt, next, for_attributes}

abbrev pub any : (Attribute → Bool) → List Attribute → Bool
any test [] = false
any test (a ∷ attrs) = if test a then true else any test attrs

abbrev search_step : (Attribute → Bool) → Attribute → Bool → Flow Bool
search_step test a s = if test a then halt true else next s

run-search_step :
    (test : Attribute → Bool) (attrs : List Attribute)
    → run (search_step test) attrs false ≡ any test attrs
run-search_step test [] = refl
run-search_step test (a ∷ attrs) = elim (Bool-cases (test a)) [
  | inl t ↦ rw (run, t) refl
  | inr f ↦ rw (run, f) (run-search_step test attrs)
]

module _ (head : Bytes) (attrs : List Attribute) (twenty : length head ≡ 20)
    (fits : All Fits attrs) where
  scan_for_encoded :
      (wanted : ℕ → Bool)
      → for_attributes
          (scan_for wanted (head ++ encode attrs))
          (head ++ encode attrs)
          (length (head ++ encode attrs))
          20
          false
        ≡ ok (any (λ a. wanted a.kind) attrs)
  scan_for_encoded wanted =
      let packet = head ++ encode attrs in
      for_attributes_encoded (scan_for wanted packet) head attrs (search_step (λ a. wanted a.kind))
        twenty fits
        (λ pre a post s e.
          let good =
            malformed-fits packet (length pre) (extent a) (omega arith)
              (extent-fits packet pre a post e) in
          rw good refl)
        false
      ∙ ap ok (run-search_step (λ a. wanted a.kind) attrs)

  pub has_eap_attributes_lem :
      has_eap_attributes (head ++ encode attrs) ≡ ok (any (λ a. a.kind == eap_message_type) attrs)
  unfolding has_eap_attributes
  has_eap_attributes_lem = scan_for_encoded (λ t. t == eap_message_type)

  pub has_chap_attributes_lem :
      has_chap_attributes (head ++ encode attrs)
      ≡ ok (any (λ a. a.kind == chap_challenge_type || a.kind == chap_response_type) attrs)
  unfolding has_chap_attributes
  has_chap_attributes_lem =
      scan_for_encoded (λ t. t == chap_challenge_type || t == chap_response_type)

  pub has_message_authenticator_lem :
      has_message_authenticator (head ++ encode attrs)
      ≡ ok (any (λ a. a.kind == message_authenticator_type) attrs)
  unfolding has_message_authenticator
  has_message_authenticator_lem =
      rw
        (ge→ltb (length (head ++ encode attrs)) 20
          (omega (arith, length-append head (encode attrs))))
        (scan_for_encoded (λ t. t == message_authenticator_type))

-- A Vendor-Specific value of Microsoft: it begins with the number 311.
abbrev pub of_microsoft : Bytes → Bool
of_microsoft (a ∷ b ∷ c ∷ d ∷ rest) = get_u32 a b c d == microsoft_vendor_id
of_microsoft _ = false

abbrev pub is_mschap : Attribute → Bool
is_mschap a = a.kind == 26 && of_microsoft a.value

pub is_microsoft_lem : (v : Bytes) → is_microsoft v ≡ ok (of_microsoft v)
unfolding is_microsoft vendor_id at
is_microsoft_lem [] = refl
is_microsoft_lem (a ∷ []) = refl
is_microsoft_lem (a ∷ b ∷ []) = refl
is_microsoft_lem (a ∷ b ∷ c ∷ []) = refl
is_microsoft_lem (a ∷ b ∷ c ∷ d ∷ rest) =
    rw (le→leb 4 (length (a ∷ b ∷ c ∷ d ∷ rest)) (omega arith)) refl

module _ (packet pre : Bytes) (a : Attribute) (post : Bytes)
    (e : packet ≡ pre ++ (a.kind ∷ extent a ∷ (a.value ++ post))) where
  microsoft_at_lem : microsoft_at packet (length pre) a.kind (extent a) ≡ ok (is_mschap a)
  unfolding microsoft_at
  microsoft_at_lem = elim (Bool-cases (a.kind == 26)) [
    | inr other ↦ rw other refl
    | inl here ↦
        rw
          (
            here,
            le→leb (length pre + extent a) (length packet) (extent-fits packet pre a post e),
            slice-value packet pre a post e,
          )
          (is_microsoft_lem a.value)
  ]

  pub mschap_scan_lem :
      (s : Bool)
      → mschap_scan packet (length pre) a.kind (extent a) s ≡ ok (search_step is_mschap a s)
  mschap_scan_lem s =
      rw
        (
          microsoft_at_lem,
          malformed-fits packet (length pre) (extent a) (omega arith)
              (extent-fits packet pre a post e),
        )
        refl

module _ (head : Bytes) (attrs : List Attribute) (twenty : length head ≡ 20)
    (fits : All Fits attrs) where
  -- On a packet with a header of twenty bytes and attributes that fit `hasMSCHAPAttributes` returns, and
  -- tells whether a Vendor-Specific attribute has a value that begins with the number 311.
  pub has_mschap_attributes_lem :
      has_mschap_attributes (head ++ encode attrs) ≡ ok (any is_mschap attrs)
  unfolding has_mschap_attributes
  has_mschap_attributes_lem =
      for_attributes_encoded (mschap_scan (head ++ encode attrs)) head attrs (search_step is_mschap)
        twenty fits (λ pre a post s e. mschap_scan_lem (head ++ encode attrs) pre a post e s) false
      ∙ ap ok (run-search_step is_mschap attrs)
