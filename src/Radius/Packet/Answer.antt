-- ===== src/Radius/Packet/Answer.antt =====
-- What `handlePacket` of cmd/server/main.go makes of a well-formed Access-Request.
use fakeradius.Base.{
  ◌≡◌, refl, inl, inr, ◌||◌, List, ◌++◌, Option, none, some, length, ◌==◌, Result, ok, err, panic,
  stuck, Error, Returns, mschap_not_found, ◌>>=◌, Bool-cases, if◌then◌else◌, All,
}
use fakeradius.Base.Bytes.{Bytes, codes}
use fakeradius.Radius.Attributes.Scan.{
  any, is_mschap, has_chap_attributes_lem, has_mschap_attributes_lem,
}
use fakeradius.Radius.Attributes.{user_name_type, chap_challenge_type, chap_response_type}
use fakeradius.Radius.Decide.{
  Decision, serve_radius, serve_radius_with_chap, serve_radius_with_mschap,
}
use fakeradius.Radius.Extract.Found.{
  first_of, first_mschap, extract_username_lem, extract_chap_challenge_lem,
  extract_chap_response_lem, extract_mschap_attribute_lem,
}
use fakeradius.Radius.Extract.{found_or, extract_mschap_attribute}
use fakeradius.Radius.Mschap.Total.{parse_mschap_data-Returns}
use fakeradius.Radius.Mschap.{MschapData, parse_mschap_data}
use fakeradius.Radius.Packet.{value_or_nil, username_of, decide, auth_type_of, AuthType}
use fakeradius.Radius.Walk.Encoded.{Attribute, Fits, encode}

abbrev pub user_of : List Attribute → Bytes
user_of attrs = elim (first_of user_name_type attrs) [ none ↦ codes "(unknown)" | some user ↦ user ]

abbrev pub parsed_mschap : List Attribute → Option MschapData
parsed_mschap attrs = elim (first_mschap attrs) [
  | none ↦ none
  | some vendor ↦ elim (parse_mschap_data vendor) [ ok d ↦ some d | _ ↦ none ]
]

-- MS-CHAP goes before CHAP, and CHAP before the name alone.
abbrev pub decision : List Attribute → Decision
decision attrs =
    if any is_mschap attrs
    then serve_radius_with_mschap (user_of attrs) (parsed_mschap attrs)
    else if any (λ a. a.kind == chap_challenge_type || a.kind == chap_response_type) attrs
    then serve_radius_with_chap (user_of attrs) (first_of chap_response_type attrs)
        (first_of chap_challenge_type attrs)
    else serve_radius (user_of attrs)

nil_of_found : (e : Error) (o : Option Bytes) → value_or_nil (found_or e o) ≡ ok o
nil_of_found e none = refl
nil_of_found e (some v) = refl

module _ (head : Bytes) (attrs : List Attribute) (twenty : length head ≡ 20)
    (fits : All Fits attrs) where
  pub username_of_lem : username_of (head ++ encode attrs) ≡ ok (user_of attrs)
  unfolding username_of
  username_of_lem =
      rw
        (
          extract_username_lem head attrs twenty fits,
          nil_of_found _ (first_of user_name_type attrs),
        )
        (named (first_of user_name_type attrs))
    where
      named :
          (o : Option Bytes)
          → (elim o [ none ↦ ok (codes "(unknown)") | some username ↦ ok username ])
            ≡ ok (elim o [ none ↦ codes "(unknown)" | some user ↦ user ])
      named none = refl
      named (some u) = refl

  pub auth_type_of_lem : (t : AuthType) × (auth_type_of (head ++ encode attrs) ≡ ok t)
  unfolding auth_type_of
  auth_type_of_lem = elim (Bool-cases (any is_mschap attrs)) [
    | inl m ↦ (AuthType.mschap, rw (has_mschap_attributes_lem head attrs twenty fits, m) refl)
    | inr m ↦
        elim (Bool-cases
          (any (λ a. a.kind == chap_challenge_type || a.kind == chap_response_type) attrs)) [
            | inl h ↦ (
              AuthType.chap,
              rw
                  (
                    has_mschap_attributes_lem head attrs twenty fits,
                    m,
                    has_chap_attributes_lem head attrs twenty fits,
                    h,
                  )
                  refl,
            )
            | inr h ↦ (
              AuthType.pap,
              rw
                  (
                    has_mschap_attributes_lem head attrs twenty fits,
                    m,
                    has_chap_attributes_lem head attrs twenty fits,
                    h,
                  )
                  refl,
            )
          ]
  ]

  parsed_lem :
      value_or_nil
        (do vendor ← extract_mschap_attribute (head ++ encode attrs); parse_mschap_data vendor)
      ≡ ok (parsed_mschap attrs)
  parsed_lem =
      rw (extract_mschap_attribute_lem head attrs twenty fits) (parsed (first_mschap attrs))
    where
      settled :
          (r : Result MschapData)
          → Returns r
          → value_or_nil r ≡ ok (elim r [ ok d ↦ some d | _ ↦ none ])
      settled (ok d) h = refl
      settled (err e) h = refl
      settled panic h = absurd h
      settled stuck h = absurd h

      parsed :
          (o : Option Bytes)
          → value_or_nil (do vendor ← found_or mschap_not_found o; parse_mschap_data vendor)
            ≡ ok (elim o [
              | none ↦ none
              | some vendor ↦ elim (parse_mschap_data vendor) [ ok d ↦ some d | _ ↦ none ]
            ])
      parsed none = refl
      parsed (some v) = settled (parse_mschap_data v) (parse_mschap_data-Returns v)

  pub decide_lem : decide (head ++ encode attrs) (user_of attrs) ≡ ok (decision attrs)
  unfolding decide
  decide_lem = elim (Bool-cases (any is_mschap attrs)) [
    | inl m ↦ rw (has_mschap_attributes_lem head attrs twenty fits, m, parsed_lem) refl
    | inr m ↦
        elim (Bool-cases
          (any (λ a. a.kind == chap_challenge_type || a.kind == chap_response_type) attrs)) [
            | inl h ↦
                rw
                  (
                    has_mschap_attributes_lem head attrs twenty fits,
                    m,
                    has_chap_attributes_lem head attrs twenty fits,
                    h,
                    extract_chap_response_lem head attrs twenty fits,
                    nil_of_found _ (first_of chap_response_type attrs),
                    extract_chap_challenge_lem head attrs twenty fits,
                    nil_of_found _ (first_of chap_challenge_type attrs),
                  )
                  refl
            | inr h ↦
                rw
                  (
                    has_mschap_attributes_lem head attrs twenty fits,
                    m,
                    has_chap_attributes_lem head attrs twenty fits,
                    h,
                  )
                  refl
          ]
  ]
