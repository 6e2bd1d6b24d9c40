-- ===== src/Radius/Walk/Encoded.antt =====
-- The attribute loop of cmd/server/handler.go on a well-formed packet is a walk over its attributes.
use fakeradius.Base.{
  ℕ, zero, suc, ◌+◌, ◌≤◌, ◌≡◌, refl, sym, ap, ◌∙◌, arith, List, [], ◌∷◌, ◌++◌, append_assoc, length,
  Result, ok, All, length-append,
}
use fakeradius.Base.Bytes.{Bytes, at-eq, slice, slice-eq, u8}
use fakeradius.Radius.Attributes.{build_attribute}
use fakeradius.Radius.Walk.Step
use fakeradius.Radius.Walk.Step.{walk}
use fakeradius.Radius.Walk.{Flow, halt, next, for_attributes}

-- An attribute, as RFC 2865 §5 has it: a type and a value of up to 253 bytes.
pub record Attribute : Type 0 where
  pub kind : ℕ
  pub value : Bytes

abbrev pub Fits : Attribute → Type 0
Fits a = length a.value ≤ 253

abbrev pub attribute_bytes : Attribute → Bytes
attribute_bytes a = build_attribute a.kind a.value

abbrev pub encode : List Attribute → Bytes
encode [] = []
encode (a ∷ attrs) = attribute_bytes a ++ encode attrs

-- The length byte of an attribute.
abbrev pub extent : Attribute → ℕ
extent a = 2 + length a.value

pub attribute_bytes-eq : (a : Attribute) → Fits a → attribute_bytes a ≡ a.kind ∷ extent a ∷ a.value
unfolding build_attribute
attribute_bytes-eq a h =
    let e : u8 (2 + length a.value) ≡ extent a = omega arith in ap (λ n. a.kind ∷ n ∷ a.value) e

pub length-attribute_bytes : (a : Attribute) → length (attribute_bytes a) ≡ extent a
unfolding build_attribute
length-attribute_bytes a = omega arith

pub length-encode_cons :
    (a : Attribute) (attrs : List Attribute)
    → length (encode (a ∷ attrs)) ≡ 2 + (length a.value + length (encode attrs))
length-encode_cons a attrs =
    omega (arith, length-append (attribute_bytes a) (encode attrs), length-attribute_bytes a)

-- A walk over attributes that stops where `step` does.
abbrev pub run {ℓ} : {S : Type ℓ} → (Attribute → S → Flow S) → List Attribute → S → S
run step [] s = s
run step (a ∷ attrs) s = elim (step a s) [ halt s' ↦ s' | next s' ↦ run step attrs s' ]

module _ {ℓ} {S : Type ℓ} (short : ℕ → S → Result S) (body : ℕ → ℕ → ℕ → S → Result (Flow S))
    (packet : Bytes) where
  -- On an attribute that stands whole in the packet a round does what `step` does.
  abbrev pub Steps : (Attribute → S → Flow S) → Type ℓ
  Steps step =
      (pre : Bytes) (a : Attribute) (post : Bytes) (s : S)
      → packet ≡ pre ++ (a.kind ∷ extent a ∷ (a.value ++ post))
      → body (length pre) a.kind (extent a) s ≡ ok (step a s)

  module _ (step : Attribute → S → Flow S) (steps : Steps step) where
    continues :
        (fuel : ℕ) (attrs : List Attribute) (pos l : ℕ) (s : S) (f : Flow S)
        → ((s' : S) → f ≡ halt s' → walk short body packet (length packet) fuel pos s ≡ ok s')
        → ((s' : S)
            → f ≡ next s'
            → walk short body packet (length packet) fuel pos s ≡ ok (run step attrs s'))
        → walk short body packet (length packet) fuel pos s
          ≡ ok (elim f [ halt s' ↦ s' | next s' ↦ run step attrs s' ])
    continues fuel attrs pos l s (halt s') h n = h s' refl
    continues fuel attrs pos l s (next s') h n = n s' refl

    pub walk_encoded :
        (attrs : List Attribute) (pre : Bytes) (fuel : ℕ) (s : S)
        → All Fits attrs
        → packet ≡ pre ++ encode attrs
        → length packet ≤ fuel + length pre
        → walk short body packet (length packet) fuel (length pre) s ≡ ok (run step attrs s)
    walk_encoded [] pre fuel s fits e h =
        Step.walk_past short body packet (length packet) fuel (length pre) s
          (omega (arith, ap length e, length-append pre []))
    walk_encoded (a ∷ attrs) pre zero s fits e h = absurd (
        omega (
          arith,
          ap length e,
          length-append pre (encode (a ∷ attrs)),
          length-append (attribute_bytes a) (encode attrs),
          length-attribute_bytes a,
        ))
    walk_encoded (a ∷ attrs) pre (suc fuel) s fits e h =
        let whole : packet ≡ pre ++ (a.kind ∷ extent a ∷ (a.value ++ encode attrs)) =
          e ∙ ap (λ z. pre ++ (z ++ encode attrs)) (attribute_bytes-eq a fits.0) in
        let size : length packet ≡ length pre + (2 + (length a.value + length (encode attrs))) =
          omega (
            arith,
            ap length whole,
            length-append pre (a.kind ∷ extent a ∷ (a.value ++ encode attrs)),
            length-append a.value (encode attrs),
          ) in
        let at0 =
          at-eq packet pre a.kind (extent a ∷ (a.value ++ encode attrs)) (length pre) whole refl in
        let at1 =
          at-eq packet (pre ++ a.kind ∷ []) (extent a) (a.value ++ encode attrs) (length pre + 1)
            (whole ∙ sym (append_assoc pre (a.kind ∷ []) _))
            (sym (length-append pre (a.kind ∷ []))) in
        let past : length (pre ++ attribute_bytes a) ≡ length pre + extent a =
          length-append pre (attribute_bytes a)
          ∙ ap (◌+◌ (length pre)) (length-attribute_bytes a) in
        let rest : (s' : S)
            → walk short body packet (length packet) fuel (length pre + extent a) s'
              ≡ ok (run step attrs s') =
          λ s'.
            ap (λ n. walk short body packet (length packet) fuel n s') (sym past)
            ∙ walk_encoded attrs (pre ++ attribute_bytes a) fuel s' fits.1
                (e ∙ sym (append_assoc pre (attribute_bytes a) (encode attrs))) (omega arith) in
        let round = steps pre a (encode attrs) s whole in
        continues (suc fuel) attrs (length pre) (extent a) s (step a s)
          (λ s' b.
            Step.walk_halt short body packet (length packet) fuel (length pre) a.kind (extent a) s
              s' (omega arith) at0 at1 (round ∙ ap ok b))
          (λ s' b.
            Step.walk_next short body packet (length packet) fuel (length pre) a.kind (extent a) s
              s' (omega arith) at0 at1 (round ∙ ap ok b)
            ∙ rest s')

-- A packet of a header of twenty bytes and attributes.
module _ {ℓ} {S : Type ℓ} (body : ℕ → ℕ → ℕ → S → Result (Flow S)) (head : Bytes)
    (attrs : List Attribute) (step : Attribute → S → Flow S) where
  pub for_attributes_encoded :
      length head ≡ 20
      → All Fits attrs
      → Steps (λ _ s. ok s) body (head ++ encode attrs) step
      → (s : S)
      → for_attributes body (head ++ encode attrs) (length (head ++ encode attrs)) 20 s
        ≡ ok (run step attrs s)
  for_attributes_encoded twenty fits steps s =
      ap (λ n. for_attributes body (head ++ encode attrs) (length (head ++ encode attrs)) n s)
        (sym twenty)
      ∙ walk_encoded (λ _ s. ok s) body (head ++ encode attrs) step steps attrs head
          (length (head ++ encode attrs)) s fits refl (omega arith)

-- What an attribute that stands whole in a packet says of its bytes.
module _ (packet pre : Bytes) (a : Attribute) (post : Bytes)
    (e : packet ≡ pre ++ (a.kind ∷ extent a ∷ (a.value ++ post))) where
  pub extent-fits : length pre + extent a ≤ length packet
  extent-fits = omega (
    arith,
    ap length e,
    length-append pre (a.kind ∷ extent a ∷ (a.value ++ post)),
    length-append a.value post,
  )

  pub slice-value : slice packet (length pre + 2) (length pre + extent a) ≡ ok a.value
  slice-value =
      slice-eq packet (pre ++ a.kind ∷ extent a ∷ []) a.value post (length pre + 2)
        (length pre + extent a)
        (e ∙ sym (append_assoc pre (a.kind ∷ extent a ∷ []) (a.value ++ post)))
        (sym (length-append pre (a.kind ∷ extent a ∷ []))) (omega arith)

  pub slice-whole :
      slice packet (length pre) (length pre + extent a) ≡ ok (a.kind ∷ extent a ∷ a.value)
  slice-whole =
      slice-eq packet pre (a.kind ∷ extent a ∷ a.value) post (length pre) (length pre + extent a) e
        refl (omega arith)
