-- ===== src/Radius/Signature/Replace.antt =====
-- `replaceOrAddMA` of cmd/server/handler.go on well-formed attributes.
use fakeradius.Base.{
  ◌≡◌, refl, sym, ap, ap₂, ◌∙◌, arith, ◌⊎◌, inl, inr, Bool, true, false, not, ◌||◌, List, [], ◌∷◌,
  ◌++◌, append-nil, append_assoc, length, ◌==◌, ok, Bool-cases, if◌then◌else◌, All,
}
use fakeradius.Base.Bytes.{Bytes}
use fakeradius.Radius.Attributes.Scan.{any}
use fakeradius.Radius.Attributes.Total.{malformed-fits}
use fakeradius.Radius.Attributes.{message_authenticator_type, build_attribute}
use fakeradius.Radius.Signature.{Replaced, append_junk, replace_ma, replace_or_add_ma}
use fakeradius.Radius.Walk.Encoded.{
  Attribute, Fits, encode, extent, attribute_bytes, attribute_bytes-eq, run, walk_encoded,
  extent-fits, slice-whole,
}
use fakeradius.Radius.Walk.{Flow, next}

abbrev pub is_ma : Attribute → Bool
is_ma a = a.kind == message_authenticator_type

abbrev pub ma_of : Bytes → Attribute
ma_of value = record { kind = message_authenticator_type; value = value }

-- Every Message-Authenticator with the value put in its place.
abbrev pub with_ma : Bytes → List Attribute → List Attribute
with_ma value [] = []
with_ma value (a ∷ attrs) = (if is_ma a then ma_of value else a) ∷ with_ma value attrs

abbrev pub replaced_or_added : Bytes → List Attribute → List Attribute
replaced_or_added value attrs =
    if any is_ma attrs then with_ma value attrs else attrs ++ ma_of value ∷ []

pub encode-append : (xs ys : List Attribute) → encode (xs ++ ys) ≡ encode xs ++ encode ys
encode-append [] ys = refl
encode-append (a ∷ xs) ys =
    ap (◌++◌ (attribute_bytes a)) (encode-append xs ys)
    ∙ sym (append_assoc (attribute_bytes a) (encode xs) (encode ys))

pub with_ma-none :
    (value : Bytes) (attrs : List Attribute) → any is_ma attrs ≡ false → with_ma value attrs ≡ attrs
with_ma-none value [] h = refl
with_ma-none value (a ∷ attrs) h = elim (Bool-cases (is_ma a)) [
  | inl here ↦ let k : true ≡ false = rw here at h in cc
  | inr other ↦
      let k : any is_ma attrs ≡ false = rw other at h in
      rw (with_ma, other) (ap (◌∷◌ a) (with_ma-none value attrs k))
]

abbrev pub replace_step : Bytes → Attribute → Replaced → Flow Replaced
replace_step value a s = next (
    if is_ma a
    then record { result = s.result ++ attribute_bytes (ma_of value); found = true }
    else record { result = s.result ++ (a.kind ∷ extent a ∷ a.value); found = s.found })

or_true : (b : Bool) → (b || true) ≡ true
or_true true = refl
or_true false = refl

or_false : (b : Bool) → (b || false) ≡ b
or_false true = refl
or_false false = refl

abbrev pub replaced : Bytes → Bool → Replaced
replaced result found = record { result = result; found = found }

pub run-replace_step :
    (value : Bytes) (attrs : List Attribute) (r : Bytes) (f : Bool)
    → All Fits attrs
    → run (replace_step value) attrs (replaced r f)
      ≡ replaced (r ++ encode (with_ma value attrs)) (f || any is_ma attrs)
run-replace_step value [] r f fits = ap₂ replaced (sym (append-nil r)) (sym (or_false f))
run-replace_step value (a ∷ attrs) r f fits = elim (Bool-cases (is_ma a)) [
  | inl here ↦
      rw (run, any, with_ma, here)
        (run-replace_step value attrs (r ++ attribute_bytes (ma_of value)) true fits.1
          ∙ ap₂ replaced
              (append_assoc r (attribute_bytes (ma_of value)) (encode (with_ma value attrs)))
              (sym (or_true f)))
  | inr other ↦
      rw (run, any, with_ma, other)
        (run-replace_step value attrs (r ++ (a.kind ∷ extent a ∷ a.value)) f fits.1
          ∙ ap (λ z. replaced z (f || any is_ma attrs))
              (append_assoc r (a.kind ∷ extent a ∷ a.value) (encode (with_ma value attrs))
                ∙ ap (λ z. r ++ (z ++ encode (with_ma value attrs)))
                    (sym (attribute_bytes-eq a fits.0))))
]

replace_ma_lem :
    (value packet pre : Bytes) (a : Attribute) (post : Bytes) (s : Replaced)
    → packet ≡ pre ++ (a.kind ∷ extent a ∷ (a.value ++ post))
    → replace_ma
        (build_attribute message_authenticator_type value)
        packet
        (length pre)
        a.kind
        (extent a)
        s
      ≡ ok (replace_step value a s)
replace_ma_lem value packet pre a post s e =
    let good =
      malformed-fits packet (length pre) (extent a) (omega arith)
        (extent-fits packet pre a post e) in
    elim (Bool-cases (is_ma a)) [
      | inl here ↦ rw (good, here) refl
      | inr other ↦ rw (good, other, slice-whole packet pre a post e) refl
    ]

module _ (value : Bytes) (attrs : List Attribute) where
  pub finish :
      (any is_ma attrs ≡ true) ⊎ (any is_ma attrs ≡ false)
      → (if not (any is_ma attrs)
          then encode (with_ma value attrs) ++ build_attribute message_authenticator_type value
          else encode (with_ma value attrs))
        ≡ encode (replaced_or_added value attrs)
  finish (inl here) = rw here refl
  finish (inr none) =
      rw (none, with_ma-none value attrs none)
        (ap (◌++◌ (encode attrs)) (sym (append-nil (attribute_bytes (ma_of value))))
          ∙ sym (encode-append attrs (ma_of value ∷ [])))

  -- On attributes that fit `replaceOrAddMA` puts the value into every Message-Authenticator in its
  -- place, or appends one where there is none, and keeps all other attributes and the order.
  pub replace_or_add_ma_lem :
      All Fits attrs
      → replace_or_add_ma (encode attrs) value ≡ ok (encode (replaced_or_added value attrs))
  unfolding replace_or_add_ma
  replace_or_add_ma_lem fits =
      let attributes = encode attrs in
      rw
        (walk_encoded (append_junk attributes)
            (replace_ma (build_attribute message_authenticator_type value) attributes) attributes
            (replace_step value) (λ pre a post s e. replace_ma_lem value attributes pre a post s e)
            attrs [] (length attributes) (replaced [] false) fits refl (omega arith)
          ∙ ap ok (run-replace_step value attrs [] false fits))
        (ap ok (finish (Bool-cases (any is_ma attrs))))
