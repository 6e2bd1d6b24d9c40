-- ===== src/Radius/Mschap/Fields.antt =====
-- `parseMSCHAPData` of cmd/server/handler.go on vendor data in the layout that it reads.
use fakeradius.Base.{
  ℕ, ◌+◌, ◌-◌, ◌≤◌, ◌<◌, ◌≡◌, refl, sym, ap, ◌∙◌, arith, inl, inr, [], ◌∷◌, ◌++◌, append-nil,
  append_assoc, length, leb, ok, err, ge→ltb, lt→ltb, leb→le, leb→gt, Bool-cases, if◌then◌else◌,
  length-append, mschap_length,
}
use fakeradius.Base.Bytes.{
  Bytes, at, slice, slice-eq, get_u16, put_u16, length-put_u16, length_bytes,
}
use fakeradius.Radius.Mschap.{parse_mschap_version, parse_mschap_data}

-- The data of an MS-CHAP response: type, identifier, a length that counts these four bytes and the
-- content, the content, and the name.
abbrev pub mschap_bytes : ℕ → ℕ → Bytes → Bytes → Bytes
mschap_bytes ms_type ident content name =
    ms_type ∷ ident ∷ (put_u16 (4 + length content) ++ (content ++ name))

module _ (ms_type : ℕ) (tail : Bytes) (hi lo len : ℕ) where
  abbrev vendor : Bytes
  vendor = ms_type ∷ tail

  module _ (e2 : at vendor 2 ≡ ok hi) (e3 : at vendor 3 ≡ ok lo) (e : get_u16 hi lo ≡ len) where
    parse_within :
        (content name : Bytes)
        → slice vendor 4 len ≡ ok content
        → slice vendor len (length vendor) ≡ ok name
        → 4 ≤ len
        → len + 4 ≤ length vendor
        → parse_mschap_data vendor ≡ parse_mschap_version ms_type content name
    unfolding parse_mschap_data at
    parse_within content name cut rest low high =
        rw
          (
            ge→ltb (length vendor) 4 (omega arith),
            e2,
            e3,
            e,
            ge→ltb (length vendor - 4) len (omega arith),
            ge→ltb len 4 low,
            cut,
            rest,
          )
          refl

    parse_refused :
        4 ≤ length vendor → length vendor < len + 4 → parse_mschap_data vendor ≡ err mschap_length
    unfolding parse_mschap_data at
    parse_refused low high =
        rw (ge→ltb (length vendor) 4 low, e2, e3, e, lt→ltb (length vendor - 4) len (omega arith))
          refl

module _ (ms_type ident : ℕ) (content name : Bytes) (bound : 4 + length content < 65536) where
  abbrev data_of : Bytes
  data_of = mschap_bytes ms_type ident content name

  abbrev front : Bytes
  front = ms_type ∷ ident ∷ put_u16 (4 + length content)

  length-front : length front ≡ 4
  length-front = omega (arith, length-put_u16 (4 + length content))

  length-data_of : length data_of ≡ 4 + (length content + length name)
  length-data_of =
      omega (arith, length-append front (content ++ name), length-append content name, length-front)

  -- Data whose length field counts the four bytes before the content and the content, below 2^16, are
  -- read as the content and the name behind it where the name has four bytes or more, and refused for
  -- their length where it has fewer.
  pub parse_mschap_data_lem : parse_mschap_data data_of ≡ (
      if leb 4 (length name) then parse_mschap_version ms_type content name else err mschap_length)
  parse_mschap_data_lem =
      let (hi, lo, e2, e3, e) =
        length_bytes ms_type ident (4 + length content) (content ++ name) bound in
      let cut : slice data_of 4 (4 + length content) ≡ ok content =
        slice-eq data_of front content name 4 (4 + length content) refl (sym length-front) refl in
      let rest : slice data_of (4 + length content) (length data_of) ≡ ok name =
        slice-eq data_of (front ++ content) name [] (4 + length content) (length data_of)
          (ap (λ z. front ++ (content ++ z)) (sym (append-nil name))
            ∙ sym (append_assoc front content (name ++ [])))
          (omega (arith, length-append front content, length-front))
          (omega (arith, length-data_of)) in
      elim (Bool-cases (leb 4 (length name))) [
        | inl long ↦
            parse_within ms_type (ident ∷ (put_u16 (4 + length content) ++ (content ++ name))) hi lo
              (4 + length content) e2 e3 e content name cut rest (omega arith)
              (omega (arith, length-data_of, leb→le 4 (length name) long))
            ∙ rw long refl
        | inr few ↦
            parse_refused ms_type (ident ∷ (put_u16 (4 + length content) ++ (content ++ name))) hi
              lo (4 + length content) e2 e3 e (omega (arith, length-data_of))
              (omega (arith, length-data_of, leb→gt 4 (length name) few))
            ∙ rw few refl
      ]
