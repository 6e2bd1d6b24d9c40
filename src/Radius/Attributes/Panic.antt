-- ===== src/Radius/Attributes/Panic.antt =====
-- `hasMSCHAPAttributes` of cmd/server/handler.go slices `packet[pos+2 : pos+attrLen]` before it looks
-- at whether `attrLen` is 2 at least.
use fakeradius.Base.{
  ℕ, zero, suc, ◌+◌, ◌≤◌, ◌<◌, ◌≡◌, refl, sym, ap, ◌∙◌, arith, Bool, false, List, [], ◌∷◌, ◌++◌,
  append_assoc, length, Result, ok, panic, gt→leb, le→leb, All, length-append,
}
use fakeradius.Base.Bytes.{Bytes, at-eq, slice}
use fakeradius.Radius.Attributes.Scan.{is_mschap, mschap_scan_lem}
use fakeradius.Radius.Attributes.{has_mschap_attributes, mschap_scan, microsoft_at}
use fakeradius.Radius.Walk.Encoded.{
  Attribute, Fits, encode, extent, attribute_bytes, attribute_bytes-eq, length-attribute_bytes,
  extent-fits,
}
use fakeradius.Radius.Walk.Step
use fakeradius.Radius.Walk.Step.{walk}
use fakeradius.Radius.Walk.{next}

microsoft_at-panic :
    (packet : Bytes) (pos l : ℕ)
    → l < 2
    → pos + 2 ≤ length packet
    → microsoft_at packet pos 26 l ≡ panic
unfolding microsoft_at slice
microsoft_at-panic packet pos l few room =
    rw (le→leb (pos + l) (length packet) (omega arith), gt→leb (pos + 2) (pos + l) (omega arith))
      refl

abbrev pub NoMschap : Attribute → Type 0
NoMschap a = is_mschap a ≡ false

module _ (packet : Bytes) (l : ℕ) (rest : Bytes) (few : l < 2) where
  abbrev scan : ℕ → ℕ → Bool → Result Bool
  scan = walk (λ _ s. ok s) (mschap_scan packet) packet (length packet)

  scan-panic :
      (attrs : List Attribute) (pre : Bytes) (fuel : ℕ)
      → All Fits attrs
      → All NoMschap attrs
      → packet ≡ pre ++ (encode attrs ++ (26 ∷ l ∷ rest))
      → length packet ≤ fuel + length pre
      → scan fuel (length pre) false ≡ panic
  scan-panic attrs pre zero fits none e h = absurd (
      omega (
        arith,
        ap length e,
        length-append pre (encode attrs ++ (26 ∷ l ∷ rest)),
        length-append (encode attrs) (26 ∷ l ∷ rest),
      ))
  scan-panic [] pre (suc fuel) fits none e h =
      let size = ap length e ∙ length-append pre (26 ∷ l ∷ rest) in
      Step.walk_panic (λ _ s. ok s) (mschap_scan packet) packet (length packet) fuel (length pre) 26
        l false false (omega arith) (at-eq packet pre 26 (l ∷ rest) (length pre) e refl)
        (at-eq packet (pre ++ 26 ∷ []) l rest (length pre + 1)
          (e ∙ sym (append_assoc pre (26 ∷ []) (l ∷ rest))) (sym (length-append pre (26 ∷ []))))
        (rw (microsoft_at-panic packet (length pre) l few (omega arith)) refl)
  scan-panic (a ∷ attrs) pre (suc fuel) fits none e h =
      let post = encode attrs ++ (26 ∷ l ∷ rest) in
      let flat : packet ≡ pre ++ (attribute_bytes a ++ post) =
        e ∙ ap (◌++◌ pre) (append_assoc (attribute_bytes a) (encode attrs) (26 ∷ l ∷ rest)) in
      let whole : packet ≡ pre ++ (a.kind ∷ extent a ∷ (a.value ++ post)) =
        flat ∙ ap (λ z. pre ++ (z ++ post)) (attribute_bytes-eq a fits.0) in
      let past : length (pre ++ attribute_bytes a) ≡ length pre + extent a =
        length-append pre (attribute_bytes a) ∙ ap (◌+◌ (length pre)) (length-attribute_bytes a) in
      let round : mschap_scan packet (length pre) a.kind (extent a) false ≡ ok (next false) =
        mschap_scan_lem packet pre a post whole false ∙ rw none.0 refl in
      let inside = extent-fits packet pre a post whole in
      Step.walk_next (λ _ s. ok s) (mschap_scan packet) packet (length packet) fuel (length pre)
        a.kind (extent a) false false (omega arith)
        (at-eq packet pre a.kind (extent a ∷ (a.value ++ post)) (length pre) whole refl)
        (at-eq packet (pre ++ a.kind ∷ []) (extent a) (a.value ++ post) (length pre + 1)
          (whole ∙ sym (append_assoc pre (a.kind ∷ []) (extent a ∷ (a.value ++ post))))
          (sym (length-append pre (a.kind ∷ []))))
        round
      ∙ ap (λ n. scan fuel n false) (sym past)
      ∙ scan-panic attrs (pre ++ attribute_bytes a) fuel fits.1 none.1
          (flat ∙ sym (append_assoc pre (attribute_bytes a) post)) (omega arith)

-- A Vendor-Specific attribute of length 0 or 1, behind well-formed attributes none of which is one of
-- Microsoft's.
pub has_mschap_attributes-panic :
    (head : Bytes) (attrs : List Attribute) (l : ℕ) (rest : Bytes)
    → length head ≡ 20
    → All Fits attrs
    → All NoMschap attrs
    → l < 2
    → has_mschap_attributes (head ++ (encode attrs ++ (26 ∷ l ∷ rest))) ≡ panic
unfolding has_mschap_attributes
has_mschap_attributes-panic head attrs l rest twenty fits none few =
    let packet = head ++ (encode attrs ++ (26 ∷ l ∷ rest)) in
    ap (λ n. scan packet l rest few (length packet) n false) (sym twenty)
    ∙ scan-panic packet l rest few attrs head (length packet) fits none refl (omega arith)
