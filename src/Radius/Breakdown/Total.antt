-- ===== src/Radius/Breakdown/Total.antt =====
-- When `extractMA` of cmd/server/main.go panics.
use fakeradius.Base.{
  ℕ, ◌+◌, ◌≤◌, ◌≡◌, ◌⊎◌, inl, inr, refl, arith, Bool, true, false, ◌&&◌, List, ◌∷◌, ◌++◌, length,
  ltb, leb, le→leb, ge→ltb, ◌==◌, if◌then◌else◌, ok, panic, Bool-cases, All, length-append,
}
use fakeradius.Base.Bytes.{Bytes}
use fakeradius.Radius.Attributes.Total.{malformed_cases, malformed-fits}
use fakeradius.Radius.Breakdown.{find_ma, extract_ma}
use fakeradius.Radius.Walk.Encoded.{
  Attribute, Fits, encode, extent, run, for_attributes_encoded, extent-fits,
}
use fakeradius.Radius.Walk.Total.{Ends, for_attributes_settles}
use fakeradius.Radius.Walk.{Flow, halt, next}

find_ma-Ends :
    (packet : Bytes) (pos t l : ℕ) (s : Bool)
    → Ends (find_ma packet pos t l s) l ⊎ (find_ma packet pos t l s ≡ panic)
find_ma-Ends packet pos t l s = elim (Bool-cases (t == 80 && l == 18)) [
  | inl here ↦ elim (Bool-cases (leb (pos + 18) 2048)) [
    | inl within ↦ inl (inl (true, rw (here, within) refl))
    | inr beyond ↦ inr (rw (here, beyond) refl)
  ]
  | inr other ↦ elim (malformed_cases packet pos l) [
    | inl bad ↦ inl (inl (s, rw (other, bad) refl))
    | inr (good, two, _) ↦ inl (inr (s, rw (other, good) refl, two))
  ]
]

-- It returns or panics.
pub extract_ma-settles :
    (packet : Bytes)
    → ((found : Bool) × (extract_ma packet ≡ ok found)) ⊎ (extract_ma packet ≡ panic)
unfolding extract_ma
extract_ma-settles packet = elim (Bool-cases (ltb (length packet) 20)) [
  | inl short ↦ inl (false, rw short refl)
  | inr long ↦ rw long (
      for_attributes_settles (find_ma packet) packet (length packet) 20 false (omega arith)
        (λ pos t l s _. find_ma-Ends packet pos t l s))
]

abbrev ma_step : Attribute → Bool → Flow Bool
ma_step a s = if a.kind == 80 && extent a == 18 then halt true else next s

find_ma_lem :
    (packet pre : Bytes) (a : Attribute) (post : Bytes) (s : Bool)
    → packet ≡ pre ++ (a.kind ∷ extent a ∷ (a.value ++ post))
    → length packet ≤ 2048
    → find_ma packet (length pre) a.kind (extent a) s ≡ ok (ma_step a s)
find_ma_lem packet pre a post s e room =
    let fits = extent-fits packet pre a post e in
    elim (Bool-cases (a.kind == 80 && extent a == 18)) [
      | inl here ↦
          let long : extent a ≡ 18 = ground arith in
          rw (here, le→leb (length pre + 18) 2048 (omega arith)) refl
      | inr other ↦
          rw (other, malformed-fits packet (length pre) (extent a) (omega arith) fits) refl
    ]

-- On a well-formed packet that the buffer holds it returns.
pub extract_ma-encoded :
    (head : Bytes) (attrs : List Attribute)
    → length head ≡ 20
    → All Fits attrs
    → length (encode attrs) ≤ 2028
    → (found : Bool) × (extract_ma (head ++ encode attrs) ≡ ok found)
unfolding extract_ma
extract_ma-encoded head attrs twenty fits room =
    let packet = head ++ encode attrs in
    (
      run ma_step attrs false,
      rw (ge→ltb (length packet) 20 (omega (arith, length-append head (encode attrs)))) (
          for_attributes_encoded (find_ma packet) head attrs ma_step twenty fits
            (λ pre a post s e.
              find_ma_lem packet pre a post s e (omega (arith, length-append head (encode attrs))))
            false),
    )
