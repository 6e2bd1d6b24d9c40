-- ===== src/Radius/Extract/Total.antt =====
-- The functions of cmd/server/handler.go that take a value out of a packet return on every packet, with
-- the value or an error.
use fakeradius.Base.{
  ℕ, ◌+◌, ◌≤◌, ◌≡◌, refl, ap, ◌∙◌, arith, inl, inr, true, false, ◌&&◌, Option, none, some, length,
  ltb, leb, ◌==◌, Error, ok, Returns, ◌>>=◌, ltb→ge, leb→le, Bool-cases, and_true,
  user_name_not_found, chap_challenge_not_found, chap_response_not_found, mschap_not_found,
}
use fakeradius.Base.Bytes.{Bytes, slice-between}
use fakeradius.Radius.Attributes.Total.{is_microsoft-ok}
use fakeradius.Radius.Attributes.{
  is_microsoft, user_name_type, chap_challenge_type, chap_response_type,
}
use fakeradius.Radius.Extract.{
  take_value, take_microsoft, found_or, extract_username, extract_chap_challenge,
  extract_chap_response, extract_mschap_attribute,
}
use fakeradius.Radius.Walk.Total.{Ends, for_attributes_ok}
use fakeradius.Radius.Walk.{for_attributes}

take_value-Ends :
    (wanted : ℕ) (packet : Bytes) (pos t l : ℕ) (s : Option Bytes)
    → Ends (take_value wanted packet pos t l s) l
take_value-Ends wanted packet pos t l s = elim (Bool-cases (ltb l 2)) [
  | inl few ↦ inl (s, rw few refl)
  | inr enough ↦
      let two : 2 ≤ l = ltb→ge _ _ enough in
      elim (Bool-cases (t == wanted && leb (pos + l) (length packet))) [
        | inr other ↦ inr (s, rw (enough, other) refl, two)
        | inl here ↦
            let (value, e, _) =
              slice-between packet (pos + 2) (pos + l) (omega arith)
                (leb→le _ _ (and_true (t == wanted) (leb (pos + l) (length packet)) here).1) in
            inl (some value, rw (enough, here, e) refl)
      ]
]

found_or-Returns : (e : Error) (o : Option Bytes) → Returns (found_or e o)
found_or-Returns e none = tt
found_or-Returns e (some v) = tt

take_value-Returns :
    (e : Error) (wanted : ℕ) (packet : Bytes)
    → Returns (do
      found ← for_attributes (take_value wanted packet) packet (length packet) 20 none
      found_or e found)
take_value-Returns e wanted packet =
    let (o, f) =
      for_attributes_ok (take_value wanted packet) packet (length packet) 20 none (omega arith)
        (λ pos t l s _. take_value-Ends wanted packet pos t l s) in
    rw f (found_or-Returns e o)

pub extract_username-Returns : (packet : Bytes) → Returns (extract_username packet)
unfolding extract_username
extract_username-Returns packet = take_value-Returns user_name_not_found user_name_type packet

pub extract_chap_challenge-Returns : (packet : Bytes) → Returns (extract_chap_challenge packet)
unfolding extract_chap_challenge
extract_chap_challenge-Returns packet =
    take_value-Returns chap_challenge_not_found chap_challenge_type packet

pub extract_chap_response-Returns : (packet : Bytes) → Returns (extract_chap_response packet)
unfolding extract_chap_response
extract_chap_response-Returns packet =
    take_value-Returns chap_response_not_found chap_response_type packet

-- A value with the number of Microsoft has the four bytes that are cut off.
is_microsoft-room : (v : Bytes) → is_microsoft v ≡ ok true → 4 ≤ length v
unfolding is_microsoft
is_microsoft-room v h = elim (Bool-cases (leb 4 (length v))) [
  | inl enough ↦ leb→le _ _ enough
  | inr few ↦ let e : is_microsoft v ≡ ok false = rw few refl in cc
]

take_microsoft-Ends :
    (packet : Bytes) (pos t l : ℕ) (s : Option Bytes) → Ends (take_microsoft packet pos t l s) l
take_microsoft-Ends packet pos t l s = elim (Bool-cases (ltb l 2)) [
  | inl few ↦ inl (s, rw few refl)
  | inr enough ↦
      let two : 2 ≤ l = ltb→ge _ _ enough in
      elim (Bool-cases (t == 26 && leb (pos + l) (length packet))) [
        | inr other ↦ inr (s, rw (enough, other) refl, two)
        | inl here ↦
            let (v, e, _) =
              slice-between packet (pos + 2) (pos + l) (omega arith)
                (leb→le _ _ (and_true (t == 26) (leb (pos + l) (length packet)) here).1) in
            let (m, f) = is_microsoft-ok v in
            elim (Bool-cases m) [
              | inr g ↦ inr (s, rw (enough, here, e, f, g) refl, two)
              | inl g ↦
                  let (value, k, _) =
                    slice-between v 4 (length v) (is_microsoft-room v (f ∙ ap ok g))
                      (omega arith) in
                  inl (some value, rw (enough, here, e, f, g, k) refl)
            ]
      ]
]

pub extract_mschap_attribute-Returns : (packet : Bytes) → Returns (extract_mschap_attribute packet)
unfolding extract_mschap_attribute
extract_mschap_attribute-Returns packet =
    let (o, f) =
      for_attributes_ok (take_microsoft packet) packet (length packet) 20 none (omega arith)
        (λ pos t l s _. take_microsoft-Ends packet pos t l s) in
    rw f (found_or-Returns mschap_not_found o)
