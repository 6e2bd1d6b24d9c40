-- ===== src/Radius/Signature/Total.antt =====
-- `validateMessageAuthenticator` of cmd/server/handler.go gives an answer for every packet.
use fakeradius.Base.{
  ℕ, ◌+◌, ◌≤◌, ◌≡◌, refl, ◌∙◌, arith, inl, inr, Bool, true, false, not, ◌&&◌, [], ◌++◌, Option,
  none, some, length, ltb, ◌==◌, Result, ok, ltb→ge, ge→ltb, Bool-cases, and_true, ==_iff,
  if◌then◌else◌,
}
use fakeradius.Base.Bytes.{Bytes, at-in, slice-between, get_u16, bytes_eq}
use fakeradius.Crypto.{Crypto}
use fakeradius.Radius.Attributes.Total.{malformed_cases, has_message_authenticator-ok}
use fakeradius.Radius.Attributes.{message_authenticator_type, build_attribute}
use fakeradius.Radius.Signature.{
  Replaced, append_junk, replace_ma, replace_or_add_ma, take_ma, check_ma, auth_data,
  validate_message_authenticator, zero_ma,
}
use fakeradius.Radius.Walk.Total.{Moves, Ends, walk_total, for_attributes_ok}

append_junk-ok :
    (attributes : Bytes) (pos : ℕ) (s : Replaced)
    → pos ≤ length attributes
    → (s' : Replaced) × (append_junk attributes pos s ≡ ok s')
append_junk-ok attributes pos s h =
    let (junk, e, _) = slice-between attributes pos (length attributes) h (omega arith) in
    (record s { result = s.result ++ junk }, rw e refl)

abbrev Value : Result Replaced → Type 0
Value r = (s : Replaced) × (r ≡ ok s)

replace_ma-Moves :
    (ma attributes : Bytes) (pos t l : ℕ) (s : Replaced)
    → pos + 2 ≤ length attributes
    → Moves
        (append_junk attributes)
        (replace_ma ma attributes)
        attributes
        (length attributes)
        (λ _ _. Unit {0})
        Value
        pos
        t
        l
        s
replace_ma-Moves ma attributes pos t l s room = elim (malformed_cases attributes pos l) [
  | inl bad ↦
      let (s', e) = append_junk-ok attributes pos s (omega arith) in
      inl (s', rw (bad, e) refl, (s', refl))
  | inr (good, two, fits) ↦ elim (Bool-cases (t == message_authenticator_type)) [
    | inl here ↦
        inr (inl (record { result = s.result ++ ma; found = true }, rw (good, here) refl, two, tt))
    | inr other ↦
        let (attr, e, _) = slice-between attributes pos (pos + l) (omega arith) fits in
        inr (inl (record s { result = s.result ++ attr }, rw (good, other, e) refl, two, tt))
  ]
]

pub replace_or_add_ma-ok :
    (attributes value : Bytes) → (r : Bytes) × (replace_or_add_ma attributes value ≡ ok r)
unfolding replace_or_add_ma
replace_or_add_ma-ok attributes value =
    let ma = build_attribute message_authenticator_type value in
    let (r, e, (s, f)) =
      walk_total (append_junk attributes) (replace_ma ma attributes) attributes (length attributes)
        (λ _ _. Unit {0}) Value (omega arith) (λ pos s _ _. (s, refl))
        (λ pos s _ h.
          let (s', e) = append_junk-ok attributes pos s (omega arith) in (s', e, (s', refl)))
        (λ pos t l s _ room. replace_ma-Moves ma attributes pos t l s room) (length attributes) 0
        (record { result = []; found = false }) tt (omega arith) in
    (if not s.found then s.result ++ ma else s.result, rw (e ∙ f) refl)

take_ma-Ends :
    (packet : Bytes) (len pos t l : ℕ) (s : Option Bytes)
    → len ≤ length packet
    → Ends (take_ma packet len pos t l s) l
take_ma-Ends packet len pos t l s within = elim (Bool-cases (ltb l 2)) [
  | inl few ↦ inl (s, rw few refl)
  | inr enough ↦ elim (Bool-cases (ltb len (pos + l))) [
    | inl long ↦ inl (s, rw (enough, long) refl)
    | inr fits ↦ elim (Bool-cases (t == message_authenticator_type && l == 18)) [
      | inr other ↦ inr (s, rw (enough, fits, other) refl, ltb→ge l 2 enough)
      | inl here ↦
          let size : l ≡ 18 =
            (==_iff l 18).0 (and_true (t == message_authenticator_type) (l == 18) here).1 in
          let room = ltb→ge len (pos + l) fits in
          let (value, e, _) =
            slice-between packet (pos + 2) (pos + 18) (omega arith) (omega arith) in
          inl (some value, rw (enough, fits, here, e) refl)
    ]
  ]
]

check_ma-ok :
    (c : Crypto) (packet secret : Bytes) (len : ℕ) (found : Option Bytes)
    → 20 ≤ len
    → len ≤ length packet
    → (b : Bool) × (check_ma c packet secret len found ≡ ok b)
unfolding check_ma
check_ma-ok c packet secret len none h k = (false, refl)
check_ma-ok c packet secret len (some value) h k =
    let (attributes, e, _) = slice-between packet 20 len h k in
    let (zeroed, f) = replace_or_add_ma-ok attributes zero_ma in
    let (code, g) = at-in packet 0 (omega arith) in
    let (id, i) = at-in packet 1 (omega arith) in
    let (auth, j, _) = slice-between packet 4 20 (omega arith) (omega arith) in
    (
      bytes_eq value (c.hmac_md5 secret (auth_data code id len auth zeroed)),
      rw (e, f, g, i, j) refl,
    )

pub validate_message_authenticator-ok :
    (c : Crypto) (packet secret : Bytes)
    → (b : Bool) × (validate_message_authenticator c packet secret ≡ ok b)
unfolding validate_message_authenticator
validate_message_authenticator-ok c packet secret = elim (has_message_authenticator-ok packet) [
  | inl absent ↦ (true, rw absent refl)
  | inr (present, twenty) ↦
      let (hi, e) = at-in packet 2 (omega arith) in
      let (lo, f) = at-in packet 3 (omega arith) in
      let len = get_u16 hi lo in
      elim (Bool-cases (ltb (length packet) len)) [
        | inl long ↦ (false, rw (present, ge→ltb (length packet) 20 twenty, e, f, long) refl)
        | inr within ↦ elim (Bool-cases (ltb len 20)) [
          | inl short ↦
              (false, rw (present, ge→ltb (length packet) 20 twenty, e, f, within, short) refl)
          | inr enough ↦
              let room = ltb→ge (length packet) len within in
              let (found, g) =
                for_attributes_ok (take_ma packet len) packet len 20 none room
                  (λ pos t l s _. take_ma-Ends packet len pos t l s room) in
              let (b, k) = check_ma-ok c packet secret len found (ltb→ge len 20 enough) room in
              (b, rw (present, ge→ltb (length packet) 20 twenty, e, f, within, enough, g) k)
        ]
      ]
]
