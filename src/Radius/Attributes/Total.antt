-- ===== src/Radius/Attributes/Total.antt =====
-- The scans of cmd/server/handler.go end on every packet, `hasMSCHAPAttributes` with a value or a panic.
use fakeradius.Base.{
  ℕ, ◌+◌, ◌*◌, ◌^◌, ◌≤◌, ◌≡◌, refl, ap, ◌∙◌, arith, ◌⊎◌, inl, inr, Bool, true, false, ◌&&◌, ◌||◌,
  length, ltb, leb, ◌==◌, ok, panic, ltb→ge, ge→ltb, leb→le, Bool-cases,
}
use fakeradius.Base.Bytes.{Bytes, at-in, slice_cases}
use fakeradius.Radius.Attributes.{
  has_eap_attributes, has_message_authenticator, has_chap_attributes, has_mschap_attributes,
  scan_for, mschap_scan, microsoft_at, malformed, vendor_id, is_microsoft, microsoft_vendor_id,
  eap_message_type, message_authenticator_type, chap_challenge_type, chap_response_type,
}
use fakeradius.Radius.Walk.{for_attributes}
use fakeradius.Radius.Walk.Total.{Ends, for_attributes_ok, for_attributes_settles}

pub malformed_cases :
    (packet : Bytes) (pos l : ℕ)
    → (malformed packet pos l ≡ true)
      ⊎ ((malformed packet pos l ≡ false) × (2 ≤ l) × (pos + l ≤ length packet))
malformed_cases packet pos l = elim (Bool-cases (ltb l 2)) [
  | inl few ↦ inl (rw few refl)
  | inr enough ↦ elim (Bool-cases (ltb (length packet) (pos + l))) [
    | inl long ↦ inl (rw (enough, long) refl)
    | inr fits ↦ inr (rw (enough, fits) refl, ltb→ge _ _ enough, ltb→ge _ _ fits)
  ]
]

pub malformed-fits :
    (packet : Bytes) (pos l : ℕ) → 2 ≤ l → pos + l ≤ length packet → malformed packet pos l ≡ false
malformed-fits packet pos l h k = rw (ge→ltb l 2 h, ge→ltb (length packet) (pos + l) k) refl

scan_for-Ends :
    (wanted : ℕ → Bool) (packet : Bytes) (pos t l : ℕ) (s : Bool)
    → Ends (scan_for wanted packet pos t l s) l
scan_for-Ends wanted packet pos t l s = elim (Bool-cases (wanted t)) [
  | inl w ↦ inl (true, rw w refl)
  | inr w ↦ elim (malformed_cases packet pos l) [
    | inl bad ↦ inl (s, rw (w, bad) refl)
    | inr (good, two, _) ↦ inr (s, rw (w, good) refl, two)
  ]
]

scan_for-ok :
    (wanted : ℕ → Bool) (packet : Bytes)
    → (b : Bool) × (for_attributes (scan_for wanted packet) packet (length packet) 20 false ≡ ok b)
scan_for-ok wanted packet =
    for_attributes_ok (scan_for wanted packet) packet (length packet) 20 false (omega arith)
      (λ pos t l s _. scan_for-Ends wanted packet pos t l s)

pub has_eap_attributes-ok : (packet : Bytes) → (b : Bool) × (has_eap_attributes packet ≡ ok b)
unfolding has_eap_attributes
has_eap_attributes-ok packet = scan_for-ok (λ t. t == eap_message_type) packet

pub has_chap_attributes-ok : (packet : Bytes) → (b : Bool) × (has_chap_attributes packet ≡ ok b)
unfolding has_chap_attributes
has_chap_attributes-ok packet =
    scan_for-ok (λ t. t == chap_challenge_type || t == chap_response_type) packet

-- What is not twenty bytes long has no attribute.
pub has_message_authenticator-ok :
    (packet : Bytes)
    → ((has_message_authenticator packet ≡ ok false))
      ⊎ ((has_message_authenticator packet ≡ ok true) × (20 ≤ length packet))
unfolding has_message_authenticator
has_message_authenticator-ok packet = elim (Bool-cases (ltb (length packet) 20)) [
  | inl few ↦ inl (rw few refl)
  | inr enough ↦
      let (b, e) = scan_for-ok (λ t. t == message_authenticator_type) packet in
      elim (Bool-cases b) [
        | inl t ↦ inr (rw enough (e ∙ ap ok t), ltb→ge _ _ enough)
        | inr f ↦ inl (rw enough (e ∙ ap ok f))
      ]
]

pub is_microsoft-ok : (v : Bytes) → (b : Bool) × (is_microsoft v ≡ ok b)
unfolding is_microsoft vendor_id
is_microsoft-ok v = elim (Bool-cases (leb 4 (length v))) [
  | inr few ↦ (false, rw few refl)
  | inl enough ↦
      let four : 4 ≤ length v = leb→le _ _ enough in
      let (a, e) = at-in v 0 (omega arith) in
      let (b, f) = at-in v 1 (omega arith) in
      let (c, g) = at-in v 2 (omega arith) in
      let (d, h) = at-in v 3 (omega arith) in
      (a * 2 ^ 24 + b * 2 ^ 16 + c * 2 ^ 8 + d == microsoft_vendor_id, rw (enough, e, f, g, h) refl)
]

microsoft_at-settles :
    (packet : Bytes) (pos t l : ℕ)
    → ((b : Bool) × (microsoft_at packet pos t l ≡ ok b)) ⊎ (microsoft_at packet pos t l ≡ panic)
unfolding microsoft_at
microsoft_at-settles packet pos t l = elim (Bool-cases (t == 26 && leb (pos + l) (length packet))) [
  | inr other ↦ inl (false, rw other refl)
  | inl here ↦ elim (slice_cases packet (pos + 2) (pos + l)) [
    | inr e ↦ inr (rw (here, e) refl)
    | inl (v, e) ↦ let (b, f) = is_microsoft-ok v in inl (b, rw (here, e, f) refl)
  ]
]

mschap_scan-settles :
    (packet : Bytes) (pos t l : ℕ) (s : Bool)
    → Ends (mschap_scan packet pos t l s) l ⊎ (mschap_scan packet pos t l s ≡ panic)
mschap_scan-settles packet pos t l s = elim (microsoft_at-settles packet pos t l) [
  | inr e ↦ inr (rw e refl)
  | inl (true, e) ↦ inl (inl (true, rw e refl))
  | inl (false, e) ↦ elim (malformed_cases packet pos l) [
    | inl bad ↦ inl (inl (s, rw (e, bad) refl))
    | inr (good, two, _) ↦ inl (inr (s, rw (e, good) refl, two))
  ]
]

pub has_mschap_attributes-settles :
    (packet : Bytes)
    → ((b : Bool) × (has_mschap_attributes packet ≡ ok b)) ⊎ (has_mschap_attributes packet ≡ panic)
unfolding has_mschap_attributes
has_mschap_attributes-settles packet =
    for_attributes_settles (mschap_scan packet) packet (length packet) 20 false (omega arith)
      (λ pos t l s _. mschap_scan-settles packet pos t l s)
