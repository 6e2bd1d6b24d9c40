-- ===== src/Radius/Response/Total.antt =====
-- `buildResponsePacket` of cmd/server/handler.go answers every request that the server can receive.
use fakeradius.Base.{
  ℕ, ◌+◌, ◌≤◌, ◌≡◌, refl, ◌∙◌, arith, inl, inr, not, [], ◌∷◌, ◌++◌, length, take, replicate, leb,
  ◌==◌, Result, ok, le→leb, leb→le, Bool-cases, if◌then◌else◌, length-append,
}
use fakeradius.Base.Bytes.{Bytes, slice-between, bytes_eq, u16, put_u16}
use fakeradius.Crypto.{Crypto}
use fakeradius.Radius.Attributes.Total.{malformed_cases}
use fakeradius.Radius.Attributes.{access_accept, reply_message_type, build_attribute}
use fakeradius.Radius.Response.{
  is_mirrored, mirror, request_authenticator, assemble, response_authenticator,
  build_response_packet,
}
use fakeradius.Radius.Walk.Total.{Moves, walk_total}
use fakeradius.Radius.Walk.{for_attributes}

abbrev Kept : Bytes → ℕ → Bytes → Type 0
Kept request pos s = (length s + 20 ≤ pos) × (length s ≤ length request)

abbrev Mirrored : Bytes → Result Bytes → Type 0
Mirrored request r = (s : Bytes) × (r ≡ ok s) × (length s ≤ length request)

mirror-Moves :
    (request : Bytes) (pos t l : ℕ) (s : Bytes)
    → Kept request pos s
    → Moves
        (λ _ s. ok s)
        (mirror request)
        request
        (length request)
        (Kept request)
        (Mirrored request)
        pos
        t
        l
        s
mirror-Moves request pos t l s (small, short) = elim (malformed_cases request pos l) [
  | inl bad ↦ inl (s, rw bad refl, (s, refl, short))
  | inr (good, two, fits) ↦ elim (Bool-cases (is_mirrored t)) [
    | inr other ↦ inr (inl (s, rw (good, other) refl, two, (omega arith, short)))
    | inl here ↦
        let (attr, e, n) = slice-between request pos (pos + l) (omega arith) fits in
        let size = length-append s attr in
        inr (inl (s ++ attr, rw (good, here, e) refl, two, (omega arith, omega arith)))
  ]
]

pub mirror-ok :
    (request : Bytes)
    → (s : Bytes) × (for_attributes (mirror request) request (length request) 20 [] ≡ ok s)
      × (length s ≤ length request)
mirror-ok request =
    let (r, e, (s, f, n)) =
      walk_total (λ _ s. ok s) (mirror request) request (length request) (Kept request)
        (Mirrored request) (omega arith) (λ pos s i _. (s, refl, i.1))
        (λ pos s i _. (s, refl, (s, refl, i.1))) (λ pos t l s i _. mirror-Moves request pos t l s i)
        (length request) 20 [] (omega arith, omega arith) (omega arith) in
    (s, e ∙ f, n)

request_authenticator-ok : (request : Bytes) → (a : Bytes) × (request_authenticator request ≡ ok a)
unfolding request_authenticator
request_authenticator-ok request = elim (Bool-cases (leb 20 (length request))) [
  | inr few ↦ (replicate 16 0, rw few refl)
  | inl enough ↦
      let (a, e, _) =
        slice-between request 4 20 (omega arith) (leb→le 20 (length request) enough) in
      (a, rw enough e)
]

pub assemble-ok :
    (c : Crypto) (code id n : ℕ) (auth attributes : Bytes)
    → 20 ≤ n
    → assemble c code id n auth attributes
      ≡ ok (take n (code ∷ id ∷ (put_u16 n ++ (auth ++ attributes))))
unfolding assemble
assemble-ok c code id n auth attributes h = rw (le→leb 20 n h) refl

length-build_attribute : (t : ℕ) (v : Bytes) → length (build_attribute t v) ≡ 2 + length v
unfolding build_attribute
length-build_attribute t v = omega arith

-- The Reply-Message is appended where it is not empty.
abbrev pub with_message : Bytes → Bytes → Bytes
with_message mirrored message =
    if not (bytes_eq message [])
    then mirrored ++ build_attribute reply_message_type message
    else mirrored

pub length-with_message : (s m : Bytes) → length (with_message s m) ≤ length s + (2 + length m)
length-with_message s m = elim (Bool-cases (bytes_eq m [])) [
  | inl none ↦ rw none (omega arith)
  | inr some_bytes ↦ rw some_bytes (
      omega (
        arith,
        length-append s (build_attribute reply_message_type m),
        length-build_attribute reply_message_type m,
      ))
]

module _ (c : Crypto) (request secret : Bytes) (code id : ℕ) (message : Bytes) where
  -- A response is built to every request, of whatever bytes, that has together with the message at most
  -- 65000 bytes.
  pub build_response_packet-ok :
      length request + length message ≤ 65000
      → (r : Bytes) × (build_response_packet c request secret code id message ≡ ok r)
  unfolding build_response_packet
  build_response_packet-ok h =
      let (auth, e) = request_authenticator-ok request in
      elim (Bool-cases (code == access_accept)) [
        | inl accept ↦
            let signed = response_authenticator c code id 20 auth [] secret in
            (
              take 20 (code ∷ id ∷ (put_u16 20 ++ (signed ++ []))),
              rw (e, accept) (assemble-ok c code id 20 signed [] (omega arith)),
            )
        | inr other ↦
            let (s, f, n) = mirror-ok request in
            let body = with_message s message in
            let size = length-with_message s message in
            let total = u16 (20 + length body) in
            let room : 20 ≤ total = omega arith in
            (
              take total (
                  code
                  ∷ id
                  ∷ (put_u16 total
                      ++ (response_authenticator c code id total auth body secret ++ body))),
              rw (e, other, f)
                  (assemble-ok c code id total
                    (response_authenticator c code id total auth body secret) body room),
            )
      ]
