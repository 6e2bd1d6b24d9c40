-- ===== src/Eap/Tls/Drain.antt =====
-- How the output of the TLS server gets through `handleTLSHandshake` of cmd/server/main.go in fragments.
use fakeradius.Base.{
  ℕ, zero, suc, ◌+◌, ◌*◌, ◌≤◌, ◌<◌, ◌≡◌, inl, inr, refl, ap, ◌∙◌, arith, Bool, true, false, not,
  ◌||◌, [], ◌∷◌, ◌++◌, append-nil, Option, none, some, length, take, drop, length-drop,
  take-append-drop, ltb, ◌==◌, if◌then◌else◌, Result, ok, stuck, ◌>>=◌, bit_and, Bool-cases,
}
use fakeradius.Base.Bytes.{Bytes, u8, put_u16, put_u32}
use fakeradius.Eap.Encoded.{eap_packet}
use fakeradius.Eap.Session.{Session}
use fakeradius.Eap.Tls.Flight.{
  fragment_data, waited, after_fragment, after_last, last_packet, silent, fragment, last, tls_case,
}
use fakeradius.Eap.Tls.{Activity, tls_activity, receive, await_output, handle_tls_handshake}

-- RFC 5281 §9.1: the data of an EAP-TTLS packet behind its flags and, where these say so, its length.
abbrev pub fragment_of : Bytes → Bytes
fragment_of packet = elim (drop 5 packet) [
  | [] ↦ []
  | (flags ∷ rest) ↦ if bit_and flags 128 == 0 then rest else drop 4 rest
]

-- The flag M: more fragments follow.
abbrev pub has_more : Bytes → Bool
has_more packet = elim (drop 5 packet) [ [] ↦ false | (flags ∷ rest) ↦ not (bit_and flags 64 == 0) ]

-- The client takes a fragment, and asks for more where there is more.
abbrev pub collect :
    (Session → Result (Bytes × Session)) → Option Bytes → Session → Result (Bytes × Session)
collect more none s = ok ([], s)
collect more (some p) s = elim (has_more p) [
  | false ↦ ok (fragment_of p, s)
  | true ↦ (do (rest, s') ← more s; ok (fragment_of p ++ rest, s'))
]

-- The client's side of a flight: it acknowledges each fragment with an empty one and puts their data
-- together; on fuel.
abbrev pub drain : ℕ → (ℕ → Activity) → Session → ℕ → Result (Bytes × Session)
drain zero engine s id = stuck
drain (suc fuel) engine s id = do
  (s', sent) ← handle_tls_handshake engine s [] id
  collect (λ s1. drain fuel engine s1 (u8 (id + 1))) sent s'

-- While there is output the handler does not wait.
await-pending :
    (polls : ℕ) (engine : ℕ → Activity) (s : Session)
    → 1 ≤ length s.tls_out
    → await_output polls engine s ≡ s
await-pending zero engine s h = refl
await-pending (suc polls) engine s h = settled s.tls_out h
  where
    settled :
        (out : Bytes)
        → 1 ≤ length out
        → (elim out [
          | [] ↦ await_output polls engine (tls_activity (engine polls) s)
          | (_ ∷ _) ↦ s
        ])
          ≡ s
    settled [] k = absurd (omega arith)
    settled (b ∷ out) k = refl

receive-nothing : (s : Session) → s.tls_started ≡ true → receive s [] ≡ s
unfolding receive
receive-nothing s started =
    rw started (ap (λ z. record s { tls_in = z; tls_started = true }) (append-nil s.tls_in))

waited-pending :
    (engine : ℕ → Activity) (s : Session)
    → s.tls_started ≡ true
    → 1 ≤ length s.tls_out
    → waited engine s [] ≡ s
waited-pending engine s started pending =
    ap (await_output 400 engine) (receive-nothing s started) ∙ await-pending 400 engine s pending

-- The session of a flight, of which the fragments sent leave the rest.
abbrev pub InFlight : Session → Type 0
InFlight s = (s.tls_started ≡ true) × (s.authenticated ≡ false) × (1 ≤ length s.tls_out)

module _ (engine : ℕ → Activity) (s : Session) (id : ℕ) (flight : InFlight s) where
  same : waited engine s [] ≡ s
  same = waited-pending engine s flight.0 flight.2

  handle-fragment :
      1000 < length s.tls_out
      → handle_tls_handshake engine s [] id
        ≡ ok (after_fragment s, some (eap_packet 1 (u8 (id + 1)) 21 (fragment_data s)))
  handle-fragment h = elim (tls_case engine s [] id) [
    | silent e k ↦ absurd (omega (arith, ap (λ w. length w.tls_out) same, ap length e))
    | fragment e k ↦
        k
        ∙ ap (λ w. ok (after_fragment w, some (eap_packet 1 (u8 (id + 1)) 21 (fragment_data w))))
            same
    | last e f k ↦ absurd (omega (arith, ap (λ w. length w.tls_out) same))
  ]

  handle-last :
      length s.tls_out ≤ 1000
      → handle_tls_handshake engine s [] id
        ≡ ok (after_last s, some (eap_packet 1 (u8 (id + 1)) 21 (0 ∷ s.tls_out)))
  handle-last h = elim (tls_case engine s [] id) [
    | silent e k ↦ absurd (omega (arith, ap (λ w. length w.tls_out) same, ap length e, flight.2))
    | fragment e k ↦ absurd (omega (arith, ap (λ w. length w.tls_out) same))
    | last e f k ↦ k ∙ ap (λ w. ok (after_last w, some (last_packet w id))) same ∙ rw flight.1 refl
  ]

fragment_of-data :
    (s : Session) (id : ℕ)
    → fragment_of (eap_packet 1 id 21 (fragment_data s)) ≡ take 1000 s.tls_out
unfolding put_u16 put_u32
fragment_of-data s id = elim (Bool-cases (s.state == 2)) [ inl e ↦ rw e refl | inr e ↦ rw e refl ]

has_more-data : (s : Session) (id : ℕ) → has_more (eap_packet 1 id 21 (fragment_data s)) ≡ true
unfolding put_u16 put_u32
has_more-data s id = elim (Bool-cases (s.state == 2)) [ inl e ↦ rw e refl | inr e ↦ rw e refl ]

last_of :
    (out : Bytes) (id : ℕ)
    → (fragment_of (eap_packet 1 id 21 (0 ∷ out)) ≡ out)
      × (has_more (eap_packet 1 id 21 (0 ∷ out)) ≡ false)
unfolding put_u16
last_of out id = (refl, refl)

-- The state after a flight.
abbrev pub IsDrained : Session → Session → Type 0
IsDrained s s' =
    (s'.tls_out ≡ []) × (s'.state ≡ (if s.state == 2 || s.state == 21 then 3 else s.state))

module _ (fuel : ℕ) (engine : ℕ → Activity) (s s' : Session) (id : ℕ) (p : Bytes)
    (h : handle_tls_handshake engine s [] id ≡ ok (s', some p)) where
  drain_last : has_more p ≡ false → drain (suc fuel) engine s id ≡ ok (fragment_of p, s')
  drain_last e = rw (h, collect, e) refl

  drain_more :
      (rest : Bytes) (s'' : Session)
      → has_more p ≡ true
      → drain fuel engine s' (u8 (id + 1)) ≡ ok (rest, s'')
      → drain (suc fuel) engine s id ≡ ok (fragment_of p ++ rest, s'')
  drain_more rest s'' e r = rw (h, collect, e, r) refl

state_lem :
    (n : ℕ)
    → (let m : ℕ = if n == 2 then 21 else n in if m == 2 || m == 21 then 3 else m)
      ≡ (if n == 2 || n == 21 then 3 else n)
state_lem n = ground arith

abbrev Drained : ℕ → (ℕ → Activity) → Session → ℕ → Type 0
Drained fuel engine s id =
    (s' : Session) × (drain fuel engine s id ≡ ok (s.tls_out, s')) × IsDrained s s'

-- A fragment and what the rest of the flight brings.
Drained-fragment :
    (fuel : ℕ) (engine : ℕ → Activity) (s : Session) (id : ℕ)
    → InFlight s
    → 1000 < length s.tls_out
    → Drained fuel engine (after_fragment s) (u8 (id + 1))
    → Drained (suc fuel) engine s id
Drained-fragment fuel engine s id flight large (s', e, d) = (
  s',
  drain_more fuel engine s (after_fragment s) id (eap_packet 1 (u8 (id + 1)) 21 (fragment_data s))
        (handle-fragment engine s id flight large) (drop 1000 s.tls_out) s'
        (has_more-data s (u8 (id + 1))) e
      ∙ ap (λ z. ok (z ++ drop 1000 s.tls_out, s')) (fragment_of-data s (u8 (id + 1)))
      ∙ ap (λ z. ok (z, s')) (take-append-drop 1000 s.tls_out),
  (d.0, d.1 ∙ state_lem s.state),
)

-- Where the TLS server has been started, is not done and has output of up to 1000 times the fuel, and the client
-- acknowledges every fragment, the exchange ends within that many packets: the client has put together exactly
-- the output, the buffer is empty, and the state 2 or 21 has become 3.
pub drain_lem :
    (fuel : ℕ) (engine : ℕ → Activity) (s : Session) (id : ℕ)
    → InFlight s
    → length s.tls_out ≤ 1000 * fuel
    → Drained fuel engine s id
drain_lem zero engine s id flight room = absurd (omega (arith, flight.2))
drain_lem (suc fuel) engine s id flight room = elim (Bool-cases (ltb 1000 (length s.tls_out))) [
  | inr f ↦
      let small : length s.tls_out ≤ 1000 = ground arith in
      (
        after_last s,
        drain_last fuel engine s (after_last s) id (eap_packet 1 (u8 (id + 1)) 21 (0 ∷ s.tls_out))
              (handle-last engine s id flight small) (last_of s.tls_out (u8 (id + 1))).1
            ∙ ap (λ z. ok (z, after_last s)) (last_of s.tls_out (u8 (id + 1))).0,
        (refl, refl),
      )
  | inl f ↦
      let large : 1000 < length s.tls_out = ground arith in
      let cut = length-drop 1000 s.tls_out in
      Drained-fragment fuel engine s id flight large (
        drain_lem fuel engine (after_fragment s) (u8 (id + 1))
          (flight.0, flight.1, omega (arith, cut, flight.2)) (omega (arith, cut)))
]
