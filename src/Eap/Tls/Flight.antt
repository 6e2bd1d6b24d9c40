-- ===== src/Eap/Tls/Flight.antt =====
-- What `handleTLSHandshake` of cmd/server/main.go sends, and how a flight of the TLS server gets through in
-- fragments.
use fakeradius.Base.{
  ℕ, ◌+◌, ◌≤◌, ◌<◌, ◌≡◌, ◌⊎◌, inl, inr, refl, arith, true, false, ◌||◌, [], ◌∷◌, ◌++◌, Option, none,
  some, length, take, drop, length-take, ltb, ◌==◌, if◌then◌else◌, ok, Bool-cases,
}
use fakeradius.Base.Bytes.{Bytes, u8, u32, put_u16, put_u32}
use fakeradius.Eap.Encoded.{eap_packet, length-eap_packet, build_eap_packet_lem}
use fakeradius.Eap.Session.{Session}
use fakeradius.Eap.Tls.{
  Activity, receive, await_output, send_fragment, send_last, handle_tls_handshake,
}
use fakeradius.Eap.{eap_success, is_success, build_eap_packet}

abbrev pub fragment_data : Session → Bytes
fragment_data s =
    if s.state == 2
    then 192 ∷ (put_u32 (u32 (length s.tls_out)) ++ take 1000 s.tls_out)
    else 64 ∷ take 1000 s.tls_out

pub length-fragment_data : (s : Session) → length (fragment_data s) ≤ 1005
unfolding put_u32
length-fragment_data s = elim (Bool-cases (s.state == 2)) [
  | inl e ↦ rw e (omega (arith, length-take 1000 s.tls_out))
  | inr e ↦ rw e (omega (arith, length-take 1000 s.tls_out))
]

abbrev pub after_fragment : Session → Session
after_fragment s = record s {
  state = if s.state == 2 then 21 else s.state;
  tls_out = drop 1000 s.tls_out;
}

abbrev pub after_last : Session → Session
after_last s = record s {
  state = if s.state == 2 || s.state == 21 then 3 else s.state;
  tls_out = [];
}

abbrev pub last_packet : Session → ℕ → Bytes
last_packet s id =
    if s.authenticated
    then eap_success ∷ u8 (id + 1) ∷ put_u16 4
    else eap_packet 1 (u8 (id + 1)) 21 (0 ∷ s.tls_out)

pub send_fragment_lem :
    (s : Session) (id : ℕ)
    → send_fragment s id
      ≡ ok (after_fragment s, some (eap_packet 1 (u8 (id + 1)) 21 (fragment_data s)))
unfolding send_fragment
send_fragment_lem s id =
    rw
      (build_eap_packet_lem 1 (u8 (id + 1)) 21 (fragment_data s) refl
        (omega (arith, length-fragment_data s)))
      refl

pub send_last_lem :
    (s : Session) (id : ℕ)
    → length s.tls_out ≤ 1000
    → send_last s id ≡ ok (after_last s, some (last_packet s id))
unfolding send_last build_eap_packet
send_last_lem s id small = elim (Bool-cases s.authenticated) [
  | inl e ↦ rw e refl
  | inr e ↦ rw (e, build_eap_packet_lem 1 (u8 (id + 1)) 21 (0 ∷ s.tls_out) refl (omega arith)) refl
]

-- The session after the wait.
abbrev pub waited : (ℕ → Activity) → Session → Bytes → Session
waited engine s tls_data = await_output 400 engine (receive s tls_data)

-- The three ways in which the handler ends.
pub data TlsCase (engine : ℕ → Activity) (s : Session) (tls_data : Bytes) (id : ℕ) : Type 0 where
  silent :
      (waited engine s tls_data).tls_out ≡ []
      → handle_tls_handshake engine s tls_data id ≡ ok (waited engine s tls_data, none)
      → TlsCase engine s tls_data id
  fragment :
      1000 < length (waited engine s tls_data).tls_out
      → handle_tls_handshake engine s tls_data id
        ≡ ok (
          after_fragment (waited engine s tls_data),
          some (eap_packet 1 (u8 (id + 1)) 21 (fragment_data (waited engine s tls_data))),
        )
      → TlsCase engine s tls_data id
  last :
      1 ≤ length (waited engine s tls_data).tls_out
      → length (waited engine s tls_data).tls_out ≤ 1000
      → handle_tls_handshake engine s tls_data id
        ≡ ok (
          after_last (waited engine s tls_data),
          some (last_packet (waited engine s tls_data) id),
        )
      → TlsCase engine s tls_data id

empty_of_length : (bs : Bytes) → (length bs == 0) ≡ true → bs ≡ []
empty_of_length [] h = refl
empty_of_length (b ∷ bs) h = absurd (ground arith)

pub tls_case :
    (engine : ℕ → Activity) (s : Session) (tls_data : Bytes) (id : ℕ) → TlsCase engine s tls_data id
unfolding handle_tls_handshake
tls_case engine s tls_data id =
    let w = waited engine s tls_data in
    elim (Bool-cases (length w.tls_out == 0)) [
      | inl e ↦ silent (empty_of_length w.tls_out e) (rw e refl)
      | inr e ↦
          let some_output : 1 ≤ length w.tls_out = ground arith in
          elim (Bool-cases (ltb 1000 (length w.tls_out))) [
            | inl f ↦ fragment (ground arith) (rw (e, f) (send_fragment_lem w id))
            | inr f ↦
                let small : length w.tls_out ≤ 1000 = ground arith in
                last some_output small (rw (e, f) (send_last_lem w id small))
          ]
    ]

-- No reply leaves no output. A reply is an EAP packet of 4 to 1010 bytes; if it is an EAP-Success, the session
-- is authenticated and no output is left.
abbrev pub IsReply : Session → Option Bytes → Type 0
IsReply s none = s.tls_out ≡ []
IsReply s (some p) =
    (4 ≤ length p)
    × (length p ≤ 1010)
    × ((is_success p ≡ false) ⊎ ((s.authenticated ≡ true) × (s.tls_out ≡ [])))

last_packet-IsReply :
    (w : Session) (id : ℕ)
    → length w.tls_out ≤ 1000
    → IsReply (after_last w) (some (last_packet w id))
unfolding put_u16
last_packet-IsReply w id f = elim (Bool-cases w.authenticated) [
  | inl e ↦ rw e (omega arith, omega arith, inr (refl, refl))
  | inr e ↦
      let n = length-eap_packet 1 (u8 (id + 1)) 21 (0 ∷ w.tls_out) in
      rw e (omega (arith, n), omega (arith, n), inl refl)
]

pub handle_tls_handshake-IsReply :
    (engine : ℕ → Activity) (s : Session) (tls_data : Bytes) (id : ℕ)
    → (s' : Session) × (sent : Option Bytes) × (handle_tls_handshake engine s tls_data id
        ≡ ok (s', sent))
      × IsReply s' sent
handle_tls_handshake-IsReply engine s tls_data id =
    let w = waited engine s tls_data in
    elim (tls_case engine s tls_data id) [
      | silent e h ↦ (w, none, h, e)
      | fragment e h ↦
          let n = length-eap_packet 1 (u8 (id + 1)) 21 (fragment_data w) in
          (
            after_fragment w,
            some (eap_packet 1 (u8 (id + 1)) 21 (fragment_data w)),
            h,
            (omega (arith, n), omega (arith, n, length-fragment_data w), inl refl),
          )
      | last e f h ↦ (after_last w, some (last_packet w id), h, last_packet-IsReply w id f)
    ]
