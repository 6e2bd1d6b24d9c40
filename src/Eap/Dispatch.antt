-- ===== src/Eap/Dispatch.antt =====
-- What the `switch` of `handleEAP` in cmd/server/main.go comes to.
use fakeradius.Base.{
  ℕ, ◌+◌, ◌≤◌, ◌≡◌, ◌⊎◌, inl, inr, refl, sym, ap, ◌∙◌, arith, true, false, [], ◌∷◌, append-nil,
  length, ltb, ◌==◌, if◌then◌else◌, Option, none, some, Result, ok, panic, ◌>>=◌, bit_and,
  Bool-cases,
}
use fakeradius.Base.Bytes.{Bytes, at, slice, slice-between, slice-append, u8}
use mathlib.Core.Path.{subst}
use fakeradius.Eap.Encoded.{eap_packet, length-eap_packet, build_eap_packet_lem}
use fakeradius.Eap.Handle.{Reply, on_identity, on_ttls, dispatch}
use fakeradius.Eap.Phases.{identified}
use fakeradius.Eap.Sound.{Keeps, handle_tls_handshake-Keeps}
use fakeradius.Eap.Session.{Session}
use fakeradius.Eap.Tls.Flight.{IsReply, handle_tls_handshake-IsReply}
use fakeradius.Eap.Tls.{Activity, handle_tls_handshake}
use fakeradius.Eap.{is_success}

-- An EAP Response without a type.
abbrev pub IsBareResponse : Bytes → Type 0
IsBareResponse eap = (id hi lo : ℕ) × (eap ≡ 2 ∷ id ∷ hi ∷ lo ∷ [])

-- A reply that goes with a session.
abbrev pub IsDue : Session → Option Reply → Type 0
IsDue s none = Unit
IsDue s (some reply) =
    (1 ≤ length reply.message)
    × (length reply.message ≤ 1010)
    × (reply.success ≡ is_success reply.message)
    × ((reply.success ≡ false) ⊎ ((s.authenticated ≡ true) × (s.tls_out ≡ [])))

-- A result that keeps a session sound.
abbrev pub Settles : (ℕ → Activity) → Session → Result (Session × Option Reply) → Type 0
Settles engine s r =
    (s' : Session) × (answer : Option Reply) × (r ≡ ok (s', answer))
    × IsDue s' answer
    × Keeps engine s s'

-- `session` after `case EAPTypeIdentity`.
abbrev pub identified_as : Session → ℕ → Bytes → Session
identified_as s eap_id username = record s {
  username = username;
  state = 1;
  id = u8 (eap_id + 1);
  eap_type = 21;
}

abbrev pub ttls_start : ℕ → Bytes
ttls_start eap_id = eap_packet 1 (u8 (eap_id + 1)) 21 (32 ∷ [])

pub length-ttls_start : (eap_id : ℕ) → length (ttls_start eap_id) ≡ 6
length-ttls_start eap_id = length-eap_packet 1 (u8 (eap_id + 1)) 21 (32 ∷ [])

pub on_identity_lem :
    (s : Session) (eap_id : ℕ) (a b c d e : ℕ) (user : Bytes)
    → on_identity s eap_id (a ∷ b ∷ c ∷ d ∷ e ∷ user)
      ≡ ok (
        identified_as s eap_id user,
        some (record { message = ttls_start eap_id; success = false }),
      )
unfolding on_identity
on_identity_lem s eap_id a b c d e user =
    let cut =
      slice-append (a ∷ b ∷ c ∷ d ∷ e ∷ []) user [] 5 (length (a ∷ b ∷ c ∷ d ∷ e ∷ user)) refl
        (omega arith) in
    let whole : slice (a ∷ b ∷ c ∷ d ∷ e ∷ user) 5 (length (a ∷ b ∷ c ∷ d ∷ e ∷ user)) ≡ ok user =
      ap (λ z. slice (a ∷ b ∷ c ∷ d ∷ e ∷ z) 5 (length (a ∷ b ∷ c ∷ d ∷ e ∷ user)))
        (sym (append-nil user))
      ∙ cut in
    rw (whole, build_eap_packet_lem 1 (u8 (eap_id + 1)) 21 (32 ∷ []) refl (omega arith)) refl

module _ (engine : ℕ → Activity) (s : Session) (eap_id : ℕ) where
  -- From `tlsData` on.
  abbrev from_data : Bytes → ℕ → Result (Session × Option Reply)
  from_data eap pos = if ltb (length eap) pos then ok (s, none) else (do
    tls_data ← slice eap pos (length eap)
    (session', sent) ← handle_tls_handshake engine s tls_data eap_id
    elim sent [
      | none ↦ ok (session', none)
      | some packet ↦ ok (session', some (record { message = packet; success = is_success packet }))
    ])

  kept :
      (tls_data : Bytes) {s' : Session} {sent : Option Bytes}
      → handle_tls_handshake engine s tls_data eap_id ≡ ok (s', sent)
      → Keeps engine s s'
  kept tls_data {s'} {sent} r = handle_tls_handshake-Keeps engine s s' tls_data eap_id sent r

  within :
      (eap : Bytes) (pos : ℕ) (tls_data : Bytes) (s' : Session) (sent : Option Bytes)
      → ltb (length eap) pos ≡ false
      → slice eap pos (length eap) ≡ ok tls_data
      → handle_tls_handshake engine s tls_data eap_id ≡ ok (s', sent)
      → IsReply s' sent
      → Settles engine s (from_data eap pos)
  within eap pos tls_data s' none long cut r due =
      (s', none, rw (long, cut, r) refl, tt, kept tls_data r)
  within eap pos tls_data s' (some p) long cut r due = (
    s',
    some (record { message = p; success = is_success p }),
    rw (long, cut, r) refl,
    (omega (arith, due.0), due.1, refl, due.2),
    kept tls_data r,
  )

  from_data-Settles : (eap : Bytes) (pos : ℕ) → Settles engine s (from_data eap pos)
  from_data-Settles eap pos = elim (Bool-cases (ltb (length eap) pos)) [
    | inl short ↦ (s, none, rw short refl, tt, λ _ _ w. w)
    | inr long ↦
        let (tls_data, cut, n) = slice-between eap pos (length eap) (ground arith) (omega arith) in
        let (s', sent, r, due) = handle_tls_handshake-IsReply engine s tls_data eap_id in
        within eap pos tls_data s' sent long cut r due
  ]

  on_ttls-Settles :
      (a b c d e : ℕ) (rest : Bytes)
      → Settles engine s (on_ttls engine s eap_id (a ∷ b ∷ c ∷ d ∷ e ∷ rest))
  unfolding on_ttls at
  on_ttls-Settles a b c d e [] = (s, none, refl, tt, λ _ _ w. w)
  on_ttls-Settles a b c d e (flags ∷ rest) =
      let long : ltb (length (a ∷ b ∷ c ∷ d ∷ e ∷ flags ∷ rest)) 6 ≡ false = ground arith in
      rw long (
        from_data-Settles (a ∷ b ∷ c ∷ d ∷ e ∷ flags ∷ rest)
          (if bit_and flags 128 == 0 then 6 else 10))

  -- A response with a type is settled.
  typed-Settles :
      (b c d e : ℕ) (rest : Bytes)
      → Settles engine s (dispatch engine s 2 eap_id (2 ∷ b ∷ c ∷ d ∷ e ∷ rest))
  unfolding dispatch at
  typed-Settles b c d e rest = elim (Bool-cases (e == 1)) [
    | inl identity ↦ (
      identified_as s eap_id rest,
      some (record { message = ttls_start eap_id; success = false }),
      rw identity (on_identity_lem s eap_id 2 b c d e rest),
      (
        omega (arith, length-ttls_start eap_id),
        omega (arith, length-ttls_start eap_id),
        refl,
        inl refl,
      ),
      λ _ _ w. ((identified refl, w.0.1, w.0.2), w.1),
    )
    | inr other ↦ elim (Bool-cases (e == 21)) [
      | inl ttls ↦ rw (other, ttls) (on_ttls-Settles 2 b c d e rest)
      | inr neither ↦ (s, none, rw (other, neither) refl, tt, λ _ _ w. w)
    ]
  ]

abbrev head_or : ℕ → Bytes → ℕ
head_or d [] = d
head_or d (b ∷ _) = b

-- A response without a type panics, and everything else settles.
pub data DispatchCase (engine : ℕ → Activity) (s : Session) (code eap_id : ℕ) (eap : Bytes)
    : Type 0 where
  crashes :
      IsBareResponse eap
      → dispatch engine s code eap_id eap ≡ panic
      → DispatchCase engine s code eap_id eap
  settles :
      ¬ IsBareResponse eap
      → Settles engine s (dispatch engine s code eap_id eap)
      → DispatchCase engine s code eap_id eap

response_case :
    (engine : ℕ → Activity) (s : Session) (eap_id b c d : ℕ) (rest : Bytes)
    → DispatchCase engine s 2 eap_id (2 ∷ b ∷ c ∷ d ∷ rest)
unfolding dispatch at
response_case engine s eap_id b c d [] = crashes (b, c, d, refl) refl
response_case engine s eap_id b c d (e ∷ rest) =
    settles (λ (i, hi, lo, k). absurd (omega (arith, ap length k)))
      (typed-Settles engine s eap_id b c d e rest)

pub dispatch_case :
    (engine : ℕ → Activity) (s : Session) (code eap_id b c d : ℕ) (rest : Bytes)
    → DispatchCase engine s code eap_id (code ∷ b ∷ c ∷ d ∷ rest)
unfolding dispatch
dispatch_case engine s code eap_id b c d rest = elim (Bool-cases (code == 2)) [
  | inl response ↦
      let e : 2 ≡ code = ground arith in
      subst (λ n. DispatchCase engine s n eap_id (n ∷ b ∷ c ∷ d ∷ rest)) e
        (response_case engine s eap_id b c d rest)
  | inr other ↦
      settles (λ (i, hi, lo, k). let e : code ≡ 2 = ap (head_or 2) k in absurd (ground arith))
        (s, none, rw other refl, tt, λ _ _ w. w)
]
