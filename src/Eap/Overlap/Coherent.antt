-- ===== src/Eap/Overlap/Coherent.antt =====
-- What holds of a session of cmd/server/main.go whatever the order of its handlers' accesses.
use fakeradius.Base.{
  ℕ, zero, suc, ◌≤◌, ◌≡◌, ◌⊎◌, inl, inr, refl, arith, Bool, true, false, ◌||◌, List, [], ◌∷◌, ◌++◌,
  Option, none, some, length, take, drop, length-take, ltb, ◌==◌, ok, Bool-cases, ◌>>=◌, ◌+◌, All,
  All-append, All-left, All-right,
}
use fakeradius.Base.Bytes.{Bytes, u8, u32, put_u16, put_u32}
use fakeradius.Eap.Encoded.{eap_packet, build_eap_packet_lem}
use fakeradius.Eap.Overlap.{
  Handler, naming, stating, numbering, typing, feeding, checking, starting, entering, waiting,
  looking, reading, flagging, raising, draining, leaving, settling, clearing, judging, returned,
  turn, fragment_packet, rest_packet, IsInterleaved, created, identity_arrives, data_arrives,
  handler, reads, writes, finishes, marks,
}
use fakeradius.Eap.Session.{Session}
use fakeradius.Eap.{is_success, build_eap_packet}

-- State 0 or 1, or a TLS connection and one of the states of the handshake.
abbrev pub IsInState : Session → Type 0
IsInState s =
    (s.state ≡ 0)
    ⊎ (s.state ≡ 1)
    ⊎ ((s.tls_started ≡ true) × ((s.state ≡ 2) ⊎ (s.state ≡ 21) ⊎ (s.state ≡ 3)))

abbrev pub IsCoherent : Bool → Session → Type 0
IsCoherent ended s =
    IsInState s
    × ((s.authenticated ≡ false) ⊎ (s.handshake_done ≡ true))
    × ((s.handshake_done ≡ false) ⊎ ((s.tls_started ≡ true) × (ended ≡ true)))
    × ((s.tls_started ≡ true) ⊎ (s.tls_out ≡ []))

-- What a handler returns: nothing, or a packet, which is an EAP-Success only if the session is authenticated.
abbrev pub IsEarned : Session → Option Bytes → Type 0
IsEarned s none = Unit {0}
IsEarned s (some packet) = (is_success packet ≡ false) ⊎ (s.authenticated ≡ true)

-- What a handler can rely on: behind the start there is a TLS connection, the last piece of the output has no more
-- than 1000 bytes, and it returns without a panic.
abbrev pub Relies : Session → Handler → Type 0
Relies s (naming username eap_id) = Unit {0}
Relies s (stating eap_id) = Unit {0}
Relies s (numbering eap_id) = Unit {0}
Relies s (typing eap_id) = Unit {0}
Relies s (feeding tls_data eap_id) = Unit {0}
Relies s (checking eap_id) = Unit {0}
Relies s (starting eap_id) = Unit {0}
Relies s (entering eap_id) = s.tls_started ≡ true
Relies s (waiting polls eap_id) = s.tls_started ≡ true
Relies s (looking eap_id) = s.tls_started ≡ true
Relies s (reading eap_id) = s.tls_started ≡ true
Relies s (flagging output eap_id) = s.tls_started ≡ true
Relies s (raising output eap_id) = s.tls_started ≡ true
Relies s (draining first output eap_id) = s.tls_started ≡ true
Relies s (leaving output eap_id) = (s.tls_started ≡ true) × (length output ≤ 1000)
Relies s (settling output eap_id) = (s.tls_started ≡ true) × (length output ≤ 1000)
Relies s (clearing output eap_id) = (s.tls_started ≡ true) × (length output ≤ 1000)
Relies s (judging output eap_id) = (s.tls_started ≡ true) × (length output ≤ 1000)
Relies s (returned r) = (sent : Option Bytes) × (r ≡ ok sent) × IsEarned s sent

-- The TLS connection and `Authenticated` stay.
abbrev Stays : Bool → Bool → Type 0
Stays a b = (a ≡ false) ⊎ (b ≡ true)

abbrev Grows : Session → Session → Type 0
Grows s t = Stays s.tls_started t.tls_started × Stays s.authenticated t.authenticated

Stays-refl : (a : Bool) → Stays a a
Stays-refl true = inr refl
Stays-refl false = inl refl

Stays-true : {a b : Bool} → Stays a b → a ≡ true → b ≡ true
Stays-true (inl h) k = cc
Stays-true (inr h) k = h

IsEarned-Grows :
    (s t : Session) (sent : Option Bytes) → Grows s t → IsEarned s sent → IsEarned t sent
IsEarned-Grows s t none g k = tt
IsEarned-Grows s t (some packet) g (inl k) = inl k
IsEarned-Grows s t (some packet) g (inr k) = inr (Stays-true g.1 k)

Relies-Grows : (s t : Session) (h : Handler) → Grows s t → Relies s h → Relies t h
Relies-Grows s t (naming username eap_id) g k = tt
Relies-Grows s t (stating eap_id) g k = tt
Relies-Grows s t (numbering eap_id) g k = tt
Relies-Grows s t (typing eap_id) g k = tt
Relies-Grows s t (feeding tls_data eap_id) g k = tt
Relies-Grows s t (checking eap_id) g k = tt
Relies-Grows s t (starting eap_id) g k = tt
Relies-Grows s t (entering eap_id) g k = Stays-true g.0 k
Relies-Grows s t (waiting polls eap_id) g k = Stays-true g.0 k
Relies-Grows s t (looking eap_id) g k = Stays-true g.0 k
Relies-Grows s t (reading eap_id) g k = Stays-true g.0 k
Relies-Grows s t (flagging output eap_id) g k = Stays-true g.0 k
Relies-Grows s t (raising output eap_id) g k = Stays-true g.0 k
Relies-Grows s t (draining first output eap_id) g k = Stays-true g.0 k
Relies-Grows s t (leaving output eap_id) g (k, n) = (Stays-true g.0 k, n)
Relies-Grows s t (settling output eap_id) g (k, n) = (Stays-true g.0 k, n)
Relies-Grows s t (clearing output eap_id) g (k, n) = (Stays-true g.0 k, n)
Relies-Grows s t (judging output eap_id) g (k, n) = (Stays-true g.0 k, n)
Relies-Grows s t (returned r) g (sent, e, k) = (sent, e, IsEarned-Grows s t sent g k)

all-Grows :
    (s t : Session) (handlers : List Handler)
    → Grows s t
    → All (Relies s) handlers
    → All (Relies t) handlers
all-Grows s t [] g k = tt
all-Grows s t (h ∷ handlers) g (k, l) = (Relies-Grows s t h g k, all-Grows s t handlers g l)

turn-Grows : (h : Handler) (s : Session) → Grows s (turn h s).0
unfolding turn
turn-Grows (naming username eap_id) s = (Stays-refl s.tls_started, Stays-refl s.authenticated)
turn-Grows (stating eap_id) s = (Stays-refl s.tls_started, Stays-refl s.authenticated)
turn-Grows (numbering eap_id) s = (Stays-refl s.tls_started, Stays-refl s.authenticated)
turn-Grows (typing eap_id) s = (Stays-refl s.tls_started, Stays-refl s.authenticated)
turn-Grows (feeding tls_data eap_id) s = (Stays-refl s.tls_started, Stays-refl s.authenticated)
turn-Grows (checking eap_id) s = (Stays-refl s.tls_started, Stays-refl s.authenticated)
turn-Grows (starting eap_id) s = (inr refl, Stays-refl s.authenticated)
turn-Grows (entering eap_id) s = (Stays-refl s.tls_started, Stays-refl s.authenticated)
turn-Grows (waiting zero eap_id) s = (Stays-refl s.tls_started, Stays-refl s.authenticated)
turn-Grows (waiting (suc polls) eap_id) s = (Stays-refl s.tls_started, Stays-refl s.authenticated)
turn-Grows (looking eap_id) s = (Stays-refl s.tls_started, Stays-refl s.authenticated)
turn-Grows (reading eap_id) s = (Stays-refl s.tls_started, Stays-refl s.authenticated)
turn-Grows (flagging output eap_id) s = (Stays-refl s.tls_started, Stays-refl s.authenticated)
turn-Grows (raising output eap_id) s = (Stays-refl s.tls_started, Stays-refl s.authenticated)
turn-Grows (draining first output eap_id) s = (Stays-refl s.tls_started, Stays-refl s.authenticated)
turn-Grows (leaving output eap_id) s = (Stays-refl s.tls_started, Stays-refl s.authenticated)
turn-Grows (settling output eap_id) s = (Stays-refl s.tls_started, Stays-refl s.authenticated)
turn-Grows (clearing output eap_id) s = (Stays-refl s.tls_started, Stays-refl s.authenticated)
turn-Grows (judging output eap_id) s = (Stays-refl s.tls_started, Stays-refl s.authenticated)
turn-Grows (returned r) s = (Stays-refl s.tls_started, Stays-refl s.authenticated)

turn-IsCoherent :
    (ended : Bool) (h : Handler) (s : Session)
    → IsCoherent ended s
    → Relies s h
    → IsCoherent ended (turn h s).0
unfolding turn
turn-IsCoherent ended (naming username eap_id) s c k = c
turn-IsCoherent ended (stating eap_id) s (p, a, d, u) k = (inr (inl refl), a, d, u)
turn-IsCoherent ended (numbering eap_id) s c k = c
turn-IsCoherent ended (typing eap_id) s c k = c
turn-IsCoherent ended (feeding tls_data eap_id) s c k = c
turn-IsCoherent ended (checking eap_id) s c k = c
turn-IsCoherent ended (starting eap_id) s (p, a, d, u) k =
    (in_state p, a, elim d [ inl e ↦ inl e | inr (_, e) ↦ inr (refl, e) ], inl refl)
  where
    in_state : IsInState s → IsInState (record s { tls_started = true })
    in_state (inl e) = inl e
    in_state (inr (inl e)) = inr (inl e)
    in_state (inr (inr (e, f))) = inr (inr (refl, f))
turn-IsCoherent ended (entering eap_id) s (p, a, d, u) k = (inr (inr (k, inl refl)), a, d, u)
turn-IsCoherent ended (waiting zero eap_id) s c k = c
turn-IsCoherent ended (waiting (suc polls) eap_id) s c k = c
turn-IsCoherent ended (looking eap_id) s c k = c
turn-IsCoherent ended (reading eap_id) s c k = c
turn-IsCoherent ended (flagging output eap_id) s c k = c
turn-IsCoherent ended (raising output eap_id) s (p, a, d, u) k =
    (inr (inr (k, inr (inl refl))), a, d, u)
turn-IsCoherent ended (draining first output eap_id) s (p, a, d, u) k = (p, a, d, inl k)
turn-IsCoherent ended (leaving output eap_id) s c k = c
turn-IsCoherent ended (settling output eap_id) s (p, a, d, u) (k, n) =
    (inr (inr (k, inr (inr refl))), a, d, u)
turn-IsCoherent ended (clearing output eap_id) s (p, a, d, u) k = (p, a, d, inr refl)
turn-IsCoherent ended (judging output eap_id) s c k = c
turn-IsCoherent ended (returned r) s c k = c

eap_packet-returned :
    (s : Session) (id : ℕ) (payload : Bytes)
    → length payload ≤ 65530
    → Relies s (returned (do packet ← build_eap_packet 1 id 21 payload; ok (some packet)))
eap_packet-returned s id payload h = (
  some (eap_packet 1 id 21 payload),
  rw (build_eap_packet_lem 1 id 21 payload refl h) refl,
  inl refl,
)

fragment-returned :
    (s : Session) (first : Bool) (output : Bytes) (id : ℕ)
    → Relies s (returned (fragment_packet first output id))
unfolding put_u32
fragment-returned s true output id =
    eap_packet-returned s (u8 (id + 1)) (192 ∷ (put_u32 (u32 (length output)) ++ take 1000 output))
      (omega (arith, length-take 1000 output))
fragment-returned s false output id =
    eap_packet-returned s (u8 (id + 1)) (64 ∷ take 1000 output)
      (omega (arith, length-take 1000 output))

rest-returned :
    (s : Session) (authenticated : Bool) (output : Bytes) (id : ℕ)
    → s.authenticated ≡ authenticated
    → length output ≤ 1000
    → Relies s (returned (rest_packet authenticated output id))
unfolding build_eap_packet
rest-returned s true output id e small = (some (3 ∷ u8 (id + 1) ∷ put_u16 4), refl, inr e)
rest-returned s false output id e small =
    eap_packet-returned s (u8 (id + 1)) (0 ∷ output) (omega arith)

turn-Relies : (h : Handler) (s : Session) → Relies s h → Relies (turn h s).0 (turn h s).1
unfolding turn
turn-Relies (naming username eap_id) s k = tt
turn-Relies (stating eap_id) s k = tt
turn-Relies (numbering eap_id) s k = tt
turn-Relies (typing eap_id) s k =
    eap_packet-returned (record s { eap_type = 21 }) (u8 (eap_id + 1)) (32 ∷ []) (omega arith)
turn-Relies (feeding tls_data eap_id) s k = tt
turn-Relies (checking eap_id) s k = elim (Bool-cases s.tls_started) [
  | inl e ↦ rw e refl
  | inr e ↦ rw e tt
]
turn-Relies (starting eap_id) s k = refl
turn-Relies (entering eap_id) s k = k
turn-Relies (waiting zero eap_id) s k = k
turn-Relies (waiting (suc polls) eap_id) s k = elim (Bool-cases (length s.tls_out == 0)) [
  | inl e ↦ rw e k
  | inr e ↦ rw e k
]
turn-Relies (looking eap_id) s k = elim (Bool-cases (length s.tls_out == 0)) [
  | inl e ↦ rw e (none, refl, tt)
  | inr e ↦ rw e k
]
turn-Relies (reading eap_id) s k = elim (Bool-cases (ltb 1000 (length s.tls_out))) [
  | inl e ↦ rw e k
  | inr e ↦ let n : length s.tls_out ≤ 1000 = ground arith in rw e (k, n)
]
turn-Relies (flagging output eap_id) s k = elim (Bool-cases (s.state == 2)) [
  | inl e ↦ rw e k
  | inr e ↦ rw e k
]
turn-Relies (raising output eap_id) s k = k
turn-Relies (draining first output eap_id) s k =
    fragment-returned (record s { tls_out = drop 1000 s.tls_out }) first output eap_id
turn-Relies (leaving output eap_id) s k = elim (Bool-cases (s.state == 2 || s.state == 21)) [
  | inl e ↦ rw e k
  | inr e ↦ rw e k
]
turn-Relies (settling output eap_id) s k = k
turn-Relies (clearing output eap_id) s k = k
turn-Relies (judging output eap_id) s k = rest-returned s s.authenticated output eap_id refl k.1
turn-Relies (returned r) s k = k

turn-kept :
    (ended : Bool) (before after : List Handler) (h : Handler) (s : Session)
    → IsCoherent ended s × All (Relies s) (before ++ h ∷ after)
    → IsCoherent ended (turn h s).0 × All (Relies (turn h s).0) (before ++ (turn h s).1 ∷ after)
turn-kept ended before after h s (c, all) =
    let g = turn-Grows h s in
    let (k, later) = All-right (Relies s) before (h ∷ after) all in
    (
      turn-IsCoherent ended h s c k,
      All-append (Relies (turn h s).0) before ((turn h s).1 ∷ after)
          (all-Grows s (turn h s).0 before g (All-left (Relies s) before (h ∷ after) all))
          (turn-Relies h s k, all-Grows s (turn h s).0 after g later),
    )

-- However the handlers of an address take turns, each of them one access to the session at a time, and whatever
-- the TLS goroutines do between, the state of the session is 0 or 1, or 2, 21 or 3 with a TLS connection; the
-- session is authenticated only with its handshake done, the handshake is done only with a TLS connection and where
-- handshakes may come to their end, and there is no output without a connection. Each handler that has returned has
-- done so without a panic, with nothing or a packet, and with an EAP-Success only if the session is authenticated.
pub interleaved-IsCoherent :
    (ended : Bool) (s : Session) (handlers : List Handler)
    → IsInterleaved ended s handlers
    → IsCoherent ended s × All (Relies s) handlers
interleaved-IsCoherent ended _ _ (created eap_id now) =
    ((inl refl, inl refl, inl refl, inr refl), tt)
interleaved-IsCoherent ended _ _ (identity_arrives username eap_id now s handlers r) =
    let (c, all) = interleaved-IsCoherent ended s handlers r in
    (
      c,
      (
        tt,
        all-Grows s (record s { last_seen = now }) handlers
            (Stays-refl s.tls_started, Stays-refl s.authenticated) all,
      ),
    )
interleaved-IsCoherent ended _ _ (data_arrives tls_data eap_id now s handlers r) =
    let (c, all) = interleaved-IsCoherent ended s handlers r in
    (
      c,
      (
        tt,
        all-Grows s (record s { last_seen = now }) handlers
            (Stays-refl s.tls_started, Stays-refl s.authenticated) all,
      ),
    )
interleaved-IsCoherent ended _ _ (handler before after h s r) =
    turn-kept ended before after h s (interleaved-IsCoherent ended s (before ++ h ∷ after) r)
interleaved-IsCoherent ended _ _ (reads n s handlers e r) =
    let (c, all) = interleaved-IsCoherent ended s handlers r in
    (
      c,
      all-Grows s (record s { tls_in = drop n s.tls_in }) handlers
          (Stays-refl s.tls_started, Stays-refl s.authenticated) all,
    )
interleaved-IsCoherent ended _ _ (writes more s handlers e r) =
    let ((p, a, d, u), all) = interleaved-IsCoherent ended s handlers r in
    (
      (p, a, d, inl e),
      all-Grows s (record s { tls_out = s.tls_out ++ more }) handlers
          (Stays-refl s.tls_started, Stays-refl s.authenticated) all,
    )
interleaved-IsCoherent ended _ _ (finishes s handlers e f r) =
    let ((p, a, d, u), all) = interleaved-IsCoherent ended s handlers r in
    (
      (p, inr refl, inr (e, f), u),
      all-Grows s (record s { handshake_done = true }) handlers
          (Stays-refl s.tls_started, Stays-refl s.authenticated) all,
    )
interleaved-IsCoherent ended _ _ (marks s handlers e r) =
    let ((p, a, d, u), all) = interleaved-IsCoherent ended s handlers r in
    (
      (p, inr e, d, u),
      all-Grows s (record s { authenticated = true }) handlers (Stays-refl s.tls_started, inr refl)
          all,
    )
