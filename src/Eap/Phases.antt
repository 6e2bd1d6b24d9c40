-- ===== src/Eap/Phases.antt =====
-- The states of an EAP session of cmd/server/main.go, and that the handshake handler keeps to them.
use fakeradius.Base.{
  ℕ, zero, suc, ◌≤◌, ◌<◌, ◌≡◌, ◌⊎◌, inl, inr, refl, sym, ap, ◌∙◌, arith, Bool, true, false, not,
  ◌&&◌, ◌||◌, [], ◌∷◌, ◌++◌, length, drop, length-drop, Option, ok, ok-injective, Bool-cases,
  length-append,
}
use fakeradius.Base.Bytes.{Bytes}
use mathlib.Core.Path.{subst}
use fakeradius.Eap.Session.{Session, new_session}
use fakeradius.Eap.Tls.Flight.{waited, after_fragment, after_last, silent, fragment, last, tls_case}
use fakeradius.Eap.Tls.{Activity, tls_activity, receive, await_output, handle_tls_handshake}

-- The values of `State`.
pub data IsInPhase (s : Session) : Type 0 where
  fresh : s.state ≡ 0 → s.tls_started ≡ false → IsInPhase s
  identified : s.state ≡ 1 → IsInPhase s
  handshaking : s.state ≡ 2 → s.tls_started ≡ true → IsInPhase s
  sending : s.state ≡ 21 → s.tls_started ≡ true → 1 ≤ length s.tls_out → IsInPhase s
  settled : s.state ≡ 3 → s.tls_started ≡ true → IsInPhase s

-- Without a TLS connection nothing has been read, written or authenticated.
abbrev pub IsUntouched : Session → Type 0
IsUntouched s = (s.handshake_done ≡ false) × (s.tls_in ≡ []) × (s.tls_out ≡ [])

abbrev pub IsWellFormed : Session → Type 0
IsWellFormed s =
    IsInPhase s
    × ((s.authenticated ≡ false) ⊎ (s.handshake_done ≡ true))
    × ((s.tls_started ≡ true) ⊎ IsUntouched s)

pub new_session-IsWellFormed : (id now : ℕ) → IsWellFormed (new_session id now)
new_session-IsWellFormed id now = (fresh refl refl, inl refl, inr (refl, refl, refl))

-- More output leaves the phase.
phase_grows :
    (s : Session) (tls_in more : Bytes) (done marked : Bool)
    → IsInPhase s
    → IsInPhase (record s {
      tls_in = tls_in;
      tls_out = s.tls_out ++ more;
      handshake_done = done;
      authenticated = marked;
    })
phase_grows s i more d m (fresh h k) = fresh h k
phase_grows s i more d m (identified h) = identified h
phase_grows s i more d m (handshaking h k) = handshaking h k
phase_grows s i more d m (sending h k n) = sending h k (omega (arith, length-append s.tls_out more))
phase_grows s i more d m (settled h k) = settled h k

phase_marked :
    (s : Session) (marked : Bool) → IsInPhase s → IsInPhase (record s { authenticated = marked })
phase_marked s m (fresh h k) = fresh h k
phase_marked s m (identified h) = identified h
phase_marked s m (handshaking h k) = handshaking h k
phase_marked s m (sending h k n) = sending h k n
phase_marked s m (settled h k) = settled h k

marked_finished : (finished marked : Bool) → ((finished && marked) ≡ false) ⊎ (finished ≡ true)
marked_finished true marked = inr refl
marked_finished false marked = inl refl

marked_done :
    (authenticated done marked : Bool)
    → (authenticated ≡ false) ⊎ (done ≡ true)
    → ((authenticated || (done && marked)) ≡ false) ⊎ (done ≡ true)
marked_done authenticated true marked h = inr refl
marked_done authenticated false marked (inl h) = inl (rw h refl)
marked_done authenticated false marked (inr h) = cc

pub tls_activity-IsWellFormed :
    (a : Activity) (s : Session) → IsWellFormed s → IsWellFormed (tls_activity a s)
unfolding tls_activity
tls_activity-IsWellFormed a s (p, e, u) =
    elim (Bool-cases (s.tls_started && not s.handshake_done)) [
      | inl on ↦
          let started : s.tls_started ≡ true = ground arith in
          let running : s.handshake_done ≡ false = ground arith in
          let unmarked : s.authenticated ≡ false = ground arith in
          rw on (
            phase_grows s (drop a.consumed s.tls_in) a.written a.finished
                (s.authenticated || (a.finished && a.marked)) p,
            rw unmarked (marked_finished a.finished a.marked),
            inl started,
          )
      | inr off ↦ rw off (
        phase_marked s (s.authenticated || (s.handshake_done && a.marked)) p,
        marked_done s.authenticated s.handshake_done a.marked e,
        u,
      )
    ]

-- What arrives starts the TLS server, if it does not run.
abbrev pub IsStarted : Session → Type 0
IsStarted s = IsWellFormed s × (s.tls_started ≡ true)

phase_fed : (s : Session) (tls_in : Bytes) → IsInPhase s → IsInPhase (record s { tls_in = tls_in })
phase_fed s i (fresh h k) = fresh h k
phase_fed s i (identified h) = identified h
phase_fed s i (handshaking h k) = handshaking h k
phase_fed s i (sending h k n) = sending h k n
phase_fed s i (settled h k) = settled h k

pub receive-fed :
    (s : Session) (tls_data : Bytes)
    → s.tls_started ≡ true
    → record s { tls_in = s.tls_in ++ tls_data } ≡ receive s tls_data
unfolding receive
receive-fed s tls_data on = rw on refl

pub receive-new :
    (s : Session) (tls_data : Bytes)
    → s.tls_started ≡ false
    → record s { tls_in = s.tls_in ++ tls_data; tls_started = true; state = 2 } ≡ receive s tls_data
unfolding receive
receive-new s tls_data off = rw off refl

receive-IsStarted :
    (s : Session) (tls_data : Bytes) → IsWellFormed s → IsStarted (receive s tls_data)
receive-IsStarted s tls_data (p, e, u) = elim (Bool-cases s.tls_started) [
  | inl on ↦
      subst IsStarted (receive-fed s tls_data on)
        ((phase_fed s (s.tls_in ++ tls_data) p, e, inl on), on)
  | inr off ↦
      subst IsStarted (receive-new s tls_data off) ((handshaking refl refl, e, inl refl), refl)
]

activity-IsStarted : (a : Activity) (s : Session) → IsStarted s → IsStarted (tls_activity a s)
unfolding tls_activity
activity-IsStarted a s (w, k) = (
  tls_activity-IsWellFormed a s w,
  elim (Bool-cases (s.tls_started && not s.handshake_done)) [
    | inl on ↦ rw on k
    | inr off ↦ rw off k
  ],
)

await-IsStarted :
    (polls : ℕ) (engine : ℕ → Activity) (s : Session)
    → IsStarted s
    → IsStarted (await_output polls engine s)
await-IsStarted zero engine s h = h
await-IsStarted (suc polls) engine s h = settled_or s.tls_out (
    await-IsStarted polls engine (tls_activity (engine polls) s)
      (activity-IsStarted (engine polls) s h))
  where
    settled_or :
        (out : Bytes)
        → IsStarted (await_output polls engine (tls_activity (engine polls) s))
        → IsStarted (elim out [
          | [] ↦ await_output polls engine (tls_activity (engine polls) s)
          | (_ ∷ _) ↦ s
        ])
    settled_or [] k = k
    settled_or (b ∷ out) k = h

after_fragment-IsWellFormed :
    (s : Session) → 1000 < length s.tls_out → IsStarted s → IsWellFormed (after_fragment s)
after_fragment-IsWellFormed s long ((p, e, u), k) = (phase p, e, inl k)
  where
    phase : IsInPhase s → IsInPhase (after_fragment s)
    phase (fresh h f) = fresh (rw h refl) f
    phase (identified h) = identified (rw h refl)
    phase (handshaking h f) = sending (rw h refl) f (omega (arith, length-drop 1000 s.tls_out))
    phase (sending h f n) = sending (rw h refl) f (omega (arith, length-drop 1000 s.tls_out))
    phase (settled h f) = settled (rw h refl) f

after_last-IsWellFormed : (s : Session) → IsStarted s → IsWellFormed (after_last s)
after_last-IsWellFormed s ((p, e, u), k) = (phase p, e, inl k)
  where
    phase : IsInPhase s → IsInPhase (after_last s)
    phase (fresh h f) = fresh (rw h refl) f
    phase (identified h) = identified (rw h refl)
    phase (handshaking h f) = settled (rw h refl) f
    phase (sending h f n) = settled (rw h refl) f
    phase (settled h f) = settled (rw h refl) f

-- The handshake handler keeps a session well-formed.
pub handle_tls_handshake-IsWellFormed :
    (engine : ℕ → Activity) (s s' : Session) (tls_data : Bytes) (id : ℕ) (sent : Option Bytes)
    → IsWellFormed s
    → handle_tls_handshake engine s tls_data id ≡ ok (s', sent)
    → IsWellFormed s'
handle_tls_handshake-IsWellFormed engine s s' tls_data id sent h r =
    let started : IsStarted (waited engine s tls_data) =
      await-IsStarted 400 engine (receive s tls_data) (receive-IsStarted s tls_data h) in
    elim (tls_case engine s tls_data id) [
      | silent e k ↦ subst IsWellFormed (same_session k) started.0
      | fragment e k ↦
          subst IsWellFormed (same_session k)
            (after_fragment-IsWellFormed (waited engine s tls_data) e started)
      | last e f k ↦
          subst IsWellFormed (same_session k)
            (after_last-IsWellFormed (waited engine s tls_data) started)
    ]
  where
    same_session :
        {t : Session} {out : Option Bytes}
        → handle_tls_handshake engine s tls_data id ≡ ok (t, out)
        → t ≡ s'
    same_session k = ap (λ x. x.0) (ok-injective (sym k ∙ r))
