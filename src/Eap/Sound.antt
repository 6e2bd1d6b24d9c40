-- ===== src/Eap/Sound.antt =====
-- An EAP session of cmd/server/main.go is authenticated only if a handshake has come to its end.
use fakeradius.Base.{
  ℕ, zero, suc, ◌≡◌, ◌⊎◌, inl, inr, sym, ap, ◌∙◌, Bool, true, false, not, ◌&&◌, [], ◌∷◌, Option, ok,
  ok-injective, Bool-cases,
}
use fakeradius.Base.Bytes.{Bytes}
use fakeradius.Eap.Phases.{
  IsWellFormed, receive-fed, receive-new, tls_activity-IsWellFormed,
  handle_tls_handshake-IsWellFormed,
}
use fakeradius.Eap.Session.{Session}
use fakeradius.Eap.Tls.Flight.{waited, silent, fragment, last, tls_case}
use fakeradius.Eap.Tls.{Activity, tls_activity, receive, await_output, handle_tls_handshake}
use mathlib.Core.Path.{subst}

-- What the TLS goroutines may do, where `ended` says whether handshakes may come to their end.
abbrev pub IsAllowed : Bool → Activity → Type 0
IsAllowed ended a = (a.finished ≡ false) ⊎ (ended ≡ true)

-- No handshake is done, unless handshakes may end.
abbrev pub IsProven : Bool → Session → Type 0
IsProven ended s = (s.handshake_done ≡ false) ⊎ (ended ≡ true)

abbrev pub IsSound : Bool → Session → Type 0
IsSound ended s = IsWellFormed s × IsProven ended s

-- What follows of a session is sound if the session was, and the goroutine does what it may.
abbrev pub Keeps : (ℕ → Activity) → Session → Session → Type 0
Keeps engine s s' =
    (ended : Bool)
    → ((polls : ℕ) → IsAllowed ended (engine polls))
    → IsSound ended s
    → IsSound ended s'

activity-IsProven :
    (ended : Bool) (a : Activity) (s : Session)
    → IsAllowed ended a
    → IsProven ended s
    → IsProven ended (tls_activity a s)
unfolding tls_activity
activity-IsProven ended a s allowed h = elim (Bool-cases (s.tls_started && not s.handshake_done)) [
  | inl on ↦ rw on allowed
  | inr off ↦ rw off h
]

pub tls_activity-IsSound :
    (ended : Bool) (a : Activity) (s : Session)
    → IsAllowed ended a
    → IsSound ended s
    → IsSound ended (tls_activity a s)
tls_activity-IsSound ended a s allowed (w, h) =
    (tls_activity-IsWellFormed a s w, activity-IsProven ended a s allowed h)

receive-IsProven :
    (ended : Bool) (s : Session) (tls_data : Bytes)
    → IsProven ended s
    → IsProven ended (receive s tls_data)
receive-IsProven ended s tls_data h = elim (Bool-cases s.tls_started) [
  | inl on ↦ subst (IsProven ended) (receive-fed s tls_data on) h
  | inr off ↦ subst (IsProven ended) (receive-new s tls_data off) h
]

await-IsProven :
    (ended : Bool) (polls : ℕ) (engine : ℕ → Activity) (s : Session)
    → ((n : ℕ) → IsAllowed ended (engine n))
    → IsProven ended s
    → IsProven ended (await_output polls engine s)
await-IsProven ended zero engine s allowed h = h
await-IsProven ended (suc polls) engine s allowed h = proven_or s.tls_out (
    await-IsProven ended polls engine (tls_activity (engine polls) s) allowed
      (activity-IsProven ended (engine polls) s (allowed polls) h))
  where
    proven_or :
        (out : Bytes)
        → IsProven ended (await_output polls engine (tls_activity (engine polls) s))
        → IsProven ended (elim out [
          | [] ↦ await_output polls engine (tls_activity (engine polls) s)
          | (_ ∷ _) ↦ s
        ])
    proven_or [] k = k
    proven_or (b ∷ out) k = h

handshake-IsProven :
    (ended : Bool) (engine : ℕ → Activity) (s s' : Session) (tls_data : Bytes) (id : ℕ)
    (sent : Option Bytes)
    → ((n : ℕ) → IsAllowed ended (engine n))
    → IsProven ended s
    → handle_tls_handshake engine s tls_data id ≡ ok (s', sent)
    → IsProven ended s'
handshake-IsProven ended engine s s' tls_data id sent allowed h r =
    let w : IsProven ended (waited engine s tls_data) =
      await-IsProven ended 400 engine (receive s tls_data) allowed
        (receive-IsProven ended s tls_data h) in
    elim (tls_case engine s tls_data id) [
      | silent e k ↦ subst (IsProven ended) (same_session k) w
      | fragment e k ↦ subst (IsProven ended) (same_session k) w
      | last e f k ↦ subst (IsProven ended) (same_session k) w
    ]
  where
    same_session :
        {t : Session} {out : Option Bytes}
        → handle_tls_handshake engine s tls_data id ≡ ok (t, out)
        → t ≡ s'
    same_session k = ap (λ x. x.0) (ok-injective (sym k ∙ r))

pub handle_tls_handshake-Keeps :
    (engine : ℕ → Activity) (s s' : Session) (tls_data : Bytes) (id : ℕ) (sent : Option Bytes)
    → handle_tls_handshake engine s tls_data id ≡ ok (s', sent)
    → Keeps engine s s'
handle_tls_handshake-Keeps engine s s' tls_data id sent r ended allowed (w, h) = (
  handle_tls_handshake-IsWellFormed engine s s' tls_data id sent w r,
  handshake-IsProven ended engine s s' tls_data id sent allowed h r,
)
