-- ===== src/Eap/Reachable.antt =====
-- The sessions that datagrams and TLS goroutines of cmd/server/main.go lead to, where a datagram is handled to its
-- end before the next one is.
use fakeradius.Base.{
  ℕ, ◌≡◌, inl, inr, refl, Bool, Option, none, some, ok, some-injective, Bool-cases,
}
use fakeradius.Base.Bytes.{Bytes, bytes_eq}
use fakeradius.Crypto.{Crypto}
use fakeradius.Eap.Handle.{handle_eap}
use fakeradius.Eap.Phases.{
  IsInPhase, fresh, identified, handshaking, sending, settled, IsWellFormed,
  new_session-IsWellFormed,
}
use fakeradius.Eap.Sound.{IsAllowed, IsSound, tls_activity-IsSound}
use fakeradius.Eap.Store.{handle_eap-IsUpdate}
use fakeradius.Eap.Session.{Session, Store, no_sessions, put, session_of, new_session}
use fakeradius.Eap.Tls.{Activity, tls_activity}
use mathlib.Core.Path.{subst}

-- What can become of the sessions where no two handlers overlap: a datagram comes in from an address, or the TLS
-- goroutine of a session does something. Handshakes come to their end only where `ended` is true.
pub data IsReachable (c : Crypto) (secret : Bytes) (ended : Bool) : Store → Type 0 where
  start : IsReachable c secret ended no_sessions
  datagram :
      (engine : ℕ → Activity) (now : ℕ) (address packet : Bytes) (store store' : Store)
      (out : Option Bytes)
      → ((polls : ℕ) → IsAllowed ended (engine polls))
      → IsReachable c secret ended store
      → handle_eap c secret engine now address packet store ≡ ok (store', out)
      → IsReachable c secret ended store'
  goroutine :
      (a : Activity) (address : Bytes) (s : Session) (store : Store)
      → IsAllowed ended a
      → IsReachable c secret ended store
      → store address ≡ some s
      → IsReachable c secret ended (put address (tls_activity a s) store)

AllSound : Bool → Store → Type 0
AllSound ended store = (address : Bytes) (s : Session) → store address ≡ some s → IsSound ended s

entry :
    (ended : Bool) (store : Store) (address : Bytes) (s : Session)
    → AllSound ended store
    → store address ≡ some s
    → IsSound ended s
unfolding AllSound
entry ended store address s all h = all address s h

put-AllSound :
    (ended : Bool) (address : Bytes) (s : Session) (store : Store)
    → AllSound ended store
    → IsSound ended s
    → AllSound ended (put address s store)
unfolding put AllSound
put-AllSound ended address s store all w other t h = elim (Bool-cases (bytes_eq other address)) [
  | inl e ↦ let k : some s ≡ some t = rw e at h in subst (IsSound ended) (some-injective k) w
  | inr e ↦ let k : store other ≡ some t = rw e at h in all other t k
]

no_sessions-AllSound : (ended : Bool) → AllSound ended no_sessions
unfolding AllSound
no_sessions-AllSound ended address s h = cc

seen : (s : Session) (now : ℕ) → IsWellFormed s → IsWellFormed (record s { last_seen = now })
seen s now (p, e, u) = (phase p, e, u)
  where
    phase : IsInPhase s → IsInPhase (record s { last_seen = now })
    phase (fresh h k) = fresh h k
    phase (identified h) = identified h
    phase (handshaking h k) = handshaking h k
    phase (sending h k n) = sending h k n
    phase (settled h k) = settled h k

session_of-IsSound :
    (ended : Bool) (store : Store) (address : Bytes) (id now : ℕ)
    → AllSound ended store
    → IsSound ended (session_of store address id now)
unfolding session_of AllSound
session_of-IsSound ended store address id now all = from_entry (store address) (all address)
  where
    from_entry :
        (o : Option Session)
        → ((s : Session) → o ≡ some s → IsSound ended s)
        → IsSound ended (elim o [
          | none ↦ new_session id now
          | some session ↦ record session { last_seen = now }
        ])
    from_entry none h = (new_session-IsWellFormed id now, inl refl)
    from_entry (some s) h = (seen s now (h s refl).0, (h s refl).1)

all-AllSound :
    {c : Crypto} {secret : Bytes} {ended : Bool} {store : Store}
    → IsReachable c secret ended store
    → AllSound ended store
all-AllSound {c} {secret} {ended} start = no_sessions-AllSound ended
all-AllSound {c} {secret} {ended}
      (datagram engine now address packet store store' out allowed r e) =
    elim (handle_eap-IsUpdate c secret engine now address packet store store' out e) [
      | inl k ↦ subst (AllSound ended) k (all-AllSound r)
      | inr (i, n, s, k, w) ↦ subst (AllSound ended) k (
          put-AllSound ended address s store (all-AllSound r)
            (w ended allowed (session_of-IsSound ended store address i n (all-AllSound r))))
    ]
all-AllSound {c} {secret} {ended} (goroutine a address s store allowed r e) =
    put-AllSound ended address (tls_activity a s) store (all-AllSound r)
      (tls_activity-IsSound ended a s allowed (entry ended store address s (all-AllSound r) e))

pub reachable-IsSound :
    (c : Crypto) (secret : Bytes) (ended : Bool) (store : Store) (address : Bytes) (s : Session)
    → IsReachable c secret ended store
    → store address ≡ some s
    → IsSound ended s
reachable-IsSound c secret ended store address s r h =
    entry ended store address s (all-AllSound r) h
