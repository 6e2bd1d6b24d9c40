-- ===== src/Eap/Store.antt =====
-- What `handleEAP` of cmd/server/main.go does to the sessions.
use fakeradius.Base.{
  ℕ, ◌≡◌, ◌⊎◌, inl, inr, refl, sym, ap, ◌∙◌, arith, false, [], ◌∷◌, length, ltb, Option, none, some,
  Result, ok, err, panic, stuck, ok-injective, ◌>>=◌,
}
use fakeradius.Base.Bytes.{Bytes, at, bytes_eq}
use fakeradius.Crypto.{Crypto}
use fakeradius.Eap.Dispatch.{crashes, settles, dispatch_case}
use fakeradius.Eap.Handle.{Reply, build_eap_response, answer_eap, handle_eap}
use fakeradius.Eap.Sound.{Keeps}
use fakeradius.Eap.Session.{Session, Store, put, session_of}
use fakeradius.Eap.Tls.{Activity}
use fakeradius.Radius.Extract.{extract_eap_message}
use fakeradius.Radius.Packet.{value_or_nil}

-- The store is left alone, or the session of the client's address is replaced.
abbrev pub IsUpdate : (ℕ → Activity) → Bytes → Store → Store → Type 0
IsUpdate engine address store store' =
    (store ≡ store')
    ⊎ ((eap_id now : ℕ) × (s : Session) × (put address s store ≡ store')
        × Keeps engine (session_of store address eap_id now) s)

abbrev answered : Store → Option Bytes → Result (Store × Option Bytes)
answered store out = ok (store, out)

abbrev responded : Store → Result Bytes → Result (Store × Option Bytes)
responded store r = do response ← r; ok (store, some response)

module _ (c : Crypto) (secret : Bytes) (engine : ℕ → Activity) (now : ℕ) (address packet : Bytes)
    (store store' : Store) (out : Option Bytes) where
  abbrev of_answer : ℕ → Session → Option Reply → Result (Store × Option Bytes)
  of_answer eap_id s answer = elim answer [
    | none ↦ answered (put address s store) none
    | some reply ↦
        responded (put address s store) (build_eap_response c secret packet eap_id now reply)
  ]

  abbrev of_found : Option Bytes → Result (Store × Option Bytes)
  of_found found = elim found [
    | none ↦ answered store none
    | some eap ↦ answer_eap c secret engine now address packet store eap
  ]

  stores : (st : Store) (o : Option Bytes) → answered st o ≡ answered store' out → st ≡ store'
  stores st o h = ap (λ x. x.0) (ok-injective h)

  after_response :
      (st : Store) (r : Result Bytes) → responded st r ≡ answered store' out → st ≡ store'
  after_response st (ok response) h = stores st (some response) h
  after_response st (err e) h = cc
  after_response st panic h = cc
  after_response st stuck h = cc

  settled_update :
      (eap_id : ℕ) (s : Session) (answer : Option Reply)
      → of_answer eap_id s answer ≡ answered store' out
      → put address s store ≡ store'
  settled_update eap_id s none h = stores (put address s store) none h
  settled_update eap_id s (some reply) h =
      after_response (put address s store) (build_eap_response c secret packet eap_id now reply) h

  answer_eap-IsUpdate :
      (m : Bytes)
      → answer_eap c secret engine now address packet store m ≡ ok (store', out)
      → IsUpdate engine address store store'
  unfolding answer_eap at
  answer_eap-IsUpdate [] h = inl (stores store none h)
  answer_eap-IsUpdate (a ∷ []) h = inl (stores store none h)
  answer_eap-IsUpdate (a ∷ b ∷ []) h = inl (stores store none h)
  answer_eap-IsUpdate (a ∷ b ∷ d ∷ []) h = inl (stores store none h)
  answer_eap-IsUpdate (a ∷ b ∷ d ∷ e ∷ rest) h =
      let long : ltb (length (a ∷ b ∷ d ∷ e ∷ rest)) 4 ≡ false = ground arith in
      let h' = rw long at h in
      elim (dispatch_case engine (session_of store address b now) a b b d e rest) [
        | crashes k r ↦ (let z = rw r at h' in cc)
        | settles k (s, answer, r, due, w) ↦
            inr (b, now, s, settled_update b s answer (rw r at h'), w)
      ]

  pub handle_eap-IsUpdate :
      handle_eap c secret engine now address packet store ≡ ok (store', out)
      → IsUpdate engine address store store'
  unfolding handle_eap
  handle_eap-IsUpdate = from_found (value_or_nil (extract_eap_message packet))
    where
      from_found :
          (r : Result (Option Bytes))
          → (do found ← r; of_found found) ≡ answered store' out
          → IsUpdate engine address store store'
      from_found (ok none) h = inl (stores store none h)
      from_found (ok (some eap)) h = answer_eap-IsUpdate eap h
      from_found (err e) h = cc
      from_found panic h = cc
      from_found stuck h = cc

-- A datagram of whatever bytes from one address changes no session of another address.
pub handle_eap-put :
    (c : Crypto) (secret : Bytes) (engine : ℕ → Activity) (now : ℕ) (address packet : Bytes)
    (store store' : Store) (out : Option Bytes) (other : Bytes)
    → handle_eap c secret engine now address packet store ≡ ok (store', out)
    → bytes_eq other address ≡ false
    → store' other ≡ store other
unfolding put
handle_eap-put c secret engine now address packet store store' out other h k =
    elim (handle_eap-IsUpdate c secret engine now address packet store store' out h) [
      | inl e ↦ ap (λ st. st other) (sym e)
      | inr (i, n, s, e, w) ↦ ap (λ st. st other) (sym e) ∙ rw k refl
    ]
