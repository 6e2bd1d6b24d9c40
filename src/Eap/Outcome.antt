-- ===== src/Eap/Outcome.antt =====
-- `handleEAP` of cmd/server/main.go on a well-formed packet: the ways in which it ends.
use fakeradius.Base.{
  ℕ, ◌≤◌, ◌<◌, ◌≡◌, refl, sym, ap, ◌∙◌, arith, true, false, List, [], ◌∷◌, ◌++◌, append_assoc,
  length, ltb, ◌==◌, if◌then◌else◌, Option, none, some, Result, ok, err, panic,
  eap_message_not_found, All,
}
use fakeradius.Base.Bytes.{Bytes, at}
use mathlib.Core.Path.{subst}
use fakeradius.Crypto.{Crypto}
use fakeradius.Eap.Dispatch.{IsBareResponse, IsDue, crashes, settles, dispatch_case}
use fakeradius.Eap.Handle.{Reply, dispatch, answer_eap, handle_eap}
use fakeradius.Eap.Sound.{Keeps}
use fakeradius.Eap.Response.{IsEapResponse, request_of, build_eap_response_lem}
use fakeradius.Eap.Session.{Session, Store, put, session_of}
use fakeradius.Eap.Tls.{Activity}
use fakeradius.Radius.Extract.Found.{eap_of, extract_eap_message_lem}
use fakeradius.Radius.Extract.{extract_eap_message}
use fakeradius.Radius.Walk.Encoded.{Attribute, Fits, encode}

-- The identifier of an EAP packet.
abbrev pub eap_id_of : Bytes → ℕ
eap_id_of (_ ∷ id ∷ _) = id
eap_id_of _ = 0

module _ (c : Crypto) (secret : Bytes) (engine : ℕ → Activity) (now : ℕ) (address : Bytes)
    (store : Store) (code id hi lo : ℕ) (auth : Bytes) (attrs : List Attribute)
    (size : length auth ≡ 16) (fits : All Fits attrs) where
  abbrev packet : Bytes
  packet = request_of code id hi lo auth (encode attrs)

  abbrev eap : Bytes
  eap = eap_of attrs

  abbrev session : Session
  session = session_of store address (eap_id_of eap) now

  abbrev pub outcome : Result (Store × Option Bytes)
  outcome = handle_eap c secret engine now address packet store

  pub data EapCase : Type 0 where
    too_short : length eap < 4 → outcome ≡ ok (store, none) → EapCase
    bare : IsBareResponse eap → outcome ≡ panic → EapCase
    silent :
        (s : Session)
        → ¬ IsBareResponse eap
        → outcome ≡ ok (put address s store, none)
        → Keeps engine session s
        → EapCase
    replies :
        (s : Session) (reply : Reply) (response : Bytes)
        → ¬ IsBareResponse eap
        → outcome ≡ ok (put address s store, some response)
        → IsDue s (some reply)
        → IsEapResponse c secret id auth reply response
        → Keeps engine session s
        → EapCase

  extracted :
      extract_eap_message packet ≡ (if length eap == 0 then err eap_message_not_found else ok eap)
  extracted =
      ap extract_eap_message (sym (append_assoc (code ∷ id ∷ hi ∷ lo ∷ []) auth (encode attrs)))
      ∙ extract_eap_message_lem ((code ∷ id ∷ hi ∷ lo ∷ []) ++ auth) attrs (omega arith) fits

  module _ (m b d e : ℕ) (rest : Bytes) (h : eap ≡ m ∷ b ∷ d ∷ e ∷ rest) where
    found : extract_eap_message packet ≡ ok (m ∷ b ∷ d ∷ e ∷ rest)
    found =
        let some_bytes : (length (m ∷ b ∷ d ∷ e ∷ rest) == 0) ≡ false = ground arith in
        extracted
        ∙ ap (λ z. if length z == 0 then err eap_message_not_found else ok z) h
        ∙ rw some_bytes refl

    long : ltb (length (m ∷ b ∷ d ∷ e ∷ rest)) 4 ≡ false
    long = ground arith

    same_session :
        (s : Session) → Keeps engine (session_of store address b now) s → Keeps engine session s
    same_session s k =
        subst (λ z. Keeps engine (session_of store address (eap_id_of z) now) s) (sym h) k

    -- A reply goes out in a response.
    pub replied :
        (s : Session) (reply : Reply)
        → dispatch engine (session_of store address b now) m b (m ∷ b ∷ d ∷ e ∷ rest)
          ≡ ok (s, some reply)
        → length reply.message ≤ 20000
        → (response : Bytes) × (outcome ≡ ok (put address s store, some response))
          × IsEapResponse c secret id auth reply response
    unfolding handle_eap answer_eap at
    replied s reply r room =
        let (response, built, good) =
          build_eap_response_lem c secret code id hi lo auth (encode attrs) b now reply size room in
        (response, rw (found, long, r, built) refl, good)

    settled_case :
        (s : Session) (answer : Option Reply)
        → ¬ IsBareResponse eap
        → dispatch engine (session_of store address b now) m b (m ∷ b ∷ d ∷ e ∷ rest)
          ≡ ok (s, answer)
        → IsDue s answer
        → Keeps engine (session_of store address b now) s
        → EapCase
    unfolding handle_eap answer_eap at
    settled_case s none k r due w = silent s k (rw (found, long, r) refl) (same_session s w)
    settled_case s (some reply) k r due w =
        let (response, e', good) = replied s reply r (omega (arith, due.1)) in
        replies s reply response k e' due good (same_session s w)

    long_case : EapCase
    unfolding handle_eap answer_eap at
    long_case = elim (dispatch_case engine (session_of store address b now) m b b d e rest) [
      | crashes k r ↦ bare (subst IsBareResponse (sym h) k) (rw (found, long, r) refl)
      | settles k (s, answer, r, due, w) ↦
          settled_case s answer (λ q. k (subst IsBareResponse h q)) r due w
    ]

  short_case : (m : Bytes) → eap ≡ m → length m < 4 → EapCase
  unfolding handle_eap answer_eap
  short_case [] h n =
      let missing : extract_eap_message packet ≡ err eap_message_not_found =
        extracted ∙ ap (λ z. if length z == 0 then err eap_message_not_found else ok z) h in
      too_short (omega (arith, ap length h)) (rw missing refl)
  short_case (b ∷ m) h n =
      let some_bytes : (length (b ∷ m) == 0) ≡ false = ground arith in
      let short : ltb (length (b ∷ m)) 4 ≡ true = ground arith in
      let there : extract_eap_message packet ≡ ok (b ∷ m) =
        extracted
        ∙ ap (λ z. if length z == 0 then err eap_message_not_found else ok z) h
        ∙ rw some_bytes refl in
      too_short (omega (arith, ap length h)) (rw (there, short) refl)

  by_length : (m : Bytes) → eap ≡ m → EapCase
  by_length (a ∷ b ∷ d ∷ e ∷ rest) h = long_case a b d e rest h
  by_length [] h = short_case [] h (omega arith)
  by_length (a ∷ []) h = short_case (a ∷ []) h (omega arith)
  by_length (a ∷ b ∷ []) h = short_case (a ∷ b ∷ []) h (omega arith)
  by_length (a ∷ b ∷ d ∷ []) h = short_case (a ∷ b ∷ d ∷ []) h (omega arith)

  pub eap_case : EapCase
  eap_case = by_length eap refl
