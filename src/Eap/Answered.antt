-- ===== src/Eap/Answered.antt =====
-- What `handleEAP` of cmd/server/main.go promises of its answers to well-formed packets.
use fakeradius.Base.{
  ℕ, ◌+◌, ◌*◌, ◌≤◌, ◌≡◌, ◌↔◌, ◌⊎◌, inl, inr, refl, sym, ap, ◌∙◌, arith, Bool, true, false, List, [],
  ◌∷◌, ◌++◌, append_assoc, length, ◌==◌, if◌then◌else◌, Option, none, some, Result, ok, err, panic,
  ok-injective, some-injective, eap_message_not_found, All, length-append,
}
use fakeradius.Base.Bytes.{Bytes, at, put_u16, length-put_u16, bytes_eq_refl}
use fakeradius.Crypto.{Crypto}
use fakeradius.Eap.Dispatch.{IsBareResponse, IsDue}
use fakeradius.Eap.Handle.{Reply, handle_eap}
use fakeradius.Eap.Outcome.{EapCase, too_short, bare, silent, replies, eap_case}
use fakeradius.Eap.Phases.{IsUntouched}
use fakeradius.Eap.Response.{IsEapResponse, response_code, request_of}
use fakeradius.Eap.Session.{Session, Store, put}
use fakeradius.Eap.Reachable.{IsReachable, reachable-IsSound, datagram}
use fakeradius.Eap.Sound.{IsAllowed, IsProven}
use fakeradius.Eap.Tls.{Activity}
use fakeradius.Radius.Attributes.{access_accept}
use fakeradius.Radius.Extract.Found.{eap_of, extract_eap_message_lem}
use fakeradius.Radius.Extract.{extract_eap_message}
use fakeradius.Radius.Response.Encoded.{length-signed_response}
use mathlib.Core.Path.{subst}
use fakeradius.Radius.Walk.Encoded.{Attribute, Fits, encode}

module _ (c : Crypto) (secret : Bytes) (id : ℕ) (auth : Bytes) (reply : Reply)
    (response : Bytes) where
  -- An EAP response gives its message back.
  pub extract-IsEapResponse :
      IsEapResponse c secret id auth reply response
      → 1 ≤ length reply.message
      → extract_eap_message response ≡ ok reply.message
  extract-IsEapResponse (attrs, e, fits, signed, carried, size) some_bytes =
      let code = response_code reply.success in
      let n : ℕ = 20 + length (encode attrs) in
      let digest = c.md5 (code ∷ id ∷ (put_u16 n ++ (auth ++ (encode attrs ++ secret)))) in
      let head = code ∷ id ∷ (put_u16 n ++ digest) in
      let whole : response ≡ head ++ encode attrs =
        e ∙ ap (λ z. code ∷ id ∷ z) (sym (append_assoc (put_u16 n) digest (encode attrs))) in
      let twenty : length head ≡ 20 = omega (
        arith,
        length-append (put_u16 n) digest,
        length-put_u16 n,
        c.length-md5 (code ∷ id ∷ (put_u16 n ++ (auth ++ (encode attrs ++ secret)))),
      ) in
      let there : (length reply.message == 0) ≡ false = ground arith in
      ap extract_eap_message whole
      ∙ extract_eap_message_lem head attrs twenty fits
      ∙ ap (λ z. if length z == 0 then err eap_message_not_found else ok z) carried
      ∙ rw there refl

  pub length-IsEapResponse :
      IsEapResponse c secret id auth reply response
      → length response ≤ 68 + 3 * length reply.message
  length-IsEapResponse (attrs, e, _, _, _, n) = omega (
    arith,
    ap length e,
    n,
    length-signed_response c (response_code reply.success) id auth (encode attrs) secret,
  )

  code-IsEapResponse :
      IsEapResponse c secret id auth reply response
      → at response 0 ≡ ok (response_code reply.success)
  unfolding at
  code-IsEapResponse (attrs, e, _, _, _, _) = ap (λ z. at z 0) e

not_accepted : (success : Bool) → success ≡ false → ¬ (response_code success ≡ 2)
not_accepted true h e = cc
not_accepted false h e = absurd (omega arith)

started :
    (s : Session)
    → s.handshake_done ≡ true
    → (s.tls_started ≡ true) ⊎ IsUntouched s
    → s.tls_started ≡ true
started s h (inl k) = k
started s h (inr (k, _, _)) = cc

is_done :
    (s : Session)
    → s.authenticated ≡ true
    → (s.authenticated ≡ false) ⊎ (s.handshake_done ≡ true)
    → s.handshake_done ≡ true
is_done s h (inl k) = cc
is_done s h (inr k) = k

has_ended : (ended : Bool) (s : Session) → s.handshake_done ≡ true → IsProven ended s → ended ≡ true
has_ended ended s h (inl k) = cc
has_ended ended s h (inr k) = k

module _ (c : Crypto) (secret : Bytes) (engine : ℕ → Activity) (now : ℕ) (address : Bytes)
    (store : Store) (code id hi lo : ℕ) (auth : Bytes) (attrs : List Attribute)
    (size : length auth ≡ 16) (fits : All Fits attrs) where
  abbrev pub result : Result (Store × Option Bytes)
  result =
      handle_eap c secret engine now address (request_of code id hi lo auth (encode attrs)) store

  case : EapCase c secret engine now address store code id hi lo auth attrs size fits
  case = eap_case c secret engine now address store code id hi lo auth attrs size fits

  -- On a packet with an authenticator of sixteen bytes and attributes that fit the handler panics exactly if the
  -- EAP message in it is a Response of four bytes, which has no type.
  pub handle_eap-IsBareResponse : (result ≡ panic) ↔ IsBareResponse (eap_of attrs)
  handle_eap-IsBareResponse = elim case [
    | too_short n e ↦ (λ h. cc, λ (i, a, b, k). absurd (omega (arith, n, ap length k)))
    | bare k e ↦ (λ _. k, λ _. e)
    | silent s k e w ↦ (λ h. cc, λ b. absurd (k b))
    | replies s reply response k e d r w ↦ (λ h. cc, λ b. absurd (k b))
  ]

  abbrev IsSent : Store → Bytes → Type 0
  IsSent store' response =
      (s : Session) × (reply : Reply) × (put address s store ≡ store')
      × IsDue s (some reply)
      × IsEapResponse c secret id auth reply response

  same :
      (st store' : Store) (sent : Option Bytes) (response : Bytes)
      → result ≡ ok (st, sent)
      → result ≡ ok (store', some response)
      → (st ≡ store') × (sent ≡ some response)
  same st store' sent response e h =
      let k = ok-injective (sym e ∙ h) in (ap (λ x. x.0) k, ap (λ x. x.1) k)

  sent_lem :
      (store' : Store) (response : Bytes)
      → result ≡ ok (store', some response)
      → IsSent store' response
  sent_lem store' response h = elim case [
    | too_short n e ↦ (let k = (same _ store' none response e h).1 in cc)
    | bare b e ↦ cc
    | silent s b e w ↦ (let k = (same _ store' none response e h).1 in cc)
    | replies s reply response' b e d r w ↦
        let (k, l) = same (put address s store) store' (some response') response e h in
        (s, reply, k, d, subst (IsEapResponse c secret id auth reply) (some-injective l) r)
  ]

  -- An EAP response of at most 3098 bytes that gives its message of at most 1010 bytes back.
  abbrev pub IsAnswer : Bytes → Type 0
  IsAnswer response =
      (reply : Reply) × IsEapResponse c secret id auth reply response
      × (extract_eap_message response ≡ ok reply.message)
      × (length reply.message ≤ 1010)
      × (length response ≤ 3098)

  -- Where datagrams, each handled to its end before the next one is, and the steps of the TLS goroutines have
  -- led to the store, an Access-Accept to a packet with an authenticator of sixteen bytes and attributes that
  -- fit is sent only for a session that is authenticated, whose handshake is done, which has a TLS server and
  -- no output left; and only if handshakes may come to their end, so that none is sent where no step of a
  -- goroutine, before or in the handler's pauses, ends one.
  pub handle_eap_accept :
      (store' : Store) (response : Bytes)
      → (ended : Bool) → IsReachable c secret ended store
      → ((polls : ℕ) → IsAllowed ended (engine polls))
      → result ≡ ok (store', some response)
      → at response 0 ≡ ok access_accept
      → (s : Session) × (store' address ≡ some s)
        × (s.authenticated ≡ true)
        × (s.handshake_done ≡ true)
        × (s.tls_started ≡ true)
        × (s.tls_out ≡ [])
        × (ended ≡ true)
  unfolding put
  handle_eap_accept store' response ended r allowed h a =
      let (s, reply, k, d, e) = sent_lem store' response h in
      let there : store' address ≡ some s =
        ap (λ st. st address) (sym k) ∙ rw (bytes_eq_refl address) refl in
      let code2 : response_code reply.success ≡ 2 =
        ok-injective (sym (code-IsEapResponse c secret id auth reply response e) ∙ a) in
      let w =
        reachable-IsSound c secret ended store' address s
          (datagram engine now address (request_of code id hi lo auth (encode attrs)) store store'
            (some response) allowed r h)
          there in
      elim d.3 [
        | inl refused ↦ absurd (not_accepted reply.success refused code2)
        | inr (yes', empty') ↦ (
          s,
          there,
          yes',
          is_done s yes' w.0.1,
          started s (is_done s yes' w.0.1) w.0.2,
          empty',
          has_ended ended s (is_done s yes' w.0.1) w.1,
        )
      ]
