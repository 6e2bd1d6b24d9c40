-- ===== src/Tests/Eap.antt =====
-- Concrete inputs at which the theorems on the EAP sessions of cmd/server/main.go apply.
use fakeradius.Base.{
  All, ℕ, ◌≡◌, ◌↔◌, inr, refl, arith, true, false, List, [], ◌∷◌, ◌++◌, replicate, some, ok, panic,
}
use fakeradius.Base.Bytes.{Bytes, codes, at, slice, put_u16, bytes_eq}
use fakeradius.Eap.Answered.{handle_eap-IsBareResponse, handle_eap_accept}
use fakeradius.Eap.Dispatch.{IsBareResponse}
use fakeradius.Eap.Handle.{handle_eap, answer_eap, dispatch, on_ttls, build_eap_response}
use fakeradius.Eap.{build_eap_packet, eap_attributes}
use fakeradius.Eap.Overlap.Coherent.{IsCoherent, Relies, interleaved-IsCoherent}
use fakeradius.Eap.Overlap.{
  IsInterleaved, created, data_arrives, handler, checking, starting, entering, feeding, turn,
}
use fakeradius.Eap.Response.{request_of}
use fakeradius.Eap.Session.{Session, no_sessions, put, session_of, new_session}
use fakeradius.Eap.Reachable.{start}
use fakeradius.Eap.Store.{handle_eap-put}
use fakeradius.Eap.Tls.Drain.{drain, IsDrained, drain_lem}
use fakeradius.Eap.Tls.{Activity, handle_tls_handshake, receive, send_last, tls_activity}
use fakeradius.Radius.Attributes.{build_attribute}
use fakeradius.Radius.Extract.{extract_eap_message}
use fakeradius.Radius.Response.{response_authenticator, assemble}
use fakeradius.Radius.Signature.{calculate_message_authenticator, replace_or_add_ma}
use fakeradius.Radius.Walk.{for_attributes_or}
use fakeradius.Radius.Extract.Found.{eap_of}
use fakeradius.Radius.Walk.Encoded.{Attribute, encode}
use fakeradius.Tests.{toy, secret, pw}

abbrev auth : Bytes
auth = replicate 16 7

abbrev here : Bytes
here = codes "a:1"

abbrev there : Bytes
there = codes "b:2"

-- The goroutine writes, and comes to its end, in the first pause.
abbrev busy : ℕ → Activity
busy polls = record { consumed = 1; written = pw; finished = true; marked = true }

abbrev attrs_of : Bytes → List Attribute
attrs_of eap = record { kind = 79; value = eap } ∷ []

abbrev bare : Bytes
bare = 2 ∷ 4 ∷ 0 ∷ 4 ∷ []

abbrev ttls : Bytes
ttls = 2 ∷ 4 ∷ 0 ∷ 8 ∷ 21 ∷ 0 ∷ 22 ∷ 3 ∷ []

handle_eap-IsBareResponse_example :
    (handle_eap toy secret busy 5 here
        (request_of 1 9 0 26 auth (encode (attrs_of bare)))
        no_sessions
      ≡ panic)
    ↔ IsBareResponse (eap_of (attrs_of bare))
handle_eap-IsBareResponse_example =
    handle_eap-IsBareResponse toy secret busy 5 here no_sessions 1 9 0 26 auth (attrs_of bare) refl
      (omega arith, tt)

abbrev flying : Session
flying = record (new_session 4 5) { state = 2; tls_started = true; tls_out = replicate 2500 8 }

drain_example :
    (s' : Session) × (drain 3 busy flying 255 ≡ ok (replicate 2500 8, s')) × IsDrained flying s'
drain_example = drain_lem 3 busy flying 255 (refl, refl, omega arith) (omega arith)

-- The session after the handshake, and the Access-Accept.
abbrev done : Session
done = record (new_session 4 5) {
  state = 3;
  tls_in = 3 ∷ [];
  tls_started = true;
  handshake_done = true;
  authenticated = true;
}

abbrev accepted : Bytes
accepted =
    2 ∷ 9 ∷ 0 ∷ 44 ∷ (replicate 16 47 ++ (79 ∷ 6 ∷ 3 ∷ 5 ∷ 0 ∷ 4 ∷ 80 ∷ 18 ∷ replicate 16 47))

accepted_eq :
    handle_eap toy secret busy 5 here
      (request_of 1 9 0 30 auth (encode (attrs_of ttls)))
      no_sessions
    ≡ ok (put here done no_sessions, some accepted)
unfolding handle_eap answer_eap dispatch on_ttls handle_tls_handshake receive tls_activity send_last
    build_eap_packet build_eap_response eap_attributes calculate_message_authenticator
    replace_or_add_ma build_attribute at slice put_u16 response_authenticator assemble
    extract_eap_message for_attributes_or session_of bytes_eq
accepted_eq = refl

accept_code : at accepted 0 ≡ ok 2
unfolding at
accept_code = refl

handle_eap_accept_example :
    (s : Session) × (put here done no_sessions here ≡ some s)
    × (s.authenticated ≡ true)
    × (s.handshake_done ≡ true)
    × (s.tls_started ≡ true)
    × (s.tls_out ≡ [])
    × (true ≡ true)
handle_eap_accept_example =
    handle_eap_accept toy secret busy 5 here no_sessions 1 9 0 30 auth (attrs_of ttls) refl
      (omega arith, tt) (put here done no_sessions) accepted true start (λ polls. inr refl)
      accepted_eq accept_code

other_address : bytes_eq there here ≡ false
unfolding bytes_eq
other_address = refl

handle_eap-put_example : put here done no_sessions there ≡ no_sessions there
handle_eap-put_example =
    handle_eap-put toy secret busy 5 here (request_of 1 9 0 30 auth (encode (attrs_of ttls)))
      no_sessions (put here done no_sessions) (some accepted) there accepted_eq other_address

-- Two handlers with data: the first starts the TLS connection before the second looks for one.
abbrev twice : Session
twice = record (new_session 4 5) { last_seen = 7; tls_in = 22 ∷ 23 ∷ []; tls_started = true }

overlapping : IsInterleaved true twice (checking 5 ∷ entering 4 ∷ [])
unfolding turn
overlapping = handler [] (entering 4 ∷ []) (feeding (23 ∷ []) 5) _ (
    data_arrives (23 ∷ []) 5 7 _ _ (
      handler [] [] (starting 4) _ (
        handler [] [] (checking 4) _
          (handler [] [] (feeding (22 ∷ []) 4) _ (data_arrives (22 ∷ []) 4 6 _ _ (created 4 5))))))

interleaved-IsCoherent_example :
    IsCoherent true twice × All (Relies twice) (checking 5 ∷ entering 4 ∷ [])
interleaved-IsCoherent_example =
    interleaved-IsCoherent true twice (checking 5 ∷ entering 4 ∷ []) overlapping
