-- ===== src/Tests/Cli.antt =====
-- Concrete inputs at which the theorems on the client of cmd/cli/radius-cli.go apply.
use fakeradius.Base.{
  ◌++◌, ◌⊎◌, inl, inr, ◌↔◌, ℕ, ◌≡◌, refl, arith, true, false, not, some, List, [], ◌∷◌, replicate,
  ok, All,
}
use fakeradius.Base.Bytes.{Bytes, codes, bytes_eq}
use fakeradius.Cli.Display.Total.{Shows, display_response_total}
use fakeradius.Cli.Display.{Display, display_response}
use fakeradius.Cli.Main.Login.{
  IsComplete, HasHelp, Parser, ShowsUsage, with_pap, no_flags, message, display_of,
  main-send_access_request, main_usage,
}
use fakeradius.Cli.Main.{Config, Flags, Logins, displayed, main}
use fakeradius.Tacacs.Authen.Decide.{IsRejected}
use fakeradius.Cli.Password.Decrypt.{decrypt_blocks, decrypt_blocks-encrypt_password}
use fakeradius.Cli.Password.{encrypt_password, password_blocks, pad_password}
use fakeradius.Cli.Requests.Answers.{server_of}
use fakeradius.Cli.Requests.Methods.{
  IsAnswered, send_access_request_lem, send_chap_access_request_lem,
}
use fakeradius.Cli.Requests.Mschap.{send_mschap_access_request_lem}
use fakeradius.Cli.Requests.{
  send_access_request, send_chap_access_request, send_mschap_access_request,
}
use fakeradius.Cli.Signature as Client
use fakeradius.Cli.Signature.Agrees.{calculate_message_authenticator-eq}
use fakeradius.Cli.Ttls.Start.{
  eap_server_of, start_reply, handle_eap_identity, send_ttls_access_request_lem,
}
use fakeradius.Cli.Ttls.{get_tls_config, load_ca_cert_pool, send_ttls_access_request}
use fakeradius.Eap.Dispatch.{identified_as}
use fakeradius.Eap.Handle.{handle_eap}
use fakeradius.Eap.Response.{IsEapResponse}
use fakeradius.Eap.Session.{no_sessions, put, session_of}
use fakeradius.Eap.Tls.{Activity}
use fakeradius.Radius.Signature as Server
use fakeradius.Radius.Signature.Validate.{packet_of}
use fakeradius.Radius.Walk.Encoded.{Attribute, Fits, encode}
use fakeradius.Tests.{toy, secret, bob, pw}

abbrev auth : Bytes
auth = replicate 16 7

abbrev host : Bytes
host = codes "lab"

send_access_request_example :
    IsAnswered toy secret auth bob
      (send_access_request toy secret (server_of toy secret) auth host bob pw)
send_access_request_example =
    send_access_request_lem toy secret auth host bob refl (omega arith) pw (omega arith)
      (omega arith)

send_chap_access_request_example : IsAnswered toy secret auth bob (
    send_chap_access_request toy secret
      (server_of toy secret)
      auth
      host
      bob
      256
      (replicate 16 9)
      pw)
send_chap_access_request_example =
    send_chap_access_request_lem toy secret auth host bob refl (omega arith) 256 (replicate 16 9) pw
      (omega arith) refl

send_mschap_access_request_example : IsAnswered toy secret auth (codes "no_bob") (
    send_mschap_access_request toy secret
      (server_of toy secret)
      auth
      host
      (codes "no_bob")
      (replicate 16 1)
      (replicate 24 2)
      pw)
send_mschap_access_request_example =
    send_mschap_access_request_lem toy secret auth host (codes "no_bob") refl (omega arith)
      (replicate 16 1) (replicate 24 2) pw (omega arith) refl refl

decrypt_password_example :
    decrypt_blocks toy secret (password_blocks pw) (encrypt_password toy pw secret auth) auth
    ≡ pad_password pw
decrypt_password_example = decrypt_blocks-encrypt_password toy secret pw auth refl

abbrev attrs : List Attribute
attrs =
    record { kind = 1; value = bob }
    ∷ record { kind = 80; value = replicate 16 3 }
    ∷ record { kind = 24; value = pw }
    ∷ []

attrs-Fits : All Fits attrs
attrs-Fits = (omega arith, (omega arith, (omega arith, tt)))

calculate_example :
    Client.calculate_message_authenticator toy 1 5 60 auth secret (encode attrs)
    ≡ Server.calculate_message_authenticator toy 1 5 60 auth secret (encode attrs)
calculate_example = calculate_message_authenticator-eq attrs attrs-Fits toy 1 5 60 auth secret

abbrev idle : ℕ → Activity
idle polls = record { consumed = 0; written = []; finished = false; marked = false }

abbrev identity : Bytes
identity = 2 ∷ 4 ∷ 0 ∷ 8 ∷ 1 ∷ bob

abbrev first : List Attribute
first = record { kind = 1; value = bob } ∷ record { kind = 79; value = identity } ∷ []

handle_eap_identity_example :
    (response : Bytes) × (handle_eap toy secret idle 5 host (packet_of 1 9 auth first) no_sessions
      ≡ ok (
        put host (identified_as (session_of no_sessions host 4 5) 4 bob) no_sessions,
        some response,
      ))
    × IsEapResponse toy secret 9 auth (start_reply 4) response
handle_eap_identity_example =
    handle_eap_identity toy secret idle 5 host no_sessions bob auth first 9 4 0 8 refl
      (omega arith, (omega arith, tt)) refl

send_ttls_access_request_example :
    (response : Bytes) × (send_ttls_access_request
        (λ path. ok pw)
        (λ certs. true)
        toy
        secret
        (eap_server_of toy secret idle 5 host no_sessions)
        bob
        (codes "ca.pem")
        auth
      ≡ ok (response, not (bytes_eq (codes "ca.pem") [])))
    × IsEapResponse toy secret 0 auth (start_reply 1) response
unfolding get_tls_config load_ca_cert_pool bytes_eq
send_ttls_access_request_example =
    send_ttls_access_request_lem toy secret idle 5 host no_sessions bob auth refl (omega arith)
      (λ path. ok pw) (λ certs. true) (codes "ca.pem") pw refl

display_response_example :
    (d : Display) × (display_response (3 ∷ 5 ∷ 0 ∷ 23 ∷ (auth ++ 2 ∷ 3 ∷ 65 ∷ [])) ≡ ok d)
    × Shows (3 ∷ 5 ∷ 0 ∷ 23 ∷ (auth ++ 2 ∷ 3 ∷ 65 ∷ [])) d
display_response_example = display_response_total (3 ∷ 5 ∷ 0 ∷ 23 ∷ (auth ++ 2 ∷ 3 ∷ 65 ∷ []))

abbrev config_of : Bytes → Config
config_of name = record {
  username = name;
  password = pw;
  secret = secret;
  server = host;
  ca_path = [];
}

abbrev deaf : Logins
deaf = record {
  send_pap = λ config. ok [];
  send_chap = λ config. ok [];
  send_mschap = λ config. ok [];
  send_ttls = λ config. ok [];
  send_tacacs = λ config. ok tt;
}

complete : IsComplete (config_of bob)
complete = (λ e. cc, λ e. cc, λ e. cc)

abbrev typed : List Bytes
typed = codes "radius-cli" ∷ []

abbrev parser_of : Config → Parser
parser_of config args = some (no_flags, config)

no_help : ¬ HasHelp typed
no_help (inl e) = cc
no_help (inr (inl e)) = cc
no_help (inr (inr e)) = e

main-send_access_request_example :
    (IsRejected bob
      × (main (with_pap toy auth host deaf) (parser_of (config_of bob)) typed
          ≡ ok (displayed (display_of toy secret 3 auth message))))
    ⊎ ((¬ IsRejected bob)
        × (main (with_pap toy auth host deaf) (parser_of (config_of bob)) typed
            ≡ ok (displayed (display_of toy secret 2 auth []))))
main-send_access_request_example =
    main-send_access_request toy auth host deaf (parser_of (config_of bob)) typed (config_of bob)
      no_help refl complete refl (omega arith) (omega arith) (omega arith)

main_usage_example : ShowsUsage (main deaf (parser_of (config_of [])) typed) ↔ (
    HasHelp typed
    ⊎ ((flags : Flags) × (config : Config) × (parser_of (config_of []) typed ≡ some (flags, config))
        × (¬ IsComplete config)))
main_usage_example = main_usage deaf (parser_of (config_of [])) typed
