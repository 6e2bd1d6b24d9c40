-- ===== src/Cli/Ttls.antt =====
-- cmd/cli/radius-cli.go: the EAP-TTLS login, of which the client does the first exchange. Reading the
-- certificate file and parsing it are parameters.
pub mod Start
use fakeradius.Base.{
  ℕ, ◌+◌, Bool, true, false, not, ◌||◌, [], ◌∷◌, ◌++◌, length, take, ltb, leb, ◌==◌, if◌then◌else◌,
  Result, ok, err, ◌>>=◌, ◌>>◌, bounds, guard, eap_message_not_found, ca_not_pem,
  ttls_start_expected,
}
use fakeradius.Base.Bytes.{Bytes, at, slice, bytes_eq, u16, put_u16}
use fakeradius.Cli.Requests.{exchange}
use fakeradius.Crypto.{Crypto}
use fakeradius.Radius.Attributes.{user_name_type, eap_message_type, malformed, build_attribute}
use fakeradius.Radius.Walk.{Flow, halt, next, for_attributes}

abbrev pub eap_response : ℕ
eap_response = 2

abbrev pub eap_type_identity : ℕ
eap_type_identity = 1

abbrev pub eap_type_ttls : ℕ
eap_type_ttls = 21

-- The client's `buildEAPPacket`.
unfoldable pub build_eap_packet : ℕ → ℕ → ℕ → Bytes → Result Bytes
build_eap_packet code id eap_type payload =
    if eap_type == 0 then ok (code ∷ id ∷ put_u16 4) else (do
      let n = u16 (4 + (1 + u16 (length payload)))
      bounds (leb 5 n)
      ok (take n (code ∷ id ∷ (put_u16 n ++ (eap_type ∷ payload)))))

-- A round of the client's `extractEAPMessage`.
abbrev pub append_eap : Bytes → ℕ → ℕ → ℕ → Bytes → Result (Flow Bytes)
append_eap packet pos attr_type attr_len eap_data =
    if malformed packet pos attr_len
    then ok (halt eap_data)
    else if attr_type == eap_message_type
    then (do value ← slice packet (pos + 2) (pos + attr_len); ok (next (eap_data ++ value)))
    else ok (next eap_data)

-- The client's `extractEAPMessage`.
unfoldable pub extract_eap_message : Bytes → Result Bytes
extract_eap_message packet = do
  eap_data ← for_attributes (append_eap packet) packet (length packet) 20 []
  if length eap_data == 0 then err eap_message_not_found else ok eap_data

module _ (read_file : Bytes → Result Bytes) (append_certs_from_pem : Bytes → Bool) where
  -- `loadCACertPool`, for the certificates that are read.
  unfoldable pub load_ca_cert_pool : Bytes → Result Bytes
  load_ca_cert_pool ca_path = do
    ca_cert ← read_file ca_path
    guard (append_certs_from_pem ca_cert) ca_not_pem
    ok ca_cert

  -- `getTLSConfig`, for the certificates of `RootCAs`.
  unfoldable pub get_tls_config : Bytes → Result Bytes
  get_tls_config ca_path = if not (bytes_eq ca_path []) then load_ca_cert_pool ca_path else ok []

  module _ (c : Crypto) (secret : Bytes) (peer : Bytes → Result Bytes) (username : Bytes) where
    -- `exchangeEAP`
    unfoldable pub exchange_eap : Bytes → Bytes → ℕ → Result Bytes
    exchange_eap eap_data authenticator id =
        exchange c secret peer id authenticator
          (build_attribute user_name_type username ++ build_attribute eap_message_type eap_data)

    -- `SendTTLSAccessRequest`, with the printed report: whether it says "TRUSTED".
    unfoldable pub send_ttls_access_request : Bytes → Bytes → Result (Bytes × Bool)
    send_ttls_access_request ca_path authenticator = do
      eap_identity ← build_eap_packet eap_response 1 eap_type_identity username
      response ← exchange_eap eap_identity authenticator 0
      eap ← extract_eap_message response
      guard (not (ltb (length eap) 5)) ttls_start_expected
      eap_type ← at eap 4
      guard (eap_type == eap_type_ttls) ttls_start_expected
      _ ← get_tls_config ca_path
      ok (response, not (bytes_eq ca_path []))
