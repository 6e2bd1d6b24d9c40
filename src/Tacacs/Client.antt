-- ===== src/Tacacs/Client.antt =====
-- cmd/cli/tacacs_client.go: `SendTACACSAuthenRequest`, on a connection whose peer answers the bytes
-- written with the bytes that it sends back. Failures to connect or to write are not modelled.
pub mod Exchange
use fakeradius.Base.{
  ℕ, ◌+◌, ◌-◌, [], ◌∷◌, ◌++◌, length, take, drop, not, ltb, leb, if◌then◌else◌, Result, ok, ◌>>=◌,
  ◌>>◌, guard, reply_too_short, read_failed,
}
use fakeradius.Base.Bytes.{Bytes, at, slice, codes, u8, u16, u32, get_u16}
use fakeradius.Crypto.{Crypto}
use fakeradius.Tacacs.Crypt.{crypt_payload}
use fakeradius.Tacacs.Header.{
  Header, header_len, version120, type_authen, authen_action_login, authen_type_ascii,
  authen_service_login, decode_header, encode_header,
}

abbrev pub port_bytes : Bytes
port_bytes = codes "tty1"

abbrev pub rem_addr_bytes : Bytes
rem_addr_bytes = codes "127.0.0.1"

-- `startBody`
unfoldable pub start_body : Bytes → Bytes → Bytes
start_body user pass =
    authen_action_login
    ∷ 1
    ∷ authen_type_ascii
    ∷ authen_service_login
    ∷ u8 (length user)
    ∷ u8 (length port_bytes)
    ∷ u8 (length rem_addr_bytes)
    ∷ u8 (length pass)
    ∷ (user ++ (port_bytes ++ (rem_addr_bytes ++ pass)))

-- `hdr`
unfoldable pub request_header : Bytes → Header
request_header body = record {
  version = version120;
  type = type_authen;
  seq_no = 1;
  flags = 0;
  session_id = 1001;
  length = u32 (length body);
}

-- What the client prints of the reply.
pub record Reply : Type 0 where
  pub status : ℕ
  pub session_id : ℕ
  pub msg : Bytes

-- What the client makes of the de-obfuscated body. The sum `6+msgLen` is of type uint16.
unfoldable pub read_reply_body : ℕ → Bytes → Result Reply
unfolding at
read_reply_body session_id body = do
  guard (not (ltb (length body) 6)) reply_too_short
  status ← at body 0
  hi ← at body 2
  lo ← at body 3
  let msg_len = get_u16 hi lo
  msg ← if leb msg_len (length body - 6) then slice body 6 (u16 (6 + msg_len)) else ok []
  ok (record { status = status; session_id = session_id; msg = msg })

module _ (c : Crypto) (secret : Bytes) where
  -- The packet that is written.
  unfoldable pub authen_request : Bytes → Bytes → Result Bytes
  authen_request user pass = do
    let body = start_body user pass
    encrypted ← crypt_payload c (request_header body) body secret
    ok (encode_header (request_header body) ++ encrypted)

  -- From the read of the response header on.
  unfoldable pub read_reply : Bytes → Result Reply
  read_reply incoming = do
    guard (not (ltb (length incoming) header_len)) read_failed
    hdr ← decode_header (take header_len incoming)
    let rest = drop header_len incoming
    guard (not (ltb (length rest) hdr.length)) read_failed
    body ← crypt_payload c hdr (take hdr.length rest) secret
    read_reply_body hdr.session_id body

  -- `SendTACACSAuthenRequest`; `peer` is what the server sends back.
  unfoldable pub send_tacacs_authen_request : (Bytes → Bytes) → Bytes → Bytes → Result Reply
  send_tacacs_authen_request peer username password = do
    packet ← authen_request username password
    read_reply (peer packet)
