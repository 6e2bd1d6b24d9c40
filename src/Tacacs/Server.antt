-- ===== src/Tacacs/Server.antt =====
-- pkg/tacacs/server.go: `handleConnection`. A connection is the bytes that the peer sends before it
-- closes its side, and for each response whether the write of it succeeds.
pub mod Respond
pub mod Packet
pub mod Round
pub mod Session
pub mod Pipeline
use fakeradius.Base.{
  ℕ, zero, suc, ◌+◌, Bool, true, false, List, [], ◌∷◌, ◌++◌, length, take, drop, ltb, ◌==◌,
  if◌then◌else◌, bit_and, Error, Result, ok, err, panic, stuck, ◌>>=◌, unsupported_packet_type,
}
use fakeradius.Base.Bytes.{Bytes, u8, u32}
use fakeradius.Crypto.{Crypto}
use fakeradius.Tacacs.Authen.{decode_authen_start, process_authen_start, encode_authen_reply}
use fakeradius.Tacacs.Author.{decode_author_request, process_author_request, encode_author_response}
use fakeradius.Tacacs.Crypt.{crypt_payload}
use fakeradius.Tacacs.Header.{
  Header, header_len, type_authen, type_author, flag_single_connect, decode_header, encode_header,
}

-- Why the handler of a connection returned. `out_of_fuel` is no outcome of the source.
pub data Close : Type 0 where
  end_of_input header_read_failed body_read_failed send_failed served : Close
  refused : Error → Close
  crashed out_of_fuel : Close

pub record Trace : Type 0 where
  pub sent : List Bytes
  pub close : Close

abbrev pub closes : Close → Trace
closes why = record { sent = []; close = why }

-- The header of a response, for either packet type.
unfoldable pub response_header : Header → ℕ → Bytes → Header
response_header hdr type body = record {
  version = hdr.version;
  type = type;
  seq_no = u8 (hdr.seq_no + 1);
  flags = hdr.flags;
  session_id = hdr.session_id;
  length = u32 (length body);
}

-- The `switch hdr.Type`.
unfoldable pub respond : Header → Bytes → Result (Header × Bytes)
respond hdr body =
    if hdr.type == type_authen
    then (do
      start ← decode_authen_start body
      resp_body ← encode_authen_reply (process_authen_start start)
      ok (response_header hdr type_authen resp_body, resp_body))
    else if hdr.type == type_author
    then (do
      req ← decode_author_request body
      resp_body ← encode_author_response (process_author_request req)
      ok (response_header hdr type_author resp_body, resp_body))
    else err unsupported_packet_type

module _ (c : Crypto) (secret : Bytes) where
  -- From the de-obfuscation of the body to the packet that is written.
  unfoldable pub serve_packet : Header → Bytes → Result Bytes
  serve_packet hdr body_buf = do
    body ← crypt_payload c hdr body_buf secret
    (resp_header, resp_body) ← respond hdr body
    encrypted ← crypt_payload c resp_header resp_body secret
    ok (encode_header resp_header ++ encrypted)

  -- The loop of `handleConnection`: `writes n` tells whether the write of response `n` succeeds.
  unfoldable pub handle_connection : (ℕ → Bool) → ℕ → ℕ → Bytes → Trace
  handle_connection writes zero n incoming = closes Close.out_of_fuel
  handle_connection writes (suc fuel) n incoming = elim (ltb (length incoming) header_len) [
    | true ↦ closes (if length incoming == 0 then Close.end_of_input else Close.header_read_failed)
    | false ↦ elim (decode_header (take header_len incoming)) [
      | err e ↦ closes (Close.refused e)
      | panic ↦ closes Close.crashed
      | stuck ↦ closes Close.out_of_fuel
      | ok hdr ↦
          let rest = drop header_len incoming in
          elim (ltb (length rest) hdr.length) [
            | true ↦ closes Close.body_read_failed
            | false ↦ elim (serve_packet hdr (take hdr.length rest)) [
              | err e ↦ closes (Close.refused e)
              | panic ↦ closes Close.crashed
              | stuck ↦ closes Close.out_of_fuel
              | ok packet ↦ elim (writes n) [
                | false ↦ closes Close.send_failed
                | true ↦ elim (bit_and hdr.flags flag_single_connect == 0) [
                  | true ↦ record { sent = packet ∷ []; close = Close.served }
                  | false ↦
                      let later = handle_connection writes fuel (n + 1) (drop hdr.length rest) in
                      record { sent = packet ∷ later.sent; close = later.close }
                ]
              ]
            ]
          ]
    ]
  ]
