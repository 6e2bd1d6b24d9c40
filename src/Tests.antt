-- ===== src/Tests.antt =====
-- Concrete inputs at which the theorems apply, with a digest that only counts.
mod Tacacs
mod Radius
mod Cli
mod Eap
use fakeradius.Base.{
  ℕ, zero, suc, ◌+◌, ◌*◌, ◌/◌, ◌%◌, ◌^◌, ◌≤◌, ◌<◌, ◌≡◌, ◌≢◌, ◌↔◌, ◌⊎◌, inl, inr, refl, sym, ap, ◌∙◌,
  arith, Bool, true, false, List, [], ◌∷◌, ◌++◌, map, concat, take, Option, none, some, length,
  replicate, ltb, ltb→lt, Bool-cases, ◌==◌, Result, ok, err, panic, All, length-replicate,
  if◌then◌else◌, bit_and, eap_message_not_found, user_name_not_found, mschap_length,
}
use fakeradius.Base.Bytes.{Bytes, AreBytes, codes, at, slice, put_u16, put_u32, bytes_eq}
use fakeradius.Crypto.{Crypto}
use fakeradius.Tacacs.Client.{send_tacacs_authen_request, Reply}
use fakeradius.Tacacs.Client.Exchange.{server_of, send_tacacs_authen_request_lem}
use fakeradius.Tacacs.Server.{serve_packet, respond, response_header, handle_connection}
use fakeradius.Tacacs.Authen.{
  decode_authen_start, process_authen_start, encode_authen_reply, has_no_prefix,
}
use fakeradius.Tacacs.Header.{read_u32}
use fakeradius.Tacacs.Server.{Trace, Close}
use fakeradius.Tacacs.Server.Pipeline.{Request, request_bytes, IsKept, handle_connection_kept}
use fakeradius.Tacacs.Server.Session.{Ends, handle_connection-Ends}
use fakeradius.Tacacs.Server.Packet.{Served, serve_packet_total}
use fakeradius.Tacacs.Crypt.{crypt_payload}
use fakeradius.Tacacs.Crypt.Involution.{crypt_payload_twice}
use fakeradius.Tacacs.Header.{
  Header, decode_header, encode_header, IsHeader, flag_unencrypted, header_len, major_ver12,
}

AreBytes-replicate : (n b : ℕ) → b < 256 → AreBytes (replicate n b)
AreBytes-replicate zero b h = tt
AreBytes-replicate (suc n) b h = (h, AreBytes-replicate n b h)

abbrev count : Bytes → Bytes
count data' = replicate 16 (length data' % 256)

abbrev toy : Crypto
toy = record {
  md5 = count;
  hmac_md5 = λ key data'. count (key ++ data');
  length-md5 = λ data'. length-replicate 16 (length data' % 256);
  md5-AreBytes = λ data'. AreBytes-replicate 16 (length data' % 256) (omega arith);
  length-hmac_md5 = λ key data'. length-replicate 16 (length (key ++ data') % 256);
}

abbrev secret : Bytes
secret = codes "key"

secret-≢ : secret ≢ []
secret-≢ e = cc

abbrev bob : Bytes
bob = codes "bob"

abbrev pw : Bytes
pw = codes "pw"
