-- ===== src/Tests/Tacacs.antt =====
-- Concrete inputs at which the theorems on TACACS+ apply.
use fakeradius.Base.{
  ℕ, ◌+◌, ◌/◌, ◌^◌, ◌≤◌, ◌<◌, ◌≡◌, ◌≢◌, ◌↔◌, ◌⊎◌, inl, inr, refl, arith, Bool, true, false, List,
  [], ◌∷◌, ◌++◌, take, length, ltb, ltb→lt, Bool-cases, ok, err, if◌then◌else◌, header_too_short,
  unsupported_major_version, authen_start_too_short, authen_start_length,
}
use fakeradius.Base.Bytes.{Bytes, AreBytes, codes, at, slice, put_u16, put_u32, bytes_eq}
use fakeradius.Tacacs.Client.{send_tacacs_authen_request}
use fakeradius.Tacacs.Client.Exchange.{server_of, send_tacacs_authen_request_lem}
use fakeradius.Tacacs.Server.{serve_packet, respond, response_header, handle_connection}
use fakeradius.Tacacs.Authen.{
  decode_authen_start, process_authen_start, encode_authen_reply, has_no_prefix,
}
use fakeradius.Tacacs.Header.{read_u32}
use fakeradius.Tacacs.Server.{Close}
use fakeradius.Tacacs.Server.Pipeline.{Request, request_bytes, IsKept, handle_connection_kept}
use fakeradius.Tacacs.Server.Session.{Ends, handle_connection-Ends}
use fakeradius.Tacacs.Server.Packet.{Served, serve_packet_total}
use fakeradius.Tests.{toy, secret, secret-≢, bob, pw}
use fakeradius.Tacacs.Crypt.{crypt_payload}
use fakeradius.Tacacs.Crypt.Involution.{crypt_payload_twice}
use fakeradius.Tacacs.Header.{
  Header, decode_header, encode_header, IsHeader, header_len, major_ver12,
}
use fakeradius.Tacacs.Authen.{AuthenStart}
use fakeradius.Tacacs.Authen.Codec.{head, whole, parts, decode_authen_start_total}
use fakeradius.Tacacs.Authen.Decide.{IsRejected, process_authen_start_lem}
use fakeradius.Tacacs.Author.Codec
use fakeradius.Tacacs.Author.Total.{Refused, decode_author_request_total}
use fakeradius.Tacacs.Author.{decode_author_request}
use fakeradius.Tacacs.Header.{
  authen_type_ascii, authen_status_pass, authen_status_fail, authen_status_get_user,
}
use fakeradius.Tacacs.Header.Codec.{
  decode_header-encode_header, encode_header-decode_header, decode_header_total,
}

abbrev header : Header
header = record { version = 192; type = 1; seq_no = 1; flags = 0; session_id = 7; length = 3 }

header-IsHeader : IsHeader header
header-IsHeader = record {
  version_lt = omega arith;
  type_lt = omega arith;
  seq_no_lt = omega arith;
  flags_lt = omega arith;
  session_id_lt = omega arith;
  length_lt = omega arith;
}

crypt_payload_twice_example :
    (body : Bytes) × (crypt_payload toy header bob secret ≡ ok body)
    × (length body ≡ length bob)
    × (crypt_payload toy header body secret ≡ ok bob)
crypt_payload_twice_example = crypt_payload_twice toy header secret bob (inl secret-≢)

send_tacacs_authen_request_example :
    send_tacacs_authen_request toy secret (server_of toy secret (λ _. true) 0) (codes "no_bob") pw
    ≡ ok (record { status = 2; session_id = 1001; msg = codes "User not allowed" })
unfolding process_authen_start bytes_eq has_no_prefix
send_tacacs_authen_request_example =
    send_tacacs_authen_request_lem toy secret (codes "no_bob") pw (omega arith) (omega arith)
      (λ _. true) 0 secret-≢ refl

abbrev start_bob : Bytes
start_bob = 1 ∷ 1 ∷ 1 ∷ 1 ∷ 3 ∷ 0 ∷ 0 ∷ 0 ∷ bob

-- Whether all numbers are bytes.
abbrev all_bytes : Bytes → Bool
all_bytes [] = true
all_bytes (b ∷ bs) = if ltb b 256 then all_bytes bs else false

AreBytes-all_bytes : (bs : Bytes) → all_bytes bs ≡ true → AreBytes bs
AreBytes-all_bytes [] h = tt
AreBytes-all_bytes (b ∷ bs) h = elim (Bool-cases (ltb b 256)) [
  | inl small ↦
      let rest : all_bytes bs ≡ true = rw small at h in
      (ltb→lt b 256 small, AreBytes-all_bytes bs rest)
  | inr big ↦ let never : false ≡ true = rw big at h in cc
]

start_bob-AreBytes : AreBytes start_bob
start_bob-AreBytes = AreBytes-all_bytes start_bob refl

abbrev passed : Bytes
passed =
    192
    ∷ 1
    ∷ 2
    ∷ 5
    ∷ 0
    ∷ 0
    ∷ 0
    ∷ 7
    ∷ 0
    ∷ 0
    ∷ 0
    ∷ 31
    ∷ 1
    ∷ 0
    ∷ 0
    ∷ 25
    ∷ 0
    ∷ 0
    ∷ codes "Authentication successful"

abbrev kept_header : Header
kept_header = record { version = 192; type = 1; seq_no = 1; flags = 5; session_id = 7; length = 11 }

kept_answer : serve_packet toy secret kept_header start_bob ≡ ok passed
unfolding serve_packet crypt_payload respond decode_authen_start process_authen_start
    encode_authen_reply put_u16 put_u32 at slice read_u32 encode_header response_header
    has_no_prefix bytes_eq
kept_answer = refl

abbrev kept_request : Request
kept_request = record { header = kept_header; body = start_bob; answer = passed }

kept_request-IsKept : IsKept toy secret kept_request
kept_request-IsKept = (
  record {
    fits = record {
      version_lt = omega arith;
      type_lt = omega arith;
      seq_no_lt = omega arith;
      flags_lt = omega arith;
      session_id_lt = omega arith;
      length_lt = omega arith;
    };
    major = refl;
    announced = refl;
    answered = kept_answer;
  },
  λ e. absurd (omega arith),
)

handle_connection_kept_example :
    handle_connection toy secret (λ _. true) 2 0 (request_bytes kept_request ++ [])
    ≡ record { sent = passed ∷ []; close = Close.end_of_input }
unfolding handle_connection encode_header
handle_connection_kept_example =
    handle_connection_kept toy secret (λ _. true) (kept_request ∷ []) 2 1 0 1 [] refl refl
      (kept_request-IsKept, tt) (λ _. refl) _ refl

handle_connection-Ends_example : Ends (handle_connection toy secret (λ _. false) 12 0 start_bob)
handle_connection-Ends_example =
    handle_connection-Ends toy secret (λ _. false) 12 0 start_bob (start_bob-AreBytes) (omega arith)

serve_packet_total_example : Served toy secret kept_header start_bob
serve_packet_total_example = serve_packet_total toy secret kept_header start_bob start_bob-AreBytes

decode_header-encode_header_example : decode_header (encode_header header ++ bob) ≡ ok header
decode_header-encode_header_example = decode_header-encode_header header bob header-IsHeader refl

encode_header-decode_header_example :
    (encode_header header ≡ take header_len (encode_header header ++ bob))
    × (header.version / 2 ^ 4 ≡ major_ver12)
    × IsHeader header
unfolding encode_header put_u32
encode_header-decode_header_example =
    encode_header-decode_header (encode_header header ++ bob) header
      (AreBytes-all_bytes (encode_header header ++ bob) refl)
      (decode_header-encode_header header bob header-IsHeader refl)

decode_header_total_example :
    ((length start_bob < header_len) × (decode_header start_bob ≡ err header_too_short))
    ⊎ ((header_len ≤ length start_bob)
        × ((v : ℕ) × (at start_bob 0 ≡ ok v)
            × (v / 2 ^ 4 ≢ major_ver12)
            × (decode_header start_bob ≡ err unsupported_major_version)))
    ⊎ ((header_len ≤ length start_bob)
        × ((v : ℕ) × (h : Header) × (at start_bob 0 ≡ ok v)
            × (v / 2 ^ 4 ≡ major_ver12)
            × (decode_header start_bob ≡ ok h)))
decode_header_total_example = decode_header_total start_bob

decode_authen_start_total_example :
    ((length start_bob < 8) × (decode_authen_start start_bob ≡ err authen_start_too_short))
    ⊎ ((a b c d u p r n : ℕ) × (rest : Bytes) × (start_bob ≡ head a b c d u p r n ++ rest)
        × (length rest < u + p + r + n)
        × (decode_authen_start start_bob ≡ err authen_start_length))
    ⊎ ((a b c d : ℕ) × (user port rem_addr content junk : Bytes) × (start_bob
          ≡ whole a b c d user port rem_addr content junk)
        × (decode_authen_start start_bob ≡ ok (parts a b c d user port rem_addr content junk)))
decode_authen_start_total_example = decode_authen_start_total start_bob

decode_author_request_total_example :
    Refused start_bob
    ⊎ ((a b c d : ℕ) × (user port rem_addr : Bytes) × (args : List Bytes) × (junk : Bytes)
        × (start_bob ≡ Codec.whole a b c d user port rem_addr args junk)
        × (decode_author_request start_bob ≡ ok (Codec.parts a b c d user port rem_addr args junk)))
decode_author_request_total_example = decode_author_request_total start_bob

abbrev started : AuthenStart
started = parts 1 1 1 1 bob [] [] [] []

process_authen_start_example :
    ((process_authen_start started).status ≡ authen_status_fail ↔ IsRejected started.user)
    × ((process_authen_start started).status ≡ authen_status_get_user
        ↔ (started.user ≡ []) × (started.authen_type ≡ authen_type_ascii))
    × ((process_authen_start started).status ≡ authen_status_pass
        ↔ (¬ IsRejected started.user)
          × ((started.user ≢ []) ⊎ (started.authen_type ≢ authen_type_ascii)))
process_authen_start_example = process_authen_start_lem started
