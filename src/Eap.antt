-- ===== src/Eap.antt =====
-- cmd/server/main.go: the EAP constants, `buildEAPPacket`, and the attributes of an EAP response.
pub mod Encoded
pub mod Session
pub mod Tls
pub mod Handle
pub mod Response
pub mod Phases
pub mod Sound
pub mod Dispatch
pub mod Outcome
pub mod Store
pub mod Reachable
pub mod Answered
pub mod Overlap
use fakeradius.Base.{
  ℕ, zero, suc, ◌+◌, ◌/◌, ◌%◌, ◌-◌, Bool, true, false, [], ◌∷◌, ◌++◌, length, take, drop, replicate,
  ltb, leb, ◌==◌, if◌then◌else◌, Result, ok, ◌>>=◌, ◌>>◌, bounds,
}
use fakeradius.Base.Bytes.{Bytes, u16, put_u16}
use fakeradius.Radius.Attributes.{eap_message_type, build_attribute}

abbrev pub eap_request : ℕ
eap_request = 1

abbrev pub eap_response : ℕ
eap_response = 2

abbrev pub eap_success : ℕ
eap_success = 3

abbrev pub eap_type_identity : ℕ
eap_type_identity = 1

abbrev pub e_type_ttls : ℕ
e_type_ttls = 21

abbrev pub ttls_flag_length : ℕ
ttls_flag_length = 128

abbrev pub ttls_flag_more : ℕ
ttls_flag_more = 64

abbrev pub ttls_flag_start : ℕ
ttls_flag_start = 32

abbrev pub access_challenge : ℕ
access_challenge = 11

-- `buildEAPPacket`: a type of zero is a packet of four bytes; the length wraps, and the writes at
-- `packet[0]` to `packet[4]` panic where it wraps below five.
unfoldable pub build_eap_packet : ℕ → ℕ → ℕ → Bytes → Result Bytes
build_eap_packet code id eap_type payload =
    if eap_type == 0 then ok (code ∷ id ∷ put_u16 4) else (do
      let n = u16 (4 + (1 + u16 (length payload)))
      bounds (leb 5 n)
      ok (take n (code ∷ id ∷ (put_u16 n ++ (eap_type ∷ payload)))))

-- `eapResp[0] == EAPSuccess`
abbrev pub is_success : Bytes → Bool
is_success [] = false
is_success (code ∷ _) = code == eap_success

-- The loop that splits an EAP message into attributes of 253 bytes, on fuel.
abbrev pub eap_chunks : ℕ → Bytes → Bytes
eap_chunks zero message = []
eap_chunks (suc fuel) [] = []
eap_chunks (suc fuel) (b ∷ message) =
    build_attribute eap_message_type (take 253 (b ∷ message))
    ++ eap_chunks fuel (drop 253 (b ∷ message))

-- A round takes at least one byte, so the message's length is fuel enough.
unfoldable pub eap_attributes : Bytes → Bytes
eap_attributes message = eap_chunks (length message) message

abbrev pub hex_digit : ℕ → ℕ
hex_digit n = if ltb n 10 then b'0' + n else 87 + n

-- The hexadecimal digits of a number, at most as many as the fuel.
abbrev pub hex : ℕ → ℕ → Bytes
hex zero n = []
hex (suc fuel) n = elim (ltb n 16) [
  | true ↦ hex_digit n ∷ []
  | false ↦ hex fuel (n / 16) ++ hex_digit (n % 16) ∷ []
]

abbrev pub padded : ℕ → Bytes → Bytes
padded width digits = replicate (width - length digits) b'0' ++ digits

-- `fmt.Sprintf("%02x%08x", eapID, time.Now().UnixNano())`, for a byte and a time that 64 bits hold.
unfoldable pub state_value : ℕ → ℕ → Bytes
state_value eap_id nanoseconds = padded 2 (hex 2 eap_id) ++ padded 8 (hex 16 nanoseconds)
