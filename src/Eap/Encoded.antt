-- ===== src/Eap/Encoded.antt =====
-- `buildEAPPacket` of cmd/server/main.go and of cmd/cli/radius-cli.go makes RFC 3748 packets.
use fakeradius.Base.{
  ℕ, ◌+◌, ◌≤◌, ◌≡◌, ap, arith, false, ◌∷◌, ◌++◌, length, take_all, le→leb, ◌==◌, ok, length-append,
}
use fakeradius.Base.Bytes.{Bytes, u16, put_u16, length-put_u16}
use fakeradius.Eap.{build_eap_packet}

-- RFC 3748 §4: code, identifier, the length of the whole, type and type-data.
abbrev pub eap_packet : ℕ → ℕ → ℕ → Bytes → Bytes
eap_packet code id eap_type payload =
    code ∷ id ∷ (put_u16 (5 + length payload) ++ (eap_type ∷ payload))

pub length-eap_packet :
    (code id eap_type : ℕ) (payload : Bytes)
    → length (eap_packet code id eap_type payload) ≡ 5 + length payload
length-eap_packet code id eap_type payload = omega (
  arith,
  length-append (put_u16 (5 + length payload)) (eap_type ∷ payload),
  length-put_u16 (5 + length payload),
)

-- A packet with a type other than zero and data of up to 65530 bytes has the layout of RFC 3748.
pub build_eap_packet_lem :
    (code id eap_type : ℕ) (payload : Bytes)
    → (eap_type == 0) ≡ false
    → length payload ≤ 65530
    → build_eap_packet code id eap_type payload ≡ ok (eap_packet code id eap_type payload)
unfolding build_eap_packet
build_eap_packet_lem code id eap_type payload typed small =
    let e : u16 (4 + (1 + u16 (length payload))) ≡ 5 + length payload = omega arith in
    rw (typed, e, le→leb 5 (5 + length payload) (omega arith))
      (ap ok (
        take_all (5 + length payload) (eap_packet code id eap_type payload)
          (omega (arith, length-eap_packet code id eap_type payload))))
