-- ===== src/Cli/Requests.antt =====
-- cmd/cli/radius-cli.go: the Access-Requests that the client sends. What it draws at random, the hostname
-- and the time are arguments.
pub mod Signed
pub mod Answers
pub mod Methods
pub mod Mschap
use fakeradius.Base.{
  ℕ, ◌+◌, [], ◌∷◌, ◌++◌, length, take, replicate, leb, ◌==◌, if◌then◌else◌, Result, ok, ◌>>=◌, ◌>>◌,
  bounds,
}
use fakeradius.Base.Bytes.{Bytes, u8, u16, put_u16}
use fakeradius.Cli.Password.{encrypt_password}
use fakeradius.Cli.Signature.{calculate_message_authenticator}
use fakeradius.Crypto.{Crypto}
use fakeradius.Radius.Attributes.{
  access_request, user_name_type, chap_challenge_type, chap_response_type,
  message_authenticator_type, build_attribute,
}
use fakeradius.Radius.Signature.{sixteen}

abbrev pub user_password_type : ℕ
user_password_type = 2

abbrev pub nas_ip_address_type : ℕ
nas_ip_address_type = 4

abbrev pub nas_identifier_type : ℕ
nas_identifier_type = 32

abbrev pub vendor_specific_type : ℕ
vendor_specific_type = 26

abbrev pub mschap_v2 : ℕ
mschap_v2 = 3

-- The end of the three requests: NAS-IP-Address 0.0.0.0 and the NAS-Identifier.
abbrev pub nas_attributes : Bytes → Bytes
nas_attributes hostname =
    build_attribute nas_ip_address_type (0 ∷ 0 ∷ 0 ∷ 0 ∷ [])
    ++ build_attribute nas_identifier_type hostname

-- `attributes` of `SendAccessRequest`, before the Message-Authenticator.
unfoldable pub pap_attributes : Crypto → Bytes → Bytes → Bytes → Bytes → Bytes → Bytes
pap_attributes c secret username password authenticator hostname =
    build_attribute user_name_type username
    ++ (build_attribute user_password_type (encrypt_password c password secret authenticator)
        ++ nas_attributes hostname)

-- `chapID`
unfoldable pub chap_id_at : ℕ → ℕ
chap_id_at nanoseconds = if u8 nanoseconds == 0 then 1 else u8 nanoseconds

-- `chapResponse`: the identifier and MD5(ID + Password + Challenge).
unfoldable pub chap_response_of : Crypto → ℕ → Bytes → Bytes → Bytes
chap_response_of c chap_id password challenge = chap_id ∷ c.md5 (chap_id ∷ (password ++ challenge))

-- `attributes` of `SendCHAPAccessRequest`
unfoldable pub chap_attributes : Crypto → ℕ → Bytes → Bytes → Bytes → Bytes → Bytes
chap_attributes c chap_id username password challenge hostname =
    build_attribute user_name_type username
    ++ (build_attribute chap_response_type (chap_response_of c chap_id password challenge)
        ++ (build_attribute chap_challenge_type challenge ++ nas_attributes hostname))

-- `mschapData`: PeerChallenge, Reserved, NT-Response and Flags.
abbrev pub mschap_content : Bytes → Bytes → Bytes
mschap_content peer_challenge nt_response =
    peer_challenge ++ (replicate 8 0 ++ (nt_response ++ 0 ∷ []))

-- `vendorData`
unfoldable pub mschap_vendor_data : Bytes → Bytes → Bytes → Bytes
mschap_vendor_data username peer_challenge nt_response =
    let content = mschap_content peer_challenge nt_response in
    0 ∷ 0 ∷ 1 ∷ 55 ∷ mschap_v2 ∷ 0 ∷ (put_u16 (u16 (4 + length content)) ++ (content ++ username))

-- `attributes` of `SendMSCHAPAccessRequest`
unfoldable pub mschap_attributes : Bytes → Bytes → Bytes → Bytes → Bytes
mschap_attributes username peer_challenge nt_response hostname =
    build_attribute user_name_type username
    ++ (build_attribute vendor_specific_type
          (mschap_vendor_data username peer_challenge nt_response)
        ++ nas_attributes hostname)

-- The packet header and the attributes; the slice `packet[4:20]` panics where the total length has wrapped
-- below 20, and the last copy stops at the end of the packet.
unfoldable pub request_packet : ℕ → Bytes → Bytes → Result Bytes
request_packet id authenticator attributes = do
  let total_len = u16 (20 + length attributes)
  bounds (leb 20 total_len)
  ok (
      take total_len
        (access_request ∷ id ∷ (put_u16 total_len ++ (sixteen authenticator ++ attributes))))

module _ (c : Crypto) (secret : Bytes) where
  -- The Message-Authenticator is computed over the length that the packet is going to have.
  unfoldable pub sign_request : ℕ → Bytes → Bytes → Result Bytes
  sign_request id authenticator attributes = do
    ma ←
        calculate_message_authenticator c access_request id (u16 (20 + length attributes + 18))
          authenticator secret attributes
    request_packet id authenticator (attributes ++ build_attribute message_authenticator_type ma)

  -- The packet goes to the server; of a response at most 4096 bytes are read.
  unfoldable pub exchange : (Bytes → Result Bytes) → ℕ → Bytes → Bytes → Result Bytes
  exchange peer id authenticator attributes = do
    packet ← sign_request id authenticator attributes
    response ← peer packet
    ok (take 4096 response)

  module _ (peer : Bytes → Result Bytes) (authenticator hostname username : Bytes) where
    -- `SendAccessRequest`
    unfoldable pub send_access_request : Bytes → Result Bytes
    send_access_request password =
        exchange peer 0 authenticator
          (pap_attributes c secret username password authenticator hostname)

    -- `SendCHAPAccessRequest`
    unfoldable pub send_chap_access_request : ℕ → Bytes → Bytes → Result Bytes
    send_chap_access_request nanoseconds challenge password =
        exchange peer 0 authenticator
          (chap_attributes c (chap_id_at nanoseconds) username password challenge hostname)

    -- `SendMSCHAPAccessRequest`; the password is not looked at.
    unfoldable pub send_mschap_access_request : Bytes → Bytes → Bytes → Result Bytes
    send_mschap_access_request peer_challenge nt_response password =
        exchange peer 0 authenticator
          (mschap_attributes username peer_challenge nt_response hostname)
