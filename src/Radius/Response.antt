-- ===== src/Radius/Response.antt =====
-- cmd/server/handler.go: `buildResponsePacket`.
pub mod Total
pub mod Encoded
use fakeradius.Base.{
  ℕ, ◌+◌, Bool, not, ◌||◌, [], ◌∷◌, ◌++◌, length, take, replicate, leb, ◌==◌, if◌then◌else◌, Result,
  ok, ◌>>=◌, ◌>>◌, bounds,
}
use fakeradius.Base.Bytes.{Bytes, slice, bytes_eq, u16, put_u16}
use fakeradius.Crypto.{Crypto}
use fakeradius.Radius.Attributes.{
  access_accept, reply_message_type, state_attribute_type, build_attribute, malformed,
}
use fakeradius.Radius.Walk.{Flow, halt, next, for_attributes}

-- The attributes to mirror: Proxy-State and State.
abbrev pub is_mirrored : ℕ → Bool
is_mirrored attr_type = attr_type == 33 || attr_type == state_attribute_type

abbrev pub mirror : Bytes → ℕ → ℕ → ℕ → Bytes → Result (Flow Bytes)
mirror request pos attr_type attr_len attributes =
    if malformed request pos attr_len
    then ok (halt attributes)
    else if is_mirrored attr_type
    then (do attr ← slice request pos (pos + attr_len); ok (next (attributes ++ attr)))
    else ok (next attributes)

-- `requestAuth`: zeros where the request is too short.
unfoldable pub request_authenticator : Bytes → Result Bytes
request_authenticator request =
    if leb 20 (length request) then slice request 4 20 else ok (replicate 16 0)

module _ (c : Crypto) where
  -- MD5(Code + ID + Length + RequestAuth + Attributes + Secret)
  unfoldable pub response_authenticator : ℕ → ℕ → ℕ → Bytes → Bytes → Bytes → Bytes
  response_authenticator code identifier len request_auth attributes secret =
      c.md5 (code ∷ identifier ∷ (put_u16 len ++ (request_auth ++ (attributes ++ secret))))

  -- The packet that is made for a total length: the slice `packet[4:20]` panics below 20, and the last
  -- copy stops at the end of the packet.
  unfoldable pub assemble : ℕ → ℕ → ℕ → Bytes → Bytes → Result Bytes
  assemble code identifier total_len resp_auth attributes = do
    bounds (leb 20 total_len)
    ok (take total_len (code ∷ identifier ∷ (put_u16 total_len ++ (resp_auth ++ attributes))))

  -- `buildResponsePacket`
  unfoldable pub build_response_packet : Bytes → Bytes → ℕ → ℕ → Bytes → Result Bytes
  build_response_packet request secret code identifier reply_message = do
    request_auth ← request_authenticator request
    if code == access_accept
        then (let auth = response_authenticator code identifier 20 request_auth [] secret in
            assemble code identifier 20 auth [])
        else (do
          mirrored ← for_attributes (mirror request) request (length request) 20 []
          let attributes =
              if not (bytes_eq reply_message [])
              then mirrored ++ build_attribute reply_message_type reply_message
              else mirrored
          let total_len = u16 (20 + length attributes)
          let auth = response_authenticator code identifier total_len request_auth attributes secret
          assemble code identifier total_len auth attributes)
