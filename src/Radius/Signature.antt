-- ===== src/Radius/Signature.antt =====
-- cmd/server/handler.go: the Message-Authenticator attribute.
pub mod Replace
pub mod Total
pub mod Validate
pub mod RoundTrip
pub mod Last
use fakeradius.Base.{
  ℕ, ◌+◌, Bool, true, false, ◌&&◌, ◌||◌, not, [], ◌∷◌, ◌++◌, Option, none, some, length, take,
  replicate, ltb, ◌==◌, if◌then◌else◌, Result, ok, ◌>>=◌,
}
use fakeradius.Base.Bytes.{Bytes, at, slice, bytes_eq, put_u16, get_u16}
use fakeradius.Crypto.{Crypto}
use fakeradius.Radius.Attributes.{
  message_authenticator_type, build_attribute, has_message_authenticator, malformed,
}
use fakeradius.Radius.Walk.{Flow, halt, next, for_attributes_or, for_attributes}

abbrev pub zero_ma : Bytes
zero_ma = replicate 16 0

-- The loop's variables in `replaceOrAddMA`.
pub record Replaced : Type 0 where
  pub result : Bytes
  pub found : Bool

-- What is left from `pos` on is appended, and the loop left.
abbrev pub append_junk : Bytes → ℕ → Replaced → Result Replaced
append_junk attributes pos s = do
  junk ← slice attributes pos (length attributes)
  ok (record s { result = s.result ++ junk })

abbrev pub replace_ma : Bytes → Bytes → ℕ → ℕ → ℕ → Replaced → Result (Flow Replaced)
replace_ma ma_attr attributes pos attr_type attr_len s =
    if malformed attributes pos attr_len
    then (do s' ← append_junk attributes pos s; ok (halt s'))
    else if attr_type == message_authenticator_type
    then ok (next (record { result = s.result ++ ma_attr; found = true }))
    else (do
      attr ← slice attributes pos (pos + attr_len)
      ok (next (record s { result = s.result ++ attr })))

-- `replaceOrAddMA`
unfoldable pub replace_or_add_ma : Bytes → Bytes → Result Bytes
replace_or_add_ma attributes zeroed = do
  let ma_attr = build_attribute message_authenticator_type zeroed
  s ←
      for_attributes_or (append_junk attributes) (replace_ma ma_attr attributes) attributes
        (length attributes) (length attributes) 0 (record { result = []; found = false })
  ok (if not s.found then s.result ++ ma_attr else s.result)

-- `copy(authData[4:], authenticator)`, before the attributes are copied behind it: sixteen bytes.
abbrev pub sixteen : Bytes → Bytes
sixteen authenticator = take 16 (authenticator ++ replicate 16 0)

-- `authData` in the computations of the Message-Authenticator.
abbrev pub auth_data : ℕ → ℕ → ℕ → Bytes → Bytes → Bytes
auth_data code id len authenticator attributes =
    code ∷ id ∷ (put_u16 len ++ (authenticator ++ attributes))

-- The scan for the received value in `validateMessageAuthenticator`, up to the declared length.
abbrev pub take_ma : Bytes → ℕ → ℕ → ℕ → ℕ → Option Bytes → Result (Flow (Option Bytes))
take_ma packet len pos attr_type attr_len s =
    if ltb attr_len 2 || ltb len (pos + attr_len)
    then ok (halt s)
    else if attr_type == message_authenticator_type && attr_len == 18
    then (do value ← slice packet (pos + 2) (pos + 18); ok (halt (some value)))
    else ok (next s)

module _ (c : Crypto) where
  -- `calculateMessageAuthenticator`
  unfoldable pub calculate_message_authenticator : ℕ → ℕ → ℕ → Bytes → Bytes → Bytes → Result Bytes
  calculate_message_authenticator code id len authenticator secret attributes = do
    zeroed ← replace_or_add_ma attributes zero_ma
    ok (c.hmac_md5 secret (auth_data code id len (sixteen authenticator) zeroed))

  -- The part of `validateMessageAuthenticator` behind the loop.
  unfoldable pub check_ma : Bytes → Bytes → ℕ → Option Bytes → Result Bool
  check_ma packet secret len none = ok false
  check_ma packet secret len (some received_ma) = do
    attributes ← slice packet 20 len
    zeroed ← replace_or_add_ma attributes zero_ma
    code ← at packet 0
    id ← at packet 1
    authenticator ← slice packet 4 20
    ok (bytes_eq received_ma (c.hmac_md5 secret (auth_data code id len authenticator zeroed)))

  -- `validateMessageAuthenticator`, without the name of the algorithm, which is "md5" where an
  -- attribute was checked and found right.
  unfoldable pub validate_message_authenticator : Bytes → Bytes → Result Bool
  validate_message_authenticator packet secret = do
    present ← has_message_authenticator packet
    if not present then ok true else if ltb (length packet) 20 then ok false else (do
      hi ← at packet 2
      lo ← at packet 3
      let len = get_u16 hi lo
      if ltb (length packet) len || ltb len 20 then ok false else (do
        received_ma ← for_attributes (take_ma packet len) packet len 20 none
        check_ma packet secret len received_ma))
