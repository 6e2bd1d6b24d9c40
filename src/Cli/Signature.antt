-- ===== src/Cli/Signature.antt =====
-- cmd/cli/radius-cli.go: `replaceOrAddMA` and `calculateMessageAuthenticator`, which are not the
-- functions of cmd/server/handler.go with these names.
pub mod Agrees
use fakeradius.Base.{
  ℕ, ◌+◌, not, [], ◌∷◌, ◌++◌, length, ltb, leb, ◌==◌, true, false, if◌then◌else◌, Result, ok, ◌>>=◌,
}
use fakeradius.Base.Bytes.{Bytes, slice}
use fakeradius.Crypto.{Crypto}
use fakeradius.Radius.Attributes.{message_authenticator_type, build_attribute}
use fakeradius.Radius.Signature.{Replaced, zero_ma, sixteen, auth_data}
use fakeradius.Radius.Walk.{Flow, halt, next, for_attributes}

-- An attribute that does not fit is left out, and so is what stands behind a length below 2.
abbrev pub replace_ma : Bytes → Bytes → ℕ → ℕ → ℕ → Replaced → Result (Flow Replaced)
replace_ma ma_attr attributes pos attr_type attr_len s =
    if ltb attr_len 2
    then ok (halt s)
    else if attr_type == message_authenticator_type
    then ok (next (record { result = s.result ++ ma_attr; found = true }))
    else if leb (pos + attr_len) (length attributes)
    then (do
      attr ← slice attributes pos (pos + attr_len)
      ok (next (record s { result = s.result ++ attr })))
    else ok (next s)

-- `replaceOrAddMA`
unfoldable pub replace_or_add_ma : Bytes → Bytes → Result Bytes
replace_or_add_ma attributes zeroed = do
  let ma_attr = build_attribute message_authenticator_type zeroed
  s ←
      for_attributes (replace_ma ma_attr attributes) attributes (length attributes) 0
        (record { result = []; found = false })
  ok (if not s.found then s.result ++ ma_attr else s.result)

-- `calculateMessageAuthenticator`
unfoldable pub calculate_message_authenticator :
    Crypto → ℕ → ℕ → ℕ → Bytes → Bytes → Bytes → Result Bytes
calculate_message_authenticator c code id len request_auth secret attributes = do
  zeroed ← replace_or_add_ma attributes zero_ma
  ok (c.hmac_md5 secret (auth_data code id len (sixteen request_auth) zeroed))
