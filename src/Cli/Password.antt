-- ===== src/Cli/Password.antt =====
-- cmd/cli/radius-cli.go: `encryptPassword`.
pub mod Decrypt
use fakeradius.Base.{ℕ, zero, suc, ◌+◌, ◌-◌, ◌*◌, ◌/◌, [], ◌++◌, length, take, drop, replicate}
use fakeradius.Base.Bytes.{Bytes}
use fakeradius.Crypto.{Crypto}
use fakeradius.Radius.Signature.{sixteen}
use fakeradius.Tacacs.Crypt.{xor_pad}

-- The blocks of sixteen bytes of the padded password.
abbrev pub password_blocks : Bytes → ℕ
password_blocks password = (length password + 15) / 16

-- `padded`
abbrev pub pad_password : Bytes → Bytes
pad_password password = password ++ replicate (password_blocks password * 16 - length password) 0

-- The outer loop, on what is left of `padded` from `i` on; `chained` is what stands behind the secret in
-- `hashInput`.
unfoldable pub encrypt_blocks : Crypto → Bytes → ℕ → Bytes → Bytes → Bytes
unfolding xor_pad
encrypt_blocks c secret zero padded chained = []
encrypt_blocks c secret (suc blocks) padded chained =
    let block = xor_pad (take 16 padded) (c.md5 (secret ++ chained)) in
    block ++ encrypt_blocks c secret blocks (drop 16 padded) block

-- `encryptPassword`
unfoldable pub encrypt_password : Crypto → Bytes → Bytes → Bytes → Bytes
encrypt_password c password secret authenticator =
    encrypt_blocks c secret (password_blocks password) (pad_password password)
      (sixteen authenticator)
