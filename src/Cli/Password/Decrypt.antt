-- ===== src/Cli/Password/Decrypt.antt =====
-- `encryptPassword` of cmd/cli/radius-cli.go is undone by the decryption of RFC 2865 §5.2.
use fakeradius.Base.{
  ℕ, zero, suc, ◌+◌, ◌-◌, ◌*◌, ◌≡◌, sym, ap, ap₂, ◌∙◌, arith, [], ◌++◌, append-nil, length, take,
  drop, replicate, length-append, length-replicate, length-take, length-drop, take-append,
  drop-append, take-append-drop, eq-nil_of_length,
}
use fakeradius.Base.Bytes.{Bytes}
use fakeradius.Cli.Password.{password_blocks, pad_password, encrypt_blocks, encrypt_password}
use fakeradius.Crypto.{Crypto}
use fakeradius.Radius.Signature.{sixteen}
use fakeradius.Tacacs.Crypt.Involution.{length-xor_pad, xor_pad_twice}
use fakeradius.Tacacs.Crypt.{xor_pad}

-- p(i) = c(i) xor MD5(S + c(i-1)), where c(0) is the Request Authenticator.
abbrev pub decrypt_blocks : Crypto → Bytes → ℕ → Bytes → Bytes → Bytes
decrypt_blocks c secret zero cipher chained = []
decrypt_blocks c secret (suc blocks) cipher chained =
    xor_pad (take 16 cipher) (c.md5 (secret ++ chained))
    ++ decrypt_blocks c secret blocks (drop 16 cipher) (take 16 cipher)

module _ (c : Crypto) (secret : Bytes) where
  module _ (chained block : Bytes) (full : length block ≡ 16) where
    abbrev pad : Bytes
    pad = c.md5 (secret ++ chained)

    drop-block : drop (length pad) block ≡ []
    drop-block =
        eq-nil_of_length _
          (omega (arith, length-drop (length pad) block, c.length-md5 (secret ++ chained)))

    length-xor_block : length (xor_pad block pad) ≡ 16
    length-xor_block =
        ap length (sym (append-nil (xor_pad block pad)))
        ∙ length-xor_pad block pad [] (ap length (sym drop-block))
        ∙ full

    xor_block_twice : xor_pad (xor_pad block pad) pad ≡ block
    xor_block_twice =
        let e = xor_pad_twice block pad [] (ap length (sym drop-block)) in
        sym (append-nil (xor_pad (xor_pad block pad) pad))
        ∙ ap₂ (λ x y. xor_pad x pad ++ y) (sym (append-nil (xor_pad block pad))) (sym drop-block)
        ∙ e

  full_block :
      (blocks : ℕ) (padded : Bytes) → length padded ≡ suc blocks * 16 → length (take 16 padded) ≡ 16
  full_block blocks padded h = omega (arith, length-take 16 padded)

  less_block :
      (blocks : ℕ) (padded : Bytes)
      → length padded ≡ suc blocks * 16
      → length (drop 16 padded) ≡ blocks * 16
  less_block blocks padded h = omega (arith, length-drop 16 padded)

  length-encrypt_blocks :
      (blocks : ℕ) (padded chained : Bytes)
      → length padded ≡ blocks * 16
      → length (encrypt_blocks c secret blocks padded chained) ≡ blocks * 16
  unfolding encrypt_blocks
  length-encrypt_blocks zero padded chained h = omega arith
  length-encrypt_blocks (suc blocks) padded chained h =
      let full = full_block blocks padded h in
      let block = xor_pad (take 16 padded) (c.md5 (secret ++ chained)) in
      omega (
        arith,
        length-append block (encrypt_blocks c secret blocks (drop 16 padded) block),
        length-xor_block chained (take 16 padded) full,
        length-encrypt_blocks blocks (drop 16 padded) block (less_block blocks padded h),
      )

  decrypt_blocks-encrypt_blocks :
      (blocks : ℕ) (padded chained : Bytes)
      → length padded ≡ blocks * 16
      → decrypt_blocks c secret blocks (encrypt_blocks c secret blocks padded chained) chained
        ≡ padded
  unfolding encrypt_blocks
  decrypt_blocks-encrypt_blocks zero padded chained h = sym (eq-nil_of_length padded (omega arith))
  decrypt_blocks-encrypt_blocks (suc blocks) padded chained h =
      let full = full_block blocks padded h in
      let block = xor_pad (take 16 padded) (c.md5 (secret ++ chained)) in
      let rest = encrypt_blocks c secret blocks (drop 16 padded) block in
      let size = sym (length-xor_block chained (take 16 padded) full) in
      rw
        (
          take-append 16 block rest size,
          drop-append 16 block rest size,
          xor_block_twice chained (take 16 padded) full,
          decrypt_blocks-encrypt_blocks blocks (drop 16 padded) block (less_block blocks padded h),
        )
        (take-append-drop 16 padded)

  length-pad_password :
      (password : Bytes) → length (pad_password password) ≡ password_blocks password * 16
  length-pad_password password = omega (
    arith,
    length-append password (replicate (password_blocks password * 16 - length password) 0),
    length-replicate (password_blocks password * 16 - length password) (◌+◌ 0 0),
  )

  module _ (password authenticator : Bytes) (size : length authenticator ≡ 16) where
    -- The value has the length of the password, rounded up to sixteen bytes.
    pub length-encrypt_password :
        length (encrypt_password c password secret authenticator) ≡ password_blocks password * 16
    unfolding encrypt_password
    length-encrypt_password =
        length-encrypt_blocks (password_blocks password) (pad_password password)
          (sixteen authenticator) (length-pad_password password)

    -- For an authenticator of sixteen bytes the decryption of RFC 2865 §5.2 under the same secret and
    -- authenticator gives back the password and zeros that fill it up to a multiple of sixteen bytes.
    pub decrypt_blocks-encrypt_password :
        decrypt_blocks c secret
          (password_blocks password)
          (encrypt_password c password secret authenticator)
          authenticator
        ≡ pad_password password
    unfolding encrypt_password
    decrypt_blocks-encrypt_password =
        rw (take-append 16 authenticator (replicate 16 0) (sym size)) (
          decrypt_blocks-encrypt_blocks (password_blocks password) (pad_password password)
            authenticator (length-pad_password password))
