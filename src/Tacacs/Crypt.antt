-- ===== src/Tacacs/Crypt.antt =====
-- `CryptPayload` of pkg/tacacs/header.go.
pub mod Involution
pub mod Range
use fakeradius.Base.{
  ℕ, zero, suc, not, [], ◌∷◌, ◌++◌, length, drop, ◌==◌, if◌then◌else◌, bit_and, bit_xor, Result, ok,
  err, stuck, ◌>>=◌, empty_secret,
}
use fakeradius.Base.Bytes.{Bytes, bytes_eq, put_u32}
use fakeradius.Crypto.{Crypto}
use fakeradius.Tacacs.Header.{Header, flag_unencrypted}

-- The inner loop: `payload[pos] ^ pad[i]` until the pad or the payload ends.
unfoldable pub xor_pad : Bytes → Bytes → Bytes
xor_pad [] pad = []
xor_pad (x ∷ xs) [] = []
xor_pad (x ∷ xs) (p ∷ pad) = bit_xor x p ∷ xor_pad xs pad

module _ (c : Crypto) where
  open c use {md5}

  -- The pad of one round. `lastPad` is nil in the first round, and adds nothing then.
  abbrev pub next_pad : Header → Bytes → Bytes → Bytes
  next_pad hdr secret last_pad =
      md5 (put_u32 hdr.session_id ++ (secret ++ (hdr.version ∷ hdr.seq_no ∷ last_pad)))

  -- The outer loop, on what is left of the payload from `pos` on; the result is `result[pos:]`.
  unfoldable pub crypt_loop : Header → Bytes → ℕ → Bytes → Bytes → Result Bytes
  unfolding xor_pad
  crypt_loop hdr secret fuel [] last_pad = ok []
  crypt_loop hdr secret zero (x ∷ xs) last_pad = stuck
  crypt_loop hdr secret (suc fuel) (x ∷ xs) last_pad =
      let pad = next_pad hdr secret last_pad in
      do
        rest ← crypt_loop hdr secret fuel (drop (length pad) (x ∷ xs)) pad
        ok (xor_pad (x ∷ xs) pad ++ rest)

  -- `CryptPayload`. A round takes at least one byte, so `len(payload)` rounds are enough.
  unfoldable pub crypt_payload : Header → Bytes → Bytes → Result Bytes
  unfolding crypt_loop bytes_eq
  crypt_payload hdr payload secret =
      if length payload == 0
      then ok []
      else if not (bit_and hdr.flags flag_unencrypted == 0)
      then ok payload
      else if bytes_eq secret []
      then err empty_secret
      else crypt_loop hdr secret (length payload) payload []
