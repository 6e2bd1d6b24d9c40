-- ===== src/Tacacs/Crypt/Range.antt =====
-- `CryptPayload` turns bytes into bytes.
use fakeradius.Base.{
  ℕ, zero, suc, ◌≡◌, arith, [], ◌∷◌, length, drop, ok, ok_of_chain, All-append, All-drop,
  ok-injective, err, ◌⊎◌, inl, inr, empty_secret, sym, ◌∙◌,
}
use fakeradius.Base.Bits.{bit_xor-lt}
use fakeradius.Base.Bytes.{Bytes, IsByte, AreBytes}
use fakeradius.Crypto.{Crypto}
use fakeradius.Tacacs.Crypt.{xor_pad, next_pad, crypt_loop, crypt_payload}
use fakeradius.Tacacs.Header.{Header}

xor_pad-AreBytes : (xs pad : Bytes) → AreBytes xs → AreBytes pad → AreBytes (xor_pad xs pad)
unfolding xor_pad
xor_pad-AreBytes [] pad h k = tt
xor_pad-AreBytes (x ∷ xs) [] h k = tt
xor_pad-AreBytes (x ∷ xs) (p ∷ pad) h k =
    (bit_xor-lt 8 x p h.0 k.0, xor_pad-AreBytes xs pad h.1 k.1)

module _ (c : Crypto) (hdr : Header) (secret : Bytes) where
  crypt_loop-AreBytes :
      (fuel : ℕ) (xs last_pad : Bytes) {ys : Bytes}
      → AreBytes xs
      → crypt_loop c hdr secret fuel xs last_pad ≡ ok ys
      → AreBytes ys
  unfolding crypt_loop
  crypt_loop-AreBytes zero [] last_pad h e = rw (← ok-injective e) tt
  crypt_loop-AreBytes (suc fuel) [] last_pad h e = rw (← ok-injective e) tt
  crypt_loop-AreBytes zero (x ∷ xs) last_pad h e = cc
  crypt_loop-AreBytes (suc fuel) (x ∷ xs) last_pad h e =
      let pad = next_pad c hdr secret last_pad in
      let left = drop (length pad) (x ∷ xs) in
      let (rest, f, g) = ok_of_chain (crypt_loop c hdr secret fuel left pad) _ e in
      rw (← ok-injective g) (
        All-append IsByte (xor_pad (x ∷ xs) pad) rest
          (xor_pad-AreBytes (x ∷ xs) pad h (c.md5-AreBytes _))
          (crypt_loop-AreBytes fuel left pad (All-drop IsByte (length pad) (x ∷ xs) h) f))

  -- The branches of `CryptPayload`.
  crypt_payload_forms :
      (payload : Bytes)
      → (crypt_payload c hdr payload secret ≡ ok [])
        ⊎ (crypt_payload c hdr payload secret ≡ ok payload)
        ⊎ (crypt_payload c hdr payload secret ≡ err empty_secret)
        ⊎ (crypt_payload c hdr payload secret ≡ crypt_loop c hdr secret (length payload) payload [])
  unfolding crypt_payload
  crypt_payload_forms payload = ground arith

  pub crypt_payload-AreBytes :
      (payload : Bytes) {body : Bytes}
      → AreBytes payload
      → crypt_payload c hdr payload secret ≡ ok body
      → AreBytes body
  crypt_payload-AreBytes payload h e = elim (crypt_payload_forms payload) [
    | inl f ↦ rw (← ok-injective (sym f ∙ e)) tt
    | inr (inl f) ↦ rw (← ok-injective (sym f ∙ e)) h
    | inr (inr (inl f)) ↦ cc
    | inr (inr (inr f)) ↦ crypt_loop-AreBytes (length payload) payload [] h (sym f ∙ e)
  ]
