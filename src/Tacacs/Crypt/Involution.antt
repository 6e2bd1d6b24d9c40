-- ===== src/Tacacs/Crypt/Involution.antt =====
-- `CryptPayload` undoes itself, and always finishes.
use fakeradius.Base.{
  ℕ, zero, suc, ◌≤◌, ◌<◌, ◌≡◌, ◌≢◌, refl, ap, ap₂, ◌∙◌, arith, ◌⊎◌, inl, inr, [], ◌∷◌, ◌++◌, length,
  drop, bit_and, ok, err, empty_secret, ok-injective, sym, length-drop,
}
use fakeradius.Base.Bits.{bit_xor_twice}
use fakeradius.Base.Bytes.{Bytes, eq_of_bytes_eq}
use fakeradius.Crypto.{Crypto}
use fakeradius.Tacacs.Crypt.{xor_pad, next_pad, crypt_loop, crypt_payload}
use native.Mathlib.Decide.{ℕ_discrete}
use fakeradius.Tacacs.Header.{Header, flag_unencrypted}

pub length-xor_pad :
    (xs pad rest : Bytes)
    → length rest ≡ length (drop (length pad) xs)
    → length (xor_pad xs pad ++ rest) ≡ length xs
unfolding xor_pad
length-xor_pad [] pad [] h = refl
length-xor_pad [] [] (x ∷ rest) h = h
length-xor_pad [] (p ∷ pad) (x ∷ rest) h = h
length-xor_pad (x ∷ xs) [] rest h = h
length-xor_pad (x ∷ xs) (p ∷ pad) rest h = ap suc (length-xor_pad xs pad rest h)

-- The rest of a crypted payload behind the part under one pad.
drop-xor_pad :
    (xs pad rest : Bytes)
    → length rest ≡ length (drop (length pad) xs)
    → drop (length pad) (xor_pad xs pad ++ rest) ≡ rest
unfolding xor_pad
drop-xor_pad [] [] rest h = refl
drop-xor_pad [] (p ∷ pad) [] h = refl
drop-xor_pad [] (p ∷ pad) (x ∷ rest) h = absurd (omega arith)
drop-xor_pad (x ∷ xs) [] rest h = refl
drop-xor_pad (x ∷ xs) (p ∷ pad) rest h = drop-xor_pad xs pad rest h

-- Under the same pad the first part comes back.
pub xor_pad_twice :
    (xs pad rest : Bytes)
    → length rest ≡ length (drop (length pad) xs)
    → xor_pad (xor_pad xs pad ++ rest) pad ++ drop (length pad) xs ≡ xs
unfolding xor_pad
xor_pad_twice [] [] [] h = refl
xor_pad_twice [] [] (x ∷ rest) h = absurd (omega arith)
xor_pad_twice [] (p ∷ pad) [] h = refl
xor_pad_twice [] (p ∷ pad) (x ∷ rest) h = absurd (omega arith)
xor_pad_twice (x ∷ xs) [] [] h = refl
xor_pad_twice (x ∷ xs) [] (y ∷ rest) h = refl
xor_pad_twice (x ∷ xs) (p ∷ pad) rest h = ap₂ ◌∷◌ (bit_xor_twice x p) (xor_pad_twice xs pad rest h)

module _ (c : Crypto) (hdr : Header) (secret : Bytes) where
  crypt_loop_step :
      (fuel : ℕ) (xs last_pad rest : Bytes)
      → 0 < length xs
      → crypt_loop c hdr secret fuel
          (drop (length (next_pad c hdr secret last_pad)) xs)
          (next_pad c hdr secret last_pad)
        ≡ ok rest
      → crypt_loop c hdr secret (suc fuel) xs last_pad
        ≡ ok (xor_pad xs (next_pad c hdr secret last_pad) ++ rest)
  unfolding crypt_loop
  crypt_loop_step fuel [] last_pad rest h e = absurd (omega arith)
  crypt_loop_step fuel (x ∷ xs) last_pad rest h e = rw e

  -- The loop ends within `len(payload)` rounds, keeps the length, and undoes itself.
  crypt_loop_twice :
      (fuel : ℕ) (xs last_pad : Bytes)
      → length xs ≤ fuel
      → (ys : Bytes) × (crypt_loop c hdr secret fuel xs last_pad ≡ ok ys)
        × (length ys ≡ length xs)
        × (crypt_loop c hdr secret fuel ys last_pad ≡ ok xs)
  crypt_loop_twice zero [] last_pad h = unfold crypt_loop in ([], refl, refl, refl)
  crypt_loop_twice (suc fuel) [] last_pad h = unfold crypt_loop in ([], refl, refl, refl)
  crypt_loop_twice zero (x ∷ xs) last_pad h = absurd (omega arith)
  crypt_loop_twice (suc fuel) (x ∷ xs) last_pad h =
      let pad = next_pad c hdr secret last_pad in
      let wide : length pad ≡ 16 = c.length-md5 _ in
      let left = drop (length pad) (x ∷ xs) in
      let (rest, there, same, back) =
        crypt_loop_twice fuel left pad (omega (arith, length-drop (length pad) (x ∷ xs))) in
      let ys = xor_pad (x ∷ xs) pad ++ rest in
      let long : length ys ≡ length (x ∷ xs) = length-xor_pad (x ∷ xs) pad rest same in
      let back' : crypt_loop c hdr secret fuel (drop (length pad) ys) pad ≡ ok left =
        rw (drop-xor_pad (x ∷ xs) pad rest same) back in
      (
        ys,
        crypt_loop_step fuel (x ∷ xs) last_pad rest (omega arith) there,
        long,
        crypt_loop_step fuel ys last_pad left (omega arith) back'
            ∙ ap ok (xor_pad_twice (x ∷ xs) pad rest same),
      )

  -- The unencrypted flag passes the payload through.
  pub crypt_payload_flagged :
      (payload : Bytes)
      → bit_and hdr.flags flag_unencrypted ≢ 0
      → crypt_payload c hdr payload secret ≡ ok payload
  unfolding crypt_payload
  crypt_payload_flagged [] k = refl
  crypt_payload_flagged (x ∷ xs) k = ground arith

  -- Without it the secret's loop runs.
  crypt_payload_keyed :
      (payload : Bytes)
      → bit_and hdr.flags flag_unencrypted ≡ 0
      → secret ≢ []
      → crypt_payload c hdr payload secret ≡ crypt_loop c hdr secret (length payload) payload []
  crypt_payload_keyed [] k ne = unfold crypt_payload crypt_loop in refl
  crypt_payload_keyed (x ∷ xs) k ne =
      unfold crypt_payload in ground (arith, eq_of_bytes_eq secret [])

  -- With a secret, or with the unencrypted flag, `CryptPayload` returns a body of the payload's
  -- length, and applied once more with the same header and secret gives the payload back.
  pub crypt_payload_twice :
      (payload : Bytes)
      → (secret ≢ []) ⊎ (bit_and hdr.flags flag_unencrypted ≢ 0)
      → (body : Bytes) × (crypt_payload c hdr payload secret ≡ ok body)
        × (length body ≡ length payload)
        × (crypt_payload c hdr body secret ≡ ok payload)
  crypt_payload_twice payload (inr k) =
      (payload, crypt_payload_flagged payload k, refl, crypt_payload_flagged payload k)
  crypt_payload_twice payload (inl ne) = elim (ℕ_discrete (bit_and hdr.flags flag_unencrypted) 0) [
    | no k ↦ (payload, crypt_payload_flagged payload k, refl, crypt_payload_flagged payload k)
    | yes k ↦
        let (body, there, same, back) =
          crypt_loop_twice (length payload) payload [] (omega arith) in
        (
          body,
          crypt_payload_keyed payload k ne ∙ there,
          same,
          crypt_payload_keyed body k ne ∙ rw same back,
        )
  ]

  -- With no secret an empty payload is returned, and any other refused.
  pub crypt_payload_cases :
      (payload : Bytes)
      → ((secret ≢ []) ⊎ (bit_and hdr.flags flag_unencrypted ≢ 0))
        ⊎ ((payload ≡ []) × (crypt_payload c hdr payload secret ≡ ok []))
        ⊎ (crypt_payload c hdr payload secret ≡ err empty_secret)
  unfolding crypt_payload
  crypt_payload_cases payload = ground (arith, eq_of_bytes_eq secret [])

  -- Whatever `CryptPayload` returned is undone by it.
  pub crypt_payload-undo :
      (payload body : Bytes)
      → crypt_payload c hdr payload secret ≡ ok body
      → (length body ≡ length payload) × (crypt_payload c hdr body secret ≡ ok payload)
  crypt_payload-undo payload body e = elim (crypt_payload_cases payload) [
    | inl k ↦
        let (body', there, same, back) = crypt_payload_twice payload k in
        let eq : body' ≡ body = ok-injective (sym there ∙ e) in (rw (← eq) same, rw (← eq) back)
    | inr (inl (p, t)) ↦
        let eq : [] ≡ body = ok-injective (sym t ∙ e) in
        (rw (← eq, p), rw (← eq, p) (unfold crypt_payload in refl))
    | inr (inr t) ↦ cc
  ]

  -- `CryptPayload` returns a body or the error of the missing secret.
  pub crypt_payload_ends :
      (payload : Bytes)
      → (crypt_payload c hdr payload secret ≡ err empty_secret)
        ⊎ ((body : Bytes) × (crypt_payload c hdr payload secret ≡ ok body))
  crypt_payload_ends payload = elim (crypt_payload_cases payload) [
    | inl k ↦ let (body, there, same, back) = crypt_payload_twice payload k in inr (body, there)
    | inr (inl (p, t)) ↦ inr ([], t)
    | inr (inr t) ↦ inl t
  ]
