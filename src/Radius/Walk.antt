-- ===== src/Radius/Walk.antt =====
-- The loop over the attributes of a packet that the functions of cmd/server/handler.go share:
--
--   for pos < limit {
--       if pos+2 > limit { break }
--       attrType := packet[pos]
--       attrLen := int(packet[pos+1])
--       ...
--       pos += attrLen
--   }
--
-- A function's own part is the body, which breaks off with the state or goes on.
pub mod Step
pub mod Total
pub mod Encoded
use fakeradius.Base.{
  ℕ, zero, suc, ◌+◌, Bool, true, false, ltb, Result, ok, err, panic, stuck, ◌>>=◌,
}
use fakeradius.Base.Bytes.{Bytes, at}

pub data Flow {ℓ} (S : Type ℓ) : Type ℓ where
  halt : S → Flow S
  next : S → Flow S

module _ {ℓ} {S : Type ℓ} (short : ℕ → S → Result S) (body : ℕ → ℕ → ℕ → S → Result (Flow S))
    (packet : Bytes) (limit : ℕ) where
  -- `short pos s` stands for what is done with fewer than two bytes left, and `body pos attrType attrLen s`
  -- for the rest of a round.
  unfoldable pub for_attributes_or : ℕ → ℕ → S → Result S
  for_attributes_or zero pos s = elim (ltb pos limit) [ true ↦ stuck | false ↦ ok s ]
  for_attributes_or (suc fuel) pos s = elim (ltb pos limit) [
    | false ↦ ok s
    | true ↦ elim (ltb limit (pos + 2)) [
      | true ↦ short pos s
      | false ↦ do
        attr_type ← at packet pos
        attr_len ← at packet (pos + 1)
        flow ← body pos attr_type attr_len s
        elim flow [ halt s' ↦ ok s' | next s' ↦ for_attributes_or fuel (pos + attr_len) s' ]
    ]
  ]

-- The loop where it breaks off with fewer than two bytes left. A round takes two bytes at least, so the
-- packet's length is fuel enough.
abbrev pub for_attributes {ℓ} :
    {S : Type ℓ} → (ℕ → ℕ → ℕ → S → Result (Flow S)) → Bytes → ℕ → ℕ → S → Result S
for_attributes body packet limit pos s =
    for_attributes_or (λ _ s. ok s) body packet limit limit pos s
