-- ===== src/Radius/Walk/Step.antt =====
-- One round of the attribute loop of cmd/server/handler.go.
use fakeradius.Base.{
  ℕ, zero, suc, ◌+◌, ◌≤◌, ◌<◌, ◌≡◌, refl, arith, Result, ok, panic, ge→ltb, lt→ltb,
}
use fakeradius.Base.Bytes.{Bytes, at}
use fakeradius.Radius.Walk.{Flow, halt, next, for_attributes_or}

module _ {ℓ} {S : Type ℓ} (short : ℕ → S → Result S) (body : ℕ → ℕ → ℕ → S → Result (Flow S))
    (packet : Bytes) (limit : ℕ) where
  abbrev pub walk : ℕ → ℕ → S → Result S
  walk = for_attributes_or short body packet limit

  pub walk_past : (fuel pos : ℕ) (s : S) → limit ≤ pos → walk fuel pos s ≡ ok s
  unfolding for_attributes_or
  walk_past zero pos s h = rw (for_attributes_or, ge→ltb pos limit h) refl
  walk_past (suc fuel) pos s h = rw (for_attributes_or, ge→ltb pos limit h) refl

  pub walk_short :
      (fuel pos : ℕ) (s : S) → pos < limit → limit < pos + 2 → walk (suc fuel) pos s ≡ short pos s
  unfolding for_attributes_or
  walk_short fuel pos s h k =
      rw (for_attributes_or, lt→ltb pos limit h, lt→ltb limit (pos + 2) k) refl

  module _ (fuel pos t l : ℕ) (s s' : S) (room : pos + 2 ≤ limit) (at0 : at packet pos ≡ ok t)
      (at1 : at packet (pos + 1) ≡ ok l) where
    pub walk_halt : body pos t l s ≡ ok (halt s') → walk (suc fuel) pos s ≡ ok s'
    unfolding for_attributes_or
    walk_halt b =
        rw
          (
            for_attributes_or,
            lt→ltb pos limit (omega arith),
            ge→ltb limit (pos + 2) room,
            at0,
            at1,
            b,
          )
          refl

    pub walk_next : body pos t l s ≡ ok (next s') → walk (suc fuel) pos s ≡ walk fuel (pos + l) s'
    unfolding for_attributes_or
    walk_next b =
        rw
          (
            for_attributes_or,
            lt→ltb pos limit (omega arith),
            ge→ltb limit (pos + 2) room,
            at0,
            at1,
            b,
          )
          refl

    pub walk_panic : body pos t l s ≡ panic → walk (suc fuel) pos s ≡ panic
    unfolding for_attributes_or
    walk_panic b =
        rw
          (
            for_attributes_or,
            lt→ltb pos limit (omega arith),
            ge→ltb limit (pos + 2) room,
            at0,
            at1,
            b,
          )
          refl
