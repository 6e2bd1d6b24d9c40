-- ===== src/Radius/Walk/Total.antt =====
-- The attribute loop of cmd/server/handler.go ends on every packet.
use fakeradius.Base.{
  ℕ, zero, suc, ◌+◌, ◌≤◌, ◌<◌, ◌≡◌, refl, ◌∙◌, arith, ◌⊎◌, inl, inr, length, ltb, Result, ok, panic,
  ltb→lt, ltb→ge, Bool-cases,
}
use fakeradius.Base.Bytes.{Bytes, at-in}
use fakeradius.Radius.Walk.Step
use fakeradius.Radius.Walk.Step.{walk}
use fakeradius.Radius.Walk.{Flow, halt, next, for_attributes}

module _ {ℓ κ} {S : Type ℓ} (short : ℕ → S → Result S) (body : ℕ → ℕ → ℕ → S → Result (Flow S))
    (packet : Bytes) (limit : ℕ) (Inv : ℕ → S → Type κ) (Out : Result S → Type κ) where
  -- A round breaks off in a state of `Out`, or goes on by two bytes at least and keeps `Inv`.
  abbrev pub Moves : ℕ → ℕ → ℕ → S → Type (ℓ ⊔ κ)
  Moves pos t l s =
      ((s' : S) × (body pos t l s ≡ ok (halt s')) × Out (ok s'))
      ⊎ ((s' : S) × (body pos t l s ≡ ok (next s')) × (2 ≤ l) × Inv (pos + l) s')
      ⊎ ((body pos t l s ≡ panic) × Out panic)

  module _ (within : limit ≤ length packet)
      (over : (pos : ℕ) (s : S) → Inv pos s → limit ≤ pos → Out (ok s))
      (shorts : (pos : ℕ) (s : S)
        → Inv pos s
        → pos < limit
        → (s' : S) × (short pos s ≡ ok s') × Out (ok s'))
      (moves : (pos t l : ℕ) (s : S) → Inv pos s → pos + 2 ≤ limit → Moves pos t l s) where
    -- With rounds for the bytes left the loop ends in a state of `Out`: no read is out of range, and no
    -- round stands still.
    pub walk_total :
        (fuel pos : ℕ) (s : S)
        → Inv pos s
        → limit ≤ fuel + pos
        → (r : Result S) × (walk short body packet limit fuel pos s ≡ r) × Out r
    walk_total zero pos s i h = (
      ok s,
      Step.walk_past short body packet limit zero pos s (omega arith),
      over pos s i (omega arith),
    )
    walk_total (suc fuel) pos s i h = elim (Bool-cases (ltb pos limit)) [
      | inr past ↦ (
        ok s,
        Step.walk_past short body packet limit (suc fuel) pos s (ltb→ge _ _ past),
        over pos s i (ltb→ge _ _ past),
      )
      | inl inside ↦ elim (Bool-cases (ltb limit (pos + 2))) [
        | inl few ↦
            let (s', e, o) = shorts pos s i (ltb→lt _ _ inside) in
            (
              ok s',
              Step.walk_short short body packet limit fuel pos s (ltb→lt _ _ inside)
                    (ltb→lt _ _ few)
                  ∙ e,
              o,
            )
        | inr enough ↦
            let room : pos + 2 ≤ limit = ltb→ge _ _ enough in
            let (t, at0) = at-in packet pos (omega arith) in
            let (l, at1) = at-in packet (pos + 1) (omega arith) in
            elim (moves pos t l s i room) [
              | inl (s', b, o) ↦ (
                ok s',
                Step.walk_halt short body packet limit fuel pos t l s s' room at0 at1 b,
                o,
              )
              | inr (inr (b, o)) ↦ (
                panic,
                Step.walk_panic short body packet limit fuel pos t l s s room at0 at1 b,
                o,
              )
              | inr (inl (s', b, two, i')) ↦
                  let (r, e, o) = walk_total fuel (pos + l) s' i' (omega arith) in
                  (
                    r,
                    Step.walk_next short body packet limit fuel pos t l s s' room at0 at1 b ∙ e,
                    o,
                  )
            ]
      ]
    ]

-- The same without an invariant: the loop ends with a state, or, where a round can panic, in a panic.
abbrev pub Ends {ℓ} : {S : Type ℓ} → Result (Flow S) → ℕ → Type ℓ
Ends {S} r l = ((s' : S) × (r ≡ ok (halt s'))) ⊎ ((s' : S) × (r ≡ ok (next s')) × (2 ≤ l))

module _ {ℓ} {S : Type ℓ} (body : ℕ → ℕ → ℕ → S → Result (Flow S)) (packet : Bytes) (limit pos : ℕ)
    (s : S) (within : limit ≤ length packet) where
  pub for_attributes_ok :
      ((pos t l : ℕ) (s : S) → pos + 2 ≤ limit → Ends (body pos t l s) l)
      → (s' : S) × (for_attributes body packet limit pos s ≡ ok s')
  for_attributes_ok ends =
      let (r, e, (s', f)) =
        walk_total (λ _ s. ok s) body packet limit (λ _ _. Unit {ℓ}) (λ r. (s' : S) × (r ≡ ok s'))
          within (λ _ s _ _. (s, refl)) (λ _ s _ _. (s, refl, (s, refl)))
          (λ pos t l s _ room. elim (ends pos t l s room) [
            | inl (s', b) ↦ inl (s', b, (s', refl))
            | inr (s', b, two) ↦ inr (inl (s', b, two, tt))
          ])
          limit pos s tt (omega arith) in
      (s', e ∙ f)

  pub for_attributes_settles :
      ((pos t l : ℕ) (s : S) → pos + 2 ≤ limit → Ends (body pos t l s) l ⊎ (body pos t l s ≡ panic))
      → ((s' : S) × (for_attributes body packet limit pos s ≡ ok s'))
        ⊎ (for_attributes body packet limit pos s ≡ panic)
  for_attributes_settles ends =
      let (r, e, o) =
        walk_total (λ _ s. ok s) body packet limit (λ _ _. Unit {ℓ})
          (λ r. ((s' : S) × (r ≡ ok s')) ⊎ (r ≡ panic)) within (λ _ s _ _. inl (s, refl))
          (λ _ s _ _. (s, refl, inl (s, refl)))
          (λ pos t l s _ room. elim (ends pos t l s room) [
            | inl (inl (s', b)) ↦ inl (s', b, inl (s', refl))
            | inl (inr (s', b, two)) ↦ inr (inl (s', b, two, tt))
            | inr b ↦ inr (inr (b, inr refl))
          ])
          limit pos s tt (omega arith) in
      elim o [ inl (s', f) ↦ inl (s', e ∙ f) | inr f ↦ inr (e ∙ f) ]
