-- ===== src/Tacacs/Authen/Codec.antt =====
-- `DecodeAuthenStart` of pkg/tacacs/authen.go against the layout of RFC 8907 §5.1.
use fakeradius.Base.{
  ℕ, ◌+◌, ◌≤◌, ◌<◌, ◌≡◌, refl, ap, ◌∙◌, arith, ◌⊎◌, inl, inr, false, [], ◌∷◌, ◌++◌, append_assoc,
  length, ltb, ok, err, Bool-cases, length-append, authen_start_too_short, authen_start_length,
  ge→ltb, lt→ltb, split-at, ltb→lt, ltb→ge,
}
use fakeradius.Base.Bytes.{Bytes, slice-eq}
use fakeradius.Tacacs.Authen.{AuthenStart, decode_authen_start}

-- The eight fixed bytes.
abbrev pub head : ℕ → ℕ → ℕ → ℕ → ℕ → ℕ → ℕ → ℕ → Bytes
head a b c d u p r n = a ∷ b ∷ c ∷ d ∷ u ∷ p ∷ r ∷ n ∷ []

module _ (a b c d : ℕ) (user port rem_addr content junk : Bytes) where
  abbrev pub whole : Bytes
  whole =
      head a b c d (length user) (length port) (length rem_addr) (length content)
      ++ (user ++ (port ++ (rem_addr ++ (content ++ junk))))

  abbrev pub parts : AuthenStart
  parts = record {
    action = a;
    priv_lvl = b;
    authen_type = c;
    service = d;
    user = user;
    port = port;
    rem_addr = rem_addr;
    content = content;
  }

  pub decode_authen_start-whole : decode_authen_start whole ≡ ok parts
  unfolding decode_authen_start
  decode_authen_start-whole =
      let h = head a b c d (length user) (length port) (length rem_addr) (length content) in
      let t3 = content ++ junk in
      let t2 = rem_addr ++ t3 in
      let t1 = port ++ t2 in
      let p2 = 8 + length user in
      let p3 = p2 + length port in
      let p4 = p3 + length rem_addr in
      let enough : ltb (length whole) (p4 + length content) ≡ false = ge→ltb _ _ (
        omega (
          arith,
          length-append user t1,
          length-append port t2,
          length-append rem_addr t3,
          length-append content junk,
        )) in
      let l2 = length-append h user in
      let l3 = length-append (h ++ user) port in
      let l4 = length-append ((h ++ user) ++ port) rem_addr in
      rw
        (
          ge→ltb (length whole) 8 (omega arith),
          enough,
          slice-eq whole h user t1 8 p2 refl refl refl,
          slice-eq whole (h ++ user) port t2 p2 p3 (simp append_assoc) (omega (arith, l2)) refl,
          slice-eq whole ((h ++ user) ++ port) rem_addr t3 p3 p4 (simp append_assoc)
              (omega (arith, l2, l3)) refl,
          slice-eq whole (((h ++ user) ++ port) ++ rem_addr) content junk p4 (p4 + length content)
              (simp append_assoc) (omega (arith, l2, l3, l4)) refl,
        )
        refl

decode_authen_start-short :
    (a b c d u p r n : ℕ) (rest : Bytes)
    → length rest < u + p + r + n
    → decode_authen_start (head a b c d u p r n ++ rest) ≡ err authen_start_length
unfolding decode_authen_start
decode_authen_start-short a b c d u p r n rest h =
    let bs = head a b c d u p r n ++ rest in
    rw (ge→ltb (length bs) 8 (omega arith), lt→ltb (length bs) (8 + u + p + r + n) (omega arith))
      refl

-- Enough bytes for four fields are the four fields and a rest.
four_fields :
    (u p r n : ℕ) (rest : Bytes)
    → u + p + r + n ≤ length rest
    → (user port rem_addr content junk : Bytes) × (rest
        ≡ user ++ (port ++ (rem_addr ++ (content ++ junk))))
      × (length user ≡ u)
      × (length port ≡ p)
      × (length rem_addr ≡ r)
      × (length content ≡ n)
four_fields u p r n rest h =
    let (user, t1, lu, e1) = split-at u rest (omega arith) in
    let n1 = ap length e1 ∙ length-append user t1 in
    let (port, t2, lp, e2) = split-at p t1 (omega (arith, n1)) in
    let n2 = ap length e2 ∙ length-append port t2 in
    let (rem_addr, t3, lr, e3) = split-at r t2 (omega (arith, n1, n2)) in
    let n3 = ap length e3 ∙ length-append rem_addr t3 in
    let (content, junk, lc, e4) = split-at n t3 (omega (arith, n1, n2, n3)) in
    let split : rest ≡ user ++ (port ++ (rem_addr ++ (content ++ junk))) =
      e1 ∙ ap (◌++◌ user) (e2 ∙ ap (◌++◌ port) (e3 ∙ ap (◌++◌ rem_addr) e4)) in
    (user, port, rem_addr, content, junk, split, lu, lp, lr, lc)

-- `DecodeAuthenStart` returns on every input, in one of three ways. It refuses fewer than eight bytes
-- as too short, and eight bytes with fewer behind them than the four length bytes announce; every
-- other input is the eight bytes, four fields of the announced lengths and a rest, and gives them.
pub decode_authen_start_total :
    (bs : Bytes)
    → ((length bs < 8) × (decode_authen_start bs ≡ err authen_start_too_short))
      ⊎ ((a b c d u p r n : ℕ) × (rest : Bytes) × (bs ≡ head a b c d u p r n ++ rest)
          × (length rest < u + p + r + n)
          × (decode_authen_start bs ≡ err authen_start_length))
      ⊎ ((a b c d : ℕ) × (user port rem_addr content junk : Bytes) × (bs
            ≡ whole a b c d user port rem_addr content junk)
          × (decode_authen_start bs ≡ ok (parts a b c d user port rem_addr content junk)))
decode_authen_start_total (a ∷ b ∷ c ∷ d ∷ u ∷ p ∷ r ∷ n ∷ rest) =
    elim (Bool-cases (ltb (length rest) (u + p + r + n))) [
      | inl e ↦
          let short = ltb→lt _ _ e in
          inr (
            inl (
              a,
              b,
              c,
              d,
              u,
              p,
              r,
              n,
              rest,
              refl,
              short,
              decode_authen_start-short a b c d u p r n rest short,
            ))
      | inr e ↦
          let (user, port, rem_addr, content, junk, split, lu, lp, lr, lc) =
            four_fields u p r n rest (ltb→ge _ _ e) in
          let same : head a b c d u p r n ++ rest ≡ whole a b c d user port rem_addr content junk =
            cc in
          inr (
            inr (
              a,
              b,
              c,
              d,
              user,
              port,
              rem_addr,
              content,
              junk,
              same,
              ap decode_authen_start same
                  ∙ decode_authen_start-whole a b c d user port rem_addr content junk,
            ))
    ]
decode_authen_start_total _ = unfold decode_authen_start in inl (omega arith, refl)
