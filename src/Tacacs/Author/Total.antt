-- ===== src/Tacacs/Author/Total.antt =====
-- `DecodeAuthorRequest` of pkg/tacacs/author.go on any input.
use fakeradius.Base.{
  ℕ, ◌+◌, ◌≤◌, ◌<◌, ◌≡◌, refl, ap, ap₂, ◌∙◌, arith, ◌⊎◌, inl, inr, List, [], ◌∷◌, ◌++◌,
  append_assoc, length, ltb, map, concat, ok, err, Bool-cases, length-append,
  author_request_too_short, author_header_too_short, author_request_length, ge→ltb, lt→ltb,
  split-at, ltb→lt, ltb→ge, sym,
}
use fakeradius.Base.Bytes.{Bytes}
use fakeradius.Tacacs.Author.Codec.{
  head, whole, parts, read_arg_lens-eq, length-map-length, decode_author_request-whole,
}
use fakeradius.Tacacs.Author.{decode_author_request, sum}

-- Enough bytes for fields of the lengths `ns` are such fields and a rest.
split_fields :
    (ns : List ℕ) (xs : Bytes)
    → sum ns ≤ length xs
    → (args : List Bytes) × (junk : Bytes) × (map length args ≡ ns) × (xs ≡ concat args ++ junk)
split_fields [] xs h = ([], xs, refl, refl)
split_fields (n ∷ ns) xs h =
    let (arg, rest, l, e) = split-at n xs (omega arith) in
    let (args, junk, ls, f) =
      split_fields ns rest (omega (arith, ap length e, length-append arg rest)) in
    (
      arg ∷ args,
      junk,
      ap₂ ◌∷◌ l ls,
      e ∙ ap (◌++◌ arg) f ∙ sym (append_assoc arg (concat args) junk),
    )

three_fields :
    (u p r : ℕ) (ns : List ℕ) (rest : Bytes)
    → u + p + r + sum ns ≤ length rest
    → (user port rem_addr : Bytes) × (args : List Bytes) × (junk : Bytes) × (rest
        ≡ user ++ (port ++ (rem_addr ++ (concat args ++ junk))))
      × (length user ≡ u)
      × (length port ≡ p)
      × (length rem_addr ≡ r)
      × (map length args ≡ ns)
three_fields u p r ns rest h =
    let (user, t1, lu, e1) = split-at u rest (omega arith) in
    let n1 = ap length e1 ∙ length-append user t1 in
    let (port, t2, lp, e2) = split-at p t1 (omega (arith, n1)) in
    let n2 = ap length e2 ∙ length-append port t2 in
    let (rem_addr, t3, lr, e3) = split-at r t2 (omega (arith, n1, n2)) in
    let n3 = ap length e3 ∙ length-append rem_addr t3 in
    let (args, junk, la, e4) = split_fields ns t3 (omega (arith, n1, n2, n3)) in
    let split : rest ≡ user ++ (port ++ (rem_addr ++ (concat args ++ junk))) =
      e1 ∙ ap (◌++◌ user) (e2 ∙ ap (◌++◌ port) (e3 ∙ ap (◌++◌ rem_addr) e4)) in
    (user, port, rem_addr, args, junk, split, lu, lp, lr, la)

module _ (a b c d u p r : ℕ) where
  header_short :
      (n : ℕ) (rest : Bytes)
      → length rest < n
      → decode_author_request (head a b c d u p r n ++ rest) ≡ err author_header_too_short
  unfolding decode_author_request
  header_short n rest h =
      let bs = head a b c d u p r n ++ rest in
      rw (ge→ltb (length bs) 8 (omega arith), lt→ltb (length bs) (8 + n) (omega arith)) refl

  body_short :
      (ns : List ℕ) (rest : Bytes)
      → length rest < u + p + r + sum ns
      → decode_author_request (head a b c d u p r (length ns) ++ (ns ++ rest))
        ≡ err author_request_length
  unfolding decode_author_request
  body_short ns rest h =
      let fixed = head a b c d u p r (length ns) in
      let bs = fixed ++ (ns ++ rest) in
      let l = length-append ns rest in
      rw
        (
          ge→ltb (length bs) 8 (omega arith),
          ge→ltb (length bs) (8 + length ns) (omega (arith, l)),
          read_arg_lens-eq bs fixed ns rest 0 refl refl,
          lt→ltb (length bs) (8 + length ns + u + p + r + sum ns) (omega (arith, l)),
        )
        refl

-- The ways in which `DecodeAuthorRequest` refuses an input: fewer than eight bytes; fewer behind those
-- than the argument count; fewer behind the argument lengths than all the lengths together.
pub data Refused (bs : Bytes) : Type 0 where
  too_short : length bs < 8 → decode_author_request bs ≡ err author_request_too_short → Refused bs
  no_lengths :
      (a b c d u p r n : ℕ) (rest : Bytes)
      → bs ≡ head a b c d u p r n ++ rest
      → length rest < n
      → decode_author_request bs ≡ err author_header_too_short
      → Refused bs
  no_fields :
      (a b c d u p r : ℕ) (ns : List ℕ) (rest : Bytes)
      → bs ≡ head a b c d u p r (length ns) ++ (ns ++ rest)
      → length rest < u + p + r + sum ns
      → decode_author_request bs ≡ err author_request_length
      → Refused bs

-- `DecodeAuthorRequest` returns on every input: it refuses one in one of the three ways above, and every other is the
-- eight bytes, the argument lengths, the three fields and the arguments of the announced lengths and a
-- rest, and gives them.
pub decode_author_request_total :
    (bs : Bytes)
    → Refused bs
      ⊎ ((a b c d : ℕ) × (user port rem_addr : Bytes) × (args : List Bytes) × (junk : Bytes) × (bs
            ≡ whole a b c d user port rem_addr args junk)
          × (decode_author_request bs ≡ ok (parts a b c d user port rem_addr args junk)))
decode_author_request_total (a ∷ b ∷ c ∷ d ∷ u ∷ p ∷ r ∷ n ∷ rest) =
    elim (Bool-cases (ltb (length rest) n)) [
      | inl e ↦
          let short = ltb→lt _ _ e in
          inl (no_lengths a b c d u p r n rest refl short (header_short a b c d u p r n rest short))
      | inr e ↦
          let (ns, left, l, f) = split-at n rest (ltb→ge _ _ e) in
          let split : head a b c d u p r n ++ rest
              ≡ head a b c d u p r (length ns) ++ (ns ++ left) =
            cc in
          elim (Bool-cases (ltb (length left) (u + p + r + sum ns))) [
            | inl s ↦
                let short = ltb→lt _ _ s in
                inl (
                  no_fields a b c d u p r ns left split short
                    (ap decode_author_request split ∙ body_short a b c d u p r ns left short))
            | inr s ↦
                let (user, port, rem_addr, args, junk, g, lu, lp, lr, la) =
                  three_fields u p r ns left (ltb→ge _ _ s) in
                let cnt : length args ≡ length ns = sym (length-map-length args) ∙ ap length la in
                let same : head a b c d u p r n ++ rest
                    ≡ whole a b c d user port rem_addr args junk =
                  cc in
                inr (
                  a,
                  b,
                  c,
                  d,
                  user,
                  port,
                  rem_addr,
                  args,
                  junk,
                  same,
                  ap decode_author_request same
                      ∙ decode_author_request-whole a b c d user port rem_addr args junk,
                )
          ]
    ]
decode_author_request_total _ = unfold decode_author_request in inl (too_short (omega arith) refl)
