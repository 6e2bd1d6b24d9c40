-- ===== src/Tacacs/Author/Codec.antt =====
-- `DecodeAuthorRequest` of pkg/tacacs/author.go against the layout of RFC 8907 §6.1.
use fakeradius.Base.{
  ℕ, suc, ◌+◌, ◌≡◌, refl, sym, ap, ◌∙◌, arith, List, [], ◌∷◌, ◌++◌, append_assoc, length, map,
  concat, ok, length-append, ge→ltb,
}
use fakeradius.Base.Bytes.{Bytes, slice-eq, at-eq}
use fakeradius.Tacacs.Author.{AuthorRequest, decode_author_request, sum, read_arg_lens, read_args}

-- `xs` with `x` moved to the part before it.
move :
    (xs pre : Bytes) (x : Bytes) (post : Bytes) → xs ≡ pre ++ (x ++ post) → xs ≡ (pre ++ x) ++ post
move xs pre x post e = e ∙ sym (append_assoc pre x post)

pub read_arg_lens-eq :
    (bs pre : Bytes) (ns : List ℕ) (post : Bytes) (i : ℕ)
    → bs ≡ pre ++ (ns ++ post)
    → length pre ≡ 8 + i
    → read_arg_lens bs (length ns) i ≡ ok ns
unfolding read_arg_lens
read_arg_lens-eq bs pre [] post i e h = refl
read_arg_lens-eq bs pre (n ∷ ns) post i e h =
    rw
      (
        at-eq bs pre n (ns ++ post) (8 + i) e (omega arith),
        read_arg_lens-eq bs (pre ++ (n ∷ [])) ns post (i + 1) (move bs pre (n ∷ []) (ns ++ post) e)
            (omega (arith, length-append pre (n ∷ []))),
      )
      refl

read_args-eq :
    (bs pre : Bytes) (args : List Bytes) (post : Bytes) (pos : ℕ)
    → bs ≡ pre ++ (concat args ++ post)
    → pos ≡ length pre
    → read_args bs (map length args) pos ≡ ok args
unfolding read_args
read_args-eq bs pre [] post pos e h = refl
read_args-eq bs pre (arg ∷ args) post pos e h =
    let e' : bs ≡ pre ++ (arg ++ (concat args ++ post)) =
      e ∙ ap (◌++◌ pre) (append_assoc arg (concat args) post) in
    rw
      (
        slice-eq bs pre arg (concat args ++ post) pos (pos + length arg) e' h refl,
        read_args-eq bs (pre ++ arg) args post (pos + length arg)
            (move bs pre arg (concat args ++ post) e') (omega (arith, length-append pre arg)),
      )
      refl

-- The eight fixed bytes.
abbrev pub head : ℕ → ℕ → ℕ → ℕ → ℕ → ℕ → ℕ → ℕ → Bytes
head a b c d u p r n = a ∷ b ∷ c ∷ d ∷ u ∷ p ∷ r ∷ n ∷ []

length-concat : (args : List Bytes) → length (concat args) ≡ sum (map length args)
length-concat [] = refl
length-concat (arg ∷ args) = omega (arith, length-append arg (concat args), length-concat args)

pub length-map-length : (args : List Bytes) → length (map length args) ≡ length args
length-map-length [] = refl
length-map-length (arg ∷ args) = ap suc (length-map-length args)

module _ (a b c d : ℕ) (user port rem_addr : Bytes) (args : List Bytes) (junk : Bytes) where
  abbrev pub fixed : Bytes
  fixed = head a b c d (length user) (length port) (length rem_addr) (length args)

  abbrev pub whole : Bytes
  whole = fixed ++ (map length args ++ (user ++ (port ++ (rem_addr ++ (concat args ++ junk)))))

  abbrev pub parts : AuthorRequest
  parts = record {
    authen_method = a;
    priv_lvl = b;
    authen_type = c;
    authen_service = d;
    user = user;
    port = port;
    rem_addr = rem_addr;
    args = args;
  }

  pub decode_author_request-whole : decode_author_request whole ≡ ok parts
  unfolding decode_author_request
  decode_author_request-whole =
      let lens = map length args in
      let t4 = concat args ++ junk in
      let t3 = rem_addr ++ t4 in
      let t2 = port ++ t3 in
      let t1 = user ++ t2 in
      let p1 = 8 + length args in
      let p2 = p1 + length user in
      let p3 = p2 + length port in
      let p4 = p3 + length rem_addr in
      let h1 = fixed ++ lens in
      let h2 = h1 ++ user in
      let h3 = h2 ++ port in
      let l0 = length-map-length args in
      let l1 = length-append fixed lens in
      let l2 = length-append h1 user in
      let l3 = length-append h2 port in
      let l4 = length-append h3 rem_addr in
      let e1 = move whole fixed lens t1 refl in
      let e2 = move whole h1 user t2 e1 in
      let e3 = move whole h2 port t3 e2 in
      let e4 = move whole h3 rem_addr t4 e3 in
      let lens_read : read_arg_lens whole (length args) 0 ≡ ok lens =
        rw l0 at (read_arg_lens-eq whole fixed lens t1 0 refl refl) in
      rw
        (
          ge→ltb (length whole) 8 (omega arith),
          ge→ltb (length whole) p1 (omega (arith, l0, length-append lens t1)),
          lens_read,
          ge→ltb (length whole) (p4 + sum lens) (
              omega (
                arith,
                l0,
                length-append lens t1,
                length-append user t2,
                length-append port t3,
                length-append rem_addr t4,
                length-append (concat args) junk,
                length-concat args,
              )),
          slice-eq whole h1 user t2 p1 p2 e1 (omega (arith, l0, l1)) refl,
          slice-eq whole h2 port t3 p2 p3 e2 (omega (arith, l0, l1, l2)) refl,
          slice-eq whole h3 rem_addr t4 p3 p4 e3 (omega (arith, l0, l1, l2, l3)) refl,
          read_args-eq whole (h3 ++ rem_addr) args junk p4 e4 (omega (arith, l0, l1, l2, l3, l4)),
        )
        refl
