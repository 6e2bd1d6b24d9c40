-- ===== src/Tacacs/Server/Respond.antt =====
-- One request of `handleConnection` in pkg/tacacs/server.go: the switch and the packet it gives.
use fakeradius.Base.{
  ℕ, ◌+◌, ◌≤◌, ◌<◌, ◌^◌, ◌≡◌, refl, sym, ap, ◌∙◌, arith, false, ok-injective, length-map, ◌≢◌, ◌*◌,
  length-append, ◌⊎◌, inl, inr, [], ◌∷◌, ◌++◌, List, map, concat, length, ok, err, Error, Result,
  All, All-left, ◌==◌, unsupported_packet_type, ==_iff,
}
use fakeradius.Base.Bytes.{Bytes, IsByte, AreBytes, put_u16}
use native.Mathlib.Decide.{ℕ_discrete}
use mathlib.Core.Path.{subst}
use fakeradius.Tacacs.Authen.Codec.{decode_authen_start_total}
use fakeradius.Tacacs.Authen.Reply.{reply_bytes, encode_authen_reply_lem}
use fakeradius.Tacacs.Authen.{
  AuthenStart, decode_authen_start, process_authen_start, encode_authen_reply,
}
use fakeradius.Tacacs.Author.Codec.{whole}
use fakeradius.Tacacs.Author.Response.{response_bytes, encode_author_response_lem}
use fakeradius.Tacacs.Author.Total.{decode_author_request_total, too_short, no_lengths, no_fields}
use fakeradius.Tacacs.Author.{
  AuthorRequest, decode_author_request, process_author_request, encode_author_response,
}
use fakeradius.Tacacs.Header.{Header, type_authen, type_author}
use fakeradius.Tacacs.Server.{response_header, respond}

-- The replies of the server are short, so `Encode` does not wrap.
encode-process_authen_start :
    (s : AuthenStart)
    → encode_authen_reply (process_authen_start s) ≡ ok (reply_bytes (process_authen_start s))
encode-process_authen_start s =
    (encode_authen_reply_lem (process_authen_start s) (short s).0 (short s).1).0 (sum s)
  where
    short :
        (s : AuthenStart)
        → (length (process_authen_start s).server_msg < 2 ^ 16)
          × (length (process_authen_start s).content < 2 ^ 16)
    short s = unfold process_authen_start in ground arith

    sum :
        (s : AuthenStart)
        → 6 + length (process_authen_start s).server_msg + length (process_authen_start s).content
          < 2 ^ 16
    sum s = unfold process_authen_start in ground arith

process_author_request-args :
    (r : AuthorRequest)
    → ((process_author_request r).args ≡ []) ⊎ ((process_author_request r).args ≡ r.args)
unfolding process_author_request
process_author_request-args r = ground arith

process_author_request_short :
    (r : AuthorRequest)
    → (length (process_author_request r).server_msg < 2 ^ 8)
      × (length (process_author_request r).content < 2 ^ 8)
unfolding process_author_request
process_author_request_short r = ground arith

process_author_request_few :
    (r : AuthorRequest)
    → length r.args < 2 ^ 8
    → All (λ (arg : Bytes). length arg < 2 ^ 8) r.args
    → (length (process_author_request r).args < 2 ^ 8)
      × All (λ (arg : Bytes). length arg < 2 ^ 8) (process_author_request r).args
process_author_request_few r n a = elim (process_author_request-args r) [
  | inl e ↦ rw e (omega arith, tt)
  | inr e ↦ rw e (n, a)
]

-- The arguments of a decoded request are few and short enough for the bytes that count them.
encode-process_author_request :
    (r : AuthorRequest)
    → length r.args < 2 ^ 8
    → All (λ (arg : Bytes). length arg < 2 ^ 8) r.args
    → encode_author_response (process_author_request r)
      ≡ ok (response_bytes (process_author_request r))
encode-process_author_request r n a =
    let (m, d) = process_author_request_short r in
    let (n', a') = process_author_request_few r n a in
    (encode_author_response_lem (process_author_request r) (omega arith) (omega arith) a').0 n'

All-map-length :
    (args : List Bytes)
    → AreBytes (map length args)
    → All (λ (arg : Bytes). length arg < 2 ^ 8) args
All-map-length [] h = tt
All-map-length (arg ∷ args) h = (h.0, All-map-length args h.1)

-- A decoded authentication start is answered by the encoding of `ProcessAuthenStart`.
pub respond_authen :
    (hdr : Header) (body : Bytes) (s : AuthenStart)
    → hdr.type ≡ type_authen
    → decode_authen_start body ≡ ok s
    → respond hdr body
      ≡ ok (
        response_header hdr type_authen (reply_bytes (process_authen_start s)),
        reply_bytes (process_authen_start s),
      )
unfolding respond
respond_authen hdr body s t e =
    rw ((==_iff hdr.type type_authen).1 t, e, encode-process_authen_start s) refl

request_widths :
    (a b c d : ℕ) (user port rem_addr : Bytes) (args : List Bytes) (junk : Bytes)
    → AreBytes (whole a b c d user port rem_addr args junk)
    → (length args < 2 ^ 8) × All (λ (arg : Bytes). length arg < 2 ^ 8) args
request_widths a b c d user port rem_addr args junk bytes = (
  bytes.1.1.1.1.1.1.1.0,
  All-map-length args (All-left IsByte (map length args) _ bytes.1.1.1.1.1.1.1.1),
)

-- The arguments of a request that was read from bytes are few and short.
decode_author_request_widths :
    (body : Bytes) (r : AuthorRequest)
    → AreBytes body
    → decode_author_request body ≡ ok r
    → (length r.args < 2 ^ 8) × All (λ (arg : Bytes). length arg < 2 ^ 8) r.args
decode_author_request_widths body r bytes e = elim (decode_author_request_total body) [
  | inl (too_short l f) ↦ cc
  | inl (no_lengths _ _ _ _ _ _ _ _ _ _ _ f) ↦ cc
  | inl (no_fields _ _ _ _ _ _ _ _ _ _ _ f) ↦ cc
  | inr (a, b, c, d, user, port, rem_addr, args, junk, same, f) ↦
      let same_args : args ≡ r.args =
        ap (λ (q : AuthorRequest). q.args) (ok-injective (sym f ∙ e)) in
      rw (← same_args)
        (request_widths a b c d user port rem_addr args junk (subst AreBytes same bytes))
]

-- A decoded authorization request is answered by the encoding of `ProcessAuthorRequest`.
pub respond_author :
    (hdr : Header) (body : Bytes) (r : AuthorRequest)
    → AreBytes body
    → hdr.type ≡ type_author
    → decode_author_request body ≡ ok r
    → respond hdr body
      ≡ ok (
        response_header hdr type_author (response_bytes (process_author_request r)),
        response_bytes (process_author_request r),
      )
unfolding respond
respond_author hdr body r bytes t e =
    let (n, a) = decode_author_request_widths body r bytes e in
    let other : (hdr.type == type_authen) ≡ false = ground arith in
    rw (other, (==_iff hdr.type type_author).1 t, e, encode-process_author_request r n a) refl

length-reply : (s : AuthenStart) → length (reply_bytes (process_authen_start s)) < 2 ^ 32
length-reply s = unfold process_authen_start put_u16 in ground arith

length-concat-le :
    (args : List Bytes)
    → All (λ (arg : Bytes). length arg < 2 ^ 8) args
    → length (concat args) ≤ 2 ^ 8 * length args
length-concat-le [] h = omega arith
length-concat-le (arg ∷ args) h =
    omega (arith, length-append arg (concat args), length-concat-le args h.1, h.0)

length-response :
    (r : AuthorRequest)
    → length r.args < 2 ^ 8
    → All (λ (arg : Bytes). length arg < 2 ^ 8) r.args
    → length (response_bytes (process_author_request r)) < 2 ^ 32
length-response r n a =
    let q = process_author_request r in
    let (m, d) = process_author_request_short r in
    let (n', a') = process_author_request_few r n a in
    let lens = map (λ (arg : Bytes). length arg) q.args in
    unfold put_u16 in
    omega (
      arith,
      length-map q.args (λ (arg : Bytes). length arg),
      length-append lens (q.server_msg ++ (q.content ++ concat q.args)),
      length-append q.server_msg (q.content ++ concat q.args),
      length-append q.content (concat q.args),
      length-concat-le q.args a',
    )

respond_authen_err :
    (hdr : Header) (body : Bytes) (e : Error)
    → hdr.type ≡ type_authen
    → decode_authen_start body ≡ err e
    → respond hdr body ≡ err e
unfolding respond
respond_authen_err hdr body e t f = rw ((==_iff hdr.type type_authen).1 t, f) refl

respond_author_err :
    (hdr : Header) (body : Bytes) (e : Error)
    → hdr.type ≡ type_author
    → decode_author_request body ≡ err e
    → respond hdr body ≡ err e
unfolding respond
respond_author_err hdr body e t f =
    let other : (hdr.type == type_authen) ≡ false = ground arith in
    rw (other, (==_iff hdr.type type_author).1 t, f) refl

respond_other :
    (hdr : Header) (body : Bytes)
    → hdr.type ≢ type_authen
    → hdr.type ≢ type_author
    → respond hdr body ≡ err unsupported_packet_type
unfolding respond
respond_other hdr body h k = ground arith

-- What the switch gives: an error, or a response of the request's type with its body.
abbrev pub Responds : Header → Bytes → Type 0
Responds hdr body =
    ((e : Error) × (respond hdr body ≡ err e))
    ⊎ ((b : Bytes) × (respond hdr body ≡ ok (response_header hdr hdr.type b, b))
        × (length b < 2 ^ 32))

of_type :
    (hdr : Header) (b : Bytes) {t u : ℕ}
    → t ≡ u
    → ◌≡◌ {A = Result (Header × Bytes)}
        (ok (response_header hdr t b, b))
        (ok (response_header hdr u b, b))
of_type hdr b e = rw e

respond_authen_ok :
    (hdr : Header) (body : Bytes) (s : AuthenStart)
    → hdr.type ≡ type_authen
    → decode_authen_start body ≡ ok s
    → Responds hdr body
respond_authen_ok hdr body s t f =
    let b = reply_bytes (process_authen_start s) in
    inr (b, respond_authen hdr body s t f ∙ of_type hdr b (sym t), length-reply s)

respond_author_ok :
    (hdr : Header) (body : Bytes) (r : AuthorRequest)
    → AreBytes body
    → hdr.type ≡ type_author
    → decode_author_request body ≡ ok r
    → Responds hdr body
respond_author_ok hdr body r bytes t f =
    let (n, a) = decode_author_request_widths body r bytes f in
    let b = response_bytes (process_author_request r) in
    inr (b, respond_author hdr body r bytes t f ∙ of_type hdr b (sym t), length-response r n a)

respond_authen_forms : (hdr : Header) (body : Bytes) → hdr.type ≡ type_authen → Responds hdr body
respond_authen_forms hdr body t = elim (decode_authen_start_total body) [
  | inl (l, f) ↦ inl (_, respond_authen_err hdr body _ t f)
  | inr (inl (_, _, _, _, _, _, _, _, _, _, _, f)) ↦ inl (_, respond_authen_err hdr body _ t f)
  | inr (inr (_, _, _, _, _, _, _, _, _, _, f)) ↦ respond_authen_ok hdr body _ t f
]

respond_author_forms :
    (hdr : Header) (body : Bytes) → AreBytes body → hdr.type ≡ type_author → Responds hdr body
respond_author_forms hdr body bytes t = elim (decode_author_request_total body) [
  | inl (too_short l f) ↦ inl (_, respond_author_err hdr body _ t f)
  | inl (no_lengths _ _ _ _ _ _ _ _ _ _ _ f) ↦ inl (_, respond_author_err hdr body _ t f)
  | inl (no_fields _ _ _ _ _ _ _ _ _ _ _ f) ↦ inl (_, respond_author_err hdr body _ t f)
  | inr (_, _, _, _, _, _, _, _, _, _, f) ↦ respond_author_ok hdr body _ bytes t f
]

-- The switch returns on every body of bytes.
pub respond_forms : (hdr : Header) (body : Bytes) → AreBytes body → Responds hdr body
respond_forms hdr body bytes = elim (ℕ_discrete hdr.type type_authen) [
  | yes t ↦ respond_authen_forms hdr body t
  | no h ↦ elim (ℕ_discrete hdr.type type_author) [
    | yes t ↦ respond_author_forms hdr body bytes t
    | no k ↦ inl (_, respond_other hdr body h k)
  ]
]
