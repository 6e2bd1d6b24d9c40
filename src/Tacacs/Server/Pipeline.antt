-- ===== src/Tacacs/Server/Pipeline.antt =====
-- Several requests on one connection of pkg/tacacs/server.go.
use fakeradius.Base.{
  ℕ, zero, suc, ◌+◌, ◌/◌, ◌^◌, ◌≤◌, ◌≡◌, ◌≢◌, refl, sym, ap, ◌∙◌, arith, List, map, concat, Bool,
  true, [], ◌∷◌, ◌++◌, append-nil, append_assoc, length, take, drop, ok, bit_and, All,
  length-append, take-append, drop-append,
}
use fakeradius.Base.Bytes.{Bytes}
use fakeradius.Crypto.{Crypto}
use fakeradius.Tacacs.Header.Codec.{decode_header-encode_header}
use fakeradius.Tacacs.Header.{
  Header, IsHeader, header_len, major_ver12, flag_single_connect, decode_header, encode_header,
}
use fakeradius.Tacacs.Server.Round
use fakeradius.Tacacs.Server.{Close, Trace, serve_packet, handle_connection}

-- A request with its body as it travels, and what `serve_packet` answers.
pub record Request : Type 0 where
  pub header : Header
  pub body : Bytes
  pub answer : Bytes

abbrev pub request_bytes : Request → Bytes
request_bytes x = encode_header x.header ++ x.body

pub length-encode_header : (h : Header) → length (encode_header h) ≡ header_len
unfolding encode_header
length-encode_header h = refl

pub decode_header-whole :
    (h : Header)
    → IsHeader h
    → h.version / 2 ^ 4 ≡ major_ver12
    → decode_header (encode_header h) ≡ ok h
decode_header-whole h w v = rw append-nil at (decode_header-encode_header h [] w v)

module _ (c : Crypto) (secret : Bytes) where
  -- A request that the server can read and answer.
  pub record IsServed (x : Request) : Type 0 where
    pub fits : IsHeader x.header
    pub major : x.header.version / 2 ^ 4 ≡ major_ver12
    pub announced : x.header.length ≡ length x.body
    pub answered : serve_packet c secret x.header x.body ≡ ok x.answer

  abbrev pub IsKept : Request → Type 0
  IsKept x = IsServed x × (bit_and x.header.flags flag_single_connect ≢ 0)

  module _ (writes : ℕ → Bool) (x : Request) (s : IsServed x) (left : Bytes) where
    abbrev incoming : Bytes
    incoming = request_bytes x ++ left

    regroup : incoming ≡ encode_header x.header ++ (x.body ++ left)
    regroup = append_assoc (encode_header x.header) x.body left

    long : header_len ≤ length incoming
    long = omega (
      arith,
      ap length regroup,
      length-append (encode_header x.header) (x.body ++ left),
      length-encode_header x.header,
    )

    decoded : decode_header (take header_len incoming) ≡ ok x.header
    decoded =
        rw
          (
            regroup,
            take-append header_len (encode_header x.header) (x.body ++ left)
                (sym (length-encode_header x.header)),
          )
          (decode_header-whole x.header s.fits s.major)

    behind : drop header_len incoming ≡ x.body ++ left
    behind = rw regroup (
        drop-append header_len (encode_header x.header) (x.body ++ left)
          (sym (length-encode_header x.header)))

    whole : x.header.length ≤ length (drop header_len incoming)
    whole = rw behind (omega (arith, s.announced, length-append x.body left))

    served :
        serve_packet c secret x.header (take x.header.length (drop header_len incoming))
        ≡ ok x.answer
    served = rw (behind, take-append x.header.length x.body left s.announced) s.answered

    after : drop x.header.length (drop header_len incoming) ≡ left
    after = rw (behind, drop-append x.header.length x.body left s.announced) refl

    -- A request without the single-connect flag is answered, and the connection closed on what follows.
    pub handle_connection_single :
        (fuel n : ℕ)
        → writes n ≡ true
        → bit_and x.header.flags flag_single_connect ≡ 0
        → handle_connection c secret writes (suc fuel) n incoming
          ≡ record { sent = x.answer ∷ []; close = Close.served }
    handle_connection_single fuel n w f =
        Round.last_request c secret writes fuel n incoming long x.header decoded whole x.answer
          served w f

    kept_request :
        (fuel n : ℕ) (t : Trace)
        → writes n ≡ true
        → bit_and x.header.flags flag_single_connect ≢ 0
        → handle_connection c secret writes fuel (n + 1) left ≡ t
        → handle_connection c secret writes (suc fuel) n incoming
          ≡ record { sent = x.answer ∷ t.sent; close = t.close }
    kept_request fuel n t w f e =
        Round.more_requests c secret writes fuel n incoming long x.header decoded whole x.answer
          served w f
        ∙ rw (after, e) refl

  -- Where every write succeeds and there is a round for each, requests that the server answers and that
  -- keep the connection are answered in order, one response each, and what follows them is handled as on a
  -- connection of its own.
  pub handle_connection_kept :
      (writes : ℕ → Bool) (xs : List Request) (fuel more n later : ℕ) (left : Bytes)
      → fuel ≡ length xs + more
      → later ≡ n + length xs
      → All IsKept xs
      → ((m : ℕ) → writes m ≡ true)
      → (t : Trace) → handle_connection c secret writes more later left ≡ t
      → handle_connection c secret writes fuel n (concat (map request_bytes xs) ++ left)
        ≡ record { sent = map (λ (x : Request). x.answer) xs ++ t.sent; close = t.close }
  handle_connection_kept writes [] fuel more n later left e f k w t h =
      let e' : fuel ≡ more = omega arith in let f' : n ≡ later = omega arith in rw (e', f') h
  handle_connection_kept writes (x ∷ xs) zero more n later left e f k w t h = absurd (omega arith)
  handle_connection_kept writes (x ∷ xs) (suc fuel) more n later left e f k w t h =
      let rest = concat (map request_bytes xs) ++ left in
      let ih =
        handle_connection_kept writes xs fuel more (n + 1) later left (omega arith) (omega arith)
          k.1 w t h in
      ap (handle_connection c secret writes (suc fuel) n)
        (append_assoc (request_bytes x) (concat (map request_bytes xs)) left)
      ∙ kept_request writes x k.0.0 rest fuel n _ (w n) k.0.1 ih
