-- ===== src/Tacacs/Author.antt =====
-- pkg/tacacs/author.go: the authorization REQUEST body, the RESPONSE body and the decision.
pub mod Codec
pub mod Total
pub mod Response
use fakeradius.Base.{
  ℕ, zero, suc, ◌+◌, not, ◌&&◌, List, [], ◌∷◌, ◌++◌, map, length, take, concat, ltb, leb,
  if◌then◌else◌, Result, ok, ◌>>=◌, ◌>>◌, guard, bounds, author_request_too_short,
  author_header_too_short, author_request_length,
}
use fakeradius.Base.Bytes.{Bytes, at, slice, bytes_eq, codes, u8, u16, put_u16}
use fakeradius.Tacacs.Authen.{has_no_prefix}
use fakeradius.Tacacs.Header.{author_status_pass_add, author_status_fail}

pub record AuthorRequest : Type 0 where
  pub authen_method : ℕ
  pub priv_lvl : ℕ
  pub authen_type : ℕ
  pub authen_service : ℕ
  pub user : Bytes
  pub port : Bytes
  pub rem_addr : Bytes
  pub args : List Bytes

abbrev pub sum : List ℕ → ℕ
sum [] = 0
sum (n ∷ ns) = n + sum ns

-- `argLens[i] = int(data[8+i])`, with `left` rounds to go.
unfoldable pub read_arg_lens : Bytes → ℕ → ℕ → Result (List ℕ)
unfolding at
read_arg_lens bs zero i = ok []
read_arg_lens bs (suc left) i = do
  n ← at bs (8 + i)
  ns ← read_arg_lens bs left (i + 1)
  ok (n ∷ ns)

-- `args[i] = string(data[pos : pos+argLens[i]])`, for the lengths that are left.
unfoldable pub read_args : Bytes → List ℕ → ℕ → Result (List Bytes)
read_args bs [] pos = ok []
read_args bs (n ∷ ns) pos = do
  arg ← slice bs pos (pos + n)
  args ← read_args bs ns (pos + n)
  ok (arg ∷ args)

-- `DecodeAuthorRequest`
unfoldable pub decode_author_request : Bytes → Result AuthorRequest
unfolding at
decode_author_request bs = do
  guard (not (ltb (length bs) 8)) author_request_too_short
  user_len ← at bs 4
  port_len ← at bs 5
  rem_addr_len ← at bs 6
  arg_cnt ← at bs 7
  let hdr_len = 8 + arg_cnt
  guard (not (ltb (length bs) hdr_len)) author_header_too_short
  arg_lens ← read_arg_lens bs arg_cnt 0
  let expected_len = hdr_len + user_len + port_len + rem_addr_len + sum arg_lens
  guard (not (ltb (length bs) expected_len)) author_request_length
  user ← slice bs hdr_len (hdr_len + user_len)
  let port_pos = hdr_len + user_len
  port ← slice bs port_pos (port_pos + port_len)
  let rem_addr_pos = port_pos + port_len
  rem_addr ← slice bs rem_addr_pos (rem_addr_pos + rem_addr_len)
  args ← read_args bs arg_lens (rem_addr_pos + rem_addr_len)
  authen_method ← at bs 0
  priv_lvl ← at bs 1
  authen_type ← at bs 2
  authen_service ← at bs 3
  ok (record {
    authen_method = authen_method;
    priv_lvl = priv_lvl;
    authen_type = authen_type;
    authen_service = authen_service;
    user = user;
    port = port;
    rem_addr = rem_addr;
    args = args;
  })

pub record AuthorResponse : Type 0 where
  pub status : ℕ
  pub server_msg : Bytes
  pub content : Bytes
  pub args : List Bytes

-- `(r *AuthorResponse) Encode`. The list `argBytesList` has `uint8(len(r.Args))` places, so the loop
-- that fills it panics where there are more arguments than that.
unfoldable pub encode_author_response : AuthorResponse → Result Bytes
unfolding put_u16
encode_author_response r = do
  let msg_len = u16 (length r.server_msg)
  let data_len = u16 (length r.content)
  let arg_cnt = u8 (length r.args)
  bounds (leb (length r.args) arg_cnt)
  ok (
      r.status
      ∷ arg_cnt
      ∷ (put_u16 msg_len
          ++ (put_u16 data_len
              ++ (map (λ arg. u8 (length arg)) r.args
                  ++ (take msg_len r.server_msg ++ (take data_len r.content ++ concat r.args))))))

-- `ProcessAuthorRequest`
unfoldable pub process_author_request : AuthorRequest → AuthorResponse
process_author_request req =
    if not (bytes_eq req.user []) && has_no_prefix req.user
    then record {
      status = author_status_fail;
      server_msg = codes "Authorization denied";
      content = [];
      args = [];
    }
    else record {
      status = author_status_pass_add;
      server_msg = codes "Authorization allowed";
      content = [];
      args = req.args;
    }

-- `strings.Join(args, ", ")`
unfoldable pub join : List Bytes → Bytes
join [] = []
join (arg ∷ []) = arg
join (arg ∷ next ∷ args) = arg ++ (codes ", " ++ join (next ∷ args))

-- `FormatAuthorArgs`
unfoldable pub format_author_args : List Bytes → Bytes
unfolding join
format_author_args [] = codes "(none)"
format_author_args (arg ∷ args) = join (arg ∷ args)
