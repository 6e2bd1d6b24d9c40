-- ===== src/Tacacs/Author/Response.antt =====
-- `ProcessAuthorRequest` and `Encode` of an `AuthorResponse` in pkg/tacacs/author.go.
use fakeradius.Base.{
  ◌^◌, ◌≤◌, ◌<◌, ◌≡◌, refl, arith, List, map, concat, [], ◌∷◌, ◌++◌, length, ok, panic, take_all,
  All,
}
use fakeradius.Base.Bytes.{Bytes, put_u16, u8}
use fakeradius.Tacacs.Author.{AuthorResponse, encode_author_response}

-- The layout of RFC 8907 §6.2.
abbrev pub response_bytes : AuthorResponse → Bytes
response_bytes r =
    r.status
    ∷ length r.args
    ∷ (put_u16 (length r.server_msg)
        ++ (put_u16 (length r.content)
            ++ (map (λ (arg : Bytes). length arg) r.args
                ++ (r.server_msg ++ (r.content ++ concat r.args)))))

map-u8 :
    (args : List Bytes)
    → All (λ (arg : Bytes). length arg < 2 ^ 8) args
    → map (λ (arg : Bytes). u8 (length arg)) args ≡ map (λ (arg : Bytes). length arg) args
map-u8 [] h = refl
map-u8 (arg ∷ args) h = ground (arith, map-u8 args h.1)

-- For a message and data of 16-bit lengths and arguments of 8-bit lengths `Encode` writes the layout
-- of the RFC for up to 255 arguments, and panics for more.
pub encode_author_response_lem :
    (r : AuthorResponse)
    → length r.server_msg < 2 ^ 16
    → length r.content < 2 ^ 16
    → All (λ (arg : Bytes). length arg < 2 ^ 8) r.args
    → (length r.args < 2 ^ 8 → encode_author_response r ≡ ok (response_bytes r))
      × (2 ^ 8 ≤ length r.args → encode_author_response r ≡ panic)
unfolding encode_author_response
encode_author_response_lem r m d a = (
  λ h. ground (
    arith,
    map-u8 r.args a,
    take_all (length r.server_msg) r.server_msg,
    take_all (length r.content) r.content,
  ),
  λ h. ground arith,
)
