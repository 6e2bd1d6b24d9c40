-- ===== src/Tacacs/Authen/Reply.antt =====
-- `Encode` of an `AuthenReply` in pkg/tacacs/authen.go.
use fakeradius.Base.{◌+◌, ◌^◌, ◌≤◌, ◌<◌, ◌≡◌, arith, ◌∷◌, ◌++◌, length, ok, panic, take_all}
use fakeradius.Base.Bytes.{Bytes, put_u16}
use fakeradius.Tacacs.Authen.{AuthenReply, encode_authen_reply}

-- The layout of RFC 8907 §5.2.
abbrev pub reply_bytes : AuthenReply → Bytes
reply_bytes r =
    r.status
    ∷ r.flags
    ∷ (put_u16 (length r.server_msg) ++ (put_u16 (length r.content) ++ (r.server_msg ++ r.content)))

-- For a message and data of 16-bit lengths `Encode` writes the layout of the RFC where the body's
-- length fits in 16 bits too, and panics where it does not.
pub encode_authen_reply_lem :
    (r : AuthenReply)
    → length r.server_msg < 2 ^ 16
    → length r.content < 2 ^ 16
    → (6 + length r.server_msg + length r.content < 2 ^ 16
        → encode_authen_reply r ≡ ok (reply_bytes r))
      × (2 ^ 16 ≤ 6 + length r.server_msg + length r.content → encode_authen_reply r ≡ panic)
unfolding encode_authen_reply
encode_authen_reply_lem r m d = (
  λ h.
      ground
        (arith, take_all (length r.server_msg) r.server_msg, take_all (length r.content) r.content),
  λ h. ground arith,
)
