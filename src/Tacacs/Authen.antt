-- ===== src/Tacacs/Authen.antt =====
-- pkg/tacacs/authen.go: the START body, the REPLY body and the decision between them.
pub mod Codec
pub mod Decide
pub mod Reply
use fakeradius.Base.{
  ℕ, ◌+◌, ◌-◌, Bool, not, ◌&&◌, [], ◌∷◌, ◌++◌, length, take, ltb, leb, ◌==◌, if◌then◌else◌, Result,
  ok, ◌>>=◌, ◌>>◌, guard, bounds, authen_start_too_short, authen_start_length,
}
use fakeradius.Base.Bytes.{Bytes, at, slice, bytes_eq, codes, u16, put_u16}
use fakeradius.Tacacs.Header.{
  authen_type_ascii, authen_status_pass, authen_status_fail, authen_status_get_user,
}

pub record AuthenStart : Type 0 where
  pub action : ℕ
  pub priv_lvl : ℕ
  pub authen_type : ℕ
  pub service : ℕ
  pub user : Bytes
  pub port : Bytes
  pub rem_addr : Bytes
  pub content : Bytes

-- `DecodeAuthenStart`; the field `content` is `Data`.
unfoldable pub decode_authen_start : Bytes → Result AuthenStart
unfolding at
decode_authen_start bs = do
  guard (not (ltb (length bs) 8)) authen_start_too_short
  user_len ← at bs 4
  port_len ← at bs 5
  rem_addr_len ← at bs 6
  data_len ← at bs 7
  let expected_len = 8 + user_len + port_len + rem_addr_len + data_len
  guard (not (ltb (length bs) expected_len)) authen_start_length
  let user_pos : ℕ = 8
  user ← slice bs user_pos (user_pos + user_len)
  let port_pos = user_pos + user_len
  port ← slice bs port_pos (port_pos + port_len)
  let rem_addr_pos = port_pos + port_len
  rem_addr ← slice bs rem_addr_pos (rem_addr_pos + rem_addr_len)
  let data_pos = rem_addr_pos + rem_addr_len
  content ← slice bs data_pos (data_pos + data_len)
  action ← at bs 0
  priv_lvl ← at bs 1
  authen_type ← at bs 2
  service ← at bs 3
  ok (record {
    action = action;
    priv_lvl = priv_lvl;
    authen_type = authen_type;
    service = service;
    user = user;
    port = port;
    rem_addr = rem_addr;
    content = content;
  })

pub record AuthenReply : Type 0 where
  pub status : ℕ
  pub flags : ℕ
  pub server_msg : Bytes
  pub content : Bytes

-- `(r *AuthenReply) Encode`. The sums `6+msgLen` and `6+msgLen+dataLen` are of type uint16, so they
-- wrap; the two tests are the bounds of `buf[4:6]`, `buf[6:6+msgLen]` and `buf[6+msgLen:]`, and each
-- copy stops at the end of its slice.
unfoldable pub encode_authen_reply : AuthenReply → Result Bytes
unfolding put_u16
encode_authen_reply r = do
  let msg_len = u16 (length r.server_msg)
  let data_len = u16 (length r.content)
  let size = u16 (6 + msg_len + data_len)
  let msg_end = u16 (6 + msg_len)
  bounds (leb 6 size)
  bounds (leb 6 msg_end && leb msg_end size)
  ok (
      r.status
      ∷ r.flags
      ∷ (put_u16 msg_len
          ++ (put_u16 data_len
              ++ (take (msg_end - 6) r.server_msg ++ take (size - msg_end) r.content))))

-- `hasNoPrefix`
unfoldable pub has_no_prefix : Bytes → Bool
unfolding bytes_eq
has_no_prefix username = leb 3 (length username) && bytes_eq (take 3 username) (codes "no_")

-- `ProcessAuthenStart`
unfoldable pub process_authen_start : AuthenStart → AuthenReply
process_authen_start start =
    if not (bytes_eq start.user []) && has_no_prefix start.user
    then record {
      status = authen_status_fail;
      flags = 0;
      server_msg = codes "User not allowed";
      content = [];
    }
    else if bytes_eq start.user [] && start.authen_type == authen_type_ascii
    then record {
      status = authen_status_get_user;
      flags = 0;
      server_msg = codes "User: ";
      content = [];
    }
    else record {
      status = authen_status_pass;
      flags = 0;
      server_msg = codes "Authentication successful";
      content = [];
    }
