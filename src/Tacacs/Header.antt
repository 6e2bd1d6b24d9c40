-- ===== src/Tacacs/Header.antt =====
-- pkg/tacacs/header.go: the constants and the 12-byte header.
pub mod Codec
use fakeradius.Base.{
  ℕ, ◌/◌, ◌^◌, ◌<◌, not, ◌∷◌, ◌++◌, length, ltb, ◌==◌, Result, ok, ◌>>=◌, ◌>>◌, guard,
  header_too_short, unsupported_major_version,
}
use fakeradius.Base.Bytes.{Bytes, at, slice, put_u32, get_u32}

abbrev pub header_len : ℕ
header_len = 12

abbrev pub major_ver12 : ℕ
major_ver12 = 0x0C

-- `(MajorVer12 << 4) | MinorVerDefault`
abbrev pub version120 : ℕ
version120 = 0xC0

abbrev pub type_authen : ℕ
type_authen = 0x01

abbrev pub type_author : ℕ
type_author = 0x02

abbrev pub flag_unencrypted : ℕ
flag_unencrypted = 0x01

abbrev pub flag_single_connect : ℕ
flag_single_connect = 0x04

abbrev pub authen_action_login : ℕ
authen_action_login = 0x01

abbrev pub authen_type_ascii : ℕ
authen_type_ascii = 0x01

abbrev pub authen_service_login : ℕ
authen_service_login = 0x01

abbrev pub authen_status_pass : ℕ
authen_status_pass = 0x01

abbrev pub authen_status_fail : ℕ
authen_status_fail = 0x02

abbrev pub authen_status_get_user : ℕ
authen_status_get_user = 0x04

abbrev pub author_status_pass_add : ℕ
author_status_pass_add = 0x01

abbrev pub author_status_fail : ℕ
author_status_fail = 0x10

pub record Header : Type 0 where
  pub version : ℕ
  pub type : ℕ
  pub seq_no : ℕ
  pub flags : ℕ
  pub session_id : ℕ
  pub length : ℕ

-- `binary.BigEndian.Uint32(data[lo:hi])`
unfoldable pub read_u32 : Bytes → ℕ → ℕ → Result ℕ
unfolding at slice
read_u32 bs lo hi = do
  s ← slice bs lo hi
  a ← at s 0
  b ← at s 1
  c ← at s 2
  d ← at s 3
  ok (get_u32 a b c d)

-- `DecodeHeader`
unfoldable pub decode_header : Bytes → Result Header
unfolding at read_u32
decode_header bs = do
  guard (not (ltb (length bs) header_len)) header_too_short
  version ← at bs 0
  type ← at bs 1
  seq_no ← at bs 2
  flags ← at bs 3
  session_id ← read_u32 bs 4 8
  len ← read_u32 bs 8 12
  guard (version / 2 ^ 4 == major_ver12) unsupported_major_version
  ok (record {
    version = version;
    type = type;
    seq_no = seq_no;
    flags = flags;
    session_id = session_id;
    length = len;
  })

-- `(h *Header) Encode`
unfoldable pub encode_header : Header → Bytes
unfolding put_u32
encode_header h =
    h.version ∷ h.type ∷ h.seq_no ∷ h.flags ∷ (put_u32 h.session_id ++ put_u32 h.length)

-- The fields of a `Header` have the widths of the Go struct.
pub record IsHeader (h : Header) : Type 0 where
  pub version_lt : h.version < 2 ^ 8
  pub type_lt : h.type < 2 ^ 8
  pub seq_no_lt : h.seq_no < 2 ^ 8
  pub flags_lt : h.flags < 2 ^ 8
  pub session_id_lt : h.session_id < 2 ^ 32
  pub length_lt : h.length < 2 ^ 32
