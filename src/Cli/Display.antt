-- ===== src/Cli/Display.antt =====
-- cmd/cli/radius-cli.go: `DisplayResponse`, from a packet to what its lines say, the dump at the end
-- included.
pub mod Total
pub mod Encoded
use fakeradius.Base.{
  ℕ, zero, suc, ◌+◌, ◌-◌, ◌/◌, ◌%◌, Bool, true, false, ◌&&◌, ◌||◌, List, [], ◌∷◌, map, take, drop,
  leb, ◌++◌, length, ltb, ◌==◌, if◌then◌else◌, Result, ok, ◌>>=◌,
}
use fakeradius.Base.Bytes.{Bytes, at, slice, codes, get_u16}
use fakeradius.Cli.Requests.{user_password_type}
use fakeradius.Radius.Attributes.{
  access_request, access_accept, access_reject, reply_message_type, message_authenticator_type,
  malformed,
}
use fakeradius.Radius.Walk.{Flow, halt, next, for_attributes}

-- `fmt.Sprintf("%d", n)`, for a number of as many digits as the fuel.
abbrev pub decimal : ℕ → ℕ → Bytes
decimal zero n = []
decimal (suc fuel) n = elim (ltb n 10) [
  | true ↦ (b'0' + n) ∷ []
  | false ↦ decimal fuel (n / 10) ++ (b'0' + n % 10) ∷ []
]

-- `codeToString`, of a byte.
unfoldable pub code_to_string : ℕ → Bytes
code_to_string code =
    if code == access_request
    then codes "Access-Request"
    else if code == access_accept
    then codes "Access-Accept"
    else if code == access_reject
    then codes "Access-Reject"
    else codes "Unknown(" ++ (decimal 3 code ++ codes ")")

-- `attrTypeName`, of a byte.
unfoldable pub attr_type_name : ℕ → Bytes
attr_type_name attr_type =
    if attr_type == 1
    then codes "User-Name"
    else if attr_type == 2
    then codes "User-Password"
    else if attr_type == 4
    then codes "NAS-IP-Address"
    else if attr_type == 18
    then codes "Reply-Message"
    else if attr_type == 26
    then codes "Vendor-Specific (MS-CHAP)"
    else if attr_type == 32
    then codes "NAS-Identifier"
    else if attr_type == 60
    then codes "CHAP-Challenge"
    else if attr_type == 61
    then codes "CHAP-Response"
    else if attr_type == 80
    then codes "Message-Authenticator"
    else codes "Type-" ++ decimal 3 attr_type

-- `isPrintable`
unfoldable pub is_printable : Bytes → Bool
is_printable [] = true
is_printable (b ∷ rest) = if ltb b 32 || ltb 126 b then false else is_printable rest

-- How a value is printed: with `%q`, in hexadecimal, as a string, or not at all.
pub data Style : Type 0 where
  hidden : Style
  quoted encoded text : Bytes → Style

-- The line of an attribute.
pub record Row : Type 0 where
  pub name : Bytes
  pub attr_type : ℕ
  pub style : Style

-- The `switch attrType`.
unfoldable pub style_of : ℕ → Bytes → Style
style_of attr_type value =
    if attr_type == reply_message_type
    then quoted value
    else if attr_type == message_authenticator_type
    then encoded value
    else if attr_type == user_password_type
    then hidden
    else if is_printable value
    then text value
    else encoded value

abbrev pub row : ℕ → Bytes → Row
row attr_type value = record {
  name = attr_type_name attr_type;
  attr_type = attr_type;
  style = style_of attr_type value;
}

-- A round of the loop.
abbrev pub append_row : Bytes → ℕ → ℕ → ℕ → List Row → Result (Flow (List Row))
append_row packet pos attr_type attr_len rows =
    if malformed packet pos attr_len then ok (halt rows) else (do
      value ← slice packet (pos + 2) (pos + attr_len)
      ok (next (rows ++ row attr_type value ∷ [])))

-- A line of the dump: the offset, the bytes that are printed in hexadecimal, and their characters.
pub record DumpLine : Type 0 where
  pub offset : ℕ
  pub bytes : Bytes
  pub characters : Bytes

-- `data[j]` as it is, or a dot.
abbrev pub character : ℕ → ℕ
character b = if leb 32 b && leb b 126 then b else b'.'

-- `printHexDump`, from the offset on, where the data have no more bytes than the fuel. The spaces between the
-- columns are left out.
abbrev pub hex_dump : ℕ → ℕ → Bytes → List DumpLine
hex_dump zero i data_left = []
hex_dump (suc fuel) i [] = []
hex_dump (suc fuel) i (b ∷ rest) =
    record { offset = i; bytes = b ∷ take 15 rest; characters = map character (b ∷ take 15 rest) }
    ∷ hex_dump fuel (i + 16) (drop 15 rest)

-- What is printed.
pub data Display : Type 0 where
  too_short bad_length : Display
  shown :
      (code : ℕ) (code_name : Bytes) (identifier len : ℕ) (authenticator : Bytes) (rows : List Row)
      (dump : List DumpLine)
      → Display

-- `DisplayResponse`
unfoldable pub display_response : Bytes → Result Display
display_response received = if ltb (length received) 20 then ok too_short else (do
  code ← at received 0
  identifier ← at received 1
  hi ← at received 2
  lo ← at received 3
  let len = get_u16 hi lo
  if ltb (length received) len || ltb len 20 then ok bad_length else (do
    packet ← slice received 0 len
    authenticator ← slice packet 4 20
    rows ← for_attributes (append_row packet) packet len 20 []
    ok (
        shown code (code_to_string code) identifier len authenticator rows
          (hex_dump (length packet) 0 packet))))
