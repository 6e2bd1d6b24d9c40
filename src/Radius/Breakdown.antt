-- ===== src/Radius/Breakdown.antt =====
-- cmd/server/main.go: `extractMA`, the one step of `showMABreakdown` that can fail. What `showMABreakdown`
-- computes is only logged.
pub mod Total
use fakeradius.Base.{
  ℕ, ◌+◌, Bool, true, false, ◌&&◌, length, ltb, leb, ◌==◌, if◌then◌else◌, Result, ok, ◌>>=◌, ◌>>◌,
  bounds,
}
use fakeradius.Base.Bytes.{Bytes}
use fakeradius.Radius.Attributes.{message_authenticator_type, malformed}
use fakeradius.Radius.Walk.{Flow, halt, next, for_attributes}

-- The slice `packet[pos+2:pos+18]` is made before the length of the attribute is checked. It can go beyond the
-- packet, up to the end of the buffer of 2048 bytes that the packet was read into.
abbrev pub find_ma : Bytes → ℕ → ℕ → ℕ → Bool → Result (Flow Bool)
find_ma packet pos attr_type attr_len found =
    if attr_type == message_authenticator_type && attr_len == 18
    then (do bounds (leb (pos + 18) 2048); ok (halt true))
    else if malformed packet pos attr_len
    then ok (halt found)
    else ok (next found)

-- `extractMA`: whether there is a value; the value and its place are only logged.
unfoldable pub extract_ma : Bytes → Result Bool
extract_ma packet =
    if ltb (length packet) 20
    then ok false
    else for_attributes (find_ma packet) packet (length packet) 20 false
