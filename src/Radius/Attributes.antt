-- ===== src/Radius/Attributes.antt =====
-- cmd/server/handler.go: the attribute types, `buildAttribute` and the four `has…` scans.
pub mod Total
pub mod Scan
pub mod Panic
use fakeradius.Base.{
  ℕ, ◌+◌, ◌*◌, ◌^◌, Bool, true, false, ◌&&◌, ◌||◌, ◌∷◌, length, ltb, leb, ◌==◌, if◌then◌else◌,
  Result, ok, ◌>>=◌,
}
use fakeradius.Base.Bytes.{Bytes, at, slice, u8}
use fakeradius.Radius.Walk.{Flow, halt, next, for_attributes}

abbrev pub user_name_type : ℕ
user_name_type = 1

abbrev pub reply_message_type : ℕ
reply_message_type = 18

abbrev pub message_authenticator_type : ℕ
message_authenticator_type = 80

abbrev pub eap_message_type : ℕ
eap_message_type = 79

abbrev pub state_attribute_type : ℕ
state_attribute_type = 24

abbrev pub chap_challenge_type : ℕ
chap_challenge_type = 60

abbrev pub chap_response_type : ℕ
chap_response_type = 61

abbrev pub microsoft_vendor_id : ℕ
microsoft_vendor_id = 311

abbrev pub access_request : ℕ
access_request = 1

abbrev pub access_accept : ℕ
access_accept = 2

abbrev pub access_reject : ℕ
access_reject = 3

-- `buildAttribute`; the length byte wraps.
unfoldable pub build_attribute : ℕ → Bytes → Bytes
build_attribute attr_type value = attr_type ∷ u8 (2 + length value) ∷ value

-- The test that ends most scans: `attrLen < 2 || pos+attrLen > len(packet)`.
abbrev pub malformed : Bytes → ℕ → ℕ → Bool
malformed packet pos attr_len = ltb attr_len 2 || ltb (length packet) (pos + attr_len)

abbrev pub scan_for : (ℕ → Bool) → Bytes → ℕ → ℕ → ℕ → Bool → Result (Flow Bool)
scan_for wanted packet pos attr_type attr_len s = ok (
    if wanted attr_type
    then halt true
    else if malformed packet pos attr_len
    then halt s
    else next s)

-- `hasEAPAttributes`
unfoldable pub has_eap_attributes : Bytes → Result Bool
has_eap_attributes packet =
    for_attributes (scan_for (λ t. t == eap_message_type) packet) packet (length packet) 20 false

-- `hasMessageAuthenticator`
unfoldable pub has_message_authenticator : Bytes → Result Bool
has_message_authenticator packet =
    if ltb (length packet) 20
    then ok false
    else for_attributes (scan_for (λ t. t == message_authenticator_type) packet) packet
        (length packet) 20 false

-- `hasCHAPAttributes`
unfoldable pub has_chap_attributes : Bytes → Result Bool
has_chap_attributes packet =
    for_attributes (scan_for (λ t. t == chap_challenge_type || t == chap_response_type) packet)
      packet (length packet) 20 false

-- `uint32(vendorData[0])<<24 | …`
unfoldable pub vendor_id : Bytes → Result ℕ
unfolding at
vendor_id vendor_data = do
  a ← at vendor_data 0
  b ← at vendor_data 1
  c ← at vendor_data 2
  d ← at vendor_data 3
  ok (a * 2 ^ 24 + b * 2 ^ 16 + c * 2 ^ 8 + d)

-- The test of the two MS-CHAP functions on a Vendor-Specific value.
unfoldable pub is_microsoft : Bytes → Result Bool
unfolding vendor_id
is_microsoft vendor_data =
    if leb 4 (length vendor_data)
    then (do id ← vendor_id vendor_data; ok (id == microsoft_vendor_id))
    else ok false

-- Whether the attribute at `pos` is a Vendor-Specific one of Microsoft; an attribute length below 2 is a
-- panic of the slice.
unfoldable pub microsoft_at : Bytes → ℕ → ℕ → ℕ → Result Bool
microsoft_at packet pos attr_type attr_len =
    if attr_type == 26 && leb (pos + attr_len) (length packet)
    then (do vendor_data ← slice packet (pos + 2) (pos + attr_len); is_microsoft vendor_data)
    else ok false

abbrev pub mschap_scan : Bytes → ℕ → ℕ → ℕ → Bool → Result (Flow Bool)
mschap_scan packet pos attr_type attr_len s = do
  found ← microsoft_at packet pos attr_type attr_len
  ok (if found then halt true else if malformed packet pos attr_len then halt s else next s)

-- `hasMSCHAPAttributes`
unfoldable pub has_mschap_attributes : Bytes → Result Bool
has_mschap_attributes packet = for_attributes (mschap_scan packet) packet (length packet) 20 false
