-- ===== src/Radius/Mschap.antt =====
-- cmd/server/handler.go: `parseMSCHAPData`, the two CHAP parsers and the checks of what they parse.
pub mod Total
pub mod Fields
use fakeradius.Base.{
  ℕ, ◌-◌, Bool, false, ◌||◌, not, [], ◌∷◌, ◌++◌, Option, none, some, length, ltb, leb, ◌==◌,
  if◌then◌else◌, Result, ok, err, ◌>>=◌, ◌>>◌, guard, chap_challenge_empty, chap_response_too_short,
  mschap_too_short, mschap_length, mschap_data_too_short, mschap_v1_too_short, mschap_v2_too_short,
  mschap_unknown_version,
}
use fakeradius.Base.Bytes.{Bytes, at, slice, bytes_eq, get_u16}
use fakeradius.Crypto.{Crypto}

pub record ChapData : Type 0 where
  pub id : ℕ
  pub value : Bytes
  pub name : Bytes

-- `parseCHAPChallenge`
unfoldable pub parse_chap_challenge : Bytes → Result ChapData
parse_chap_challenge attr_value = do
  guard (not (length attr_value == 0)) chap_challenge_empty
  ok (record { id = 0; value = attr_value; name = [] })

-- `parseCHAPResponse`
unfoldable pub parse_chap_response : Bytes → Result ChapData
unfolding at
parse_chap_response attr_value = do
  guard (not (ltb (length attr_value) 18)) chap_response_too_short
  id ← at attr_value 0
  value ← slice attr_value 1 17
  name ← slice attr_value 17 (length attr_value)
  ok (record { id = id; value = value; name = name })

-- `validateCHAPResponse`; a nil response is `none`.
unfoldable pub validate_chap_response : Crypto → Option Bytes → Bytes → Bytes → Result Bool
unfolding at
validate_chap_response c none password challenge = ok false
validate_chap_response c (some chap_response) password challenge =
    if ltb (length chap_response) 17 || ltb 64 (length chap_response) then ok false else (do
      id ← at chap_response 0
      received_hash ← slice chap_response 1 17
      ok (bytes_eq received_hash (c.md5 (id ∷ (password ++ challenge)))))

pub record MschapData : Type 0 where
  pub version : ℕ
  pub response : Bytes
  pub peer_challenge : Bytes
  pub flags : ℕ
  pub name : Bytes

-- The `switch msType`.
unfoldable pub parse_mschap_version : ℕ → Bytes → Bytes → Result MschapData
unfolding at
parse_mschap_version ms_type content name =
    if ms_type == 1
    then (do
      guard (not (ltb (length content) 24)) mschap_v1_too_short
      response ← slice content 0 24
      ok (record {
        version = ms_type;
        response = response;
        peer_challenge = [];
        flags = 0;
        name = name;
      }))
    else if ms_type == 3
    then (do
      guard (not (ltb (length content) 49)) mschap_v2_too_short
      peer_challenge ← slice content 0 16
      response ← slice content 24 48
      flags ← at content 48
      ok (record {
        version = ms_type;
        response = response;
        peer_challenge = peer_challenge;
        flags = flags;
        name = name;
      }))
    else err mschap_unknown_version

-- `parseMSCHAPData`
unfoldable pub parse_mschap_data : Bytes → Result MschapData
unfolding at parse_mschap_version
parse_mschap_data vendor_data = do
  guard (not (ltb (length vendor_data) 4)) mschap_too_short
  ms_type ← at vendor_data 0
  hi ← at vendor_data 2
  lo ← at vendor_data 3
  let ms_len = get_u16 hi lo
  guard (not (ltb (length vendor_data - 4) ms_len)) mschap_length
  guard (not (ltb ms_len 4)) mschap_data_too_short
  content ← slice vendor_data 4 ms_len
  name ← slice vendor_data ms_len (length vendor_data)
  parse_mschap_version ms_type content name

-- `validateMSCHAPResponse`
unfoldable pub validate_mschap_response : Option MschapData → Bytes → Bool
validate_mschap_response none username = false
validate_mschap_response (some mschap) username =
    if not (bytes_eq mschap.name username)
    then false
    else if mschap.version == 1
    then leb 24 (length mschap.response)
    else if mschap.version == 3
    then leb 24 (length mschap.response)
    else false
