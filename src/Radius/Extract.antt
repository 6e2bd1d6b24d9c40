-- ===== src/Radius/Extract.antt =====
-- cmd/server/handler.go: the functions that take a value out of a packet, and `extractEAPMessage` of
-- cmd/server/main.go.
pub mod Total
pub mod Found
use fakeradius.Base.{
  ℕ, ◌+◌, Bool, ◌&&◌, [], ◌∷◌, ◌++◌, Option, none, some, length, ltb, leb, ◌==◌, if◌then◌else◌,
  Error, Result, ok, err, ◌>>=◌, user_name_not_found, chap_challenge_not_found,
  chap_response_not_found, mschap_not_found, eap_message_not_found,
}
use fakeradius.Base.Bytes.{Bytes, slice}
use fakeradius.Radius.Attributes.{
  user_name_type, chap_challenge_type, chap_response_type, eap_message_type, is_microsoft,
  malformed,
}
use fakeradius.Radius.Walk.{Flow, halt, next, for_attributes}

-- The body of `extractUsername`, `extractCHAPChallenge` and `extractCHAPResponse`. These go on behind
-- an attribute that does not fit, which ends the loop.
abbrev pub take_value : ℕ → Bytes → ℕ → ℕ → ℕ → Option Bytes → Result (Flow (Option Bytes))
take_value wanted packet pos attr_type attr_len s =
    if ltb attr_len 2
    then ok (halt s)
    else if attr_type == wanted && leb (pos + attr_len) (length packet)
    then (do value ← slice packet (pos + 2) (pos + attr_len); ok (halt (some value)))
    else ok (next s)

-- The `return nil, err` behind a loop that found nothing.
abbrev pub found_or : Error → Option Bytes → Result Bytes
found_or e none = err e
found_or e (some value) = ok value

-- `extractUsername`
unfoldable pub extract_username : Bytes → Result Bytes
extract_username packet = do
  found ← for_attributes (take_value user_name_type packet) packet (length packet) 20 none
  found_or user_name_not_found found

-- `extractCHAPChallenge`
unfoldable pub extract_chap_challenge : Bytes → Result Bytes
extract_chap_challenge packet = do
  found ← for_attributes (take_value chap_challenge_type packet) packet (length packet) 20 none
  found_or chap_challenge_not_found found

-- `extractCHAPResponse`
unfoldable pub extract_chap_response : Bytes → Result Bytes
extract_chap_response packet = do
  found ← for_attributes (take_value chap_response_type packet) packet (length packet) 20 none
  found_or chap_response_not_found found

abbrev pub take_microsoft : Bytes → ℕ → ℕ → ℕ → Option Bytes → Result (Flow (Option Bytes))
take_microsoft packet pos attr_type attr_len s =
    if ltb attr_len 2
    then ok (halt s)
    else if attr_type == 26 && leb (pos + attr_len) (length packet)
    then (do
      vendor_data ← slice packet (pos + 2) (pos + attr_len)
      microsoft ← is_microsoft vendor_data
      if microsoft
          then (do value ← slice vendor_data 4 (length vendor_data); ok (halt (some value)))
          else ok (next s))
    else ok (next s)

-- `extractMSCHAPAttribute`
unfoldable pub extract_mschap_attribute : Bytes → Result Bytes
extract_mschap_attribute packet = do
  found ← for_attributes (take_microsoft packet) packet (length packet) 20 none
  found_or mschap_not_found found

abbrev pub append_eap : Bytes → ℕ → ℕ → ℕ → Bytes → Result (Flow Bytes)
append_eap packet pos attr_type attr_len eap_data =
    if malformed packet pos attr_len
    then ok (halt eap_data)
    else if attr_type == eap_message_type
    then (do value ← slice packet (pos + 2) (pos + attr_len); ok (next (eap_data ++ value)))
    else ok (next eap_data)

-- `extractEAPMessage`
unfoldable pub extract_eap_message : Bytes → Result Bytes
extract_eap_message packet = do
  eap_data ← for_attributes (append_eap packet) packet (length packet) 20 []
  if length eap_data == 0 then err eap_message_not_found else ok eap_data
