-- ===== src/Radius/Decide.antt =====
-- cmd/server/handler.go: which code and message answer a request.
pub mod Short
pub mod Policy
use fakeradius.Base.{
  ℕ, ◌+◌, Bool, ◌&&◌, not, [], ◌∷◌, ◌++◌, Option, none, some, length, take, leb, if◌then◌else◌,
}
use fakeradius.Base.Bytes.{Bytes, bytes_eq, codes}
use fakeradius.Radius.Attributes.{access_accept, access_reject}
use fakeradius.Radius.Mschap.{MschapData, validate_mschap_response}

-- The response code and the Reply-Message.
pub record Decision : Type 0 where
  pub code : ℕ
  pub message : Bytes

abbrev pub accepts : Bytes → Decision
accepts message = record { code = access_accept; message = message }

abbrev pub rejects : Bytes → Decision
rejects message = record { code = access_reject; message = message }

-- `hasNoPrefix`
unfoldable pub has_no_prefix : Bytes → Bool
unfolding bytes_eq
has_no_prefix username = leb 3 (length username) && bytes_eq (take 3 username) (codes "no_")

-- `ServeRadius`
unfoldable pub serve_radius : Bytes → Decision
serve_radius username =
    if not (bytes_eq username []) && has_no_prefix username
    then rejects (codes "User not allowed")
    else accepts (codes "Authentication accepted")

-- `ServeRadiusWithCHAP`; a nil response is `none`. The challenge is not looked at.
unfoldable pub serve_radius_with_chap : Bytes → Option Bytes → Option Bytes → Decision
serve_radius_with_chap username chap_response challenge =
    if not (bytes_eq username []) && has_no_prefix username
    then rejects (codes "User not allowed")
    else elim chap_response [
      | none ↦ accepts (codes "Authentication accepted (no CHAP response)")
      | some response ↦
          if leb 17 (length response)
          then accepts (codes "CHAP authentication accepted")
          else rejects (codes "Invalid CHAP response format")
    ]

-- `fmt.Sprintf("MS-CHAP v%d authentication accepted", mschap.Version)`, for a version of one digit.
abbrev pub mschap_accepted : ℕ → Bytes
mschap_accepted version = codes "MS-CHAP v" ++ ((b'0' + version) ∷ codes " authentication accepted")

-- `ServeRadiusWithMSCHAP`; only the versions 1 and 3 pass the check.
unfoldable pub serve_radius_with_mschap : Bytes → Option MschapData → Decision
serve_radius_with_mschap username mschap =
    if not (bytes_eq username []) && has_no_prefix username
    then rejects (codes "User not allowed")
    else elim mschap [
      | none ↦ accepts (codes "Authentication accepted")
      | some parsed ↦
          if validate_mschap_response (some parsed) username
          then accepts (mschap_accepted parsed.version)
          else rejects (codes "MS-CHAP authentication failed")
    ]
