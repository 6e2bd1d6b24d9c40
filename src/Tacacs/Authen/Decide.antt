-- ===== src/Tacacs/Authen/Decide.antt =====
-- `hasNoPrefix` and `ProcessAuthenStart` of pkg/tacacs/authen.go.
use fakeradius.Base.{
  ◌≡◌, ◌≢◌, ◌↔◌, ◌⊎◌, inl, inr, refl, arith, true, false, [], ◌∷◌, ◌++◌, sym, ◌∙◌, Bool-cases,
}
use fakeradius.Base.Bytes.{Bytes, codes, bytes_eq}
use fakeradius.Tacacs.Authen.{AuthenStart, has_no_prefix, process_authen_start}
use mathlib.Core.Bool.{false≢true}
use fakeradius.Tacacs.Header.{
  authen_type_ascii, authen_status_pass, authen_status_fail, authen_status_get_user,
}

-- A name that the servers reject.
abbrev pub IsRejected : Bytes → Type 0
IsRejected user = (rest : Bytes) × (user ≡ codes "no_" ++ rest)

pub has_no_prefix_iff : (user : Bytes) → (has_no_prefix user ≡ true) ↔ IsRejected user
unfolding has_no_prefix
has_no_prefix_iff (a ∷ b ∷ c ∷ rest) = (λ h. (rest, ground arith), λ (t, e). ground arith)
has_no_prefix_iff _ = (λ h. cc, λ (t, e). cc)

-- What the two tests of the code say of the name.
data NameCase (user : Bytes) : Type 0 where
  rejected :
      IsRejected user
      → user ≢ []
      → bytes_eq user [] ≡ false
      → has_no_prefix user ≡ true
      → NameCase user
  empty : user ≡ [] → ¬ IsRejected user → bytes_eq user [] ≡ true → NameCase user
  allowed :
      user ≢ []
      → ¬ IsRejected user
      → bytes_eq user [] ≡ false
      → has_no_prefix user ≡ false
      → NameCase user

name_case : (user : Bytes) → NameCase user
unfolding bytes_eq
name_case [] = empty refl (λ (t, e). cc) refl
name_case (a ∷ user) = elim (Bool-cases (has_no_prefix (a ∷ user))) [
  | inl h ↦ rejected ((has_no_prefix_iff (a ∷ user)).0 h) (λ e. cc) refl h
  | inr h ↦ allowed (λ e. cc) (λ r. false≢true (sym h ∙ (has_no_prefix_iff (a ∷ user)).1 r)) refl h
]

-- `ProcessAuthenStart` answers FAIL exactly to a name with the prefix "no_", GETUSER exactly to an
-- ASCII start with no name, and PASS exactly to every other start.
pub process_authen_start_lem :
    (s : AuthenStart)
    → ((process_authen_start s).status ≡ authen_status_fail ↔ IsRejected s.user)
      × ((process_authen_start s).status ≡ authen_status_get_user
          ↔ (s.user ≡ []) × (s.authen_type ≡ authen_type_ascii))
      × ((process_authen_start s).status ≡ authen_status_pass
          ↔ (¬ IsRejected s.user) × ((s.user ≢ []) ⊎ (s.authen_type ≢ authen_type_ascii)))
unfolding process_authen_start
process_authen_start_lem s = elim (name_case s.user) [
  | rejected r ne e h ↦ ground arith
  | empty e r h ↦ ground arith
  | allowed ne r e h ↦ ground arith
]
