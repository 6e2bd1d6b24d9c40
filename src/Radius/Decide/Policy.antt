-- ===== src/Radius/Decide/Policy.antt =====
-- What `ServeRadius` and its two variants in cmd/server/handler.go decide.
use fakeradius.Base.{
  ℕ, ◌≤◌, ◌<◌, ◌≡◌, ◌↔◌, ◌⊎◌, refl, sym, ◌∙◌, ap, arith, inl, inr, Bool, true, false, not, ◌&&◌, [],
  ◌∷◌, Option, none, some, some-injective, length, leb, ◌==◌, leb→le, leb→gt, Bool-cases,
  if◌then◌else◌,
}
use fakeradius.Base.Bytes.{Bytes, bytes_eq, eq_of_bytes_eq, bytes_eq_refl}
use fakeradius.Radius.Attributes.{access_accept, access_reject}
use fakeradius.Radius.Decide.{
  has_no_prefix, serve_radius, serve_radius_with_chap, serve_radius_with_mschap,
}
use fakeradius.Radius.Mschap.{MschapData, validate_mschap_response}
use fakeradius.Tacacs.Authen.Decide.{IsRejected}
use mathlib.Core.Bool.{false≢true}

abbrev pub refuses : Bytes → Bool
refuses user = not (bytes_eq user []) && has_no_prefix user

refuses_iff : (user : Bytes) → (refuses user ≡ true) ↔ IsRejected user
unfolding has_no_prefix bytes_eq
refuses_iff (a ∷ b ∷ c ∷ rest) = (λ h. (rest, ground arith), λ (t, e). ground arith)
refuses_iff _ = (λ h. cc, λ (t, e). cc)

-- What the test says of a name.
pub data NameCase (user : Bytes) : Type 0 where
  rejected : IsRejected user → refuses user ≡ true → NameCase user
  allowed : ¬ IsRejected user → refuses user ≡ false → NameCase user

pub name_case : (user : Bytes) → NameCase user
name_case user = elim (Bool-cases (refuses user)) [
  | inl h ↦ rejected ((refuses_iff user).0 h) h
  | inr h ↦ allowed (λ r. false≢true (sym h ∙ (refuses_iff user).1 r)) h
]

-- `ServeRadius` rejects exactly the names that begin with "no_" and accepts exactly the others.
pub serve_radius_lem :
    (user : Bytes)
    → ((serve_radius user).code ≡ access_reject ↔ IsRejected user)
      × ((serve_radius user).code ≡ access_accept ↔ ¬ IsRejected user)
unfolding serve_radius
serve_radius_lem user = elim (name_case user) [
  | rejected r h ↦ rw h (ground arith)
  | allowed r h ↦ rw h (ground arith)
]

-- A CHAP response in the form that the server wants: none, or one of seventeen bytes or more.
abbrev pub IsChap : Option Bytes → Type 0
IsChap response = (response ≡ none) ⊎ ((v : Bytes) × (response ≡ some v) × (17 ≤ length v))

too_short : (v : Bytes) → length v < 17 → ¬ IsChap (some v)
too_short v h (inl e) = cc
too_short v h (inr (w, e, k)) =
    let same : length v ≡ length w = ap length (some-injective e) in omega arith

-- MS-CHAP data that the server is content with: none, or data in the user's name with a version that it
-- knows and a whole response.
abbrev pub IsMschap : Bytes → Option MschapData → Type 0
IsMschap user mschap =
    (mschap ≡ none)
    ⊎ ((d : MschapData) × (mschap ≡ some d)
        × (d.name ≡ user)
        × ((d.version ≡ 1) ⊎ (d.version ≡ 3))
        × (24 ≤ length d.response))

-- `ServeRadiusWithCHAP` accepts exactly where the name does not begin with "no_" and there is no
-- response or one of seventeen bytes or more, whatever the challenge.
pub serve_radius_with_chap_lem :
    (user : Bytes) (response challenge : Option Bytes)
    → (serve_radius_with_chap user response challenge).code ≡ access_accept
      ↔ (¬ IsRejected user) × IsChap response
unfolding serve_radius_with_chap
serve_radius_with_chap_lem user none challenge = elim (name_case user) [
  | rejected r h ↦ rw h (λ e. absurd (omega arith), λ (k, _). absurd (k r))
  | allowed r h ↦ rw h (λ _. (r, inl refl), λ _. refl)
]
serve_radius_with_chap_lem user (some v) challenge = elim (name_case user) [
  | rejected r h ↦ rw h (λ e. absurd (omega arith), λ (k, _). absurd (k r))
  | allowed r h ↦ elim (Bool-cases (leb 17 (length v))) [
    | inl e ↦ rw (h, e) (λ _. (r, inr (v, refl, leb→le 17 (length v) e)), λ _. refl)
    | inr e ↦
        rw (h, e)
          (λ f. absurd (omega arith), λ (_, k). absurd (too_short v (leb→gt 17 (length v) e) k))
  ]
]

whole_response :
    (version n : ℕ)
    → ((if version == 1 then leb 24 n else if version == 3 then leb 24 n else false) ≡ true)
      ↔ ((version ≡ 1) ⊎ (version ≡ 3)) × (24 ≤ n)
whole_response version n = ground arith

checked :
    (d : MschapData) (user : Bytes)
    → (validate_mschap_response (some d) user ≡ true)
      ↔ (d.name ≡ user) × ((d.version ≡ 1) ⊎ (d.version ≡ 3)) × (24 ≤ length d.response)
unfolding validate_mschap_response
checked d user = elim (Bool-cases (bytes_eq d.name user)) [
  | inl e ↦ rw e (
    λ h.
        let (v, n) = (whole_response d.version (length d.response)).0 h in
        (eq_of_bytes_eq d.name user e, v, n),
    λ k. (whole_response d.version (length d.response)).1 (k.1, k.2),
  )
  | inr e ↦ rw e (
    λ h. absurd (false≢true h),
    λ k. absurd (false≢true (sym e ∙ ap (λ n. bytes_eq n user) k.0 ∙ bytes_eq_refl user)),
  )
]

unchecked :
    (d : MschapData) (user : Bytes)
    → validate_mschap_response (some d) user ≡ false
    → ¬ IsMschap user (some d)
unchecked d user e (inl f) = cc
unchecked d user e (inr (d', f, k, l, m)) =
    let same : d ≡ d' = some-injective f in
    absurd (
      false≢true (
        sym e
        ∙ ap (λ x. validate_mschap_response (some x) user) same
        ∙ (checked d' user).1 (k, l, m)))

-- `ServeRadiusWithMSCHAP` accepts exactly where the name does not begin with "no_" and there are no
-- MS-CHAP data, or data for the same name, of version 1 or 3, with a response of 24 bytes or more.
pub serve_radius_with_mschap_lem :
    (user : Bytes) (mschap : Option MschapData)
    → (serve_radius_with_mschap user mschap).code ≡ access_accept
      ↔ (¬ IsRejected user) × IsMschap user mschap
unfolding serve_radius_with_mschap
serve_radius_with_mschap_lem user none = elim (name_case user) [
  | rejected r h ↦ rw h (λ e. absurd (omega arith), λ (k, _). absurd (k r))
  | allowed r h ↦ rw h (λ _. (r, inl refl), λ _. refl)
]
serve_radius_with_mschap_lem user (some d) = elim (name_case user) [
  | rejected r h ↦ rw h (λ e. absurd (omega arith), λ (k, _). absurd (k r))
  | allowed r h ↦ elim (Bool-cases (validate_mschap_response (some d) user)) [
    | inl e ↦
        rw (h, e)
          (λ _. let (k, v, n) = (checked d user).0 e in (r, inr (d, refl, k, v, n)), λ _. refl)
    | inr e ↦ rw (h, e) (λ f. absurd (omega arith), λ (_, k). absurd (unchecked d user e k))
  ]
]
