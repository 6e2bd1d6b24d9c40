-- ===== src/Radius/Decide/Short.antt =====
-- The Reply-Messages of `ServeRadius` and its two variants in cmd/server/handler.go are short.
use fakeradius.Base.{
  ◌≤◌, arith, inl, inr, not, ◌&&◌, [], Option, none, some, length, leb, Bool-cases, if◌then◌else◌,
}
use fakeradius.Base.Bytes.{Bytes, codes, bytes_eq}
use fakeradius.Radius.Decide.{
  Decision, accepts, rejects, has_no_prefix, serve_radius, serve_radius_with_chap,
  serve_radius_with_mschap, mschap_accepted,
}
use fakeradius.Radius.Mschap.{MschapData, validate_mschap_response}

abbrev pub Short : Decision → Type 0
Short d = length d.message ≤ 100

pub serve_radius-Short : (u : Bytes) → Short (serve_radius u)
unfolding serve_radius
serve_radius-Short u = elim (Bool-cases (not (bytes_eq u []) && has_no_prefix u)) [
  | inl refused ↦ rw refused (omega arith)
  | inr allowed ↦ rw allowed (omega arith)
]

pub serve_radius_with_chap-Short :
    (u : Bytes) (response challenge : Option Bytes)
    → Short (serve_radius_with_chap u response challenge)
unfolding serve_radius_with_chap
serve_radius_with_chap-Short u response challenge =
    elim (Bool-cases (not (bytes_eq u []) && has_no_prefix u)) [
      | inl refused ↦ rw refused (omega arith)
      | inr allowed ↦ rw allowed (chap response)
    ]
  where
    chap :
        (r : Option Bytes)
        → Short (elim r [
          | none ↦ accepts (codes "Authentication accepted (no CHAP response)")
          | some response ↦
              if leb 17 (length response)
              then accepts (codes "CHAP authentication accepted")
              else rejects (codes "Invalid CHAP response format")
        ])
    chap none = omega arith
    chap (some r) = elim (Bool-cases (leb 17 (length r))) [
      | inl e ↦ rw e (omega arith)
      | inr e ↦ rw e (omega arith)
    ]

pub serve_radius_with_mschap-Short :
    (u : Bytes) (mschap : Option MschapData) → Short (serve_radius_with_mschap u mschap)
unfolding serve_radius_with_mschap
serve_radius_with_mschap-Short u mschap =
    elim (Bool-cases (not (bytes_eq u []) && has_no_prefix u)) [
      | inl refused ↦ rw refused (omega arith)
      | inr allowed ↦ rw allowed (parsed mschap)
    ]
  where
    parsed :
        (m : Option MschapData)
        → Short (elim m [
          | none ↦ accepts (codes "Authentication accepted")
          | some d ↦
              if validate_mschap_response (some d) u
              then accepts (mschap_accepted d.version)
              else rejects (codes "MS-CHAP authentication failed")
        ])
    parsed none = omega arith
    parsed (some d) = elim (Bool-cases (validate_mschap_response (some d) u)) [
      | inl e ↦ rw e (omega arith)
      | inr e ↦ rw e (omega arith)
    ]
