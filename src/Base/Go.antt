-- ===== src/Base/Go.antt =====
-- The outcome of a Go function: a value, the error of a `(value, error)` pair, or a panic. `stuck` is
-- no outcome of Go: a loop of the model has used up its fuel.
use mathlib.Core.Path.{◌≡◌, refl}
use mathlib.Core.Bool.{Bool, true, false}
use mathlib.Core.Option.{some}

-- The errors that the modelled functions return, one for each message.
pub data Error : Type 0 where
  header_too_short unsupported_major_version empty_secret : Error
  authen_start_too_short authen_start_length : Error
  author_request_too_short author_header_too_short author_request_length : Error
  user_name_not_found chap_challenge_empty chap_response_too_short : Error
  chap_challenge_not_found chap_response_not_found : Error
  mschap_not_found mschap_too_short mschap_length mschap_data_too_short : Error
  mschap_v1_too_short mschap_v2_too_short mschap_unknown_version : Error
  eap_message_not_found unsupported_packet_type reply_too_short read_failed ca_unreadable ca_not_pem
        ttls_start_expected :
      Error

-- Of a function that Go gives two results, `ok a` is `(a, nil)` and `err e` is `(nil, e)`.
pub data Result {ℓ} (A : Type ℓ) : Type ℓ where
  panic stuck : Result A
  err : Error → Result A
  ok : A → Result A

-- A bounds check of the Go runtime.
abbrev pub bounds : Bool → Result (Unit {0})
bounds holds = elim holds [ false ↦ panic | true ↦ ok tt ]

-- An early `return nil, err` unless the test holds.
abbrev pub guard : Bool → Error → Result (Unit {0})
guard holds e = elim holds [ false ↦ err e | true ↦ ok tt ]

-- The function returns: no panic, and no loop without end.
abbrev pub Returns {ℓ} : {A : Type ℓ} → Result A → Type 0
Returns panic = ⊥
Returns stuck = ⊥
Returns (err _) = Unit {0}
Returns (ok _) = Unit {0}

module _ {ℓ κ} {A : Type ℓ} {B : Type κ} where
  infixl 5 ◌>>=◌
  -- What follows a call runs only where the call gives a value.
  abbrev pub ◌>>=◌ : Result A → (A → Result B) → Result B
  panic >>= next = panic
  stuck >>= next = stuck
  err e >>= next = err e
  ok a >>= next = next a

  -- A chain that gives a value has a value at its first call.
  pub ok_of_chain :
      (call : Result A) (next : A → Result B) {b : B}
      → (call >>= next) ≡ ok b
      → (a : A) × (call ≡ ok a) × (next a ≡ ok b)
  ok_of_chain panic next h = cc
  ok_of_chain stuck next h = cc
  ok_of_chain (err e) next h = cc
  ok_of_chain (ok a) next h = (a, refl, h)

infixl 5 ◌>>◌
abbrev pub ◌>>◌ {κ} : {B : Type κ} → Result (Unit {0}) → Result B → Result B
check >> rest = check >>= λ _. rest

pub some-injective {ℓ} : {A : Type ℓ} {a b : A} → some a ≡ some b → a ≡ b
some-injective h = cc

pub ok-injective {ℓ} : {A : Type ℓ} {a b : A} → ok a ≡ ok b → a ≡ b
ok-injective h = cc
