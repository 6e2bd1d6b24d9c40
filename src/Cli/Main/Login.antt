-- ===== src/Cli/Main/Login.antt =====
-- How the client's `main` in cmd/cli/main.go ends.
use fakeradius.Base.{
  ℕ, ◌+◌, ◌≤◌, ◌≡◌, ◌≢◌, ◌↔◌, ◌⊎◌, inl, inr, refl, sym, ap, ◌∙◌, arith, false, List, [], ◌∷◌, ◌++◌,
  append-nil, none, some, some-injective, Option, true, length, Result, ok, err, panic, stuck,
  Bool-cases,
}
use fakeradius.Base.Bytes.{Bytes, codes, put_u16, bytes_eq, eq_of_bytes_eq, bytes_eq_refl}
use fakeradius.Cli.Display.Encoded.{rows_of, display_response-signed_response}
use fakeradius.Cli.Display.Total.{display_response_total}
use fakeradius.Cli.Display.{Display, shown, hex_dump, display_response, code_to_string}
use fakeradius.Cli.Main.{
  Config, Flags, Missing, secret_missing, username_missing, password_missing, validate_config,
  Logins, usage, displayed, tacacs_exit, radius_exit, send_request, main, asks_help, Exit, helped,
  unparsed,
}
use fakeradius.Cli.Requests.Answers.{server_of}
use fakeradius.Cli.Requests.Methods.{send_access_request_lem}
use fakeradius.Cli.Requests.{send_access_request}
use fakeradius.Crypto.{Crypto}
use fakeradius.Radius.Attributes.{access_accept, access_reject, build_attribute}
use fakeradius.Radius.Response.Encoded.{signed_response}
use fakeradius.Radius.Walk.Encoded.{Attribute, encode, length-encode_cons}
use fakeradius.Tacacs.Authen.Decide.{IsRejected}
use mathlib.Core.Path.{subst}

-- pflag.Parse, from os.Args to the values of the flags.
abbrev pub Parser : Type 0
Parser = List Bytes → Option (Flags × Config)

-- An argument is `-h` or `--help`.
abbrev pub HasHelp : List Bytes → Type 0
HasHelp [] = ⊥
HasHelp (arg ∷ args) = (arg ≡ codes "-h") ⊎ (arg ≡ codes "--help") ⊎ HasHelp args

asks_help_case :
    (args : List Bytes)
    → (HasHelp args × (asks_help args ≡ true)) ⊎ ((¬ HasHelp args) × (asks_help args ≡ false))
unfolding asks_help
asks_help_case [] = inr ((λ h. h), refl)
asks_help_case (arg ∷ args) = elim (Bool-cases (bytes_eq arg (codes "-h"))) [
  | inl h ↦ inl (inl (eq_of_bytes_eq arg (codes "-h") h), rw h refl)
  | inr h ↦ elim (Bool-cases (bytes_eq arg (codes "--help"))) [
    | inl k ↦ inl (inr (inl (eq_of_bytes_eq arg (codes "--help") k)), rw (h, k) refl)
    | inr k ↦ elim (asks_help_case args) [
      | inl (i, e) ↦ inl (inr (inr i), rw (h, k) e)
      | inr (i, e) ↦ inr (
        λ q. elim q [
          | inl a ↦ absurd (differs (codes "-h") a h)
          | inr (inl a) ↦ absurd (differs (codes "--help") a k)
          | inr (inr a) ↦ i a
        ],
        rw (h, k) e,
      )
    ]
  ]
]
  where
    differs : (flag : Bytes) → arg ≡ flag → ¬ (bytes_eq arg flag ≡ false)
    differs flag a h =
        let k : bytes_eq arg arg ≡ false = ap (bytes_eq arg) a ∙ h in
        let l : true ≡ false = sym (bytes_eq_refl arg) ∙ k in cc

-- All that is required is there.
abbrev pub IsComplete : Config → Type 0
IsComplete config = (config.secret ≢ []) × (config.username ≢ []) × (config.password ≢ [])

not_empty : (bs : Bytes) → bs ≢ [] → bytes_eq bs [] ≡ false
unfolding bytes_eq
not_empty [] h = absurd (h refl)
not_empty (b ∷ bs) h = refl

validate_complete : (config : Config) → IsComplete config → validate_config config ≡ none
unfolding validate_config
validate_complete config (s, u, p) =
    rw (not_empty config.secret s, not_empty config.username u, not_empty config.password p) refl

-- The logins with the PAP login of cmd/cli/radius-cli.go against the server of cmd/server.
abbrev pub with_pap : Crypto → Bytes → Bytes → Logins → Logins
with_pap c auth hostname logins = record logins {
  send_pap = λ config.
      send_access_request c config.secret (server_of c config.secret) auth hostname config.username
        config.password;
}

abbrev pub no_flags : Flags
no_flags = record { chap = false; mschap = false; ttls = false; tacacs = false }

abbrev pub message : List Attribute
message = record { kind = 18; value = codes "User not allowed" } ∷ []

-- What is displayed of a signed response.
abbrev pub display_of : Crypto → Bytes → ℕ → Bytes → List Attribute → Display
display_of c secret code auth attrs =
    shown code (code_to_string code) 0 (20 + length (encode attrs))
      (c.md5
        (code ∷ 0 ∷ (put_u16 (20 + length (encode attrs)) ++ (auth ++ (encode attrs ++ secret)))))
      (rows_of attrs)
      (hex_dump (length (signed_response c code 0 auth (encode attrs) secret)) 0
        (signed_response c code 0 auth (encode attrs) secret))

main_displays :
    (logins : Logins) (parse : Parser) (args : List Bytes) (config : Config) (response : Bytes)
    (d : Display)
    → IsComplete config
    → asks_help args ≡ false
    → parse args ≡ some (no_flags, config)
    → logins.send_pap config ≡ ok response
    → display_response response ≡ ok d
    → main logins parse args ≡ ok (displayed d)
unfolding main send_request
main_displays logins parse args config response d complete asked parsed h k =
    rw (main, asked, parsed, validate_complete config complete, h, k) refl

not_asked : (args : List Bytes) → ¬ HasHelp args → asks_help args ≡ false
not_asked args h = elim (asks_help_case args) [ inl (k, e) ↦ absurd (h k) | inr (k, e) ↦ e ]

-- Without a request for help, where the arguments have all that is required and no flag, with an authenticator of sixteen bytes, a hostname and a name of up to 253 bytes
-- and a password of up to 240, the program against the server displays its response: an Access-Reject with a row
-- that quotes "User not allowed" if the name begins with "no_", and an Access-Accept without a row otherwise.
pub main-send_access_request :
    (c : Crypto) (auth hostname : Bytes) (logins : Logins) (parse : Parser) (args : List Bytes)
    (config : Config)
    → ¬ HasHelp args
    → parse args ≡ some (no_flags, config)
    → IsComplete config
    → length auth ≡ 16
    → length hostname ≤ 253
    → length config.username ≤ 253
    → length config.password ≤ 240
    → (IsRejected config.username
        × (main (with_pap c auth hostname logins) parse args
            ≡ ok (displayed (display_of c config.secret access_reject auth message))))
      ⊎ ((¬ IsRejected config.username)
          × (main (with_pap c auth hostname logins) parse args
              ≡ ok (displayed (display_of c config.secret access_accept auth []))))
main-send_access_request c auth hostname logins parse args config unasked parsed complete size
      short_host short_user short_password =
    let asked = not_asked args unasked in
    elim (send_access_request_lem c config.secret auth hostname config.username size short_host
      config.password short_user short_password) [
        | inl (r, e) ↦ inl (
          r,
          main_displays (with_pap c auth hostname logins) parse args config _
              (display_of c config.secret access_reject auth message) complete asked parsed
              (e
                ∙ ap (λ z. ok (signed_response c access_reject 0 auth z config.secret))
                    (sym (append-nil (build_attribute 18 (codes "User not allowed")))))
              (display_response-signed_response c config.secret access_reject 0 auth message
                (omega arith, tt)
                (omega (
                  arith,
                  length-encode_cons (record { kind = 18; value = codes "User not allowed" }) [],
                ))),
        )
        | inr (r, e) ↦ inr (
          r,
          main_displays (with_pap c auth hostname logins) parse args config _
              (display_of c config.secret access_accept auth []) complete asked parsed e
              (display_response-signed_response c config.secret access_accept 0 auth [] tt
                (omega arith)),
        )
      ]

some_bytes : (bs : Bytes) → bytes_eq bs [] ≡ false → bs ≢ []
unfolding bytes_eq
some_bytes [] h e = cc
some_bytes (b ∷ bs) h e = cc

usage_case :
    (config : Config)
    → (IsComplete config × (validate_config config ≡ none))
      ⊎ ((m : Missing) × (¬ IsComplete config) × (validate_config config ≡ some m))
unfolding validate_config
usage_case config = elim (Bool-cases (bytes_eq config.secret [])) [
  | inl h ↦ inr (secret_missing, (λ k. k.0 (eq_of_bytes_eq config.secret [] h)), rw h refl)
  | inr h ↦ elim (Bool-cases (bytes_eq config.username [])) [
    | inl i ↦
        inr (username_missing, (λ k. k.1 (eq_of_bytes_eq config.username [] i)), rw (h, i) refl)
    | inr i ↦ elim (Bool-cases (bytes_eq config.password [])) [
      | inl j ↦
          inr
            (password_missing, (λ k. k.2 (eq_of_bytes_eq config.password [] j)), rw (h, i, j) refl)
      | inr j ↦ inl (
        (some_bytes config.secret h, some_bytes config.username i, some_bytes config.password j),
        rw (h, i, j) refl,
      )
    ]
  ]
]

-- The usage is printed at the end.
abbrev pub ShowsUsage : Result Exit → Type 0
ShowsUsage r = (r ≡ ok helped) ⊎ ((m : Missing) × (r ≡ ok (usage m)))

unparsed_end : ¬ ShowsUsage (ok unparsed)
unparsed_end (inl h) = cc
unparsed_end (inr (m, h)) = cc

no_usage_tacacs : (r : Result (Unit {0})) → ¬ ShowsUsage (tacacs_exit r)
no_usage_tacacs (ok done) (inl h) = cc
no_usage_tacacs (ok done) (inr (m, h)) = cc
no_usage_tacacs (err e) (inl h) = cc
no_usage_tacacs (err e) (inr (m, h)) = cc
no_usage_tacacs panic (inl h) = cc
no_usage_tacacs panic (inr (m, h)) = cc
no_usage_tacacs stuck (inl h) = cc
no_usage_tacacs stuck (inr (m, h)) = cc

no_usage_displayed : (d : Display) → ¬ ShowsUsage (ok (displayed d))
no_usage_displayed d (inl h) = cc
no_usage_displayed d (inr (m, h)) = cc

no_usage_radius : (r : Result Bytes) → ¬ ShowsUsage (radius_exit r)
no_usage_radius (ok response) h =
    let (d, e, _) = display_response_total response in
    no_usage_displayed d (subst ShowsUsage (rw e refl) h)
no_usage_radius (err e) (inl h) = cc
no_usage_radius (err e) (inr (m, h)) = cc
no_usage_radius panic (inl h) = cc
no_usage_radius panic (inr (m, h)) = cc
no_usage_radius stuck (inl h) = cc
no_usage_radius stuck (inr (m, h)) = cc

-- Whatever pflag.Parse and the logins do, the program ends with its usage exactly if an argument is `-h` or
-- `--help`, or pflag.Parse returns and the secret, the name or the password is empty.
pub main_usage :
    (logins : Logins) (parse : Parser) (args : List Bytes)
    → ShowsUsage (main logins parse args) ↔ (
        HasHelp args
        ⊎ ((flags : Flags) × (config : Config) × (parse args ≡ some (flags, config))
            × (¬ IsComplete config)))
unfolding main
main_usage logins parse args = elim (asks_help_case args) [
  | inl (h, e) ↦ (λ _. inl h, λ _. inl (rw (main, e) refl))
  | inr (h, e) ↦ parsed h e (parse args) refl
]
  where
    parsed :
        ¬ HasHelp args
        → asks_help args ≡ false
        → (o : Option (Flags × Config)) → parse args ≡ o
        → ShowsUsage (main logins parse args) ↔ (
            HasHelp args
            ⊎ ((flags : Flags) × (config : Config) × (parse args ≡ some (flags, config))
                × (¬ IsComplete config)))
    parsed h e none k = (
      λ q. absurd (unparsed_end (subst ShowsUsage (rw (main, e, k) refl) q)),
      λ q. elim q [
        | inl i ↦ absurd (h i)
        | inr (flags, config, l, _) ↦ let m : none ≡ some (flags, config) = sym k ∙ l in cc
      ],
    )
    parsed h e (some (flags, config)) k = elim (usage_case config) [
      | inr (m, i, l) ↦ (λ _. inr (flags, config, k, i), λ _. inr (m, rw (main, e, k, l) refl))
      | inl (complete, l) ↦ (
        λ q. absurd (elim (Bool-cases flags.tacacs) [
          | inl t ↦
              no_usage_tacacs (logins.send_tacacs config)
                (subst ShowsUsage (rw (main, e, k, l, t) refl) q)
          | inr t ↦
              no_usage_radius (send_request logins flags config)
                (subst ShowsUsage (rw (main, e, k, l, t) refl) q)
        ]),
        λ q. elim q [
          | inl i ↦ absurd (h i)
          | inr (flags', config', m, i) ↦
              let n : config ≡ config' = ap (λ x. x.1) (some-injective (sym k ∙ m)) in
              absurd (i (subst IsComplete n complete))
        ],
      )
    ]
