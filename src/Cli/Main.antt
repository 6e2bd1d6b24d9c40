-- ===== src/Cli/Main.antt =====
-- cmd/cli/main.go: the flags, `validateConfig`, and the login that `main` chooses. What `main` prints on the way
-- and the text of the usage are left out; pflag.Parse and the five logins are arguments.
pub mod Login
use fakeradius.Base.{
  Bool, true, false, ◌||◌, List, [], ◌∷◌, Option, none, some, if◌then◌else◌, Result, ok, err, panic,
  stuck, Error, ◌>>=◌,
}
use fakeradius.Base.Bytes.{Bytes, bytes_eq, codes}
use fakeradius.Cli.Display.{Display, display_response}

-- `RadiusClientConfig`
pub record Config : Type 0 where
  pub username : Bytes
  pub password : Bytes
  pub secret : Bytes
  pub server : Bytes
  pub ca_path : Bytes

-- The flags that choose a login.
pub record Flags : Type 0 where
  pub chap : Bool
  pub mschap : Bool
  pub ttls : Bool
  pub tacacs : Bool

-- The errors of `validateConfig`.
pub data Missing : Type 0 where
  secret_missing username_missing password_missing : Missing

-- `validateConfig`, `none` where it returns nil.
unfoldable pub validate_config : Config → Option Missing
validate_config config =
    if bytes_eq config.secret []
    then some secret_missing
    else if bytes_eq config.username []
    then some username_missing
    else if bytes_eq config.password []
    then some password_missing
    else none

-- What the client can do for a configuration.
pub record Logins : Type 0 where
  pub send_pap : Config → Result Bytes
  pub send_chap : Config → Result Bytes
  pub send_mschap : Config → Result Bytes
  pub send_ttls : Config → Result Bytes
  pub send_tacacs : Config → Result (Unit {0})

-- How the program ends: with its usage, which was asked for, in pflag.Parse, with status 1 and an error (for a
-- flag that is missing the usage too), or with status 0 and, but for TACACS+, the response's display.
pub data Exit : Type 0 where
  helped unparsed : Exit
  usage : Missing → Exit
  failed : Error → Exit
  finished : Exit
  displayed : Display → Exit

-- The login that the flags choose, but for TACACS+; PAP where there is no flag.
unfoldable pub send_request : Logins → Flags → Config → Result Bytes
send_request logins flags config =
    if flags.chap
    then logins.send_chap config
    else if flags.mschap
    then logins.send_mschap config
    else if flags.ttls
    then logins.send_ttls config
    else logins.send_pap config

-- The end of `main` after a login over TACACS+.
abbrev pub tacacs_exit : Result (Unit {0}) → Result Exit
tacacs_exit (ok done) = ok finished
tacacs_exit (err e) = ok (failed e)
tacacs_exit panic = panic
tacacs_exit stuck = stuck

-- The end of `main` after a login over RADIUS.
abbrev pub radius_exit : Result Bytes → Result Exit
radius_exit (ok response) = do display ← display_response response; ok (displayed display)
radius_exit (err e) = ok (failed e)
radius_exit panic = panic
radius_exit stuck = stuck

-- Whether an argument is `-h` or `--help`.
unfoldable pub asks_help : List Bytes → Bool
asks_help [] = false
asks_help (arg ∷ args) =
    if bytes_eq arg (codes "-h") || bytes_eq arg (codes "--help") then true else asks_help args

-- `main`, of os.Args. `none` is where pflag.Parse ends the program.
unfoldable pub main : Logins → (List Bytes → Option (Flags × Config)) → List Bytes → Result Exit
main logins parse args = if asks_help args then ok helped else elim (parse args) [
  | none ↦ ok unparsed
  | some (flags, config) ↦ elim (validate_config config) [
    | some missing ↦ ok (usage missing)
    | none ↦
        if flags.tacacs
        then tacacs_exit (logins.send_tacacs config)
        else radius_exit (send_request logins flags config)
  ]
]
