-- ===== src/Eap/Session.antt =====
-- cmd/server/main.go: `EAPSession` and the map `sessions`.
use fakeradius.Base.{ℕ, Bool, false, [], Option, none, some, if◌then◌else◌}
use fakeradius.Base.Bytes.{Bytes, bytes_eq}

-- `TLSConn` is only compared with nil: `tls_started`. The times are numbers of nanoseconds.
pub record Session : Type 0 where
  pub id : ℕ
  pub eap_type : ℕ
  pub state : ℕ
  pub username : Bytes
  pub last_seen : ℕ
  pub tls_in : Bytes
  pub tls_out : Bytes
  pub tls_started : Bool
  pub handshake_done : Bool
  pub authenticated : Bool

-- The map `sessions`, from the text of a client's address.
abbrev pub Store : Type 0
Store = Bytes → Option Session

abbrev pub no_sessions : Store
no_sessions address = none

-- `sessions[clientAddr.String()] = session`, and what is written through the pointer.
unfoldable pub put : Bytes → Session → Store → Store
put address session store other = if bytes_eq other address then some session else store other

abbrev pub new_session : ℕ → ℕ → Session
new_session eap_id now = record {
  id = eap_id;
  eap_type = 0;
  state = 0;
  username = [];
  last_seen = now;
  tls_in = [];
  tls_out = [];
  tls_started = false;
  handshake_done = false;
  authenticated = false;
}

-- The session of an address, made where there is none, with the time of the datagram.
unfoldable pub session_of : Store → Bytes → ℕ → ℕ → Session
session_of store address eap_id now = elim (store address) [
  | none ↦ new_session eap_id now
  | some session ↦ record session { last_seen = now }
]
