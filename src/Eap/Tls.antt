-- ===== src/Eap/Tls.antt =====
-- cmd/server/main.go: `handleTLSHandshake`. The handshake of crypto/tls, which runs in a goroutine of its
-- own, is known only by what it does to the session's buffers and flags.
pub mod Flight
pub mod Drain
use fakeradius.Base.{
  ℕ, zero, suc, ◌+◌, Bool, true, not, ◌&&◌, ◌||◌, [], ◌∷◌, ◌++◌, Option, none, some, length, take,
  drop, ltb, ◌==◌, if◌then◌else◌, Result, ok, ◌>>=◌, bit_or,
}
use fakeradius.Base.Bytes.{Bytes, u8, u32, put_u32}
use fakeradius.Eap.Session.{Session}
use fakeradius.Eap.{
  eap_request, eap_success, e_type_ttls, ttls_flag_length, ttls_flag_more, build_eap_packet,
}

-- What the goroutine does between two points at which the handler looks: it reads from the input buffer,
-- writes to the output buffer, and may set `HandshakeDone` and, at once or later, `Authenticated`.
pub record Activity : Type 0 where
  pub consumed : ℕ
  pub written : Bytes
  pub finished : Bool
  pub marked : Bool

-- The goroutine runs from the start of the connection; behind the handshake it only has its two flags to set,
-- one after the other.
unfoldable pub tls_activity : Activity → Session → Session
tls_activity a session =
    if session.tls_started && not session.handshake_done
    then record session {
      tls_in = drop a.consumed session.tls_in;
      tls_out = session.tls_out ++ a.written;
      handshake_done = a.finished;
      authenticated = session.authenticated || (a.finished && a.marked);
    }
    else record session {
      authenticated = session.authenticated || (session.handshake_done && a.marked);
    }

-- Steps 1 and 2: the data go to the input buffer, and the first of them start the TLS server.
unfoldable pub receive : Session → Bytes → Session
receive session tls_data =
    let fed = record session { tls_in = session.tls_in ++ tls_data } in
    if fed.tls_started then fed else record fed { tls_started = true; state = 2 }

-- Step 3: the polls that are left, each with what the goroutine does while the handler sleeps.
abbrev pub await_output : ℕ → (ℕ → Activity) → Session → Session
await_output zero engine session = session
await_output (suc polls) engine session = elim session.tls_out [
  | [] ↦ await_output polls engine (tls_activity (engine polls) session)
  | (_ ∷ _) ↦ session
]

-- Step 4, for more than a fragment of output: the first fragment of a flight also has the length.
unfoldable pub send_fragment : Session → ℕ → Result (Session × Option Bytes)
send_fragment session eap_id = do
  let first = session.state == 2
  let chunk = take 1000 session.tls_out
  let resp_data =
      if first
      then bit_or ttls_flag_more ttls_flag_length
        ∷ (put_u32 (u32 (length session.tls_out)) ++ chunk)
      else ttls_flag_more ∷ chunk
  packet ← build_eap_packet eap_request (u8 (eap_id + 1)) e_type_ttls resp_data
  ok (
    record session {
      state = if first then 21 else session.state;
      tls_out = drop 1000 session.tls_out;
    },
    some packet,
  )

-- Step 5: the buffer is emptied, and what was in it is sent, or an EAP-Success instead of it.
unfoldable pub send_last : Session → ℕ → Result (Session × Option Bytes)
send_last session eap_id = do
  packet ←
      if session.authenticated
      then build_eap_packet eap_success (u8 (eap_id + 1)) 0 []
      else build_eap_packet eap_request (u8 (eap_id + 1)) e_type_ttls (0 ∷ session.tls_out)
  ok (
    record session {
      state = if session.state == 2 || session.state == 21 then 3 else session.state;
      tls_out = [];
    },
    some packet,
  )

-- `handleTLSHandshake`
unfoldable pub handle_tls_handshake :
    (ℕ → Activity) → Session → Bytes → ℕ → Result (Session × Option Bytes)
handle_tls_handshake engine session tls_data eap_id =
    let waited = await_output 400 engine (receive session tls_data) in
    if length waited.tls_out == 0
    then ok (waited, none)
    else if ltb 1000 (length waited.tls_out)
    then send_fragment waited eap_id
    else send_last waited eap_id
