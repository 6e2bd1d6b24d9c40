-- ===== src/Eap/Overlap.antt =====
-- cmd/server/main.go: `go handlePacket` for every datagram, so that the handlers of one address overlap. The
-- session of the address is shared: `sessionMu` guards the lookup only. Here each access of
-- `case EAPTypeIdentity` and `handleTLSHandshake` to the session is a turn of its own.
pub mod Coherent
pub mod Alone
use fakeradius.Base.{
  ℕ, zero, suc, ◌+◌, ◌≡◌, Bool, true, false, ◌||◌, List, [], ◌∷◌, ◌++◌, Option, none, some, length,
  take, drop, ltb, ◌==◌, if◌then◌else◌, Result, ok, ◌>>=◌, bit_or,
}
use fakeradius.Base.Bytes.{Bytes, u8, u32, put_u32}
use fakeradius.Eap.Session.{Session, new_session}
use fakeradius.Eap.{
  eap_request, eap_success, e_type_ttls, ttls_flag_length, ttls_flag_more, ttls_flag_start,
  build_eap_packet,
}

-- Where a handler is: the access to the session that it makes next, with what it has read before. `returned` has
-- what `eapResp` is.
pub data Handler : Type 0 where
  naming : (username : Bytes) (eap_id : ℕ) → Handler
  stating numbering typing : (eap_id : ℕ) → Handler
  feeding : (tls_data : Bytes) (eap_id : ℕ) → Handler
  checking starting entering : (eap_id : ℕ) → Handler
  waiting : (polls eap_id : ℕ) → Handler
  looking reading : (eap_id : ℕ) → Handler
  flagging raising : (output : Bytes) (eap_id : ℕ) → Handler
  draining : (first : Bool) (output : Bytes) (eap_id : ℕ) → Handler
  leaving settling clearing judging : (output : Bytes) (eap_id : ℕ) → Handler
  returned : Result (Option Bytes) → Handler

-- The packet that starts EAP-TTLS.
abbrev pub start_packet : ℕ → Result (Option Bytes)
start_packet eap_id = do
  packet ← build_eap_packet eap_request (u8 (eap_id + 1)) e_type_ttls (ttls_flag_start ∷ [])
  ok (some packet)

-- The packet with a fragment of the output; the first has the length of all.
abbrev pub fragment_packet : Bool → Bytes → ℕ → Result (Option Bytes)
fragment_packet first output eap_id = do
  packet ← build_eap_packet eap_request (u8 (eap_id + 1)) e_type_ttls (
      if first
      then bit_or ttls_flag_more ttls_flag_length
        ∷ (put_u32 (u32 (length output)) ++ take 1000 output)
      else ttls_flag_more ∷ take 1000 output)
  ok (some packet)

-- The packet with the rest of the output, or the EAP-Success instead of it.
abbrev pub rest_packet : Bool → Bytes → ℕ → Result (Option Bytes)
rest_packet authenticated output eap_id = do
  packet ←
      if authenticated
      then build_eap_packet eap_success (u8 (eap_id + 1)) 0 []
      else build_eap_packet eap_request (u8 (eap_id + 1)) e_type_ttls (0 ∷ output)
  ok (some packet)

-- A turn of a handler.
unfoldable pub turn : Handler → Session → Session × Handler
turn (naming username eap_id) s = (record s { username = username }, stating eap_id)
turn (stating eap_id) s = (record s { state = 1 }, numbering eap_id)
turn (numbering eap_id) s = (record s { id = u8 (eap_id + 1) }, typing eap_id)
turn (typing eap_id) s = (record s { eap_type = e_type_ttls }, returned (start_packet eap_id))
turn (feeding tls_data eap_id) s = (record s { tls_in = s.tls_in ++ tls_data }, checking eap_id)
turn (checking eap_id) s = (s, if s.tls_started then waiting 400 eap_id else starting eap_id)
turn (starting eap_id) s = (record s { tls_started = true }, entering eap_id)
turn (entering eap_id) s = (record s { state = 2 }, waiting 400 eap_id)
turn (waiting zero eap_id) s = (s, looking eap_id)
turn (waiting (suc polls) eap_id) s =
    (s, if length s.tls_out == 0 then waiting polls eap_id else looking eap_id)
turn (looking eap_id) s = (s, if length s.tls_out == 0 then returned (ok none) else reading eap_id)
turn (reading eap_id) s =
    (s, if ltb 1000 (length s.tls_out) then flagging s.tls_out eap_id else leaving s.tls_out eap_id)
turn (flagging output eap_id) s =
    (s, if s.state == 2 then raising output eap_id else draining false output eap_id)
turn (raising output eap_id) s = (record s { state = 21 }, draining true output eap_id)
turn (draining first output eap_id) s =
    (record s { tls_out = drop 1000 s.tls_out }, returned (fragment_packet first output eap_id))
turn (leaving output eap_id) s =
    (s, if s.state == 2 || s.state == 21 then settling output eap_id else clearing output eap_id)
turn (settling output eap_id) s = (record s { state = 3 }, clearing output eap_id)
turn (clearing output eap_id) s = (record s { tls_out = [] }, judging output eap_id)
turn (judging output eap_id) s = (s, returned (rest_packet s.authenticated output eap_id))
turn (returned r) s = (s, returned r)

-- What can become of the session of an address, and of the handlers of its datagrams, in whatever order they get
-- their turns. Two handlers can both find no TLS connection, so there can be several goroutines: each reads and
-- writes, sets `HandshakeDone` where handshakes may come to their end, and then `Authenticated`.
pub data IsInterleaved (ended : Bool) : Session → List Handler → Type 0 where
  created : (eap_id now : ℕ) → IsInterleaved ended (new_session eap_id now) []
  identity_arrives :
      (username : Bytes) (eap_id now : ℕ) (s : Session) (handlers : List Handler)
      → IsInterleaved ended s handlers
      → IsInterleaved ended (record s { last_seen = now }) (naming username eap_id ∷ handlers)
  data_arrives :
      (tls_data : Bytes) (eap_id now : ℕ) (s : Session) (handlers : List Handler)
      → IsInterleaved ended s handlers
      → IsInterleaved ended (record s { last_seen = now }) (feeding tls_data eap_id ∷ handlers)
  handler :
      (before after : List Handler) (h : Handler) (s : Session)
      → IsInterleaved ended s (before ++ h ∷ after)
      → IsInterleaved ended (turn h s).0 (before ++ (turn h s).1 ∷ after)
  reads :
      (n : ℕ) (s : Session) (handlers : List Handler)
      → s.tls_started ≡ true
      → IsInterleaved ended s handlers
      → IsInterleaved ended (record s { tls_in = drop n s.tls_in }) handlers
  writes :
      (more : Bytes) (s : Session) (handlers : List Handler)
      → s.tls_started ≡ true
      → IsInterleaved ended s handlers
      → IsInterleaved ended (record s { tls_out = s.tls_out ++ more }) handlers
  finishes :
      (s : Session) (handlers : List Handler)
      → s.tls_started ≡ true
      → ended ≡ true
      → IsInterleaved ended s handlers
      → IsInterleaved ended (record s { handshake_done = true }) handlers
  marks :
      (s : Session) (handlers : List Handler)
      → s.handshake_done ≡ true
      → IsInterleaved ended s handlers
      → IsInterleaved ended (record s { authenticated = true }) handlers
