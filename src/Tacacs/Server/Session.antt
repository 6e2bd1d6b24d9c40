-- ===== src/Tacacs/Server/Session.antt =====
-- `handleConnection` of pkg/tacacs/server.go over a whole connection.
use fakeradius.Base.{
  ℕ, zero, suc, ◌+◌, ◌≤◌, ◌<◌, ◌≡◌, ◌≢◌, sym, arith, inl, inr, Bool, length, take, drop, ltb, ok,
  bit_and, All-take, All-drop, Bool-cases, length-drop, ltb→lt, ltb→ge, eq-nil_of_length,
}
use fakeradius.Base.Bytes.{Bytes, IsByte, AreBytes}
use fakeradius.Crypto.{Crypto}
use fakeradius.Tacacs.Header.Codec.{decode_header_total}
use fakeradius.Tacacs.Header.{Header, header_len, flag_single_connect, decode_header}
use fakeradius.Tacacs.Server.Packet.{serve_packet_total}
use fakeradius.Tacacs.Server.Round
use fakeradius.Tacacs.Server.{Close, Trace, handle_connection}
use native.Mathlib.Decide.{ℕ_discrete}
use mathlib.Core.Path.{subst}

-- The handler neither panics nor runs out of rounds.
abbrev pub Ends : Trace → Type 0
Ends t = (t.close ≢ Close.crashed) × (t.close ≢ Close.out_of_fuel)

Ends-eq : {t u : Trace} → t ≡ u → Ends u → Ends t
Ends-eq e h = subst Ends (sym e) h

module _ (c : Crypto) (secret : Bytes) (writes : ℕ → Bool) where
  -- A round with a whole packet, when the later rounds end.
  round-Ends :
      (fuel n : ℕ) (incoming : Bytes) (hdr : Header)
      → AreBytes incoming
      → (long : header_len ≤ length incoming)
      → (decoded : decode_header (take header_len incoming) ≡ ok hdr)
      → (whole : hdr.length ≤ length (drop header_len incoming))
      → Ends (
          handle_connection c secret writes fuel
            (n + 1)
            (drop hdr.length (drop header_len incoming)))
      → Ends (handle_connection c secret writes (suc fuel) n incoming)
  round-Ends fuel n incoming hdr bytes long decoded whole later =
      let rest = drop header_len incoming in
      let clear = All-take IsByte hdr.length rest (All-drop IsByte header_len incoming bytes) in
      elim (serve_packet_total c secret hdr (take hdr.length rest) clear) [
        | inl (x, f) ↦
            Ends-eq (Round.bad_request c secret writes fuel n incoming long hdr decoded whole x f)
              ((λ e. cc), (λ e. cc))
        | inr (body, packet, f, g, a) ↦ elim (Bool-cases (writes n)) [
          | inr w ↦
              Ends-eq
                (Round.not_written c secret writes fuel n incoming long hdr decoded whole packet g
                  w)
                ((λ e. cc), (λ e. cc))
          | inl w ↦ elim (ℕ_discrete (bit_and hdr.flags flag_single_connect) 0) [
            | yes z ↦
                Ends-eq
                  (Round.last_request c secret writes fuel n incoming long hdr decoded whole packet
                    g w z)
                  ((λ e. cc), (λ e. cc))
            | no z ↦
                Ends-eq
                  (Round.more_requests c secret writes fuel n incoming long hdr decoded whole packet
                    g w z)
                  later
          ]
        ]
      ]

  long_round-Ends :
      (fuel n : ℕ) (incoming : Bytes)
      → AreBytes incoming
      → header_len ≤ length incoming
      → ((m : ℕ) (left : Bytes)
          → AreBytes left
          → length left < length incoming
          → Ends (handle_connection c secret writes fuel m left))
      → Ends (handle_connection c secret writes (suc fuel) n incoming)
  long_round-Ends fuel n incoming bytes long later =
      elim (decode_header_total (take header_len incoming)) [
        | inl (_, f) ↦
            Ends-eq (Round.bad_header c secret writes fuel n incoming long _ f)
              ((λ e. cc), (λ e. cc))
        | inr (inl (_, (_, _, _, f))) ↦
            Ends-eq (Round.bad_header c secret writes fuel n incoming long _ f)
              ((λ e. cc), (λ e. cc))
        | inr (inr (_, (_, hdr, _, _, f))) ↦
            let rest = drop header_len incoming in
            let left = drop hdr.length rest in
            elim (Bool-cases (ltb (length rest) hdr.length)) [
              | inl s ↦
                  Ends-eq
                    (Round.part_of_body c secret writes fuel n incoming long hdr f (ltb→lt _ _ s))
                    ((λ e. cc), (λ e. cc))
              | inr s ↦ round-Ends fuel n incoming hdr bytes long f (ltb→ge _ _ s) (
                  later (n + 1) left
                    (All-drop IsByte hdr.length rest (All-drop IsByte header_len incoming bytes))
                    (omega (arith, length-drop header_len incoming, length-drop hdr.length rest)))
            ]
      ]

  -- With more rounds than input bytes, the handler returns on every input of bytes: it does not panic,
  -- whatever the writes do.
  pub handle_connection-Ends :
      (fuel n : ℕ) (incoming : Bytes)
      → AreBytes incoming
      → length incoming < fuel
      → Ends (handle_connection c secret writes fuel n incoming)
  handle_connection-Ends zero n incoming bytes h = absurd (omega arith)
  handle_connection-Ends (suc fuel) n incoming bytes h =
      elim (Bool-cases (ltb (length incoming) header_len)) [
        | inr s ↦
            long_round-Ends fuel n incoming bytes (ltb→ge _ _ s)
              (λ m left clear shorter. handle_connection-Ends fuel m left clear (omega arith))
        | inl s ↦ elim (ℕ_discrete (length incoming) 0) [
          | yes z ↦
              Ends-eq (Round.no_input c secret writes fuel n incoming (eq-nil_of_length incoming z))
                ((λ e. cc), (λ e. cc))
          | no z ↦
              Ends-eq
                (Round.part_of_header c secret writes fuel n incoming (omega arith) (ltb→lt _ _ s))
                ((λ e. cc), (λ e. cc))
        ]
      ]
