-- ===== src/Tacacs/Server/Packet.antt =====
-- One request of `handleConnection` in pkg/tacacs/server.go, from the body read to the packet written.
use fakeradius.Base.{
  ◌+◌, ◌^◌, ◌<◌, ◌≡◌, refl, arith, ◌⊎◌, inl, inr, ◌++◌, length, Error, ok, err, empty_secret,
}
use fakeradius.Base.Bytes.{Bytes, AreBytes, u8}
use fakeradius.Crypto.{Crypto}
use fakeradius.Tacacs.Crypt.Involution.{crypt_payload-undo, crypt_payload_ends}
use fakeradius.Tacacs.Crypt.Range.{crypt_payload-AreBytes}
use fakeradius.Tacacs.Crypt.{crypt_payload}
use fakeradius.Tacacs.Header.{Header, encode_header}
use fakeradius.Tacacs.Server.Respond.{respond_forms}
use fakeradius.Tacacs.Server.{response_header, respond, serve_packet}

module _ (c : Crypto) (secret : Bytes) (hdr : Header) where
  -- A response packet to the request with the plain body `body`: its header keeps the request's
  -- version, type, flags and session, has the next sequence number, and announces the length of what
  -- follows; what follows is the plain response `plain` under the same secret.
  pub record Answers (body packet : Bytes) : Type 0 where
    pub header : Header
    pub plain : Bytes
    pub crypted : Bytes
    pub layout : packet ≡ encode_header header ++ crypted
    pub version_kept : header.version ≡ hdr.version
    pub type_kept : header.type ≡ hdr.type
    pub flags_kept : header.flags ≡ hdr.flags
    pub session_kept : header.session_id ≡ hdr.session_id
    pub next_seq_no : header.seq_no ≡ u8 (hdr.seq_no + 1)
    pub length_announced : header.length ≡ length crypted
    pub responded : respond hdr body ≡ ok (header, plain)
    pub readable : crypt_payload c header crypted secret ≡ ok plain

  -- What the handling of a request comes to.
  abbrev pub Served : Bytes → Type 0
  Served body_buf =
      ((e : Error) × (serve_packet c secret hdr body_buf ≡ err e))
      ⊎ ((body packet : Bytes) × (crypt_payload c hdr body_buf secret ≡ ok body)
          × (serve_packet c secret hdr body_buf ≡ ok packet)
          × Answers body packet)

  module _ (body_buf body plain : Bytes) where
    abbrev header : Header
    header = response_header hdr hdr.type plain

    answers :
        (crypted : Bytes)
        → respond hdr body ≡ ok (header, plain)
        → length plain < 2 ^ 32
        → length crypted ≡ length plain
        → crypt_payload c header crypted secret ≡ ok plain
        → Answers body (encode_header header ++ crypted)
    unfolding response_header
    answers crypted f short same back = record {
      header = header;
      plain = plain;
      crypted = crypted;
      layout = refl;
      version_kept = refl;
      type_kept = refl;
      flags_kept = refl;
      session_kept = refl;
      next_seq_no = refl;
      length_announced = omega (arith, same);
      responded = f;
      readable = back;
    }

    -- The response is encrypted under its own header.
    serve_responded :
        crypt_payload c hdr body_buf secret ≡ ok body
        → respond hdr body ≡ ok (header, plain)
        → length plain < 2 ^ 32
        → Served body_buf
    unfolding serve_packet
    serve_responded e f short = elim (crypt_payload_ends c header secret plain) [
      | inl t ↦ inl (empty_secret, rw (e, f, t) refl)
      | inr (crypted, g) ↦
          let (same, back) = crypt_payload-undo c header secret plain crypted g in
          inr (
            body,
            encode_header header ++ crypted,
            e,
            rw (e, f, g) refl,
            answers crypted f short same back,
          )
    ]

  -- A request with a body of bytes is refused with an error, or answered.
  pub serve_packet_total : (body_buf : Bytes) → AreBytes body_buf → Served body_buf
  unfolding serve_packet
  serve_packet_total body_buf bytes = elim (crypt_payload_ends c hdr secret body_buf) [
    | inl e ↦ inl (empty_secret, rw e refl)
    | inr (body, e) ↦
        elim (respond_forms hdr body (crypt_payload-AreBytes c hdr secret body_buf bytes e)) [
          | inl (x, f) ↦ inl (x, rw (e, f) refl)
          | inr (plain, f, short) ↦ serve_responded body_buf body plain e f short
        ]
  ]
