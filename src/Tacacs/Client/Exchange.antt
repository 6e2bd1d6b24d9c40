-- ===== src/Tacacs/Client/Exchange.antt =====
-- The client of cmd/cli/tacacs_client.go against the server of pkg/tacacs/server.go.
use fakeradius.Base.{
  ℕ, suc, ◌+◌, ◌-◌, ◌/◌, ◌%◌, ◌^◌, ◌<◌, ◌≡◌, ◌≢◌, refl, sym, ap, ◌∙◌, arith, inl, Bool, true, false,
  [], ◌∷◌, ◌++◌, append-nil, length, concat, ok, ltb, leb, length-append, take-append, drop-append,
  ge→ltb, le→leb, take_all,
}
use fakeradius.Base.Bytes.{Bytes, slice, slice-append, put_u16, get_u16, u16}
use fakeradius.Crypto.{Crypto}
use fakeradius.Tacacs.Authen.Codec.{decode_authen_start-whole, whole, parts}
use fakeradius.Tacacs.Authen.Reply.{reply_bytes}
use fakeradius.Tacacs.Authen.{AuthenStart, AuthenReply, decode_authen_start, process_authen_start}
use fakeradius.Tacacs.Client.{
  read_reply_body, start_body, request_header, authen_request, read_reply,
  send_tacacs_authen_request, port_bytes, rem_addr_bytes,
}
use fakeradius.Tacacs.Crypt.Involution.{crypt_payload_twice}
use fakeradius.Tacacs.Crypt.{crypt_payload}
use fakeradius.Tacacs.Header.{Header, IsHeader, header_len, major_ver12, encode_header}
use fakeradius.Tacacs.Server.Pipeline.{
  Request, IsServed, handle_connection_single, length-encode_header, decode_header-whole,
}
use fakeradius.Tacacs.Server.Respond.{respond_authen}
use fakeradius.Tacacs.Server.{Trace, handle_connection, serve_packet, response_header}

-- The message of a reply body, at the places where the client looks.
reply_msg :
    (r : AuthenReply)
    → length r.server_msg + 6 < 2 ^ 16
    → slice (reply_bytes r) 6 (u16 (6 + length r.server_msg)) ≡ ok r.server_msg
reply_msg r h =
    unfold put_u16 in
    slice-append
      (r.status ∷ r.flags ∷ (put_u16 (length r.server_msg) ++ put_u16 (length r.content)))
      r.server_msg r.content 6 (u16 (6 + length r.server_msg)) refl (omega arith)

-- The client reads back the status and the message of a reply.
pub read_reply_body-reply_bytes :
    (session_id : ℕ) (r : AuthenReply)
    → length r.server_msg + 6 < 2 ^ 16
    → read_reply_body session_id (reply_bytes r)
      ≡ ok (record { status = r.status; session_id = session_id; msg = r.server_msg })
unfolding read_reply_body put_u16
read_reply_body-reply_bytes session_id r h =
    let n = length r.server_msg in
    let whole_len : get_u16 (n / 2 ^ 8 % 2 ^ 8) (n % 2 ^ 8) ≡ n = omega arith in
    let fits : leb n (length (reply_bytes r) - 6) ≡ true =
      le→leb _ _ (omega (arith, length-append r.server_msg r.content)) in
    rw
      (
        ge→ltb (length (reply_bytes r)) 6 (omega (arith, length-append r.server_msg r.content)),
        whole_len,
        fits,
        reply_msg r h,
      )
      refl

module _ (c : Crypto) (secret : Bytes) where
  -- The client reads the status, the session and the message of a reply packet.
  pub read_reply_lem :
      (h : Header) (crypted : Bytes) (r : AuthenReply)
      → IsHeader h
      → h.version / 2 ^ 4 ≡ major_ver12
      → h.length ≡ length crypted
      → crypt_payload c h crypted secret ≡ ok (reply_bytes r)
      → length r.server_msg + 6 < 2 ^ 16
      → read_reply c secret (encode_header h ++ crypted)
        ≡ ok (record { status = r.status; session_id = h.session_id; msg = r.server_msg })
  unfolding read_reply
  read_reply_lem h crypted r w v l e short =
      let packet = encode_header h ++ crypted in
      let n = length-encode_header h in
      let long : ltb (length packet) header_len ≡ false =
        ge→ltb _ _ (omega (arith, length-append (encode_header h) crypted, n)) in
      let front = take-append header_len (encode_header h) crypted (sym n) in
      let back = drop-append header_len (encode_header h) crypted (sym n) in
      rw
        (
          long,
          front,
          decode_header-whole h w v,
          back,
          ge→ltb (length crypted) h.length (omega (arith, l)),
          take_all h.length crypted (omega (arith, l)),
          e,
        )
        (read_reply_body-reply_bytes h.session_id r short)

  -- The server's answer to a client's packet.
  abbrev pub server_of : (ℕ → Bool) → ℕ → Bytes → Bytes
  server_of writes fuel packet = concat (handle_connection c secret writes (suc fuel) 0 packet).sent

  module _ (user pass : Bytes) (short_user : length user < 2 ^ 8)
      (short_pass : length pass < 2 ^ 8) where
    abbrev start : AuthenStart
    start = parts 1 1 1 1 user port_bytes rem_addr_bytes pass []

    start_body_lem : start_body user pass ≡ whole 1 1 1 1 user port_bytes rem_addr_bytes pass []
    unfolding start_body
    start_body_lem = ground (arith, append-nil pass)

    -- The server decodes what the client built.
    pub decode_authen_start-start_body : decode_authen_start (start_body user pass) ≡ ok start
    decode_authen_start-start_body =
        ap decode_authen_start start_body_lem
        ∙ decode_authen_start-whole 1 1 1 1 user port_bytes rem_addr_bytes pass []

    length-start_body : length (start_body user pass) < 2 ^ 10
    length-start_body = rw start_body_lem (
        omega (
          arith,
          length-append user (port_bytes ++ (rem_addr_bytes ++ (pass ++ []))),
          length-append pass [],
        ))

    abbrev reply : AuthenReply
    reply = process_authen_start start

    abbrev header : Header
    header = request_header (start_body user pass)

    abbrev answer_header : Header
    answer_header = response_header header 1 (reply_bytes reply)

    reply_short : length reply.server_msg + length reply.content < 2 ^ 8
    unfolding process_authen_start
    reply_short = ground arith

    length-reply_bytes :
        length (reply_bytes reply) ≡ 6 + length reply.server_msg + length reply.content
    unfolding put_u16
    length-reply_bytes = omega (arith, length-append reply.server_msg reply.content)

    header-IsHeader : IsHeader header
    unfolding request_header
    header-IsHeader = omega arith

    answer_header-IsHeader : IsHeader answer_header
    unfolding request_header response_header
    answer_header-IsHeader = omega arith

    served :
        (crypted back : Bytes)
        → crypt_payload c header crypted secret ≡ ok (start_body user pass)
        → crypt_payload c answer_header (reply_bytes reply) secret ≡ ok back
        → serve_packet c secret header crypted ≡ ok (encode_header answer_header ++ back)
    unfolding serve_packet
    served crypted back e f =
        rw
          (
            e,
            respond_authen header (start_body user pass) start (unfold request_header in refl)
                decode_authen_start-start_body,
            f,
          )
          refl

    answered :
        (writes : ℕ → Bool) (fuel : ℕ) (crypted back : Bytes)
        → writes 0 ≡ true
        → length crypted ≡ length (start_body user pass)
        → serve_packet c secret header crypted ≡ ok back
        → server_of writes fuel (encode_header header ++ crypted) ≡ back
    answered writes fuel crypted back w same s =
        let x : Request = record { header = header; body = crypted; answer = back } in
        let good : IsServed c secret x = record {
          fits = header-IsHeader;
          major = unfold request_header in refl;
          announced = unfold request_header in omega (arith, same, length-start_body);
          answered = s;
        } in
        let run =
          handle_connection_single c secret writes x good [] fuel 0 w
            (unfold request_header in refl) in
        rw append-nil at (
          ap (λ (t : Trace). concat t.sent)
            (ap (handle_connection c secret writes (suc fuel) 0)
                (sym (append-nil (encode_header header ++ crypted)))
              ∙ run))

    -- `SendTACACSAuthenRequest` against `handleConnection` under the same secret: for a name and a
    -- password of fewer than 256 bytes each, a secret that is not empty and a first write of the server
    -- that succeeds, the client gets the status and the message that
    -- `ProcessAuthenStart` decides for the name, in session 1001.
    pub send_tacacs_authen_request_lem :
        (writes : ℕ → Bool) (fuel : ℕ)
        → secret ≢ []
        → writes 0 ≡ true
        → send_tacacs_authen_request c secret (server_of writes fuel) user pass
          ≡ ok (record { status = reply.status; session_id = 1001; msg = reply.server_msg })
    unfolding send_tacacs_authen_request authen_request
    send_tacacs_authen_request_lem writes fuel key w =
        let (crypted, there, same, back) =
          crypt_payload_twice c header secret (start_body user pass) (inl key) in
        let (returned, there', same', back') =
          crypt_payload_twice c answer_header secret (reply_bytes reply) (inl key) in
        let at_server =
          answered writes fuel crypted _ w same (served crypted returned back there') in
        rw (there, at_server)
          (unfold request_header response_header in
            read_reply_lem answer_header returned reply answer_header-IsHeader refl
              (omega (arith, same', reply_short, length-reply_bytes)) back'
              (omega (arith, reply_short)))
