-- ===== src/Tacacs/Server/Round.antt =====
-- One round of the loop of `handleConnection` in pkg/tacacs/server.go, branch by branch.
use fakeradius.Base.{
  ℕ, suc, ◌+◌, ◌≤◌, ◌<◌, ◌≡◌, ◌≢◌, refl, arith, Bool, true, false, [], ◌∷◌, length, take, drop,
  ◌==◌, bit_and, Error, ok, err, ge→ltb, lt→ltb,
}
use fakeradius.Base.Bytes.{Bytes}
use fakeradius.Crypto.{Crypto}
use fakeradius.Tacacs.Header.{Header, header_len, flag_single_connect, decode_header}
use fakeradius.Tacacs.Server.{Close, Trace, closes, serve_packet, handle_connection}

module _ (c : Crypto) (secret : Bytes) (writes : ℕ → Bool) (fuel n : ℕ) (incoming : Bytes) where
  abbrev this : Trace
  this = handle_connection c secret writes (suc fuel) n incoming

  pub no_input : incoming ≡ [] → this ≡ closes Close.end_of_input
  unfolding handle_connection
  no_input e = rw e refl

  pub part_of_header :
      0 < length incoming → length incoming < header_len → this ≡ closes Close.header_read_failed
  unfolding handle_connection
  part_of_header h k =
      let some_input : (length incoming == 0) ≡ false = ground arith in
      rw (handle_connection, lt→ltb (length incoming) header_len k, some_input) refl

  module _ (long : header_len ≤ length incoming) where
    pub bad_header :
        (e : Error)
        → decode_header (take header_len incoming) ≡ err e
        → this ≡ closes (Close.refused e)
    unfolding handle_connection
    bad_header e f = rw (handle_connection, ge→ltb (length incoming) header_len long, f) refl

    module _ (hdr : Header) (decoded : decode_header (take header_len incoming) ≡ ok hdr) where
      abbrev rest : Bytes
      rest = drop header_len incoming

      pub part_of_body : length rest < hdr.length → this ≡ closes Close.body_read_failed
      unfolding handle_connection
      part_of_body h =
          rw
            (
              handle_connection,
              ge→ltb (length incoming) header_len long,
              decoded,
              lt→ltb (length rest) hdr.length h,
            )
            refl

      module _ (whole : hdr.length ≤ length rest) where
        pub bad_request :
            (e : Error)
            → serve_packet c secret hdr (take hdr.length rest) ≡ err e
            → this ≡ closes (Close.refused e)
        unfolding handle_connection
        bad_request e f =
            rw
              (
                handle_connection,
                ge→ltb (length incoming) header_len long,
                decoded,
                ge→ltb (length rest) hdr.length whole,
                f,
              )
              refl

        module _ (packet : Bytes)
            (served : serve_packet c secret hdr (take hdr.length rest) ≡ ok packet) where
          pub not_written : writes n ≡ false → this ≡ closes Close.send_failed
          unfolding handle_connection
          not_written w =
              rw
                (
                  handle_connection,
                  ge→ltb (length incoming) header_len long,
                  decoded,
                  ge→ltb (length rest) hdr.length whole,
                  served,
                  w,
                )
                refl

          pub last_request :
              writes n ≡ true
              → bit_and hdr.flags flag_single_connect ≡ 0
              → this ≡ record { sent = packet ∷ []; close = Close.served }
          unfolding handle_connection
          last_request w f =
              rw
                (
                  handle_connection,
                  ge→ltb (length incoming) header_len long,
                  decoded,
                  ge→ltb (length rest) hdr.length whole,
                  served,
                  w,
                  f,
                )
                refl

          abbrev later : Trace
          later = handle_connection c secret writes fuel (n + 1) (drop hdr.length rest)

          pub more_requests :
              writes n ≡ true
              → bit_and hdr.flags flag_single_connect ≢ 0
              → this ≡ record { sent = packet ∷ later.sent; close = later.close }
          unfolding handle_connection
          more_requests w f =
              let kept : (bit_and hdr.flags flag_single_connect == 0) ≡ false = ground arith in
              rw
                (
                  handle_connection,
                  ge→ltb (length incoming) header_len long,
                  decoded,
                  ge→ltb (length rest) hdr.length whole,
                  served,
                  w,
                  kept,
                )
                refl
