-- ===== src/Lib.antt =====
-- FakeRADIUS is a RADIUS and TACACS+ server for tests, with a command-line client. It accepts every
-- user but those whose name begins with "no_".
--
-- The parts and their files:
--   Base, Crypto     what the modules share. `Result` is the outcome of a Go function: a value, an error
--                    or a panic; `stuck` is a loop that is out of fuel, which no theorem's result is.
--                    Go's crypto/md5 and crypto/hmac are a parameter, the record `Crypto`, of which the
--                    length and range of a digest are relied on.
--   Tacacs           pkg/tacacs and cmd/cli/tacacs_client.go.
--     Header, Crypt    pkg/tacacs/header.go: `DecodeHeader`, `Encode`, `CryptPayload`.
--     Authen, Author   pkg/tacacs/authen.go and author.go: the bodies, and what the server decides.
--     Server           pkg/tacacs/server.go: `handleConnection`, from all bytes that the peer sends until it
--                      closes, and a test of which writes succeed, to the packets sent and the reason
--                      for the return.
--     Client           cmd/cli/tacacs_client.go: `SendTACACSAuthenRequest` against a peer that is a function.
--   Radius           cmd/server/handler.go and `handlePacket` and `extractEAPMessage` of cmd/server/main.go.
--     Walk             the loop over attributes that the functions share, with a body for each of them;
--                      Walk/Encoded has the attributes of a well-formed packet.
--     Attributes       `buildAttribute` and the `has...` scans.
--     Extract          the `extract...` functions.
--     Signature        the Message-Authenticator.
--     Response         `buildResponsePacket`.
--     Mschap, Decide   `parseMSCHAPData`, the CHAP parsers and checks, and the three `ServeRadius...`.
--     Breakdown        `extractMA`, the step of `showMABreakdown` that can fail.
--     Packet           `handlePacket`, from a datagram to what is sent.
--   Eap              `handleEAP` and `handleTLSHandshake` of cmd/server/main.go.
--     Session          `EAPSession` and the map of sessions, a function from addresses.
--     Tls              `handleTLSHandshake`: Flight has what it sends, Drain how a flight gets through.
--     Handle           `handleEAP`, with the sessions passed on; Response has the packets that it sends, Dispatch
--                      and Outcome the ways in which it ends, Phases, Sound, Store and Reachable the
--                      states of the sessions where no two handlers overlap, Answered what it promises.
--     Overlap          the handlers of one address, of which each access to the session is a turn of its own.
--   Cli              cmd/cli/radius-cli.go and cmd/cli/main.go.
--     Password         `encryptPassword`.
--     Signature        its copies of `replaceOrAddMA` and `calculateMessageAuthenticator`.
--     Requests         the PAP, CHAP and MS-CHAP logins against a peer that is a function.
--     Ttls             the EAP-TTLS login, of which the client does the first exchange.
--     Display          `DisplayResponse`, as what its lines say.
--     Main             cmd/cli/main.go: `validateConfig`, and `main` from os.Args on, with pflag.Parse as an
--                      argument.
--   Tests            concrete inputs.
--
-- A datagram goes through Packet, which asks Attributes and Signature, takes values by Extract, lets Decide
-- choose a code and a message, and has Response build the answer, or hands the packet to Eap. The client's
-- requests in Cli go to these and come back as their responses. A TACACS+ connection goes through Server,
-- which reads a header, undoes Crypt, and answers by Authen or Author.
--
-- Numbers are natural numbers, and each conversion of Go's that cuts bits is written out. The loops that Go
-- runs on a condition have fuel: the attribute loop the length of the packet, since a round that goes on takes
-- two bytes at least; the obfuscation loop the length of the payload, since a round takes a byte at least;
-- the connection loop any number above the number of bytes received, since a round takes a header at least.
-- The loop that splits an EAP message has its length. The wait for the TLS server is the 400 polls of the source.
-- A datagram has at most 2048 bytes, the size of the buffer in `main`.
--
-- The handshake of crypto/tls runs in a goroutine with the session's buffers. It is an argument: an `Activity`
-- for each pause of the handler, in which it reads, writes and may come to its end, and a step of its own
-- between datagrams. What the client draws at random, the time, the hostname, os.ReadFile and the parser of
-- certificates are arguments too.
--
-- cmd/server/main.go runs `handlePacket` in a goroutine for each datagram, and `sessionMu` guards only the lookup
-- of the session. `handleEAP` in Eap/Handle is one handler that no other overlaps, and Eap/Reachable has the
-- stores that such handlers lead to; Eap/Overlap has the interleavings, with an access to the session as
-- the smallest step.
--
-- Not modelled: what Go leaves open where a handler and another goroutine access a field of the session at
-- one time without a lock, the TLS records themselves, flags, sockets and deadlines, `eapConn`, which
-- nothing uses, and what is only printed or logged, with `showResponseDebug` and `showMABreakdown` but for
-- `extractMA`. A slice beyond the length that Go allows up to the capacity is a panic here, except in
-- `extractMA`, where the buffer's end is the bound.
pub mod Base
pub mod Crypto
pub mod Tacacs
pub mod Radius
pub mod Eap
pub mod Cli
mod Tests
