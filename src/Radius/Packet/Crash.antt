-- ===== src/Radius/Packet/Crash.antt =====
-- A datagram on which `handlePacket` of cmd/server/main.go panics.
use fakeradius.Base.{
  ℕ, ◌+◌, ◌<◌, ◌≡◌, refl, sym, ap, ◌∙◌, arith, List, [], ◌∷◌, ◌++◌, append_assoc, append-nil,
  length, ok, panic, All, length-append,
}
use fakeradius.Base.Bytes.{Bytes, at, slice, slice-eq, put_u16, length-put_u16, length_bytes}
use fakeradius.Crypto.{Crypto}
use fakeradius.Radius.Attributes.Panic.{NoMschap, has_mschap_attributes-panic}
use fakeradius.Radius.Attributes.{access_request, has_mschap_attributes}
use fakeradius.Radius.Packet.Reply.{received}
use fakeradius.Radius.Packet.Total.{answer_request-panic}
use fakeradius.Radius.Packet.{handle_packet}
use fakeradius.Radius.Walk.Encoded.{Attribute, Fits, encode}

-- An Access-Request with a Vendor-Specific attribute of length `l` at its end.
abbrev pub crash_bytes : ℕ → Bytes → List Attribute → ℕ → Bytes → Bytes
crash_bytes id auth attrs l rest =
    let tail = encode attrs ++ (26 ∷ l ∷ rest) in
    access_request ∷ id ∷ (put_u16 (20 + length tail) ++ (auth ++ tail))

-- An Access-Request with an authenticator of sixteen bytes, then attributes that fit and of which none
-- is an MS-CHAP one, then a Vendor-Specific attribute of length 0 or 1 and any bytes, of a total length
-- below 2^16, makes the handler panic, whatever the secret.
pub handle_packet-panic :
    (c : Crypto) (secret : Bytes) (id : ℕ) (auth : Bytes) (attrs : List Attribute) (l : ℕ)
    (rest : Bytes)
    → length auth ≡ 16
    → All Fits attrs
    → All NoMschap attrs
    → l < 2
    → 20 + length (encode attrs ++ (26 ∷ l ∷ rest)) < 65536
    → handle_packet c secret (crash_bytes id auth attrs l rest) ≡ panic
unfolding at
handle_packet-panic c secret id auth attrs l rest sixteen fits none few size =
    let p = crash_bytes id auth attrs l rest in
    let tail = encode attrs ++ (26 ∷ l ∷ rest) in
    let n : ℕ = 20 + length tail in
    let head = access_request ∷ id ∷ (put_u16 n ++ auth) in
    let (hi, lo, e2, e3, e) = length_bytes access_request id n (auth ++ tail) size in
    let whole : p ≡ head ++ tail =
      ap (λ z. access_request ∷ id ∷ z) (sym (append_assoc (put_u16 n) auth tail)) in
    let twenty : length head ≡ 20 =
      omega (arith, length-append (put_u16 n) auth, length-put_u16 n) in
    let long : length p ≡ n =
      ap length whole ∙ length-append head tail ∙ ap (λ m. m + length tail) twenty in
    let cut : slice p 0 n ≡ ok p = slice-eq p [] p [] 0 n (sym (append-nil p)) refl (omega arith) in
    received c secret id p p hi lo n refl refl e2 e3 e (omega arith) (omega arith) cut
    ∙ answer_request-panic c secret p id (
        ap has_mschap_attributes whole
        ∙ has_mschap_attributes-panic head attrs l rest twenty fits none few)
