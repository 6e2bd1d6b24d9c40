-- ===== src/Radius/Packet/Total.antt =====
-- `handlePacket` of cmd/server/main.go deals with every datagram that the server can receive, but for the
-- panics of `hasMSCHAPAttributes` and `extractMA`.
use fakeradius.Base.{ℕ, ◌<◌, ◌≡◌, ◌≢◌, refl, ◌⊎◌, length, ok, panic}
use fakeradius.Base.Bytes.{Bytes, at, slice, get_u16}
use fakeradius.Crypto.{Crypto}
use fakeradius.Radius.Attributes.{has_mschap_attributes}
use fakeradius.Radius.Decide.Short.{Short}
use fakeradius.Radius.Packet.{auth_type_of, answer_request}

-- The length that a datagram declares.
abbrev pub Declares : Bytes → ℕ → Type 0
Declares datagram len =
    (hi : ℕ) × (lo : ℕ) × (at datagram 2 ≡ ok hi) × (at datagram 3 ≡ ok lo) × (get_u16 hi lo ≡ len)

abbrev pub IsIgnored : Bytes → Type 0
IsIgnored datagram =
    (length datagram < 20)
    ⊎ ((len : ℕ) × Declares datagram len × (length datagram < len))
    ⊎ ((code : ℕ) × (at datagram 0 ≡ ok code) × (code ≢ 1))

-- A datagram that is an Access-Request, with the packet of its declared length and the identifier.
abbrev pub IsRequest : Bytes → Bytes → ℕ → Type 0
IsRequest datagram packet id =
    (at datagram 0 ≡ ok 1)
    × (at datagram 1 ≡ ok id)
    × ((len : ℕ) × Declares datagram len × (slice datagram 0 len ≡ ok packet))

module _ (c : Crypto) (secret : Bytes) where
  pub answer_request-panic :
      (packet : Bytes) (id : ℕ)
      → has_mschap_attributes packet ≡ panic
      → answer_request c secret packet id ≡ panic
  unfolding answer_request auth_type_of
  answer_request-panic packet id h = rw h refl
