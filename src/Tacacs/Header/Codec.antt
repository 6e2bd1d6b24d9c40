-- ===== src/Tacacs/Header/Codec.antt =====
-- `DecodeHeader` and `Encode` of pkg/tacacs/header.go are inverse on the packets of major version 12.
use fakeradius.Base.{
  ℕ, ◌/◌, ◌%◌, ◌^◌, ◌≤◌, ◌<◌, ◌≡◌, refl, arith, ◌⊎◌, inl, inr, ◌≢◌, ◌∷◌, ◌++◌, length, take, ◌==◌,
  ok, err, header_too_short, unsupported_major_version, if◌then◌else◌, Bool-cases,
}
use fakeradius.Base.Bytes.{Bytes, AreBytes, at, get_u32}
use fakeradius.Tacacs.Header.{
  Header, IsHeader, header_len, major_ver12, decode_header, encode_header,
}

-- A big-endian field gives back the number that was put in it.
pub get_u32-put_u32 :
    (n : ℕ)
    → n < 2 ^ 32
    → get_u32 (n / 2 ^ 24 % 2 ^ 8) (n / 2 ^ 16 % 2 ^ 8) (n / 2 ^ 8 % 2 ^ 8) (n % 2 ^ 8) ≡ n
get_u32-put_u32 n h = omega arith

-- A header of major version 12 is read back from its encoding, whatever follows.
pub decode_header-encode_header :
    (h : Header) (rest : Bytes)
    → IsHeader h
    → h.version / 2 ^ 4 ≡ major_ver12
    → decode_header (encode_header h ++ rest) ≡ ok h
unfolding decode_header encode_header
decode_header-encode_header h rest w v =
    ground (arith, get_u32-put_u32 h.session_id, get_u32-put_u32 h.length)

-- What `DecodeHeader` gives for twelve bytes or more.
decode_header_cases :
    (v t s f a b c d k l m n : ℕ) (rest : Bytes)
    → decode_header (v ∷ t ∷ s ∷ f ∷ a ∷ b ∷ c ∷ d ∷ k ∷ l ∷ m ∷ n ∷ rest) ≡ (
        if v / 2 ^ 4 == major_ver12
        then ok (record {
          version = v;
          type = t;
          seq_no = s;
          flags = f;
          session_id = get_u32 a b c d;
          length = get_u32 k l m n;
        })
        else err unsupported_major_version)
unfolding decode_header
decode_header_cases v t s f a b c d k l m n rest = ground arith

-- Whatever `DecodeHeader` accepts, `Encode` writes back: the first twelve bytes of the input, of
-- major version 12, with every field in the range of its type.
pub encode_header-decode_header :
    (bs : Bytes) (h : Header)
    → AreBytes bs
    → decode_header bs ≡ ok h
    → (encode_header h ≡ take header_len bs) × (h.version / 2 ^ 4 ≡ major_ver12) × IsHeader h
unfolding encode_header
encode_header-decode_header (v ∷ t ∷ s ∷ f ∷ a ∷ b ∷ c ∷ d ∷ k ∷ l ∷ m ∷ n ∷ rest) h bytes e =
    ground (arith, decode_header_cases v t s f a b c d k l m n rest)
encode_header-decode_header _ h bytes e = unfold decode_header in cc

-- `DecodeHeader` returns on every input. It refuses an input of fewer than twelve bytes as too
-- short and a longer one as unsupported where the major version in its first byte is not 12, and
-- accepts every other.
pub decode_header_total :
    (bs : Bytes)
    → ((length bs < header_len) × (decode_header bs ≡ err header_too_short))
      ⊎ ((header_len ≤ length bs)
          × ((v : ℕ) × (at bs 0 ≡ ok v)
              × (v / 2 ^ 4 ≢ major_ver12)
              × (decode_header bs ≡ err unsupported_major_version)))
      ⊎ ((header_len ≤ length bs)
          × ((v : ℕ) × (h : Header) × (at bs 0 ≡ ok v)
              × (v / 2 ^ 4 ≡ major_ver12)
              × (decode_header bs ≡ ok h)))
unfolding at
decode_header_total (v ∷ t ∷ s ∷ f ∷ a ∷ b ∷ c ∷ d ∷ k ∷ l ∷ m ∷ n ∷ rest) =
    let decoded : Header = record {
      version = v;
      type = t;
      seq_no = s;
      flags = f;
      session_id = get_u32 a b c d;
      length = get_u32 k l m n;
    } in
    elim (Bool-cases (v / 2 ^ 4 == major_ver12)) [
      | inl e ↦ inr (
          inr (
            omega arith,
            (
              v,
              decoded,
              refl,
              ground arith,
              ground (arith, decode_header_cases v t s f a b c d k l m n rest),
            ),
          ))
      | inr e ↦ inr (
          inl (
            omega arith,
            (
              v,
              refl,
              ground arith,
              ground (arith, decode_header_cases v t s f a b c d k l m n rest),
            ),
          ))
    ]
decode_header_total _ = unfold decode_header in inl (omega arith, refl)
