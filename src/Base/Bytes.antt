-- ===== src/Base/Bytes.antt =====
-- Byte slices as lists of numbers, with Go's bounds checks, and big-endian fields.
use Prim.Native.Char.{code}
use Prim.Native.Nat.{ℕ, zero, suc, ◌+◌, ◌-◌, ◌*◌, ◌/◌, ◌%◌, ◌^◌, ◌≤◌, ◌<◌}
use Prim.Native.String.{String}
use fakeradius.Base.Lists.{
  length, get_elem?, take, drop, All, length-append, length-take, length-drop, take-append,
  drop-append,
}
use fakeradius.Base.Go.{Result, ok, panic}
use mathlib.Core.Logic.{◌⊎◌, inl, inr}
use fakeradius.Base.Tests.{leb, Bool-cases, ◌==◌, if◌then◌else◌}
use mathlib.Core.Bool.{Bool, true, false, ◌&&◌}
use mathlib.Core.List.{List, [], ◌∷◌, ◌++◌}
use mathlib.Core.Option.{none, some}
use mathlib.Core.Path.{◌≡◌, refl}
use native.Mathlib.Omega.{arith}

-- A `[]byte`, or the bytes of a Go `string`.
abbrev pub Bytes : Type 0
Bytes = List ℕ

abbrev pub IsByte : ℕ → Type 0
IsByte b = b < 256

abbrev pub AreBytes : Bytes → Type 0
AreBytes bs = All IsByte bs

-- The bytes of an ASCII literal.
abbrev pub codes : String → Bytes
codes String.[] = []
codes (String.◌∷◌ c s) = code c ∷ codes s

abbrev pub u8 : ℕ → ℕ
u8 n = n % 2 ^ 8

abbrev pub u16 : ℕ → ℕ
u16 n = n % 2 ^ 16

abbrev pub u32 : ℕ → ℕ
u32 n = n % 2 ^ 32

-- `bs[i]`, with the panic of an index out of range.
unfoldable pub at : Bytes → ℕ → Result ℕ
at bs i = elim (get_elem? bs i) [ none ↦ panic | some b ↦ ok b ]

-- `bs[lo:hi]`. Go lets `hi` go up to the capacity; here it goes up to the length, so that a slice which
-- would show bytes behind the end is a panic.
unfoldable pub slice : Bytes → ℕ → ℕ → Result Bytes
slice bs lo hi = if leb lo hi && leb hi (length bs) then ok (take (hi - lo) (drop lo bs)) else panic

-- `==` on strings, and `bytes.Equal`.
unfoldable pub bytes_eq : Bytes → Bytes → Bool
bytes_eq [] [] = true
bytes_eq (x ∷ xs) (y ∷ ys) = x == y && bytes_eq xs ys
bytes_eq _ _ = false

-- `binary.BigEndian.PutUint16` and `PutUint32`, as the bytes that they write.
unfoldable pub put_u16 : ℕ → Bytes
put_u16 n = u8 (n / 2 ^ 8) ∷ u8 n ∷ []

unfoldable pub put_u32 : ℕ → Bytes
put_u32 n = u8 (n / 2 ^ 24) ∷ u8 (n / 2 ^ 16) ∷ u8 (n / 2 ^ 8) ∷ u8 n ∷ []

-- `uint16(hi)<<8 | uint16(lo)`, on bytes.
abbrev pub get_u16 : ℕ → ℕ → ℕ
get_u16 hi lo = hi * 2 ^ 8 + lo

-- `binary.BigEndian.Uint32`, on four bytes.
abbrev pub get_u32 : ℕ → ℕ → ℕ → ℕ → ℕ
get_u32 a b c d = a * 2 ^ 24 + b * 2 ^ 16 + c * 2 ^ 8 + d

pub get_elem?-in : (bs : Bytes) (i : ℕ) → i < length bs → (b : ℕ) × (get_elem? bs i ≡ some b)
get_elem?-in [] i h = absurd (omega arith)
get_elem?-in (x ∷ xs) zero h = (x, refl)
get_elem?-in (x ∷ xs) (suc i) h = get_elem?-in xs i (omega arith)

pub at-in : (bs : Bytes) (i : ℕ) → i < length bs → (b : ℕ) × (at bs i ≡ ok b)
unfolding at
at-in bs i h = let (b, e) = get_elem?-in bs i h in (b, rw (e, at))

pub at-append :
    (pre : Bytes) (b : ℕ) (post : Bytes) (i : ℕ) → i ≡ length pre → at (pre ++ b ∷ post) i ≡ ok b
unfolding at
at-append [] b post zero e = refl
at-append [] b post (suc i) e = absurd (omega arith)
at-append (x ∷ pre) b post zero e = absurd (omega arith)
at-append (x ∷ pre) b post (suc i) e = at-append pre b post i (omega arith)

pub slice-in :
    (bs : Bytes) (lo hi : ℕ)
    → lo ≤ hi
    → hi ≤ length bs
    → slice bs lo hi ≡ ok (take (hi - lo) (drop lo bs))
unfolding slice
slice-in bs lo hi h k = ground arith

-- The middle of a concatenation.
pub slice-append :
    (pre mid post : Bytes) (lo hi : ℕ)
    → lo ≡ length pre
    → hi ≡ lo + length mid
    → slice (pre ++ (mid ++ post)) lo hi ≡ ok mid
slice-append pre mid post lo hi e f =
    rw
      (
        slice-in (pre ++ (mid ++ post)) lo hi (omega arith)
            (omega (arith, length-append pre (mid ++ post), length-append mid post)),
        drop-append lo pre (mid ++ post) e,
        take-append (hi - lo) mid post (omega arith),
      )
      refl

pub bytes_eq_refl : (bs : Bytes) → bytes_eq bs bs ≡ true
unfolding bytes_eq
bytes_eq_refl [] = refl
bytes_eq_refl (x ∷ xs) = ground (arith, bytes_eq_refl xs)

pub eq_of_bytes_eq : (xs ys : Bytes) → bytes_eq xs ys ≡ true → xs ≡ ys
unfolding bytes_eq
eq_of_bytes_eq [] [] h = refl
eq_of_bytes_eq [] (y ∷ ys) h = cc
eq_of_bytes_eq (x ∷ xs) [] h = cc
eq_of_bytes_eq (x ∷ xs) (y ∷ ys) h = ground (arith, eq_of_bytes_eq xs ys)

-- The same for a list that is known to be such a concatenation.
pub slice-eq :
    (bs pre mid post : Bytes) (lo hi : ℕ)
    → bs ≡ pre ++ (mid ++ post)
    → lo ≡ length pre
    → hi ≡ lo + length mid
    → slice bs lo hi ≡ ok mid
slice-eq bs pre mid post lo hi e f g = rw e (slice-append pre mid post lo hi f g)

pub at-eq :
    (bs pre : Bytes) (b : ℕ) (post : Bytes) (i : ℕ)
    → bs ≡ pre ++ b ∷ post
    → i ≡ length pre
    → at bs i ≡ ok b
at-eq bs pre b post i e f = rw e (at-append pre b post i f)

pub slice_cases :
    (bs : Bytes) (lo hi : ℕ)
    → ((mid : Bytes) × (slice bs lo hi ≡ ok mid)) ⊎ (slice bs lo hi ≡ panic)
unfolding slice
slice_cases bs lo hi = elim (Bool-cases (leb lo hi && leb hi (length bs))) [
  | inl within ↦ inl (take (hi - lo) (drop lo bs), rw within refl)
  | inr out ↦ inr (rw out refl)
]

-- A slice within bounds has a value, as long as the bounds say.
pub slice-between :
    (bs : Bytes) (lo hi : ℕ)
    → lo ≤ hi
    → hi ≤ length bs
    → (mid : Bytes) × (slice bs lo hi ≡ ok mid) × (length mid ≡ hi - lo)
slice-between bs lo hi h k = (
  take (hi - lo) (drop lo bs),
  slice-in bs lo hi h k,
  omega (arith, length-take (hi - lo) (drop lo bs), length-drop lo bs),
)

pub length-put_u16 : (n : ℕ) → length (put_u16 n) ≡ 2
unfolding put_u16
length-put_u16 n = refl

-- The two bytes of a declared length.
pub length_bytes :
    (code id n : ℕ) (rest : Bytes)
    → n < 65536
    → (hi lo : ℕ) × (at (code ∷ id ∷ (put_u16 n ++ rest)) 2 ≡ ok hi)
      × (at (code ∷ id ∷ (put_u16 n ++ rest)) 3 ≡ ok lo)
      × (get_u16 hi lo ≡ n)
unfolding at put_u16
length_bytes code id n rest h = (n / 2 ^ 8 % 2 ^ 8, n % 2 ^ 8, refl, refl, omega arith)
