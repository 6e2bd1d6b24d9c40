-- ===== src/Cli/Display/Total.antt =====
-- `DisplayResponse` of cmd/cli/radius-cli.go on every packet.
use fakeradius.Base.{
  ℕ, ◌+◌, ◌≤◌, ◌<◌, ◌≡◌, ◌≢◌, ◌⊎◌, inl, inr, refl, ap, ◌∙◌, arith, false, ◌||◌, List, [], ◌∷◌, zero,
  suc, take, drop, length-drop, take-append-drop, ◌++◌, length, ltb, ltb→ge, ltb→lt, ◌==◌, Result,
  ok, panic, Bool-cases, All, All-append,
}
use fakeradius.Base.Bytes.{Bytes, at, at-in, slice, slice-between, get_u16}
use fakeradius.Cli.Display.{
  hidden, Row, DumpLine, hex_dump, code_to_string, style_of, row, append_row, Display, too_short,
  bad_length, shown, display_response,
}
use fakeradius.Radius.Attributes.Total.{malformed_cases}
use fakeradius.Radius.Walk.{halt, next, for_attributes}
use mathlib.Core.Path.{subst}
use fakeradius.Radius.Walk.Total.{walk_total}

-- A row that does not tell a password.
abbrev pub IsDiscreet : Row → Type 0
IsDiscreet r = (r.attr_type ≢ 2) ⊎ (r.style ≡ hidden)

row-IsDiscreet : (attr_type : ℕ) (value : Bytes) → IsDiscreet (row attr_type value)
unfolding style_of
row-IsDiscreet attr_type value = elim (Bool-cases (attr_type == 2)) [
  | inl password ↦
      let e : 2 ≡ attr_type = ground arith in inr (subst (λ n. style_of n value ≡ hidden) e refl)
  | inr other ↦ inl (λ e. absurd (ground arith))
]

-- The length that a packet declares.
abbrev pub Declares : Bytes → ℕ → Type 0
Declares received len =
    (hi : ℕ) × (lo : ℕ) × (at received 2 ≡ ok hi) × (at received 3 ≡ ok lo) × (get_u16 hi lo ≡ len)

-- The bytes of a dump, in the order of its lines.
abbrev pub dumped : List DumpLine → Bytes
dumped [] = []
dumped (line ∷ lines) = line.bytes ++ dumped lines

-- What is printed of a packet: nothing of a short packet or a wrong length, else its fields, the rows and the dump
-- of all the bytes of the declared length.
abbrev pub Shows : Bytes → Display → Type 0
Shows received too_short = length received < 20
Shows received bad_length =
    (20 ≤ length received)
    × ((len : ℕ) × Declares received len × ((length received < len) ⊎ (len < 20)))
Shows received (shown code name id len authenticator rows dump) =
    (20 ≤ len)
    × (len ≤ length received)
    × Declares received len
    × (at received 0 ≡ ok code)
    × (at received 1 ≡ ok id)
    × ((packet : Bytes) × (slice received 0 len ≡ ok packet)
        × (slice packet 4 20 ≡ ok authenticator)
        × (dumped dump ≡ packet))
    × (length authenticator ≡ 16)
    × All IsDiscreet rows

hex_dump-dumped : (fuel i : ℕ) (bs : Bytes) → length bs ≤ fuel → dumped (hex_dump fuel i bs) ≡ bs
hex_dump-dumped zero i [] h = refl
hex_dump-dumped zero i (b ∷ bs) h = absurd (omega arith)
hex_dump-dumped (suc fuel) i [] h = refl
hex_dump-dumped (suc fuel) i (b ∷ bs) h =
    ap (λ z. b ∷ (take 15 bs ++ z))
      (hex_dump-dumped fuel (i + 16) (drop 15 bs) (omega (arith, length-drop 15 bs)))
    ∙ ap (λ z. b ∷ z) (take-append-drop 15 bs)

abbrev Out : Result (List Row) → Type 0
Out r = (rows : List Row) × (r ≡ ok rows) × All IsDiscreet rows

round :
    (packet : Bytes) (pos t l : ℕ) (rows : List Row)
    → All IsDiscreet rows
    → ((rows' : List Row) × (append_row packet pos t l rows ≡ ok (halt rows')) × Out (ok rows'))
      ⊎ ((rows' : List Row) × (append_row packet pos t l rows ≡ ok (next rows'))
          × (2 ≤ l)
          × All IsDiscreet rows')
      ⊎ ((append_row packet pos t l rows ≡ panic) × Out panic)
round packet pos t l rows good = elim (malformed_cases packet pos l) [
  | inl bad ↦ inl (rows, rw bad refl, (rows, refl, good))
  | inr (fine, two, fits) ↦
      let (value, cut, n) = slice-between packet (pos + 2) (pos + l) (omega arith) fits in
      inr (
        inl (
          rows ++ row t value ∷ [],
          rw (fine, cut) refl,
          two,
          All-append IsDiscreet rows (row t value ∷ []) good (row-IsDiscreet t value, tt),
        ))
]

rows-Out : (packet : Bytes) → Out (for_attributes (append_row packet) packet (length packet) 20 [])
rows-Out packet =
    let (r, e, o) =
      walk_total (λ _ s. ok s) (append_row packet) packet (length packet)
        (λ _ rows. All IsDiscreet rows) Out (omega arith) (λ pos s i _. (s, refl, i))
        (λ pos s i _. (s, refl, (s, refl, i))) (λ pos t l s i _. round packet pos t l s i)
        (length packet) 20 [] tt (omega arith) in
    let (rows, f, g) = o in (rows, e ∙ f, g)

-- From the length check on.
display_from :
    (received : Bytes) (code id hi lo : ℕ)
    → ltb (length received) 20 ≡ false
    → at received 0 ≡ ok code
    → at received 1 ≡ ok id
    → at received 2 ≡ ok hi
    → at received 3 ≡ ok lo
    → (d : Display) × (display_response received ≡ ok d) × Shows received d
unfolding display_response
display_from received code id hi lo long e0 e1 e2 e3 =
    let n = get_u16 hi lo in
    elim (Bool-cases (ltb (length received) n || ltb n 20)) [
      | inl bad ↦
          let wrong : (length received < n) ⊎ (n < 20) = ground arith in
          (
            bad_length,
            rw (long, e0, e1, e2, e3, bad) refl,
            (ltb→ge _ _ long, (n, (hi, lo, e2, e3, refl), wrong)),
          )
      | inr good ↦
          let enough : 20 ≤ n = ground arith in
          let within : n ≤ length received = ground arith in
          let (packet, cut, size) = slice-between received 0 n (omega arith) within in
          let (auth, cut', size') = slice-between packet 4 20 (omega arith) (omega arith) in
          let (rows, e, discreet) = rows-Out packet in
          let whole : for_attributes (append_row packet) packet n 20 [] ≡ ok rows =
            ap (λ k. for_attributes (append_row packet) packet k 20 []) (omega (arith, size)) ∙ e in
          (
            shown code (code_to_string code) id n auth rows (hex_dump (length packet) 0 packet),
            rw (long, e0, e1, e2, e3, good, cut, cut', whole) refl,
            (
              enough,
              within,
              (hi, lo, e2, e3, refl),
              e0,
              e1,
              (packet, cut, cut', hex_dump-dumped (length packet) 0 packet (omega arith)),
              omega (arith, size'),
              discreet,
            ),
          )
    ]

-- On every packet the display ends without a panic: it says that the packet is too short where it has fewer than
-- twenty bytes, or that its length is wrong where the declared length is below twenty or beyond the packet, or it
-- shows the code, the identifier, the declared length, the authenticator, rows of which none has the value of a
-- User-Password, and the dump of all the bytes of the declared length, those of a User-Password included.
pub display_response_total :
    (received : Bytes) → (d : Display) × (display_response received ≡ ok d) × Shows received d
unfolding display_response
display_response_total received = elim (Bool-cases (ltb (length received) 20)) [
  | inl short ↦ (too_short, rw short refl, ltb→lt _ _ short)
  | inr long ↦
      let enough : 20 ≤ length received = ltb→ge _ _ long in
      let (code, e0) = at-in received 0 (omega arith) in
      let (id, e1) = at-in received 1 (omega arith) in
      let (hi, e2) = at-in received 2 (omega arith) in
      let (lo, e3) = at-in received 3 (omega arith) in
      display_from received code id hi lo long e0 e1 e2 e3
]
