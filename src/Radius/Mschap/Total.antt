-- ===== src/Radius/Mschap/Total.antt =====
-- `parseMSCHAPData` of cmd/server/handler.go returns on every vendor data.
use fakeradius.Base.{ℕ, ◌-◌, arith, inl, inr, length, ltb, ◌==◌, Returns, ltb→ge, Bool-cases}
use fakeradius.Base.Bytes.{Bytes, at-in, slice-between, get_u16}
use fakeradius.Radius.Mschap.{parse_mschap_version, parse_mschap_data}

parse_mschap_version-Returns :
    (ms_type : ℕ) (content name : Bytes) → Returns (parse_mschap_version ms_type content name)
unfolding parse_mschap_version
parse_mschap_version-Returns ms_type content name = elim (Bool-cases (ms_type == 1)) [
  | inl one ↦ elim (Bool-cases (ltb (length content) 24)) [
    | inl few ↦ rw (one, few) tt
    | inr enough ↦
        let size = ltb→ge (length content) 24 enough in
        let (_, e, _) = slice-between content 0 24 (omega arith) size in rw (one, enough, e) tt
  ]
  | inr other ↦ elim (Bool-cases (ms_type == 3)) [
    | inr unknown ↦ rw (other, unknown) tt
    | inl three ↦ elim (Bool-cases (ltb (length content) 49)) [
      | inl few ↦ rw (other, three, few) tt
      | inr enough ↦
          let size = ltb→ge (length content) 49 enough in
          let (_, e, _) = slice-between content 0 16 (omega arith) (omega arith) in
          let (_, f, _) = slice-between content 24 48 (omega arith) (omega arith) in
          let (_, g) = at-in content 48 (omega arith) in rw (other, three, enough, e, f, g) tt
    ]
  ]
]

pub parse_mschap_data-Returns : (vendor_data : Bytes) → Returns (parse_mschap_data vendor_data)
unfolding parse_mschap_data
parse_mschap_data-Returns v = elim (Bool-cases (ltb (length v) 4)) [
  | inl few ↦ rw few tt
  | inr enough ↦
      let four = ltb→ge (length v) 4 enough in
      let (t, e0) = at-in v 0 (omega arith) in
      let (hi, e2) = at-in v 2 (omega arith) in
      let (lo, e3) = at-in v 3 (omega arith) in
      elim (Bool-cases (ltb (length v - 4) (get_u16 hi lo))) [
        | inl long ↦ rw (enough, e0, e2, e3, long) tt
        | inr within ↦ elim (Bool-cases (ltb (get_u16 hi lo) 4)) [
          | inl short ↦ rw (enough, e0, e2, e3, within, short) tt
          | inr room ↦
              let inside = ltb→ge (length v - 4) (get_u16 hi lo) within in
              let past = ltb→ge (get_u16 hi lo) 4 room in
              let (content, f, _) = slice-between v 4 (get_u16 hi lo) past (omega arith) in
              let (name, g, _) =
                slice-between v (get_u16 hi lo) (length v) (omega arith) (omega arith) in
              rw (enough, e0, e2, e3, within, room, f, g)
                (parse_mschap_version-Returns t content name)
        ]
      ]
]
