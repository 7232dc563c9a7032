-- ===== src/Sercli/Parser/Bounds.antt =====
-- sercli/src/parser.cpp: the size of what the parser keeps.
use sp2p.Prelude.{
  ℕ, ◌≤◌, ◌<◌, ◌^◌, ◌≡◌, ◌++◌, Option, ℤ, pos_part, neg_part, to_int32, length, ltb, Bool-cases,
  inl, inr, arith,
}
use sp2p.Wire.{Bytes, decode32, drop_header}
use sp2p.Sercli.Parser.{
  NodeResponseParser, max_buffer_size, fresh, bad, read_size, read_message_body, parse,
}

-- The values of an `int`.
abbrev pub IsInt : ℤ → Type 0
IsInt i = (pos_part i < 2 ^ 31) × (neg_part i ≤ 2 ^ 31)

to_int32-IsInt : (n : ℕ) → IsInt (to_int32 n)
unfolding to_int32
to_int32-IsInt n = (ground arith, ground arith)

length-drop_header : (b : Bytes) → length (drop_header b) ≤ length b
unfolding drop_header
length-drop_header b = ground arith

-- The parser with what it was given and the length read.
abbrev pub IsBounded : NodeResponseParser → Type 0
IsBounded p = (length p.sb ≤ max_buffer_size) × IsInt p.message_size

read_size-IsBounded : (p : NodeResponseParser) → IsBounded p → IsBounded (read_size p)
unfolding read_size
read_size-IsBounded p h = ground (arith, to_int32-IsInt (decode32 p.sb), length-drop_header p.sb)

module _ {M : Type 0} (parse_from_istream : Bytes → Option M) where
  read_message_body-IsBounded :
      (p : NodeResponseParser) → IsBounded p → IsBounded (read_message_body parse_from_istream p).0
  unfolding read_message_body
  read_message_body-IsBounded p h = ground arith

  read_message_body_bad :
      (p : NodeResponseParser)
      → (read_message_body parse_from_istream p).1 ≡ bad
      → (read_message_body parse_from_istream p).0 ≡ fresh
  unfolding read_message_body
  read_message_body_bad p h = ground arith

-- Whatever the parser held and is given: afterwards its buffer is not over the limit, its size is
-- one that an `int` holds if it was before, and after BAD it is as new.
pub parse-IsBounded :
    {M : Type 0} (parse_from_istream : Bytes → Option M) (p : NodeResponseParser) (bytes : Bytes)
    → IsInt p.message_size
    → IsBounded (parse parse_from_istream p bytes).0
      × ((parse parse_from_istream p bytes).1 ≡ bad → (parse parse_from_istream p bytes).0 ≡ fresh)
unfolding parse
parse-IsBounded f p bytes i =
    let p' = record p { sb = p.sb ++ bytes } in
    elim (Bool-cases (ltb max_buffer_size (length (p.sb ++ bytes)))) [
      | inl over ↦ ground arith
      | inr fits ↦
          let q = read_size-IsBounded p' (ground arith, i) in
          ground (
            arith,
            read_message_body-IsBounded f (read_size p') q,
            read_message_body_bad f (read_size p'),
          )
    ]
