-- ===== src/Wire.antt =====
-- tracker/qmake_project/{requestparser,request,response}.cpp: messages on the wire, a 32-bit length
-- in the bytes of the machine (little endian) and the bytes that protobuf makes.
pub mod Framing
use sp2p.Prelude.{
  ℕ, ◌+◌, ◌*◌, ◌/◌, ◌%◌, ◌^◌, ◌-◌, Bool, false, List, [], ◌∷◌, ◌++◌, Option, none, some, ◌&&◌, ltb,
  ◌==◌, nat_eq, nat_beq, ℤ, pos, negsuc, to_int32, length, if◌then◌else◌,
}

abbrev pub Bytes : Type 0
Bytes = List ℕ

-- sizeof(std::int32_t)
abbrev pub header_size : ℕ
header_size = 4

-- The bytes of an int32_t that holds `n`, and the number in the first four bytes.
unfoldable pub encode32 : ℕ → Bytes
encode32 n = n % 256 ∷ (n / 256) % 256 ∷ (n / 65536) % 256 ∷ (n / 16777216) % 256 ∷ []

unfoldable pub decode32 : Bytes → ℕ
decode32 (a ∷ b ∷ c ∷ d ∷ rest) = a + b * 256 + c * 65536 + d * 16777216
decode32 _ = 0

unfoldable pub drop_header : Bytes → Bytes
drop_header (a ∷ b ∷ c ∷ d ∷ rest) = rest
drop_header _ = []

-- (unsigned int) len
unfoldable pub to_unsigned : ℤ → ℕ
to_unsigned (pos n) = n
to_unsigned (negsuc n) = 2 ^ 32 - 1 - n

abbrev pub is_unset : ℤ → Bool
is_unset (pos n) = false
is_unset (negsuc n) = nat_beq n 0

-- boost::tribool, with the request that was read.
pub data Outcome (M : Type 0) : Type 0 where
  parsed : M → Outcome M
  failed indeterminate : Outcome M

-- `parse_from_istream` is protobuf's ParseFromIstream; `none` is its false.
module _ {M : Type 0} (parse_from_istream : Bytes → Option M) where
  -- What follows the reading of the length, with the bytes left in the buffer.
  unfoldable pub parse_body : ℤ → Bytes → ℤ × Outcome M
  parse_body len body =
      if ltb (length body) (to_unsigned len)
      then (len, indeterminate)
      else if length body == to_unsigned len
      then (len, elim (parse_from_istream body) [ none ↦ failed | some m ↦ parsed m ])
      else (len, failed)

  -- The buffer is made anew in every call. The member `len` is -1 until a length was read.
  unfoldable pub parse : ℤ → Bytes → ℤ × Outcome M
  unfolding parse_body
  parse len bytes =
      if is_unset len && ltb (length bytes) header_size
      then (len, indeterminate)
      else if is_unset len
      then parse_body (to_int32 (decode32 bytes)) (drop_header bytes)
      else parse_body len bytes

  -- The calls for the reads of one connection that were all indeterminate, and the state after
  -- them.
  unfoldable pub parse_reads : ℤ → List Bytes → ℤ × Outcome M
  parse_reads len [] = (len, indeterminate)
  parse_reads len (bytes ∷ rest) =
      let r = parse len bytes in elim (r.1) [ indeterminate ↦ parse_reads r.0 rest | _ ↦ r ]

-- `serialize` is protobuf's SerializePartialToOstream; ByteSize is the number of its bytes.
unfoldable pub parse_into_ostream : {M : Type 0} → (M → Bytes) → M → Bytes
parse_into_ostream serialize message =
    let payload = serialize message in encode32 (length payload) ++ payload
