-- ===== src/Sercli/Parser.antt =====
-- sercli/src/parser.cpp: the client's parser of the tracker's answers, with the buffer it keeps
-- between two reads.
pub mod Splitting
pub mod Bounds
use sp2p.Prelude.{
  ℕ, ◌^◌, ◌-◌, Bool, List, [], ◌∷◌, ◌++◌, Option, none, some, ◌&&◌, ◌||◌, not, ltb, leb, ℤ, pos,
  negsuc, ltb_ℤ, to_int32, length, if◌then◌else◌,
}
use sp2p.Wire.{Bytes, header_size, decode32, drop_header, is_unset}

pub data ParseResult (M : Type 0) : Type 0 where
  good : M → ParseResult M
  bad indeterminate : ParseResult M

pub record NodeResponseParser : Type 0 where
  pub message_size : ℤ
  pub sb : Bytes

-- std::numeric_limits<std::uint32_t>::max()
abbrev pub max_buffer_size : ℕ
max_buffer_size = 4294967295

abbrev pub reset : NodeResponseParser → NodeResponseParser
reset p = record p { sb = []; message_size = negsuc 0 }

abbrev pub fresh : NodeResponseParser
fresh = record { message_size = negsuc 0; sb = [] }

-- The reading of the length, which takes its bytes out of the buffer.
unfoldable pub read_size : NodeResponseParser → NodeResponseParser
read_size p =
    if is_unset p.message_size && leb header_size (length p.sb)
    then record { message_size = to_int32 (decode32 p.sb); sb = drop_header p.sb }
    else p

-- `parse_from_istream` is protobuf's ParseFromIstream, which reads the buffer to its end; `none` is
-- its false or an exception.
module _ {M : Type 0} (parse_from_istream : Bytes → Option M) where
  unfoldable pub read_message_body : NodeResponseParser → NodeResponseParser × ParseResult M
  read_message_body p =
      if not (ltb_ℤ (to_int32 (length p.sb)) p.message_size) && not (is_unset p.message_size)
      then elim (parse_from_istream p.sb) [
        | some m ↦ (record { message_size = negsuc 0; sb = [] }, good m)
        | none ↦ (reset p, bad)
      ]
      else (p, indeterminate)

  unfoldable pub parse : NodeResponseParser → Bytes → NodeResponseParser × ParseResult M
  unfolding read_size read_message_body
  parse p bytes =
      let sb = p.sb ++ bytes in
      if ltb max_buffer_size (length sb)
      then (reset (record p { sb = sb }), bad)
      else read_message_body (read_size (record p { sb = sb }))
