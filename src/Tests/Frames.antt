-- ===== src/Tests/Frames.antt =====
-- Frames on the wire, and a connection that serves one.
use sp2p.Prelude.{
  ℕ, ◌≡◌, ◌↔◌, ◌<◌, ◌^◌, [], ◌∷◌, ◌++◌, Option, some, none, refl, pos, negsuc, false, to_int32,
  arith,
}
use sp2p.Message.Client.{ClientMessage, RequestType, bare}
use sp2p.Message.Node.{NodeMessage}
use sp2p.Handler.World.{World}
use sp2p.Handler.Dispatch.{handle_request}
use sp2p.Handler.Valid.{IsValid}
use sp2p.Wire.{Bytes, encode32, parse, parse_reads, parse_into_ostream, parsed, indeterminate}
use sp2p.Wire.Framing.{to_int32_iff, parse-parse_into_ostream, parse_reads_split}
use sp2p.Connection.{Connection, produced, start, handle_read, reads, writes}
use sp2p.Connection.Service.{handle_read_request}
use sp2p.Tests.Data.{env, tracker, tracker-IsValid}

-- A payload of three bytes is a message.
abbrev pub of_three : Bytes → Option ℕ
of_three (a ∷ b ∷ c ∷ []) = some a
of_three _ = none

abbrev pub three : ℕ → Bytes
three n = n ∷ 0 ∷ 0 ∷ []

to_int32_iff_example : (to_int32 1800000 ≡ pos 1800000) ↔ (1800000 < 2 ^ 31)
to_int32_iff_example = to_int32_iff 1800000

parse-parse_into_ostream_example :
    (parse of_three (negsuc 0) (parse_into_ostream three 7)).1 ≡ parsed 7
parse-parse_into_ostream_example = parse-parse_into_ostream of_three three 7 7 (omega arith) refl

parse_reads_split_example :
    parse_reads of_three (negsuc 0) ((encode32 3 ++ 7 ∷ []) ∷ (0 ∷ 0 ∷ []) ∷ [])
    ≡ (pos 3, indeterminate)
parse_reads_split_example =
    parse_reads_split of_three 3 (7 ∷ []) ((0 ∷ 0 ∷ []) ∷ []) (omega arith) (omega arith)
      (omega arith, tt)

abbrev pub asks : ClientMessage
asks = bare RequestType.logout

abbrev pub read_any : Bytes → Option ClientMessage
read_any b = some asks

abbrev pub send_any : ClientMessage → Bytes
send_any m = 1 ∷ []

abbrev pub answer_any : NodeMessage → Bytes
answer_any m = 2 ∷ []

handle_read_request_example :
    (start read_any answer_any env false produced tracker ≡ some (produced, tracker, reads))
    × (c : Connection) × (w' : World) × (answer : NodeMessage) × (handle_request env asks tracker
        ≡ some (w', answer))
    × (handle_read read_any answer_any env false (parse_into_ostream send_any asks) produced tracker
        ≡ some (c, w', writes (parse_into_ostream answer_any answer)))
    × IsValid w'
handle_read_request_example =
    handle_read_request read_any send_any answer_any env asks tracker tracker-IsValid refl
      (omega arith) refl
