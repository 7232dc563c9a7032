-- ===== src/Connection/Service.antt =====
-- tracker/qmake_project/connection.cpp: what a client gets for what it sends.
use sp2p.Prelude.{◌<◌, ◌^◌, ◌≡◌, refl, false, Option, some, negsuc, length}
use sp2p.Message.Client.{ClientMessage}
use sp2p.Message.Node.{NodeMessage}
use sp2p.Handler.World.{World, Env}
use sp2p.Handler.Dispatch.{handle_request}
use sp2p.Handler.Valid.{IsValid, lists_networks, handle_request_answered}
use sp2p.Wire.{Bytes, parsed, parse, parse_into_ostream}
use sp2p.Wire.Framing.{parse-parse_into_ostream}
use sp2p.Connection.{Connection, reads, writes, produced, handle_read, start}

module _ (parse_from_istream : Bytes → Option ClientMessage) (serialize : NodeMessage → Bytes)
    (env : Env) where
  start-reads :
      (w : World)
      → start parse_from_istream serialize env false produced w ≡ some (produced, w, reads)
  unfolding start handle_read parse
  start-reads w = refl

  pub handle_read_parsed :
      (bytes : Bytes) (m : ClientMessage) (c : Connection) (w w' : World) (answer : NodeMessage)
      → (parse parse_from_istream c.len bytes).1 ≡ parsed m
      → handle_request env m w ≡ some (w', answer)
      → handle_read parse_from_istream serialize env false bytes c w
        ≡ some (
          record c { len = (parse parse_from_istream c.len bytes).0 },
          w',
          writes (parse_into_ostream serialize answer),
        )
  unfolding handle_read
  handle_read_parsed bytes m c w w' answer p h = rw (p, h)

-- In a valid state of the tracker a new connection reads after its handshake. A request that then
-- comes in one read, and does not ask for a list of networks, is answered with the frame of what the handler makes of it, and the tracker's
-- state stays valid. `send` is the client's serialisation, which the tracker's protobuf is assumed
-- to undo. The request is below 2^31 bytes.
pub handle_read_request :
    (parse_from_istream : Bytes → Option ClientMessage) (send : ClientMessage → Bytes)
    (serialize : NodeMessage → Bytes) (env : Env) (m : ClientMessage) (w : World)
    → IsValid w
    → lists_networks m.request ≡ false
    → length (send m) < 2 ^ 31
    → parse_from_istream (send m) ≡ some m
    → (start parse_from_istream serialize env false produced w ≡ some (produced, w, reads))
      × (c : Connection) × (w' : World) × (answer : NodeMessage) × (handle_request env m w
          ≡ some (w', answer))
      × (handle_read parse_from_istream serialize env false (parse_into_ostream send m) produced w
          ≡ some (c, w', writes (parse_into_ostream serialize answer)))
      × IsValid w'
handle_read_request parse_from_istream send serialize env m w v other h e =
    let (w', answer, handled, valid) = handle_request_answered env m w v other in
    let whole = parse-parse_into_ostream parse_from_istream send m m h e in
    (
      start-reads parse_from_istream serialize env w,
      record produced { len = (parse parse_from_istream (negsuc 0) (parse_into_ostream send m)).0 },
      w',
      answer,
      handled,
      handle_read_parsed parse_from_istream serialize env _ m produced w w' answer whole handled,
      valid,
    )
