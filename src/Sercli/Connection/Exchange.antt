-- ===== src/Sercli/Connection/Exchange.antt =====
-- sercli/src/connection.cpp against tracker/qmake_project/connection.cpp: a request and its answer.
use sp2p.Prelude.{◌<◌, ◌^◌, ◌≡◌, refl, true, false, Option, some, negsuc, length, List, All, map}
use sp2p.Message.Client.{ClientMessage}
use sp2p.Message.Node.{NodeMessage}
use sp2p.Handler.World.{World, Env}
use sp2p.Handler.Dispatch.{handle_request}
use sp2p.Wire.{Bytes, parse, parse_into_ostream}
use sp2p.Wire.Framing.{parse-parse_into_ostream}
use sp2p.Connection.{Connection, writes, produced, handle_read, handle_write}
use sp2p.Connection.Service.{handle_read_parsed}
use sp2p.Sercli.Connection.{read, value, connected, send, send_request}
use sp2p.Sercli.Connection.Reading.{flat, read_message_lem}

-- A client writes a request, which reaches the tracker in one read, and the tracker's handler
-- answers it. Then the tracker writes bytes, and when they are written it shuts its socket down. The
-- bytes give the client that answer, in whatever pieces they arrive (none of them empty), with its
-- parser empty and its own connection still marked as active. Each message is below 2^31 bytes and
-- protobuf parses what it serialised.
pub send_request-handle_read :
    (parse_client : Bytes → Option ClientMessage) (send_client : ClientMessage → Bytes)
    (parse_node : Bytes → Option NodeMessage) (send_node : NodeMessage → Bytes) (env : Env)
    (m : ClientMessage) (answer : NodeMessage) (w w' : World)
    → length (send_client m) < 2 ^ 31
    → length (send_node answer) < 2 ^ 31
    → parse_client (send_client m) ≡ some m
    → parse_node (send_node answer) ≡ some answer
    → handle_request env m w ≡ some (w', answer)
    → (bytes : Bytes) × (c : Connection) × (handle_read parse_client send_node env false
          (send send_client m)
          produced
          w
        ≡ some (c, w', writes bytes))
      × ((handle_write false c).closed ≡ true)
      × ((reads : List Bytes)
          → All (λ p. 0 < length p) reads
          → flat reads ≡ bytes
          → send_request parse_node false (map read reads) connected ≡ (connected, value answer))
unfolding handle_write send parse_into_ostream send_request
send_request-handle_read parse_client send_client parse_node send_node env m answer w w' h k e f
      handled =
    let whole = parse-parse_into_ostream parse_client send_client m m h e in
    (
      parse_into_ostream send_node answer,
      record produced {
        len = (parse parse_client (negsuc 0) (parse_into_ostream send_client m)).0;
      },
      handle_read_parsed parse_client send_node env _ m produced w w' answer whole handled,
      refl,
      λ reads some_bytes joined.
          read_message_lem parse_node (send_node answer) answer reads k f some_bytes joined,
    )
