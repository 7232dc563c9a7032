-- ===== src/Connection.antt =====
-- tracker/qmake_project/connection.cpp: one client's connection, as the callbacks of its reads and
-- writes. What the callback asks of the socket is its action.
pub mod Service
use sp2p.Prelude.{Bool, true, false, [], Option, some, ℤ, negsuc, if◌then◌else◌, ◌>>=◌}
use sp2p.Message.Client.{ClientMessage}
use sp2p.Message.Node.{NodeMessage}
use sp2p.Handler.World.{World, Env}
use sp2p.Handler.Dispatch.{handle_request, bad_request_response}
use sp2p.Wire.{Bytes, parsed, failed, indeterminate, parse, parse_into_ostream}

pub record Connection : Type 0 where
  -- the parser's `len`
  pub len : ℤ
  -- the socket was shut down
  pub closed : Bool

abbrev pub produced : Connection
produced = record { len = negsuc 0; closed = false }

pub data Action : Type 0 where
  -- async_read_some
  reads : Action
  -- async_write
  writes : Bytes → Action
  -- the callback leaves the socket alone
  nothing : Action

module _ (parse_from_istream : Bytes → Option ClientMessage) (serialize : NodeMessage → Bytes)
    (env : Env) where
  unfoldable pub handle_read :
      Bool → Bytes → Connection → World → Option (Connection × World × Action)
  handle_read error bytes c w =
      if error
      then some (c, w, nothing)
      else let (len, result) = parse parse_from_istream c.len bytes in
        let c' = record c { len = len } in
        elim result [
          | parsed m ↦ do
            (w', reply) ← handle_request env m w
            some (c', w', writes (parse_into_ostream serialize reply))
          | failed ↦ some (c', w, writes (parse_into_ostream serialize bad_request_response))
          | indeterminate ↦ some (c', w, reads)
        ]

  -- The handshake is bound to `handle_read` with no bytes.
  unfoldable pub start : Bool → Connection → World → Option (Connection × World × Action)
  unfolding handle_read
  start error = handle_read error []

unfoldable pub handle_write : Bool → Connection → Connection
handle_write error c = if error then c else record c { closed = true }
