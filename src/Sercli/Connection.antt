-- ===== src/Sercli/Connection.antt =====
-- sercli/src/{connection,handler}.cpp: the client's side of a connection, as its
-- sends and reads. Sockets, TLS and the strand are the system's: what the strand was given has run.
pub mod Reading
pub mod Exchange
use sp2p.Prelude.{Bool, true, false, List, [], ◌∷◌, ◌++◌, Option, length, if◌then◌else◌}
use sp2p.Wire.{Bytes, encode32}
use sp2p.Sercli.Parser.{NodeResponseParser, good, bad, indeterminate, fresh, parse}

pub record Connection : Type 0 where
  -- socket.lowest_layer().is_open()
  pub is_open : Bool
  pub is_active : Bool
  pub parser : NodeResponseParser

abbrev pub connected : Connection
connected = record { is_open = true; is_active = true; parser = fresh }

unfoldable pub stop : Connection → Connection
stop c = if c.is_open then record c { is_open = false; is_active = false } else c

-- A socket that is shut down is still open.
unfoldable pub graceful_stop : Connection → Connection
graceful_stop c = if c.is_open then record c { is_active = false } else c

-- The bytes of a request.
unfoldable pub send : {M : Type 0} → (M → Bytes) → M → Bytes
send serialize request = let payload = serialize request in encode32 (length payload) ++ payload

-- What `async_read_some` gives: some bytes, or an error.
pub data Read : Type 0 where
  read : Bytes → Read
  read_error : Read

-- The future of `sendRequest`: its value, a SendException, or nothing yet.
pub data Future (M : Type 0) : Type 0 where
  value : M → Future M
  send_exception pending : Future M

-- `handleReadError`, `handleParseError` and `handleSendError` stop the connection.
module _ {M : Type 0} (parse_from_istream : Bytes → Option M) where
  unfoldable pub read_message : List Read → Connection → Connection × Future M
  unfolding stop
  read_message [] c = (c, pending)
  read_message (read_error ∷ reads) c = (stop c, send_exception)
  read_message (read bytes ∷ reads) c =
      let (p, result) = parse parse_from_istream c.parser bytes in
      let c' = record c { parser = p } in
      let next = read_message reads c' in
      elim result [
        | good m ↦ (c', value m)
        | bad ↦ (stop c', send_exception)
        | indeterminate ↦ next
      ]

  -- `error` is that of the write.
  unfoldable pub send_request : Bool → List Read → Connection → Connection × Future M
  unfolding read_message stop
  send_request error reads c = if error then (stop c, send_exception) else read_message reads c
