-- ===== src/Tests/Client.antt =====
-- The client library at work: a node of ann's, a tracker that answers it, and answers in pieces.
use sp2p.Prelude.{
  ◌≡◌, ◌<◌, refl, true, false, List, [], ◌∷◌, Option, none, some, ◌>>=◌, string_eq, nat_eq, All,
  map, arith, to_int32, length, find, rtrim, first_token, has_key,
}
use sp2p.Session.{get_login}
use sp2p.Db.Users.{get_pass_hash}
use sp2p.Util.{to_string}
use sp2p.Message.Client.{RequestType}
use sp2p.Message.Node.{NodeMessage, not_logged}
use sp2p.Message.Factory.{error_mesage, bad_request_message, login_response}
use sp2p.Handler.World.{World, good_credentials}
use sp2p.Handler.Dispatch.{handle_request, handler_of}
use sp2p.Handler.Accounts.{handle_logout}
use sp2p.Handler.Access.{has_fields, cookie_for}
use sp2p.Wire.{Bytes, encode32, decode32, drop_header}
use sp2p.Connection as Tracker
use sp2p.Sercli.Types.{
  NodeError, any_error, User, MyUser, NodeDescription, NetworkDescription, Visibility,
}
use sp2p.Sercli.Types
use sp2p.Sercli.MessageFactory.{
  get_login_message, get_delete_network_message, get_stop_server_message,
}
use sp2p.Sercli.MessageFactory.Accepted.{IsBuilt, IsBuilt-has_fields, asks_cookie}
use sp2p.Sercli.Parser.{parse, fresh, bad}
use sp2p.Sercli.Parser.Splitting.{parse-append}
use sp2p.Sercli.Parser.Bounds.{parse-IsBounded, IsBounded}
use sp2p.Sercli.Connection.{read, value, connected, send, send_request, read_message}
use sp2p.Sercli.Connection.Reading.{flat, read_message_lem}
use sp2p.Sercli.Connection.Exchange.{send_request-handle_read}
use sp2p.Sercli.ConnectionManager.{Objects}
use sp2p.Sercli.Encryption.{Botan, Files}
use sp2p.Sercli.Encryption.PrivateKeyStore.{PrivateKeyStore, set_key, get_key, save}
use sp2p.Sercli.Encryption.Storing.{get_key-save}
use sp2p.Sercli.Node.{Node, Peer, create_with, is_active, set_user}
use sp2p.Sercli.Node.Account.{log_in, logged_in}
use sp2p.Sercli.Node.Account.Tracker.{log_in-handle_request}
use sp2p.Sercli.Calls.{Call, run, run_all}
use sp2p.Sercli.Calls.Kept.{IsWf}
use sp2p.Sercli.Calls.Invariant.{run_all-IsWf}
use sp2p.Sercli.Calls.Expired.{Query, run_expired}
use sp2p.Tests.Data.{env, tracker, sessions-IsWf}
use sp2p.Tests.Frames.{of_three, three, asks, read_any, send_any, answer_any}

abbrev pub ann : MyUser
ann = record {
  user = record { username = "ann"; email = "ann@x" };
  password = "secret";
  is_registered = false;
}

abbrev pub tracker_node : NodeDescription
tracker_node = record { ip_address = "10.0.0.9"; node_name = "home"; port = 443 }

abbrev pub chess : NetworkDescription
chess = record {
  access_rights = Types.public;
  visability = Types.listed;
  participation_rights = Types.client_server;
  protocol_name = "uci";
  network_name = "chess";
  creator = ann.user;
}

-- Encodings that change nothing.
abbrev pub botan : Botan
botan = record {
  encode_encrypted = λ key password. key;
  encode_private = λ key. key;
  load_private = λ content password. some content;
  opens = λ path. true;
  encode_public = λ key. key;
  load_public = some;
  encode_certificate = λ c. c;
  load_certificate = some;
}

abbrev pub at_tracker : Peer
at_tracker = record {
  connects = true;
  answer = λ m. (do (w', reply) ← handle_request env m tracker; some reply);
  botan = botan;
  files = [];
  create_cert_req = λ options key. key;
  from_string = some;
  to_text = λ n. "0";
}

abbrev pub anns : Node
anns = record {
  node_desc = tracker_node;
  my_user = ann;
  private_keys = [];
  free_certs = [];
  net_certs = [];
  net_keys = [];
  node_certs = [];
  node_connection = record { cookie = ""; is_logged = false; active = false };
}

-- ann's node with a cookie that the tracker does not know.
abbrev expired : Node
expired = record anns {
  my_user = record ann { is_registered = true };
  node_connection = record { cookie = "old"; is_logged = true; active = false };
}

parse-append_example :
    parse of_three (parse of_three fresh (3 ∷ 0 ∷ 0 ∷ 0 ∷ 7 ∷ [])).0 (0 ∷ 0 ∷ [])
    ≡ parse of_three fresh (3 ∷ 0 ∷ 0 ∷ 0 ∷ 7 ∷ 0 ∷ 0 ∷ [])
unfolding parse to_int32 decode32 drop_header
parse-append_example =
    parse-append of_three (3 ∷ 0 ∷ 0 ∷ 0 ∷ 7 ∷ []) (0 ∷ 0 ∷ []) (omega arith) (λ _. refl) refl

parse-IsBounded_example :
    IsBounded (parse of_three fresh (3 ∷ 0 ∷ 0 ∷ 0 ∷ 7 ∷ [])).0
    × ((parse of_three fresh (3 ∷ 0 ∷ 0 ∷ 0 ∷ 7 ∷ [])).1 ≡ bad
        → (parse of_three fresh (3 ∷ 0 ∷ 0 ∷ 0 ∷ 7 ∷ [])).0 ≡ fresh)
parse-IsBounded_example =
    parse-IsBounded of_three fresh (3 ∷ 0 ∷ 0 ∷ 0 ∷ 7 ∷ []) (omega arith, omega arith)

read_message_example :
    read_message of_three (map read ((3 ∷ 0 ∷ []) ∷ (0 ∷ 0 ∷ 7 ∷ []) ∷ (0 ∷ 0 ∷ []) ∷ [])) connected
    ≡ (connected, value 7)
unfolding encode32
read_message_example =
    read_message_lem of_three (three 7) 7 ((3 ∷ 0 ∷ []) ∷ (0 ∷ 0 ∷ 7 ∷ []) ∷ (0 ∷ 0 ∷ []) ∷ [])
      (omega arith) refl (omega arith, (omega arith, (omega arith, tt))) refl

IsBuilt-has_fields_example :
    (has_fields RequestType.delete_network (get_delete_network_message chess "c1") ≡ true)
    × (asks_cookie RequestType.delete_network ≡ true
        → cookie_for RequestType.delete_network (get_delete_network_message chess "c1") ≡ some "c1")
unfolding get_delete_network_message
IsBuilt-has_fields_example =
    IsBuilt-has_fields "c1" (get_delete_network_message chess "c1") (IsBuilt.delete_network chess)

abbrev kept : PrivateKeyStore
kept = record {
  element = record { name = "k"; filename = "k.pem"; path = "/home" };
  priv_key = some "key";
  password = "pw";
}

get_key-save_example :
    (files' : Files) × (save botan "/home" kept [] ≡ some files')
    × (get_key botan files' (set_key none kept) ≡ some (kept, some "key"))
get_key-save_example = get_key-save botan kept "key" [] refl refl refl (λ _. refl)

abbrev all_open : Objects
all_open = λ n. connected

log_in-handle_request_example :
    (w' : World) × (reply : NodeMessage) × (n' : Node) × (handle_request env
        (get_login_message "ann" "secret")
        tracker
      ≡ some (w', reply))
    × (log_in at_tracker anns ≡ some (n', NodeError.ok, tt))
    × (n'.node_connection.is_logged ≡ true)
    × (n'.my_user.is_registered ≡ true)
    × (get_login n'.node_connection.cookie w'.sessions ≡ some n'.my_user.user.username)
unfolding is_active good_credentials get_pass_hash find rtrim to_string first_token
log_in-handle_request_example =
    log_in-handle_request at_tracker env anns tracker refl refl refl sessions-IsWf refl

run_expired_example :
    (handle_request env (get_stop_server_message chess "old") tracker
      ≡ some (tracker, error_mesage not_logged))
    × (n' : Node) × (run at_tracker (Call.stop_server chess) expired ≡ some (n', NodeError.other))
    × (n'.node_connection.is_logged ≡ false)
unfolding is_active get_login has_key
run_expired_example =
    run_expired at_tracker env (Query.stop_server chess) expired tracker refl refl refl refl

-- A tracker that lets everybody in.
abbrev open_tracker : Peer
open_tracker = record at_tracker { answer = λ m. some (login_response "c9" "cert") }

abbrev calls : List (Peer × Call)
calls = (open_tracker, Call.set_user ann) ∷ (open_tracker, Call.log_in) ∷ []

abbrev logged_in_node : Node
logged_in_node = record anns {
  my_user = record ann { is_registered = true };
  node_connection = record { cookie = "c9"; is_logged = true; active = true };
}

run_all-IsWf_example : IsWf logged_in_node
unfolding run_all create_with set_user is_active log_in logged_in any_error login_response
run_all-IsWf_example = run_all-IsWf tracker_node ann calls logged_in_node refl

abbrev read_answer : Bytes → Option NodeMessage
read_answer b = some bad_request_message

send_request-handle_read_example :
    (bytes : Bytes) × (c : Tracker.Connection) × (Tracker.handle_read read_any answer_any env false
        (send send_any asks)
        Tracker.produced
        tracker
      ≡ some (c, tracker, Tracker.writes bytes))
    × ((Tracker.handle_write false c).closed ≡ true)
    × ((reads : List Bytes)
        → All (λ p. 0 < length p) reads
        → flat reads ≡ bytes
        → send_request read_answer false (map read reads) connected
          ≡ (connected, value bad_request_message))
unfolding handle_request handler_of handle_logout
send_request-handle_read_example =
    send_request-handle_read read_any send_any read_answer answer_any env asks bad_request_message
      tracker tracker (omega arith) (omega arith) refl refl refl
