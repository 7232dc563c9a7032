-- ===== src/Sercli/Calls/Expired.antt =====
-- sercli/src/node.cpp against tracker/qmake_project/requesthandler.cpp: a session that the tracker
-- does not know any more.
use sp2p.Prelude.{String, ℤ, true, false, ◌||◌, ◌≡◌, refl, ap, ◌∙◌, some, ◌>>=◌, arith}
use sp2p.Session.{get_login}
use sp2p.Message.Client.{ClientMessage}
use sp2p.Message.Node.{not_logged}
use sp2p.Message.Factory.{error_mesage}
use sp2p.Handler.World.{World, Env, Reply}
use sp2p.Handler.Dispatch.{handle_request}
use sp2p.Handler.Access.{cookie_for, handle_request_not_logged}
use sp2p.Sercli.Types.{NodeError, any_error, User, NetworkDescription}
use sp2p.Sercli.MessageFactory.{
  get_change_password_message, get_user_info_message, get_invite_user_message,
  get_list_networks_message, get_list_my_networks_message, get_list_servers_message,
  get_create_network_message, get_delete_network_message, get_update_server_message,
  get_stop_server_message, get_default_error,
}
use sp2p.Sercli.Node.{
  Node, Peer, is_active, request, exchange, connect, before_message, refused, set_logged,
  set_active,
}
use sp2p.Sercli.Node.Account
use sp2p.Sercli.Node.Networks
use sp2p.Sercli.Calls.{Call, run}

-- The operations that are one request of a logged user.
pub data Query : Type 0 where
  change_password : String → Query
  get_user_info : NetworkDescription → String → Query
  invite_user : NetworkDescription → User → Query
  get_networks_list get_my_networks : Query
  get_servers_list register_network delete_network stop_server : NetworkDescription → Query
  update_server : NetworkDescription → ℤ → Query

abbrev pub call_of : Query → Call
call_of (change_password p) = Call.change_password p
call_of (get_user_info d u) = Call.get_user_info d u
call_of (invite_user d u) = Call.invite_user d u
call_of get_networks_list = Call.get_networks_list
call_of get_my_networks = Call.get_my_networks
call_of (get_servers_list d) = Call.get_servers_list d
call_of (register_network d) = Call.register_network d
call_of (delete_network d) = Call.delete_network d
call_of (stop_server d) = Call.stop_server d
call_of (update_server d port) = Call.update_server d port

-- The request that the operation sends.
abbrev pub message_of : Query → Node → ClientMessage
message_of (change_password p) n = get_change_password_message n.my_user p n.node_connection.cookie
message_of (get_user_info d u) n = get_user_info_message d u n.node_connection.cookie
message_of (invite_user d u) n = get_invite_user_message d u n.node_connection.cookie
message_of get_networks_list n = get_list_networks_message n.node_connection.cookie
message_of get_my_networks n = get_list_my_networks_message n.node_connection.cookie
message_of (get_servers_list d) n = get_list_servers_message d n.node_connection.cookie
message_of (register_network d) n = get_create_network_message d n.node_connection.cookie
message_of (delete_network d) n = get_delete_network_message d n.node_connection.cookie
message_of (stop_server d) n = get_stop_server_message d n.node_connection.cookie
message_of (update_server d port) n = get_update_server_message d port n.node_connection.cookie

module _ (n : Node) where
  abbrev cookie : String
  cookie = n.node_connection.cookie

  cookie_for-message_of :
      (q : Query) → cookie_for (message_of q n).request (message_of q n) ≡ some cookie
  unfolding get_change_password_message get_user_info_message get_invite_user_message
      get_list_networks_message get_list_my_networks_message get_list_servers_message
      get_create_network_message get_delete_network_message get_update_server_message
      get_stop_server_message
  cookie_for-message_of (change_password p) = refl
  cookie_for-message_of _ = refl

  module _ (peer : Peer) (logged : n.node_connection.is_logged ≡ true)
      (reachable : (is_active n || peer.connects) ≡ true) where
    run_refused :
        (q : Query)
        → peer.answer (message_of q n) ≡ some (error_mesage not_logged)
        → run peer (call_of q) n ≡ some (set_logged false (connect peer n).0, NodeError.other)
    unfolding run Account.change_password Account.get_user_info Networks.invite_user
        Networks.get_networks_list Networks.get_my_networks Networks.get_servers_list
        Networks.register_network Networks.delete_network Networks.stop_server
        Networks.update_server Networks.command request before_message connect exchange refused
        set_logged set_active is_active get_default_error any_error
    run_refused (change_password p) h = ground arith
    run_refused _ h = ground arith

-- A client that takes itself for logged, and whose cookie the tracker does not know (or no longer):
-- each of the ten operations that ask one thing of the tracker changes nothing there, returns OTHER,
-- and leaves the node not logged. The node has a connection or gets one.
pub run_expired :
    (peer : Peer) (env : Env) (q : Query) (n : Node) (w : World)
    → n.node_connection.is_logged ≡ true
    → (is_active n || peer.connects) ≡ true
    → peer.answer (message_of q n)
      ≡ (do (w', reply) ← handle_request env (message_of q n) w; some reply)
    → get_login n.node_connection.cookie w.sessions ≡ some ""
    → (handle_request env (message_of q n) w ≡ some (w, error_mesage not_logged))
      × (n' : Node) × (run peer (call_of q) n ≡ some (n', NodeError.other))
      × (n'.node_connection.is_logged ≡ false)
unfolding set_logged
run_expired peer env q n w logged reachable answers unknown =
    let m = message_of q n in
    let answered =
      handle_request_not_logged env m w n.node_connection.cookie (cookie_for-message_of n q)
        unknown in
    (
      answered,
      set_logged false (connect peer n).0,
      run_refused n peer logged reachable q
          (answers ∙ ap (λ (r : Reply). do (w', reply) ← r; some reply) answered),
      refl,
    )
